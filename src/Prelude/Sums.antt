-- ===== src/Prelude/Sums.antt =====
-- Sums over selected rows, and searches by a key that one row has.
use Prim.Native.Nat.{ℕ, ◌≤◌}
use mathlib.Core.Path.{◌≡◌, refl}
use mathlib.Core.Bool.{Bool, true, ◌&&◌}
use mathlib.Core.Option.{some}
use mathlib.Core.List.{List, [], ◌∷◌, ◌++◌}
use native.Mathlib.Omega.{arith}
use book_club.Prelude.Rows.{select, first, sum_where, count_where}
use book_club.Prelude.Lists.{All}

module _ {ℓ} {A : Type ℓ} where
  pub sum_where-select :
      (p q : A → Bool) (f : A → ℕ) (xs : List A)
      → sum_where p f (select q xs) ≡ sum_where (λ x. q x && p x) f xs
  sum_where-select p q f [] = refl
  sum_where-select p q f (x ∷ xs) = ground (arith, sum_where-select p q f xs)

  pub sum_where-cong :
      (p : A → Bool) (f g : A → ℕ) (xs : List A)
      → ((x : A) → f x ≡ g x)
      → sum_where p f xs ≡ sum_where p g xs
  sum_where-cong p f g [] same = refl
  sum_where-cong p f g (x ∷ xs) same = ground (arith, same x, sum_where-cong p f g xs same)

  -- The same, where the summands agree on the rows that are selected.
  pub sum_where-select-All :
      (p q : A → Bool) (f g : A → ℕ) (xs : List A)
      → All (λ x. q x ≡ true → f x ≡ g x) xs
      → sum_where p f (select q xs) ≡ sum_where p g (select q xs)
  sum_where-select-All p q f g [] h = refl
  sum_where-select-All p q f g (x ∷ xs) (same, h) =
      ground (arith, same, sum_where-select-All p q f g xs h)

  pub sum_where-zero : (p : A → Bool) (xs : List A) → sum_where p (λ x. 0) xs ≡ 0
  sum_where-zero p [] = refl
  sum_where-zero p (x ∷ xs) = ground (arith, sum_where-zero p xs)

  pub count_where-cong :
      (p q : A → Bool) (xs : List A) → ((x : A) → p x ≡ q x) → count_where p xs ≡ count_where q xs
  count_where-cong p q [] same = refl
  count_where-cong p q (x ∷ xs) same = ground (arith, same x, count_where-cong p q xs same)

  pub first-append_list :
      (p : A → Bool) (xs ys : List A) (x : A) → first p xs ≡ some x → first p (xs ++ ys) ≡ some x
  first-append_list p [] ys x h = cc
  first-append_list p (z ∷ xs) ys x h = ground (arith, first-append_list p xs ys x)

  -- The one row with a key, counted by a test that it passes too.
  pub count_where_unique :
      (p q : A → Bool) (xs : List A) (x : A)
      → count_where q xs ≤ 1
      → first q xs ≡ some x
      → p x ≡ true
      → count_where (λ y. p y && q y) xs ≡ 1
  count_where_unique p q [] x one h k = cc
  count_where_unique p q (y ∷ xs) x one h k =
      ground (arith, count_where_unique p q xs x, count_where-none p q xs)
    where
      count_where-none :
          (p q : A → Bool) (xs : List A)
          → count_where q xs ≡ 0
          → count_where (λ y. p y && q y) xs ≡ 0
      count_where-none p q [] h = refl
      count_where-none p q (x ∷ xs) h = ground (arith, count_where-none p q xs)
