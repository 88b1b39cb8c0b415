-- ===== src/Prelude/Rows.antt =====
-- A table is the list of its rows, oldest first. The statements that the repositories send to the
-- database, over tables: SELECT … WHERE, its first row, UPDATE … WHERE, DELETE … WHERE, COUNT and SUM.
use Prim.Native.Nat.{ℕ, ◌+◌, ◌≤◌}
use mathlib.Core.Path.{◌≡◌, refl}
use mathlib.Core.Bool.{Bool, true, false}
use mathlib.Core.Option.{Option, none, some}
use mathlib.Core.Logic.{inl, inr}
use mathlib.Core.List.{List, [], ◌∷◌, ◌++◌}
use native.Mathlib.Omega.{arith}
use book_club.Prelude.Tests.{if◌then◌else◌, Bool-cases}

module _ {ℓ} {A : Type ℓ} where
  abbrev pub select : (A → Bool) → List A → List A
  select p [] = []
  select p (x ∷ xs) = let rest = select p xs in if p x then x ∷ rest else rest

  abbrev pub first : (A → Bool) → List A → Option A
  first p [] = none
  first p (x ∷ xs) = let rest = first p xs in if p x then some x else rest

  abbrev pub update_where : (A → Bool) → (A → A) → List A → List A
  update_where p f [] = []
  update_where p f (x ∷ xs) = (if p x then f x else x) ∷ update_where p f xs

  abbrev pub delete_where : (A → Bool) → List A → List A
  delete_where p [] = []
  delete_where p (x ∷ xs) = let rest = delete_where p xs in if p x then rest else x ∷ rest

  abbrev pub sum_where : (A → Bool) → (A → ℕ) → List A → ℕ
  sum_where p f [] = 0
  sum_where p f (x ∷ xs) = (if p x then f x else 0) + sum_where p f xs

  abbrev pub count_where : (A → Bool) → List A → ℕ
  count_where p = sum_where p (λ x. 1)

  -- What a row adds to a sum.
  abbrev pub share : (A → Bool) → (A → ℕ) → A → ℕ
  share p f x = if p x then f x else 0

  pub sum_where-append :
      (p : A → Bool) (f : A → ℕ) (xs ys : List A)
      → sum_where p f (xs ++ ys) ≡ sum_where p f xs + sum_where p f ys
  sum_where-append p f [] ys = omega arith
  sum_where-append p f (x ∷ xs) ys = omega (arith, sum_where-append p f xs ys)

  pub first-none : (p : A → Bool) (xs : List A) → first p xs ≡ none → count_where p xs ≡ 0
  first-none p [] h = refl
  first-none p (x ∷ xs) h = ground (arith, first-none p xs)

  pub first-some :
      (p : A → Bool) (xs : List A) (x : A)
      → first p xs ≡ some x
      → (p x ≡ true) × (1 ≤ count_where p xs)
  first-some p [] x h = cc
  first-some p (y ∷ xs) x h = ground (arith, first-some p xs x)

  pub first-append :
      (p : A → Bool) (xs : List A) (y : A)
      → first p xs ≡ none
      → p y ≡ true
      → first p (xs ++ y ∷ []) ≡ some y
  first-append p [] y h k = ground arith
  first-append p (x ∷ xs) y h k = ground (arith, first-append p xs y)

  -- An update that selects no row changes nothing.
  pub sum_where-update_none :
      (p q : A → Bool) (f : A → ℕ) (g : A → A) (xs : List A)
      → count_where q xs ≡ 0
      → sum_where p f (update_where q g xs) ≡ sum_where p f xs
  sum_where-update_none p q f g [] h = refl
  sum_where-update_none p q f g (x ∷ xs) h = ground (arith, sum_where-update_none p q f g xs)

  -- An update of the one row that it selects exchanges that row's share of the sum.
  pub sum_where-update_one :
      (p q : A → Bool) (f : A → ℕ) (g : A → A) (xs : List A) (x : A)
      → count_where q xs ≤ 1
      → first q xs ≡ some x
      → sum_where p f (update_where q g xs) + share p f x ≡ sum_where p f xs + share p f (g x)
  sum_where-update_one p q f g [] x h e = cc
  sum_where-update_one p q f g (y ∷ xs) x h e = elim (Bool-cases (q y)) [
    | inl found ↦
        let same : y ≡ x = ground arith in
        rw (found, same) (omega (arith, sum_where-update_none p q f g xs (ground arith)))
    | inr other ↦
        rw other (omega (arith, sum_where-update_one p q f g xs x (ground arith) (rw other at e)))
  ]

  -- The first row that an update selects is found again, as it was changed.
  pub first-update :
      (p : A → Bool) (g : A → A) (xs : List A) (x : A)
      → ((y : A) → p (g y) ≡ p y)
      → first p xs ≡ some x
      → first p (update_where p g xs) ≡ some (g x)
  first-update p g [] x same h = cc
  first-update p g (y ∷ xs) x same h = ground (arith, first-update p g xs x same, same y)

  -- A search passes over a row that it does not select.
  pub first-append_other :
      (p : A → Bool) (xs : List A) (y : A) → p y ≡ false → first p (xs ++ y ∷ []) ≡ first p xs
  first-append_other p [] y h = ground arith
  first-append_other p (x ∷ xs) y h = ground (arith, first-append_other p xs y)

  -- A search for rows that an update leaves alone finds what it found before.
  pub first-update_other :
      (p q : A → Bool) (g : A → A) (xs : List A)
      → ((y : A) → p (g y) ≡ p y)
      → ((y : A) → q y ≡ true → p y ≡ false)
      → first p (update_where q g xs) ≡ first p xs
  first-update_other p q g [] same apart = refl
  first-update_other p q g (y ∷ xs) same apart =
      ground (arith, first-update_other p q g xs same apart, same y, apart y)

  -- The same, where the update selects more rows than the search.
  pub first-update_wider :
      (p q : A → Bool) (g : A → A) (xs : List A) (x : A)
      → ((y : A) → p (g y) ≡ p y)
      → ((y : A) → p y ≡ true → q y ≡ true)
      → first p xs ≡ some x
      → first p (update_where q g xs) ≡ some (g x)
  first-update_wider p q g [] x same wider h = cc
  first-update_wider p q g (y ∷ xs) x same wider h =
      ground (arith, first-update_wider p q g xs x same wider, same y, wider y)

  -- A search that succeeded still finds the same row when the table grows.
  pub first-append_found :
      (p : A → Bool) (xs : List A) (x y : A) → first p xs ≡ some x → first p (xs ++ y ∷ []) ≡ some x
  first-append_found p [] x y h = cc
  first-append_found p (z ∷ xs) x y h = ground (arith, first-append_found p xs x y)
