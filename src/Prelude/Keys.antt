-- ===== src/Prelude/Keys.antt =====
-- Searches by a key that at most one row has, and what a DELETE leaves.
use Prim.Native.Nat.{◌≤◌}
use mathlib.Core.Path.{◌≡◌, refl}
use mathlib.Core.Bool.{Bool, true, false}
use mathlib.Core.Option.{Option, none, some}
use mathlib.Core.List.{List, [], ◌∷◌, ◌++◌}
use native.Mathlib.Omega.{arith}
use book_club.Prelude.Tests.{if◌then◌else◌}
use book_club.Prelude.Rows.{first, update_where, delete_where, count_where}

module _ {ℓ} {A : Type ℓ} where
  -- A row that was found counts for every test that it passes.
  pub first-count :
      (p q : A → Bool) (xs : List A) (x : A)
      → first p xs ≡ some x
      → q x ≡ true
      → 1 ≤ count_where q xs
  first-count p q [] x h k = cc
  first-count p q (y ∷ xs) x h k = ground (arith, first-count p q xs x)

  -- A row found by one test is the row that its key finds.
  pub first-by_key :
      (p q : A → Bool) (xs : List A) (x : A)
      → count_where q xs ≤ 1
      → first p xs ≡ some x
      → q x ≡ true
      → first q xs ≡ some x
  first-by_key p q [] x one h k = cc
  first-by_key p q (y ∷ xs) x one h k = ground (arith, first-by_key p q xs x, first-count p q xs x)

  pub count_where-delete :
      (p q : A → Bool) (xs : List A) → count_where p (delete_where q xs) ≤ count_where p xs
  count_where-delete p q [] = omega arith
  count_where-delete p q (x ∷ xs) = ground (arith, count_where-delete p q xs)

  pub first-delete : (p : A → Bool) (xs : List A) → first p (delete_where p xs) ≡ none
  first-delete p [] = refl
  first-delete p (x ∷ xs) = ground (arith, first-delete p xs)

  -- A DELETE of other rows leaves what a search finds.
  pub first-delete_other :
      (p q : A → Bool) (xs : List A)
      → ((x : A) → p x ≡ true → q x ≡ false)
      → first p (delete_where q xs) ≡ first p xs
  first-delete_other p q [] apart = refl
  first-delete_other p q (x ∷ xs) apart = ground (arith, first-delete_other p q xs apart, apart x)

  -- An update that keeps the keys leaves every key as often as before.
  pub count_where-update :
      (p q : A → Bool) (g : A → A) (rows : List A)
      → ((x : A) → p (g x) ≡ p x)
      → count_where p (update_where q g rows) ≡ count_where p rows
  count_where-update p q g [] same = refl
  count_where-update p q g (x ∷ rows) same =
      ground (arith, same x, count_where-update p q g rows same)

  -- A row as an update leaves it.
  abbrev pub updated : (A → Bool) → (A → A) → Option A → Option A
  updated q g none = none
  updated q g (some x) = some (if q x then g x else x)

  pub first-updated :
      (p q : A → Bool) (g : A → A) (xs : List A)
      → ((x : A) → p (g x) ≡ p x)
      → first p (update_where q g xs) ≡ updated q g (first p xs)
  first-updated p q g [] same = refl
  first-updated p q g (x ∷ xs) same = ground (arith, first-updated p q g xs same, same x)

  -- No row has a key that no search finds.
  pub first-absent : (p : A → Bool) (xs : List A) → count_where p xs ≡ 0 → first p xs ≡ none
  first-absent p [] h = refl
  first-absent p (x ∷ xs) h = ground (arith, first-absent p xs)

  -- What a search finds in a table that has grown by a row.
  abbrev pub or_new : Option A → (A → Bool) → A → Option A
  or_new none p y = if p y then some y else none
  or_new (some x) p y = some x

  pub first-snoc :
      (p : A → Bool) (xs : List A) (y : A) → first p (xs ++ y ∷ []) ≡ or_new (first p xs) p y
  first-snoc p [] y = refl
  first-snoc p (x ∷ xs) y = ground (arith, first-snoc p xs y)

  delete_none : (q : A → Bool) (xs : List A) → count_where q xs ≡ 0 → delete_where q xs ≡ xs
  delete_none q [] h = refl
  delete_none q (x ∷ xs) h = ground (arith, delete_none q xs)

  -- A DELETE of the one row with a key leaves what a search for another row finds.
  pub first-delete_key :
      (p q : A → Bool) (xs : List A) (x : A)
      → count_where q xs ≤ 1
      → first q xs ≡ some x
      → p x ≡ false
      → first p (delete_where q xs) ≡ first p xs
  first-delete_key p q [] x one h k = refl
  first-delete_key p q (y ∷ xs) x one h k =
      ground (arith, first-delete_key p q xs x, delete_none q xs)

  -- A DELETE that takes the one row that a search finds leaves it nothing.
  pub first-delete_only :
      (p q : A → Bool) (xs : List A) (x : A)
      → count_where p xs ≤ 1
      → first p xs ≡ some x
      → q x ≡ true
      → first p (delete_where q xs) ≡ none
  first-delete_only p q [] x one h k = refl
  first-delete_only p q (y ∷ xs) x one h k = ground (
    arith,
    first-delete_only p q xs x,
    count_where-delete p q xs,
    first-absent p (delete_where q xs),
  )
