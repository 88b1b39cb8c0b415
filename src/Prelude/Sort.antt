-- ===== src/Prelude/Sort.antt =====
-- ORDER BY over a table: a stable insertion sort, which keeps rows that compare alike in the order of
-- insertion.
use Prim.Native.Nat.{ℕ, ◌+◌}
use mathlib.Core.Path.{◌≡◌, refl}
use mathlib.Core.Bool.{Bool}
use mathlib.Core.List.{List, [], ◌∷◌}
use native.Mathlib.Omega.{arith}
use book_club.Prelude.Tests.{if◌then◌else◌}
use book_club.Prelude.Rows.{sum_where, share}

module _ {ℓ} {A : Type ℓ} where
  -- Before the first row that does not come before it.
  abbrev pub insert_by : (A → A → Bool) → A → List A → List A
  insert_by before x [] = x ∷ []
  insert_by before x (y ∷ ys) =
      let rest = insert_by before x ys in if before x y then x ∷ y ∷ ys else y ∷ rest

  abbrev pub sort_by : (A → A → Bool) → List A → List A
  sort_by before [] = []
  sort_by before (x ∷ xs) = insert_by before x (sort_by before xs)

  sum_where-insert_by :
      (p : A → Bool) (f : A → ℕ) (before : A → A → Bool) (x : A) (ys : List A)
      → sum_where p f (insert_by before x ys) ≡ share p f x + sum_where p f ys
  sum_where-insert_by p f before x [] = refl
  sum_where-insert_by p f before x (y ∷ ys) = ground (arith, sum_where-insert_by p f before x ys)

  -- Sorting keeps every sum over the rows.
  pub sum_where-sort_by :
      (p : A → Bool) (f : A → ℕ) (before : A → A → Bool) (xs : List A)
      → sum_where p f (sort_by before xs) ≡ sum_where p f xs
  sum_where-sort_by p f before [] = refl
  sum_where-sort_by p f before (x ∷ xs) =
      omega (
        arith,
        sum_where-insert_by p f before x (sort_by before xs),
        sum_where-sort_by p f before xs,
      )
