-- ===== src/Prelude/Alls.antt =====
-- A predicate on every row of a table, as INSERT, UPDATE and DELETE keep it.
use mathlib.Core.Path.{◌≡◌}
use mathlib.Core.Bool.{Bool, true}
use mathlib.Core.Logic.{inl, inr}
use mathlib.Core.List.{List, [], ◌∷◌, ◌++◌}
use book_club.Prelude.Tests.{Bool-cases}
use book_club.Prelude.Rows.{update_where, delete_where}
use book_club.Prelude.Lists.{All}

module _ {ℓ κ} {A : Type ℓ} (P : A → Type κ) where
  pub All-snoc : (xs : List A) (y : A) → All P xs → P y → All P (xs ++ y ∷ [])
  All-snoc [] y h k = (k, tt)
  All-snoc (x ∷ xs) y (p, h) k = (p, All-snoc xs y h k)

  pub All-delete_where : (q : A → Bool) (xs : List A) → All P xs → All P (delete_where q xs)
  All-delete_where q [] h = tt
  All-delete_where q (x ∷ xs) (p, h) = elim (Bool-cases (q x)) [
    | inl gone ↦ rw gone (All-delete_where q xs h)
    | inr kept ↦ rw kept (p, All-delete_where q xs h)
  ]

  pub All-update_where :
      (q : A → Bool) (g : A → A) (xs : List A)
      → ((x : A) → q x ≡ true → P x → P (g x))
      → All P xs
      → All P (update_where q g xs)
  All-update_where q g [] keeps h = tt
  All-update_where q g (x ∷ xs) keeps (p, h) = elim (Bool-cases (q x)) [
    | inl changed ↦ rw changed (keeps x changed p, All-update_where q g xs keeps h)
    | inr kept ↦ rw kept (p, All-update_where q g xs keeps h)
  ]
