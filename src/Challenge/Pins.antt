-- ===== src/Challenge/Pins.antt =====
-- The order of a user's pinned badges.
use book_club.Prelude.{
  ℕ, ◌+◌, ◌≡◌, refl, Bool, false, some, List, [], ◌∷◌, ◌++◌, ◌||◌, arith, ◌==◌, Bool-cases, inl,
  inr, first, first-update, first-update_other, first-update_wider, update_where, length,
}
use book_club.Core.Session.{Session, ok}
use book_club.Challenge.Models.{UserBadge}
use book_club.Challenge.Repository
use book_club.Challenge.Repository.{owns, belongs_to, pinned, pin_from}
use book_club.Challenge.Service.{reorder_pinned_badges}

abbrev listed : ℕ → List ℕ → Bool
listed badge_id [] = false
listed badge_id (b ∷ ids) = b == badge_id || listed badge_id ids

-- A badge that the list does not name keeps its position.
pin_from-unlisted :
    (user_id badge_id order : ℕ) (ids : List ℕ) (rows : List UserBadge)
    → listed badge_id ids ≡ false
    → first (owns user_id badge_id) (pin_from user_id order ids rows)
      ≡ first (owns user_id badge_id) rows
unfolding pin_from
pin_from-unlisted user_id badge_id order [] rows h = refl
pin_from-unlisted user_id badge_id order (b ∷ ids) rows h = ground (
  arith,
  h,
  pin_from-unlisted user_id badge_id (order + 1) ids
      (update_where (owns user_id b) (pinned order) rows) (ground arith),
  first-update_other (owns user_id badge_id) (owns user_id b) (pinned order) rows (λ y. refl)
      (λ y e. ground (arith, h, e)),
)

-- The last place that the list gives a badge is its position.
pin_from-listed :
    (user_id badge_id order : ℕ) (before after : List ℕ) (rows : List UserBadge) (ub : UserBadge)
    → listed badge_id after ≡ false
    → first (owns user_id badge_id) rows ≡ some ub
    → first (owns user_id badge_id) (pin_from user_id order (before ++ badge_id ∷ after) rows)
      ≡ some (pinned (order + length before) ub)
unfolding pin_from
pin_from-listed user_id badge_id order [] after rows ub h found = ground (
  arith,
  pin_from-unlisted user_id badge_id (order + 1) after
      (update_where (owns user_id badge_id) (pinned order) rows) h,
  first-update (owns user_id badge_id) (pinned order) rows ub (λ y. refl) found,
)
pin_from-listed user_id badge_id order (x ∷ before) after rows ub h found =
    let rows' = update_where (owns user_id x) (pinned order) rows in
    elim (Bool-cases (x == badge_id)) [
      | inl same ↦
          let e : x ≡ badge_id = ground arith in
          ground (
            arith,
            e,
            first-update (owns user_id badge_id) (pinned order) rows ub (λ y. refl) found,
            pin_from-listed user_id badge_id (order + 1) before after rows' (pinned order ub) h,
          )
      | inr other ↦ ground (
        arith,
        first-update_other (owns user_id badge_id) (owns user_id x) (pinned order) rows (λ y. refl)
            (λ y e. ground (arith, other, e)),
        pin_from-listed user_id badge_id (order + 1) before after rows' ub h,
      )
    ]

pin_from-other :
    (user_id other badge_id order : ℕ) (ids : List ℕ) (rows : List UserBadge)
    → (user_id == other) ≡ false
    → first (owns other badge_id) (pin_from user_id order ids rows)
      ≡ first (owns other badge_id) rows
unfolding pin_from
pin_from-other user_id other badge_id order [] rows apart = refl
pin_from-other user_id other badge_id order (b ∷ ids) rows apart = ground (
  arith,
  apart,
  pin_from-other user_id other badge_id (order + 1) ids
      (update_where (owns user_id b) (pinned order) rows) apart,
  first-update_other (owns other badge_id) (owns user_id b) (pinned order) rows (λ y. refl)
      (λ y e. ground (arith, apart, e)),
)

-- After a reordering that returns, a badge that the user owns stands at the last place that the list gives
-- it, counted from 0.
reorder_pinned_badges_positions :
    (user_id badge_id : ℕ) (before after : List ℕ) (s s' : Session) (ub : UserBadge)
    → reorder_pinned_badges user_id (before ++ badge_id ∷ after) s ≡ (ok tt, s')
    → listed badge_id after ≡ false
    → first (owns user_id badge_id) s.db.user_badges ≡ some ub
    → first (owns user_id badge_id) s'.db.user_badges ≡ some (pinned (length before) ub)
unfolding reorder_pinned_badges Repository.reorder_pinned_badges
reorder_pinned_badges_positions user_id badge_id before after s s' ub h last found =
    let rows = update_where (belongs_to user_id) (pinned 0) s.db.user_badges in
    let reset : first (owns user_id badge_id) rows ≡ some (pinned 0 ub) =
      first-update_wider (owns user_id badge_id) (belongs_to user_id) (pinned 0) s.db.user_badges ub
        (λ y. refl) (λ y e. ground arith) found in
    ground (
      arith,
      h,
      reset,
      pin_from-listed user_id badge_id 0 before after rows (pinned 0 ub) last reset,
    )

-- A reordering leaves the badges of every other user at their positions, whether the call raises or not.
reorder_pinned_badges_others :
    (user_id other badge_id : ℕ) (ids : List ℕ) (s : Session)
    → (user_id == other) ≡ false
    → first (owns other badge_id) (reorder_pinned_badges user_id ids s).1.db.user_badges
      ≡ first (owns other badge_id) s.db.user_badges
unfolding reorder_pinned_badges Repository.reorder_pinned_badges
reorder_pinned_badges_others user_id other badge_id ids s apart =
    let rows = update_where (belongs_to user_id) (pinned 0) s.db.user_badges in
    ground (
      arith,
      apart,
      pin_from-other user_id other badge_id 0 ids rows apart,
      first-update_other (owns other badge_id) (belongs_to user_id) (pinned 0) s.db.user_badges
          (λ y. refl) (λ y e. ground (arith, apart, e)),
    )
