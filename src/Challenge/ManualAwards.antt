-- ===== src/Challenge/ManualAwards.antt =====
-- Awards of badges by an administrator.
use book_club.Prelude.{
  ℕ, ◌≡◌, refl, inl, inr, true, Option, none, some, arith, ◌==◌, if◌then◌else◌, first, count_where,
  first-some, Option-cases,
}
use book_club.Core.Exceptions.{challenge_expired, conflict_error}
use book_club.Core.Session.{Session, ok, err}
use book_club.Challenge.Models.{Badge, Challenge}
use book_club.Challenge.Repository.{
  get_badge, has_badge, get_limited_challenge_by_exclusive_badge, owns_exclusive,
}
use book_club.Challenge.Service.{
  is_past, award_if_found, award_badge, guard_exclusive_badge_deadline,
}
use book_club.Challenge.Effects.{after_award, award_if_found_lem}
use book_club.Challenge.Awards.{after_award-has_badge}

-- Where one limited challenge names the badge as its exclusive badge, an award by an administrator raises
-- CHALLENGE_EXPIRED and changes nothing exactly when that challenge's deadline has passed, and gives the
-- badge once otherwise.
pub award_badge_guarded :
    (now user_id badge_id : ℕ) (s : Session) (badge : Badge) (ch : Challenge)
    → get_badge badge_id s.db ≡ some badge
    → count_where (owns_exclusive badge_id) s.db.challenges ≡ 1
    → first (owns_exclusive badge_id) s.db.challenges ≡ some ch
    → award_badge now user_id badge_id s ≡ (
        if is_past now ch.ends_at_exclusive
        then (err (conflict_error challenge_expired), s)
        else (ok tt, after_award user_id (some badge) s))
unfolding award_badge guard_exclusive_badge_deadline get_limited_challenge_by_exclusive_badge
    award_if_found
award_badge_guarded now user_id badge_id s badge ch catalogued one found = ground (
  arith,
  catalogued,
  one,
  found,
  first-some (λ b. b.id == badge_id) s.db.badges badge catalogued,
  award_if_found_lem user_id (some badge) s,
)

award_badge_ok :
    (now user_id badge_id : ℕ) (s s' : Session)
    → award_badge now user_id badge_id s ≡ (ok tt, s')
    → (badge : Badge) × (get_badge badge_id s.db ≡ some badge)
      × (s' ≡ after_award user_id (some badge) s)
unfolding award_badge guard_exclusive_badge_deadline get_limited_challenge_by_exclusive_badge
    award_if_found
award_badge_ok now user_id badge_id s s' h = elim (Option-cases (get_badge badge_id s.db)) [
  | inl missing ↦ ground (arith, h, missing)
  | inr (badge, found) ↦
      (badge, found, ground (arith, h, found, award_if_found_lem user_id (some badge) s))
]

award_badge_owned :
    (now user_id badge_id : ℕ) (s : Session) (badge : Badge)
    → get_badge badge_id s.db ≡ some badge
    → has_badge user_id badge.id s.db ≡ true
    → (award_badge now user_id badge_id s).1 ≡ s
unfolding award_badge guard_exclusive_badge_deadline get_limited_challenge_by_exclusive_badge
    award_if_found
award_badge_owned now user_id badge_id s badge found owned =
    ground (arith, found, owned, award_if_found_lem user_id (some badge) s)

after_award-badges :
    (user_id : ℕ) (badge : Option Badge) (s : Session)
    → (after_award user_id badge s).db.badges ≡ s.db.badges
after_award-badges user_id none s = refl
after_award-badges user_id (some badge) s = ground arith

-- After an award that returned, a second one of the same badge, at any time, changes nothing and stages no
-- event.
award_badge-award_badge :
    (now now' user_id badge_id : ℕ) (s s' : Session)
    → award_badge now user_id badge_id s ≡ (ok tt, s')
    → (award_badge now' user_id badge_id s').1 ≡ s'
award_badge-award_badge now now' user_id badge_id s s' h =
    let (badge, found, e) = award_badge_ok now user_id badge_id s s' h in
    award_badge_owned now' user_id badge_id s' badge
      (rw (e, after_award-badges user_id (some badge) s) found)
      (rw e (after_award-has_badge user_id badge s))
