-- ===== src/Challenge/Uniqueness.antt =====
-- The unique constraints on participations and owned badges, as an invariant of ChallengeService.
use book_club.Prelude.{
  ℕ, ◌≤◌, ◌≡◌, refl, ◌⊎◌, inl, inr, false, Option, none, some, List, [], ◌∷◌, arith, leb,
  if◌then◌else◌, first-none, count_where, count_where-update, sum_where-append, Bool-cases,
}
use book_club.Core.Database.{Database}
use book_club.Core.Session.{Session, Result, ok}
use book_club.Challenge.Models.{ChallengeType, Badge, Challenge, ChallengeParticipant}
use book_club.Challenge.Repository.{
  is_participant, new_participant, get_participant, add_participant, progressed, owns, has_badge,
  add_badge, list_user_active_challenges,
}
use book_club.Challenge.Service.{
  Mode, advanced, join, advance_challenge, advance_all, advance_challenges,
}
use book_club.Challenge.Effects.{
  after_award, after_progress, standard_award, exclusive_award, advance_challenge_lem,
}

pub record IsUnique (db : Database) : Type 0 where
  pub participants : (c u : ℕ) → count_where (is_participant c u) db.challenge_participants ≤ 1
  pub badges : (u b : ℕ) → count_where (owns u b) db.user_badges ≤ 1

add_participant-IsUnique :
    (challenge_id user_id : ℕ) (db : Database)
    → get_participant challenge_id user_id db ≡ none
    → IsUnique db
    → IsUnique (add_participant (new_participant challenge_id user_id) db)
add_participant-IsUnique challenge_id user_id db new h = record {
  participants = λ c u. ground (
    arith,
    h.participants c u,
    sum_where-append (is_participant c u) (λ r. 1) db.challenge_participants
        (new_participant challenge_id user_id ∷ []),
    first-none (is_participant challenge_id user_id) db.challenge_participants new,
  );
  badges = h.badges;
}

add_badge-IsUnique :
    (user_id badge_id : ℕ) (db : Database)
    → has_badge user_id badge_id db ≡ false
    → IsUnique db
    → IsUnique (add_badge user_id badge_id db)
add_badge-IsUnique user_id badge_id db new h = record {
  participants = h.participants;
  badges = λ u b. ground (
    arith,
    h.badges u b,
    new,
    sum_where-append (owns u b) (λ r. 1) db.user_badges
        (record { user_id = user_id; badge_id = badge_id; pin_order = 0 } ∷ []),
    first-none (owns user_id badge_id) db.user_badges,
  );
}

join_outcome :
    (now challenge_id user_id : ℕ) (s : Session)
    → let after = (join now challenge_id user_id s).1.db in
      (after ≡ s.db)
      ⊎ ((get_participant challenge_id user_id s.db ≡ none)
          × (after ≡ add_participant (new_participant challenge_id user_id) s.db))
unfolding join
join_outcome now challenge_id user_id s = ground arith

-- Joining a challenge keeps participations and owned badges unique, whether the call raises or not.
join-IsUnique :
    (now challenge_id user_id : ℕ) (s : Session)
    → IsUnique s.db
    → IsUnique (join now challenge_id user_id s).1.db
join-IsUnique now challenge_id user_id s h = elim (join_outcome now challenge_id user_id s) [
  | inl same ↦ rw same h
  | inr (new, added) ↦ rw added (add_participant-IsUnique challenge_id user_id s.db new h)
]

after_award-IsUnique :
    (user_id : ℕ) (badge : Option Badge) (s : Session)
    → IsUnique s.db
    → IsUnique (after_award user_id badge s).db
after_award-IsUnique user_id none s h = h
after_award-IsUnique user_id (some badge) s h =
    elim (Bool-cases (has_badge user_id badge.id s.db)) [
      | inl old ↦ rw old h
      | inr new ↦ rw new (add_badge-IsUnique user_id badge.id s.db new h)
    ]

after_progress-IsUnique :
    (now user_id delta : ℕ) (mode : Mode) (ch : Challenge) (p : ChallengeParticipant) (s : Session)
    → IsUnique s.db
    → IsUnique (after_progress now user_id delta mode ch p s).db
after_progress-IsUnique now user_id delta mode ch p s h = record {
  participants = λ c u.
      rw
        (count_where-update (is_participant c u) (is_participant ch.id user_id)
          (progressed (advanced mode delta p.current_value)
            (if leb ch.target_value (advanced mode delta p.current_value) then some now else none))
          s.db.challenge_participants (λ q. refl))
        (h.participants c u);
  badges = h.badges;
}

-- What a handler did: it returned, and the constraints still hold.
abbrev pub Returns : Session → Result (Unit {0}) × Session → Type 0
Returns s (r, s') = (r ≡ ok tt) × (IsUnique s.db → IsUnique s'.db)

advance_challenge-Returns :
    (now user_id delta : ℕ) (mode : Mode) (ch : Challenge) (p : ChallengeParticipant) (s : Session)
    → Returns s (advance_challenge now user_id delta mode ch p s)
advance_challenge-Returns now user_id delta mode ch p s =
    let s1 = after_progress now user_id delta mode ch p s in
    let standard = standard_award delta mode ch p s.db in
    let exclusive = exclusive_award now delta mode ch p s.db in
    rw (advance_challenge_lem now user_id delta mode ch p s) (
      refl,
      λ h. after_award-IsUnique user_id exclusive (after_award user_id standard s1) (
          after_award-IsUnique user_id standard s1
            (after_progress-IsUnique now user_id delta mode ch p s h)),
    )

advance_all-Returns :
    (now user_id delta : ℕ) (mode : Mode) (rows : List (Challenge × ChallengeParticipant))
    (s : Session)
    → Returns s (advance_all now user_id delta mode rows s)
unfolding advance_all
advance_all-Returns now user_id delta mode [] s = (refl, λ h. h)
advance_all-Returns now user_id delta mode ((ch, p) ∷ rows) s =
    let (done, keep) = advance_challenge-Returns now user_id delta mode ch p s in
    let s1 = (advance_challenge now user_id delta mode ch p s).1 in
    let (done', keep') = advance_all-Returns now user_id delta mode rows s1 in
    ground (arith, done, done', keep, keep')

-- The handler of a progress event never raises, whatever the tables hold: no unique constraint refuses its
-- writes.
pub advance_challenges_returns :
    (now db_now user_id delta : ℕ) (challenge_type : ChallengeType) (mode : Mode) (s : Session)
    → (advance_challenges now db_now user_id challenge_type delta mode s).0 ≡ ok tt
unfolding advance_challenges
advance_challenges_returns now db_now user_id delta challenge_type mode s =
    (advance_all-Returns now user_id delta mode
      (list_user_active_challenges user_id challenge_type db_now s.db) s).0

-- The handler keeps participations and badges unique.
pub advance_challenges-IsUnique :
    (now db_now user_id delta : ℕ) (challenge_type : ChallengeType) (mode : Mode) (s : Session)
    → IsUnique s.db
    → IsUnique (advance_challenges now db_now user_id challenge_type delta mode s).1.db
unfolding advance_challenges
advance_challenges-IsUnique now db_now user_id delta challenge_type mode s =
    (advance_all-Returns now user_id delta mode
      (list_user_active_challenges user_id challenge_type db_now s.db) s).1
