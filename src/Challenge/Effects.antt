-- ===== src/Challenge/Effects.antt =====
-- What the awards and one round of the loop of ChallengeService do to a session.
use book_club.Prelude.{
  ℕ, ◌≡◌, refl, Option, none, some, [], ◌∷◌, ◌++◌, ◌&&◌, arith, leb, if◌then◌else◌,
}
use book_club.Core.Database.{Database}
use book_club.Core.Session.{Session, ok}
use book_club.Challenge.Models.{Badge, Challenge, ChallengeParticipant}
use book_club.Challenge.Repository.{set_progress, has_badge, add_badge}
use book_club.Challenge.Service.{
  Mode, advanced, named_badge, is_open, award_if_found, award_named, earned, advance_challenge,
}

-- The session after a badge, if there is one, was awarded to a user who may own it.
abbrev pub after_award : ℕ → Option Badge → Session → Session
after_award user_id none s = s
after_award user_id (some badge) s = if has_badge user_id badge.id s.db then s else record {
  db = add_badge user_id badge.id s.db;
  queue = s.queue ++ earned user_id badge ∷ [];
}

-- The award gives a badge at most once, stages its event exactly when it gives it, and never raises.
pub award_if_found_lem :
    (user_id : ℕ) (badge : Option Badge) (s : Session)
    → award_if_found user_id badge s ≡ (ok tt, after_award user_id badge s)
unfolding award_if_found
award_if_found_lem user_id none s = refl
award_if_found_lem user_id (some badge) s = ground arith

award_named_lem :
    (user_id : ℕ) (badge_id : Option ℕ) (s : Session)
    → award_named user_id badge_id s ≡ (ok tt, after_award user_id (named_badge badge_id s.db) s)
unfolding award_named
award_named_lem user_id badge_id s = rw (award_if_found_lem user_id (named_badge badge_id s.db) s)

-- The session after the progress of a participation was written.
abbrev pub after_progress : ℕ → ℕ → ℕ → Mode → Challenge → ChallengeParticipant → Session → Session
after_progress now user_id delta mode ch p s =
    let new_value = advanced mode delta p.current_value in
    record s {
      db =
          set_progress ch.id user_id new_value
            (if leb ch.target_value new_value then some now else none) s.db;
    }

-- The badges that a challenge awards on this round: the standard one when the target is reached, and the
-- exclusive one if its deadline has not passed.
abbrev pub standard_award : ℕ → Mode → Challenge → ChallengeParticipant → Database → Option Badge
standard_award delta mode ch p db =
    if leb ch.target_value (advanced mode delta p.current_value)
    then named_badge ch.badge_id db
    else none

abbrev pub exclusive_award :
    ℕ → ℕ → Mode → Challenge → ChallengeParticipant → Database → Option Badge
exclusive_award now delta mode ch p db =
    if leb ch.target_value (advanced mode delta p.current_value)
      && ch.is_limited
      && is_open now ch.ends_at_exclusive
    then named_badge ch.badge_id_exclusive db
    else none

-- One round of the loop: it never raises, writes the progress, and awards the two badges.
pub advance_challenge_lem :
    (now user_id delta : ℕ) (mode : Mode) (ch : Challenge) (p : ChallengeParticipant) (s : Session)
    → advance_challenge now user_id delta mode ch p s ≡ (
      ok tt,
      after_award user_id (exclusive_award now delta mode ch p s.db) (
          after_award user_id
            (standard_award delta mode ch p s.db)
            (after_progress now user_id delta mode ch p s)),
    )
unfolding advance_challenge
advance_challenge_lem now user_id delta mode ch p s =
    let s1 = after_progress now user_id delta mode ch p s in
    ground (
      arith,
      award_named_lem user_id ch.badge_id s1,
      award_named_lem user_id ch.badge_id_exclusive s1,
      award_named_lem user_id ch.badge_id_exclusive
          (after_award user_id (named_badge ch.badge_id s.db) s1),
    )
