-- ===== src/Challenge/Service.antt =====
-- backend/app/domains/challenge/service.py: ChallengeService. `now` is the application's clock, `db_now` the
-- database's. A handler of an event opens a session of its own.
use book_club.Prelude.{
  ℕ, ◌+◌, Bool, true, false, Option, none, some, List, [], ◌∷◌, ◌&&◌, ◌||◌, not, ltb, leb, ◌==◌,
  if◌then◌else◌, is_some, max,
}
use book_club.Core.Exceptions.{
  Raised, service_error, challenge_not_found, challenge_ended, already_joined, not_participant,
  challenge_expired, badge_not_owned, badge_not_found, not_found_error, conflict_error,
}
use book_club.Core.Events.{
  Event, reading_session_completed, user_book_completed, user_grade_recomputed, badge_earned,
}
use book_club.Core.Database.{Database}
use book_club.Core.Session.{
  Action, pure, gets, require, raise_if, when, stage_event, ◌>>=◌, ◌>>◌, World, Result, ok,
  run_request,
}
use book_club.Challenge.Models.{
  ChallengeType, books_count, reading_time, streak, Badge, Challenge, ChallengeParticipant,
  UserBadge,
}
use book_club.Challenge.Repository
use book_club.Challenge.Repository.{
  get_challenge, get_participant, list_user_active_challenges,
  get_limited_challenge_by_exclusive_badge, get_badge, update_progress, has_badge, my_badges,
}

-- AlreadyJoinedError and ChallengeEndedError are no subclasses of DomainError.
abbrev pub already_joined_error : Raised
already_joined_error = service_error 409 already_joined

abbrev pub challenge_ended_error : Raised
challenge_ended_error = service_error 409 challenge_ended

unfoldable pub join : ℕ → ℕ → ℕ → Action ChallengeParticipant
unfolding Repository.join
join now challenge_id user_id = do
  ch ← require (get_challenge challenge_id) (not_found_error challenge_not_found)
  raise_if (ltb ch.ends_at now) challenge_ended_error
  existing ← gets (get_participant challenge_id user_id)
  raise_if (is_some existing) already_joined_error
  Repository.join challenge_id user_id

unfoldable pub leave : ℕ → ℕ → Action (Unit {0})
unfolding Repository.leave
leave challenge_id user_id = do
  require (get_participant challenge_id user_id) (not_found_error not_participant)
  Repository.leave challenge_id user_id

abbrev badge_in : ℕ → List UserBadge → Bool
badge_in badge_id [] = false
badge_in badge_id (ub ∷ rows) = ub.badge_id == badge_id || badge_in badge_id rows

-- Whether every id of the list is owned: `unknown` is empty.
abbrev pub all_owned : List UserBadge → List ℕ → Bool
all_owned owned [] = true
all_owned owned (badge_id ∷ badge_ids) = badge_in badge_id owned && all_owned owned badge_ids

unfoldable pub reorder_pinned_badges : ℕ → List ℕ → Action (Unit {0})
unfolding Repository.reorder_pinned_badges
reorder_pinned_badges user_id badge_ids = do
  owned ← gets (my_badges user_id)
  raise_if (not (all_owned owned badge_ids)) (not_found_error badge_not_owned)
  Repository.reorder_pinned_badges user_id badge_ids

-- datetime.now(tz=UTC) > deadline, where there is one
abbrev pub is_past : ℕ → Option ℕ → Bool
is_past now none = false
is_past now (some deadline) = ltb deadline now

abbrev deadline_of : Option Challenge → Option ℕ
deadline_of none = none
deadline_of (some ch) = ch.ends_at_exclusive

unfoldable pub guard_exclusive_badge_deadline : ℕ → ℕ → Action (Unit {0})
unfolding get_limited_challenge_by_exclusive_badge
guard_exclusive_badge_deadline now badge_id = do
  challenge ← get_limited_challenge_by_exclusive_badge badge_id
  raise_if (is_past now (deadline_of challenge)) (conflict_error challenge_expired)

abbrev pub earned : ℕ → Badge → Event
earned user_id badge =
    badge_earned (record { user_id = user_id; badge_id = badge.id; badge_name = badge.name })

-- Award the badge and stage the event, unless the user owns it.
unfoldable pub award_once : ℕ → Badge → Action (Unit {0})
unfolding Repository.award_badge
award_once user_id badge = do
  owned ← gets (has_badge user_id badge.id)
  when (not owned) (do Repository.award_badge user_id badge.id; stage_event (earned user_id badge))

-- The award by an administrator.
unfoldable pub award_badge : ℕ → ℕ → ℕ → Action (Unit {0})
unfolding guard_exclusive_badge_deadline award_once
award_badge now user_id badge_id = do
  badge ← require (get_badge badge_id) (not_found_error badge_not_found)
  guard_exclusive_badge_deadline now badge_id
  award_once user_id badge

pub data Mode : Type 0 where
  add maximum : Mode

-- The new value of a participation: `mode="add"` or `mode="max"`.
abbrev pub advanced : Mode → ℕ → ℕ → ℕ
advanced add delta current_value = current_value + delta
advanced maximum delta current_value = max current_value delta

-- A badge that a challenge names, if the catalogue has it.
abbrev pub named_badge : Option ℕ → Database → Option Badge
named_badge none db = none
named_badge (some badge_id) db = get_badge badge_id db

unfoldable pub award_if_found : ℕ → Option Badge → Action (Unit {0})
unfolding award_once
award_if_found user_id none = pure tt
award_if_found user_id (some badge) = award_once user_id badge

-- Look the named badge up and award it.
unfoldable pub award_named : ℕ → Option ℕ → Action (Unit {0})
unfolding award_if_found
award_named user_id badge_id = do badge ← gets (named_badge badge_id); award_if_found user_id badge

-- now <= deadline, where there is one
abbrev pub is_open : ℕ → Option ℕ → Bool
is_open now none = false
is_open now (some deadline) = leb now deadline

-- One round of the loop of `_advance_challenges`.
unfoldable pub advance_challenge :
    ℕ → ℕ → ℕ → Mode → Challenge → ChallengeParticipant → Action (Unit {0})
unfolding update_progress
advance_challenge now user_id delta mode ch p =
    let new_value = advanced mode delta p.current_value in
    let achieved = leb ch.target_value new_value in
    do
      update_progress ch.id user_id new_value (if achieved then some now else none)
      when achieved (award_named user_id ch.badge_id)
      when (achieved && ch.is_limited && is_open now ch.ends_at_exclusive)
          (award_named user_id ch.badge_id_exclusive)

unfoldable pub advance_all :
    ℕ → ℕ → ℕ → Mode → List (Challenge × ChallengeParticipant) → Action (Unit {0})
advance_all now user_id delta mode [] = pure tt
advance_all now user_id delta mode ((ch, p) ∷ rows) =
    advance_challenge now user_id delta mode ch p >> advance_all now user_id delta mode rows

unfoldable pub advance_challenges : ℕ → ℕ → ℕ → ChallengeType → ℕ → Mode → Action (Unit {0})
unfolding list_user_active_challenges
advance_challenges now db_now user_id challenge_type delta mode = do
  rows ← gets (list_user_active_challenges user_id challenge_type db_now)
  advance_all now user_id delta mode rows

-- `_handle_progress_event`
unfoldable pub handle_progress_event :
    ℕ → ℕ → ℕ → ChallengeType → ℕ → Mode → World → Result (Unit {0}) × World
handle_progress_event now db_now user_id challenge_type delta mode =
    run_request (advance_challenges now db_now user_id challenge_type delta mode)

-- The three subscribers. An event of another type is ignored.
unfoldable pub on_reading_session_completed : ℕ → ℕ → Event → World → Result (Unit {0}) × World
unfolding handle_progress_event
on_reading_session_completed now db_now (reading_session_completed e) w =
    handle_progress_event now db_now e.user_id reading_time e.duration_sec add w
on_reading_session_completed now db_now _ w = (ok tt, w)

unfoldable pub on_user_book_completed : ℕ → ℕ → Event → World → Result (Unit {0}) × World
unfolding handle_progress_event
on_user_book_completed now db_now (user_book_completed e) w =
    handle_progress_event now db_now e.user_id books_count 1 add w
on_user_book_completed now db_now _ w = (ok tt, w)

unfoldable pub on_grade_recomputed : ℕ → ℕ → Event → World → Result (Unit {0}) × World
unfolding handle_progress_event
on_grade_recomputed now db_now (user_grade_recomputed e) w =
    handle_progress_event now db_now e.user_id streak e.streak_days maximum w
on_grade_recomputed now db_now _ w = (ok tt, w)
