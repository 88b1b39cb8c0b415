-- ===== src/Reading/Service.antt =====
-- backend/app/domains/reading/service.py: the session operations of ReadingService, wired as
-- providers.get_reading_service wires it (the feed service is present). The clock and the ids that the
-- database draws are arguments. The background recomputation of the taste profile is left out: it runs
-- after the response and touches no table of this model.
use book_club.Prelude.{
  ℕ, ◌+◌, ◌*◌, ◌/◌, Option, none, some, String, ◌&&◌, not, ltb, leb, ◌==◌, is_some,
}
use book_club.Prelude.Int.{ℤ, pos, negsuc, pos_part, ◌-ℤ◌, min_ℤ}
use book_club.Core.Exceptions.{
  user_book_not_found, active_session_exists, session_not_found, session_already_ended,
  session_too_short, manual_session_out_of_range, not_found_error, conflict_error,
}
use book_club.Core.Events.{reading_session_completed, user_grade_recomputed}
use book_club.Core.Session.{Action, pure, gets, require, raise_if, when, stage_event, ◌>>=◌, ◌>>◌}
use book_club.Book.Repository.{user_book_belongs_to_user, count_completed_books}
use book_club.Feed.Repository.{record_streak_milestone}
use book_club.Reading.Models.{DateTime, ReadingSession, UserGrade, GradeSummary, SessionCompletion}
use book_club.Reading.GradePolicy.{calculate_grade_tier, next_threshold}
use book_club.Reading.StreakPolicy.{apply_streak_with_shield}
use book_club.Reading.Repository
use book_club.Reading.Repository.{
  get_active_session, get_by_id, create_started, create_manual, upsert, get_or_init, Snapshot,
  update_snapshot,
}

abbrev pub min_timer_duration_sec : ℕ
min_timer_duration_sec = 1

abbrev pub manual_min_sec : ℕ
manual_min_sec = 60

abbrev pub manual_max_sec : ℕ
manual_max_sec = 4 * 60 * 60

-- A signed count of milliseconds, in microseconds.
abbrev pub milliseconds : ℤ → ℤ
milliseconds (pos n) = pos (n * 1000)
milliseconds (negsuc n) = negsuc (n * 1000 + 999)

-- `_reconcile_duration`, in microseconds where the source has seconds in floating point. `int` truncates,
-- and `max(0, …)` makes a negative duration 0.
unfoldable pub reconcile_duration : ℕ → ℕ → ℤ → ℕ
reconcile_duration started_at ended_at paused_ms =
    let elapsed = pos ended_at -ℤ pos started_at in
    let adjusted = elapsed -ℤ milliseconds paused_ms in pos_part (min_ℤ elapsed adjusted) / 1000000

unfoldable pub start_session : ℕ → ℕ → ℕ → ℕ → Option String → Action ReadingSession
unfolding create_started
start_session id now user_id user_book_id device = do
  owned ← gets (user_book_belongs_to_user user_id user_book_id)
  raise_if (not owned) (not_found_error user_book_not_found)
  existing ← gets (get_active_session user_id)
  raise_if (is_some existing) (conflict_error active_session_exists)
  create_started id user_id user_book_id now device

unfoldable pub log_manual_session : ℕ → ℕ → ℕ → ℕ → ℕ → Option String → Action ReadingSession
unfolding create_manual
log_manual_session id user_id user_book_id started_at ended_at note = do
  owned ← gets (user_book_belongs_to_user user_id user_book_id)
  raise_if (not owned) (not_found_error user_book_not_found)
  raise_if (leb ended_at started_at) (conflict_error manual_session_out_of_range)
  let duration_sec = pos_part (pos ended_at -ℤ pos started_at) / 1000000
  raise_if (not (leb manual_min_sec duration_sec && leb duration_sec manual_max_sec))
      (conflict_error manual_session_out_of_range)
  create_manual id user_id user_book_id started_at ended_at duration_sec note

-- `_grade_summary` of a row.
abbrev pub summary_of : UserGrade → GradeSummary
summary_of row = record {
  grade = row.grade;
  tier = row.tier;
  total_books = row.total_books;
  total_seconds = row.total_seconds;
  streak_days = row.streak_days;
  longest_streak = row.longest_streak;
  streak_shields = row.streak_shields;
  next_grade_thresholds = next_threshold row.grade;
}

unfoldable pub grade_summary : ℕ → Action GradeSummary
grade_summary user_id = do row ← get_or_init user_id; pure (summary_of row)

-- The row of user_grades after a session of `duration_sec` seconds on `session_date`, when the reader has
-- completed `total_books` books: steps 2 to 4 of `_apply_session_completion`.
abbrev pub completed_row : ℕ → ℕ → ℕ → UserGrade → UserGrade
completed_row total_books duration_sec session_date current =
    let total_seconds = current.total_seconds + duration_sec in
    let (grade, tier) = calculate_grade_tier total_books total_seconds in
    let (streak_days, longest_streak, last_date, new_shields) =
      apply_streak_with_shield current.streak_last_date current.streak_days current.longest_streak
        current.streak_shields session_date in
    record current {
      grade = grade;
      tier = tier;
      total_books = total_books;
      total_seconds = total_seconds;
      streak_days = streak_days;
      longest_streak = longest_streak;
      streak_last_date = some last_date;
      streak_shields = new_shields;
    }

-- The arguments of `update_snapshot` in `_apply_session_completion`.
abbrev pub snapshot_of : ℕ → UserGrade → Snapshot
snapshot_of duration_sec after = record {
  total_books = some after.total_books;
  total_seconds_delta = some duration_sec;
  grade = some after.grade;
  tier = some after.tier;
  streak_days = some after.streak_days;
  longest_streak = some after.longest_streak;
  streak_last_date = after.streak_last_date;
  streak_shields = some after.streak_shields;
}

-- `_apply_session_completion`. The summary that it returns lists the values that it persists.
unfoldable pub apply_session_completion : ℕ → ℕ → ℕ → Action GradeSummary
apply_session_completion user_id duration_sec session_date = do
  upsert user_id session_date duration_sec 1
  current ← get_or_init user_id
  total_books ← gets (count_completed_books user_id none none)
  let after = completed_row total_books duration_sec session_date current
  update_snapshot user_id (snapshot_of duration_sec after)
  pure (summary_of after)

unfoldable pub end_session : ℕ → ℕ → DateTime → ℤ → Action SessionCompletion
end_session user_id session_id ended_at paused_ms = do
  session ← require (get_by_id session_id) (not_found_error session_not_found)
  raise_if (not (session.user_id == user_id)) (not_found_error session_not_found)
  raise_if (is_some session.ended_at) (conflict_error session_already_ended)
  let duration_sec = reconcile_duration session.started_at ended_at.instant paused_ms
  raise_if (ltb duration_sec min_timer_duration_sec) (conflict_error session_too_short)
  updated ← Repository.end_session session_id ended_at.instant duration_sec
  before ← get_or_init user_id
  after ← apply_session_completion user_id duration_sec ended_at.date
  stage_event (
      reading_session_completed (record {
        user_id = user_id;
        user_book_id = updated.user_book_id;
        session_id = updated.id;
        date = ended_at.date;
        duration_sec = duration_sec;
        source = "timer";
      }))
  when (not (after.grade == before.grade && after.tier == before.tier)) (
      stage_event (
        user_grade_recomputed (record {
          user_id = user_id;
          old_grade = before.grade;
          old_tier = before.tier;
          new_grade = after.grade;
          new_tier = after.tier;
          streak_days = after.streak_days;
        })))
  record_streak_milestone user_id after.streak_days
  pure (record { session = updated; grade = after; grade_up = ltb before.grade after.grade })
