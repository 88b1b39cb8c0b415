-- ===== src/Reading/Sessions/Ending.antt =====
-- Ending a timer session (Reading.Service.end_session): the tables and the events of the whole transaction.
use book_club.Prelude.{
  ℕ, ◌≤◌, ◌≡◌, refl, Bool, none, some, List, [], ◌∷◌, ◌++◌, ◌&&◌, arith, ◌==◌, if◌then◌else◌, ltb,
  update_where, append_assoc,
}
use book_club.Prelude.Int.{ℤ}
use book_club.Core.Database.{Database}
use book_club.Core.Events.{Event, reading_session_completed, user_grade_recomputed}
use book_club.Core.Session.{Session, ok}
use book_club.Feed.Models.{FeedEvent, streak_milestone}
use book_club.Feed.Repository.{is_streak_milestone, record_streak_milestone}
use book_club.Reading.Models.{DateTime, ReadingSession, UserGrade}
use book_club.Book.Repository.{count_completed_books}
use book_club.Reading.Repository
use book_club.Reading.Repository.{get_by_id, stamped, snapshot_row, upsert_day}
use book_club.Reading.Service.{
  completed_row, summary_of, snapshot_of, reconcile_duration, min_timer_duration_sec, end_session,
}
use book_club.Reading.Sessions.Effects.{
  grade_of, ensured, get_or_init_effect, apply_session_completion_initialised,
}

-- The row may be ended by this call: it is the caller's, still running, and long enough.
pub record MayEnd (user_id session_id : ℕ) (ended_at : DateTime) (paused_ms : ℤ)
    (r : ReadingSession) (db : Database) : Type 0 where
  pub found : get_by_id session_id db ≡ some r
  pub owned : r.user_id ≡ user_id
  pub running : r.ended_at ≡ none
  pub long_enough :
      min_timer_duration_sec ≤ reconcile_duration r.started_at ended_at.instant paused_ms

-- The reader's row of user_grades after the session.
abbrev pub grade_after : ℕ → ℕ → DateTime → Database → UserGrade
grade_after user_id duration_sec ended_at db =
    completed_row (count_completed_books user_id none none db) duration_sec ended_at.date
      (grade_of user_id db.user_grades)

abbrev pub with_milestone : ℕ → ℕ → List FeedEvent → List FeedEvent
with_milestone user_id streak_days rows =
    if is_streak_milestone streak_days
    then rows ++ record { user_id = user_id; kind = streak_milestone streak_days } ∷ []
    else rows

-- The tables after the session was ended.
abbrev pub ended_db : ℕ → ℕ → ℕ → DateTime → Database → Database
ended_db user_id session_id duration_sec ended_at db =
    let after = grade_after user_id duration_sec ended_at db in
    record db {
      reading_sessions =
          update_where (λ r. r.id == session_id) (stamped ended_at.instant duration_sec)
            db.reading_sessions;
      daily_reading_stats = upsert_day user_id ended_at.date duration_sec 1 db.daily_reading_stats;
      user_grades =
          update_where (λ r. r.user_id == user_id) (snapshot_row (snapshot_of duration_sec after))
            (ensured user_id db.user_grades);
      feed_events = with_milestone user_id after.streak_days db.feed_events;
    }

-- The events that are staged, the second only if the grade or the tier moved.
abbrev pub completion_event : ℕ → ReadingSession → ℕ → DateTime → Event
completion_event user_id r duration_sec ended_at = reading_session_completed (record {
  user_id = user_id;
  user_book_id = r.user_book_id;
  session_id = r.id;
  date = ended_at.date;
  duration_sec = duration_sec;
  source = "timer";
})

abbrev pub grade_event : ℕ → UserGrade → UserGrade → Event
grade_event user_id before after = user_grade_recomputed (record {
  user_id = user_id;
  old_grade = before.grade;
  old_tier = before.tier;
  new_grade = after.grade;
  new_tier = after.tier;
  streak_days = after.streak_days;
})

abbrev pub same_grade : UserGrade → UserGrade → Bool
same_grade before after = after.grade == before.grade && after.tier == before.tier

abbrev pub ended_events : ℕ → ReadingSession → ℕ → DateTime → UserGrade → UserGrade → List Event
ended_events user_id r duration_sec ended_at before after =
    completion_event user_id r duration_sec ended_at
    ∷ (if same_grade before after then [] else grade_event user_id before after ∷ [])

record_streak_milestone_effect :
    (user_id streak_days : ℕ) (s : Session)
    → record_streak_milestone user_id streak_days s ≡ (
      ok tt,
      record s {
        db = record s.db { feed_events = with_milestone user_id streak_days s.db.feed_events };
      },
    )
unfolding record_streak_milestone
record_streak_milestone_effect user_id streak_days s = ground arith

stamp_effect :
    (session_id t d : ℕ) (r : ReadingSession) (s : Session)
    → get_by_id session_id s.db ≡ some r
    → r.ended_at ≡ none
    → Repository.end_session session_id t d s ≡ (
      ok (stamped t d r),
      record s {
        db = record s.db {
          reading_sessions =
              update_where (λ q. q.id == session_id) (stamped t d) s.db.reading_sessions;
        };
      },
    )
unfolding Repository.end_session
stamp_effect session_id t d r s h k = ground arith

-- Ending a running session of the caller's that lasted a second or more is one equation: the row is
-- stamped, the day's and the reader's totals grow, the grade and the streak are recomputed, a streak
-- milestone is recorded, and the events are staged, the second only if the grade or the tier moved.
pub end_session_effect :
    (user_id session_id : ℕ) (ended_at : DateTime) (paused_ms : ℤ) (r : ReadingSession)
    (s : Session)
    → MayEnd user_id session_id ended_at paused_ms r s.db
    → let d = reconcile_duration r.started_at ended_at.instant paused_ms in
      let before = grade_of user_id s.db.user_grades in
      let after = grade_after user_id d ended_at s.db in
      end_session user_id session_id ended_at paused_ms s ≡ (
        ok (record {
          session = stamped ended_at.instant d r;
          grade = summary_of after;
          grade_up = ltb before.grade after.grade;
        }),
        record {
          db = ended_db user_id session_id d ended_at s.db;
          queue = s.queue ++ ended_events user_id r d ended_at before after;
        },
      )
unfolding end_session
end_session_effect user_id session_id ended_at paused_ms r s h =
    let d = reconcile_duration r.started_at ended_at.instant paused_ms in
    let before = grade_of user_id s.db.user_grades in
    let after = grade_after user_id d ended_at s.db in
    let s1 : Session = record s {
      db = record s.db {
        reading_sessions =
            update_where (λ q. q.id == session_id) (stamped ended_at.instant d)
              s.db.reading_sessions;
      };
    } in
    let s3 : Session = record {
      db = record (ended_db user_id session_id d ended_at s.db) { feed_events = s.db.feed_events };
      queue = s.queue ++ ended_events user_id r d ended_at before after;
    } in
    let books : count_completed_books user_id none none s1.db
        ≡ count_completed_books user_id none none s.db =
      unfold count_completed_books in refl in
    ground (
      arith,
      h.found,
      h.owned,
      h.running,
      h.long_enough,
      stamp_effect session_id ended_at.instant d r s h.found h.running,
      get_or_init_effect user_id s1,
      apply_session_completion_initialised user_id d ended_at.date s1,
      record_streak_milestone_effect user_id after.streak_days s3,
      books,
      append_assoc s.queue (completion_event user_id r d ended_at ∷ [])
          (grade_event user_id before after ∷ []),
    )
