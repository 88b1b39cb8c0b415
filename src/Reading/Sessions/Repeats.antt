-- ===== src/Reading/Sessions/Repeats.antt =====
-- Calls of the session operations that follow one another, and a session that is logged by hand.
use book_club.Prelude.{
  ℕ, ◌-◌, ◌/◌, ◌≤◌, ◌≡◌, refl, true, some, Option, String, arith, ◌==◌, first-append, first-update,
}
use book_club.Prelude.Int.{ℤ}
use book_club.Core.Session.{Session, ok, err}
use book_club.Core.Exceptions.{active_session_exists, session_already_ended, conflict_error}
use book_club.Book.Repository.{user_book_belongs_to_user}
use book_club.Reading.Models.{DateTime, ReadingSession, SessionCompletion}
use book_club.Reading.Repository.{is_active, stamped, get_or_init, snapshot_row}
use book_club.Reading.Service.{
  start_session, log_manual_session, end_session, reconcile_duration, grade_summary, snapshot_of,
}
use book_club.Reading.Sessions.Ending.{end_session_effect, grade_after}
use book_club.Reading.Sessions.Refusals.{refusal, end_session_refused, end_session_ok}
use book_club.Reading.Sessions.Effects.{grade_of, ensured, find-ensured}

-- While a started session runs, the same reader cannot start another one with any book of theirs.
pub start_session-start_session :
    (id now user_id user_book_id : ℕ) (device : Option String) (id' now' user_book_id' : ℕ)
    (device' : Option String) (s s' : Session) (r : ReadingSession)
    → start_session id now user_id user_book_id device s ≡ (ok r, s')
    → user_book_belongs_to_user user_id user_book_id' s.db ≡ true
    → start_session id' now' user_id user_book_id' device' s'
      ≡ (err (conflict_error active_session_exists), s')
unfolding start_session user_book_belongs_to_user
start_session-start_session id now user_id user_book_id device id' now' user_book_id' device' s s' r
      h owned =
    ground (arith, first-append (is_active user_id) s.db.reading_sessions r)

-- A logged session lasts the whole seconds of its window, from one minute to four hours, and the call
-- leaves the grades, the heatmap, the feed and the event queue as they were.
log_manual_session_weightless :
    (id user_id user_book_id started_at ended_at : ℕ) (memo : Option String) (s s' : Session)
    (r : ReadingSession)
    → log_manual_session id user_id user_book_id started_at ended_at memo s ≡ (ok r, s')
    → let seconds = (ended_at - started_at) / 1000000 in
      (r.duration_sec ≡ some seconds)
      × (60 ≤ seconds)
      × (seconds ≤ 14400)
      × (s'.db.user_grades ≡ s.db.user_grades)
      × (s'.db.daily_reading_stats ≡ s.db.daily_reading_stats)
      × (s'.db.feed_events ≡ s.db.feed_events)
      × (s'.queue ≡ s.queue)
unfolding log_manual_session
log_manual_session_weightless id user_id user_book_id started_at ended_at memo s s' r h =
    ground arith

-- A session that was ended cannot be ended again: the second call raises SESSION_ALREADY_ENDED and changes
-- nothing.
pub end_session-end_session :
    (user_id session_id : ℕ) (ended_at ended_at' : DateTime) (paused_ms paused_ms' : ℤ)
    (s s' : Session) (c : SessionCompletion)
    → end_session user_id session_id ended_at paused_ms s ≡ (ok c, s')
    → end_session user_id session_id ended_at' paused_ms' s'
      ≡ (err (conflict_error session_already_ended), s')
end_session-end_session user_id session_id ended_at ended_at' paused_ms paused_ms' s s' c h =
    let (r, m) = end_session_ok user_id session_id ended_at paused_ms s s' c h in
    let d = reconcile_duration r.started_at ended_at.instant paused_ms in
    end_session_refused user_id session_id ended_at' paused_ms' s'
      (conflict_error session_already_ended)
      (unfold refusal in
        ground (
          arith,
          h,
          m.found,
          m.owned,
          end_session_effect user_id session_id ended_at paused_ms r s m,
          first-update (λ q. q.id == session_id) (stamped ended_at.instant d) s.db.reading_sessions
              r (λ q. refl),
        ))

-- The grade that the response of an ended session carries is the one that a later read finds, and the read
-- changes nothing.
pub end_session-grade_summary :
    (user_id session_id : ℕ) (ended_at : DateTime) (paused_ms : ℤ) (s s' : Session)
    (c : SessionCompletion)
    → end_session user_id session_id ended_at paused_ms s ≡ (ok c, s')
    → grade_summary user_id s' ≡ (ok c.grade, s')
unfolding grade_summary get_or_init
end_session-grade_summary user_id session_id ended_at paused_ms s s' c h =
    let (r, m) = end_session_ok user_id session_id ended_at paused_ms s s' c h in
    let d = reconcile_duration r.started_at ended_at.instant paused_ms in
    let rows = s.db.user_grades in
    let after = grade_after user_id d ended_at s.db in
    let w = snapshot_row (snapshot_of d after) in
    ground (
      arith,
      h,
      end_session_effect user_id session_id ended_at paused_ms r s m,
      first-update (λ q. q.user_id == user_id) w (ensured user_id rows) (grade_of user_id rows)
          (λ q. refl) (find-ensured user_id rows),
    )
