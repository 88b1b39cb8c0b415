-- ===== src/Reading/Sessions/Published.antt =====
-- The events that the session requests published, against the totals of the readers.
use book_club.Prelude.{
  ℕ, ◌+◌, ◌≡◌, refl, inl, inr, Bool, false, Option, String, List, arith, ◌==◌, sum_where,
  sum_where-append, Option-cases,
}
use book_club.Prelude.Int.{ℤ}
use book_club.Core.Database.{Database}
use book_club.Core.Events.{
  Event, reading_session_completed, user_grade_recomputed, user_book_completed, badge_earned,
  post_created, reaction_added, comment_added, follow_received,
}
use book_club.Core.Session.{Action, Session, Result, ok, err, World, run_request}
use book_club.Core.Session.Atomic.{fresh}
use book_club.Reading.Models.{DateTime}
use book_club.Reading.Repository.{snapshot_row}
use book_club.Reading.Service.{
  reconcile_duration, snapshot_of, start_session, log_manual_session, end_session,
}
use book_club.Reading.Sessions.Totals.{grade_row_of, sum_where-written}
use book_club.Reading.Sessions.Ending.{end_session_effect, grade_after}
use book_club.Reading.Sessions.Refusals.{refusal, end_session_refused, allowed-MayEnd}
use book_club.Reading.Sessions.Consistency.{IsConsistent, grade_of-user_id}
use book_club.Reading.Sessions.Reach.{
  Step, starts, logs, ends, Reach, here, next, Reach-IsConsistent,
}

abbrev pub completes : ℕ → Event → Bool
completes u (reading_session_completed e) = e.user_id == u
completes u (user_grade_recomputed e) = false
completes u (user_book_completed e) = false
completes u (badge_earned e) = false
completes u (post_created e) = false
completes u (reaction_added e) = false
completes u (comment_added e) = false
completes u (follow_received e) = false

abbrev pub seconds_of : Event → ℕ
seconds_of (reading_session_completed e) = e.duration_sec
seconds_of (user_grade_recomputed e) = 0
seconds_of (user_book_completed e) = 0
seconds_of (badge_earned e) = 0
seconds_of (post_created e) = 0
seconds_of (reaction_added e) = 0
seconds_of (comment_added e) = 0
seconds_of (follow_received e) = 0

-- The seconds that the events report for a reader, and those of the reader's row.
abbrev pub reported : ℕ → List Event → ℕ
reported u events = sum_where (completes u) seconds_of events

abbrev pub credited : ℕ → Database → ℕ
credited u db = sum_where (grade_row_of u) (λ r. r.total_seconds) db.user_grades

-- Every reader's total is what the published events report, no more and no less.
abbrev pub IsReported : World → Type 0
IsReported w = (u : ℕ) → reported u w.published ≡ credited u w.db

-- What a handler credits, it reports in its queue.
abbrev Reports : World → Session → Type 0
Reports w s = (u : ℕ) → credited u s.db ≡ credited u w.db + reported u s.queue

run_request-IsReported :
    {A : Type 0} (m : Action A) (w : World)
    → Reports w (m (fresh w)).1
    → IsReported w
    → IsReported (run_request m w).1
unfolding run_request
run_request-IsReported {A} m w adds h u = go (m (fresh w)).0 refl
  where
    go :
        (r : Result A)
        → (m (fresh w)).0 ≡ r
        → reported u (run_request m w).1.published ≡ credited u (run_request m w).1.db
    go (ok a) e =
        rw (e, run_request)
          (omega (
            arith,
            h u,
            adds u,
            sum_where-append (completes u) seconds_of w.published (m (fresh w)).1.queue,
          ))
    go (err x) e = rw (e, run_request) (h u)

start_session-Reports :
    (w : World) (id now user_id user_book_id : ℕ) (device : Option String)
    → Reports w (start_session id now user_id user_book_id device (fresh w)).1
unfolding start_session
start_session-Reports w id now user_id user_book_id device u = ground arith

log_manual_session-Reports :
    (w : World) (id user_id user_book_id started_at ended_at : ℕ) (memo : Option String)
    → Reports w (log_manual_session id user_id user_book_id started_at ended_at memo (fresh w)).1
unfolding log_manual_session
log_manual_session-Reports w id user_id user_book_id started_at ended_at memo u = ground arith

end_session-Reports :
    (w : World) (user_id session_id : ℕ) (ended_at : DateTime) (paused_ms : ℤ)
    → IsConsistent w.db
    → Reports w (end_session user_id session_id ended_at paused_ms (fresh w)).1
end_session-Reports w user_id session_id ended_at paused_ms h u =
    elim (Option-cases (refusal user_id session_id ended_at paused_ms w.db)) [
      | inr (e, k) ↦
          rw (end_session_refused user_id session_id ended_at paused_ms (fresh w) e k) (omega arith)
      | inl k ↦
          let (r, m) = allowed-MayEnd user_id session_id ended_at paused_ms w.db k in
          let d = reconcile_duration r.started_at ended_at.instant paused_ms in
          let g = snapshot_row (snapshot_of d (grade_after user_id d ended_at w.db)) in
          rw (end_session_effect user_id session_id ended_at paused_ms r (fresh w) m) (
            ground (
              arith,
              grade_of-user_id user_id w.db,
              sum_where-written user_id g w.db.user_grades (h.one_grade user_id) u,
            ))
    ]

Step-IsReported : {w v : World} → IsConsistent w.db → Step w v → IsReported w → IsReported v
Step-IsReported h (starts w id now user_id user_book_id device new) =
    run_request-IsReported (start_session id now user_id user_book_id device) w
      (start_session-Reports w id now user_id user_book_id device)
Step-IsReported h (logs w id user_id user_book_id started_at ended_at note new) =
    run_request-IsReported (log_manual_session id user_id user_book_id started_at ended_at note) w
      (log_manual_session-Reports w id user_id user_book_id started_at ended_at note)
Step-IsReported h (ends w user_id session_id ended_at paused_ms) =
    run_request-IsReported (end_session user_id session_id ended_at paused_ms) w
      (end_session-Reports w user_id session_id ended_at paused_ms h)

-- Whatever transactions start and log sessions under fresh ids and end them, in any order and refused or
-- not, from consistent tables: if each reader's total is what the published ReadingSessionCompleted events
-- report, it stays so.
pub Reach-IsReported : {w v : World} → IsConsistent w.db → IsReported w → Reach w v → IsReported v
Reach-IsReported h k here = k
Reach-IsReported h k (next r st) =
    Step-IsReported (Reach-IsConsistent h r) st (Reach-IsReported h k r)
