-- ===== src/Reading/Sessions/Reach.antt =====
-- The session requests as steps of the process, each a transaction of its own, in any order.
use book_club.Prelude.{ℕ, ◌≡◌, Option, String, count_where, arith}
use book_club.Prelude.Int.{ℤ}
use book_club.Core.Database.{empty_database}
use book_club.Core.Session.{World, run_request}
use book_club.Core.Session.Atomic.{run_request-keeps, fresh}
use book_club.Reading.Models.{DateTime}
use book_club.Reading.Service.{start_session, log_manual_session, end_session}
use book_club.Reading.Sessions.Consistency.{
  has_id, IsConsistent, start_session-IsConsistent, log_manual_session-IsConsistent,
  end_session-IsConsistent,
}

-- Ids are drawn fresh.
pub data Step : World → World → Type 0 where
  starts :
      (w : World) (id now user_id user_book_id : ℕ) (device : Option String)
      → count_where (has_id id) w.db.reading_sessions ≡ 0
      → Step w (run_request (start_session id now user_id user_book_id device) w).1
  logs :
      (w : World) (id user_id user_book_id started_at ended_at : ℕ) (note : Option String)
      → count_where (has_id id) w.db.reading_sessions ≡ 0
      → Step w
          (run_request (log_manual_session id user_id user_book_id started_at ended_at note) w).1
  ends :
      (w : World) (user_id session_id : ℕ) (ended_at : DateTime) (paused_ms : ℤ)
      → Step w (run_request (end_session user_id session_id ended_at paused_ms) w).1

pub data Reach (w : World) : World → Type 0 where
  here : Reach w w
  next : {v u : World} → Reach w v → Step v u → Reach w u

pub Step-IsConsistent : {w v : World} → Step w v → IsConsistent w.db → IsConsistent v.db
Step-IsConsistent (starts w id now user_id user_book_id device new) h =
    run_request-keeps IsConsistent (start_session id now user_id user_book_id device) w h
      (start_session-IsConsistent id now user_id user_book_id device (fresh w) new h)
Step-IsConsistent (logs w id user_id user_book_id started_at ended_at note new) h =
    run_request-keeps IsConsistent
      (log_manual_session id user_id user_book_id started_at ended_at note) w h
      (log_manual_session-IsConsistent id user_id user_book_id started_at ended_at note (fresh w)
        new h)
Step-IsConsistent (ends w user_id session_id ended_at paused_ms) h =
    run_request-keeps IsConsistent (end_session user_id session_id ended_at paused_ms) w h
      (end_session-IsConsistent user_id session_id ended_at paused_ms (fresh w) h)

-- Whatever transactions start and log sessions under fresh ids and end them, in any order and refused or
-- not, tables that were consistent stay consistent: no reader has two running sessions, and each reader's
-- total is the sum of the days of the heatmap and the sum of the timer sessions.
pub Reach-IsConsistent : {w v : World} → IsConsistent w.db → Reach w v → IsConsistent v.db
Reach-IsConsistent h here = h
Reach-IsConsistent h (next r st) = Step-IsConsistent st (Reach-IsConsistent h r)

empty_database-IsConsistent : IsConsistent empty_database
empty_database-IsConsistent = ground arith
