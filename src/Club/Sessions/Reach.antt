-- ===== src/Club/Sessions/Reach.antt =====
-- The requests on sessions as steps of the process in any order, against the lifecycle of one session.
use book_club.Prelude.{ℕ, ◌≡◌, Option, none}
use book_club.Core.Session.{World, run_request}
use book_club.Core.Session.Atomic.{run_request-keeps, fresh}
use book_club.Club.Models.{SessionStatus}
use book_club.Club.Guards.{get_session}
use book_club.Club.Sessions.Repository.{ClubSessionCreate}
use book_club.Club.Sessions.Service.{
  create_session, set_session_presenter, transition_session_status,
}
use book_club.Club.Sessions.Lifecycle.{status_at, Moves, IsAnnounced, Follows, Follows-refl}
use book_club.Club.Sessions.Requests.{
  create_session-Follows, set_session_presenter-Follows, transition_session_status-Follows,
}

-- The id of a new session is drawn fresh.
pub data Step : World → World → Type 0 where
  creates :
      (w : World) (id now c u : ℕ) (req : ClubSessionCreate)
      → get_session id w.db ≡ none
      → Step w (run_request (create_session id now c u req) w).1
  presents :
      (w : World) (c x u : ℕ) (presenter_id : Option ℕ)
      → Step w (run_request (set_session_presenter c x u presenter_id) w).1
  transitions :
      (w : World) (c x u : ℕ) (status : SessionStatus)
      → Step w (run_request (transition_session_status c x u status) w).1

pub data Reach (w : World) : World → Type 0 where
  here : Reach w w
  next : {v u : World} → Reach w v → Step v u → Reach w u

-- Any number of moves.
pub data Runs (o : Option SessionStatus) : Option SessionStatus → Type 0 where
  rests : Runs o o
  goes : {p q : Option SessionStatus} → Runs o p → Moves p q → Runs o q

-- SF
Step-Follows : {w v : World} → Step w v → Follows w.db v.db
Step-Follows (creates w id now c u req new) =
    run_request-keeps (Follows w.db) (create_session id now c u req) w (Follows-refl w.db)
      (create_session-Follows id now c u req (fresh w) new)
Step-Follows (presents w c x u presenter_id) =
    run_request-keeps (Follows w.db) (set_session_presenter c x u presenter_id) w
      (Follows-refl w.db) (set_session_presenter-Follows c x u presenter_id (fresh w))
Step-Follows (transitions w c x u status) =
    run_request-keeps (Follows w.db) (transition_session_status c x u status) w (Follows-refl w.db)
      (transition_session_status-Follows c x u status (fresh w))

-- Whatever transactions create sessions under fresh ids, set their presenters and change their statuses,
-- in any order and refused or not, the status of each session id only goes through the lifecycle none,
-- draft, open, closed, one step at a time and never back.
pub Reach-Runs :
    {w v : World} (session_id : ℕ)
    → Reach w v
    → Runs (status_at session_id w.db) (status_at session_id v.db)
Reach-Runs session_id here = rests
Reach-Runs session_id (next r st) =
    goes (Reach-Runs session_id r) ((Step-Follows st).moves session_id)

-- If the feed told of each session's opening once where the session is open or closed, and never
-- otherwise, the same holds after any transactions that create sessions under fresh ids, set their
-- presenters and change their statuses.
pub Reach-IsAnnounced : {w v : World} → Reach w v → IsAnnounced w.db → IsAnnounced v.db
Reach-IsAnnounced here h = h
Reach-IsAnnounced (next r st) h = (Step-Follows st).announced (Reach-IsAnnounced r h)
