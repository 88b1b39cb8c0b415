-- ===== src/Club/Sessions/Hosting.antt =====
-- What the host of a club can do with its sessions.
use book_club.Prelude.{ℕ, ◌+◌, ◌≡◌, refl, some, arith, first-some}
use book_club.Core.Session.{Session, ok}
use book_club.Core.Database.{Database}
use book_club.Club.Models.{ReadingClub, ClubSession, SessionStatus, draft, opened, closed}
use book_club.Club.Repository.{get_by_id}
use book_club.Club.Guards.{get_session, has_session_id}
use book_club.Club.Roster.{IsRoster}
use book_club.Club.Sessions.Repository.{with_status}
use book_club.Club.Sessions.Service.{transition_session_status, status_index}
use book_club.Club.Sessions.Lifecycle.{get_session-changed}

-- The clubs and members of two databases are the same.
abbrev SameRolls : Database → Database → Type 0
SameRolls db db' = (db'.reading_clubs ≡ db.reading_clubs) × (db'.club_members ≡ db.club_members)

SameRolls-IsRoster : (db db' : Database) → SameRolls db db' → IsRoster db → IsRoster db'
SameRolls-IsRoster db db' (clubs, members) h = record {
  ids = rw clubs h.ids;
  rows = rw members h.rows;
  known = rw (clubs, members) h.known;
  bounded = rw (clubs, members) h.bounded;
  host = rw (clubs, members) h.host;
}

-- HA
host_advances :
    (c x : ℕ) (status : SessionStatus) (club : ReadingClub) (row : ClubSession) (s : Session)
    → IsRoster s.db
    → get_by_id c s.db ≡ some club
    → get_session x s.db ≡ some row
    → row.club_id ≡ c
    → status_index status ≡ status_index row.status + 1
    → let (r, s') = transition_session_status c x club.owner_id status s in
      (r ≡ ok (with_status status row))
      × (get_session x s'.db ≡ some (with_status status row))
      × SameRolls s.db s'.db
unfolding transition_session_status
host_advances c x status club row s h found at_x same e = ground (
  arith,
  h.host c club.owner_id club found,
  get_session-changed x x (with_status status) s.db (λ r. refl),
  first-some (has_session_id x) s.db.club_sessions row,
)

-- Where the rolls of the clubs are in order, the owner of a club can open any of its sessions that is a
-- draft, and then close it: both requests return, and the session is closed.
pub host_completes :
    (c x : ℕ) (club : ReadingClub) (row : ClubSession) (s : Session)
    → IsRoster s.db
    → get_by_id c s.db ≡ some club
    → get_session x s.db ≡ some row
    → row.club_id ≡ c
    → row.status ≡ draft
    → let (r, s1) = transition_session_status c x club.owner_id opened s in
      let (r', s2) = transition_session_status c x club.owner_id closed s1 in
      (r ≡ ok (with_status opened row))
      × (r' ≡ ok (with_status closed row))
      × (get_session x s2.db ≡ some (with_status closed row))
host_completes c x club row s h found at_x same e =
    let s1 = (transition_session_status c x club.owner_id opened s).1 in
    let (r, at1, rolls) = host_advances c x opened club row s h found at_x same (ground arith) in
    let (r', at2, _) =
      host_advances c x closed club (with_status opened row) s1
        (SameRolls-IsRoster s.db s1.db rolls h) (rw (rolls.0) found) at1 same refl in
    (r, r', at2)
