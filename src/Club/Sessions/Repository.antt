-- ===== src/Club/Sessions/Repository.antt =====
-- backend/app/domains/club/repository.py: the statements on club_sessions.
use book_club.Prelude.{
  ℕ, Bool, Option, none, some, String, List, [], ◌∷◌, ◌++◌, not, ◌&&◌, ◌||◌, ◌==◌, ltb, leb, select,
  update_where, sort_by,
}
use book_club.Core.Exceptions.{integrity_error}
use book_club.Core.Database.{Database}
use book_club.Core.Session.{Action, pure, gets, raise_if, modify, ◌>>◌}
use book_club.Club.Models.{ClubSession, SessionStatus, draft}
use book_club.Club.Repository.{book_exists}
use book_club.Club.Guards.{has_session_id, get_session}

pub record ClubSessionCreate : Type 0 where
  pub book_id : ℕ
  pub title : String
  pub scope : Option String
  pub presenter_id : Option ℕ
  pub scheduled_at : Option ℕ

abbrev pub new_session : ℕ → ℕ → ℕ → ℕ → ClubSessionCreate → ClubSession
new_session id now club_id created_by req = record {
  id = id;
  club_id = club_id;
  book_id = req.book_id;
  title = req.title;
  scope = req.scope;
  presenter_id = req.presenter_id;
  scheduled_at = req.scheduled_at;
  status = draft;
  created_by = created_by;
  created_at = now;
}

abbrev pub with_session : ClubSession → Database → Database
with_session row db = record db { club_sessions = db.club_sessions ++ row ∷ [] }

unfoldable pub create_session : ℕ → ℕ → ℕ → ℕ → ClubSessionCreate → Action ClubSession
create_session id now club_id created_by req s =
    let row = new_session id now club_id created_by req in
    (do
      raise_if (not (book_exists (some req.book_id) s.db)) integrity_error
      modify (with_session row)
      pure row)
      s

-- ORDER BY book_id, created_at DESC
abbrev session_before : ClubSession → ClubSession → Bool
session_before a b =
    ltb a.book_id b.book_id || (a.book_id == b.book_id && leb b.created_at a.created_at)

-- The club and, where one is asked for, the book of a session.
abbrev is_listed : ℕ → Option ℕ → ClubSession → Bool
is_listed club_id none r = r.club_id == club_id
is_listed club_id (some book_id) r = r.club_id == club_id && r.book_id == book_id

unfoldable pub list_sessions : ℕ → Option ℕ → Database → List ClubSession
list_sessions club_id book_id db =
    sort_by session_before (select (is_listed club_id book_id) db.club_sessions)

abbrev pub with_status : SessionStatus → ClubSession → ClubSession
with_status status r = record r { status = status }

abbrev pub with_presenter : Option ℕ → ClubSession → ClubSession
with_presenter presenter_id r = record r { presenter_id = presenter_id }

abbrev pub changed : ℕ → (ClubSession → ClubSession) → Database → Database
changed session_id f db = record db {
  club_sessions = update_where (has_session_id session_id) f db.club_sessions;
}

-- The row as it was changed, if there is one.
abbrev update : ℕ → (ClubSession → ClubSession) → Action (Option ClubSession)
update session_id f = do modify (changed session_id f); gets (get_session session_id)

unfoldable pub update_session_status : ℕ → SessionStatus → Action (Option ClubSession)
update_session_status session_id status = update session_id (with_status status)

unfoldable pub update_session_presenter : ℕ → Option ℕ → Action (Option ClubSession)
update_session_presenter session_id presenter_id = update session_id (with_presenter presenter_id)
