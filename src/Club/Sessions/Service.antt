-- ===== src/Club/Sessions/Service.antt =====
-- backend/app/domains/club/service.py: ClubService on sessions, with the feed wired in. The route admits no
-- status but the three, so INVALID_SESSION_STATUS has no counterpart.
use book_club.Prelude.{ℕ, ◌+◌, Bool, true, false, Option, none, some, List, not, ◌==◌}
use book_club.Core.Exceptions.{
  invalid_status_transition, session_not_found, not_found_error, conflict_error,
}
use book_club.Core.Session.{Action, pure, raise, gets, raise_if, when, ◌>>=◌, ◌>>◌}
use book_club.Feed.Repository.{record_session_opened}
use book_club.Club.Models.{ClubSession, SessionStatus, draft, opened, closed}
use book_club.Club.Guards.{
  assert_host, assert_can_view_club, assert_presenter_is_member, get_session_in_club,
}
use book_club.Club.Sessions.Repository
use book_club.Club.Sessions.Repository.{ClubSessionCreate}

unfoldable pub create_session : ℕ → ℕ → ℕ → ℕ → ClubSessionCreate → Action ClubSession
unfolding assert_host assert_presenter_is_member Repository.create_session
create_session id now club_id user_id req = do
  assert_host club_id user_id
  assert_presenter_is_member club_id req.presenter_id
  Repository.create_session id now club_id user_id req

unfoldable pub list_sessions : ℕ → ℕ → Option ℕ → Action (List ClubSession)
unfolding assert_can_view_club
list_sessions club_id caller_user_id book_id = do
  assert_can_view_club club_id caller_user_id
  gets (Repository.list_sessions club_id book_id)

unfoldable pub get_session : ℕ → ℕ → ℕ → Action ClubSession
unfolding assert_can_view_club get_session_in_club
get_session club_id session_id caller_user_id = do
  assert_can_view_club club_id caller_user_id
  get_session_in_club club_id session_id

-- if updated is None: raise NotFoundError(…)
abbrev pub found : Option ClubSession → Action ClubSession
found none = raise (not_found_error session_not_found)
found (some row) = pure row

unfoldable pub set_session_presenter : ℕ → ℕ → ℕ → Option ℕ → Action ClubSession
unfolding assert_host get_session_in_club assert_presenter_is_member
    Repository.update_session_presenter
set_session_presenter club_id session_id user_id presenter_id = do
  assert_host club_id user_id
  get_session_in_club club_id session_id
  assert_presenter_is_member club_id presenter_id
  updated ← Repository.update_session_presenter session_id presenter_id
  found updated

-- _SESSION_STATUS_ORDER.index
abbrev pub status_index : SessionStatus → ℕ
status_index draft = 0
status_index opened = 1
status_index closed = 2

unfoldable validate_status_transition : SessionStatus → SessionStatus → Action (Unit {0})
validate_status_transition current target =
    raise_if (not (status_index target == status_index current + 1))
      (conflict_error invalid_status_transition)

-- status == SessionStatus.OPEN
abbrev pub is_opening : SessionStatus → Bool
is_opening draft = false
is_opening opened = true
is_opening closed = false

unfoldable pub transition_session_status : ℕ → ℕ → ℕ → SessionStatus → Action ClubSession
unfolding assert_host get_session_in_club validate_status_transition
    Repository.update_session_status record_session_opened
transition_session_status club_id session_id user_id status = do
  assert_host club_id user_id
  row ← get_session_in_club club_id session_id
  validate_status_transition row.status status
  changed ← Repository.update_session_status session_id status
  updated ← found changed
  when (is_opening status) (record_session_opened user_id club_id session_id updated.book_id)
  pure updated
