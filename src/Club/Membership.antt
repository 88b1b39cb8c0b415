-- ===== src/Club/Membership.antt =====
-- backend/app/domains/club/service.py: ClubService, the life of a club and of its membership, with the feed
-- wired in. `upper` is Python's str.upper.
use book_club.Prelude.{ℕ, Option, String, not, ◌==◌, leb}
use book_club.Core.Exceptions.{
  club_not_found, club_full, club_not_public, owner_cannot_leave, not_permitted, not_found_error,
  conflict_error, permission_denied_error,
}
use book_club.Core.Session.{Action, pure, gets, require, raise_if, when, ◌>>=◌, ◌>>◌}
use book_club.Feed.Repository.{record_club_joined}
use book_club.Club.Models.{ReadingClub}
use book_club.Club.Repository
use book_club.Club.Repository.{
  CreateClubRequest, get_by_id, get_by_invite_code, member_count, is_member, get_member_role,
  with_book,
}

unfoldable pub create_club : ℕ → ℕ → String → ℕ → CreateClubRequest → Action ReadingClub
unfolding Repository.create
create_club id now invite_code user_id req = Repository.create id now invite_code user_id req

unfoldable get_club : ℕ → Action ReadingClub
get_club club_id = require (get_by_id club_id) (not_found_error club_not_found)

unfoldable pub join_by_code : (String → String) → ℕ → ℕ → String → Action ReadingClub
unfolding Repository.join
join_by_code upper now user_id invite_code = do
  club ← require (get_by_invite_code (upper invite_code)) (not_found_error club_not_found)
  count ← gets (member_count club.id)
  raise_if (leb club.max_members count) (conflict_error club_full)
  joined ← gets (is_member club.id user_id)
  when (not joined) (Repository.join now club.id user_id)
  pure club

unfoldable pub join_public : ℕ → ℕ → ℕ → Action ReadingClub
unfolding Repository.join record_club_joined
join_public now club_id user_id = do
  club ← require (get_by_id club_id) (not_found_error club_not_found)
  raise_if (not club.is_public) (permission_denied_error club_not_public)
  count ← gets (member_count club_id)
  raise_if (leb club.max_members count) (conflict_error club_full)
  joined ← gets (is_member club_id user_id)
  when (not joined) (do Repository.join now club_id user_id; record_club_joined user_id club_id)
  pure club

unfoldable pub leave_club : ℕ → ℕ → Action (Unit {0})
unfolding Repository.leave
leave_club user_id club_id = do
  club ← require (get_by_id club_id) (not_found_error club_not_found)
  raise_if (club.owner_id == user_id) (conflict_error owner_cannot_leave)
  Repository.leave club_id user_id

unfoldable pub set_book : ℕ → ℕ → Option ℕ → Action ReadingClub
unfolding Repository.set_book
set_book club_id user_id book_id = do
  club ← require (get_by_id club_id) (not_found_error club_not_found)
  raise_if (not (club.owner_id == user_id)) (permission_denied_error not_permitted)
  Repository.set_book club_id book_id
  pure (with_book book_id club)
