-- ===== src/Club/Guards.antt =====
-- backend/app/domains/club/service.py: the guards that the operations on sessions, agendas, topics and
-- comments begin with.
use book_club.Prelude.{ℕ, Bool, false, Option, none, some, not, ◌||◌, ◌==◌, some_eq, first}
use book_club.Core.Exceptions.{
  club_not_found, not_member, not_permitted, presenter_not_member, session_not_found,
  agenda_not_found, topic_not_found, comment_not_found, not_found_error, conflict_error,
  permission_denied_error,
}
use book_club.Core.Database.{Database}
use book_club.Core.Session.{Action, pure, gets, require, raise_if, ◌>>=◌, ◌>>◌}
use book_club.Club.Models.{
  ReadingClub, ClubRole, ClubSession, SessionAgenda, AgendaTopic, TopicComment, is_owner,
}
use book_club.Club.Repository.{get_by_id, is_member, get_member_role}

abbrev pub has_session_id : ℕ → ClubSession → Bool
has_session_id session_id r = r.id == session_id

abbrev pub get_session : ℕ → Database → Option ClubSession
get_session session_id db = first (has_session_id session_id) db.club_sessions

abbrev pub has_agenda_id : ℕ → SessionAgenda → Bool
has_agenda_id agenda_id a = a.id == agenda_id

abbrev pub get_agenda : ℕ → Database → Option SessionAgenda
get_agenda agenda_id db = first (has_agenda_id agenda_id) db.session_agendas

abbrev pub has_topic_id : ℕ → AgendaTopic → Bool
has_topic_id topic_id t = t.id == topic_id

abbrev pub get_topic : ℕ → Database → Option AgendaTopic
get_topic topic_id db = first (has_topic_id topic_id) db.agenda_topics

abbrev pub has_comment_id : ℕ → TopicComment → Bool
has_comment_id comment_id c = c.id == comment_id

abbrev pub get_comment : ℕ → Database → Option TopicComment
get_comment comment_id db = first (has_comment_id comment_id) db.topic_comments

-- role == ClubRole.OWNER, for a role that may be missing
abbrev pub is_host_role : Option ClubRole → Bool
is_host_role none = false
is_host_role (some role) = is_owner role

abbrev pub get_club_or_404 : ℕ → Action ReadingClub
get_club_or_404 club_id = require (get_by_id club_id) (not_found_error club_not_found)

unfoldable pub assert_host : ℕ → ℕ → Action ReadingClub
assert_host club_id user_id = do
  club ← get_club_or_404 club_id
  role ← gets (get_member_role club_id user_id)
  raise_if (not (is_host_role role)) (permission_denied_error not_permitted)
  pure club

unfoldable pub assert_can_view_club : ℕ → ℕ → Action ReadingClub
assert_can_view_club club_id user_id = do
  club ← get_club_or_404 club_id
  joined ← gets (is_member club_id user_id)
  raise_if (not (club.is_public || joined)) (permission_denied_error not_member)
  pure club

unfoldable pub assert_presenter_is_member : ℕ → Option ℕ → Action (Unit {0})
assert_presenter_is_member club_id none = pure tt
assert_presenter_is_member club_id (some presenter_id) = do
  joined ← gets (is_member club_id presenter_id)
  raise_if (not joined) (conflict_error presenter_not_member)

unfoldable pub get_session_in_club : ℕ → ℕ → Action ClubSession
get_session_in_club club_id session_id = do
  row ← require (get_session session_id) (not_found_error session_not_found)
  raise_if (not (row.club_id == club_id)) (not_found_error session_not_found)
  pure row

unfoldable pub assert_host_or_presenter : ℕ → ℕ → ℕ → Action ClubSession
unfolding get_session_in_club
assert_host_or_presenter club_id session_id user_id = do
  club ← get_club_or_404 club_id
  row ← get_session_in_club club_id session_id
  raise_if (not (club.owner_id == user_id || some_eq row.presenter_id user_id))
      (permission_denied_error not_permitted)
  pure row

unfoldable pub get_agenda_in_session : ℕ → ℕ → Action SessionAgenda
get_agenda_in_session session_id agenda_id = do
  agenda ← require (get_agenda agenda_id) (not_found_error agenda_not_found)
  raise_if (not (agenda.session_id == session_id)) (not_found_error agenda_not_found)
  pure agenda

unfoldable pub get_topic_in_agenda : ℕ → ℕ → Action AgendaTopic
get_topic_in_agenda agenda_id topic_id = do
  topic ← require (get_topic topic_id) (not_found_error topic_not_found)
  raise_if (not (topic.agenda_id == agenda_id)) (not_found_error topic_not_found)
  pure topic

unfoldable pub assert_agenda_author : SessionAgenda → ℕ → Action (Unit {0})
assert_agenda_author agenda user_id =
    raise_if (not (agenda.author_id == user_id)) (permission_denied_error not_permitted)

unfoldable pub assert_club_member : ℕ → ℕ → Action (Unit {0})
assert_club_member club_id user_id = do
  joined ← gets (is_member club_id user_id)
  raise_if (not joined) (permission_denied_error not_member)

unfoldable pub get_comment_in_topic : ℕ → ℕ → Action TopicComment
get_comment_in_topic topic_id comment_id = do
  comment ← require (get_comment comment_id) (not_found_error comment_not_found)
  raise_if (not (comment.topic_id == topic_id)) (not_found_error comment_not_found)
  pure comment

unfoldable pub assert_comment_author_or_host : ReadingClub → TopicComment → ℕ → Action (Unit {0})
assert_comment_author_or_host club comment user_id =
    raise_if (not (comment.author_id == user_id || club.owner_id == user_id))
      (permission_denied_error not_permitted)
