-- ===== src/Club/Agendas/Service.antt =====
-- backend/app/domains/club/service.py: ClubService on agendas and topics, with the feed and the notifications
-- wired in. A call of a notification port is the list of its recipients, in the result: the port is not
-- called where the list is empty.
use book_club.Prelude.{
  ℕ, Bool, true, false, Option, none, some, String, List, [], ◌∷◌, map, select, not, ◌&&◌, ◌||◌,
  ◌==◌,
}
use book_club.Core.Exceptions.{
  Raised, agenda_not_found, already_published, topic_not_found, invalid_topic_set,
  agenda_ai_unavailable, not_found_error, conflict_error, domain_error, not_configured,
}
use book_club.Core.Session.{Action, pure, raise, gets, raise_if, ◌>>=◌, ◌>>◌}
use book_club.Feed.Repository.{record_agenda_published}
use book_club.Club.Models.{SessionAgenda, AgendaTopic, is_published}
use book_club.Club.Guards.{
  assert_host_or_presenter, assert_can_view_club, get_session_in_club, get_agenda_in_session,
  get_topic_in_agenda, assert_agenda_author,
}
use book_club.Club.Agendas.Repository
use book_club.Club.Agendas.Repository.{get_next_topic_position}

-- if updated is None: raise NotFoundError(…)
abbrev pub found : {A : Type 0} → Raised → Option A → Action A
found e none = raise e
found e (some row) = pure row

-- SessionAgendaPublic
abbrev pub AgendaPublic : Type 0
AgendaPublic = SessionAgenda × List AgendaTopic

unfoldable pub create_agenda : ℕ → ℕ → ℕ → ℕ → ℕ → String → Action AgendaPublic
unfolding assert_host_or_presenter Repository.create_agenda
create_agenda id now club_id session_id user_id body = do
  assert_host_or_presenter club_id session_id user_id
  agenda ← Repository.create_agenda id now session_id user_id body
  pure (agenda, [])

unfoldable update_agenda : ℕ → ℕ → ℕ → ℕ → String → Action AgendaPublic
unfolding assert_host_or_presenter get_agenda_in_session Repository.update_agenda_body
    Repository.list_topics_by_agenda
update_agenda club_id session_id agenda_id user_id body = do
  assert_host_or_presenter club_id session_id user_id
  agenda ← get_agenda_in_session session_id agenda_id
  changed ← Repository.update_agenda_body agenda.id body
  updated ← found (not_found_error agenda_not_found) changed
  topics ← gets (Repository.list_topics_by_agenda updated.id)
  pure (updated, topics)

-- [uid for uid in member_ids if uid != user_id]
abbrev pub others : ℕ → List ℕ → List ℕ
others user_id member_ids = select (λ uid. not (uid == user_id)) member_ids

unfoldable pub publish_agenda : ℕ → ℕ → ℕ → ℕ → ℕ → Action (AgendaPublic × List ℕ)
unfolding assert_host_or_presenter get_agenda_in_session Repository.publish_agenda
    record_agenda_published Repository.get_member_ids Repository.list_topics_by_agenda
publish_agenda now club_id session_id agenda_id user_id = do
  assert_host_or_presenter club_id session_id user_id
  agenda ← get_agenda_in_session session_id agenda_id
  raise_if (is_published agenda.status) (conflict_error already_published)
  changed ← Repository.publish_agenda agenda.id now
  updated ← found (not_found_error agenda_not_found) changed
  record_agenda_published user_id club_id session_id agenda_id
  member_ids ← gets (Repository.get_member_ids club_id)
  topics ← gets (Repository.list_topics_by_agenda updated.id)
  pure ((updated, topics), others user_id member_ids)

unfoldable list_agendas : ℕ → ℕ → ℕ → Action (List AgendaPublic)
unfolding assert_can_view_club get_session_in_club Repository.list_agendas_by_session
    Repository.list_topics_by_agenda
list_agendas club_id session_id caller_user_id = do
  assert_can_view_club club_id caller_user_id
  get_session_in_club club_id session_id
  agendas ← gets (Repository.list_agendas_by_session session_id)
  gets (λ db. map (λ a. (a, Repository.list_topics_by_agenda a.id db)) agendas)

unfoldable pub get_agenda : ℕ → ℕ → ℕ → ℕ → Action AgendaPublic
unfolding assert_can_view_club get_session_in_club get_agenda_in_session
    Repository.list_topics_by_agenda
get_agenda club_id session_id agenda_id caller_user_id = do
  assert_can_view_club club_id caller_user_id
  get_session_in_club club_id session_id
  agenda ← get_agenda_in_session session_id agenda_id
  topics ← gets (Repository.list_topics_by_agenda agenda.id)
  pure (agenda, topics)

-- How the operations on topics begin: the agenda of the session, for its author.
unfoldable own_agenda : ℕ → ℕ → ℕ → ℕ → Action SessionAgenda
unfolding get_session_in_club get_agenda_in_session assert_agenda_author
own_agenda club_id session_id agenda_id user_id = do
  get_session_in_club club_id session_id
  agenda ← get_agenda_in_session session_id agenda_id
  assert_agenda_author agenda user_id
  pure agenda

unfoldable pub add_topic : ℕ → ℕ → ℕ → ℕ → ℕ → ℕ → String → Action AgendaTopic
unfolding own_agenda Repository.create_topic
add_topic id now club_id session_id agenda_id user_id prompt = do
  agenda ← own_agenda club_id session_id agenda_id user_id
  position ← gets (get_next_topic_position agenda.id)
  Repository.create_topic id now agenda.id position prompt

unfoldable pub update_topic : ℕ → ℕ → ℕ → ℕ → ℕ → String → Action AgendaTopic
unfolding own_agenda get_topic_in_agenda Repository.update_topic_prompt
update_topic club_id session_id agenda_id topic_id user_id prompt = do
  agenda ← own_agenda club_id session_id agenda_id user_id
  get_topic_in_agenda agenda.id topic_id
  changed ← Repository.update_topic_prompt topic_id prompt
  found (not_found_error topic_not_found) changed

unfoldable pub delete_topic : ℕ → ℕ → ℕ → ℕ → ℕ → Action (Unit {0})
unfolding own_agenda get_topic_in_agenda Repository.delete_topic
delete_topic club_id session_id agenda_id topic_id user_id = do
  agenda ← own_agenda club_id session_id agenda_id user_id
  get_topic_in_agenda agenda.id topic_id
  Repository.delete_topic topic_id

abbrev pub is_in : List ℕ → ℕ → Bool
is_in [] id = false
is_in (x ∷ xs) id = x == id || is_in xs id

abbrev pub all_in : List ℕ → List ℕ → Bool
all_in ys [] = true
all_in ys (x ∷ xs) = is_in ys x && all_in ys xs

-- set(xs) == set(ys)
abbrev same_set : List ℕ → List ℕ → Bool
same_set xs ys = all_in ys xs && all_in xs ys

unfoldable pub reorder_topics : ℕ → ℕ → ℕ → ℕ → List ℕ → Action (List AgendaTopic)
unfolding own_agenda Repository.reorder_topics Repository.list_topics_by_agenda
reorder_topics club_id session_id agenda_id user_id topic_ids = do
  agenda ← own_agenda club_id session_id agenda_id user_id
  existing ← gets (Repository.list_topics_by_agenda agenda.id)
  raise_if (not (same_set topic_ids (map (λ t. t.id) existing))) (conflict_error invalid_topic_set)
  Repository.reorder_topics agenda.id topic_ids

-- The AI port is an argument, where it is wired.
unfoldable recommend_topic_drafts :
    Option (ℕ → ℕ → String → Action (List String))
    → ℕ
    → ℕ
    → ℕ
    → ℕ
    → ℕ
    → String
    → Action (List String)
unfolding own_agenda
recommend_topic_drafts agenda_ai club_id session_id agenda_id user_id book_id scope = do
  own_agenda club_id session_id agenda_id user_id
  generate_topic_drafts ← found (domain_error not_configured agenda_ai_unavailable) agenda_ai
  generate_topic_drafts user_id book_id scope
