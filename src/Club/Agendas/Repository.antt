-- ===== src/Club/Agendas/Repository.antt =====
-- backend/app/domains/club/repository.py: the statements on session_agendas and agenda_topics.
use book_club.Prelude.{
  ℕ, ◌+◌, Bool, Option, none, some, String, List, [], ◌∷◌, ◌++◌, map, ◌&&◌, ◌==◌, leb, max, select,
  update_where, delete_where, sort_by, if◌then◌else◌,
}
use book_club.Core.Database.{Database}
use book_club.Core.Session.{Action, pure, gets, modify, ◌>>◌}
use book_club.Club.Models.{SessionAgenda, AgendaTopic, unpublished, published}
use book_club.Club.Repository.{in_club}
use book_club.Club.Guards.{has_agenda_id, get_agenda, has_topic_id, get_topic}
use book_club.Club.Comments.Repository.{deleted}

abbrev pub new_agenda : ℕ → ℕ → ℕ → ℕ → String → SessionAgenda
new_agenda id now session_id author_id body = record {
  id = id;
  session_id = session_id;
  author_id = author_id;
  body = body;
  status = unpublished;
  published_at = none;
  created_at = now;
}

abbrev with_agenda : SessionAgenda → Database → Database
with_agenda row db = record db { session_agendas = db.session_agendas ++ row ∷ [] }

unfoldable pub create_agenda : ℕ → ℕ → ℕ → ℕ → String → Action SessionAgenda
create_agenda id now session_id author_id body = do
  modify (with_agenda (new_agenda id now session_id author_id body))
  pure (new_agenda id now session_id author_id body)

-- ORDER BY created_at
abbrev agenda_before : SessionAgenda → SessionAgenda → Bool
agenda_before a b = leb a.created_at b.created_at

unfoldable pub list_agendas_by_session : ℕ → Database → List SessionAgenda
list_agendas_by_session session_id db =
    sort_by agenda_before (select (λ a. a.session_id == session_id) db.session_agendas)

abbrev agenda_changed : ℕ → (SessionAgenda → SessionAgenda) → Database → Database
agenda_changed agenda_id f db = record db {
  session_agendas = update_where (has_agenda_id agenda_id) f db.session_agendas;
}

abbrev with_body : String → SessionAgenda → SessionAgenda
with_body body a = record a { body = body }

abbrev pub as_published : ℕ → SessionAgenda → SessionAgenda
as_published now a = record a { status = published; published_at = some now }

-- The row as it was changed, if there is one.
abbrev change_agenda : ℕ → (SessionAgenda → SessionAgenda) → Action (Option SessionAgenda)
change_agenda agenda_id f = do modify (agenda_changed agenda_id f); gets (get_agenda agenda_id)

unfoldable pub update_agenda_body : ℕ → String → Action (Option SessionAgenda)
update_agenda_body agenda_id body = change_agenda agenda_id (with_body body)

unfoldable pub publish_agenda : ℕ → ℕ → Action (Option SessionAgenda)
publish_agenda agenda_id published_at = change_agenda agenda_id (as_published published_at)

unfoldable pub get_member_ids : ℕ → Database → List ℕ
get_member_ids club_id db = map (λ m. m.user_id) (select (in_club club_id) db.club_members)

abbrev pub in_agenda : ℕ → AgendaTopic → Bool
in_agenda agenda_id t = t.agenda_id == agenda_id

abbrev pub new_topic : ℕ → ℕ → ℕ → ℕ → String → AgendaTopic
new_topic id now agenda_id position prompt = record {
  id = id;
  agenda_id = agenda_id;
  position = position;
  prompt = prompt;
  created_at = now;
}

abbrev with_topic : AgendaTopic → Database → Database
with_topic row db = record db { agenda_topics = db.agenda_topics ++ row ∷ [] }

unfoldable pub create_topic : ℕ → ℕ → ℕ → ℕ → String → Action AgendaTopic
create_topic id now agenda_id position prompt = do
  modify (with_topic (new_topic id now agenda_id position prompt))
  pure (new_topic id now agenda_id position prompt)

-- ORDER BY position
abbrev pub topic_before : AgendaTopic → AgendaTopic → Bool
topic_before a b = leb a.position b.position

unfoldable pub list_topics_by_agenda : ℕ → Database → List AgendaTopic
list_topics_by_agenda agenda_id db =
    sort_by topic_before (select (in_agenda agenda_id) db.agenda_topics)

-- One more than the greatest position in the agenda, 0 where it has no topic.
abbrev pub next_position : ℕ → List AgendaTopic → ℕ
next_position agenda_id [] = 0
next_position agenda_id (t ∷ ts) =
    let rest = next_position agenda_id ts in
    if t.agenda_id == agenda_id then max (t.position + 1) rest else rest

abbrev pub get_next_topic_position : ℕ → Database → ℕ
get_next_topic_position agenda_id db = next_position agenda_id db.agenda_topics

abbrev pub with_prompt : String → AgendaTopic → AgendaTopic
with_prompt prompt t = record t { prompt = prompt }

unfoldable pub update_topic_prompt : ℕ → String → Action (Option AgendaTopic)
update_topic_prompt topic_id prompt = do
  modify (λ db. record db {
    agenda_topics = update_where (has_topic_id topic_id) (with_prompt prompt) db.agenda_topics;
  })
  gets (get_topic topic_id)

-- The comments under the topic go with it.
unfoldable pub delete_topic : ℕ → Action (Unit {0})
unfolding deleted
delete_topic topic_id = modify (λ db. record db {
  agenda_topics = delete_where (has_topic_id topic_id) db.agenda_topics;
  topic_comments = deleted (λ c. c.topic_id == topic_id) db.topic_comments;
})

abbrev pub is_topic_of : ℕ → ℕ → AgendaTopic → Bool
is_topic_of agenda_id topic_id t = t.agenda_id == agenda_id && t.id == topic_id

abbrev pub at_position : ℕ → AgendaTopic → AgendaTopic
at_position position t = record t { position = position }

-- The loop of `reorder_topics`: an id that the agenda lacks is passed over.
unfoldable pub position_from : ℕ → ℕ → List ℕ → List AgendaTopic → List AgendaTopic
position_from agenda_id position [] rows = rows
position_from agenda_id position (topic_id ∷ topic_ids) rows =
    position_from agenda_id (position + 1) topic_ids
      (update_where (is_topic_of agenda_id topic_id) (at_position position) rows)

unfoldable pub reorder_topics : ℕ → List ℕ → Action (List AgendaTopic)
unfolding position_from list_topics_by_agenda
reorder_topics agenda_id topic_id_order = do
  modify (λ db. record db {
    agenda_topics = position_from agenda_id 0 topic_id_order db.agenda_topics;
  })
  gets (list_topics_by_agenda agenda_id)
