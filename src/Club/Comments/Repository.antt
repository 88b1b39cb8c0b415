-- ===== src/Club/Comments/Repository.antt =====
-- backend/app/domains/club/repository.py: the statements on topic_comments.
use book_club.Prelude.{
  ℕ, Bool, Option, none, some, String, List, [], ◌∷◌, ◌++◌, ◌==◌, leb, select, update_where,
  sort_by,
}
use book_club.Core.Database.{Database}
use book_club.Core.Threads.{cascade}
use book_club.Core.Session.{Action, pure, gets, modify, ◌>>◌}
use book_club.Club.Models.{TopicComment}
use book_club.Club.Guards.{has_comment_id, get_comment}

abbrev pub new_comment : ℕ → ℕ → ℕ → ℕ → Option ℕ → String → TopicComment
new_comment id now topic_id author_id parent_comment_id body = record {
  id = id;
  topic_id = topic_id;
  author_id = author_id;
  parent_comment_id = parent_comment_id;
  body = body;
  created_at = now;
  edited_at = none;
}

abbrev with_comment : TopicComment → Database → Database
with_comment row db = record db { topic_comments = db.topic_comments ++ row ∷ [] }

unfoldable pub create_comment : ℕ → ℕ → ℕ → ℕ → Option ℕ → String → Action TopicComment
create_comment id now topic_id author_id parent_comment_id body = do
  modify (with_comment (new_comment id now topic_id author_id parent_comment_id body))
  pure (new_comment id now topic_id author_id parent_comment_id body)

abbrev pub in_topic : ℕ → TopicComment → Bool
in_topic topic_id c = c.topic_id == topic_id

-- ORDER BY created_at
abbrev pub comment_before : TopicComment → TopicComment → Bool
comment_before a b = leb a.created_at b.created_at

unfoldable pub list_comments_by_topic : ℕ → Database → List TopicComment
list_comments_by_topic topic_id db =
    sort_by comment_before (select (in_topic topic_id) db.topic_comments)

abbrev pub edited : String → ℕ → TopicComment → TopicComment
edited body now c = record c { body = body; edited_at = some now }

abbrev comment_changed : ℕ → (TopicComment → TopicComment) → Database → Database
comment_changed comment_id f db = record db {
  topic_comments = update_where (has_comment_id comment_id) f db.topic_comments;
}

unfoldable pub update_comment_body : ℕ → String → ℕ → Action (Option TopicComment)
update_comment_body comment_id body edited_at = do
  modify (comment_changed comment_id (edited body edited_at))
  gets (get_comment comment_id)

-- What the deletion of the selected comments leaves: the foreign key of the parent cascades.
unfoldable pub deleted : (TopicComment → Bool) → List TopicComment → List TopicComment
unfolding cascade
deleted gone cs = cascade (λ c. c.id) (λ c. c.parent_comment_id) gone [] cs

unfoldable pub delete_comment : ℕ → Action (Unit {0})
unfolding deleted
delete_comment comment_id =
    modify
      (λ db. record db { topic_comments = deleted (has_comment_id comment_id) db.topic_comments })
