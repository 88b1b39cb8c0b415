-- ===== src/Feed/Comments.antt =====
-- backend/app/domains/feed/repository.py: CommentRepository, the statements on comments.
pub mod Steps
use book_club.Prelude.{
  ℕ, Bool, true, Option, none, some, String, List, [], ◌∷◌, ◌++◌, not, ◌&&◌, ◌==◌, ltb, leb,
  is_some, select, first, update_where, sort_by, take, if◌then◌else◌,
}
use book_club.Core.Database.{Database}
use book_club.Core.Session.{Action, pure, modify, ◌>>=◌, ◌>>◌}
use book_club.Feed.Models.{Comment}

abbrev pub new_comment : ℕ → ℕ → ℕ → ℕ → Option ℕ → String → Comment
new_comment id now user_id post_id parent_id content = record {
  id = id;
  post_id = post_id;
  user_id = user_id;
  parent_id = parent_id;
  content = content;
  created_at = now;
  deleted_at = none;
}

unfoldable pub create : ℕ → ℕ → ℕ → ℕ → Option ℕ → String → Action Comment
create id now user_id post_id parent_id content =
    let row = new_comment id now user_id post_id parent_id content in
    do modify (λ db. record db { comments = db.comments ++ row ∷ [] }); pure row

abbrev pub has_comment_id : ℕ → Comment → Bool
has_comment_id comment_id c = c.id == comment_id

-- None for a row that is deleted.
abbrev pub undeleted : Option Comment → Option Comment
undeleted none = none
undeleted (some row) = if is_some row.deleted_at then none else some row

abbrev pub get_comment : ℕ → Database → Option Comment
get_comment comment_id db = undeleted (first (has_comment_id comment_id) db.comments)

abbrev commented_after : Option ℕ → Comment → Bool
commented_after none c = true
commented_after (some cursor) c = ltb cursor c.created_at

-- ORDER BY created_at
abbrev older_comment : Comment → Comment → Bool
older_comment a b = leb a.created_at b.created_at

unfoldable pub list_by_post : ℕ → Option ℕ → ℕ → Database → List Comment
list_by_post post_id cursor limit db = take limit (
    sort_by older_comment (
      select (λ c. commented_after cursor c && c.post_id == post_id && not (is_some c.deleted_at))
        db.comments))

abbrev pub comment_deleted : ℕ → Comment → Comment
comment_deleted at c = record c { deleted_at = some at }

-- A row that is missing is left alone, as an UPDATE without a row does.
unfoldable pub soft_delete : ℕ → ℕ → Action (Unit {0})
soft_delete comment_id at = modify (λ db. record db {
  comments = update_where (has_comment_id comment_id) (comment_deleted at) db.comments;
})
