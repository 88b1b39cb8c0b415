-- ===== src/Feed/Posts.antt =====
-- backend/app/domains/feed/repository.py: PostRepository, the statements on posts.
pub mod Deletion
pub mod Paging
use book_club.Prelude.{
  ℕ, Bool, true, Option, none, some, String, List, [], ◌∷◌, ◌++◌, not, ◌&&◌, ◌||◌, ◌==◌, ltb, leb,
  is_some, select, first, count_where, update_where, sort_by, take, if◌then◌else◌,
}
use book_club.Core.Database.{Database}
use book_club.Core.Session.{Action, pure, modify, ◌>>=◌, ◌>>◌}
use book_club.Feed.Models.{Post, PostType, Comment}

abbrev pub new_post : ℕ → ℕ → ℕ → ℕ → PostType → String → List String → Post
new_post id now user_id book_id post_type content image_keys = record {
  id = id;
  book_id = book_id;
  user_id = user_id;
  post_type = post_type;
  content = content;
  image_keys = image_keys;
  created_at = now;
  deleted_at = none;
}

unfoldable pub create : ℕ → ℕ → ℕ → ℕ → PostType → String → List String → Action Post
create id now user_id book_id post_type content image_keys =
    let row = new_post id now user_id book_id post_type content image_keys in
    do modify (λ db. record db { posts = db.posts ++ row ∷ [] }); pure row

abbrev pub has_post_id : ℕ → Post → Bool
has_post_id post_id p = p.id == post_id

-- None for a row that is deleted.
abbrev pub undeleted : Option Post → Option Post
undeleted none = none
undeleted (some row) = if is_some row.deleted_at then none else some row

abbrev pub get_post : ℕ → Database → Option Post
get_post post_id db = undeleted (first (has_post_id post_id) db.posts)

abbrev pub posted_before : Option ℕ → Post → Bool
posted_before none p = true
posted_before (some cursor) p = ltb p.created_at cursor

abbrev pub is_listed : ℕ → Post → Bool
is_listed book_id p = p.book_id == book_id && not (is_some p.deleted_at)

-- ORDER BY created_at DESC, id DESC
abbrev pub newer_post : Post → Post → Bool
newer_post a b = ltb b.created_at a.created_at || b.created_at == a.created_at && leb b.id a.id

-- The posts of a book before the cursor, newest first.
abbrev pub timeline : ℕ → Option ℕ → Database → List Post
timeline book_id cursor db =
    sort_by newer_post (select (λ p. posted_before cursor p && is_listed book_id p) db.posts)

unfoldable pub list_by_book : ℕ → Option ℕ → ℕ → Database → List Post
list_by_book book_id cursor limit db = take limit (timeline book_id cursor db)

abbrev pub post_deleted : ℕ → Post → Post
post_deleted at p = record p { deleted_at = some at }

-- A row that is missing is left alone, as an UPDATE without a row does.
unfoldable pub soft_delete : ℕ → ℕ → Action (Unit {0})
soft_delete post_id at =
    modify
      (λ db. record db { posts = update_where (has_post_id post_id) (post_deleted at) db.posts })

-- The count of one post; the source reads those of a page in one query.
abbrev pub comment_count : Database → ℕ → ℕ
comment_count db post_id =
    count_where (λ c. c.post_id == post_id && not (is_some c.deleted_at)) db.comments
