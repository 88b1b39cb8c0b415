-- ===== src/Feed/Service.antt =====
-- backend/app/domains/feed/service.py: FeedService on posts, their reactions and their comments. A cursor is
-- the instant that `_parse_iso_cursor` makes of the text, None where it is missing or malformed. The image
-- storage is a parameter: `public_url` of a key.
use text.Mathlib.Text.{◌==◌ as str_eq, starts_with}
use Prim.Native.String.{count, ◌++◌ as str_append}
use book_club.Prelude.{
  ℕ, Bool, true, false, Option, none, some, String, List, [], ◌∷◌, map, not, ◌&&◌, ◌==◌, ltb, min,
  max, length, is_some, if◌then◌else◌,
}
use book_club.Core.Exceptions.{
  content_empty, content_too_long, too_many_images, image_key_forbidden, book_not_found,
  post_not_found, comment_not_found, comment_depth_exceeded, not_found_error, conflict_error,
}
use book_club.Core.Events.{post_created, reaction_added, comment_added}
use book_club.Core.Database.{Database}
use book_club.Core.Session.{Action, pure, gets, require, raise_if, stage_event, ◌>>=◌, ◌>>◌}
use book_club.Book.Service.{find_book}
use book_club.Feed.Models.{Post, PostType, Comment, ReactionType}
use book_club.Feed.Posts.{get_post, list_by_book, comment_count}
use book_club.Feed.Posts
use book_club.Feed.Reactions.{add, remove, aggregate_for_post, reactions_by_user}
use book_club.Feed.Comments.{get_comment, list_by_post}
use book_club.Feed.Comments

-- key.startswith(f"feed/{user_id}/"), for all the keys. `str` is `UUID.__str__`.
abbrev pub own_keys : (ℕ → String) → ℕ → List String → Bool
own_keys str user_id [] = true
own_keys str user_id (key ∷ keys) =
    starts_with key (str_append "feed/" (str_append (str user_id) "/")) && own_keys str user_id keys

unfoldable pub create_post :
    (ℕ → String) → ℕ → ℕ → ℕ → ℕ → PostType → String → List String → Action Post
unfolding Posts.create
create_post str id now user_id book_id post_type content image_keys = do
  raise_if (str_eq content "") (conflict_error content_empty)
  raise_if (ltb 2000 (count content)) (conflict_error content_too_long)
  raise_if (ltb 4 (length image_keys)) (conflict_error too_many_images)
  raise_if (not (own_keys str user_id image_keys)) (conflict_error image_key_forbidden)
  require (find_book book_id) (not_found_error book_not_found)
  post ← Posts.create id now user_id book_id post_type content image_keys
  stage_event (post_created (record { post_id = id; book_id = book_id; author_id = user_id }))
  pure post

pub record PostFeedItem : Type 0 where
  pub post : Post
  pub reactions : ReactionType → Option ℕ
  pub my_reactions : ReactionType → Bool
  pub comment_count : ℕ
  pub image_urls : List String

abbrev pub item : (String → String) → ℕ → Database → Post → PostFeedItem
item public_url viewer_id db row = record {
  post = row;
  reactions = aggregate_for_post row.id db;
  my_reactions = reactions_by_user row.id viewer_id db;
  comment_count = comment_count db row.id;
  image_urls = map public_url row.image_keys;
}

-- rows[-1].created_at
abbrev pub last_posted : List Post → Option ℕ
last_posted [] = none
last_posted (p ∷ []) = some p.created_at
last_posted (p ∷ p' ∷ ps) = last_posted (p' ∷ ps)

-- A page that is full has a cursor.
abbrev pub post_page :
    (String → String) → ℕ → Database → ℕ → List Post → List PostFeedItem × Option ℕ
post_page public_url viewer_id db clamped rows = (
  map (item public_url viewer_id db) rows,
  if length rows == clamped then last_posted rows else none,
)

unfoldable pub list_posts_by_book :
    (String → String) → ℕ → ℕ → Option ℕ → ℕ → Action (List PostFeedItem × Option ℕ)
unfolding list_by_book
list_posts_by_book public_url book_id viewer_id cursor limit =
    let clamped = max 1 (min limit 50) in
    gets (λ db. post_page public_url viewer_id db clamped (list_by_book book_id cursor clamped db))

unfoldable pub delete_post : ℕ → ℕ → ℕ → Action (Unit {0})
unfolding Posts.soft_delete
delete_post now user_id post_id = do
  post ← require (get_post post_id) (not_found_error post_not_found)
  raise_if (not (post.user_id == user_id)) (not_found_error post_not_found)
  Posts.soft_delete post_id now

pub data ToggleState : Type 0 where
  added removed : ToggleState

-- The two branches of a toggle.
unfoldable switch : Bool → ℕ → ℕ → ℕ → Post → ReactionType → Action ToggleState
unfolding add remove
switch true id user_id post_id post t = do remove post_id user_id t; pure removed
switch false id user_id post_id post t = do
  add id post_id user_id t
  stage_event (
      reaction_added (record {
        post_id = post_id;
        reactor_id = user_id;
        post_author_id = post.user_id;
        reaction_type = t;
      }))
  pure added

unfoldable pub toggle_reaction :
    ℕ → ℕ → ℕ → ReactionType → Action (ToggleState × (ReactionType → Option ℕ))
unfolding switch
toggle_reaction id user_id post_id t = do
  post ← require (get_post post_id) (not_found_error post_not_found)
  existing ← gets (reactions_by_user post_id user_id)
  state ← switch (existing t) id user_id post_id post t
  counts ← gets (aggregate_for_post post_id)
  pure (state, counts)

-- The author of the comment that a reply answers.
unfoldable parent_author : ℕ → Option ℕ → Action (Option ℕ)
parent_author post_id none = pure none
parent_author post_id (some parent_id) = do
  parent ← require (get_comment parent_id) (not_found_error comment_not_found)
  raise_if (not (parent.post_id == post_id)) (not_found_error comment_not_found)
  raise_if (is_some parent.parent_id) (conflict_error comment_depth_exceeded)
  pure (some parent.user_id)

unfoldable pub add_comment : ℕ → ℕ → ℕ → ℕ → Option ℕ → String → Action Comment
unfolding parent_author Comments.create
add_comment id now user_id post_id parent_id content = do
  raise_if (str_eq content "") (conflict_error content_empty)
  raise_if (ltb 1000 (count content)) (conflict_error content_too_long)
  post ← require (get_post post_id) (not_found_error post_not_found)
  parent_author_id ← parent_author post_id parent_id
  comment ← Comments.create id now user_id post_id parent_id content
  stage_event (
      comment_added (record {
        comment_id = id;
        post_id = post_id;
        commenter_id = user_id;
        post_author_id = post.user_id;
        parent_author_id = parent_author_id;
      }))
  pure comment

-- rows[-1].created_at
abbrev last_commented : List Comment → Option ℕ
last_commented [] = none
last_commented (c ∷ []) = some c.created_at
last_commented (c ∷ c' ∷ cs) = last_commented (c' ∷ cs)

abbrev comment_page : ℕ → List Comment → List Comment × Option ℕ
comment_page clamped rows = (rows, if length rows == clamped then last_commented rows else none)

unfoldable pub list_comments : ℕ → Option ℕ → ℕ → Action (List Comment × Option ℕ)
unfolding list_by_post
list_comments post_id cursor limit =
    let clamped = max 1 (min limit 100) in
    gets (λ db. comment_page clamped (list_by_post post_id cursor clamped db))

unfoldable pub delete_comment : ℕ → ℕ → ℕ → Action (Unit {0})
unfolding Comments.soft_delete
delete_comment now user_id comment_id = do
  comment ← require (get_comment comment_id) (not_found_error comment_not_found)
  raise_if (not (comment.user_id == user_id)) (not_found_error comment_not_found)
  Comments.soft_delete comment_id now
