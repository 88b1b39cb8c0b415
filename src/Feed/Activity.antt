-- ===== src/Feed/Activity.antt =====
-- backend/app/domains/feed/repository.py: FeedEventReactionRepository and FeedCommentRepository, the
-- reactions to the events of the activity stream and the comments on them.
pub mod Service
pub mod Reach
use text.Mathlib.Text.{◌==◌ as str_eq}
use book_club.Prelude.{
  ℕ, Bool, true, false, Option, none, some, String, List, [], ◌∷◌, ◌++◌, not, ◌&&◌, ◌==◌, leb,
  is_some, select, first, delete_where, sort_by, get_elem?, if◌then◌else◌,
}
use book_club.Core.Exceptions.{runtime_error}
use book_club.Core.Database.{Database}
use book_club.Core.Threads.{cascade}
use book_club.Core.Session.{Action, pure, gets, modify, require, ◌>>=◌, ◌>>◌}
use book_club.Feed.Models.{FeedEvent, FeedEventReaction, FeedComment}

-- The id of an event is its place in the table, which only grows.
abbrev pub get_event : ℕ → Database → Option FeedEvent
get_event event_id db = get_elem? db.feed_events event_id

abbrev pub is_event_reaction : ℕ → ℕ → String → FeedEventReaction → Bool
is_event_reaction event_id user_id emoji r =
    r.feed_event_id == event_id && r.user_id == user_id && str_eq r.emoji emoji

abbrev pub find_event_reaction : ℕ → ℕ → String → Database → Option FeedEventReaction
find_event_reaction event_id user_id emoji db =
    first (is_event_reaction event_id user_id emoji) db.feed_event_reactions

abbrev pub has_reacted : ℕ → ℕ → String → Database → Bool
has_reacted event_id user_id emoji db = is_some (find_event_reaction event_id user_id emoji db)

-- INSERT … ON CONFLICT DO NOTHING
abbrev inserted : FeedEventReaction → Database → Database
inserted row db = record db {
  feed_event_reactions =
      if has_reacted row.feed_event_id row.user_id row.emoji db
      then db.feed_event_reactions
      else db.feed_event_reactions ++ row ∷ [];
}

unfoldable pub add : ℕ → ℕ → ℕ → String → Action FeedEventReaction
add id event_id user_id emoji = do
  modify (inserted (record { id = id; feed_event_id = event_id; user_id = user_id; emoji = emoji }))
  require (find_event_reaction event_id user_id emoji) runtime_error

-- if existing is None: return False
abbrev delete_existing : Option FeedEventReaction → Action Bool
delete_existing none = pure false
delete_existing (some existing) = do
  modify (λ db. record db {
    feed_event_reactions = delete_where (λ r. r.id == existing.id) db.feed_event_reactions;
  })
  pure true

unfoldable pub remove : ℕ → ℕ → String → Action Bool
remove event_id user_id emoji = do
  existing ← gets (find_event_reaction event_id user_id emoji)
  delete_existing existing

unfoldable pub get_for_event : ℕ → Database → List FeedEventReaction
get_for_event event_id db = select (λ r. r.feed_event_id == event_id) db.feed_event_reactions

abbrev pub new_feed_comment : ℕ → ℕ → ℕ → ℕ → Option ℕ → String → FeedComment
new_feed_comment id now event_id user_id parent_id body = record {
  id = id;
  feed_event_id = event_id;
  user_id = user_id;
  parent_id = parent_id;
  body = body;
  created_at = now;
}

unfoldable pub create : ℕ → ℕ → ℕ → ℕ → Option ℕ → String → Action FeedComment
create id now event_id user_id parent_id body =
    let row = new_feed_comment id now event_id user_id parent_id body in
    do modify (λ db. record db { feed_comments = db.feed_comments ++ row ∷ [] }); pure row

abbrev pub has_feed_comment_id : ℕ → FeedComment → Bool
has_feed_comment_id comment_id c = c.id == comment_id

abbrev pub get_feed_comment : ℕ → Database → Option FeedComment
get_feed_comment comment_id db = first (has_feed_comment_id comment_id) db.feed_comments

-- ORDER BY created_at
abbrev older_comment : FeedComment → FeedComment → Bool
older_comment a b = leb a.created_at b.created_at

unfoldable pub list_for_event : ℕ → Database → List FeedComment
list_for_event event_id db =
    sort_by older_comment (select (λ c. c.feed_event_id == event_id) db.feed_comments)

-- The foreign key of the parent cascades.
unfoldable pub without_comment : ℕ → List FeedComment → List FeedComment
unfolding cascade
without_comment comment_id cs =
    cascade (λ c. c.id) (λ c. c.parent_id) (has_feed_comment_id comment_id) [] cs

-- if row is None or row.user_id != user_id: return False
abbrev delete_own : ℕ → ℕ → Option FeedComment → Action Bool
delete_own comment_id user_id none s = pure false s
delete_own comment_id user_id (some row) s = elim (row.user_id == user_id) [
  | false ↦ pure false s
  | true ↦
      (do
        modify (λ db. record db { feed_comments = without_comment comment_id db.feed_comments })
        pure true)
        s
]

unfoldable pub delete : ℕ → ℕ → Action Bool
unfolding without_comment
delete comment_id user_id = do
  row ← gets (get_feed_comment comment_id)
  delete_own comment_id user_id row
