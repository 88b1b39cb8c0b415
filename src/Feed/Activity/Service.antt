-- ===== src/Feed/Activity/Service.antt =====
-- backend/app/domains/feed/service.py: FeedService on the events of the activity stream, with all the
-- repositories wired. The user whom a call notifies over the push port is part of its result.
use text.Mathlib.Text.{◌==◌ as str_eq}
use Prim.Native.String.{count}
use book_club.Prelude.{
  ℕ, Bool, true, false, Option, none, some, String, List, not, ◌||◌, ◌==◌, ltb, is_some,
  if◌then◌else◌,
}
use book_club.Core.Exceptions.{
  unsupported_emoji, feed_event_not_found, body_empty, body_too_long, comment_not_found,
  comment_depth_exceeded, not_found_error, conflict_error,
}
use book_club.Core.Session.{Action, pure, gets, require, raise_if, ◌>>=◌, ◌>>◌}
use book_club.Feed.Models.{FeedEventReaction, FeedComment}
use book_club.Feed.Service.{ToggleState, added, removed}
use book_club.Feed.Activity.{
  get_event, has_reacted, add, remove, get_for_event, create, get_feed_comment, list_for_event,
  delete,
}

-- _ALLOWED_FEED_EMOJIS
abbrev pub is_allowed : String → Bool
is_allowed e = str_eq e "❤\u{fe0f}" || str_eq e "🔥" || str_eq e "👏" || str_eq e "📚" || str_eq e "💪"

-- The author of the event, unless it is the caller.
abbrev pub pushed : ℕ → ℕ → Option ℕ
pushed user_id author_id = if user_id == author_id then none else some author_id

-- The two branches of a toggle.
unfoldable switch : Bool → ℕ → ℕ → ℕ → ℕ → String → Action (ToggleState × Option ℕ)
unfolding add remove
switch true id event_id author_id user_id emoji = do
  remove event_id user_id emoji
  pure (removed, none)
switch false id event_id author_id user_id emoji = do
  add id event_id user_id emoji
  pure (added, pushed user_id author_id)

unfoldable pub toggle_feed_reaction :
    ℕ → ℕ → ℕ → String → Action (ToggleState × List FeedEventReaction × Option ℕ)
unfolding switch get_for_event
toggle_feed_reaction id event_id user_id emoji = do
  raise_if (not (is_allowed emoji)) (conflict_error unsupported_emoji)
  event ← require (get_event event_id) (not_found_error feed_event_not_found)
  already ← gets (has_reacted event_id user_id emoji)
  outcome ← switch already id event_id event.user_id user_id emoji
  reactions ← gets (get_for_event event_id)
  pure (outcome.0, reactions, outcome.1)

-- The checks of the comment that a reply answers.
unfoldable check_parent : ℕ → Option ℕ → Action (Unit {0})
check_parent event_id none = pure tt
check_parent event_id (some parent_id) = do
  parent ← require (get_feed_comment parent_id) (not_found_error comment_not_found)
  raise_if (not (parent.feed_event_id == event_id)) (not_found_error comment_not_found)
  raise_if (is_some parent.parent_id) (conflict_error comment_depth_exceeded)

unfoldable pub add_feed_comment :
    ℕ → ℕ → ℕ → ℕ → Option ℕ → String → Action (FeedComment × Option ℕ)
unfolding check_parent create
add_feed_comment id now event_id user_id parent_id body = do
  raise_if (str_eq body "") (conflict_error body_empty)
  raise_if (ltb 500 (count body)) (conflict_error body_too_long)
  event ← require (get_event event_id) (not_found_error feed_event_not_found)
  check_parent event_id parent_id
  comment ← create id now event_id user_id parent_id body
  pure (comment, pushed user_id event.user_id)

unfoldable get_feed_comments : ℕ → Action (List FeedComment)
unfolding list_for_event
get_feed_comments event_id = gets (list_for_event event_id)

unfoldable pub delete_feed_comment : ℕ → ℕ → Action (Unit {0})
unfolding delete
delete_feed_comment comment_id user_id = do
  deleted ← delete comment_id user_id
  raise_if (not deleted) (not_found_error comment_not_found)
