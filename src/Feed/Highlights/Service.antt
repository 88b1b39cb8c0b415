-- ===== src/Feed/Highlights/Service.antt =====
-- backend/app/domains/feed/service.py: FeedService on highlights, and record_chapter_milestone. A cursor is
-- the instant that `_parse_iso_cursor` makes of the text. `get_book_snapshot`, the title and cover that the
-- book port knows of a book, is a parameter.
use text.Mathlib.Text.{◌==◌ as str_eq}
use Prim.Native.String.{count}
use book_club.Prelude.{
  ℕ, ◌+◌, ◌%◌, Bool, Option, none, some, String, List, [], ◌∷◌, ◌++◌, map, not, ◌||◌, ◌==◌, ltb,
  min, max, length, is_some, if◌then◌else◌,
}
use book_club.Core.Exceptions.{
  quote_empty, quote_too_long, unsupported_visibility, highlight_not_found, not_found_error,
  conflict_error,
}
use book_club.Core.Session.{Action, pure, gets, require, raise_if, when, ◌>>=◌, ◌>>◌}
use book_club.Feed.Models.{PostHighlight, FeedEvent, chapter_milestone, highlight_shared}
use book_club.Feed.Repository.{create_event}
use book_club.Feed.Highlights.{
  create, get_highlight, list_by_user_book, delete, set_visibility, with_visibility, mark_shared,
  HighlightWithBookId, list_all_for_user, list_recent_for_user, count_by_user, find_highlight_share,
}

unfoldable pub create_highlight :
    ℕ → ℕ → ℕ → ℕ → String → Option ℕ → Option String → Action PostHighlight
unfolding create
create_highlight id now user_id user_book_id quote_text page_number note_text = do
  raise_if (str_eq quote_text "") (conflict_error quote_empty)
  raise_if (ltb 500 (count quote_text)) (conflict_error quote_too_long)
  create id now user_id user_book_id quote_text page_number note_text

-- rows[-1].created_at
abbrev last_saved : List PostHighlight → Option ℕ
last_saved [] = none
last_saved (h ∷ []) = some h.created_at
last_saved (h ∷ h' ∷ hs) = last_saved (h' ∷ hs)

abbrev highlight_page : ℕ → List PostHighlight → List PostHighlight × Option ℕ
highlight_page clamped rows = (rows, if length rows == clamped then last_saved rows else none)

unfoldable list_highlights : ℕ → ℕ → Option ℕ → ℕ → Action (List PostHighlight × Option ℕ)
unfolding list_by_user_book
list_highlights user_id user_book_id cursor limit =
    let clamped = max 1 (min limit 50) in
    gets (λ db. highlight_page clamped (list_by_user_book user_book_id user_id cursor clamped db))

-- The caller's highlight; another's id is answered as a missing one.
unfoldable own_highlight : ℕ → ℕ → Action PostHighlight
own_highlight user_id highlight_id = do
  row ← require (get_highlight highlight_id) (not_found_error highlight_not_found)
  raise_if (not (row.user_id == user_id)) (not_found_error highlight_not_found)
  pure row

unfoldable pub delete_highlight : ℕ → ℕ → Action (Unit {0})
unfolding own_highlight delete
delete_highlight user_id highlight_id = do own_highlight user_id highlight_id; delete highlight_id

-- _HIGHLIGHT_VISIBILITIES
abbrev pub is_visibility : String → Bool
is_visibility v = str_eq v "private" || str_eq v "followers" || str_eq v "public"

unfoldable pub update_highlight_visibility : ℕ → ℕ → String → Action PostHighlight
unfolding own_highlight set_visibility
update_highlight_visibility user_id highlight_id visibility = do
  raise_if (not (is_visibility visibility)) (conflict_error unsupported_visibility)
  row ← own_highlight user_id highlight_id
  set_visibility highlight_id visibility
  pure (with_visibility visibility row)

-- The event of the share of a highlight.
abbrev pub share_event : ℕ → ℕ → PostHighlight → FeedEvent
share_event user_id highlight_id row = record {
  user_id = user_id;
  kind = highlight_shared highlight_id row.user_book_id row.quote_text;
}

-- What is left to do where no event was found.
unfoldable share : ℕ → ℕ → ℕ → PostHighlight → Option FeedEvent → Action FeedEvent
unfolding mark_shared create_event
share now user_id highlight_id row (some existing) = pure existing
share now user_id highlight_id row none = do
  mark_shared highlight_id now
  create_event user_id (highlight_shared highlight_id row.user_book_id row.quote_text)
  pure (share_event user_id highlight_id row)

unfoldable pub share_highlight_to_feed : ℕ → ℕ → ℕ → Action FeedEvent
unfolding own_highlight share
share_highlight_to_feed now user_id highlight_id = do
  row ← own_highlight user_id highlight_id
  existing ←
      gets (λ db. if is_some row.shared_at then find_highlight_share highlight_id db else none)
  share now user_id highlight_id row existing

unfoldable record_chapter_milestone : ℕ → ℕ → ℕ → Action (Unit {0})
unfolding create_event
record_chapter_milestone user_id book_id chapter =
    when (chapter % 5 == 0) (create_event user_id (chapter_milestone book_id chapter))

pub record BookHighlightGroup (Snapshot : Type 0) : Type 0 where
  pub user_book_id : ℕ
  pub book_id : ℕ
  pub snapshot : Option Snapshot
  pub highlights : List PostHighlight

-- The dicts `groups` and `book_ids`, in the order in which their keys were first seen.
abbrev pub Groups : Type 0
Groups = List (ℕ × ℕ × List PostHighlight)

-- groups.setdefault(ub_id, []).append(…); book_ids[ub_id] = item.book_id
abbrev pub add_item : HighlightWithBookId → Groups → Groups
add_item (h, b) [] = (h.user_book_id, b, h ∷ []) ∷ []
add_item (h, b) ((k, b', hs) ∷ groups) =
    let rest = add_item (h, b) groups in
    if k == h.user_book_id then (k, b, hs ++ h ∷ []) ∷ groups else (k, b', hs) ∷ rest

abbrev pub add_items : List HighlightWithBookId → Groups → Groups
add_items [] groups = groups
add_items (x ∷ items) groups = add_items items (add_item x groups)

abbrev pub group_of :
    {Snapshot : Type 0}
    → (ℕ → Option Snapshot)
    → ℕ × ℕ × List PostHighlight
    → BookHighlightGroup Snapshot
group_of snapshot (k, b, hs) = record {
  user_book_id = k;
  book_id = b;
  snapshot = snapshot b;
  highlights = hs;
}

unfoldable pub list_all_highlights :
    {Snapshot : Type 0} → (ℕ → Option Snapshot) → ℕ → Action (List (BookHighlightGroup Snapshot))
unfolding list_all_for_user
list_all_highlights get_book_snapshot user_id =
    gets (λ db. map (group_of get_book_snapshot) (add_items (list_all_for_user user_id db) []))

pub record MyHighlightPage : Type 0 where
  pub items : List HighlightWithBookId
  pub total : ℕ
  pub has_more : Bool

unfoldable list_my_highlights : ℕ → ℕ → ℕ → Action MyHighlightPage
unfolding count_by_user list_recent_for_user
list_my_highlights user_id limit offset = do
  total ← gets (count_by_user user_id)
  items ← gets (list_recent_for_user user_id (max 1 (min limit 50)) offset)
  pure (record { items = items; total = total; has_more = ltb (offset + length items) total })
