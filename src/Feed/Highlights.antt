-- ===== src/Feed/Highlights.antt =====
-- backend/app/domains/feed/repository.py: HighlightRepository, the statements on post_highlights, and
-- FeedEventRepository.find_highlight_share. The titles and covers that the joins with the books add are left
-- out.
pub mod Service
pub mod Sharing
pub mod Reach
pub mod Visibility
pub mod Grouping
use text.Mathlib.Text.{◌==◌ as str_eq}
use book_club.Prelude.{
  ℕ, Bool, true, false, Option, none, some, String, List, [], ◌∷◌, ◌++◌, not, ◌&&◌, ◌||◌, ◌==◌, ltb,
  leb, is_some, select, first, count_where, update_where, delete_where, sort_by, take, drop,
  if◌then◌else◌,
}
use book_club.Core.Database.{Database}
use book_club.Core.Session.{Action, pure, modify, ◌>>=◌, ◌>>◌}
use book_club.Book.Models.{UserBook}
use book_club.Book.Repository.{find_user_book}
use book_club.Feed.Models.{
  PostHighlight, FeedEvent, FeedEventKind, chapter_milestone, streak_milestone, book_completed,
  club_joined, highlight_shared, session_opened, agenda_published, discussion_commented,
}

abbrev pub new_highlight : ℕ → ℕ → ℕ → ℕ → String → Option ℕ → Option String → PostHighlight
new_highlight id now user_id user_book_id quote_text page_number note_text = record {
  id = id;
  user_id = user_id;
  user_book_id = user_book_id;
  quote_text = quote_text;
  page_number = page_number;
  note_text = note_text;
  visibility = "private";
  shared_at = none;
  deleted_at = none;
  created_at = now;
}

unfoldable pub create : ℕ → ℕ → ℕ → ℕ → String → Option ℕ → Option String → Action PostHighlight
create id now user_id user_book_id quote_text page_number note_text =
    let row = new_highlight id now user_id user_book_id quote_text page_number note_text in
    do modify (λ db. record db { post_highlights = db.post_highlights ++ row ∷ [] }); pure row

abbrev pub has_highlight_id : ℕ → PostHighlight → Bool
has_highlight_id highlight_id h = h.id == highlight_id

abbrev pub get_highlight : ℕ → Database → Option PostHighlight
get_highlight highlight_id db = first (has_highlight_id highlight_id) db.post_highlights

abbrev saved_before : Option ℕ → PostHighlight → Bool
saved_before none h = true
saved_before (some cursor) h = ltb h.created_at cursor

-- ORDER BY created_at DESC
abbrev newer_highlight : PostHighlight → PostHighlight → Bool
newer_highlight a b = leb b.created_at a.created_at

unfoldable pub list_by_user_book : ℕ → ℕ → Option ℕ → ℕ → Database → List PostHighlight
list_by_user_book user_book_id user_id cursor limit db = take limit (
    sort_by newer_highlight (
      select (λ h. saved_before cursor h && h.user_book_id == user_book_id && h.user_id == user_id)
        db.post_highlights))

unfoldable pub delete : ℕ → Action (Unit {0})
delete highlight_id = modify (λ db. record db {
  post_highlights = delete_where (has_highlight_id highlight_id) db.post_highlights;
})

abbrev pub highlight_changed : ℕ → (PostHighlight → PostHighlight) → Database → Database
highlight_changed highlight_id f db = record db {
  post_highlights = update_where (has_highlight_id highlight_id) f db.post_highlights;
}

abbrev pub with_visibility : String → PostHighlight → PostHighlight
with_visibility visibility h = record h { visibility = visibility }

unfoldable pub set_visibility : ℕ → String → Action (Unit {0})
set_visibility highlight_id visibility =
    modify (highlight_changed highlight_id (with_visibility visibility))

abbrev pub shared : ℕ → PostHighlight → PostHighlight
shared now h = record h { shared_at = some now; visibility = "public" }

unfoldable pub mark_shared : ℕ → ℕ → Action (Unit {0})
mark_shared highlight_id shared_at = modify (highlight_changed highlight_id (shared shared_at))

-- A highlight with the book of its user_books row.
abbrev pub HighlightWithBookId : Type 0
HighlightWithBookId = PostHighlight × ℕ

-- The join with user_books, whose key is the id.
abbrev joined : Database → List PostHighlight → List HighlightWithBookId
joined db [] = []
joined db (h ∷ hs) =
    let rest = joined db hs in
    elim (find_user_book h.user_book_id db) [ none ↦ rest | some ub ↦ (h, ub.book_id) ∷ rest ]

-- ORDER BY book_id, created_at DESC
abbrev by_book : HighlightWithBookId → HighlightWithBookId → Bool
by_book (h, b) (h', b') = ltb b b' || b == b' && leb h'.created_at h.created_at

abbrev pub of_user : ℕ → PostHighlight → Bool
of_user user_id h = h.user_id == user_id

unfoldable pub list_all_for_user : ℕ → Database → List HighlightWithBookId
list_all_for_user user_id db =
    sort_by by_book (joined db (select (of_user user_id) db.post_highlights))

abbrev pub is_kept : ℕ → PostHighlight → Bool
is_kept user_id h = h.user_id == user_id && not (is_some h.deleted_at)

-- The join with books is by the foreign key of user_books, and drops no row.
unfoldable pub list_recent_for_user : ℕ → ℕ → ℕ → Database → List HighlightWithBookId
list_recent_for_user user_id limit offset db = take limit (
    drop offset (joined db (sort_by newer_highlight (select (is_kept user_id) db.post_highlights))))

unfoldable pub count_by_user : ℕ → Database → ℕ
count_by_user user_id db = count_where (is_kept user_id) db.post_highlights

-- event_type = 'highlight_shared' AND metadata->>'highlight_id' = highlight_id
abbrev pub shares : ℕ → FeedEventKind → Bool
shares highlight_id (chapter_milestone b n) = false
shares highlight_id (streak_milestone n) = false
shares highlight_id (book_completed b) = false
shares highlight_id (club_joined c) = false
shares highlight_id (highlight_shared h ub quote) = h == highlight_id
shares highlight_id (session_opened c x b) = false
shares highlight_id (agenda_published c x a) = false
shares highlight_id (discussion_commented c x a t m p) = false

abbrev pub is_share : ℕ → FeedEvent → Bool
is_share highlight_id e = shares highlight_id e.kind

-- The earliest one, which is the first inserted.
abbrev pub find_highlight_share : ℕ → Database → Option FeedEvent
find_highlight_share highlight_id db = first (is_share highlight_id) db.feed_events
