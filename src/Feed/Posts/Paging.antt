-- ===== src/Feed/Posts/Paging.antt =====
-- A reader who follows the cursors of a book's feed reads all of it.
use book_club.Prelude.{
  ℕ, ◌≤◌, ◌<◌, ◌≡◌, refl, ◌∙◌, sym, ap, ◌&&◌, Option, none, some, String, List, [], ◌∷◌, map, arith,
  min, max, length, select, take, sort_by, insert_by, All, ◌≢◌, Bool-cases, inl, inr,
}
use book_club.Core.Database.{Database}
use book_club.Core.Pages.{
  AtDistinctTimes, newer, sort_by-All, sort_by-IsStrict, before, last_of, select-sort_by,
}
use book_club.Core.Cursors.{part, cursor_of, follow, follow-all}
use book_club.Core.Session.{Session, Result, ok, err}
use book_club.Feed.Models.{Post}
use book_club.Feed.Posts.{posted_before, is_listed, newer_post, timeline}
use book_club.Feed.Service.{PostFeedItem, item, last_posted, list_posts_by_book}

abbrev pub posted : Post → ℕ
posted p = p.created_at

select-listed :
    (b k : ℕ) (ps : List Post)
    → select (λ p. posted_before (some k) p && is_listed b p) ps
      ≡ select (before posted k) (select (λ p. posted_before none p && is_listed b p) ps)
select-listed b k [] = refl
select-listed b k (p ∷ ps) = ground (arith, select-listed b k ps)

-- Where no two posts were made at the same time, their ids do not matter to the order.
insert_by-newer :
    (p : Post) (ps : List Post)
    → All (λ q. posted q ≢ posted p) ps
    → insert_by newer_post p ps ≡ insert_by (newer posted) p ps
insert_by-newer p [] h = refl
insert_by-newer p (q ∷ ps) (apart, h) = ground (arith, apart, insert_by-newer p ps h)

sort_by-newer :
    (ps : List Post) → AtDistinctTimes posted ps → sort_by newer_post ps ≡ sort_by (newer posted) ps
sort_by-newer [] h = refl
sort_by-newer (p ∷ ps) (apart, h) = rw (sort_by-newer ps h) (
    insert_by-newer p (sort_by (newer posted) ps)
      (sort_by-All posted (λ q. posted q ≢ posted p) ps apart))

select-All :
    (P : Post → Type 0) (k : ℕ) (ps : List Post) → All P ps → All P (select (before posted k) ps)
select-All P k [] h = tt
select-All P k (p ∷ ps) (now, h) = elim (Bool-cases (before posted k p)) [
  | inl kept ↦ rw kept (now, select-All P k ps h)
  | inr dropped ↦ rw dropped (select-All P k ps h)
]

select-AtDistinctTimes :
    (k : ℕ) (ps : List Post)
    → AtDistinctTimes posted ps
    → AtDistinctTimes posted (select (before posted k) ps)
select-AtDistinctTimes k [] h = tt
select-AtDistinctTimes k (p ∷ ps) (apart, h) = elim (Bool-cases (before posted k p)) [
  | inl kept ↦ rw kept (select-All _ k ps apart, select-AtDistinctTimes k ps h)
  | inr dropped ↦ rw dropped (select-AtDistinctTimes k ps h)
]

-- The posts of a book, of which no two were made at the same time.
abbrev AreApart : ℕ → Database → Type 0
AreApart b db =
    AtDistinctTimes posted (select (λ p. posted_before none p && is_listed b p) db.posts)

timeline-part :
    (b : ℕ) (cursor : Option ℕ) (public_url : String → String) (viewer : ℕ) (db : Database)
    → AreApart b db
    → timeline b cursor db ≡ part posted (item public_url viewer db) cursor (timeline b none db)
timeline-part b none public_url viewer db apart = refl
timeline-part b (some k) public_url viewer db apart =
    ap (sort_by newer_post) (select-listed b k db.posts)
    ∙ sort_by-newer _ (select-AtDistinctTimes k _ apart)
    ∙ sym (select-sort_by posted k _)
    ∙ ap (select (before posted k)) (sym (sort_by-newer _ apart))

last_posted-last_of : (ps : List Post) → last_posted ps ≡ last_of posted ps
last_posted-last_of [] = refl
last_posted-last_of (p ∷ []) = refl
last_posted-last_of (p ∷ p' ∷ ps) = last_posted-last_of (p' ∷ ps)

-- The answer of a call; the call of this list never raises.
abbrev pub page_of : Result (List PostFeedItem × Option ℕ) → List PostFeedItem × Option ℕ
page_of (ok page) = page
page_of (err e) = ([], none)

-- The pages of a book's feed from a cursor on, if as many calls as the fuel lead to one without a cursor.
abbrev pub read_feed :
    (String → String) → ℕ → ℕ → ℕ → Session → ℕ → Option ℕ → Option (List PostFeedItem)
read_feed public_url b viewer limit s fuel cursor =
    follow posted (item public_url viewer s.db) fuel
      (λ k. page_of (list_posts_by_book public_url b viewer k limit s).0) cursor

clamped_pos : (limit : ℕ) → 1 ≤ max 1 (min limit 50)
clamped_pos limit = ground arith

page_served :
    (public_url : String → String) (b viewer limit : ℕ) (s : Session) (cursor : Option ℕ)
    → AreApart b s.db
    → let f = item public_url viewer s.db in
      let rows = take (max 1 (min limit 50)) (part posted f cursor (timeline b none s.db)) in
      page_of (list_posts_by_book public_url b viewer cursor limit s).0
      ≡ (map f rows, cursor_of posted f (max 1 (min limit 50)) rows)
unfolding list_posts_by_book
page_served public_url b viewer limit s cursor apart =
    rw (timeline-part b cursor public_url viewer s.db apart, last_posted-last_of) refl

-- Where the posts of a book that are not deleted were made at distinct times, a reader who follows the
-- cursors reads the whole feed of the book, newest first, whatever size of page is asked for: at most one
-- call more than there are posts leads to a page without a cursor.
pub read_feed-timeline :
    (public_url : String → String) (fuel b viewer limit : ℕ) (s : Session)
    → AtDistinctTimes posted (select (λ p. posted_before none p && is_listed b p) s.db.posts)
    → length (timeline b none s.db) < fuel
    → read_feed public_url b viewer limit s fuel none
      ≡ some (map (item public_url viewer s.db) (timeline b none s.db))
read_feed-timeline public_url fuel b viewer limit s apart enough =
    follow-all posted (item public_url viewer s.db) _ (timeline b none s.db) (max 1 (min limit 50))
      (clamped_pos limit) (rw (sort_by-newer _ apart) (sort_by-IsStrict posted _ apart))
      (λ k. page_served public_url b viewer limit s k apart) fuel none enough
