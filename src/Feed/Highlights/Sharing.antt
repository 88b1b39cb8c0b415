-- ===== src/Feed/Highlights/Sharing.antt =====
-- A highlight is shared to the feed once.
use book_club.Prelude.{
  ℕ, ◌+◌, ◌≤◌, ◌≡◌, refl, ◌∙◌, sym, ap, ◌⊎◌, inl, inr, true, false, none, some, List, [], ◌∷◌, ◌++◌,
  arith, Bool-cases, Option-cases, ◌==◌, is_some, if◌then◌else◌, first, count_where, update_where,
  first-append, first-none, first-update, first-absent, sum_where-append, ==_refl,
}
use book_club.Core.Database.{Database}
use book_club.Core.Session.{Session, ok, is_err}
use book_club.Feed.Models.{PostHighlight, FeedEvent}
use book_club.Feed.Highlights.{
  has_highlight_id, get_highlight, shared, is_share, find_highlight_share,
}
use book_club.Feed.Highlights.Service.{share_event, share_highlight_to_feed}

-- A highlight has one event of its share at most, and none before it was shared.
pub record IsShared (db : Database) : Type 0 where
  pub once : (i : ℕ) → count_where (is_share i) db.feed_events ≤ 1
  pub unshared :
      (i : ℕ) (row : PostHighlight)
      → get_highlight i db ≡ some row
      → row.shared_at ≡ none
      → count_where (is_share i) db.feed_events ≡ 0

-- The tables after the first share of a highlight.
abbrev shared_db : ℕ → ℕ → ℕ → PostHighlight → Database → Database
shared_db now u i row db = record db {
  post_highlights = update_where (has_highlight_id i) (shared now) db.post_highlights;
  feed_events = db.feed_events ++ share_event u i row ∷ [];
}

-- The first share of a highlight.
abbrev IsFirst : ℕ → ℕ → ℕ → Session → PostHighlight → Type 0
IsFirst now u i s row =
    ((row.shared_at ≡ none) ⊎ (find_highlight_share i s.db ≡ none))
    × (share_highlight_to_feed now u i s
        ≡ (ok (share_event u i row), record s { db = shared_db now u i row s.db }))

abbrev IsRepeat : ℕ → ℕ → ℕ → Session → PostHighlight → Type 0
IsRepeat now u i s row =
    (e : FeedEvent) × (is_some row.shared_at ≡ true)
    × (find_highlight_share i s.db ≡ some e)
    × (share_highlight_to_feed now u i s ≡ (ok e, s))

abbrev IsRefused : ℕ → ℕ → ℕ → Session → Type 0
IsRefused now u i s =
    (is_err (share_highlight_to_feed now u i s).0 ≡ true)
    × ((share_highlight_to_feed now u i s).1 ≡ s)

-- A share of one's own highlight: a repeated one, or the first.
share_cases :
    (now u i : ℕ) (s : Session) (row : PostHighlight)
    → get_highlight i s.db ≡ some row
    → (row.user_id == u) ≡ true
    → IsRepeat now u i s row ⊎ IsFirst now u i s row
unfolding share_highlight_to_feed
share_cases now u i s row found own = elim (Option-cases row.shared_at) [
  | inl never ↦ inr (inl never, ground (arith, found, own, never))
  | inr (t, before) ↦ elim (Option-cases (find_highlight_share i s.db)) [
    | inl lost ↦ inr (inr lost, ground (arith, found, own, before, lost))
    | inr (e, there) ↦
        inl (e, ground (arith, before), there, ground (arith, found, own, before, there))
  ]
]

share-IsRefused : (now u i : ℕ) (s : Session) → get_highlight i s.db ≡ none → IsRefused now u i s
unfolding share_highlight_to_feed
share-IsRefused now u i s gone = ground (arith, gone)

share-IsRefused_foreign :
    (now u i : ℕ) (s : Session) (row : PostHighlight)
    → get_highlight i s.db ≡ some row
    → (row.user_id == u) ≡ false
    → IsRefused now u i s
unfolding share_highlight_to_feed
share-IsRefused_foreign now u i s row found foreign = ground (arith, found, foreign)

pub share_outcome :
    (now u i : ℕ) (s : Session)
    → IsRefused now u i s
      ⊎ ((row : PostHighlight) × (get_highlight i s.db ≡ some row)
          × ((row.user_id == u) ≡ true)
          × (IsRepeat now u i s row ⊎ IsFirst now u i s row))
share_outcome now u i s = elim (Option-cases (get_highlight i s.db)) [
  | inl gone ↦ inl (share-IsRefused now u i s gone)
  | inr (row, found) ↦ elim (Bool-cases (row.user_id == u)) [
    | inl own ↦ inr (row, found, own, share_cases now u i s row found own)
    | inr foreign ↦ inl (share-IsRefused_foreign now u i s row found foreign)
  ]
]

pub no_share :
    (i : ℕ) (db : Database) (row : PostHighlight)
    → IsShared db
    → get_highlight i db ≡ some row
    → (row.shared_at ≡ none) ⊎ (find_highlight_share i db ≡ none)
    → count_where (is_share i) db.feed_events ≡ 0
no_share i db row h found (inl never) = h.unshared i row found never
no_share i db row h found (inr lost) = first-none (is_share i) db.feed_events lost

shares-snoc :
    (u i j : ℕ) (row : PostHighlight) (es : List FeedEvent)
    → count_where (is_share j) (es ++ share_event u i row ∷ [])
      ≡ count_where (is_share j) es + (if i == j then 1 else 0)
shares-snoc u i j row es =
    ground (arith, sum_where-append (is_share j) (λ e. 1) es (share_event u i row ∷ []))

-- A search after the share finds the shared row under its id, and any other row as before.
get_highlight-shared :
    (now i j : ℕ) (r : PostHighlight) (hs : List PostHighlight)
    → first (has_highlight_id j) (update_where (has_highlight_id i) (shared now) hs) ≡ some r
    → r.shared_at ≡ none
    → (first (has_highlight_id j) hs ≡ some r) × ((i == j) ≡ false)
get_highlight-shared now i j r [] e never = cc
get_highlight-shared now i j r (h ∷ hs) e never =
    ground (arith, e, never, get_highlight-shared now i j r hs)

pub shared_db-IsShared :
    (now u i : ℕ) (row : PostHighlight) (db : Database)
    → IsShared db
    → count_where (is_share i) db.feed_events ≡ 0
    → IsShared (shared_db now u i row db)
shared_db-IsShared now u i row db h absent = record {
  once = λ j. ground (arith, shares-snoc u i j row db.feed_events, h.once j, absent, same_key i j);
  unshared = λ j r at_j never.
      let (at, apart) = get_highlight-shared now i j r db.post_highlights at_j never in
      ground (arith, shares-snoc u i j row db.feed_events, h.unshared j r at never, apart);
}
  where
    same_key :
        (i j : ℕ)
        → (i == j) ≡ true
        → count_where (is_share i) db.feed_events ≡ count_where (is_share j) db.feed_events
    same_key i j same = let e : i ≡ j = ground arith in rw e refl

share_repeated :
    (now u i : ℕ) (s : Session) (row : PostHighlight) (e : FeedEvent)
    → get_highlight i s.db ≡ some row
    → (row.user_id == u) ≡ true
    → is_some row.shared_at ≡ true
    → find_highlight_share i s.db ≡ some e
    → share_highlight_to_feed now u i s ≡ (ok e, s)
unfolding share_highlight_to_feed
share_repeated now u i s row e found own before there = ground (arith, found, own, before, there)

share_again :
    (now now' u i : ℕ) (s : Session) (row : PostHighlight)
    → get_highlight i s.db ≡ some row
    → (row.user_id == u) ≡ true
    → count_where (is_share i) s.db.feed_events ≡ 0
    → let s' = record s { db = shared_db now u i row s.db } in
      share_highlight_to_feed now' u i s' ≡ (ok (share_event u i row), s')
share_again now now' u i s row found own absent =
    share_repeated now' u i (record s { db = shared_db now u i row s.db }) (shared now row)
      (share_event u i row)
      (first-update (has_highlight_id i) (shared now) s.db.post_highlights row (λ y. refl) found)
      own refl
      (first-append (is_share i) s.db.feed_events (share_event u i row)
        (first-absent (is_share i) s.db.feed_events absent) (==_refl i))

-- Where a highlight has one event of its share at most, and none before it was shared, a share that
-- returned can be repeated at any time: the second call answers with the same event and changes nothing.
pub share_highlight_to_feed-again :
    (now now' u i : ℕ) (s s' : Session) (e : FeedEvent)
    → IsShared s.db
    → share_highlight_to_feed now u i s ≡ (ok e, s')
    → share_highlight_to_feed now' u i s' ≡ (ok e, s')
share_highlight_to_feed-again now now' u i s s' e h done = elim (share_outcome now u i s) [
  | inl (refused, same) ↦ ground (arith, refused, done)
  | inr (row, found, own, inl (e', before, there, now_done)) ↦
      let same : s' ≡ s = ground (arith, done, now_done) in
      let same_event : e ≡ e' = ground (arith, done, now_done) in
      rw (same, same_event) (share_repeated now' u i s row e' found own before there)
  | inr (row, found, own, inr (reason, now_done)) ↦
      let absent = no_share i s.db row h found reason in
      let same : s' ≡ record s { db = shared_db now u i row s.db } =
        ap (λ r. r.1) (sym done ∙ now_done) in
      let same_event : e ≡ share_event u i row = ground (arith, done, now_done) in
      rw (same, same_event) (share_again now now' u i s row found own absent)
]
