-- ===== src/Feed/Highlights/Reach.antt =====
-- The requests on highlights, as steps of the process in any order.
use book_club.Prelude.{
  ℕ, ◌≡◌, refl, ◌∙◌, sym, ◌⊎◌, inl, inr, true, Option, none, some, String, List, [], ◌∷◌, ◌++◌,
  arith, Bool-cases, Option-cases, ◌==◌, first, update_where, delete_where, first-delete,
  first-delete_other, first-updated, first-none, first-append_other, count_where,
}
use book_club.Core.Database.{Database}
use book_club.Core.Session.{Session, World, run_request}
use book_club.Core.Session.Atomic.{run_request-keeps, fresh}
use book_club.Feed.Models.{PostHighlight}
use book_club.Feed.Highlights.{
  new_highlight, has_highlight_id, get_highlight, with_visibility, is_share, find_highlight_share,
}
use book_club.Feed.Highlights.Service.{
  create_highlight, delete_highlight, is_visibility, update_highlight_visibility,
  share_highlight_to_feed,
}
use book_club.Feed.Highlights.Sharing.{IsShared, share_outcome, shared_db-IsShared, no_share}

-- The id of a new highlight is drawn fresh: no highlight has it and no event names it.
pub data Step : World → World → Type 0 where
  creates :
      (w : World) (id now u ub : ℕ) (quote : String) (page : Option ℕ) (remark : Option String)
      → get_highlight id w.db ≡ none
      → find_highlight_share id w.db ≡ none
      → Step w (run_request (create_highlight id now u ub quote page remark) w).1
  deletes : (w : World) (u i : ℕ) → Step w (run_request (delete_highlight u i) w).1
  shows :
      (w : World) (u i : ℕ) (visibility : String)
      → Step w (run_request (update_highlight_visibility u i visibility) w).1
  shares : (w : World) (now u i : ℕ) → Step w (run_request (share_highlight_to_feed now u i) w).1

pub data Reach (w : World) : World → Type 0 where
  here : Reach w w
  next : {v u : World} → Reach w v → Step v u → Reach w u

pub create_highlight_outcome :
    (id now u ub : ℕ) (quote : String) (page : Option ℕ) (remark : Option String) (s : Session)
    → let after = (create_highlight id now u ub quote page remark s).1.db in
      (after.feed_events ≡ s.db.feed_events)
      × ((after.post_highlights ≡ s.db.post_highlights)
          ⊎ (after.post_highlights
              ≡ s.db.post_highlights ++ new_highlight id now u ub quote page remark ∷ []))
unfolding create_highlight
create_highlight_outcome id now u ub quote page remark s = ground arith

pub delete_highlight_outcome :
    (u i : ℕ) (s : Session)
    → let after = (delete_highlight u i s).1.db in
      (after.feed_events ≡ s.db.feed_events)
      × ((after.post_highlights ≡ s.db.post_highlights)
          ⊎ (after.post_highlights ≡ delete_where (has_highlight_id i) s.db.post_highlights))
unfolding delete_highlight
delete_highlight_outcome u i s = ground arith

pub update_highlight_visibility_outcome :
    (u i : ℕ) (v : String) (s : Session)
    → let after = (update_highlight_visibility u i v s).1.db in
      (after.feed_events ≡ s.db.feed_events)
      × ((after.post_highlights ≡ s.db.post_highlights)
          ⊎ ((is_visibility v ≡ true)
              × (after.post_highlights
                  ≡ update_where (has_highlight_id i) (with_visibility v) s.db.post_highlights)))
unfolding update_highlight_visibility
update_highlight_visibility_outcome u i v s = ground arith

-- What the rows after a change show of the rows before it.
abbrev Shows : List PostHighlight → List PostHighlight → Type 0
Shows hs hs' =
    (i : ℕ) (row : PostHighlight)
    → first (has_highlight_id i) hs' ≡ some row
    → (old : PostHighlight) × (first (has_highlight_id i) hs ≡ some old)
      × (old.shared_at ≡ row.shared_at)

delete_where-Shows :
    (i : ℕ) (hs : List PostHighlight) → Shows hs (delete_where (has_highlight_id i) hs)
delete_where-Shows i hs j row e = elim (Bool-cases (i == j)) [
  | inl same ↦
      let k : i ≡ j = ground arith in
      let gone = first-delete (has_highlight_id j) hs in ground (arith, gone, rw k at e)
  | inr other ↦
      let at =
        first-delete_other (has_highlight_id j) (has_highlight_id i) hs
          (λ x h. ground (arith, h, other)) in
      (row, sym at ∙ e, refl)
]

with_visibility-Shows :
    (i : ℕ) (v : String) (hs : List PostHighlight)
    → Shows hs (update_where (has_highlight_id i) (with_visibility v) hs)
with_visibility-Shows i v hs j row e =
    let after =
      first-updated (has_highlight_id j) (has_highlight_id i) (with_visibility v) hs (λ x. refl) in
    elim (Option-cases (first (has_highlight_id j) hs)) [
      | inl gone ↦ ground (arith, after, gone, e)
      | inr (old, at) ↦ (old, at, ground (arith, after, at, e))
    ]

Shows-IsShared :
    (db db' : Database)
    → db'.feed_events ≡ db.feed_events
    → Shows db.post_highlights db'.post_highlights
    → IsShared db
    → IsShared db'
Shows-IsShared db db' same shown h = record {
  once = λ i. rw same (h.once i);
  unshared = λ i row found never.
      let (old, at, kept) = shown i row found in rw same (h.unshared i old at (cc (kept, never)));
}

create_highlight-IsShared :
    (id now u ub : ℕ) (quote : String) (page : Option ℕ) (remark : Option String) (s : Session)
    → get_highlight id s.db ≡ none
    → find_highlight_share id s.db ≡ none
    → IsShared s.db
    → IsShared (create_highlight id now u ub quote page remark s).1.db
create_highlight-IsShared id now u ub quote page remark s new unnamed h =
    let (events, rows) = create_highlight_outcome id now u ub quote page remark s in
    record {
      once = λ i. rw events (h.once i);
      unshared = λ i row found never. elim rows [
        | inl same ↦ rw events (h.unshared i row (rw same at found) never)
        | inr grown ↦ rw events (fresh_row i row (rw grown at found) never)
      ];
    }
  where
    fresh_row :
        (i : ℕ) (row : PostHighlight)
        → first
            (has_highlight_id i)
            (s.db.post_highlights ++ new_highlight id now u ub quote page remark ∷ [])
          ≡ some row
        → row.shared_at ≡ none
        → count_where (is_share i) s.db.feed_events ≡ 0
    fresh_row i row found never = elim (Bool-cases (id == i)) [
      | inl own ↦
          let e : id ≡ i = ground arith in
          rw (← e) (first-none (is_share id) s.db.feed_events unnamed)
      | inr other ↦
          let at =
            first-append_other (has_highlight_id i) s.db.post_highlights
              (new_highlight id now u ub quote page remark) other in
          h.unshared i row (sym at ∙ found) never
    ]

share_highlight_to_feed-IsShared :
    (now u i : ℕ) (s : Session) → IsShared s.db → IsShared (share_highlight_to_feed now u i s).1.db
share_highlight_to_feed-IsShared now u i s h = elim (share_outcome now u i s) [
  | inl (refused, same) ↦ rw same h
  | inr (row, found, own, inl (e, before, there, done)) ↦ rw done h
  | inr (row, found, own, inr (reason, done)) ↦
      rw done (shared_db-IsShared now u i row s.db h (no_share i s.db row h found reason))
]

Step-IsShared : {w v : World} → Step w v → IsShared w.db → IsShared v.db
Step-IsShared (creates w id now u ub quote page remark new unnamed) h =
    run_request-keeps IsShared (create_highlight id now u ub quote page remark) w h
      (create_highlight-IsShared id now u ub quote page remark (fresh w) new unnamed h)
Step-IsShared (deletes w u i) h =
    let (events, rows) = delete_highlight_outcome u i (fresh w) in
    run_request-keeps IsShared (delete_highlight u i) w h (
      Shows-IsShared w.db _ events
        (elim rows [
          | inl same ↦ rw same (λ j row e. (row, e, refl))
          | inr after ↦ rw after (delete_where-Shows i w.db.post_highlights)
        ])
        h)
Step-IsShared (shows w u i v) h =
    let (events, rows) = update_highlight_visibility_outcome u i v (fresh w) in
    run_request-keeps IsShared (update_highlight_visibility u i v) w h (
      Shows-IsShared w.db _ events
        (elim rows [
          | inl same ↦ rw same (λ j row e. (row, e, refl))
          | inr (allowed, after) ↦ rw after (with_visibility-Shows i v w.db.post_highlights)
        ])
        h)
Step-IsShared (shares w now u i) h =
    run_request-keeps IsShared (share_highlight_to_feed now u i) w h
      (share_highlight_to_feed-IsShared now u i (fresh w) h)

-- Whatever transactions save highlights under fresh ids, delete them, change who may see them and share
-- them, in any order and refused or not: where it held before, a highlight has one event of its share in
-- the feed at most, and none while it was never shared.
pub Reach-IsShared : {w v : World} → IsShared w.db → Reach w v → IsShared v.db
Reach-IsShared h here = h
Reach-IsShared h (next r st) = Step-IsShared st (Reach-IsShared h r)
