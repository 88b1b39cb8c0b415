-- ===== src/Feed/Highlights/Visibility.antt =====
-- The column of the visibility is text; what the code writes to it.
use book_club.Prelude.{
  ℕ, ◌≡◌, refl, inl, inr, true, All, All-snoc, All-delete_where, All-update_where,
}
use book_club.Core.Database.{Database}
use book_club.Core.Session.{Session, World}
use book_club.Core.Session.Atomic.{run_request-keeps, fresh}
use book_club.Feed.Models.{PostHighlight}
use book_club.Feed.Highlights.{new_highlight, has_highlight_id, with_visibility, shared}
use book_club.Feed.Highlights.Service.{
  create_highlight, delete_highlight, is_visibility, update_highlight_visibility,
  share_highlight_to_feed,
}
use book_club.Feed.Highlights.Reach.{
  Step, creates, deletes, shows, shares, Reach, here, next, create_highlight_outcome,
  delete_highlight_outcome, update_highlight_visibility_outcome,
}
use book_club.Feed.Highlights.Sharing.{share_outcome}

abbrev pub IsTyped : PostHighlight → Type 0
IsTyped h = is_visibility h.visibility ≡ true

abbrev AreTyped : Database → Type 0
AreTyped db = All IsTyped db.post_highlights

share_highlight_to_feed-AreTyped :
    (now u i : ℕ) (s : Session) → AreTyped s.db → AreTyped (share_highlight_to_feed now u i s).1.db
share_highlight_to_feed-AreTyped now u i s h = elim (share_outcome now u i s) [
  | inl (refused, same) ↦ rw same h
  | inr (row, found, own, inl (e, before, there, done)) ↦ rw done h
  | inr (row, found, own, inr (reason, done)) ↦ rw done (
      All-update_where IsTyped (has_highlight_id i) (shared now) s.db.post_highlights
        (λ x same p. refl) h)
]

Step-AreTyped : {w v : World} → Step w v → AreTyped w.db → AreTyped v.db
Step-AreTyped (creates w id now u ub quote page remark new unnamed) h =
    run_request-keeps AreTyped (create_highlight id now u ub quote page remark) w h
      (elim ((create_highlight_outcome id now u ub quote page remark (fresh w)).1) [
        | inl same ↦ rw same h
        | inr grown ↦ rw grown (
            All-snoc IsTyped w.db.post_highlights (new_highlight id now u ub quote page remark) h
              refl)
      ])
Step-AreTyped (deletes w u i) h =
    run_request-keeps AreTyped (delete_highlight u i) w h
      (elim ((delete_highlight_outcome u i (fresh w)).1) [
        | inl same ↦ rw same h
        | inr after ↦
            rw after (All-delete_where IsTyped (has_highlight_id i) w.db.post_highlights h)
      ])
Step-AreTyped (shows w u i v) h =
    run_request-keeps AreTyped (update_highlight_visibility u i v) w h
      (elim ((update_highlight_visibility_outcome u i v (fresh w)).1) [
        | inl same ↦ rw same h
        | inr (allowed, after) ↦ rw after (
            All-update_where IsTyped (has_highlight_id i) (with_visibility v) w.db.post_highlights
              (λ x same p. allowed) h)
      ])
Step-AreTyped (shares w now u i) h =
    run_request-keeps AreTyped (share_highlight_to_feed now u i) w h
      (share_highlight_to_feed-AreTyped now u i (fresh w) h)

-- Whatever transactions save, delete and share highlights and change who may see them with any text, in
-- any order and refused or not: where the column of the visibility held one of the three known texts in
-- every row, it still does.
pub Reach-AreTyped :
    {w v : World} → All IsTyped w.db.post_highlights → Reach w v → All IsTyped v.db.post_highlights
Reach-AreTyped h here = h
Reach-AreTyped h (next r st) = Step-AreTyped st (Reach-AreTyped h r)
