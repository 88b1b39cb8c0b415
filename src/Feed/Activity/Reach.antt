-- ===== src/Feed/Activity/Reach.antt =====
-- The requests on the comments of the activity stream, as steps of the process in any order.
use book_club.Prelude.{
  ℕ, ◌≡◌, refl, ◌⊎◌, inl, inr, Option, none, some, String, List, [], ◌∷◌, ◌++◌, arith, Option-cases,
}
use book_club.Core.Database.{Database}
use book_club.Core.Session.{Session, World, run_request}
use book_club.Core.Session.Atomic.{run_request-keeps, fresh}
use book_club.Core.Threads.{append-IsThreaded, root-Fits, reply-Fits, cascade-IsThreaded}
use book_club.Core.Threads
use book_club.Feed.Models.{FeedComment}
use book_club.Feed.Activity.{
  new_feed_comment, has_feed_comment_id, get_feed_comment, without_comment,
}
use book_club.Feed.Activity.Service.{add_feed_comment, delete_feed_comment, toggle_feed_reaction}

-- Ids are unique, and every reply answers an earlier comment on its event that is no reply.
abbrev pub IsNested : List FeedComment → Type 0
IsNested = Threads.IsThreaded (λ c. c.id) (λ c. c.parent_id) (λ c. c.feed_event_id)

-- The ids of new rows are drawn fresh.
pub data Step : World → World → Type 0 where
  comments :
      (w : World) (id now e u : ℕ) (parent_id : Option ℕ) (body : String)
      → get_feed_comment id w.db ≡ none
      → Step w (run_request (add_feed_comment id now e u parent_id body) w).1
  deletes : (w : World) (c u : ℕ) → Step w (run_request (delete_feed_comment c u) w).1
  reacts :
      (w : World) (id e u : ℕ) (emoji : String)
      → Step w (run_request (toggle_feed_reaction id e u emoji) w).1

pub data Reach (w : World) : World → Type 0 where
  here : Reach w w
  next : {v u : World} → Reach w v → Step v u → Reach w u

add_top :
    (id now e u : ℕ) (body : String) (s : Session)
    → let after = (add_feed_comment id now e u none body s).1.db in
      (after.feed_comments ≡ s.db.feed_comments)
      ⊎ (after.feed_comments ≡ s.db.feed_comments ++ new_feed_comment id now e u none body ∷ [])
unfolding add_feed_comment
add_top id now e u body s = ground arith

add_reply :
    (id now e u q : ℕ) (body : String) (s : Session)
    → let after = (add_feed_comment id now e u (some q) body s).1.db in
      (after.feed_comments ≡ s.db.feed_comments)
      ⊎ ((parent : FeedComment) × (get_feed_comment q s.db ≡ some parent)
          × (parent.parent_id ≡ none)
          × (parent.feed_event_id ≡ e)
          × (after.feed_comments
              ≡ s.db.feed_comments ++ new_feed_comment id now e u (some q) body ∷ []))
unfolding add_feed_comment
add_reply id now e u q body s = elim (Option-cases (get_feed_comment q s.db)) [
  | inl gone ↦ inl (ground arith)
  | inr (parent, at_q) ↦
      let after = (add_feed_comment id now e u (some q) body s).1.db in
      let outcome : (after.feed_comments ≡ s.db.feed_comments)
          ⊎ ((parent.parent_id ≡ none)
              × (parent.feed_event_id ≡ e)
              × (after.feed_comments
                  ≡ s.db.feed_comments ++ new_feed_comment id now e u (some q) body ∷ [])) =
        ground arith in
      elim outcome [
        | inl same ↦ inl same
        | inr (root, same, grown) ↦ inr (parent, at_q, root, same, grown)
      ]
]

add_feed_comment-IsNested :
    (id now e u : ℕ) (parent_id : Option ℕ) (body : String) (s : Session)
    → get_feed_comment id s.db ≡ none
    → IsNested s.db.feed_comments
    → IsNested (add_feed_comment id now e u parent_id body s).1.db.feed_comments
add_feed_comment-IsNested id now e u none body s new h = elim (add_top id now e u body s) [
  | inl same ↦ rw same h
  | inr after ↦ rw after (append-IsThreaded _ _ _ _ _ (root-Fits _ _ _ _ _ new refl) h)
]
add_feed_comment-IsNested id now e u (some q) body s new h = elim (add_reply id now e u q body s) [
  | inl same ↦ rw same h
  | inr (parent, at_q, root, event, after) ↦ rw after (
      append-IsThreaded _ _ _ _ _
        (reply-Fits _ _ _ s.db.feed_comments _ parent q new refl at_q root event) h)
]

delete_outcome :
    (c u : ℕ) (s : Session)
    → let after = (delete_feed_comment c u s).1.db in
      (after.feed_comments ≡ s.db.feed_comments)
      ⊎ (after.feed_comments ≡ without_comment c s.db.feed_comments)
unfolding delete_feed_comment
delete_outcome c u s = ground arith

react_comments :
    (id e u : ℕ) (emoji : String) (s : Session)
    → (toggle_feed_reaction id e u emoji s).1.db.feed_comments ≡ s.db.feed_comments
unfolding toggle_feed_reaction
react_comments id e u emoji s = ground arith

abbrev Nested : Database → Type 0
Nested db = IsNested db.feed_comments

without_comment-IsNested :
    (c : ℕ) (cs : List FeedComment) → IsNested cs → IsNested (without_comment c cs)
unfolding without_comment
without_comment-IsNested c cs h = cascade-IsThreaded _ _ _ (has_feed_comment_id c) cs h

Step-IsNested : {w v : World} → Step w v → Nested w.db → Nested v.db
Step-IsNested (comments w id now e u parent_id body new) h =
    run_request-keeps Nested (add_feed_comment id now e u parent_id body) w h
      (add_feed_comment-IsNested id now e u parent_id body (fresh w) new h)
Step-IsNested (deletes w c u) h =
    run_request-keeps Nested (delete_feed_comment c u) w h (elim (delete_outcome c u (fresh w)) [
      | inl same ↦ rw same h
      | inr after ↦ rw after (without_comment-IsNested c w.db.feed_comments h)
    ])
Step-IsNested (reacts w id e u emoji) h =
    run_request-keeps Nested (toggle_feed_reaction id e u emoji) w h
      (rw (react_comments id e u emoji (fresh w)) h)

-- Whatever transactions comment on events of the activity stream under fresh ids, delete comments and
-- react to events, in any order and refused or not: where it held before, comment ids are unique, and
-- every reply answers an earlier comment on its own event that is no reply.
pub Reach-IsNested :
    {w v : World} → IsNested w.db.feed_comments → Reach w v → IsNested v.db.feed_comments
Reach-IsNested h here = h
Reach-IsNested h (next r st) = Step-IsNested st (Reach-IsNested h r)
