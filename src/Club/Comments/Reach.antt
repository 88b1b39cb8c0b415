-- ===== src/Club/Comments/Reach.antt =====
-- The requests that write comments or delete them, as steps of the process in any order.
use book_club.Prelude.{
  ℕ, ◌≡◌, refl, ◌⊎◌, inl, inr, Option, none, some, String, [], ◌∷◌, ◌++◌, arith, Option-cases,
  update_where,
}
use book_club.Core.Database.{Database}
use book_club.Core.Session.{Session, World, run_request}
use book_club.Core.Session.Atomic.{run_request-keeps, fresh}
use book_club.Club.Models.{AgendaTopic, TopicComment}
use book_club.Club.Guards.{has_comment_id, get_comment, get_topic}
use book_club.Club.Comments.Repository.{new_comment, edited, deleted, in_topic}
use book_club.Club.Comments.Service.{Route, add_comment, update_comment, delete_comment}
use book_club.Club.Agendas.Service.{delete_topic}
use book_club.Core.Threads.{append-IsThreaded, root-Fits, reply-Fits}
use book_club.Club.Comments.Depth.{IsThreaded, edits-IsThreaded, deleted-IsThreaded}

-- A new comment at the top of the topic that the route names.
add_comment_top :
    (id now : ℕ) (r : Route) (u : ℕ) (body : String) (s : Session)
    → let after = (add_comment id now r u none body s).1.db in
      (after.topic_comments ≡ s.db.topic_comments)
      ⊎ ((t : AgendaTopic) × (after.topic_comments
            ≡ s.db.topic_comments ++ new_comment id now t.id u none body ∷ []))
unfolding add_comment
add_comment_top id now r u body s = elim (Option-cases (get_topic r.topic_id s.db)) [
  | inl gone ↦ inl (ground arith)
  | inr (t, at_t) ↦
      let outcome : ((add_comment id now r u none body s).1.db.topic_comments ≡ s.db.topic_comments)
          ⊎ ((add_comment id now r u none body s).1.db.topic_comments
              ≡ s.db.topic_comments ++ new_comment id now t.id u none body ∷ []) =
        ground arith in
      elim outcome [ inl same ↦ inl same | inr after ↦ inr (t, after) ]
]

-- The tables after a reply to a comment, with the topic and the parent that were found.
abbrev Replied : ℕ → ℕ → ℕ → ℕ → String → Database → Database → AgendaTopic → TopicComment → Type 0
Replied id now u p body db after t parent =
    (parent.parent_comment_id ≡ none)
    × (parent.topic_id ≡ t.id)
    × (after.topic_comments ≡ db.topic_comments ++ new_comment id now t.id u (some p) body ∷ [])

add_comment_reply :
    (id now : ℕ) (r : Route) (u p : ℕ) (body : String) (s : Session)
    → let after = (add_comment id now r u (some p) body s).1.db in
      (after.topic_comments ≡ s.db.topic_comments)
      ⊎ ((t : AgendaTopic) × (parent : TopicComment) × (get_comment p s.db ≡ some parent)
          × Replied id now u p body s.db after t parent)
unfolding add_comment
add_comment_reply id now r u p body s = elim (Option-cases (get_topic r.topic_id s.db)) [
  | inl gone ↦ inl (ground arith)
  | inr (t, at_t) ↦ elim (Option-cases (get_comment p s.db)) [
    | inl gone ↦ inl (ground arith)
    | inr (parent, at_p) ↦
        let outcome : ((add_comment id now r u (some p) body s).1.db.topic_comments
              ≡ s.db.topic_comments)
            ⊎ Replied id now u p body s.db (add_comment id now r u (some p) body s).1.db t parent =
          ground arith in
        elim outcome [ inl same ↦ inl same | inr after ↦ inr (t, parent, at_p, after) ]
  ]
]

-- Whatever a comment answers, the threads stay.
add_comment-IsThreaded :
    (id now : ℕ) (r : Route) (u : ℕ) (parent_id : Option ℕ) (body : String) (s : Session)
    → get_comment id s.db ≡ none
    → IsThreaded s.db.topic_comments
    → IsThreaded (add_comment id now r u parent_id body s).1.db.topic_comments
add_comment-IsThreaded id now r u none body s new h = elim (add_comment_top id now r u body s) [
  | inl same ↦ rw same h
  | inr (t, after) ↦ rw after (append-IsThreaded _ _ _ _ _ (root-Fits _ _ _ _ _ new refl) h)
]
add_comment-IsThreaded id now r u (some q) body s new h =
    elim (add_comment_reply id now r u q body s) [
      | inl same ↦ rw same h
      | inr (t, parent, at_q, (root, topic, after)) ↦ rw after (
          append-IsThreaded _ _ _ _ _
            (reply-Fits _ _ _ s.db.topic_comments _ parent q new refl at_q root topic) h)
    ]

update_comment_outcome :
    (now : ℕ) (r : Route) (i u : ℕ) (body : String) (s : Session)
    → let after = (update_comment now r i u body s).1.db in
      (after.topic_comments ≡ s.db.topic_comments)
      ⊎ ((j : ℕ) × (after.topic_comments
            ≡ update_where (has_comment_id j) (edited body now) s.db.topic_comments))
unfolding update_comment
update_comment_outcome now r i u body s = elim (Option-cases (get_comment i s.db)) [
  | inl gone ↦ inl (ground arith)
  | inr (c, at_i) ↦
      let outcome : ((update_comment now r i u body s).1.db.topic_comments ≡ s.db.topic_comments)
          ⊎ ((update_comment now r i u body s).1.db.topic_comments
              ≡ update_where (has_comment_id c.id) (edited body now) s.db.topic_comments) =
        ground arith in
      elim outcome [ inl same ↦ inl same | inr after ↦ inr (c.id, after) ]
]

delete_comment_outcome :
    (r : Route) (i u : ℕ) (s : Session)
    → let after = (delete_comment r i u s).1.db in
      (after.topic_comments ≡ s.db.topic_comments)
      ⊎ ((j : ℕ) × (after.topic_comments ≡ deleted (has_comment_id j) s.db.topic_comments))
unfolding delete_comment
delete_comment_outcome r i u s = elim (Option-cases (get_comment i s.db)) [
  | inl gone ↦ inl (ground arith)
  | inr (c, at_i) ↦
      let outcome : ((delete_comment r i u s).1.db.topic_comments ≡ s.db.topic_comments)
          ⊎ ((delete_comment r i u s).1.db.topic_comments
              ≡ deleted (has_comment_id c.id) s.db.topic_comments) =
        ground arith in
      elim outcome [ inl same ↦ inl same | inr after ↦ inr (c.id, after) ]
]

delete_topic_outcome :
    (c x a t u : ℕ) (s : Session)
    → let after = (delete_topic c x a t u s).1.db in
      (after.topic_comments ≡ s.db.topic_comments)
      ⊎ (after.topic_comments ≡ deleted (in_topic t) s.db.topic_comments)
unfolding delete_topic
delete_topic_outcome c x a t u s = ground arith

-- The id of a new comment is drawn fresh.
pub data Step : World → World → Type 0 where
  comments :
      (w : World) (id now : ℕ) (r : Route) (u : ℕ) (parent_id : Option ℕ) (body : String)
      → get_comment id w.db ≡ none
      → Step w (run_request (add_comment id now r u parent_id body) w).1
  edits :
      (w : World) (now : ℕ) (r : Route) (i u : ℕ) (body : String)
      → Step w (run_request (update_comment now r i u body) w).1
  deletes : (w : World) (r : Route) (i u : ℕ) → Step w (run_request (delete_comment r i u) w).1
  deletes_topic : (w : World) (c x a t u : ℕ) → Step w (run_request (delete_topic c x a t u) w).1

pub data Reach (w : World) : World → Type 0 where
  here : Reach w w
  next : {v u : World} → Reach w v → Step v u → Reach w u

abbrev Threaded : Database → Type 0
Threaded db = IsThreaded db.topic_comments

Step-IsThreaded : {w v : World} → Step w v → Threaded w.db → Threaded v.db
Step-IsThreaded (comments w id now r u parent_id body new) h =
    run_request-keeps Threaded (add_comment id now r u parent_id body) w h
      (add_comment-IsThreaded id now r u parent_id body (fresh w) new h)
Step-IsThreaded (edits w now r i u body) h =
    run_request-keeps Threaded (update_comment now r i u body) w h
      (elim (update_comment_outcome now r i u body (fresh w)) [
        | inl same ↦ rw same h
        | inr (j, after) ↦ rw after (edits-IsThreaded j body now w.db.topic_comments h)
      ])
Step-IsThreaded (deletes w r i u) h =
    run_request-keeps Threaded (delete_comment r i u) w h
      (elim (delete_comment_outcome r i u (fresh w)) [
        | inl same ↦ rw same h
        | inr (j, after) ↦ rw after (deleted-IsThreaded (has_comment_id j) w.db.topic_comments h)
      ])
Step-IsThreaded (deletes_topic w c x a t u) h =
    run_request-keeps Threaded (delete_topic c x a t u) w h
      (elim (delete_topic_outcome c x a t u (fresh w)) [
        | inl same ↦ rw same h
        | inr after ↦ rw after (deleted-IsThreaded (in_topic t) w.db.topic_comments h)
      ])

-- Whatever transactions add comments under fresh ids, edit them, delete them or delete topics, in any
-- order and refused or not: where it held before, comment ids are unique, and every reply answers an
-- earlier comment of its own topic, which is no reply itself.
pub Reach-IsThreaded :
    {w v : World} → IsThreaded w.db.topic_comments → Reach w v → IsThreaded v.db.topic_comments
Reach-IsThreaded h here = h
Reach-IsThreaded h (next r st) = Step-IsThreaded st (Reach-IsThreaded h r)
