-- ===== src/Club/Comments/Threads.antt =====
-- What a reader of a discussion sees: the threads that the comments of a topic are grouped into.
use book_club.Prelude.{
  ℕ, ◌≡◌, refl, ◌∙◌, sym, ap, inl, inr, Bool, not, List, [], ◌∷◌, ◌++◌, map, append_assoc,
  append-nil, arith, ◌==◌, some_eq, is_some, if◌then◌else◌, Option-cases, select,
}
use book_club.Club.Models.{TopicComment}
use book_club.Club.Comments.Service.{
  Replies, append_reply, replies_of, collect, build_comment_threads,
}

abbrev pub is_root : TopicComment → Bool
is_root c = not (is_some c.parent_comment_id)

-- The replies to a comment.
abbrev pub is_reply_to : ℕ → TopicComment → Bool
is_reply_to id c = some_eq c.parent_comment_id id

-- The dict holds the replies under the id of their parent, in order.
replies_of-append_reply :
    (k p : ℕ) (c : TopicComment) (d : Replies)
    → replies_of k (append_reply p c d)
      ≡ (if p == k then replies_of k d ++ c ∷ [] else replies_of k d)
replies_of-append_reply k p c [] = ground arith
replies_of-append_reply k p c ((k', cs) ∷ d) = ground (arith, replies_of-append_reply k p c d)

collect_roots :
    (cs roots : List TopicComment) (d : Replies)
    → (collect cs roots d).0 ≡ roots ++ select is_root cs
unfolding collect
collect_roots [] roots d = sym (append-nil _)
collect_roots (c ∷ cs) roots d = elim (Option-cases c.parent_comment_id) [
  | inl top ↦ ground (
    arith,
    top,
    collect_roots cs (roots ++ c ∷ []) d,
    append_assoc roots (c ∷ []) (select is_root cs),
  )
  | inr (p, reply) ↦ ground (arith, reply, collect_roots cs roots (append_reply p c d))
]

collect_replies :
    (k : ℕ) (cs roots : List TopicComment) (d : Replies)
    → replies_of k (collect cs roots d).1 ≡ replies_of k d ++ select (is_reply_to k) cs
unfolding collect
collect_replies k [] roots d = sym (append-nil _)
collect_replies k (c ∷ cs) roots d = elim (Option-cases c.parent_comment_id) [
  | inl top ↦ ground (arith, top, collect_replies k cs (roots ++ c ∷ []) d)
  | inr (p, reply) ↦ ground (
    arith,
    reply,
    collect_replies k cs roots (append_reply p c d),
    replies_of-append_reply k p c d,
    append_assoc (replies_of k d) (c ∷ []) (select (is_reply_to k) cs),
  )
]

map_cong :
    (roots : List TopicComment) (f g : TopicComment → TopicComment × List TopicComment)
    → ((c : TopicComment) → f c ≡ g c)
    → map f roots ≡ map g roots
map_cong [] f g same = refl
map_cong (c ∷ roots) f g same = rw (same c, map_cong roots f g same) refl

-- TT
pub build_comment_threads_lem :
    (comments : List TopicComment)
    → build_comment_threads comments
      ≡ map (λ root. (root, select (is_reply_to root.id) comments)) (select is_root comments)
unfolding build_comment_threads
build_comment_threads_lem comments =
    ap (map _) (collect_roots comments [] [])
    ∙ map_cong (select is_root comments) _ _
        (λ c. ap (λ r. (c, r)) (collect_replies c.id comments [] []))
