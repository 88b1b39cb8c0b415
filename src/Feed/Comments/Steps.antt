-- ===== src/Feed/Comments/Steps.antt =====
-- The requests on posts, reactions and comments, one by one: what each keeps of the tables of reactions and
-- comments.
use book_club.Prelude.{
  ℕ, ◌≡◌, refl, ◌⊎◌, inl, inr, Option, none, some, String, List, [], ◌∷◌, ◌++◌, arith, Option-cases,
  first, update_where,
}
use book_club.Core.Session.{Session}
use book_club.Core.Threads.{append-IsThreaded, root-Fits, reply-Fits, update_where-IsThreaded}
use book_club.Core.Threads
use book_club.Feed.Models.{PostType, Comment, ReactionType}
use book_club.Feed.Posts.{get_post}
use book_club.Feed.Comments.{new_comment, has_comment_id, comment_deleted}
use book_club.Feed.Reactions.Unique.{IsUnique, has_id, flipped-IsUnique}
use book_club.Feed.Reactions.Toggle.{toggle_reaction_effect}
use book_club.Feed.Service.{create_post, delete_post, toggle_reaction, add_comment, delete_comment}

-- Ids are unique, and every reply answers an earlier comment on its post, deleted since or not, that is no
-- reply.
abbrev pub IsThreaded : List Comment → Type 0
IsThreaded = Threads.IsThreaded (λ c. c.id) (λ c. c.parent_id) (λ c. c.post_id)

pub create_post_others :
    (str : ℕ → String) (id now u b : ℕ) (t : PostType) (content : String) (keys : List String)
    (s : Session)
    → let after = (create_post str id now u b t content keys s).1.db in
      (after.reactions ≡ s.db.reactions) × (after.comments ≡ s.db.comments)
unfolding create_post
create_post_others str id now u b t content keys s = ground arith

pub delete_post_others :
    (now u p : ℕ) (s : Session)
    → let after = (delete_post now u p s).1.db in
      (after.reactions ≡ s.db.reactions) × (after.comments ≡ s.db.comments)
unfolding delete_post
delete_post_others now u p s = ground arith

toggle_reaction_refused :
    (id u p : ℕ) (t : ReactionType) (s : Session)
    → get_post p s.db ≡ none
    → (toggle_reaction id u p t s).1 ≡ s
unfolding toggle_reaction
toggle_reaction_refused id u p t s gone = ground (arith, gone)

pub add_comment_reactions :
    (id now u p : ℕ) (parent_id : Option ℕ) (content : String) (s : Session)
    → (add_comment id now u p parent_id content s).1.db.reactions ≡ s.db.reactions
unfolding add_comment
add_comment_reactions id now u p none content s = ground arith
add_comment_reactions id now u p (some q) content s = ground arith

pub delete_comment_outcome :
    (now u c : ℕ) (s : Session)
    → let after = (delete_comment now u c s).1.db in
      (after.reactions ≡ s.db.reactions)
      × ((after.comments ≡ s.db.comments)
          ⊎ (after.comments ≡ update_where (has_comment_id c) (comment_deleted now) s.db.comments))
unfolding delete_comment
delete_comment_outcome now u c s = ground arith

-- A comment at the top of a post.
add_comment_top :
    (id now u p : ℕ) (content : String) (s : Session)
    → let after = (add_comment id now u p none content s).1.db in
      (after.comments ≡ s.db.comments)
      ⊎ (after.comments ≡ s.db.comments ++ new_comment id now u p none content ∷ [])
unfolding add_comment
add_comment_top id now u p content s = ground arith

-- A reply, with the comment that was found for it.
add_comment_reply :
    (id now u p q : ℕ) (content : String) (s : Session)
    → let after = (add_comment id now u p (some q) content s).1.db in
      (after.comments ≡ s.db.comments)
      ⊎ ((parent : Comment) × (first (has_comment_id q) s.db.comments ≡ some parent)
          × (parent.parent_id ≡ none)
          × (parent.post_id ≡ p)
          × (after.comments ≡ s.db.comments ++ new_comment id now u p (some q) content ∷ []))
unfolding add_comment
add_comment_reply id now u p q content s =
    elim (Option-cases (first (has_comment_id q) s.db.comments)) [
      | inl gone ↦ inl (ground arith)
      | inr (parent, at_q) ↦
          let after = (add_comment id now u p (some q) content s).1.db in
          let outcome : (after.comments ≡ s.db.comments)
              ⊎ ((parent.parent_id ≡ none)
                  × (parent.post_id ≡ p)
                  × (after.comments
                      ≡ s.db.comments ++ new_comment id now u p (some q) content ∷ [])) =
            ground arith in
          elim outcome [
            | inl same ↦ inl same
            | inr (root, post, grown) ↦ inr (parent, at_q, root, post, grown)
          ]
    ]

pub add_comment-IsThreaded :
    (id now u p : ℕ) (parent_id : Option ℕ) (content : String) (s : Session)
    → first (has_comment_id id) s.db.comments ≡ none
    → IsThreaded s.db.comments
    → IsThreaded (add_comment id now u p parent_id content s).1.db.comments
add_comment-IsThreaded id now u p none content s new h =
    elim (add_comment_top id now u p content s) [
      | inl same ↦ rw same h
      | inr after ↦ rw after (append-IsThreaded _ _ _ _ _ (root-Fits _ _ _ _ _ new refl) h)
    ]
add_comment-IsThreaded id now u p (some q) content s new h =
    elim (add_comment_reply id now u p q content s) [
      | inl same ↦ rw same h
      | inr (parent, at_q, root, post, after) ↦ rw after (
          append-IsThreaded _ _ _ _ _
            (reply-Fits _ _ _ s.db.comments _ parent q new refl at_q root post) h)
    ]

pub delete_comment-IsThreaded :
    (now u c : ℕ) (s : Session)
    → IsThreaded s.db.comments
    → IsThreaded (delete_comment now u c s).1.db.comments
delete_comment-IsThreaded now u c s h = elim ((delete_comment_outcome now u c s).1) [
  | inl same ↦ rw same h
  | inr after ↦ rw after (
      update_where-IsThreaded (λ c. c.id) (λ c. c.parent_id) (λ c. c.post_id) (comment_deleted now)
        (λ x. refl) (λ x. refl) (λ x. refl) (has_comment_id c) s.db.comments h)
]

pub toggle_reaction_comments :
    (id u p : ℕ) (t : ReactionType) (s : Session)
    → (toggle_reaction id u p t s).1.db.comments ≡ s.db.comments
toggle_reaction_comments id u p t s = elim (Option-cases (get_post p s.db)) [
  | inl gone ↦ rw (toggle_reaction_refused id u p t s gone) refl
  | inr (post, found) ↦ rw (toggle_reaction_effect id u p t s post found) refl
]

pub toggle_reaction-IsUnique :
    (id u p : ℕ) (t : ReactionType) (s : Session)
    → first (has_id id) s.db.reactions ≡ none
    → IsUnique s.db.reactions
    → IsUnique (toggle_reaction id u p t s).1.db.reactions
toggle_reaction-IsUnique id u p t s new h = elim (Option-cases (get_post p s.db)) [
  | inl gone ↦ rw (toggle_reaction_refused id u p t s gone) h
  | inr (post, found) ↦
      rw (toggle_reaction_effect id u p t s post found)
        (flipped-IsUnique id p u t s.db.reactions new h)
]
