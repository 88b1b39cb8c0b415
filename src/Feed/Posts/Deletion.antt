-- ===== src/Feed/Posts/Deletion.antt =====
-- What the deletion of a post means.
use book_club.Prelude.{
  ℕ, ◌≡◌, refl, ◌∙◌, true, ◌&&◌, Option, none, some, String, List, [], ◌∷◌, arith, ◌==◌, select,
  count_where, sum_where-sort_by, sum_where-select, update_where, first, first-update, Option-cases,
  inl, inr,
}
use book_club.Core.Session.{Session, ok, is_err}
use book_club.Feed.Models.{Post, ReactionType}
use book_club.Feed.Posts.{
  has_post_id, get_post, posted_before, is_listed, newer_post, timeline, post_deleted,
}
use book_club.Feed.Service.{delete_post, toggle_reaction, add_comment}

-- A deleted post is in no page of any book.
deleted_hidden :
    (id now b : ℕ) (cursor : Option ℕ) (ps : List Post)
    → count_where
        (λ p. (posted_before cursor p && is_listed b p) && p.id == id)
        (update_where (has_post_id id) (post_deleted now) ps)
      ≡ 0
deleted_hidden id now b cursor [] = refl
deleted_hidden id now b cursor (p ∷ ps) = ground (arith, deleted_hidden id now b cursor ps)

-- A deletion that returned was the author's, and left no post under the id.
delete_post_done :
    (now u id : ℕ) (s s' : Session)
    → delete_post now u id s ≡ (ok tt, s')
    → (p : Post) × (first (has_post_id id) s.db.posts ≡ some p)
      × (s'.db.posts ≡ update_where (has_post_id id) (post_deleted now) s.db.posts)
unfolding delete_post
delete_post_done now u id s s' done = elim (Option-cases (first (has_post_id id) s.db.posts)) [
  | inl gone ↦ ground (arith, gone, done)
  | inr (p, found) ↦ (p, found, ground (arith, found, done))
]

gone_after :
    (now id : ℕ) (ps : List Post)
    → (p : Post) → first (has_post_id id) ps ≡ some p
    → first (has_post_id id) (update_where (has_post_id id) (post_deleted now) ps)
      ≡ some (post_deleted now p)
gone_after now id ps p found =
    first-update (has_post_id id) (post_deleted now) ps p (λ y. refl) found

-- Reactions, comments and a further deletion are refused, and change nothing.
abbrev pub IsClosed : ℕ → ℕ → ℕ → ℕ → ReactionType → Option ℕ → String → Session → Type 0
IsClosed now u id new t parent_id content s =
    (is_err (toggle_reaction new u id t s).0 ≡ true)
    × ((toggle_reaction new u id t s).1 ≡ s)
    × (is_err (add_comment new now u id parent_id content s).0 ≡ true)
    × ((add_comment new now u id parent_id content s).1 ≡ s)
    × (is_err (delete_post now u id s).0 ≡ true)
    × ((delete_post now u id s).1 ≡ s)

refused_after :
    (now u id new : ℕ) (t : ReactionType) (parent_id : Option ℕ) (content : String) (s : Session)
    → get_post id s.db ≡ none
    → IsClosed now u id new t parent_id content s
unfolding delete_post toggle_reaction add_comment
refused_after now u id new t parent_id content s gone = ground (arith, gone)

-- After a deletion of a post that returned, the post is in the feed of no book before no cursor, and every
-- reaction to it, comment on it and further deletion of it, by anyone, is refused and changes nothing.
pub delete_post-IsClosed :
    (now u id now' b u' new : ℕ) (cursor : Option ℕ) (t : ReactionType) (parent_id : Option ℕ)
    (content : String) (s s' : Session)
    → delete_post now u id s ≡ (ok tt, s')
    → (count_where (has_post_id id) (timeline b cursor s'.db) ≡ 0)
      × IsClosed now' u' id new t parent_id content s'
delete_post-IsClosed now u id now' b u' new cursor t parent_id content s s' done =
    let (p, found, after) = delete_post_done now u id s s' done in
    let at_id = gone_after now id s.db.posts p found in
    let none_left : count_where (has_post_id id) (timeline b cursor s'.db) ≡ 0 = rw after (
      sum_where-sort_by (has_post_id id) (λ p. 1) newer_post
        (select (λ p. posted_before cursor p && is_listed b p) _)
      ∙ sum_where-select (has_post_id id) (λ p. posted_before cursor p && is_listed b p) (λ p. 1) _
      ∙ deleted_hidden id now b cursor s.db.posts) in
    let gone : get_post id s'.db ≡ none = rw (after, at_id) refl in
    (none_left, refused_after now' u' id new t parent_id content s' gone)
