-- ===== src/Feed/Reach.antt =====
-- The requests on posts, reactions and comments, as steps of the process in any order: what they keep of
-- the tables of reactions and comments.
use book_club.Prelude.{ℕ, ◌≡◌, Option, none, String, List, first}
use book_club.Core.Database.{Database}
use book_club.Core.Session.{World, run_request}
use book_club.Core.Session.Atomic.{run_request-keeps, fresh}
use book_club.Feed.Models.{PostType, ReactionType}
use book_club.Feed.Comments.{has_comment_id}
use book_club.Feed.Comments.Steps.{
  IsThreaded, create_post_others, delete_post_others, add_comment_reactions, add_comment-IsThreaded,
  delete_comment_outcome, delete_comment-IsThreaded, toggle_reaction-IsUnique,
  toggle_reaction_comments,
}
use book_club.Feed.Reactions.Unique.{IsUnique, has_id}
use book_club.Feed.Service.{create_post, delete_post, toggle_reaction, add_comment, delete_comment}

-- The ids of new rows are drawn fresh.
pub data Step : World → World → Type 0 where
  posts :
      (w : World) (str : ℕ → String) (id now u b : ℕ) (t : PostType) (content : String)
      (keys : List String)
      → Step w (run_request (create_post str id now u b t content keys) w).1
  deletes_post : (w : World) (now u p : ℕ) → Step w (run_request (delete_post now u p) w).1
  toggles :
      (w : World) (id u p : ℕ) (t : ReactionType)
      → first (has_id id) w.db.reactions ≡ none
      → Step w (run_request (toggle_reaction id u p t) w).1
  comments :
      (w : World) (id now u p : ℕ) (parent_id : Option ℕ) (content : String)
      → first (has_comment_id id) w.db.comments ≡ none
      → Step w (run_request (add_comment id now u p parent_id content) w).1
  deletes_comment : (w : World) (now u c : ℕ) → Step w (run_request (delete_comment now u c) w).1

pub data Reach (w : World) : World → Type 0 where
  here : Reach w w
  next : {v u : World} → Reach w v → Step v u → Reach w u

-- Reactions are unique and comments are threaded.
abbrev IsDiscussed : Database → Type 0
IsDiscussed db = IsUnique db.reactions × IsThreaded db.comments

Step-IsDiscussed : {w v : World} → Step w v → IsDiscussed w.db → IsDiscussed v.db
Step-IsDiscussed (posts w str id now u b t content keys) (h, k) =
    let (same, same') = create_post_others str id now u b t content keys (fresh w) in
    run_request-keeps IsDiscussed (create_post str id now u b t content keys) w (h, k)
      (rw same h, rw same' k)
Step-IsDiscussed (deletes_post w now u p) (h, k) =
    let (same, same') = delete_post_others now u p (fresh w) in
    run_request-keeps IsDiscussed (delete_post now u p) w (h, k) (rw same h, rw same' k)
Step-IsDiscussed (toggles w id u p t new) (h, k) =
    run_request-keeps IsDiscussed (toggle_reaction id u p t) w (h, k)
      (
        toggle_reaction-IsUnique id u p t (fresh w) new h,
        rw (toggle_reaction_comments id u p t (fresh w)) k,
      )
Step-IsDiscussed (comments w id now u p parent_id content new) (h, k) =
    run_request-keeps IsDiscussed (add_comment id now u p parent_id content) w (h, k)
      (
        rw (add_comment_reactions id now u p parent_id content (fresh w)) h,
        add_comment-IsThreaded id now u p parent_id content (fresh w) new k,
      )
Step-IsDiscussed (deletes_comment w now u c) (h, k) =
    run_request-keeps IsDiscussed (delete_comment now u c) w (h, k)
      (
        rw (delete_comment_outcome now u c (fresh w)).0 h,
        delete_comment-IsThreaded now u c (fresh w) k,
      )

-- Whatever transactions create and delete posts, toggle reactions, add comments, with fresh ids, and
-- delete them, in any order and refused or not: where it held before, a user has reacted to a post with a
-- type at most once, comment ids are unique, and every reply answers an earlier comment on its own post
-- that is no reply.
pub Reach-IsDiscussed :
    {w v : World}
    → IsUnique w.db.reactions × IsThreaded w.db.comments
    → Reach w v
    → IsUnique v.db.reactions × IsThreaded v.db.comments
Reach-IsDiscussed h here = h
Reach-IsDiscussed h (next r st) = Step-IsDiscussed st (Reach-IsDiscussed h r)
