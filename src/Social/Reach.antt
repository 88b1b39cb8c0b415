-- ===== src/Social/Reach.antt =====
-- The requests on follows and blocks, as steps of the process in any order.
use book_club.Prelude.{
  ℕ, ◌≡◌, ◌⊎◌, inl, inr, false, [], ◌∷◌, ◌++◌, arith, ◌==◌, first, delete_where, first-delete,
  Option-cases,
}
use book_club.Core.Database.{Database}
use book_club.Core.Session.{Session, World, run_request}
use book_club.Core.Session.Atomic.{run_request-keeps, fresh}
use book_club.Social.Repository.{is_follow, new_follow, is_block, new_block}
use book_club.Social.Graph.{
  IsOpen, Unfollowed, Unblocked, unfollow-IsOpen, unblock-IsOpen, follow-IsOpen, block-IsOpen,
  first-delete_none,
}
use book_club.Social.Service.{follow, unfollow, block, unblock}

pub data Step : World → World → Type 0 where
  follows : (w : World) (a b : ℕ) → Step w (run_request (follow a b) w).1
  unfollows : (w : World) (a b : ℕ) → Step w (run_request (unfollow a b) w).1
  blocks : (w : World) (a b : ℕ) → Step w (run_request (block a b) w).1
  unblocks : (w : World) (a b : ℕ) → Step w (run_request (unblock a b) w).1

pub data Reach (w : World) : World → Type 0 where
  here : Reach w w
  next : {v u : World} → Reach w v → Step v u → Reach w u

-- The blocks after a follow: a block of the other user is lifted.
abbrev Lifted : ℕ → ℕ → Database → Database → Type 0
Lifted a b db after =
    (Unblocked a b db.blocks × (after.blocks ≡ db.blocks))
    ⊎ (after.blocks ≡ delete_where (is_block a b) db.blocks)

follow_outcome :
    (a b : ℕ) (s : Session)
    → let after = (follow a b s).1.db in
      ((after.follows ≡ s.db.follows)
        × ((after.blocks ≡ s.db.blocks) ⊎ (after.blocks ≡ delete_where (is_block a b) s.db.blocks)))
      ⊎ (((a == b) ≡ false)
          × Unblocked b a s.db.blocks
          × Unfollowed a b s.db.follows
          × (after.follows ≡ s.db.follows ++ new_follow a b ∷ [])
          × Lifted a b s.db after)
unfolding follow
follow_outcome a b s = elim (Option-cases (first (is_block a b) s.db.blocks)) [
  | inl free ↦ ground (arith, free)
  | inr (row, there) ↦ ground (arith, there)
]

block_outcome :
    (a b : ℕ) (s : Session)
    → let after = (block a b s).1.db in
      ((after.follows ≡ s.db.follows) × (after.blocks ≡ s.db.blocks))
      ⊎ (((a == b) ≡ false)
          × (after.follows
              ≡ delete_where (is_follow b a) (delete_where (is_follow a b) s.db.follows))
          × ((after.blocks ≡ s.db.blocks)
              ⊎ (Unblocked a b s.db.blocks × (after.blocks ≡ s.db.blocks ++ new_block a b ∷ []))))
unfolding block
block_outcome a b s = ground arith

abbrev IsSocial : Database → Type 0
IsSocial db = IsOpen db.follows db.blocks

follow-IsSocial : (a b : ℕ) (s : Session) → IsSocial s.db → IsSocial (follow a b s).1.db
follow-IsSocial a b s h = elim (follow_outcome a b s) [
  | inl (same, inl kept) ↦ rw (same, kept) h
  | inl (same, inr lifted) ↦ rw (same, lifted) (unblock-IsOpen (is_block a b) _ _ h)
  | inr (differ, ba, free, grown, inl (ab, kept)) ↦
      rw (grown, kept) (follow-IsOpen a b s.db.follows s.db.blocks differ free ab ba h)
  | inr (differ, ba, free, grown, inr lifted) ↦
      rw (grown, lifted)
        (follow-IsOpen a b s.db.follows (delete_where (is_block a b) s.db.blocks) differ free
          (first-delete (is_block a b) s.db.blocks)
          (first-delete_none (is_block b a) (is_block a b) s.db.blocks ba)
          (unblock-IsOpen (is_block a b) _ _ h))
]

block-IsSocial : (a b : ℕ) (s : Session) → IsSocial s.db → IsSocial (block a b s).1.db
block-IsSocial a b s h =
    let cut = delete_where (is_follow b a) (delete_where (is_follow a b) s.db.follows) in
    let severed : IsOpen cut s.db.blocks =
      unfollow-IsOpen (is_follow b a) _ _ (unfollow-IsOpen (is_follow a b) _ _ h) in
    elim (block_outcome a b s) [
      | inl (same, kept) ↦ rw (same, kept) h
      | inr (differ, after, inl kept) ↦ rw (after, kept) severed
      | inr (differ, after, inr (free, grown)) ↦
          rw (after, grown)
            (block-IsOpen a b cut s.db.blocks differ free
              (first-delete_none (is_follow a b) (is_follow b a) _
                (first-delete (is_follow a b) s.db.follows))
              (first-delete (is_follow b a) (delete_where (is_follow a b) s.db.follows)) severed)
    ]

unfollow-IsSocial : (a b : ℕ) (s : Session) → IsSocial s.db → IsSocial (unfollow a b s).1.db
unfolding unfollow
unfollow-IsSocial a b s h = unfollow-IsOpen (is_follow a b) s.db.follows s.db.blocks h

unblock-IsSocial : (a b : ℕ) (s : Session) → IsSocial s.db → IsSocial (unblock a b s).1.db
unfolding unblock
unblock-IsSocial a b s h = unblock-IsOpen (is_block a b) s.db.follows s.db.blocks h

Step-IsSocial : {w v : World} → Step w v → IsSocial w.db → IsSocial v.db
Step-IsSocial (follows w a b) h =
    run_request-keeps IsSocial (follow a b) w h (follow-IsSocial a b (fresh w) h)
Step-IsSocial (unfollows w a b) h =
    run_request-keeps IsSocial (unfollow a b) w h (unfollow-IsSocial a b (fresh w) h)
Step-IsSocial (blocks w a b) h =
    run_request-keeps IsSocial (block a b) w h (block-IsSocial a b (fresh w) h)
Step-IsSocial (unblocks w a b) h =
    run_request-keeps IsSocial (unblock a b) w h (unblock-IsSocial a b (fresh w) h)

-- Whatever transactions follow, unfollow, block and unblock users, in any order and refused or not: where
-- it held before, follows and blocks are unique, nobody follows or blocks themselves, and nobody follows a
-- user whom they block or who blocks them.
pub Reach-IsOpen :
    {w v : World} → IsOpen w.db.follows w.db.blocks → Reach w v → IsOpen v.db.follows v.db.blocks
Reach-IsOpen h here = h
Reach-IsOpen h (next r st) = Step-IsSocial st (Reach-IsOpen h r)
