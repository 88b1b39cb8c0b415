-- ===== src/Social/Repository.antt =====
-- backend/app/domains/social/repository.py: SocialRepository, the statements on follows, blocks and reports.
-- An insert that a unique constraint refuses rolls the session back, which the request that it fails does
-- anyway.
use text.Mathlib.Text.{◌==◌ as str_eq}
use book_club.Prelude.{ℕ, Bool, String, [], ◌∷◌, ◌++◌, ◌&&◌, ◌==◌, is_some, first, delete_where}
use book_club.Core.Exceptions.{follow_already_exists, block_already_exists, conflict_error}
use book_club.Core.Database.{Database}
use book_club.Core.Session.{Action, gets, modify, raise_if, ◌>>=◌, ◌>>◌}
use book_club.Social.Models.{Follow, Block, Report}

abbrev pub new_follow : ℕ → ℕ → Follow
new_follow follower_id followee_id = record { follower_id = follower_id; followee_id = followee_id }

abbrev pub is_follow : ℕ → ℕ → Follow → Bool
is_follow follower_id followee_id f = f.follower_id == follower_id && f.followee_id == followee_id

abbrev pub is_following : ℕ → ℕ → Database → Bool
is_following follower_id followee_id db =
    is_some (first (is_follow follower_id followee_id) db.follows)

unfoldable pub follow : ℕ → ℕ → Action (Unit {0})
follow follower_id followee_id = do
  taken ← gets (is_following follower_id followee_id)
  raise_if taken (conflict_error follow_already_exists)
  modify (λ db. record db { follows = db.follows ++ new_follow follower_id followee_id ∷ [] })

unfoldable pub unfollow : ℕ → ℕ → Action (Unit {0})
unfollow follower_id followee_id =
    modify
      (λ db. record db { follows = delete_where (is_follow follower_id followee_id) db.follows })

abbrev pub new_block : ℕ → ℕ → Block
new_block blocker_id blocked_id = record { blocker_id = blocker_id; blocked_id = blocked_id }

abbrev pub is_block : ℕ → ℕ → Block → Bool
is_block blocker_id blocked_id b = b.blocker_id == blocker_id && b.blocked_id == blocked_id

abbrev pub is_blocked : ℕ → ℕ → Database → Bool
is_blocked blocker_id blocked_id db = is_some (first (is_block blocker_id blocked_id) db.blocks)

unfoldable pub block : ℕ → ℕ → Action (Unit {0})
block blocker_id blocked_id = do
  taken ← gets (is_blocked blocker_id blocked_id)
  raise_if taken (conflict_error block_already_exists)
  modify (λ db. record db { blocks = db.blocks ++ new_block blocker_id blocked_id ∷ [] })

unfoldable pub unblock : ℕ → ℕ → Action (Unit {0})
unblock blocker_id blocked_id =
    modify (λ db. record db { blocks = delete_where (is_block blocker_id blocked_id) db.blocks })

abbrev pub has_reported : ℕ → String → ℕ → Database → Bool
has_reported reporter_id target_type target_id db = is_some (
    first
      (λ r.
        r.reporter_id == reporter_id
        && str_eq r.target_type target_type
        && r.target_id == target_id)
      db.reports)

unfoldable pub report : ℕ → String → ℕ → String → Action (Unit {0})
report reporter_id target_type target_id reason =
    let row : Report = record {
      reporter_id = reporter_id;
      target_type = target_type;
      target_id = target_id;
      reason = reason;
    } in
    modify (λ db. record db { reports = db.reports ++ row ∷ [] })
