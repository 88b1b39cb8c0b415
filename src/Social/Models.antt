-- ===== src/Social/Models.antt =====
-- backend/app/domains/social/models.py, without the ids and the times, which only lists of users read.
use book_club.Prelude.{ℕ, String}

pub record Follow : Type 0 where
  pub follower_id : ℕ
  pub followee_id : ℕ

pub record Block : Type 0 where
  pub blocker_id : ℕ
  pub blocked_id : ℕ

pub record Report : Type 0 where
  pub reporter_id : ℕ
  pub target_type : String
  pub target_id : ℕ
  pub reason : String
