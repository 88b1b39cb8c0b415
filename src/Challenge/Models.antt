-- ===== src/Challenge/Models.antt =====
-- backend/app/domains/challenge/models.py, without the columns that are only shown. Timestamps are instants.
use book_club.Prelude.{ℕ, Bool, Option, String}

pub data ChallengeType : Type 0 where
  books_count reading_time streak genre : ChallengeType

pub record Badge : Type 0 where
  pub id : ℕ
  pub name : String

pub record Challenge : Type 0 where
  pub id : ℕ
  pub challenge_type : ChallengeType
  pub target_value : ℕ
  pub starts_at : ℕ
  pub ends_at : ℕ
  pub badge_id : Option ℕ
  pub is_limited : Bool
  pub ends_at_exclusive : Option ℕ
  pub badge_id_exclusive : Option ℕ

pub record ChallengeParticipant : Type 0 where
  pub challenge_id : ℕ
  pub user_id : ℕ
  pub current_value : ℕ
  pub achieved_at : Option ℕ

pub record UserBadge : Type 0 where
  pub user_id : ℕ
  pub badge_id : ℕ
  pub pin_order : ℕ
