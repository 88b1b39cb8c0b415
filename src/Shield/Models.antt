-- ===== src/Shield/Models.antt =====
-- backend/app/domains/shield/models.py
use book_club.Prelude.{ℕ, Option, String}

pub record ShieldPurchase : Type 0 where
  pub id : ℕ
  pub user_id : ℕ
  pub product_id : String
  pub shields_granted : ℕ
  pub receipt_data : String
  pub refunded_at : Option ℕ

pub record ShieldPurchaseResult : Type 0 where
  pub shields_granted : ℕ
  pub total_shields : ℕ
