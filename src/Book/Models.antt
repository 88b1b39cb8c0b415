-- ===== src/Book/Models.antt =====
-- backend/app/domains/book/models.py: the columns of user_books that the modelled code reads or writes.
use book_club.Prelude.{ℕ, Bool, true, false, Option}

pub data UserBookStatus : Type 0 where
  reading completed paused dropped wishlist : UserBookStatus

pub record UserBook : Type 0 where
  pub id : ℕ
  pub user_id : ℕ
  pub book_id : ℕ
  pub status : UserBookStatus
  pub finished_at : Option ℕ

abbrev pub is_completed : UserBookStatus → Bool
is_completed completed = true
is_completed _ = false
