-- ===== src/Tests/Data.antt =====
-- The tables of one reader, 7, who owns a book that was completed and one that is being read, with a
-- running session, and of the challenges and badges that the reader can win.
use book_club.Prelude.{ℕ, ◌*◌, ◌+◌, true, false, none, some, [], ◌∷◌}
use book_club.Core.Database.{Database, empty_database}
use book_club.Core.Session.{Session, World}
use book_club.Book.Models.{UserBook, completed, reading}
use book_club.Reading.Models.{DateTime, ReadingSession, timer}
use book_club.Shield.Models.{ShieldPurchase}
use book_club.Challenge.Models.{
  Badge, Challenge, ChallengeParticipant, UserBadge, books_count, reading_time,
}

abbrev read_book : UserBook
read_book = record { id = 1; user_id = 7; book_id = 100; status = completed; finished_at = none }

abbrev pub open_book : UserBook
open_book = record { id = 2; user_id = 7; book_id = 101; status = reading; finished_at = none }

-- Noon of the day 738000, and ninety minutes later.
abbrev pub noon : ℕ
noon = (738000 * 24 + 12) * 3600000000

abbrev pub later : DateTime
later = record { instant = noon + 5400000000; date = 738000 }

abbrev pub running : ReadingSession
running = record {
  id = 50;
  user_id = 7;
  user_book_id = 2;
  started_at = noon;
  ended_at = none;
  duration_sec = none;
  source = timer;
  device = none;
  note = none;
}

abbrev pub marathon : Challenge
marathon = record {
  id = 30;
  challenge_type = reading_time;
  target_value = 5000;
  starts_at = 0;
  ends_at = noon * 2;
  badge_id = some 40;
  is_limited = true;
  ends_at_exclusive = some noon;
  badge_id_exclusive = some 41;
}

abbrev pub shelf : Challenge
shelf = record {
  id = 31;
  challenge_type = books_count;
  target_value = 2;
  starts_at = 0;
  ends_at = noon * 2;
  badge_id = none;
  is_limited = false;
  ends_at_exclusive = none;
  badge_id_exclusive = none;
}

abbrev pub runner : ChallengeParticipant
runner = record { challenge_id = 30; user_id = 7; current_value = 100; achieved_at = none }

abbrev pub gold : Badge
gold = record { id = 40; name = "gold" }

abbrev pub rare : Badge
rare = record { id = 41; name = "rare" }

abbrev old_badge : UserBadge
old_badge = record { user_id = 7; badge_id = 42; pin_order = 5 }

abbrev pub bought : ShieldPurchase
bought = record {
  id = 60;
  user_id = 7;
  product_id = "shield_3";
  shields_granted = 3;
  receipt_data = "receipt";
  refunded_at = none;
}

abbrev pub tables : Database
tables = record empty_database {
  books = 100 ∷ 101 ∷ [];
  user_books = read_book ∷ open_book ∷ [];
  challenges = marathon ∷ shelf ∷ [];
  challenge_participants = runner ∷ [];
  badges = gold ∷ rare ∷ [];
  user_badges = old_badge ∷ [];
  shield_purchases = bought ∷ [];
}

abbrev pub idle : Session
idle = record { db = tables; queue = [] }

-- The same with the running session.
abbrev pub busy : Session
busy = record { db = record tables { reading_sessions = running ∷ [] }; queue = [] }

abbrev pub idle_world : World
idle_world = record { db = tables; published = [] }

abbrev pub busy_world : World
busy_world = record { db = busy.db; published = [] }
