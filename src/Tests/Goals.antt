-- ===== src/Tests/Goals.antt =====
-- Goals of the reader of Tests.Data. The calendar has twelve months of 31 days.
use book_club.Prelude.{◌+◌, ◌-◌, ◌*◌, ◌/◌, ◌%◌, ◌≤◌, ◌≡◌, arith, [], ◌∷◌, first, count_where}
use book_club.Core.Database.{Database}
use book_club.Reading.Models.{Goal, weekly, monthly}
use book_club.Reading.Goals.{Calendar, has_period, active_for, list_active}
use book_club.Reading.Goals.Windows.{IsCalendar}
use book_club.Reading.Goals.Current.{list_active-active_for}
use book_club.Tests.Data.{tables}

abbrev even_months : Calendar
even_months = record {
  year = λ d. (d - 1) / 372;
  month = λ d. (d - 1) % 372 / 31 + 1;
  date = λ y m d. y * 372 + (m - 1) * 31 + d;
}

even_months-IsCalendar : IsCalendar even_months
even_months-IsCalendar = record {
  after_first = λ d p. ground arith;
  before_next = λ d p. ground arith;
  same_month = λ d e p a b. ground arith;
  same_year = λ d e p a b. ground arith;
}

abbrev old_goal : Goal
old_goal = record {
  id = 1;
  user_id = 7;
  period = weekly;
  target_books = 1;
  target_seconds = 3600;
  start_date = 64;
  end_date = 70;
  created_at = 5;
}

abbrev goal_tables : Database
goal_tables = record tables {
  goals =
      old_goal
      ∷ record old_goal { id = 2; created_at = 9 }
      ∷ record old_goal { id = 3; period = monthly }
      ∷ [];
}

list_active-active_for_example :
    (first (has_period weekly) (list_active 7 65 goal_tables) ≡ active_for 7 weekly 65 goal_tables)
    × (count_where (has_period weekly) (list_active 7 65 goal_tables) ≤ 1)
list_active-active_for_example = list_active-active_for 7 65 weekly goal_tables
