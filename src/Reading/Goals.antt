-- ===== src/Reading/Goals.antt =====
-- The goals of backend/app/domains/reading: GoalRepository, `_compute_window` and create_goal. The calendar
-- of Python's datetime is a parameter; a date is its ordinal, and the ordinal 1 is a Monday.
pub mod Windows
pub mod Current
use book_club.Prelude.{
  ℕ, ◌+◌, ◌-◌, ◌%◌, Bool, true, false, Option, List, [], ◌∷◌, ◌++◌, ◌&&◌, ◌||◌, ltb, leb, ◌==◌,
  if◌then◌else◌, first, select,
}
use book_club.Core.Database.{Database}
use book_club.Core.Session.{Action, pure, modify, ◌>>=◌, ◌>>◌}
use book_club.Reading.Models.{Goal, GoalPeriod, weekly, monthly, yearly}

-- date.year, date.month, and date(year, month, day).toordinal()
pub record Calendar : Type 0 where
  pub year : ℕ → ℕ
  pub month : ℕ → ℕ
  pub date : ℕ → ℕ → ℕ → ℕ

-- date.weekday()
abbrev pub weekday : ℕ → ℕ
weekday d = (d + 6) % 7

-- The first day of the month after the month of `anchor`.
abbrev pub next_first : Calendar → ℕ → ℕ
next_first c anchor =
    if c.month anchor == 12
    then c.date (c.year anchor + 1) 1 1
    else c.date (c.year anchor) (c.month anchor + 1) 1

-- `_compute_window`
unfoldable pub compute_window : Calendar → GoalPeriod → ℕ → ℕ × ℕ
compute_window c weekly anchor = let monday = anchor - weekday anchor in (monday, monday + 6)
compute_window c monthly anchor =
    (c.date (c.year anchor) (c.month anchor) 1, next_first c anchor - 1)
compute_window c yearly anchor = (c.date (c.year anchor) 1 1, c.date (c.year anchor) 12 31)

abbrev pub add_goal : Goal → Database → Database
add_goal row db = record db { goals = db.goals ++ row ∷ [] }

-- `create_goal` with GoalRepository.create. `on_date` is given, or is the date of the clock.
unfoldable pub create_goal : Calendar → ℕ → ℕ → ℕ → GoalPeriod → ℕ → ℕ → ℕ → Action Goal
create_goal c id now user_id period target_books target_seconds anchor =
    let (start_date, end_date) = compute_window c period anchor in
    let row : Goal = record {
      id = id;
      user_id = user_id;
      period = period;
      target_books = target_books;
      target_seconds = target_seconds;
      start_date = start_date;
      end_date = end_date;
      created_at = now;
    } in
    do modify (add_goal row); pure row

abbrev pub period_index : GoalPeriod → ℕ
period_index weekly = 0
period_index monthly = 1
period_index yearly = 2

abbrev pub has_period : GoalPeriod → Goal → Bool
has_period period g = period_index g.period == period_index period

-- Goal.user_id == user_id, Goal.start_date <= on_date, Goal.end_date >= on_date
abbrev pub is_running : ℕ → ℕ → Goal → Bool
is_running user_id on_date g =
    g.user_id == user_id && leb g.start_date on_date && leb on_date g.end_date

-- ORDER BY created_at DESC, id DESC
abbrev pub newer : Goal → Goal → Bool
newer g h = ltb h.created_at g.created_at || (g.created_at == h.created_at && ltb h.id g.id)

unfoldable pub insert : Goal → List Goal → List Goal
insert g [] = g ∷ []
insert g (h ∷ goals) = let rest = insert g goals in if newer g h then g ∷ h ∷ goals else h ∷ rest

unfoldable pub newest_first : List Goal → List Goal
newest_first [] = []
newest_first (g ∷ goals) = insert g (newest_first goals)

unfoldable pub active_for : ℕ → GoalPeriod → ℕ → Database → Option Goal
unfolding newest_first
active_for user_id period on_date db =
    first (λ g. true)
      (newest_first (select (has_period period) (select (is_running user_id on_date) db.goals)))

-- row.period in seen
abbrev pub is_seen : GoalPeriod → List GoalPeriod → Bool
is_seen period [] = false
is_seen period (p ∷ seen) = period_index period == period_index p || is_seen period seen

-- The loop that keeps the first goal of each period.
unfoldable pub dedupe : List GoalPeriod → List Goal → List Goal
dedupe seen [] = []
dedupe seen (g ∷ goals) = elim (is_seen g.period seen) [
  | true ↦ dedupe seen goals
  | false ↦ g ∷ dedupe (g.period ∷ seen) goals
]

unfoldable pub list_active : ℕ → ℕ → Database → List Goal
unfolding newest_first dedupe
list_active user_id on_date db =
    dedupe [] (newest_first (select (is_running user_id on_date) db.goals))
