-- ===== src/Reading/Goals/Windows.antt =====
-- The windows of goals against the weeks, months and years of the calendar.
use book_club.Prelude.{ℕ, ◌≤◌, ◌<◌, ◌≡◌, arith}
use book_club.Reading.Models.{GoalPeriod, weekly, monthly, yearly}
use book_club.Reading.Goals.{Calendar, next_first, compute_window}

-- What datetime documents of a date's year and month: the dates of a month are those from its first day to
-- the day before the first of the next month, and a year ends on the 31st of December.
pub record IsCalendar (c : Calendar) : Type 0 where
  pub after_first : (d : ℕ) → 1 ≤ d → c.date (c.year d) (c.month d) 1 ≤ d
  pub before_next : (d : ℕ) → 1 ≤ d → d < next_first c d
  pub same_month :
      (d e : ℕ)
      → 1 ≤ d
      → c.date (c.year d) (c.month d) 1 ≤ e
      → e < next_first c d
      → (c.year e ≡ c.year d) × (c.month e ≡ c.month d)
  pub same_year :
      (d e : ℕ)
      → 1 ≤ d
      → c.date (c.year d) 1 1 ≤ e
      → e ≤ c.date (c.year d) 12 31
      → c.year e ≡ c.year d

-- With a calendar whose months and years are as datetime documents them, every day of the window of a
-- date, whose ordinal is at least 1, has that same window: the windows of a period do not overlap.
pub compute_window_partition :
    (c : Calendar) (period : GoalPeriod) (anchor d : ℕ)
    → IsCalendar c
    → 1 ≤ anchor
    → (compute_window c period anchor).0 ≤ d
    → d ≤ (compute_window c period anchor).1
    → compute_window c period d ≡ compute_window c period anchor
unfolding compute_window
compute_window_partition c weekly anchor d cal pos lo hi = ground arith
compute_window_partition c monthly anchor d cal pos lo hi =
    let (y, m) = cal.same_month anchor d pos lo (omega (arith, cal.before_next anchor pos)) in
    ground (arith, y, m)
compute_window_partition c yearly anchor d cal pos lo hi = rw (cal.same_year anchor d pos lo hi)
