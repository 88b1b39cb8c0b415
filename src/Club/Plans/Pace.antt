-- ===== src/Club/Plans/Pace.antt =====
-- The pace that a reading plan sets.
use book_club.Prelude.{ℕ, ◌+◌, ◌-◌, ◌*◌, ◌≤◌, ◌<◌, ◌≡◌, Bool, true, Option, arith}
use native.Mathlib.Nat.{mul-div-le, lt-mul-div-succ}
use book_club.Core.Session.{Session, ok}
use book_club.Club.Models.{ClubReadingPlan}
use book_club.Club.Plans.{
  ceil_div, plan_weeks, elapsed_weeks, progress_pct, pages_or_default, create_reading_plan,
}

-- The ceiling is the least number of parts of a size that hold the whole.
ceil_div_least : (a b : ℕ) → 1 ≤ b → (a ≤ b * ceil_div a b) × (b * ceil_div a b < a + b)
ceil_div_least a b h =
    let below = mul-div-le (a + (b - 1)) b in
    let above = lt-mul-div-succ (a + (b - 1)) {b = b} (omega arith) in
    (omega (arith, below, above), omega (arith, below, above))

plan_weeks_positive : (start_date end_date : ℕ) → 1 ≤ plan_weeks start_date end_date
unfolding plan_weeks
plan_weeks_positive start_date end_date = omega arith

-- When a reading plan is made, its creator is a Pro user, its weeks cover the days from the start to the
-- end, its weekly pages add up to the pages of the book in those weeks, with less than one page a week to
-- spare, and no fewer weeks cover the days where the plan does not end before it starts.
pub create_reading_plan_pace :
    (is_pro : ℕ → Bool) (page_count : ℕ → Option ℕ) (id now c u book_id start_date end_date : ℕ)
    (s s' : Session) (plan : ClubReadingPlan)
    → create_reading_plan is_pro page_count id now c u book_id start_date end_date s ≡ (ok plan, s')
    → let weeks = plan_weeks start_date end_date in
      let pages = pages_or_default (page_count book_id) in
      (is_pro u ≡ true)
      × (pages ≤ weeks * plan.weekly_pages)
      × (weeks * plan.weekly_pages < pages + weeks)
      × (end_date + 1 ≤ start_date + 7 * weeks)
      × (start_date ≤ end_date → start_date + 7 * weeks < end_date + 8)
unfolding create_reading_plan plan_weeks
create_reading_plan_pace is_pro page_count id now c u book_id start_date end_date s s' plan done =
    let weeks = plan_weeks start_date end_date in
    let pages = pages_or_default (page_count book_id) in
    let (whole, least) = ceil_div_least pages weeks (plan_weeks_positive start_date end_date) in
    let weekly : plan.weekly_pages ≡ ceil_div pages weeks = ground (arith, done) in
    let pro : is_pro u ≡ true = ground (arith, done) in
    (pro, rw weekly whole, rw weekly least, omega arith, λ h. omega arith)

-- PP
progress_pct_bounded :
    (today current_page : ℕ) (plan : ClubReadingPlan)
    → let elapsed = elapsed_weeks today plan in
      let (n, d) = progress_pct current_page plan.weekly_pages elapsed in
      (1 ≤ elapsed) × (elapsed ≤ plan_weeks plan.start_date plan.end_date) × (1 ≤ d) × (n ≤ d)
unfolding elapsed_weeks progress_pct plan_weeks
progress_pct_bounded today current_page plan = ground arith
