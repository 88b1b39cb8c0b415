-- ===== src/Reading/StreakPolicy.antt =====
-- backend/app/domains/reading/streak_policy.py, and the shield rules of service.py around it. A date is
-- its proleptic ordinal, so `+ timedelta(days=1)` is `+ 1`.
pub mod Runs
pub mod Shields
use book_club.Prelude.{
  ℕ, ◌+◌, ◌-◌, ◌%◌, Bool, false, Option, none, some, ◌&&◌, not, ltb, ◌==◌, if◌then◌else◌, max, min,
}

-- (streak_days, longest_streak, last_date)
pub update_streak : Option ℕ → ℕ → ℕ → ℕ → ℕ × ℕ × ℕ
update_streak none previous_streak_days longest_streak session_date =
    (1, max longest_streak 1, session_date)
update_streak (some previous_last_date) previous_streak_days longest_streak session_date =
    if ltb session_date previous_last_date
    then (previous_streak_days, longest_streak, previous_last_date)
    else if session_date == previous_last_date
    then (previous_streak_days, longest_streak, previous_last_date)
    else if session_date == previous_last_date + 1
    then (previous_streak_days + 1, max longest_streak (previous_streak_days + 1), session_date)
    else (1, longest_streak, session_date)

abbrev pub max_streak_shields : ℕ
max_streak_shields = 3

abbrev pub shield_award_interval : ℕ
shield_award_interval = 7

-- The gap that would reset the streak.
abbrev pub gap_reset : Option ℕ → ℕ → Bool
gap_reset none session_date = false
gap_reset (some previous_last_date) session_date = ltb (previous_last_date + 1) session_date

-- (streak_days, longest_streak, last_date, streak_shields)
unfoldable pub apply_streak_with_shield : Option ℕ → ℕ → ℕ → ℕ → ℕ → ℕ × ℕ × ℕ × ℕ
unfolding update_streak
apply_streak_with_shield previous_last_date previous_streak_days longest_streak streak_shields
      session_date =
    let shield_consumed = gap_reset previous_last_date session_date && ltb 0 streak_shields in
    let (streak_days, new_longest, last_date) =
      if shield_consumed
      then (previous_streak_days, longest_streak, session_date)
      else update_streak previous_last_date previous_streak_days longest_streak session_date in
    let new_shields = if shield_consumed then streak_shields - 1 else streak_shields in
    (
      streak_days,
      new_longest,
      last_date,
      if not shield_consumed && ltb 0 streak_days && streak_days % shield_award_interval == 0
          then min max_streak_shields (new_shields + 1)
          else new_shields,
    )
