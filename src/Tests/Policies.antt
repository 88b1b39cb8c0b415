-- ===== src/Tests/Policies.antt =====
-- The grade and streak policies on concrete totals, days and balances.
use book_club.Prelude.{ℕ, ◌+◌, ◌-◌, ◌≤◌, ◌≡◌, some, List, [], ◌∷◌, ltb, arith}
use book_club.Reading.GradePolicy.{calculate_grade_tier}
use book_club.Reading.GradePolicy.Thresholds.{IsHighest, calculate_grade_tier-IsHighest}
use book_club.Reading.StreakPolicy.{apply_streak_with_shield}
use book_club.Reading.StreakPolicy.Runs.{
  CountsRuns, counters, bridged, read_on, counters-CountsRuns,
}
use book_club.Reading.StreakPolicy.Shields.{
  IsSound, apply_streak_with_shield-IsSound, shield_protects,
}

calculate_grade_tier-IsHighest_example : IsHighest 6 100000 (calculate_grade_tier 6 100000)
calculate_grade_tier-IsHighest_example = calculate_grade_tier-IsHighest 6 100000

-- A gap without a shield, two sessions on a day, and a gap that a shield bridges.
abbrev visits : List (ℕ × ℕ)
visits = (16, 0) ∷ (15, 1) ∷ (12, 0) ∷ (11, 0) ∷ (11, 0) ∷ (5, 0) ∷ []

counters-CountsRuns_example :
    let (last, days, longest) = counters visits in
    (last ≡ some 16) × CountsRuns (read_on visits) (16 - bridged visits) days longest
counters-CountsRuns_example =
    counters-CountsRuns 16 0 ((15, 1) ∷ (12, 0) ∷ (11, 0) ∷ (11, 0) ∷ (5, 0) ∷ [])
      (omega arith, (omega arith, (omega arith, (omega arith, (omega arith, tt)))))

apply_streak_with_shield-IsSound_example :
    let (days', longest', last', shields') = apply_streak_with_shield (some 10) 6 8 2 11 in
    IsSound (some last') days' longest' shields'
apply_streak_with_shield-IsSound_example =
    apply_streak_with_shield-IsSound (some 10) 6 8 2 11
      (record { started = λ e. omega arith; covered = omega arith; capped = omega arith })

shield_protects_example :
    let (days', longest', last', shields') = apply_streak_with_shield (some 10) 6 8 2 20 in
    (6 ≤ days') × (10 ≤ last') × (ltb shields' 2 ≡ ltb (10 + 1) 20) × (2 ≤ shields' + 1)
shield_protects_example = shield_protects 10 6 8 2 20 (omega arith) (omega arith)
