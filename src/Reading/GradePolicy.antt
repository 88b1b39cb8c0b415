-- ===== src/Reading/GradePolicy.antt =====
-- backend/app/domains/reading/grade_policy.py: the ladder of grades and tiers.
pub mod Ladder
pub mod Thresholds
use book_club.Prelude.{
  ℕ, ◌+◌, ◌*◌, Bool, Option, none, some, List, [], ◌∷◌, map, ◌&&◌, leb, ◌==◌, if◌then◌else◌, select,
}

-- A row (grade, tier, books_required, seconds_required).
pub record TierRow : Type 0 where
  pub grade : ℕ
  pub tier : ℕ
  pub books : ℕ
  pub seconds : ℕ

abbrev pub row : ℕ → ℕ → ℕ → ℕ → TierRow
row g t b s = record { grade = g; tier = t; books = b; seconds = s }

abbrev pub tier_thresholds : List TierRow
tier_thresholds =
    row 1 1 0 0
    ∷ row 1 2 1 (2 * 3600)
    ∷ row 1 3 2 (6 * 3600)
    ∷ row 2 1 3 (10 * 3600)
    ∷ row 2 2 5 (20 * 3600)
    ∷ row 2 3 7 (35 * 3600)
    ∷ row 3 1 10 (50 * 3600)
    ∷ row 3 2 17 (83 * 3600)
    ∷ row 3 3 23 (117 * 3600)
    ∷ row 4 1 30 (150 * 3600)
    ∷ row 4 2 53 (250 * 3600)
    ∷ row 4 3 77 (375 * 3600)
    ∷ row 5 1 100 (500 * 3600)
    ∷ []

-- The rows with tier 1, as (grade, books, seconds).
abbrev pub grade_rows : List TierRow → List (ℕ × ℕ × ℕ)
grade_rows rows = map (λ r. (r.grade, r.books, r.seconds)) (select (λ r. r.tier == 1) rows)

abbrev pub grade_thresholds : List (ℕ × ℕ × ℕ)
grade_thresholds = grade_rows tier_thresholds

-- total_books >= b and total_seconds >= s
abbrev pub meets : ℕ → ℕ → TierRow → Bool
meets total_books total_seconds r = leb r.books total_books && leb r.seconds total_seconds

-- One round of the loop of `calculate_grade_tier`.
abbrev pub step : ℕ → ℕ → ℕ × ℕ → TierRow → ℕ × ℕ
step total_books total_seconds now r =
    if meets total_books total_seconds r then (r.grade, r.tier) else now

-- The loop of `calculate_grade_tier`, from the grade and tier so far.
pub climb : ℕ → ℕ → ℕ × ℕ → List TierRow → ℕ × ℕ
climb total_books total_seconds now [] = now
climb total_books total_seconds now (r ∷ rows) =
    climb total_books total_seconds (step total_books total_seconds now r) rows

unfoldable pub calculate_grade_tier : ℕ → ℕ → ℕ × ℕ
unfolding climb
calculate_grade_tier total_books total_seconds =
    climb total_books total_seconds (1, 1) tier_thresholds

unfoldable pub calculate_grade : ℕ → ℕ → ℕ
calculate_grade total_books total_seconds = (calculate_grade_tier total_books total_seconds).0

-- What stands behind the row that was found, if anything does.
abbrev pub requirements_of_head : List TierRow → Option (ℕ × ℕ)
requirements_of_head [] = none
requirements_of_head (r ∷ rows) = some (r.books, r.seconds)

-- The loop of `next_tier_threshold`, which returns at the first row that matches.
pub scan_tiers : ℕ → ℕ → List TierRow → Option (ℕ × ℕ)
scan_tiers current_grade current_tier [] = none
scan_tiers current_grade current_tier (r ∷ rows) =
    let rest = scan_tiers current_grade current_tier rows in
    if r.grade == current_grade && r.tier == current_tier then requirements_of_head rows else rest

unfoldable pub next_tier_threshold : ℕ → ℕ → Option (ℕ × ℕ)
unfolding scan_tiers
next_tier_threshold current_grade current_tier =
    scan_tiers current_grade current_tier tier_thresholds

-- GRADE_THRESHOLDS[-1][0], from the grade of the row before.
pub last_grade : ℕ → List (ℕ × ℕ × ℕ) → ℕ
last_grade g [] = g
last_grade g ((g', b, s) ∷ rows) = last_grade g' rows

-- The loop of `next_threshold`.
pub scan_grades : ℕ → List (ℕ × ℕ × ℕ) → Option (ℕ × ℕ)
scan_grades current_grade [] = none
scan_grades current_grade ((g, b, s) ∷ rows) =
    let rest = scan_grades current_grade rows in
    if g == current_grade + 1 then some (b, s) else rest

unfoldable pub next_threshold : ℕ → Option (ℕ × ℕ)
unfolding last_grade scan_grades
next_threshold current_grade =
    if leb (last_grade 0 grade_thresholds) current_grade
    then none
    else scan_grades current_grade grade_thresholds
