-- ===== src/Reading/GradePolicy/Thresholds.antt =====
-- The answers of the grade policy against the ladder.
use book_club.Prelude.{
  ℕ, ◌≤◌, ◌≡◌, refl, ap, ◌∙◌, inl, inr, true, some, List, [], ◌∷◌, arith, Memᴰ, All, All-mem,
}
use book_club.Reading.GradePolicy.{
  TierRow, row, tier_thresholds, grade_thresholds, meets, climb, calculate_grade_tier,
  calculate_grade, next_tier_threshold, next_threshold, scan_grades,
}
use book_club.Reading.GradePolicy.Ladder.{
  rank, Ascending, climb_above, climb_highest, climb-met, scan_tiers-above, scan_grades-mem,
}

-- The row of the ladder that the policy answers with.
pub record IsHighest (books seconds : ℕ) (answer : ℕ × ℕ) : Type 0 where
  pub at : TierRow
  pub listed : Memᴰ at tier_thresholds
  pub met : meets books seconds at ≡ true
  pub answered : answer ≡ (at.grade, at.tier)
  pub highest :
      (r : TierRow)
      → Memᴰ r tier_thresholds
      → meets books seconds r ≡ true
      → rank r.grade r.tier ≤ rank answer.0 answer.1

-- The requirements of a row are inside the reader's totals.
meets_of_le :
    (r : TierRow) (b s books seconds : ℕ)
    → r.books ≡ b
    → r.seconds ≡ s
    → b ≤ books
    → s ≤ seconds
    → meets books seconds r ≡ true
meets_of_le r b s books seconds eb es hb hs = ground arith

meets_mono :
    (b s b' s' : ℕ) (r : TierRow) → b ≤ b' → s ≤ s' → meets b s r ≡ true → meets b' s' r ≡ true
meets_mono b s b' s' r hb hs h = ground arith

-- The ladder above its first row.
abbrev ladder_tail : List TierRow → List TierRow
ladder_tail [] = []
ladder_tail (r ∷ rows) = rows

abbrev InRange : TierRow → Type 0
InRange r = (1 ≤ r.grade) × (r.grade ≤ 5) × (1 ≤ r.tier) × (r.tier ≤ 3)

ladder-InRange : All InRange tier_thresholds
ladder-InRange = omega arith

ladder-Ascending : Ascending (rank 1 1) (ladder_tail tier_thresholds)
ladder-Ascending = omega arith

start_met : (books seconds : ℕ) → meets books seconds (row 1 1 0 0) ≡ true
start_met books seconds = ground arith

-- The grade and tier are those of a row of the ladder whose two requirements are met, and no row that is
-- met stands higher.
pub calculate_grade_tier-IsHighest :
    (books seconds : ℕ) → IsHighest books seconds (calculate_grade_tier books seconds)
unfolding calculate_grade_tier
calculate_grade_tier-IsHighest books seconds = elim (climb-met books seconds (1, 1) rows) [
  | inl e ↦ record {
    at = row 1 1 0 0;
    listed = Memᴰ.head refl;
    met = start_met books seconds;
    answered = answer_at (1, 1) e;
    highest = highest;
  }
  | inr (r, m, met', e) ↦ record {
    at = r;
    listed = Memᴰ.tail m;
    met = met';
    answered = answer_at (r.grade, r.tier) e;
    highest = highest;
  }
]
  where
    rows : List TierRow
    rows = ladder_tail tier_thresholds

    first_step : calculate_grade_tier books seconds ≡ climb books seconds (1, 1) rows
    first_step = ap (λ (now : ℕ × ℕ). climb books seconds now rows) (ground arith)

    answer_at :
        (now : ℕ × ℕ)
        → climb books seconds (1, 1) rows ≡ now
        → calculate_grade_tier books seconds ≡ now
    answer_at now e = first_step ∙ e

    highest :
        (r : TierRow)
        → Memᴰ r tier_thresholds
        → meets books seconds r ≡ true
        → rank r.grade r.tier
          ≤ rank (calculate_grade_tier books seconds).0 (calculate_grade_tier books seconds).1
    highest r (Memᴰ.head e) met = rw first_step (
        omega (
          arith,
          climb_above books seconds (1, 1) rows ladder-Ascending,
          ap (λ (q : TierRow). rank q.grade q.tier) e,
        ))
    highest r (Memᴰ.tail m) met =
        rw first_step (climb_highest books seconds (1, 1) r rows ladder-Ascending m met)

-- A reader with at least as many books and seconds stands at least as high on the ladder.
calculate_grade_tier_mono :
    (books seconds books' seconds' : ℕ)
    → books ≤ books'
    → seconds ≤ seconds'
    → rank (calculate_grade_tier books seconds).0 (calculate_grade_tier books seconds).1
      ≤ rank (calculate_grade_tier books' seconds').0 (calculate_grade_tier books' seconds').1
calculate_grade_tier_mono books seconds books' seconds' hb hs =
    let old = calculate_grade_tier-IsHighest books seconds in
    let new = calculate_grade_tier-IsHighest books' seconds' in
    omega (
      arith,
      new.highest old.at old.listed (meets_mono books seconds books' seconds' old.at hb hs old.met),
      ap (λ (q : ℕ × ℕ). rank q.0 q.1) old.answered,
    )

-- The answer always fits the CHECK constraints of user_grades: grade 1 to 5 and tier 1 to 3.
calculate_grade_tier_range :
    (books seconds : ℕ)
    → let (g, t) = calculate_grade_tier books seconds in (1 ≤ g) × (g ≤ 5) × (1 ≤ t) × (t ≤ 3)
calculate_grade_tier_range books seconds =
    let h = calculate_grade_tier-IsHighest books seconds in
    let in_range = All-mem InRange h.listed ladder-InRange in rw h.answered in_range

-- The thresholds that `next_tier_threshold` gives for a reader's grade and tier are not both met yet.
next_tier_threshold_unmet :
    (books seconds target_books target_seconds : ℕ)
    → let (g, t) = calculate_grade_tier books seconds in
      next_tier_threshold g t ≡ some (target_books, target_seconds)
      → ¬ ((target_books ≤ books) × (target_seconds ≤ seconds))
unfolding next_tier_threshold
next_tier_threshold_unmet books seconds target_books target_seconds e h =
    let (g, t) = calculate_grade_tier books seconds in
    let (r, mem, above, eb, es) =
      scan_tiers-above g t 0 target_books target_seconds tier_thresholds (omega arith) e in
    omega (
      arith,
      (calculate_grade_tier-IsHighest books seconds).highest r mem
          (meets_of_le r target_books target_seconds books seconds eb es h.0 h.1),
      above,
    )

-- The thresholds that are shown as the next ones for a reader's grade are not both met yet.
next_threshold_unmet :
    (books seconds target_books target_seconds : ℕ)
    → next_threshold (calculate_grade books seconds) ≡ some (target_books, target_seconds)
    → ¬ ((target_books ≤ books) × (target_seconds ≤ seconds))
unfolding next_threshold calculate_grade
next_threshold_unmet books seconds target_books target_seconds e h =
    let g : ℕ = (calculate_grade_tier books seconds).0 in
    let found : scan_grades g grade_thresholds ≡ some (target_books, target_seconds) =
      ground arith in
    let (r, mem, opens) = scan_grades-mem g target_books target_seconds tier_thresholds found in
    omega (
      arith,
      (calculate_grade_tier-IsHighest books seconds).highest r mem
          (meets_of_le r target_books target_seconds books seconds opens.2 opens.3 h.0 h.1),
      opens,
      calculate_grade_tier_range books seconds,
    )
