-- ===== src/Reading/GradePolicy/Ladder.antt =====
-- The loops of the grade policy over any ladder whose rows ascend.
use book_club.Prelude.{
  ℕ, ◌+◌, ◌*◌, ◌≤◌, ◌<◌, ◌≡◌, refl, ◌⊎◌, inl, inr, true, some, List, [], ◌∷◌, ◌&&◌, ◌==◌, arith,
  Memᴰ, Bool-cases, ap,
}
use book_club.Reading.GradePolicy.{TierRow, meets, step, climb, scan_tiers, grade_rows, scan_grades}

-- The place of a grade and a tier in the order of the ladder.
abbrev pub rank : ℕ → ℕ → ℕ
rank g t = 3 * g + t

abbrev pub Ascending : ℕ → List TierRow → Type 0
Ascending m [] = Unit
Ascending m (r ∷ rows) = (m < rank r.grade r.tier) × Ascending (rank r.grade r.tier) rows

Ascending-weaken : (m n : ℕ) (rows : List TierRow) → m ≤ n → Ascending n rows → Ascending m rows
Ascending-weaken m n [] h a = tt
Ascending-weaken m n (r ∷ rows) h a = (omega arith, a.1)

step_above :
    (b s : ℕ) (now : ℕ × ℕ) (r : TierRow)
    → rank now.0 now.1 < rank r.grade r.tier
    → let (g, t) = step b s now r in
      (rank now.0 now.1 ≤ rank g t)
      × (rank g t ≤ rank r.grade r.tier)
      × (meets b s r ≡ true → rank g t ≡ rank r.grade r.tier)
step_above b s now r h = ground arith

step-Ascending :
    (b s : ℕ) (now : ℕ × ℕ) (r : TierRow) (rows : List TierRow)
    → Ascending (rank now.0 now.1) (r ∷ rows)
    → let (g, t) = step b s now r in Ascending (rank g t) rows
step-Ascending b s now r rows a =
    let (g, t) = step b s now r in
    Ascending-weaken (rank g t) (rank r.grade r.tier) rows (step_above b s now r a.0).1 a.1

-- The loop never goes down.
pub climb_above :
    (b s : ℕ) (now : ℕ × ℕ) (rows : List TierRow)
    → Ascending (rank now.0 now.1) rows
    → let (g, t) = climb b s now rows in rank now.0 now.1 ≤ rank g t
unfolding climb
climb_above b s now [] a = omega arith
climb_above b s now (r ∷ rows) a = omega (
  arith,
  step_above b s now r a.0,
  climb_above b s (step b s now r) rows (step-Ascending b s now r rows a),
)

-- No row that is met lies above the result.
pub climb_highest :
    (b s : ℕ) (now : ℕ × ℕ) (r : TierRow) (rows : List TierRow)
    → Ascending (rank now.0 now.1) rows
    → Memᴰ r rows
    → meets b s r ≡ true
    → let (g, t) = climb b s now rows in rank r.grade r.tier ≤ rank g t
unfolding climb
climb_highest b s now r [] a m met = elim m [ ]
climb_highest b s now r (r' ∷ rows) a (Memᴰ.head e) met =
    let here : rank r.grade r.tier ≡ rank r'.grade r'.tier =
      ap (λ (q : TierRow). rank q.grade q.tier) e in
    let met' : meets b s r' ≡ true = rw e at met in
    omega (
      arith,
      here,
      (step_above b s now r' a.0).2 met',
      climb_above b s (step b s now r') rows (step-Ascending b s now r' rows a),
    )
climb_highest b s now r (r' ∷ rows) a (Memᴰ.tail m) met =
    climb_highest b s (step b s now r') r rows (step-Ascending b s now r' rows a) m met

-- The result is the start or a row that is met.
pub climb-met :
    (b s : ℕ) (now : ℕ × ℕ) (rows : List TierRow)
    → (climb b s now rows ≡ now)
      ⊎ ((r : TierRow) × Memᴰ r rows
          × (meets b s r ≡ true)
          × (climb b s now rows ≡ (r.grade, r.tier)))
unfolding climb
climb-met b s now [] = inl refl
climb-met b s now (r ∷ rows) = elim (Bool-cases (meets b s r)) [
  | inl met ↦
      rw (met, climb)
        (elim (climb-met b s (r.grade, r.tier) rows) [
          | inl e ↦ inr (r, Memᴰ.head refl, met, e)
          | inr (r', m, met', e) ↦ inr (r', Memᴰ.tail m, met', e)
        ])
  | inr unmet ↦
      rw (unmet, climb)
        (elim (climb-met b s now rows) [
          | inl e ↦ inl e
          | inr (r', m, met', e) ↦ inr (r', Memᴰ.tail m, met', e)
        ])
]

-- A row that `scan_tiers` hands over stands behind the row that it found.
pub scan_tiers-above :
    (g t m : ℕ) (books seconds : ℕ) (rows : List TierRow)
    → Ascending m rows
    → scan_tiers g t rows ≡ some (books, seconds)
    → (r : TierRow) × Memᴰ r rows
      × (rank g t < rank r.grade r.tier)
      × (r.books ≡ books)
      × (r.seconds ≡ seconds)
unfolding scan_tiers
scan_tiers-above g t m books seconds [] a h = cc
scan_tiers-above g t m books seconds (r ∷ []) a h = ground arith
scan_tiers-above g t m books seconds (r ∷ r' ∷ rows) a h =
    elim (Bool-cases (r.grade == g && r.tier == t)) [
      | inl e ↦ (r', Memᴰ.tail (Memᴰ.head refl), ground arith, ground arith, ground arith)
      | inr e ↦
          let (q, mem, above, eb, es) =
            scan_tiers-above g t (rank r.grade r.tier) books seconds (r' ∷ rows) a.1 (rw e at h) in
          (q, Memᴰ.tail mem, above, eb, es)
    ]

-- The row opens the grade after `g`, with these requirements.
abbrev pub Opens : ℕ → ℕ → ℕ → TierRow → Type 0
Opens g books seconds r =
    (r.grade ≡ g + 1) × (r.tier ≡ 1) × (r.books ≡ books) × (r.seconds ≡ seconds)

-- A row that `scan_grades` hands over opens the next grade.
pub scan_grades-mem :
    (g books seconds : ℕ) (rows : List TierRow)
    → scan_grades g (grade_rows rows) ≡ some (books, seconds)
    → (r : TierRow) × Memᴰ r rows × Opens g books seconds r
unfolding scan_grades
scan_grades-mem g books seconds [] h = cc
scan_grades-mem g books seconds (r ∷ rows) h = elim (Bool-cases (r.tier == 1)) [
  | inr above ↦ later (scan_grades-mem g books seconds rows (rw above at h))
  | inl opens ↦ elim (Bool-cases (r.grade == g + 1)) [
    | inl found ↦ (r, Memᴰ.head refl, ground arith)
    | inr other ↦ later (scan_grades-mem g books seconds rows (rw (opens, scan_grades, other) at h))
  ]
]
  where
    later :
        (q : TierRow) × Memᴰ q rows × Opens g books seconds q
        → (q : TierRow) × Memᴰ q (r ∷ rows) × Opens g books seconds q
    later (q, m, rest) = (q, Memᴰ.tail m, rest)
