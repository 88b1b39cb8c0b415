-- ===== src/Reading/Sessions/Totals.antt =====
-- How the writes of the reading repositories move counts and sums over their tables.
use book_club.Prelude.{
  ℕ, ◌+◌, ◌≤◌, ◌≡◌, Bool, List, [], ◌∷◌, arith, ◌==◌, if◌then◌else◌, first, first-none,
  update_where, sum_where, count_where, share, sum_where-append, sum_where-update_one, Option-cases,
  inl, inr,
}
use book_club.Reading.Models.{UserGrade, DailyReadingStat}
use book_club.Reading.Repository.{upsert_day, new_grade}
use book_club.Reading.Sessions.Effects.{grade_of, ensured, find-ensured}

abbrev pub day_of : ℕ → DailyReadingStat → Bool
day_of user_id r = r.user_id == user_id

abbrev pub grade_row_of : ℕ → UserGrade → Bool
grade_row_of user_id r = r.user_id == user_id

-- The upsert adds its seconds to the reader's days, and nothing to anybody else's.
pub sum_where-upsert_day :
    (u user_id date add_seconds add_sessions : ℕ) (rows : List DailyReadingStat)
    → sum_where
        (day_of u)
        (λ r. r.total_seconds)
        (upsert_day user_id date add_seconds add_sessions rows)
      ≡ sum_where (day_of u) (λ r. r.total_seconds) rows + (if user_id == u then add_seconds else 0)
sum_where-upsert_day u user_id date add_seconds add_sessions [] = ground arith
sum_where-upsert_day u user_id date add_seconds add_sessions (r ∷ rows) =
    ground (arith, sum_where-upsert_day u user_id date add_seconds add_sessions rows)

-- `get_or_init` adds a row only where there is none, and a new row has no seconds.
count_where-ensured :
    (u user_id : ℕ) (rows : List UserGrade)
    → count_where (grade_row_of u) rows ≤ 1
    → count_where (grade_row_of u) (ensured user_id rows) ≤ 1
count_where-ensured u user_id rows h = elim (Option-cases (first (grade_row_of user_id) rows)) [
  | inr (row, e) ↦ rw e h
  | inl e ↦ rw e (
      ground (
        arith,
        sum_where-append (grade_row_of u) (λ r. 1) rows (new_grade user_id ∷ []),
        first-none (grade_row_of user_id) rows e,
      ))
]

sum_where-ensured :
    (u user_id : ℕ) (rows : List UserGrade)
    → sum_where (grade_row_of u) (λ r. r.total_seconds) (ensured user_id rows)
      ≡ sum_where (grade_row_of u) (λ r. r.total_seconds) rows
sum_where-ensured u user_id rows = elim (Option-cases (first (grade_row_of user_id) rows)) [
  | inr (row, e) ↦ rw e
  | inl e ↦ rw e (
      ground (
        arith,
        sum_where-append (grade_row_of u) (λ r. r.total_seconds) rows (new_grade user_id ∷ []),
      ))
]

module _ (user_id : ℕ) (g : UserGrade → UserGrade) (rows : List UserGrade)
    (unique : count_where (grade_row_of user_id) rows ≤ 1) where
  abbrev written : List UserGrade
  written = update_where (grade_row_of user_id) g (ensured user_id rows)

  -- A write to the reader's row keeps the rows of everybody as many.
  pub count_where-written :
      (u : ℕ)
      → (g (grade_of user_id rows)).user_id ≡ (grade_of user_id rows).user_id
      → count_where (grade_row_of u) rows ≤ 1
      → count_where (grade_row_of u) written ≤ 1
  count_where-written u same h = ground (
    arith,
    sum_where-update_one (grade_row_of u) (grade_row_of user_id) (λ r. 1) g (ensured user_id rows)
        (grade_of user_id rows) (count_where-ensured user_id user_id rows unique)
        (find-ensured user_id rows),
    count_where-ensured u user_id rows h,
  )

  -- A write to the reader's row exchanges that row's share of a sum.
  pub sum_where-written :
      (u : ℕ)
      → let f = λ (r : UserGrade). r.total_seconds in
        sum_where (grade_row_of u) f written + share (grade_row_of u) f (grade_of user_id rows)
        ≡ sum_where (grade_row_of u) f rows + share (grade_row_of u) f (g (grade_of user_id rows))
  sum_where-written u = rw (← sum_where-ensured u user_id rows) (
      sum_where-update_one (grade_row_of u) (grade_row_of user_id) (λ r. r.total_seconds) g
        (ensured user_id rows) (grade_of user_id rows)
        (count_where-ensured user_id user_id rows unique) (find-ensured user_id rows))
