-- ===== src/Reading/Sessions/Effects.antt =====
-- Each operation as one equation: its result, and the tables after it.
use book_club.Prelude.{
  ℕ, ◌≡◌, ap, Option, none, some, List, [], ◌∷◌, ◌++◌, arith, ◌==◌, ==_refl, first, first-append,
  update_where, Option-cases, inl, inr,
}
use book_club.Core.Session.{Session, ok}
use book_club.Reading.Models.{UserGrade}
use book_club.Book.Repository.{count_completed_books}
use book_club.Reading.Repository.{
  new_grade, get_or_init, Snapshot, snapshot_row, update_snapshot, upsert, upsert_day,
}
use book_club.Reading.Service.{completed_row, summary_of, snapshot_of, apply_session_completion}

abbrev find_row : ℕ → List UserGrade → Option UserGrade
find_row user_id = first (λ r. r.user_id == user_id)

abbrev current_or_new : ℕ → Option UserGrade → UserGrade
current_or_new user_id none = new_grade user_id
current_or_new user_id (some row) = row

-- The row of user_grades that `get_or_init` returns.
abbrev pub grade_of : ℕ → List UserGrade → UserGrade
grade_of user_id rows = current_or_new user_id (find_row user_id rows)

abbrev with_new : ℕ → Option UserGrade → List UserGrade → List UserGrade
with_new user_id none rows = rows ++ new_grade user_id ∷ []
with_new user_id (some row) rows = rows

-- The table after `get_or_init`.
abbrev pub ensured : ℕ → List UserGrade → List UserGrade
ensured user_id rows = with_new user_id (find_row user_id rows) rows

pub get_or_init_effect :
    (user_id : ℕ) (s : Session)
    → get_or_init user_id s ≡ (
      ok (grade_of user_id s.db.user_grades),
      record s { db = record s.db { user_grades = ensured user_id s.db.user_grades } },
    )
unfolding get_or_init
get_or_init_effect user_id s = ground arith

pub find-ensured :
    (user_id : ℕ) (rows : List UserGrade)
    → find_row user_id (ensured user_id rows) ≡ some (grade_of user_id rows)
find-ensured user_id rows = elim (Option-cases (find_row user_id rows)) [
  | inl e ↦
      rw e (first-append (λ r. r.user_id == user_id) rows (new_grade user_id) e (==_refl user_id))
  | inr (row, e) ↦ rw e e
]

pub ensured-ensured :
    (user_id : ℕ) (rows : List UserGrade)
    → ensured user_id (ensured user_id rows) ≡ ensured user_id rows
ensured-ensured user_id rows =
    ap (λ o. with_new user_id o (ensured user_id rows)) (find-ensured user_id rows)

grade_of-ensured :
    (user_id : ℕ) (rows : List UserGrade)
    → grade_of user_id (ensured user_id rows) ≡ grade_of user_id rows
grade_of-ensured user_id rows = ap (current_or_new user_id) (find-ensured user_id rows)

update_snapshot_effect :
    (user_id : ℕ) (w : Snapshot) (s : Session)
    → update_snapshot user_id w s ≡ (
      ok (snapshot_row w (grade_of user_id s.db.user_grades)),
      record s {
        db = record s.db {
          user_grades =
              update_where
                (λ r. r.user_id == user_id)
                (snapshot_row w)
                (ensured user_id s.db.user_grades);
        };
      },
    )
unfolding update_snapshot
update_snapshot_effect user_id w s = ground arith

apply_session_completion_effect :
    (user_id duration_sec date : ℕ) (s : Session)
    → let current = grade_of user_id s.db.user_grades in
      let books = count_completed_books user_id none none s.db in
      let after = completed_row books duration_sec date current in
      apply_session_completion user_id duration_sec date s ≡ (
        ok (summary_of after),
        record s {
          db = record s.db {
            daily_reading_stats = upsert_day user_id date duration_sec 1 s.db.daily_reading_stats;
            user_grades =
                update_where
                  (λ r. r.user_id == user_id)
                  (snapshot_row (snapshot_of duration_sec after))
                  (ensured user_id s.db.user_grades);
          };
        },
      )
unfolding apply_session_completion upsert count_completed_books
apply_session_completion_effect user_id duration_sec date s =
    let s1 : Session = record s {
      db = record s.db {
        daily_reading_stats = upsert_day user_id date duration_sec 1 s.db.daily_reading_stats;
      };
    } in
    let s2 : Session = record s1 {
      db = record s1.db { user_grades = ensured user_id s.db.user_grades };
    } in
    let after =
      completed_row (count_completed_books user_id none none s.db) duration_sec date
        (grade_of user_id s.db.user_grades) in
    ground (
      arith,
      get_or_init_effect user_id s1,
      update_snapshot_effect user_id (snapshot_of duration_sec after) s2,
      ensured-ensured user_id s.db.user_grades,
    )

-- The same after a `get_or_init`, which changes nothing in it.
pub apply_session_completion_initialised :
    (user_id duration_sec date : ℕ) (s : Session)
    → let rows = s.db.user_grades in
      let after =
        completed_row
          (count_completed_books user_id none none s.db)
          duration_sec
          date
          (grade_of user_id rows) in
      apply_session_completion user_id duration_sec date
        (record s { db = record s.db { user_grades = ensured user_id rows } })
      ≡ (
        ok (summary_of after),
        record s {
          db = record s.db {
            daily_reading_stats = upsert_day user_id date duration_sec 1 s.db.daily_reading_stats;
            user_grades =
                update_where
                  (λ r. r.user_id == user_id)
                  (snapshot_row (snapshot_of duration_sec after))
                  (ensured user_id rows);
          };
        },
      )
unfolding count_completed_books
apply_session_completion_initialised user_id duration_sec date s = rw (
  apply_session_completion_effect user_id duration_sec date
      (record s { db = record s.db { user_grades = ensured user_id s.db.user_grades } }),
  ensured-ensured,
  grade_of-ensured,
)
