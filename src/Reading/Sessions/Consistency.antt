-- ===== src/Reading/Sessions/Consistency.antt =====
-- The invariant that ties the reading tables together, for each session operation.
use book_club.Prelude.{
  ℕ, ◌/◌, ◌≤◌, ◌≡◌, ◌⊎◌, refl, Bool, true, false, Option, none, some, String, List, [], ◌∷◌, ◌&&◌,
  not, arith, ◌==◌, if◌then◌else◌, is_some, first, first-none, first-some, sum_where, count_where,
  sum_where-append, sum_where-update_one, Option-cases, inl, inr,
}
use book_club.Prelude.Int.{ℤ, pos, pos_part, ◌-ℤ◌}
use book_club.Core.Database.{Database}
use book_club.Reading.Models.{DateTime, ReadingSession, ReadingSessionSource, timer, manual}
use book_club.Reading.Repository.{is_active, get_active_session, stamped, snapshot_row, add_session}
use book_club.Core.Session.{Session}
use book_club.Reading.Service.{
  reconcile_duration, snapshot_of, start_session, log_manual_session, end_session,
}
use book_club.Reading.Sessions.Effects.{grade_of}
use book_club.Reading.Sessions.Ending.{MayEnd, ended_db, grade_after}
use book_club.Reading.Sessions.Refusals.{end_session_outcome}
use book_club.Reading.Sessions.Totals.{
  day_of, grade_row_of, sum_where-upsert_day, count_where-written, sum_where-written,
}

abbrev pub has_id : ℕ → ReadingSession → Bool
has_id i r = r.id == i

abbrev pub is_timer : ReadingSessionSource → Bool
is_timer timer = true
is_timer manual = false

-- A timer session of the reader's.
abbrev pub timed : ℕ → ReadingSession → Bool
timed user_id r = r.user_id == user_id && is_timer r.source

abbrev or_zero : Option ℕ → ℕ
or_zero none = 0
or_zero (some n) = n

-- The seconds of a session that was ended.
abbrev pub seconds_read : ReadingSession → ℕ
seconds_read r = if is_some r.ended_at then or_zero r.duration_sec else 0

-- A manual session that is running.
abbrev pub running_manual : ReadingSession → Bool
running_manual r = not (is_some r.ended_at) && not (is_timer r.source)

-- Nobody has two running sessions, ids are unique, each reader has one row of user_grades, and a
-- reader's total is both the sum of the days of the heatmap and the sum of the timer sessions.
pub record IsConsistent (db : Database) : Type 0 where
  pub one_active : (u : ℕ) → count_where (is_active u) db.reading_sessions ≤ 1
  pub ids_unique : (i : ℕ) → count_where (has_id i) db.reading_sessions ≤ 1
  pub manual_ended : count_where running_manual db.reading_sessions ≡ 0
  pub one_grade : (u : ℕ) → count_where (grade_row_of u) db.user_grades ≤ 1
  pub days_add_up :
      (u : ℕ)
      → sum_where (grade_row_of u) (λ r. r.total_seconds) db.user_grades
        ≡ sum_where (day_of u) (λ r. r.total_seconds) db.daily_reading_stats
  pub sessions_add_up :
      (u : ℕ)
      → sum_where (grade_row_of u) (λ r. r.total_seconds) db.user_grades
        ≡ sum_where (timed u) seconds_read db.reading_sessions

-- A row that is found among rows none of which has a property lacks it.
first-lacks :
    (p q : ReadingSession → Bool) (rows : List ReadingSession) (r : ReadingSession)
    → count_where p rows ≡ 0
    → first q rows ≡ some r
    → p r ≡ false
first-lacks p q [] r h e = ground arith
first-lacks p q (x ∷ rows) r h e = ground (arith, first-lacks p q rows r)

pub grade_of-user_id :
    (user_id : ℕ) (db : Database) → (grade_of user_id db.user_grades).user_id ≡ user_id
grade_of-user_id user_id db = elim (Option-cases (first (grade_row_of user_id) db.user_grades)) [
  | inl e ↦ rw e
  | inr (row, e) ↦ rw e (ground (arith, first-some (grade_row_of user_id) db.user_grades row e))
]

-- Ending a session keeps the tables consistent.
ended_db-IsConsistent :
    (user_id session_id : ℕ) (ended_at : DateTime) (paused_ms : ℤ) (r : ReadingSession)
    (db : Database)
    → MayEnd user_id session_id ended_at paused_ms r db
    → IsConsistent db
    → IsConsistent (
        ended_db user_id session_id
          (reconcile_duration r.started_at ended_at.instant paused_ms)
          ended_at
          db)
ended_db-IsConsistent user_id session_id ended_at paused_ms r db m h =
    let d = reconcile_duration r.started_at ended_at.instant paused_ms in
    let g = stamped ended_at.instant d in
    let exchange = λ (p : ReadingSession → Bool) (f : ReadingSession → ℕ).
      sum_where-update_one p (has_id session_id) f g db.reading_sessions r (h.ids_unique session_id)
        m.found in
    let w = snapshot_row (snapshot_of d (grade_after user_id d ended_at db)) in
    let totals = sum_where-written user_id w db.user_grades (h.one_grade user_id) in
    let owner = grade_of-user_id user_id db in
    record {
      one_active = λ u. ground (arith, exchange (is_active u) (λ q. 1), h.one_active u, m.running);
      ids_unique = λ i. ground (arith, exchange (has_id i) (λ q. 1), h.ids_unique i);
      manual_ended = ground (arith, exchange running_manual (λ q. 1), h.manual_ended);
      one_grade = λ u.
          count_where-written user_id w db.user_grades (h.one_grade user_id) u refl (h.one_grade u);
      days_add_up = λ u. ground (
        arith,
        totals u,
        owner,
        h.days_add_up u,
        sum_where-upsert_day u user_id ended_at.date d 1 db.daily_reading_stats,
      );
      sessions_add_up = λ u. ground (
        arith,
        totals u,
        owner,
        h.sessions_add_up u,
        exchange (timed u) seconds_read,
        m.running,
        m.owned,
        first-lacks running_manual (has_id session_id) db.reading_sessions r h.manual_ended m.found,
      );
    }

-- A new row of reading_sessions that is running only where none is, with an id of its own, and with no
-- seconds of a timer yet.
record MayAdd (row : ReadingSession) (db : Database) : Type 0 where
  fresh : count_where (has_id row.id) db.reading_sessions ≡ 0
  alone : first (is_active row.user_id) db.reading_sessions ≡ none ⊎ (is_some row.ended_at ≡ true)
  running_timer : running_manual row ≡ false
  no_seconds : (is_timer row.source && is_some row.ended_at) ≡ false

add_session-IsConsistent :
    (row : ReadingSession) (db : Database)
    → MayAdd row db
    → IsConsistent db
    → IsConsistent (add_session row db)
add_session-IsConsistent row db m h =
    let grows = λ (p : ReadingSession → Bool) (f : ReadingSession → ℕ).
      sum_where-append p f db.reading_sessions (row ∷ []) in
    record {
      one_active = λ u. ground (
        arith,
        grows (is_active u) (λ q. 1),
        h.one_active u,
        m.alone,
        first-none (is_active row.user_id) db.reading_sessions,
      );
      ids_unique = λ i. ground (arith, grows (has_id i) (λ q. 1), h.ids_unique i, m.fresh);
      manual_ended = ground (arith, grows running_manual (λ q. 1), h.manual_ended, m.running_timer);
      one_grade = h.one_grade;
      days_add_up = h.days_add_up;
      sessions_add_up =
          λ u. ground (arith, grows (timed u) seconds_read, h.sessions_add_up u, m.no_seconds);
    }

abbrev started_row : ℕ → ℕ → ℕ → ℕ → Option String → ReadingSession
started_row id now user_id user_book_id device = record {
  id = id;
  user_id = user_id;
  user_book_id = user_book_id;
  started_at = now;
  ended_at = none;
  duration_sec = none;
  source = timer;
  device = device;
  note = none;
}

start_session_outcome :
    (id now user_id user_book_id : ℕ) (device : Option String) (s : Session)
    → let row = started_row id now user_id user_book_id device in
      let after = (start_session id now user_id user_book_id device s).1.db in
      (after ≡ s.db) ⊎ ((get_active_session user_id s.db ≡ none) × (after ≡ add_session row s.db))
unfolding start_session
start_session_outcome id now user_id user_book_id device s = ground arith

-- A call that starts a session with a fresh id keeps the tables consistent, whether it raises or not.
pub start_session-IsConsistent :
    (id now user_id user_book_id : ℕ) (device : Option String) (s : Session)
    → count_where (has_id id) s.db.reading_sessions ≡ 0
    → IsConsistent s.db
    → IsConsistent (start_session id now user_id user_book_id device s).1.db
start_session-IsConsistent id now user_id user_book_id device s fresh h =
    elim (start_session_outcome id now user_id user_book_id device s) [
      | inl same ↦ rw same h
      | inr (alone, added) ↦ rw added (
          add_session-IsConsistent (started_row id now user_id user_book_id device) s.db
            (record { fresh = fresh; alone = inl alone; running_timer = refl; no_seconds = refl })
            h)
    ]

abbrev manual_row : ℕ → ℕ → ℕ → ℕ → ℕ → Option String → ReadingSession
manual_row id user_id user_book_id started_at ended_at note = record {
  id = id;
  user_id = user_id;
  user_book_id = user_book_id;
  started_at = started_at;
  ended_at = some ended_at;
  duration_sec = some (pos_part (pos ended_at -ℤ pos started_at) / 1000000);
  source = manual;
  device = none;
  note = note;
}

log_manual_session_outcome :
    (id user_id user_book_id started_at ended_at : ℕ) (memo : Option String) (s : Session)
    → let row = manual_row id user_id user_book_id started_at ended_at memo in
      let after = (log_manual_session id user_id user_book_id started_at ended_at memo s).1.db in
      (after ≡ s.db) ⊎ (after ≡ add_session row s.db)
unfolding log_manual_session
log_manual_session_outcome id user_id user_book_id started_at ended_at memo s = ground arith

-- A call that logs a manual session with a fresh id keeps the tables consistent, whether it raises or not:
-- a manual session carries no weight in the totals.
pub log_manual_session-IsConsistent :
    (id user_id user_book_id started_at ended_at : ℕ) (note : Option String) (s : Session)
    → count_where (has_id id) s.db.reading_sessions ≡ 0
    → IsConsistent s.db
    → IsConsistent (log_manual_session id user_id user_book_id started_at ended_at note s).1.db
log_manual_session-IsConsistent id user_id user_book_id started_at ended_at note s fresh h =
    elim (log_manual_session_outcome id user_id user_book_id started_at ended_at note s) [
      | inl same ↦ rw same h
      | inr added ↦ rw added (
          add_session-IsConsistent (manual_row id user_id user_book_id started_at ended_at note)
            s.db
            (record { fresh = fresh; alone = inr refl; running_timer = refl; no_seconds = refl }) h)
    ]

-- A call that ends a session keeps the tables consistent, whether it raises or not.
pub end_session-IsConsistent :
    (user_id session_id : ℕ) (ended_at : DateTime) (paused_ms : ℤ) (s : Session)
    → IsConsistent s.db
    → IsConsistent (end_session user_id session_id ended_at paused_ms s).1.db
end_session-IsConsistent user_id session_id ended_at paused_ms s h =
    elim (end_session_outcome user_id session_id ended_at paused_ms s) [
      | inl same ↦ rw same h
      | inr (r, m, ended) ↦
          rw ended (ended_db-IsConsistent user_id session_id ended_at paused_ms r s.db m h)
    ]
