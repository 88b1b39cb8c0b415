-- ===== src/Reading/Repository.antt =====
-- backend/app/domains/reading/repository.py: the repositories of sessions, daily stats and grades. A row's id
-- is a fresh uuid4, given here as an argument.
use book_club.Prelude.{
  ℕ, ◌+◌, Bool, Option, none, some, String, List, [], ◌∷◌, ◌++◌, ◌&&◌, not, ◌==◌, if◌then◌else◌,
  first, is_some, update_where,
}
use book_club.Core.Exceptions.{
  active_session_exists, session_not_found, not_found_error, conflict_error,
}
use book_club.Core.Database.{Database}
use book_club.Core.Session.{Action, pure, gets, require, raise_if, modify, ◌>>=◌, ◌>>◌}
use book_club.Reading.Models.{ReadingSession, timer, manual, DailyReadingStat, UserGrade}

-- ReadingSessionRepository

abbrev pub is_active : ℕ → ReadingSession → Bool
is_active user_id r = r.user_id == user_id && not (is_some r.ended_at)

abbrev pub get_active_session : ℕ → Database → Option ReadingSession
get_active_session user_id db = first (is_active user_id) db.reading_sessions

abbrev pub get_by_id : ℕ → Database → Option ReadingSession
get_by_id session_id db = first (λ r. r.id == session_id) db.reading_sessions

abbrev pub add_session : ReadingSession → Database → Database
add_session row db = record db { reading_sessions = db.reading_sessions ++ row ∷ [] }

-- The partial unique index on user_id WHERE ended_at IS NULL refuses a second active row at the flush.
unfoldable pub create_started : ℕ → ℕ → ℕ → ℕ → Option String → Action ReadingSession
create_started id user_id user_book_id started_at device =
    let row : ReadingSession = record {
      id = id;
      user_id = user_id;
      user_book_id = user_book_id;
      started_at = started_at;
      ended_at = none;
      duration_sec = none;
      source = timer;
      device = device;
      note = none;
    } in
    do
      existing ← gets (get_active_session user_id)
      raise_if (is_some existing) (conflict_error active_session_exists)
      modify (add_session row)
      pure row

abbrev pub stamped : ℕ → ℕ → ReadingSession → ReadingSession
stamped ended_at duration_sec r = record r {
  ended_at = some ended_at;
  duration_sec = some duration_sec;
}

abbrev pub stamp_session : ℕ → ℕ → ℕ → Database → Database
stamp_session session_id ended_at duration_sec db = record db {
  reading_sessions =
      update_where (λ r. r.id == session_id) (stamped ended_at duration_sec) db.reading_sessions;
}

-- A session that was ended before is returned as it is.
unfoldable pub end_session : ℕ → ℕ → ℕ → Action ReadingSession
end_session session_id ended_at duration_sec = do
  row ← require (get_by_id session_id) (not_found_error session_not_found)
  if is_some row.ended_at then pure row else do
    modify (stamp_session session_id ended_at duration_sec)
    pure (stamped ended_at duration_sec row)

unfoldable pub create_manual : ℕ → ℕ → ℕ → ℕ → ℕ → ℕ → Option String → Action ReadingSession
create_manual id user_id user_book_id started_at ended_at duration_sec note =
    let row : ReadingSession = record {
      id = id;
      user_id = user_id;
      user_book_id = user_book_id;
      started_at = started_at;
      ended_at = some ended_at;
      duration_sec = some duration_sec;
      source = manual;
      device = none;
      note = note;
    } in
    do modify (add_session row); pure row

-- DailyStatRepository

abbrev pub is_day : ℕ → ℕ → DailyReadingStat → Bool
is_day user_id date r = r.user_id == user_id && r.date == date

-- INSERT … ON CONFLICT (user_id, date) DO UPDATE
abbrev pub upsert_day : ℕ → ℕ → ℕ → ℕ → List DailyReadingStat → List DailyReadingStat
upsert_day user_id date add_seconds add_sessions [] =
    record {
      user_id = user_id;
      date = date;
      total_seconds = add_seconds;
      session_count = add_sessions;
    }
    ∷ []
upsert_day user_id date add_seconds add_sessions (r ∷ rows) =
    let rest = upsert_day user_id date add_seconds add_sessions rows in
    if is_day user_id date r
    then record r {
      total_seconds = r.total_seconds + add_seconds;
      session_count = r.session_count + add_sessions;
    }
      ∷ rows
    else r ∷ rest

unfoldable pub upsert : ℕ → ℕ → ℕ → ℕ → Action (Unit {0})
upsert user_id date add_seconds add_sessions = modify (λ db. record db {
  daily_reading_stats = upsert_day user_id date add_seconds add_sessions db.daily_reading_stats;
})

-- UserGradeRepository

abbrev pub find_grade : ℕ → Database → Option UserGrade
find_grade user_id db = first (λ r. r.user_id == user_id) db.user_grades

-- The row that the INSERT of `get_or_init` makes, with the columns' defaults.
abbrev pub new_grade : ℕ → UserGrade
new_grade user_id = record {
  user_id = user_id;
  grade = 1;
  tier = 1;
  total_books = 0;
  total_seconds = 0;
  streak_days = 0;
  longest_streak = 0;
  streak_last_date = none;
  streak_shields = 0;
}

abbrev pub add_grade : UserGrade → Database → Database
add_grade row db = record db { user_grades = db.user_grades ++ row ∷ [] }

init_grade : ℕ → Option UserGrade → Action UserGrade
init_grade user_id (some existing) = pure existing
init_grade user_id none = do modify (add_grade (new_grade user_id)); pure (new_grade user_id)

unfoldable pub get_or_init : ℕ → Action UserGrade
unfolding init_grade
get_or_init user_id = do existing ← gets (find_grade user_id); init_grade user_id existing

-- The keyword arguments of `update_snapshot`; an absent one is None.
pub record Snapshot : Type 0 where
  pub total_books : Option ℕ
  pub total_seconds_delta : Option ℕ
  pub grade : Option ℕ
  pub tier : Option ℕ
  pub streak_days : Option ℕ
  pub longest_streak : Option ℕ
  pub streak_last_date : Option ℕ
  pub streak_shields : Option ℕ

-- if value is not None: column = value
abbrev pub assign {ℓ} : {A : Type ℓ} → Option A → A → A
assign none old = old
assign (some new) old = new

abbrev pub assign_date : Option ℕ → Option ℕ → Option ℕ
assign_date none old = old
assign_date (some new) old = some new

abbrev pub snapshot_row : Snapshot → UserGrade → UserGrade
snapshot_row w row = record row {
  total_books = assign w.total_books row.total_books;
  total_seconds = row.total_seconds + assign w.total_seconds_delta 0;
  grade = assign w.grade row.grade;
  tier = assign w.tier row.tier;
  streak_days = assign w.streak_days row.streak_days;
  longest_streak = assign w.longest_streak row.longest_streak;
  streak_last_date = assign_date w.streak_last_date row.streak_last_date;
  streak_shields = assign w.streak_shields row.streak_shields;
}

abbrev pub write_grade : ℕ → (UserGrade → UserGrade) → Database → Database
write_grade user_id f db = record db {
  user_grades = update_where (λ r. r.user_id == user_id) f db.user_grades;
}

unfoldable pub update_snapshot : ℕ → Snapshot → Action UserGrade
unfolding get_or_init
update_snapshot user_id w = do
  row ← get_or_init user_id
  modify (write_grade user_id (snapshot_row w))
  pure (snapshot_row w row)

abbrev pub with_shields : ℕ → UserGrade → UserGrade
with_shields shields row = record row { streak_shields = shields }

unfoldable pub update_streak_shields : ℕ → ℕ → Action UserGrade
unfolding get_or_init
update_streak_shields user_id shields = do
  row ← get_or_init user_id
  modify (write_grade user_id (with_shields shields))
  pure (with_shields shields row)
