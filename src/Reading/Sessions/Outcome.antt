-- ===== src/Reading/Sessions/Outcome.antt =====
-- What the end of a timer session (Reading.Service.end_session) means for each row that a reader can look up.
use book_club.Prelude.{
  ℕ, ◌+◌, ◌*◌, ◌-◌, ◌/◌, ◌≡◌, refl, sym, ap, inl, inr, Bool, false, none, some, List, [], ◌∷◌, ◌++◌,
  append-nil, ◌&&◌, ◌||◌, arith, ◌==◌, if◌then◌else◌, ltb, first, first-some, first-update,
  first-update_other, first-append_other, update_where, sum_where, Bool-cases, Option-cases,
}
use book_club.Prelude.Int.{ℤ, pos, negsuc}
use book_club.Core.Database.{Database}
use book_club.Core.Events.{Event, reading_session_completed, user_grade_recomputed}
use book_club.Core.Session.{Session, Result, ok}
use book_club.Feed.Models.{FeedEvent, streak_milestone}
use book_club.Book.Repository.{count_completed_books}
use book_club.Reading.GradePolicy.{calculate_grade_tier, next_threshold}
use book_club.Reading.StreakPolicy.{apply_streak_with_shield}
use book_club.Reading.Models.{
  DateTime, ReadingSession, DailyReadingStat, UserGrade, SessionCompletion,
}
use book_club.Reading.Repository.{new_grade, get_by_id, stamped, snapshot_row, upsert_day}
use book_club.Reading.Service.{reconcile_duration, summary_of, snapshot_of, end_session}
use book_club.Reading.Sessions.Effects.{grade_of, ensured, find-ensured}
use book_club.Reading.Sessions.Ending.{
  MayEnd, with_milestone, ended_db, ended_events, end_session_effect,
}

-- The whole seconds between the two instants, less a pause that is not negative.
abbrev pub seconds_between : ℕ → ℕ → ℤ → ℕ
seconds_between started_at ended_at (pos n) = (ended_at - started_at - n * 1000) / 1000000
seconds_between started_at ended_at (negsuc n) = (ended_at - started_at) / 1000000

reconcile_duration-between :
    (started_at ended_at : ℕ) (paused_ms : ℤ)
    → reconcile_duration started_at ended_at paused_ms
      ≡ seconds_between started_at ended_at paused_ms
unfolding reconcile_duration
reconcile_duration-between started_at ended_at (pos n) = ground arith
reconcile_duration-between started_at ended_at (negsuc n) = ground arith

-- What a user reads on a date: the seconds, and the sessions.
abbrev pub on_date : ℕ → ℕ → DailyReadingStat → Bool
on_date user_id date r = r.user_id == user_id && r.date == date

abbrev pub seconds_on : ℕ → ℕ → Database → ℕ
seconds_on user_id date db =
    sum_where (on_date user_id date) (λ r. r.total_seconds) db.daily_reading_stats

abbrev pub sessions_on : ℕ → ℕ → Database → ℕ
sessions_on user_id date db =
    sum_where (on_date user_id date) (λ r. r.session_count) db.daily_reading_stats

-- The row of a session that ended.
abbrev pub over : ℕ → ℕ → ReadingSession → ReadingSession
over ended_at d r = record r { ended_at = some ended_at; duration_sec = some d }

-- The reader's totals after a session of d seconds on a date, with `books` completed books.
abbrev pub row_after : ℕ → ℕ → ℕ → UserGrade → UserGrade
row_after books d date before =
    let (grade, tier) = calculate_grade_tier books (before.total_seconds + d) in
    let (days, longest, last, shields) =
      apply_streak_with_shield before.streak_last_date before.streak_days before.longest_streak
        before.streak_shields date in
    record {
      user_id = before.user_id;
      grade = grade;
      tier = tier;
      total_books = books;
      total_seconds = before.total_seconds + d;
      streak_days = days;
      longest_streak = longest;
      streak_last_date = some last;
      streak_shields = shields;
    }

abbrev pub milestones : ℕ → ℕ → List FeedEvent
milestones user_id n =
    if n == 3 || n == 7 || n == 14 || n == 30 || n == 60 || n == 100
    then record { user_id = user_id; kind = streak_milestone n } ∷ []
    else []

-- The events of the session, the second only if the grade or the tier moved.
abbrev pub announcements : ReadingSession → ℕ → ℕ → UserGrade → UserGrade → List Event
announcements r d date before after =
    reading_session_completed (record {
      user_id = r.user_id;
      user_book_id = r.user_book_id;
      session_id = r.id;
      date = date;
      duration_sec = d;
      source = "timer";
    })
    ∷ (if after.grade == before.grade && after.tier == before.tier
        then []
        else user_grade_recomputed (record {
          user_id = r.user_id;
          old_grade = before.grade;
          old_tier = before.tier;
          new_grade = after.grade;
          new_tier = after.tier;
          streak_days = after.streak_days;
        })
          ∷ [])

-- What a call that ended the session r after d seconds answered and left.
pub record Ended (ended_at : DateTime) (d : ℕ) (r : ReadingSession) (before after : UserGrade)
    (s s' : Session) (answer : Result SessionCompletion) : Type 0 where
  pub answered :
      answer
      ≡ ok (record {
        session = over ended_at.instant d r;
        grade = record {
          grade = after.grade;
          tier = after.tier;
          total_books = after.total_books;
          total_seconds = after.total_seconds;
          streak_days = after.streak_days;
          longest_streak = after.longest_streak;
          streak_shields = after.streak_shields;
          next_grade_thresholds = next_threshold after.grade;
        };
        grade_up = ltb before.grade after.grade;
      })
  pub sessions :
      (x : ℕ)
      → get_by_id x s'.db
        ≡ (if x == r.id then some (over ended_at.instant d r) else get_by_id x s.db)
  pub seconds :
      (u date : ℕ)
      → seconds_on u date s'.db
        ≡ seconds_on u date s.db + (if u == r.user_id && date == ended_at.date then d else 0)
  pub counts :
      (u date : ℕ)
      → sessions_on u date s'.db
        ≡ sessions_on u date s.db + (if u == r.user_id && date == ended_at.date then 1 else 0)
  pub totals :
      (u : ℕ)
      → grade_of u s'.db.user_grades
        ≡ (if u == r.user_id then after else grade_of u s.db.user_grades)
  pub recorded : s'.db.feed_events ≡ s.db.feed_events ++ milestones r.user_id after.streak_days
  pub staged : s'.queue ≡ s.queue ++ announcements r d ended_at.date before after

sum_where-upsert :
    (u date v e seconds sessions : ℕ) (rows : List DailyReadingStat)
    → sum_where (on_date u date) (λ r. r.total_seconds) (upsert_day v e seconds sessions rows)
      ≡ sum_where (on_date u date) (λ r. r.total_seconds) rows
        + (if u == v && date == e then seconds else 0)
sum_where-upsert u date v e seconds sessions [] = ground arith
sum_where-upsert u date v e seconds sessions (r ∷ rows) =
    ground (arith, sum_where-upsert u date v e seconds sessions rows)

count-upsert :
    (u date v e seconds sessions : ℕ) (rows : List DailyReadingStat)
    → sum_where (on_date u date) (λ r. r.session_count) (upsert_day v e seconds sessions rows)
      ≡ sum_where (on_date u date) (λ r. r.session_count) rows
        + (if u == v && date == e then sessions else 0)
count-upsert u date v e seconds sessions [] = ground arith
count-upsert u date v e seconds sessions (r ∷ rows) =
    ground (arith, count-upsert u date v e seconds sessions rows)

get_by_id-stamped :
    (x id t d : ℕ) (r : ReadingSession) (rows : List ReadingSession)
    → first (λ q. q.id == id) rows ≡ some r
    → first (λ q. q.id == x) (update_where (λ q. q.id == id) (stamped t d) rows)
      ≡ (if x == id then some (over t d r) else first (λ q. q.id == x) rows)
get_by_id-stamped x id t d r rows h = elim (Bool-cases (x == id)) [
  | inl e ↦
      let same : x ≡ id = ground arith in
      rw (e, same) (first-update (λ q. q.id == id) (stamped t d) rows r (λ q. refl) h)
  | inr e ↦ rw e (
      first-update_other (λ q. q.id == x) (λ q. q.id == id) (stamped t d) rows (λ q. refl)
        (λ q k. ground arith))
]

first-ensured :
    (u v : ℕ) (rows : List UserGrade)
    → (u == v) ≡ false
    → first (λ r. r.user_id == u) (ensured v rows) ≡ first (λ r. r.user_id == u) rows
first-ensured u v rows e = elim (Option-cases (first (λ (r : UserGrade). r.user_id == v) rows)) [
  | inl new ↦ rw new (first-append_other (λ r. r.user_id == u) rows (new_grade v) (ground arith))
  | inr (row, old) ↦ rw old refl
]

grade_of-written :
    (u v : ℕ) (g : UserGrade → UserGrade) (rows : List UserGrade)
    → ((r : UserGrade) → (g r).user_id ≡ r.user_id)
    → grade_of u (update_where (λ r. r.user_id == v) g (ensured v rows))
      ≡ (if u == v then g (grade_of v rows) else grade_of u rows)
grade_of-written u v g rows same = elim (Bool-cases (u == v)) [
  | inl e ↦
      let equal : u ≡ v = ground arith in
      rw
        (
          e,
          equal,
          first-update (λ (r : UserGrade). r.user_id == v) g (ensured v rows) (grade_of v rows)
              (λ r. ap (λ x. x == v) (same r)) (find-ensured v rows),
        )
        refl
  | inr e ↦
      rw
        (
          e,
          first-update_other (λ (r : UserGrade). r.user_id == u) (λ r. r.user_id == v) g
              (ensured v rows) (λ r. ap (λ x. x == u) (same r)) (λ r k. ground arith),
          first-ensured u v rows e,
        )
        refl
]

with_milestone-milestones :
    (u n : ℕ) (rows : List FeedEvent) → with_milestone u n rows ≡ rows ++ milestones u n
with_milestone-milestones u n rows = ground (arith, append-nil rows)

left-Ended :
    (ended_at : DateTime) (d : ℕ) (r : ReadingSession) (s : Session)
    → get_by_id r.id s.db ≡ some r
    → let before = grade_of r.user_id s.db.user_grades in
      let books = count_completed_books r.user_id none none s.db in
      let after = row_after books d ended_at.date before in
      Ended ended_at d r before after s
        (record {
          db = ended_db r.user_id r.id d ended_at s.db;
          queue = s.queue ++ ended_events r.user_id r d ended_at before after;
        })
        (ok (record {
          session = stamped ended_at.instant d r;
          grade = summary_of after;
          grade_up = ltb before.grade after.grade;
        }))
left-Ended ended_at d r s found =
    let before = grade_of r.user_id s.db.user_grades in
    let books = count_completed_books r.user_id none none s.db in
    let after = row_after books d ended_at.date before in
    record {
      answered = refl;
      sessions = λ x. get_by_id-stamped x r.id ended_at.instant d r s.db.reading_sessions found;
      seconds =
          λ u date. sum_where-upsert u date r.user_id ended_at.date d 1 s.db.daily_reading_stats;
      counts = λ u date. count-upsert u date r.user_id ended_at.date d 1 s.db.daily_reading_stats;
      totals = λ u.
          grade_of-written u r.user_id (snapshot_row (snapshot_of d after)) s.db.user_grades
            (λ q. refl);
      recorded = with_milestone-milestones r.user_id after.streak_days s.db.feed_events;
      staged = refl;
    }

-- Ending a running session of the caller's that lasted a second or more is answered, and for every row
-- that can be looked up: the session's row is stamped with its end and its seconds, which are the time
-- between the two instants less a pause that is not negative, and no other session changes; on the date of
-- the end the reader has that many seconds and one session more, and no other day of anybody changes; the
-- reader's total grows by the seconds, with the grade and the tier of the new totals, and the streak is
-- taken on, and no other reader's row changes; a streak of 3, 7, 14, 30, 60 or 100 days is recorded in the
-- feed; and the events are staged, the second only if the grade or the tier moved.
pub end_session-Ended :
    (user_id session_id : ℕ) (ended_at : DateTime) (paused_ms : ℤ) (r : ReadingSession)
    (s : Session)
    → MayEnd user_id session_id ended_at paused_ms r s.db
    → let d = seconds_between r.started_at ended_at.instant paused_ms in
      let before = grade_of user_id s.db.user_grades in
      let after = row_after (count_completed_books user_id none none s.db) d ended_at.date before in
      let (answer, s') = end_session user_id session_id ended_at paused_ms s in
      Ended ended_at d r before after s s' answer
end_session-Ended user_id session_id ended_at paused_ms r s h =
    let d = seconds_between r.started_at ended_at.instant paused_ms in
    let before = grade_of user_id s.db.user_grades in
    let after = row_after (count_completed_books user_id none none s.db) d ended_at.date before in
    let effect = end_session_effect user_id session_id ended_at paused_ms r s h in
    let length = reconcile_duration-between r.started_at ended_at.instant paused_ms in
    let (key, one) =
      first-some (λ (q : ReadingSession). q.id == session_id) s.db.reading_sessions r h.found in
    let id : session_id ≡ r.id = ground arith in
    rw (effect, length, sym h.owned, id) (left-Ended ended_at d r s (rw id at h.found))
