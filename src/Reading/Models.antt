-- ===== src/Reading/Models.antt =====
-- backend/app/domains/reading/models.py: the rows of the reading tables, and the values of ports.py.
-- A timestamp is its instant in microseconds; a date is its ordinal.
use book_club.Prelude.{ℕ, Bool, Option, String}

-- An aware datetime that a client sends: its instant, and the date that it shows in its own zone.
pub record DateTime : Type 0 where
  pub instant : ℕ
  pub date : ℕ

pub data ReadingSessionSource : Type 0 where
  timer manual : ReadingSessionSource

pub record ReadingSession : Type 0 where
  pub id : ℕ
  pub user_id : ℕ
  pub user_book_id : ℕ
  pub started_at : ℕ
  pub ended_at : Option ℕ
  pub duration_sec : Option ℕ
  pub source : ReadingSessionSource
  pub device : Option String
  pub note : Option String

pub record DailyReadingStat : Type 0 where
  pub user_id : ℕ
  pub date : ℕ
  pub total_seconds : ℕ
  pub session_count : ℕ

pub record UserGrade : Type 0 where
  pub user_id : ℕ
  pub grade : ℕ
  pub tier : ℕ
  pub total_books : ℕ
  pub total_seconds : ℕ
  pub streak_days : ℕ
  pub longest_streak : ℕ
  pub streak_last_date : Option ℕ
  pub streak_shields : ℕ

pub data GoalPeriod : Type 0 where
  weekly monthly yearly : GoalPeriod

pub record Goal : Type 0 where
  pub id : ℕ
  pub user_id : ℕ
  pub period : GoalPeriod
  pub target_books : ℕ
  pub target_seconds : ℕ
  pub start_date : ℕ
  pub end_date : ℕ
  pub created_at : ℕ

pub record GradeSummary : Type 0 where
  pub grade : ℕ
  pub tier : ℕ
  pub total_books : ℕ
  pub total_seconds : ℕ
  pub streak_days : ℕ
  pub longest_streak : ℕ
  pub streak_shields : ℕ
  pub next_grade_thresholds : Option (ℕ × ℕ)

pub record SessionCompletion : Type 0 where
  pub session : ReadingSession
  pub grade : GradeSummary
  pub grade_up : Bool
