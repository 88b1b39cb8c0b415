-- ===== src/Notification/Models.antt =====
-- backend/app/domains/notification/models.py: rows of the inbox and of the preferences. The titles and texts
-- are left out.
use book_club.Prelude.{ℕ, Bool, Option, String}

pub data NotificationType : Type 0 where
  reaction comment grade_up weekly_report follow_received badge_earned streak_warning
        subscription_reminder agenda_published discussion_commented :
      NotificationType

-- The routing payload: the post; the post and the comment; the new grade and tier; the follower; the badge.
pub data Payload : Type 0 where
  of_post : ℕ → Payload
  of_comment : ℕ → ℕ → Payload
  of_grade : ℕ → ℕ → Payload
  of_follower : ℕ → Payload
  of_badge : ℕ → String → Payload

pub record Notification : Type 0 where
  pub id : ℕ
  pub user_id : ℕ
  pub ntype : NotificationType
  pub payload : Payload
  pub read_at : Option ℕ
  pub created_at : ℕ

-- `overrides` is a map with an entry for the types that the user set.
pub record NotificationPreference : Type 0 where
  pub user_id : ℕ
  pub overrides : NotificationType → Option Bool
