-- ===== src/Core/Events.antt =====
-- The domain events of the reading, book, challenge, feed and social domains
-- (reading/events.py, book/events.py, challenge/events.py, feed/events.py,
-- social/events.py).
use book_club.Prelude.{ℕ, Option, String}
use book_club.Feed.Models.{ReactionType}

pub record ReadingSessionCompleted : Type 0 where
  pub user_id : ℕ
  pub user_book_id : ℕ
  pub session_id : ℕ
  pub date : ℕ
  pub duration_sec : ℕ
  pub source : String

pub record UserGradeRecomputed : Type 0 where
  pub user_id : ℕ
  pub old_grade : ℕ
  pub old_tier : ℕ
  pub new_grade : ℕ
  pub new_tier : ℕ
  pub streak_days : ℕ

pub record UserBookCompleted : Type 0 where
  pub user_id : ℕ
  pub user_book_id : ℕ
  pub book_id : ℕ

pub record BadgeEarned : Type 0 where
  pub user_id : ℕ
  pub badge_id : ℕ
  pub badge_name : String

pub record PostCreated : Type 0 where
  pub post_id : ℕ
  pub book_id : ℕ
  pub author_id : ℕ

pub record ReactionAdded : Type 0 where
  pub post_id : ℕ
  pub reactor_id : ℕ
  pub post_author_id : ℕ
  pub reaction_type : ReactionType

pub record CommentAdded : Type 0 where
  pub comment_id : ℕ
  pub post_id : ℕ
  pub commenter_id : ℕ
  pub post_author_id : ℕ
  pub parent_author_id : Option ℕ

pub record FollowReceived : Type 0 where
  pub follower_id : ℕ
  pub followee_id : ℕ

pub data Event : Type 0 where
  reading_session_completed : ReadingSessionCompleted → Event
  user_grade_recomputed : UserGradeRecomputed → Event
  user_book_completed : UserBookCompleted → Event
  badge_earned : BadgeEarned → Event
  post_created : PostCreated → Event
  reaction_added : ReactionAdded → Event
  comment_added : CommentAdded → Event
  follow_received : FollowReceived → Event
