-- ===== src/Feed/Repository.antt =====
-- backend/app/domains/feed: FeedEventRepository.create_event, and the FeedService methods that other
-- domains call through their ports.
use book_club.Prelude.{ℕ, Bool, Option, [], ◌∷◌, ◌++◌, ◌||◌, ◌==◌}
use book_club.Core.Session.{Action, when, modify}
use book_club.Feed.Models.{
  FeedEvent, FeedEventKind, streak_milestone, book_completed, club_joined, session_opened,
  agenda_published, discussion_commented,
}

unfoldable pub create_event : ℕ → FeedEventKind → Action (Unit {0})
create_event user_id kind =
    let row : FeedEvent = record { user_id = user_id; kind = kind } in
    modify (λ db. record db { feed_events = db.feed_events ++ row ∷ [] })

-- streak_days in _STREAK_MILESTONES
abbrev pub is_streak_milestone : ℕ → Bool
is_streak_milestone n = n == 3 || n == 7 || n == 14 || n == 30 || n == 60 || n == 100

unfoldable pub record_streak_milestone : ℕ → ℕ → Action (Unit {0})
unfolding create_event
record_streak_milestone user_id streak_days =
    when (is_streak_milestone streak_days) (create_event user_id (streak_milestone streak_days))

unfoldable pub record_book_completed : ℕ → ℕ → Action (Unit {0})
unfolding create_event
record_book_completed user_id book_id = create_event user_id (book_completed book_id)

unfoldable pub record_club_joined : ℕ → ℕ → Action (Unit {0})
unfolding create_event
record_club_joined user_id club_id = create_event user_id (club_joined club_id)

unfoldable pub record_session_opened : ℕ → ℕ → ℕ → ℕ → Action (Unit {0})
unfolding create_event
record_session_opened user_id club_id session_id book_id =
    create_event user_id (session_opened club_id session_id book_id)

unfoldable pub record_agenda_published : ℕ → ℕ → ℕ → ℕ → Action (Unit {0})
unfolding create_event
record_agenda_published user_id club_id session_id agenda_id =
    create_event user_id (agenda_published club_id session_id agenda_id)

unfoldable pub record_discussion_commented : ℕ → ℕ → ℕ → ℕ → ℕ → ℕ → Option ℕ → Action (Unit {0})
unfolding create_event
record_discussion_commented user_id club_id session_id agenda_id topic_id comment_id
      parent_comment_id =
    create_event user_id
      (discussion_commented club_id session_id agenda_id topic_id comment_id parent_comment_id)
