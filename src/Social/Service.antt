-- ===== src/Social/Service.antt =====
-- backend/app/domains/social/service.py: SocialService. The leaderboard works on the rows that the
-- repository's query answers; the lists of users are left out.
use book_club.Prelude.{
  ℕ, ◌+◌, Bool, Option, none, some, String, List, [], ◌∷◌, ◌==◌, some_eq, if◌then◌else◌,
}
use book_club.Core.Exceptions.{
  follow_self, follow_blocked, block_self, report_duplicate, conflict_error,
}
use book_club.Core.Events.{follow_received}
use book_club.Core.Session.{Action, gets, raise_if, when, stage_event, ◌>>=◌, ◌>>◌}
use book_club.Social.Repository.{is_blocked, has_reported}
use book_club.Social.Repository

unfoldable pub follow : ℕ → ℕ → Action (Unit {0})
unfolding Repository.follow Repository.unblock
follow actor_id target_id = do
  raise_if (actor_id == target_id) (conflict_error follow_self)
  refused ← gets (is_blocked target_id actor_id)
  raise_if refused (conflict_error follow_blocked)
  blocking ← gets (is_blocked actor_id target_id)
  when blocking (Repository.unblock actor_id target_id)
  Repository.follow actor_id target_id
  stage_event (follow_received (record { follower_id = actor_id; followee_id = target_id }))

unfoldable pub unfollow : ℕ → ℕ → Action (Unit {0})
unfolding Repository.unfollow
unfollow actor_id target_id = Repository.unfollow actor_id target_id

unfoldable pub block : ℕ → ℕ → Action (Unit {0})
unfolding Repository.unfollow Repository.block
block actor_id target_id = do
  raise_if (actor_id == target_id) (conflict_error block_self)
  Repository.unfollow actor_id target_id
  Repository.unfollow target_id actor_id
  Repository.block actor_id target_id

unfoldable pub unblock : ℕ → ℕ → Action (Unit {0})
unfolding Repository.unblock
unblock actor_id target_id = Repository.unblock actor_id target_id

unfoldable report : ℕ → String → ℕ → String → Action (Unit {0})
unfolding Repository.report
report actor_id target_type target_id reason = do
  repeated ← gets (has_reported actor_id target_type target_id)
  raise_if repeated (conflict_error report_duplicate)
  Repository.report actor_id target_type target_id reason

-- A row of the query: a user and the minutes of the week.
pub record LeaderboardRow : Type 0 where
  pub user_id : ℕ
  pub weekly_minutes : ℕ

pub record LeaderboardEntry : Type 0 where
  pub rank : ℕ
  pub user_id : ℕ
  pub weekly_minutes : ℕ
  pub is_me : Bool

-- The loop, with its index and the two variables that it carries.
unfoldable pub rank_from : ℕ → ℕ → ℕ → Option ℕ → List LeaderboardRow → List LeaderboardEntry
rank_from user_id i current_rank prev_minutes [] = []
rank_from user_id i current_rank prev_minutes (row ∷ rows) =
    let rank = if some_eq prev_minutes row.weekly_minutes then current_rank else i + 1 in
    record {
      rank = rank;
      user_id = row.user_id;
      weekly_minutes = row.weekly_minutes;
      is_me = row.user_id == user_id;
    }
    ∷ rank_from user_id (i + 1) rank (some row.weekly_minutes) rows

unfoldable pub weekly_leaderboard : ℕ → List LeaderboardRow → List LeaderboardEntry
unfolding rank_from
weekly_leaderboard user_id rows = rank_from user_id 0 0 none rows
