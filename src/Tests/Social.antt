-- ===== src/Tests/Social.antt =====
-- Three users who follow and block each other, a week's leaderboard, and the inbox of an author.
use book_club.Prelude.{◌+◌, ◌≡◌, refl, some, [], ◌∷◌, map, arith, ◌==◌, All, count_where}
use book_club.Core.Database.{empty_database}
use book_club.Core.Events.{CommentAdded, comment_added}
use book_club.Core.EventBus.{dispatch}
use book_club.Core.Session.{World, run_request}
use book_club.Core.Session.Atomic.{fresh}
use book_club.Feed.Models.{fire}
use book_club.Feed.Service.{toggle_reaction}
use book_club.Notification.Models.{reaction, of_post}
use book_club.Notification.Service.{is_type_enabled, on_comment_added}
use book_club.Notification.Subscribers.{
  subscribe_notifications, notified, no_handlers, on_comment_added_inboxes,
  toggle_reaction-dispatch,
}
use book_club.Social.Repository.{new_follow, new_block}
use book_club.Social.Graph.{IsOpen}
use book_club.Social.Reach.{Reach, here, next, follows, blocks, Reach-IsOpen}
use book_club.Social.Service.{LeaderboardRow, follow, block, weekly_leaderboard}
use book_club.Social.Leaderboard.{row_score, entry_score, ahead, weekly_leaderboard_ranks}
use book_club.Tests.Feed.{fed, first_post}

abbrev circle : World
circle = record {
  db = record empty_database { follows = new_follow 1 2 ∷ []; blocks = new_block 3 1 ∷ [] };
  published = [];
}

circle-IsOpen : IsOpen circle.db.follows circle.db.blocks
circle-IsOpen = record {
  follows_once = λ a b. ground arith;
  blocks_once = λ a b. ground arith;
  no_self_follow = λ a. ground arith;
  no_self_block = λ a. ground arith;
  apart = λ a b. ground arith;
}

abbrev befriended : World
befriended = (run_request (follow 2 1) circle).1

abbrev parted : World
parted = (run_request (block 1 2) befriended).1

abbrev retried : World
retried = (run_request (follow 1 2) parted).1

retried-Reach : Reach circle retried
retried-Reach =
    next (next (next here (follows circle 2 1)) (blocks befriended 1 2)) (follows parted 1 2)

Reach-IsOpen_example : IsOpen retried.db.follows retried.db.blocks
Reach-IsOpen_example = Reach-IsOpen circle-IsOpen retried-Reach

abbrev score : LeaderboardRow
score = record { user_id = 1; weekly_minutes = 90 }

weekly_leaderboard_ranks_example :
    let rows =
      score ∷ record score { user_id = 2 } ∷ record { user_id = 3; weekly_minutes = 10 } ∷ [] in
    (map entry_score (weekly_leaderboard 2 rows) ≡ map row_score rows)
    × All (λ e. e.rank ≡ 1 + ahead e.weekly_minutes rows) (weekly_leaderboard 2 rows)
weekly_leaderboard_ranks_example =
    weekly_leaderboard_ranks 2
      (score ∷ record score { user_id = 2 } ∷ record { user_id = 3; weekly_minutes = 10 } ∷ [])
      ((omega arith, (omega arith, tt)), ((omega arith, tt), (tt, tt)))

-- A reply by 9 to the comment of 8 on the post of 7.
abbrev reply : CommentAdded
reply = record {
  comment_id = 3;
  post_id = 1;
  commenter_id = 9;
  post_author_id = 7;
  parent_author_id = some 8;
}

on_comment_added_inboxes_example :
    count_where
      (λ n. n.user_id == 8)
      (on_comment_added (λ u. 500 + u) 50 (comment_added reply) fed).1.db.notifications
    ≡ 1
unfolding is_type_enabled
on_comment_added_inboxes_example = on_comment_added_inboxes (λ u. 500 + u) 50 8 reply fed

toggle_reaction-dispatch_example :
    let s' = (toggle_reaction 2 9 1 fire (fresh fed)).1 in
    let w' = (run_request (toggle_reaction 2 9 1 fire) fed).1 in
    dispatch (subscribe_notifications (λ u. 500 + u) 50 no_handlers) s'.queue w'
    ≡ record w' { db = notified 507 50 7 reaction (of_post 1) w'.db }
toggle_reaction-dispatch_example =
    toggle_reaction-dispatch (λ u. 500 + u) 50 2 9 1 fire fed first_post refl
