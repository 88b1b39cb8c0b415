-- ===== src/Tests/Feed.antt =====
-- The feed of book 100: two posts, a reaction and a comment with a reply.
use book_club.Prelude.{
  ℕ, ◌≡◌, refl, none, some, String, [], ◌∷◌, map, not, arith, count_where, if◌then◌else◌,
}
use book_club.Core.Database.{Database}
use book_club.Core.Session.{Session, World, ok, run_request}
use book_club.Core.Session.Atomic.{fresh}
use book_club.Feed.Models.{
  Post, thought, question, Reaction, ReactionType, heart, fire, Comment, FeedEvent, book_completed,
  FeedComment,
}
use book_club.Feed.Posts.{has_post_id, timeline}
use book_club.Feed.Posts.Deletion.{IsClosed, delete_post-IsClosed}
use book_club.Feed.Posts.Paging.{read_feed, read_feed-timeline}
use book_club.Feed.Reactions.{has_reacted, aggregate_for_post}
use book_club.Feed.Reactions.Unique.{IsUnique, same_triple}
use book_club.Feed.Reactions.Toggle.{toggle_reaction_flips}
use book_club.Feed.Comments.Steps.{IsThreaded}
use book_club.Feed.Service.{
  item, removed, delete_post, toggle_reaction, add_comment, delete_comment,
}
use book_club.Feed.Reach as Talk
use book_club.Feed.Reach.{Reach-IsDiscussed}
use book_club.Feed.Activity.Reach as Stream
use book_club.Feed.Activity.Service.{add_feed_comment, delete_feed_comment}
use book_club.Feed.Activity.Reach.{Reach-IsNested}
use book_club.Tests.Data.{tables}

abbrev pub first_post : Post
first_post = record {
  id = 1;
  book_id = 100;
  user_id = 7;
  post_type = thought;
  content = "a thought";
  image_keys = "feed/7/1.png" ∷ [];
  created_at = 10;
  deleted_at = none;
}

abbrev second_post : Post
second_post = record first_post { id = 2; user_id = 8; post_type = question; created_at = 20 }

abbrev liked : Reaction
liked = record { id = 1; post_id = 1; user_id = 8; reaction_type = heart }

abbrev remark : Comment
remark = record {
  id = 1;
  post_id = 1;
  user_id = 8;
  parent_id = none;
  content = "a remark";
  created_at = 30;
  deleted_at = none;
}

abbrev finished : FeedEvent
finished = record { user_id = 7; kind = book_completed 100 }

abbrev praise : FeedComment
praise = record {
  id = 1;
  feed_event_id = 0;
  user_id = 8;
  parent_id = none;
  body = "well done";
  created_at = 40;
}

abbrev pub feed : Database
feed = record tables {
  posts = first_post ∷ second_post ∷ [];
  reactions = liked ∷ [];
  comments = remark ∷ record remark { id = 2; user_id = 7; parent_id = some 1 } ∷ [];
  feed_events = finished ∷ [];
  feed_comments = praise ∷ record praise { id = 2; user_id = 7; parent_id = some 1 } ∷ [];
}

abbrev pub fed : World
fed = record { db = feed; published = [] }

feed-IsUnique : IsUnique feed.reactions
feed-IsUnique = record { ids = λ i. ground arith; triples = λ p u t. ground arith }

feed-IsThreaded : IsThreaded feed.comments
feed-IsThreaded = (
  record { new = refl; answer = λ p e. cc },
  (record { new = refl; answer = λ p e. (remark, ground (arith, e), refl, refl) }, tt),
)

abbrev flipped : World
flipped = (run_request (toggle_reaction 2 7 1 fire) fed).1

abbrev talked : World
talked = (run_request (add_comment 3 50 7 2 none "new") flipped).1

abbrev retracted : World
retracted = (run_request (delete_comment 60 8 1) talked).1

abbrev unposted : World
unposted = (run_request (delete_post 70 8 2) retracted).1

unposted-Reach : Talk.Reach fed unposted
unfolding toggle_reaction add_comment delete_comment delete_post run_request
unposted-Reach =
    Talk.next
      (Talk.next
        (Talk.next (Talk.next Talk.here (Talk.toggles fed 2 7 1 fire refl))
          (Talk.comments flipped 3 50 7 2 none "new" refl))
        (Talk.deletes_comment talked 60 8 1))
      (Talk.deletes_post retracted 70 8 2)

Reach-IsDiscussed_example : IsUnique unposted.db.reactions × IsThreaded unposted.db.comments
Reach-IsDiscussed_example = Reach-IsDiscussed (feed-IsUnique, feed-IsThreaded) unposted-Reach

toggle_reaction_flips_example :
    let (r, s') = toggle_reaction 2 8 1 heart (fresh fed) in
    (r ≡ ok (removed, aggregate_for_post 1 s'.db))
    × (s'.queue ≡ [])
    × ((p u : ℕ) (t : ReactionType)
        → has_reacted p u t s'.db.reactions ≡ (
            if same_triple 1 8 heart p u t
            then not (has_reacted p u t feed.reactions)
            else has_reacted p u t feed.reactions))
toggle_reaction_flips_example =
    toggle_reaction_flips 2 8 1 heart (fresh fed) first_post feed-IsUnique refl

abbrev public_url : String → String
public_url key = key

read_feed-timeline_example :
    read_feed public_url 100 7 1 (fresh fed) 3 none
    ≡ some (map (item public_url 7 feed) (second_post ∷ first_post ∷ []))
read_feed-timeline_example =
    read_feed-timeline public_url 3 100 7 1 (fresh fed) ((λ e. ground arith, tt), (tt, tt))
      (omega arith)

abbrev closed : Session
closed = (delete_post 50 7 1 (fresh fed)).1

delete_post-closed : delete_post 50 7 1 (fresh fed) ≡ (ok tt, closed)
unfolding delete_post
delete_post-closed = refl

delete_post-IsClosed_example :
    (count_where (has_post_id 1) (timeline 100 none closed.db) ≡ 0)
    × IsClosed 60 8 1 9 fire (some 1) "too late" closed
delete_post-IsClosed_example =
    delete_post-IsClosed 50 7 1 60 100 8 9 none fire (some 1) "too late" (fresh fed) closed
      delete_post-closed

abbrev answered : World
answered = (run_request (add_feed_comment 3 50 0 9 (some 1) "indeed") fed).1

abbrev pruned : World
pruned = (run_request (delete_feed_comment 1 8) answered).1

pruned-Reach : Stream.Reach fed pruned
pruned-Reach =
    Stream.next (Stream.next Stream.here (Stream.comments fed 3 50 0 9 (some 1) "indeed" refl))
      (Stream.deletes answered 1 8)

Reach-IsNested_example : Stream.IsNested pruned.db.feed_comments
Reach-IsNested_example =
    Reach-IsNested
      (
        record { new = refl; answer = λ p e. cc },
        (record { new = refl; answer = λ p e. (praise, ground (arith, e), refl, refl) }, tt),
      )
      pruned-Reach
