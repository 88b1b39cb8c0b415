-- ===== src/Tests/Discussions.antt =====
-- The discussion of Tests.Meeting: the agenda, its topics and the comments.
use book_club.Prelude.{◌≡◌, refl, some, [], ◌∷◌, ◌==◌, select, count_where, arith}
use book_club.Core.Session.{World, run_request}
use book_club.Club.Agendas.Service.{add_topic, reorder_topics}
use book_club.Club.Agendas.Order.{IsOrdered}
use book_club.Club.Agendas.Reach as Topics
use book_club.Club.Agendas.Reach.{Reach-IsOrdered}
use book_club.Club.Comments.Repository.{in_topic, list_comments_by_topic}
use book_club.Club.Comments.Service.{Route, add_comment, delete_comment, build_comment_threads}
use book_club.Club.Comments.Depth.{IsThreaded}
use book_club.Club.Comments.Reach as Talk
use book_club.Club.Comments.Reach.{Reach-IsThreaded}
use book_club.Club.Comments.Shown.{shown, list_comments_shown}
use book_club.Tests.Data.{noon}
use book_club.Tests.Meeting.{remark, meeting, met}

abbrev two_topics : World
two_topics = (run_request (add_topic 6 noon 1 2 3 8 "second") met).1

abbrev swapped : World
swapped = (run_request (reorder_topics 1 2 3 8 (6 ∷ 4 ∷ 6 ∷ [])) two_topics).1

meeting-IsOrdered : IsOrdered meeting.agenda_topics
meeting-IsOrdered = record { ids = λ i. ground arith; positions = λ a n. ground arith }

swapped-Reach : Topics.Reach met swapped
swapped-Reach =
    Topics.next (Topics.next Topics.here (Topics.adds met 6 noon 1 2 3 8 "second" refl))
      (Topics.reorders two_topics 1 2 3 8 (6 ∷ 4 ∷ 6 ∷ []))

Reach-IsOrdered_example : IsOrdered swapped.db.agenda_topics
Reach-IsOrdered_example = Reach-IsOrdered {w = met} {v = swapped} meeting-IsOrdered swapped-Reach

abbrev place : Route
place = record { club_id = 1; session_id = 2; agenda_id = 3; topic_id = 4 }

abbrev argued : World
argued = (run_request (add_comment 12 noon place 7 (some 10) "yes") met).1

abbrev silenced : World
silenced = (run_request (delete_comment place 10 7) argued).1

meeting-IsThreaded : IsThreaded meeting.topic_comments
meeting-IsThreaded = (
  record { new = refl; answer = λ p up. cc },
  (
    record {
      new = refl;
      answer = λ p up. let e : 10 ≡ p = cc in (remark, rw⁻¹ e refl, refl, refl);
    },
    tt,
  ),
)

silenced-Reach : Talk.Reach met silenced
silenced-Reach =
    Talk.next (Talk.next Talk.here (Talk.comments met 12 noon place 7 (some 10) "yes" refl))
      (Talk.deletes argued place 10 7)

Reach-IsThreaded_example : IsThreaded silenced.db.topic_comments
Reach-IsThreaded_example =
    Reach-IsThreaded {w = met} {v = silenced} meeting-IsThreaded silenced-Reach

list_comments_shown_example :
    count_where
      (λ c. c.author_id == 8)
      (shown (build_comment_threads (list_comments_by_topic 4 meeting)))
    ≡ count_where (λ c. c.author_id == 8) (select (in_topic 4) meeting.topic_comments)
list_comments_shown_example =
    list_comments_shown 4 meeting (λ c. c.author_id == 8) meeting-IsThreaded
