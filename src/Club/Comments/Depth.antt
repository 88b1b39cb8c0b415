-- ===== src/Club/Comments/Depth.antt =====
-- How deep a discussion goes: every reply answers a comment of its topic that is no reply.
use book_club.Prelude.{ℕ, refl, Bool, String, List, [], update_where}
use book_club.Core.Threads.{update_where-IsThreaded, cascade-IsThreaded}
use book_club.Core.Threads
use book_club.Club.Models.{TopicComment}
use book_club.Club.Guards.{has_comment_id}
use book_club.Club.Comments.Repository.{edited, deleted}

abbrev pub Fits : List TopicComment → TopicComment → Type 0
Fits = Threads.Fits (λ c. c.id) (λ c. c.parent_comment_id) (λ c. c.topic_id)

abbrev pub Follow : List TopicComment → List TopicComment → Type 0
Follow = Threads.Follow (λ c. c.id) (λ c. c.parent_comment_id) (λ c. c.topic_id)

-- Ids are unique, and every reply answers an earlier comment of its topic, which is no reply.
abbrev pub IsThreaded : List TopicComment → Type 0
IsThreaded cs = Follow [] cs

-- Editing a comment keeps the threads.
pub edits-IsThreaded :
    (i : ℕ) (body : String) (now : ℕ) (cs : List TopicComment)
    → IsThreaded cs
    → IsThreaded (update_where (has_comment_id i) (edited body now) cs)
edits-IsThreaded i body now cs h =
    update_where-IsThreaded (λ c. c.id) (λ c. c.parent_comment_id) (λ c. c.topic_id)
      (edited body now) (λ x. refl) (λ x. refl) (λ x. refl) (has_comment_id i) cs h

-- A deletion that takes the replies with a comment keeps the threads.
pub deleted-IsThreaded :
    (gone : TopicComment → Bool) (cs : List TopicComment)
    → IsThreaded cs
    → IsThreaded (deleted gone cs)
unfolding deleted
deleted-IsThreaded gone cs h =
    cascade-IsThreaded (λ c. c.id) (λ c. c.parent_comment_id) (λ c. c.topic_id) gone cs h
