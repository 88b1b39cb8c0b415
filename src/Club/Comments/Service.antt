-- ===== src/Club/Comments/Service.antt =====
-- backend/app/domains/club/service.py: ClubService on the comments of a topic, with the feed and the
-- notifications wired in. A call of the notification port is the list of its recipients, in the result.
use book_club.Prelude.{
  ℕ, Option, none, some, String, List, [], ◌∷◌, ◌++◌, map, ◌==◌, is_some, if◌then◌else◌,
}
use book_club.Core.Exceptions.{
  comment_not_found, max_reply_depth_exceeded, not_found_error, conflict_error,
}
use book_club.Core.Session.{Action, pure, raise, gets, raise_if, ◌>>=◌, ◌>>◌}
use book_club.Feed.Repository.{record_discussion_commented}
use book_club.Club.Models.{TopicComment}
use book_club.Club.Guards.{
  get_club_or_404, assert_club_member, assert_can_view_club, get_session_in_club,
  get_agenda_in_session, get_topic_in_agenda, get_comment_in_topic, assert_comment_author_or_host,
}
use book_club.Club.Comments.Repository

-- Where a comment belongs: the ids in the route.
pub record Route : Type 0 where
  pub club_id : ℕ
  pub session_id : ℕ
  pub agenda_id : ℕ
  pub topic_id : ℕ

-- The author of the comment that a reply answers.
unfoldable parent_author : ℕ → Option ℕ → Action (Option ℕ)
unfolding get_comment_in_topic
parent_author topic_id none = pure none
parent_author topic_id (some parent_id) = do
  parent ← get_comment_in_topic topic_id parent_id
  raise_if (is_some parent.parent_comment_id) (conflict_error max_reply_depth_exceeded)
  pure (some parent.author_id)

-- {uid for uid in (author_id, parent_author_id) if uid is not None and uid != user_id}
abbrev pub recipients : ℕ → ℕ → Option ℕ → List ℕ
recipients user_id author_id parent_author_id =
    (if author_id == user_id then [] else author_id ∷ []) ++ elim parent_author_id [
      | none ↦ []
      | some p ↦ if p == user_id then [] else if p == author_id then [] else p ∷ []
    ]

unfoldable pub add_comment : ℕ → ℕ → Route → ℕ → Option ℕ → String → Action (TopicComment × List ℕ)
unfolding get_session_in_club get_agenda_in_session get_topic_in_agenda assert_club_member
    parent_author Repository.create_comment record_discussion_commented
add_comment id now r user_id parent_id body = do
  get_club_or_404 r.club_id
  get_session_in_club r.club_id r.session_id
  agenda ← get_agenda_in_session r.session_id r.agenda_id
  topic ← get_topic_in_agenda agenda.id r.topic_id
  assert_club_member r.club_id user_id
  parent_author_id ← parent_author topic.id parent_id
  comment ← Repository.create_comment id now topic.id user_id parent_id body
  record_discussion_commented user_id r.club_id r.session_id r.agenda_id topic.id comment.id
      parent_id
  pure (comment, recipients user_id agenda.author_id parent_author_id)

-- How a change of a comment begins: the comment, for its author or the host.
unfoldable own_comment : Route → ℕ → ℕ → Action TopicComment
unfolding get_session_in_club get_agenda_in_session get_topic_in_agenda get_comment_in_topic
    assert_comment_author_or_host
own_comment r comment_id user_id = do
  club ← get_club_or_404 r.club_id
  get_session_in_club r.club_id r.session_id
  agenda ← get_agenda_in_session r.session_id r.agenda_id
  topic ← get_topic_in_agenda agenda.id r.topic_id
  comment ← get_comment_in_topic topic.id comment_id
  assert_comment_author_or_host club comment user_id
  pure comment

-- if updated is None: raise NotFoundError(…)
abbrev found : Option TopicComment → Action TopicComment
found none = raise (not_found_error comment_not_found)
found (some row) = pure row

unfoldable pub update_comment : ℕ → Route → ℕ → ℕ → String → Action TopicComment
unfolding own_comment Repository.update_comment_body
update_comment now r comment_id user_id body = do
  comment ← own_comment r comment_id user_id
  changed ← Repository.update_comment_body comment.id body now
  found changed

unfoldable pub delete_comment : Route → ℕ → ℕ → Action (Unit {0})
unfolding own_comment Repository.delete_comment
delete_comment r comment_id user_id = do
  comment ← own_comment r comment_id user_id
  Repository.delete_comment comment.id

-- A dict of lists, by the id of the parent.
abbrev pub Replies : Type 0
Replies = List (ℕ × List TopicComment)

-- replies_by_parent.setdefault(parent_id, []).append(comment)
abbrev pub append_reply : ℕ → TopicComment → Replies → Replies
append_reply parent_id comment [] = (parent_id, comment ∷ []) ∷ []
append_reply parent_id comment ((k, replies) ∷ rest) =
    let rest' = append_reply parent_id comment rest in
    if k == parent_id then (k, replies ++ comment ∷ []) ∷ rest else (k, replies) ∷ rest'

-- replies_by_parent.get(root_id, [])
abbrev pub replies_of : ℕ → Replies → List TopicComment
replies_of root_id [] = []
replies_of root_id ((k, replies) ∷ rest) =
    let later = replies_of root_id rest in if k == root_id then replies else later

-- The loop of `_build_comment_threads`.
unfoldable pub collect :
    List TopicComment → List TopicComment → Replies → List TopicComment × Replies
collect [] roots replies_by_parent = (roots, replies_by_parent)
collect (comment ∷ comments) roots replies_by_parent = elim comment.parent_comment_id [
  | none ↦ collect comments (roots ++ comment ∷ []) replies_by_parent
  | some parent_id ↦ collect comments roots (append_reply parent_id comment replies_by_parent)
]

unfoldable pub build_comment_threads : List TopicComment → List (TopicComment × List TopicComment)
unfolding collect
build_comment_threads comments =
    let (roots, replies_by_parent) = collect comments [] [] in
    map (λ root. (root, replies_of root.id replies_by_parent)) roots

unfoldable list_comments : Route → ℕ → Action (List (TopicComment × List TopicComment))
unfolding assert_can_view_club get_session_in_club get_agenda_in_session get_topic_in_agenda
    Repository.list_comments_by_topic build_comment_threads
list_comments r caller_user_id = do
  assert_can_view_club r.club_id caller_user_id
  get_session_in_club r.club_id r.session_id
  agenda ← get_agenda_in_session r.session_id r.agenda_id
  topic ← get_topic_in_agenda agenda.id r.topic_id
  comments ← gets (Repository.list_comments_by_topic topic.id)
  pure (build_comment_threads comments)
