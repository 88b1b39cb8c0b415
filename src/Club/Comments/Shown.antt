-- ===== src/Club/Comments/Shown.antt =====
-- Nothing of a discussion is lost or doubled where it is shown.
use book_club.Prelude.{
  ℕ, ◌+◌, ◌≤◌, ◌≡◌, refl, ◌∙◌, Bool, true, ◌&&◌, none, List, [], ◌∷◌, ◌++◌, map, append_assoc,
  arith, if◌then◌else◌, Option-cases, inl, inr, All, select, count_where, sum_where,
  sum_where-append, sum_where-sort_by, sum_where-select, sum_where-cong, sum_where-select-All,
  count_where-cong, sum_where-zero, first-append_list, count_where_unique, first-none, sort_by,
}
use book_club.Core.Database.{Database}
use book_club.Club.Models.{TopicComment}
use book_club.Club.Guards.{has_comment_id}
use book_club.Club.Comments.Repository.{in_topic, comment_before, list_comments_by_topic}
use book_club.Club.Comments.Service.{build_comment_threads}
use book_club.Club.Comments.Depth.{Fits, Follow, IsThreaded}
use book_club.Club.Comments.Threads.{is_root, is_reply_to, build_comment_threads_lem}

-- The comments of the threads, in the order that they are shown.
abbrev pub shown : List (TopicComment × List TopicComment) → List TopicComment
shown [] = []
shown ((root, replies) ∷ threads) = root ∷ replies ++ shown threads

-- A row and the row that it answers.
abbrev is_parent : TopicComment → TopicComment → Bool
is_parent c a = is_root a && is_reply_to a.id c

abbrev threads_of : List TopicComment → List TopicComment → List (TopicComment × List TopicComment)
threads_of rs cs = map (λ a. (a, select (is_reply_to a.id) cs)) (select is_root rs)

-- The rows that a root adds, counted by the replies.
parents-cons :
    (p : TopicComment → Bool) (a : TopicComment) (rs cs : List TopicComment)
    → sum_where p (λ c. count_where (is_parent c) (a ∷ rs)) cs
      ≡ (if is_root a then count_where (λ c. is_reply_to a.id c && p c) cs else 0)
        + sum_where p (λ c. count_where (is_parent c) rs) cs
parents-cons p a rs [] = ground arith
parents-cons p a rs (c ∷ cs) = ground (arith, parents-cons p a rs cs)

-- Summing over the threads is summing over the roots and, for every row, over the roots that it answers.
count_where-threads_of :
    (p : TopicComment → Bool) (rs cs : List TopicComment)
    → count_where p (shown (threads_of rs cs))
      ≡ count_where (λ c. is_root c && p c) rs + sum_where p (λ c. count_where (is_parent c) rs) cs
count_where-threads_of p [] cs = omega (arith, sum_where-zero p cs)
count_where-threads_of p (a ∷ rs) cs = ground (
  arith,
  parents-cons p a rs cs,
  count_where-threads_of p rs cs,
  sum_where-append p (λ c. 1) (select (is_reply_to a.id) cs) (shown (threads_of rs cs)),
  sum_where-select p (is_reply_to a.id) (λ c. 1) cs,
)

-- How many comments a comment answers in its topic.
abbrev parents_in : ℕ → TopicComment → List TopicComment → ℕ
parents_in t c whole = count_where (λ a. in_topic t a && is_parent c a) whole

abbrev expected : TopicComment → ℕ
expected c = if is_root c then 0 else 1

Follow-ids :
    (seen cs : List TopicComment)
    → ((i : ℕ) → count_where (has_comment_id i) seen ≤ 1)
    → Follow seen cs
    → (i : ℕ) → count_where (has_comment_id i) (seen ++ cs) ≤ 1
Follow-ids seen [] one h i =
    ground (arith, one i, sum_where-append (has_comment_id i) (λ c. 1) seen [])
Follow-ids seen (c ∷ cs) one (fits, h) i = rw append_assoc at (
    Follow-ids (seen ++ c ∷ []) cs
      (λ j. ground (
        arith,
        one j,
        sum_where-append (has_comment_id j) (λ c. 1) seen (c ∷ []),
        first-none (has_comment_id c.id) seen fits.new,
      ))
      h i)

parents_in-root :
    (t : ℕ) (c : TopicComment) (whole : List TopicComment)
    → c.parent_comment_id ≡ none
    → parents_in t c whole ≡ 0
parents_in-root t c [] top = refl
parents_in-root t c (a ∷ whole) top = ground (arith, top, parents_in-root t c whole top)

-- What a row of a topic answers there: one comment if it is a reply, else none.
Fits-parents_in :
    (t : ℕ) (c : TopicComment) (seen cs : List TopicComment)
    → ((i : ℕ) → count_where (has_comment_id i) (seen ++ cs) ≤ 1)
    → Fits seen c
    → in_topic t c ≡ true
    → parents_in t c (seen ++ cs) ≡ expected c
Fits-parents_in t c seen cs one fits here = elim (Option-cases c.parent_comment_id) [
  | inl top ↦ rw (parents_in-root t c (seen ++ cs) top) (ground arith)
  | inr (q, reply) ↦
      let (parent, found, root, topic) = fits.answer q reply in
      let whole = seen ++ cs in
      let key = has_comment_id q in
      let test = λ (a : TopicComment). in_topic t a && is_root a in
      let passes : test parent ≡ true = ground arith in
      let once =
        count_where_unique test key whole parent (one q)
          (first-append_list key seen cs parent found) passes in
      let same =
        count_where-cong (λ a. in_topic t a && is_parent c a) (λ a. test a && key a) whole
          (λ a. ground arith) in
      ground (arith, once, same)
]

Follow-parents_in :
    (t : ℕ) (seen cs : List TopicComment)
    → ((i : ℕ) → count_where (has_comment_id i) (seen ++ cs) ≤ 1)
    → Follow seen cs
    → All (λ c. in_topic t c ≡ true → parents_in t c (seen ++ cs) ≡ expected c) cs
Follow-parents_in t seen [] one h = tt
Follow-parents_in t seen (c ∷ cs) one (fits, h) = (
  λ here. Fits-parents_in t c seen (c ∷ cs) one fits here,
  rw append_assoc at (Follow-parents_in t (seen ++ c ∷ []) cs (λ i. rw append_assoc (one i)) h),
)

roots_and_replies :
    (p : TopicComment → Bool) (cs : List TopicComment)
    → count_where (λ c. is_root c && p c) cs + sum_where p expected cs ≡ count_where p cs
roots_and_replies p [] = omega arith
roots_and_replies p (c ∷ cs) = ground (arith, roots_and_replies p cs)

-- Where every reply answers an earlier comment of its topic that is no reply, the threads that are built
-- from the list of a topic's comments show every comment of the topic exactly once: any kind of comment is
-- as often among those shown as among the topic's rows.
pub list_comments_shown :
    (t : ℕ) (db : Database) (p : TopicComment → Bool)
    → IsThreaded db.topic_comments
    → count_where p (shown (build_comment_threads (list_comments_by_topic t db)))
      ≡ count_where p (select (in_topic t) db.topic_comments)
unfolding list_comments_by_topic
list_comments_shown t db p h =
    let all = db.topic_comments in
    let here = select (in_topic t) all in
    let sorted = sort_by comment_before here in
    let parents = λ (c : TopicComment). count_where (is_parent c) sorted in
    let unsorted =
      λ (c : TopicComment). sum_where-sort_by (is_parent c) (λ a. 1) comment_before here in
    let of_topic = λ (c : TopicComment). sum_where-select (is_parent c) (in_topic t) (λ a. 1) all in
    let all_answered = Follow-parents_in t [] all (Follow-ids [] all (λ i. omega arith) h) h in
    rw (build_comment_threads_lem sorted) (
      omega (
        arith,
        count_where-threads_of p sorted sorted,
        sum_where-sort_by (λ c. is_root c && p c) (λ c. 1) comment_before here,
        sum_where-sort_by p parents comment_before here,
        sum_where-cong p parents (λ c. parents_in t c all) here (λ c. unsorted c ∙ of_topic c),
        sum_where-select-All p (in_topic t) (λ c. parents_in t c all) expected all all_answered,
        roots_and_replies p here,
      ))
