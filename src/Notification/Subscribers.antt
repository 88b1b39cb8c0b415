-- ===== src/Notification/Subscribers.antt =====
-- The notification part of main.py, and what reaches the inboxes through it.
use book_club.Prelude.{
  ℕ, ◌+◌, ◌≡◌, refl, ◌∙◌, inl, inr, Bool, true, some, List, [], ◌∷◌, ◌++◌, append-nil, arith, not,
  ◌&&◌, ◌||◌, ◌==◌, some_eq, if◌then◌else◌, Bool-cases, Option-cases, count_where, sum_where-append,
}
use book_club.Core.Database.{Database}
use book_club.Core.Events.{Event, CommentAdded, reaction_added, comment_added}
use book_club.Core.EventBus.{
  Bus, subscribe, publish, run_handlers, dispatch, reaction_added_type, comment_added_type,
  user_grade_recomputed_type, follow_received_type, badge_earned_type,
}
use book_club.Core.Session.{World, run_request}
use book_club.Core.Session.Atomic.{fresh}
use book_club.Feed.Models.{Post, ReactionType}
use book_club.Feed.Posts.{get_post}
use book_club.Feed.Reactions.{has_reacted}
use book_club.Feed.Reactions.Toggle.{toggle_reaction_effect}
use book_club.Feed.Service.{toggle_reaction}
use book_club.Notification.Models.{
  Notification, NotificationType, reaction, comment, Payload, of_post, of_comment,
}
use book_club.Notification.Service.{
  new_notification, is_type_enabled, notify, recipients, notify_all, on_reaction_added,
  on_comment_added, on_grade_up, on_follow_received, on_badge_earned,
}

-- The notification part of `lifespan`.
unfoldable pub subscribe_notifications : (ℕ → ℕ) → ℕ → Bus → Bus
unfolding subscribe
subscribe_notifications id now bus = subscribe badge_earned_type (on_badge_earned id now) (
    subscribe follow_received_type (on_follow_received id now) (
      subscribe user_grade_recomputed_type (on_grade_up id now) (
        subscribe comment_added_type (on_comment_added id now)
          (subscribe reaction_added_type (on_reaction_added id now) bus))))

-- The tables after a user was notified, if the user has not turned the type off.
abbrev pub notified : ℕ → ℕ → ℕ → NotificationType → Payload → Database → Database
notified id now u t payload db =
    if is_type_enabled u t db
    then record db { notifications = db.notifications ++ new_notification id now u t payload ∷ [] }
    else db

notify_lem :
    (id : ℕ → ℕ) (now u : ℕ) (t : NotificationType) (payload : Payload) (w : World)
    → (run_request (notify id now u t payload) w).1
      ≡ record w { db = notified (id u) now u t payload w.db }
unfolding notify run_request
notify_lem id now u t payload w = elim (Bool-cases (is_type_enabled u t w.db)) [
  | inl on ↦ ground (arith, on, append-nil w.published)
  | inr off ↦ ground (arith, off, append-nil w.published)
]

abbrev to_user : ℕ → Notification → Bool
to_user v n = n.user_id == v

enabled-notified :
    (id now u v : ℕ) (t t' : NotificationType) (payload : Payload) (db : Database)
    → is_type_enabled v t' (notified id now u t payload db) ≡ is_type_enabled v t' db
unfolding is_type_enabled
enabled-notified id now u v t t' payload db = elim (Bool-cases (is_type_enabled u t db)) [
  | inl on ↦ rw on refl
  | inr off ↦ rw off refl
]

count-notified :
    (id now u v : ℕ) (t : NotificationType) (payload : Payload) (db : Database)
    → count_where (to_user v) (notified id now u t payload db).notifications
      ≡ count_where (to_user v) db.notifications
        + (if u == v && is_type_enabled u t db then 1 else 0)
count-notified id now u v t payload db = ground (
  arith,
  sum_where-append (to_user v) (λ n. 1) db.notifications (new_notification id now u t payload ∷ []),
)

same_user :
    (u v : ℕ) (t : NotificationType) (db : Database)
    → (u == v) ≡ true
    → is_type_enabled u t db ≡ is_type_enabled v t db
same_user u v t db h = let e : u ≡ v = ground arith in rw e refl

-- What a user gets when several are notified.
notify_all-count :
    (id : ℕ → ℕ) (now v : ℕ) (e : CommentAdded) (uids : List ℕ) (w : World)
    → count_where (to_user v) (notify_all id now e uids w).db.notifications
      ≡ count_where (to_user v) w.db.notifications
        + (if is_type_enabled v comment w.db then count_where (λ u. u == v) uids else 0)
unfolding notify_all
notify_all-count id now v e [] w = ground arith
notify_all-count id now v e (u ∷ uids) w =
    let payload = of_comment e.post_id e.comment_id in
    let next : World = record w { db = notified (id u) now u comment payload w.db } in
    rw (notify_all, notify_lem id now u comment payload w)
      (ground (
        arith,
        notify_all-count id now v e uids next,
        enabled-notified (id u) now u v comment comment payload w.db,
        count-notified (id u) now u v comment payload w.db,
        same_user u v comment w.db,
      ))

-- Whom a comment is about: the author of the post and the author of the comment that it answers, not the
-- commenter.
abbrev pub concerns : CommentAdded → ℕ → Bool
concerns e v = not (v == e.commenter_id) && (v == e.post_author_id || some_eq e.parent_author_id v)

recipients-concerns :
    (e : CommentAdded) (v : ℕ)
    → count_where (λ u. u == v) (recipients e) ≡ (if concerns e v then 1 else 0)
recipients-concerns e v = elim (Option-cases e.parent_author_id) [
  | inl top ↦ ground (arith, top)
  | inr (p, reply) ↦ ground (arith, reply)
]

-- The event of a comment adds one row to the inbox of the post's author and one to that of the author of
-- the comment that it answers, where they are not the commenter and have not turned comments off, one row
-- if they are the same user, and none to any other inbox.
pub on_comment_added_inboxes :
    (id : ℕ → ℕ) (now v : ℕ) (e : CommentAdded) (w : World)
    → let after = (on_comment_added id now (comment_added e) w).1.db in
      count_where (λ n. n.user_id == v) after.notifications
      ≡ count_where (λ n. n.user_id == v) w.db.notifications
        + (if concerns e v && is_type_enabled v comment w.db then 1 else 0)
unfolding on_comment_added
on_comment_added_inboxes id now v e w =
    ground (arith, notify_all-count id now v e (recipients e) w, recipients-concerns e v)

abbrev pub no_handlers : Bus
no_handlers t = []

abbrev new_reaction : ℕ → ℕ → ReactionType → Post → Event
new_reaction u p t post =
    reaction_added
      (record { post_id = p; reactor_id = u; post_author_id = post.user_id; reaction_type = t })

on_reaction_added_lem :
    (id : ℕ → ℕ) (now u p : ℕ) (t : ReactionType) (post : Post) (w : World)
    → (on_reaction_added id now (new_reaction u p t post) w).1 ≡ (
        if u == post.user_id then w else record w {
          db = notified (id post.user_id) now post.user_id reaction (of_post p) w.db;
        })
unfolding on_reaction_added
on_reaction_added_lem id now u p t post w = elim (Bool-cases (u == post.user_id)) [
  | inl own ↦ ground (arith, own)
  | inr other ↦ ground (arith, other, notify_lem id now post.user_id reaction (of_post p) w)
]

-- The dispatch of the event of a new reaction reaches one subscriber.
reaction-dispatch :
    (id : ℕ → ℕ) (now u p : ℕ) (t : ReactionType) (post : Post) (w : World)
    → dispatch (subscribe_notifications id now no_handlers) (new_reaction u p t post ∷ []) w
      ≡ (on_reaction_added id now (new_reaction u p t post) w).1
unfolding subscribe_notifications subscribe dispatch publish run_handlers
reaction-dispatch id now u p t post w = refl

-- When the events of a toggle of a reaction to a post that is there are dispatched to the notifications
-- alone, the post's author is notified of it, if reactions are not turned off, exactly if the reaction was
-- added and is not the author's own; nothing else happens.
pub toggle_reaction-dispatch :
    (id : ℕ → ℕ) (now new u p : ℕ) (t : ReactionType) (w : World) (post : Post)
    → get_post p w.db ≡ some post
    → let s' = (toggle_reaction new u p t (fresh w)).1 in
      let w' = (run_request (toggle_reaction new u p t) w).1 in
      dispatch (subscribe_notifications id now no_handlers) s'.queue w' ≡ (
        if has_reacted p u t w.db.reactions || u == post.user_id then w' else record w' {
          db = notified (id post.user_id) now post.user_id reaction (of_post p) w'.db;
        })
unfolding dispatch run_request
toggle_reaction-dispatch id now new u p t w post found =
    rw (toggle_reaction_effect new u p t (fresh w) post found)
      (elim (Bool-cases (has_reacted p u t w.db.reactions)) [
        | inl old ↦ rw old refl
        | inr first ↦
            rw first
              (reaction-dispatch id now u p t post _ ∙ on_reaction_added_lem id now u p t post _)
      ])
