-- ===== src/Notification/Service.antt =====
-- backend/app/domains/notification/repository.py and service.py: the inbox, the preferences, and the handlers
-- of NotificationService. A handler's own session is a request of its own. The query of the user's devices,
-- before its commit, is taken to succeed; the push to them and the message over the websocket, after it, are
-- outside the model. The id of a new row is drawn by `id`.
use book_club.Prelude.{
  ℕ, Bool, true, false, Option, none, some, List, [], ◌∷◌, ◌++◌, not, ◌&&◌, ◌||◌, ◌==◌, ltb, leb,
  is_some, first, select, sort_by, take, count_where, update_where, if◌then◌else◌,
}
use book_club.Core.Database.{Database}
use book_club.Core.Events.{
  CommentAdded, reaction_added, comment_added, user_grade_recomputed, follow_received, badge_earned,
}
use book_club.Core.EventBus.{Handler}
use book_club.Core.Session.{Action, World, ok, gets, when, modify, run_request, ◌>>=◌}
use book_club.Notification.Models.{
  Notification, NotificationPreference, NotificationType, reaction, comment, grade_up,
  weekly_report, streak_warning, subscription_reminder, agenda_published, discussion_commented,
  Payload, of_post, of_comment, of_grade, of_follower, of_badge,
}
use book_club.Notification.Models

abbrev pub new_notification : ℕ → ℕ → ℕ → NotificationType → Payload → Notification
new_notification id now user_id ntype payload = record {
  id = id;
  user_id = user_id;
  ntype = ntype;
  payload = payload;
  read_at = none;
  created_at = now;
}

unfoldable create : ℕ → ℕ → ℕ → NotificationType → Payload → Action (Unit {0})
create id now user_id ntype payload = modify (λ db. record db {
  notifications = db.notifications ++ new_notification id now user_id ntype payload ∷ [];
})

abbrev listed_before : Option ℕ → Notification → Bool
listed_before none n = true
listed_before (some cursor) n = ltb n.created_at cursor

-- ORDER BY created_at DESC
abbrev newer : Notification → Notification → Bool
newer a b = leb b.created_at a.created_at

unfoldable list_for_user : ℕ → Option ℕ → ℕ → Database → List Notification
list_for_user user_id cursor limit db =
    take limit (
      sort_by newer (select (λ n. n.user_id == user_id && listed_before cursor n) db.notifications))

abbrev is_unread : ℕ → Notification → Bool
is_unread user_id n = n.user_id == user_id && not (is_some n.read_at)

abbrev stamped : ℕ → Notification → Notification
stamped now n = record n { read_at = some now }

unfoldable mark_read : ℕ → ℕ → ℕ → Action (Unit {0})
mark_read now notification_id user_id = modify (λ db. record db {
  notifications =
      update_where (λ n. n.id == notification_id && is_unread user_id n) (stamped now)
        db.notifications;
})

unfoldable mark_read_all : ℕ → ℕ → Action (Unit {0})
mark_read_all now user_id = modify (λ db. record db {
  notifications = update_where (is_unread user_id) (stamped now) db.notifications;
})

unfoldable unread_count : ℕ → Database → ℕ
unread_count user_id db = count_where (is_unread user_id) db.notifications

-- An empty map where the user never set one.
abbrev overrides_of : Option NotificationPreference → NotificationType → Option Bool
overrides_of none t = none
overrides_of (some row) t = row.overrides t

abbrev get_overrides : ℕ → Database → NotificationType → Option Bool
get_overrides user_id db =
    overrides_of (first (λ p. p.user_id == user_id) db.notification_preferences)

-- REQUIRED_NOTIFICATION_TYPES
abbrev is_required : NotificationType → Bool
is_required subscription_reminder = true
is_required _ = false

-- overrides.get(ntype.value, True)
abbrev or_enabled : Option Bool → Bool
or_enabled none = true
or_enabled (some enabled) = enabled

unfoldable pub is_type_enabled : ℕ → NotificationType → Database → Bool
is_type_enabled user_id ntype db = is_required ntype || or_enabled (get_overrides user_id db ntype)

-- What the handlers do in their session.
unfoldable pub notify : (ℕ → ℕ) → ℕ → ℕ → NotificationType → Payload → Action (Unit {0})
unfolding create is_type_enabled
notify id now user_id ntype payload = do
  enabled ← gets (is_type_enabled user_id ntype)
  when enabled (create (id user_id) now user_id ntype payload)

unfoldable pub on_reaction_added : (ℕ → ℕ) → ℕ → Handler
unfolding notify run_request
on_reaction_added id now (reaction_added e) w =
    if e.reactor_id == e.post_author_id
    then (ok tt, w)
    else run_request (notify id now e.post_author_id reaction (of_post e.post_id)) w
on_reaction_added id now _ w = (ok tt, w)

-- to_notify, a set: the order of its users has no meaning.
abbrev pub recipients : CommentAdded → List ℕ
recipients e =
    (if e.commenter_id == e.post_author_id then [] else e.post_author_id ∷ [])
    ++ elim e.parent_author_id [
      | none ↦ []
      | some p ↦ if p == e.commenter_id || p == e.post_author_id then [] else p ∷ []
    ]

-- Each recipient in a session of their own.
unfoldable pub notify_all : (ℕ → ℕ) → ℕ → CommentAdded → List ℕ → World → World
unfolding notify run_request
notify_all id now e [] w = w
notify_all id now e (uid ∷ uids) w =
    notify_all id now e uids
      (run_request (notify id now uid comment (of_comment e.post_id e.comment_id)) w).1

unfoldable pub on_comment_added : (ℕ → ℕ) → ℕ → Handler
unfolding notify_all
on_comment_added id now (comment_added e) w = (ok tt, notify_all id now e (recipients e) w)
on_comment_added id now _ w = (ok tt, w)

unfoldable pub on_follow_received : (ℕ → ℕ) → ℕ → Handler
unfolding notify run_request
on_follow_received id now (follow_received e) w =
    run_request (notify id now e.followee_id Models.follow_received (of_follower e.follower_id)) w
on_follow_received id now _ w = (ok tt, w)

unfoldable pub on_badge_earned : (ℕ → ℕ) → ℕ → Handler
unfolding notify run_request
on_badge_earned id now (badge_earned e) w =
    run_request (notify id now e.user_id Models.badge_earned (of_badge e.badge_id e.badge_name)) w
on_badge_earned id now _ w = (ok tt, w)

-- (new_grade, new_tier) <= (old_grade, old_tier)
abbrev no_higher : ℕ → ℕ → ℕ → ℕ → Bool
no_higher new_grade new_tier old_grade old_tier =
    ltb new_grade old_grade || new_grade == old_grade && leb new_tier old_tier

unfoldable pub on_grade_up : (ℕ → ℕ) → ℕ → Handler
unfolding notify run_request
on_grade_up id now (user_grade_recomputed e) w =
    if no_higher e.new_grade e.new_tier e.old_grade e.old_tier
    then (ok tt, w)
    else run_request (notify id now e.user_id grade_up (of_grade e.new_grade e.new_tier)) w
on_grade_up id now _ w = (ok tt, w)
