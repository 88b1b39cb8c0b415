-- ===== src/Club/Events/Service.antt =====
-- backend/app/domains/club/service.py: ClubService on events.
use book_club.Prelude.{ℕ, Bool, false, Option, none, some, List, map, not, ◌==◌, ◌||◌}
use book_club.Core.Exceptions.{
  event_not_found, not_member, not_permitted, not_found_error, permission_denied_error,
}
use book_club.Core.Database.{Database}
use book_club.Core.Session.{Action, pure, raise, gets, require, raise_if, ◌>>=◌, ◌>>◌}
use book_club.Club.Models.{ClubRole, ReadingClub, ClubEvent, EventAttendee, RsvpStatus}
use book_club.Club.Repository.{get_by_id, is_member, get_member_role}
use book_club.Club.Guards.{is_host_role}
use book_club.Club.Events
use book_club.Club.Events.{
  EventData, EventChange, AttendeeCount, get_attendee_counts, get_my_rsvp_status, upsert_rsvp,
}

pub record ClubEventPublic : Type 0 where
  pub event : ClubEvent
  pub attendee_counts : AttendeeCount
  pub my_status : Option RsvpStatus

-- No role is "manager": an owner's role is the only other one that passes.
abbrev is_owner_of : Option ReadingClub → ℕ → Option ClubRole → Bool
is_owner_of none user_id role = false
is_owner_of (some club) user_id role = club.owner_id == user_id || is_host_role role

unfoldable is_owner_or_manager : ℕ → ℕ → Database → Bool
is_owner_or_manager club_id user_id db =
    is_owner_of (get_by_id club_id db) user_id (get_member_role club_id user_id db)

unfoldable pub assert_owner_or_manager : ℕ → ℕ → Action (Unit {0})
unfolding is_owner_or_manager
assert_owner_or_manager club_id user_id = do
  admitted ← gets (is_owner_or_manager club_id user_id)
  raise_if (not admitted) (permission_denied_error not_permitted)

unfoldable pub assert_member : ℕ → ℕ → Action (Unit {0})
assert_member club_id user_id = do
  joined ← gets (is_member club_id user_id)
  raise_if (not joined) (permission_denied_error not_member)

-- The event with the numbers of its answers and the caller's own.
abbrev as_public : ℕ → ClubEvent → Database → ClubEventPublic
as_public user_id event db = record {
  event = event;
  attendee_counts = get_attendee_counts event.id db;
  my_status = get_my_rsvp_status event.id user_id db;
}

unfoldable pub create_event : ℕ → ℕ → ℕ → ℕ → EventData → Action ClubEventPublic
unfolding assert_owner_or_manager Events.create_event
create_event id now user_id club_id req = do
  assert_owner_or_manager club_id user_id
  event ← Events.create_event id now club_id user_id req
  pure (record {
    event = event;
    attendee_counts = record { going_count = 0; maybe_count = 0; not_going_count = 0 };
    my_status = none;
  })

unfoldable list_events : ℕ → ℕ → ℕ → Bool → Action (List ClubEventPublic)
unfolding assert_member Events.get_events
list_events now club_id caller_user_id upcoming_only = do
  assert_member club_id caller_user_id
  gets (λ db.
      map (λ event. as_public caller_user_id event db)
        (Events.get_events now club_id upcoming_only db))

unfoldable pub get_event : ℕ → ℕ → Action ClubEventPublic
unfolding assert_member
get_event event_id caller_user_id = do
  event ← require (Events.get_event event_id) (not_found_error event_not_found)
  assert_member event.club_id caller_user_id
  gets (as_public caller_user_id event)

-- if not updated: raise NotFoundError(…)
abbrev found : Option ClubEvent → Action ClubEvent
found none = raise (not_found_error event_not_found)
found (some event) = pure event

unfoldable pub update_event : ℕ → ℕ → EventChange → Action ClubEventPublic
unfolding assert_owner_or_manager Events.update_event
update_event event_id user_id req = do
  event ← require (Events.get_event event_id) (not_found_error event_not_found)
  assert_owner_or_manager event.club_id user_id
  changed ← Events.update_event event_id req
  updated ← found changed
  gets (as_public user_id updated)

unfoldable pub delete_event : ℕ → ℕ → Action (Unit {0})
unfolding assert_owner_or_manager Events.delete_event
delete_event event_id user_id = do
  event ← require (Events.get_event event_id) (not_found_error event_not_found)
  assert_owner_or_manager event.club_id user_id
  Events.delete_event event_id

unfoldable pub rsvp : ℕ → ℕ → ℕ → RsvpStatus → Action (Unit {0})
unfolding assert_member upsert_rsvp
rsvp now user_id event_id status = do
  event ← require (Events.get_event event_id) (not_found_error event_not_found)
  assert_member event.club_id user_id
  upsert_rsvp now event_id user_id status

unfoldable pub get_attendees : ℕ → ℕ → Action (List EventAttendee)
unfolding assert_member Events.get_attendees
get_attendees event_id caller_user_id = do
  event ← require (Events.get_event event_id) (not_found_error event_not_found)
  assert_member event.club_id caller_user_id
  gets (Events.get_attendees event_id)
