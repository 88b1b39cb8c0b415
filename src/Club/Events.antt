-- ===== src/Club/Events.antt =====
-- backend/app/domains/club: the events of a club and the answers to their invitations, the statements of
-- repository.py and the operations of service.py.
pub mod Service
pub mod Rsvp
use book_club.Prelude.{
  ℕ, Bool, true, false, Option, none, some, String, List, [], ◌∷◌, ◌++◌, ◌&&◌, ◌==◌, leb, is_some,
  select, first, count_where, update_where, delete_where, sort_by, if◌then◌else◌,
}
use book_club.Core.Database.{Database}
use book_club.Core.Session.{Action, pure, gets, when, modify, ◌>>=◌, ◌>>◌}
use book_club.Club.Models.{ClubEvent, EventAttendee, RsvpStatus, going, maybe, not_going}

-- ClubEventCreate
pub record EventData : Type 0 where
  pub title : String
  pub description : Option String
  pub event_at : ℕ
  pub location : Option String
  pub max_attendees : Option ℕ

-- ClubEventUpdate
pub record EventChange : Type 0 where
  pub title : Option String
  pub description : Option String
  pub event_at : Option ℕ
  pub location : Option String
  pub max_attendees : Option ℕ

abbrev has_event_id : ℕ → ClubEvent → Bool
has_event_id event_id e = e.id == event_id

abbrev pub get_event : ℕ → Database → Option ClubEvent
get_event event_id db = first (has_event_id event_id) db.club_events

abbrev pub new_event : ℕ → ℕ → ℕ → ℕ → EventData → ClubEvent
new_event id now club_id created_by req = record {
  id = id;
  club_id = club_id;
  title = req.title;
  description = req.description;
  location = req.location;
  event_at = req.event_at;
  max_attendees = req.max_attendees;
  created_by = created_by;
  created_at = now;
}

unfoldable pub create_event : ℕ → ℕ → ℕ → ℕ → EventData → Action ClubEvent
create_event id now club_id created_by req = do
  modify (λ db. record db {
    club_events = db.club_events ++ new_event id now club_id created_by req ∷ [];
  })
  pure (new_event id now club_id created_by req)

-- Whether an event of the club is listed: `upcoming_only` leaves out those that are over.
abbrev is_event_of : ℕ → ℕ → Bool → ClubEvent → Bool
is_event_of now club_id upcoming_only e =
    e.club_id == club_id && (if upcoming_only then leb now e.event_at else true)

-- ORDER BY event_at
abbrev event_before : ClubEvent → ClubEvent → Bool
event_before a b = leb a.event_at b.event_at

unfoldable get_events : ℕ → ℕ → Bool → Database → List ClubEvent
get_events now club_id upcoming_only db =
    sort_by event_before (select (is_event_of now club_id upcoming_only) db.club_events)

-- if value is not None: column = value
abbrev keep {ℓ} : {A : Type ℓ} → Option A → A → A
keep none old = old
keep (some new) old = new

abbrev keep_some {ℓ} : {A : Type ℓ} → Option A → Option A → Option A
keep_some none old = old
keep_some (some new) old = some new

abbrev event_changed : EventChange → ClubEvent → ClubEvent
event_changed req e = record e {
  title = keep req.title e.title;
  description = keep_some req.description e.description;
  event_at = keep req.event_at e.event_at;
  location = keep_some req.location e.location;
  max_attendees = keep_some req.max_attendees e.max_attendees;
}

-- The row as it was changed, if there is one.
unfoldable pub update_event : ℕ → EventChange → Action (Option ClubEvent)
update_event event_id req = do
  modify (λ db. record db {
    club_events = update_where (has_event_id event_id) (event_changed req) db.club_events;
  })
  gets (get_event event_id)

-- The answers to the invitation go with the event.
unfoldable pub delete_event : ℕ → Action (Unit {0})
delete_event event_id = modify (λ db. record db {
  club_events = delete_where (has_event_id event_id) db.club_events;
  event_attendees = delete_where (λ a. a.event_id == event_id) db.event_attendees;
})

abbrev pub is_answer : ℕ → ℕ → EventAttendee → Bool
is_answer event_id user_id a = a.event_id == event_id && a.user_id == user_id

abbrev pub reanswered : RsvpStatus → ℕ → EventAttendee → EventAttendee
reanswered status now a = record a { status = status; responded_at = now }

abbrev pub new_answer : ℕ → ℕ → ℕ → RsvpStatus → EventAttendee
new_answer now event_id user_id status = record {
  event_id = event_id;
  user_id = user_id;
  status = status;
  responded_at = now;
}

-- The answers after an answer.
abbrev pub upserted : ℕ → ℕ → ℕ → RsvpStatus → List EventAttendee → List EventAttendee
upserted now event_id user_id status rows =
    if is_some (first (is_answer event_id user_id) rows)
    then update_where (is_answer event_id user_id) (reanswered status now) rows
    else rows ++ new_answer now event_id user_id status ∷ []

unfoldable pub upsert_rsvp : ℕ → ℕ → ℕ → RsvpStatus → Action (Unit {0})
upsert_rsvp now event_id user_id status =
    modify (λ db. record db {
      event_attendees = upserted now event_id user_id status db.event_attendees;
    })

abbrev pub same_status : RsvpStatus → RsvpStatus → Bool
same_status going going = true
same_status maybe maybe = true
same_status not_going not_going = true
same_status _ _ = false

pub record AttendeeCount : Type 0 where
  pub going_count : ℕ
  pub maybe_count : ℕ
  pub not_going_count : ℕ

abbrev count_of : ℕ → RsvpStatus → Database → ℕ
count_of event_id status db =
    count_where (λ a. a.event_id == event_id && same_status a.status status) db.event_attendees

abbrev pub get_attendee_counts : ℕ → Database → AttendeeCount
get_attendee_counts event_id db = record {
  going_count = count_of event_id going db;
  maybe_count = count_of event_id maybe db;
  not_going_count = count_of event_id not_going db;
}

abbrev pub status_of : Option EventAttendee → Option RsvpStatus
status_of none = none
status_of (some a) = some a.status

abbrev pub get_my_rsvp_status : ℕ → ℕ → Database → Option RsvpStatus
get_my_rsvp_status event_id user_id db =
    status_of (first (is_answer event_id user_id) db.event_attendees)

-- ORDER BY responded_at
abbrev attendee_before : EventAttendee → EventAttendee → Bool
attendee_before a b = leb a.responded_at b.responded_at

-- Without the nicknames that the join adds.
unfoldable pub get_attendees : ℕ → Database → List EventAttendee
get_attendees event_id db =
    sort_by attendee_before (select (λ a. a.event_id == event_id) db.event_attendees)
