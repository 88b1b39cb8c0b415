-- ===== src/Club/Models.antt =====
-- backend/app/domains/club/models.py: the rows of the club domain's tables, without the monetization hooks
-- that nothing reads. Times are instants.
use book_club.Prelude.{ℕ, Bool, true, false, Option, String}

pub data ClubRole : Type 0 where
  owner member : ClubRole

pub data RsvpStatus : Type 0 where
  going maybe not_going : RsvpStatus

-- "draft", "open", "closed"
pub data SessionStatus : Type 0 where
  draft opened closed : SessionStatus

-- "draft", "published"
pub data AgendaStatus : Type 0 where
  unpublished published : AgendaStatus

pub record ReadingClub : Type 0 where
  pub id : ℕ
  pub name : String
  pub description : Option String
  pub owner_id : ℕ
  pub book_id : Option ℕ
  pub invite_code : String
  pub max_members : ℕ
  pub is_public : Bool
  pub category : Option String
  pub created_at : ℕ

pub record ClubTag : Type 0 where
  pub club_id : ℕ
  pub tag : String

pub record ClubMember : Type 0 where
  pub club_id : ℕ
  pub user_id : ℕ
  pub role : ClubRole
  pub joined_at : ℕ
  pub current_page : ℕ
  pub last_page_updated_at : Option ℕ

pub record ClubEvent : Type 0 where
  pub id : ℕ
  pub club_id : ℕ
  pub title : String
  pub description : Option String
  pub location : Option String
  pub event_at : ℕ
  pub max_attendees : Option ℕ
  pub created_by : ℕ
  pub created_at : ℕ

pub record EventAttendee : Type 0 where
  pub event_id : ℕ
  pub user_id : ℕ
  pub status : RsvpStatus
  pub responded_at : ℕ

pub record ClubRoom : Type 0 where
  pub id : ℕ
  pub club_id : ℕ
  pub name : String
  pub progress_gate : ℕ
  pub created_by : ℕ
  pub created_at : ℕ

-- Dates are ordinals.
pub record ClubReadingPlan : Type 0 where
  pub id : ℕ
  pub club_id : ℕ
  pub book_id : ℕ
  pub start_date : ℕ
  pub end_date : ℕ
  pub weekly_pages : ℕ
  pub created_by : ℕ
  pub created_at : ℕ

pub record ClubMessage : Type 0 where
  pub id : ℕ
  pub club_id : ℕ
  pub room_id : Option ℕ
  pub user_id : ℕ
  pub content : String
  pub media_url : Option String
  pub created_at : ℕ
  pub edited_at : Option ℕ
  pub deleted_at : Option ℕ

pub record MessageRead : Type 0 where
  pub message_id : ℕ
  pub user_id : ℕ
  pub read_at : ℕ

pub record ClubSession : Type 0 where
  pub id : ℕ
  pub club_id : ℕ
  pub book_id : ℕ
  pub title : String
  pub scope : Option String
  pub presenter_id : Option ℕ
  pub scheduled_at : Option ℕ
  pub status : SessionStatus
  pub created_by : ℕ
  pub created_at : ℕ

pub record SessionAgenda : Type 0 where
  pub id : ℕ
  pub session_id : ℕ
  pub author_id : ℕ
  pub body : String
  pub status : AgendaStatus
  pub published_at : Option ℕ
  pub created_at : ℕ

pub record AgendaTopic : Type 0 where
  pub id : ℕ
  pub agenda_id : ℕ
  pub position : ℕ
  pub prompt : String
  pub created_at : ℕ

pub record TopicComment : Type 0 where
  pub id : ℕ
  pub topic_id : ℕ
  pub author_id : ℕ
  pub parent_comment_id : Option ℕ
  pub body : String
  pub created_at : ℕ
  pub edited_at : Option ℕ

-- role == ClubRole.OWNER
abbrev pub is_owner : ClubRole → Bool
is_owner owner = true
is_owner member = false

abbrev pub is_published : AgendaStatus → Bool
is_published unpublished = false
is_published published = true
