-- ===== src/Tests/Meeting.antt =====
-- A club of the reader 7, its member 8, and a discussion on its book.
use book_club.Prelude.{◌+◌, true, none, some, [], ◌∷◌, arith}
use book_club.Core.Database.{Database, empty_database}
use book_club.Core.Session.{World}
use book_club.Club.Models.{
  ReadingClub, ClubSession, SessionAgenda, AgendaTopic, TopicComment, owner, member, going,
}
use book_club.Club.Repository.{CreateClubRequest, new_club, new_member}
use book_club.Club.Roster.{IsRoster}
use book_club.Club.Sessions.Repository.{ClubSessionCreate, new_session}
use book_club.Club.Agendas.Repository.{new_agenda, new_topic}
use book_club.Club.Comments.Repository.{new_comment}
use book_club.Club.Events.{new_event, new_answer}
use book_club.Club.Messages.{new_message}
use book_club.Club.Rooms.{new_room}
use book_club.Tests.Data.{noon}

abbrev pub request : CreateClubRequest
request = record {
  name = "club";
  description = none;
  book_id = some 100;
  max_members = 2;
  is_public = true;
  category = none;
  tags = "novel" ∷ [];
}

abbrev pub plan : ClubSessionCreate
plan = record {
  book_id = 100;
  title = "first";
  scope = none;
  presenter_id = some 8;
  scheduled_at = none;
}

abbrev pub club : ReadingClub
club = new_club 1 noon "ABCDEFGH" 7 request

abbrev pub row : ClubSession
row = new_session 2 noon 1 7 plan

abbrev pub agenda : SessionAgenda
agenda = new_agenda 3 noon 2 8 "agenda"

abbrev pub question : AgendaTopic
question = new_topic 4 noon 3 0 "why"

abbrev pub remark : TopicComment
remark = new_comment 10 noon 4 7 none "because"

abbrev pub reply : TopicComment
reply = new_comment 11 (noon + 1) 4 8 (some 10) "no"

-- The club with a session, the agenda of its presenter, a topic, a remark and a reply.
abbrev pub meeting : Database
meeting = record empty_database {
  books = 100 ∷ [];
  reading_clubs = club ∷ [];
  club_members = new_member 1 7 noon owner ∷ new_member 1 8 noon member ∷ [];
  club_sessions = row ∷ [];
  session_agendas = agenda ∷ [];
  agenda_topics = question ∷ [];
  topic_comments = remark ∷ reply ∷ [];
  club_events =
      new_event 20 noon 1 7 (record {
        title = "meet";
        description = none;
        event_at = noon;
        location = none;
        max_attendees = some 1;
      })
      ∷ [];
  event_attendees = new_answer noon 20 7 going ∷ [];
  club_rooms = new_room 40 noon 1 "late chapters" 3 7 ∷ [];
  club_messages =
      new_message 30 noon 1 8 "hello" none none
      ∷ new_message 31 (noon + 1) 1 8 "he did it" none (some 40)
      ∷ new_message 32 (noon + 2) 1 7 "hi" none none
      ∷ [];
}

abbrev pub met : World
met = record { db = meeting; published = [] }

pub meeting-IsRoster : IsRoster meeting
meeting-IsRoster = record {
  ids = λ c. ground arith;
  rows = λ c u. ground arith;
  known = λ c none'. ground arith;
  bounded = λ c club found. ground arith;
  host = λ c u club found. ground arith;
}
