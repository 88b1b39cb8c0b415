-- ===== src/Core/Database.antt =====
-- The tables that the modelled domains read and write, each a list of rows in the order of insertion.
use book_club.Prelude.{ℕ, List, []}
use book_club.Book.Models.{UserBook}
use book_club.Feed.Models.{
  FeedEvent, Post, Reaction, Comment, PostHighlight, FeedEventReaction, FeedComment,
}
use book_club.Social.Models.{Follow, Block, Report}
use book_club.Reading.Models.{ReadingSession, DailyReadingStat, UserGrade, Goal}
use book_club.Shield.Models.{ShieldPurchase}
use book_club.Club.Models.{
  ReadingClub, ClubTag, ClubMember, ClubEvent, EventAttendee, ClubRoom, ClubReadingPlan,
  ClubMessage, MessageRead, ClubSession, SessionAgenda, AgendaTopic, TopicComment,
}
use book_club.Notification.Models.{Notification, NotificationPreference}
use book_club.Challenge.Models.{Badge, Challenge, ChallengeParticipant, UserBadge}

pub record Database : Type 0 where
  -- the ids of the book catalog
  pub books : List ℕ
  pub user_books : List UserBook
  pub reading_sessions : List ReadingSession
  pub daily_reading_stats : List DailyReadingStat
  pub user_grades : List UserGrade
  pub goals : List Goal
  pub feed_events : List FeedEvent
  pub posts : List Post
  pub reactions : List Reaction
  pub comments : List Comment
  pub post_highlights : List PostHighlight
  pub feed_event_reactions : List FeedEventReaction
  pub feed_comments : List FeedComment
  pub follows : List Follow
  pub blocks : List Block
  pub reports : List Report
  pub shield_purchases : List ShieldPurchase
  pub notifications : List Notification
  pub notification_preferences : List NotificationPreference
  pub badges : List Badge
  pub challenges : List Challenge
  pub challenge_participants : List ChallengeParticipant
  pub user_badges : List UserBadge
  pub reading_clubs : List ReadingClub
  pub club_tags : List ClubTag
  pub club_members : List ClubMember
  pub club_events : List ClubEvent
  pub event_attendees : List EventAttendee
  pub club_rooms : List ClubRoom
  pub club_reading_plans : List ClubReadingPlan
  pub club_messages : List ClubMessage
  pub message_reads : List MessageRead
  pub club_sessions : List ClubSession
  pub session_agendas : List SessionAgenda
  pub agenda_topics : List AgendaTopic
  pub topic_comments : List TopicComment

abbrev pub empty_database : Database
empty_database = record {
  books = [];
  user_books = [];
  reading_sessions = [];
  daily_reading_stats = [];
  user_grades = [];
  goals = [];
  feed_events = [];
  posts = [];
  reactions = [];
  comments = [];
  post_highlights = [];
  feed_event_reactions = [];
  feed_comments = [];
  follows = [];
  blocks = [];
  reports = [];
  shield_purchases = [];
  notifications = [];
  notification_preferences = [];
  badges = [];
  challenges = [];
  challenge_participants = [];
  user_badges = [];
  reading_clubs = [];
  club_tags = [];
  club_members = [];
  club_events = [];
  event_attendees = [];
  club_rooms = [];
  club_reading_plans = [];
  club_messages = [];
  message_reads = [];
  club_sessions = [];
  session_agendas = [];
  agenda_topics = [];
  topic_comments = [];
}
