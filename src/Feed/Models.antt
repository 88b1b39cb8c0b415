-- ===== src/Feed/Models.antt =====
-- backend/app/domains/feed/models.py: posts, reactions, comments, highlights, and the activity stream. The
-- type and the metadata of a row of feed_events are one value; the type BOOK_REVIEWED, which only the
-- reviews record, is left out. A row of feed_events is known by its place in the table, since no code
-- changes or deletes such a row, and times of creation that no modelled code reads are left out.
use book_club.Prelude.{ℕ, Option, String, List}

pub data PostType : Type 0 where
  highlight thought question discussion : PostType

pub data ReactionType : Type 0 where
  idea fire think clap heart : ReactionType

pub record Post : Type 0 where
  pub id : ℕ
  pub book_id : ℕ
  pub user_id : ℕ
  pub post_type : PostType
  pub content : String
  pub image_keys : List String
  pub created_at : ℕ
  pub deleted_at : Option ℕ

pub record Reaction : Type 0 where
  pub id : ℕ
  pub post_id : ℕ
  pub user_id : ℕ
  pub reaction_type : ReactionType

pub record Comment : Type 0 where
  pub id : ℕ
  pub post_id : ℕ
  pub user_id : ℕ
  pub parent_id : Option ℕ
  pub content : String
  pub created_at : ℕ
  pub deleted_at : Option ℕ

pub record PostHighlight : Type 0 where
  pub id : ℕ
  pub user_id : ℕ
  pub user_book_id : ℕ
  pub quote_text : String
  pub page_number : Option ℕ
  pub note_text : Option String
  pub visibility : String
  pub shared_at : Option ℕ
  pub deleted_at : Option ℕ
  pub created_at : ℕ

pub data FeedEventKind : Type 0 where
  -- {"book_id": id, "chapter": n}
  chapter_milestone : ℕ → ℕ → FeedEventKind
  -- {"streak_days": n}
  streak_milestone : ℕ → FeedEventKind
  -- {"book_id": id}
  book_completed : ℕ → FeedEventKind
  -- {"club_id": id}
  club_joined : ℕ → FeedEventKind
  -- highlight, copy of the book, quote
  highlight_shared : ℕ → ℕ → String → FeedEventKind
  -- club, session and book
  session_opened : ℕ → ℕ → ℕ → FeedEventKind
  -- club, session and agenda
  agenda_published : ℕ → ℕ → ℕ → FeedEventKind
  -- club, session, agenda, topic, comment and, for a reply, its parent
  discussion_commented : ℕ → ℕ → ℕ → ℕ → ℕ → Option ℕ → FeedEventKind

pub record FeedEvent : Type 0 where
  pub user_id : ℕ
  pub kind : FeedEventKind

pub record FeedEventReaction : Type 0 where
  pub id : ℕ
  pub feed_event_id : ℕ
  pub user_id : ℕ
  pub emoji : String

pub record FeedComment : Type 0 where
  pub id : ℕ
  pub feed_event_id : ℕ
  pub user_id : ℕ
  pub parent_id : Option ℕ
  pub body : String
  pub created_at : ℕ
