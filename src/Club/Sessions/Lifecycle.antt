-- ===== src/Club/Sessions/Lifecycle.antt =====
-- How the requests on sessions move their statuses, and what they tell the feed.
use book_club.Prelude.{
  ℕ, ◌+◌, ◌≡◌, refl, inl, inr, Bool, false, Option, none, some, arith, ◌==◌, if◌then◌else◌,
  Bool-cases, Option-cases, first-some, first-updated, updated, count_where,
}
use book_club.Core.Database.{Database}
use book_club.Feed.Models.{
  FeedEvent, FeedEventKind, chapter_milestone, highlight_shared, streak_milestone, book_completed,
  club_joined, session_opened, agenda_published, discussion_commented,
}
use book_club.Club.Models.{ClubSession, SessionStatus, draft, opened, closed}
use book_club.Club.Guards.{has_session_id, get_session}
use book_club.Club.Sessions.Repository.{with_status, changed}
use book_club.Club.Sessions.Service.{status_index}

abbrev pub status_of : Option ClubSession → Option SessionStatus
status_of none = none
status_of (some row) = some row.status

-- The status of a session, where there is one.
abbrev pub status_at : ℕ → Database → Option SessionStatus
status_at session_id db = status_of (get_session session_id db)

-- The lifecycle of one session id.
pub data Moves : Option SessionStatus → Option SessionStatus → Type 0 where
  stays : {o : Option SessionStatus} → Moves o o
  begins : Moves none (some draft)
  opens : Moves (some draft) (some opened)
  closes : Moves (some opened) (some closed)

abbrev announced_session : FeedEventKind → Option ℕ
announced_session (streak_milestone n) = none
announced_session (book_completed b) = none
announced_session (club_joined c) = none
announced_session (chapter_milestone b n) = none
announced_session (highlight_shared h b quote) = none
announced_session (session_opened c session_id b) = some session_id
announced_session (agenda_published c x a) = none
announced_session (discussion_commented c x a t m p) = none

abbrev is_session : Option ℕ → ℕ → Bool
is_session none session_id = false
is_session (some x) session_id = x == session_id

-- A SESSION_OPENED row about the session.
abbrev pub announces : ℕ → FeedEvent → Bool
announces session_id e = is_session (announced_session e.kind) session_id

-- How many rows a session in a status has in the feed.
abbrev announcements : Option SessionStatus → ℕ
announcements none = 0
announcements (some draft) = 0
announcements (some opened) = 1
announcements (some closed) = 1

-- Every session that was opened was announced once, every other one never.
abbrev pub IsAnnounced : Database → Type 0
IsAnnounced db =
    (session_id : ℕ)
    → count_where (announces session_id) db.feed_events ≡ announcements (status_at session_id db)

-- What a request on sessions does to every session.
pub record Follows (db db' : Database) : Type 0 where
  pub moves : (session_id : ℕ) → Moves (status_at session_id db) (status_at session_id db')
  pub announced : IsAnnounced db → IsAnnounced db'

pub Follows-refl : (db : Database) → Follows db db
Follows-refl db = record { moves = λ x. stays; announced = λ h. h }

pub get_session-changed :
    (session_id x : ℕ) (f : ClubSession → ClubSession) (db : Database)
    → ((r : ClubSession) → (f r).id ≡ r.id)
    → get_session x (changed session_id f db)
      ≡ updated (has_session_id session_id) f (get_session x db)
get_session-changed session_id x f db same =
    first-updated (has_session_id x) (has_session_id session_id) f db.club_sessions
      (λ r. ground (arith, same r))

-- The one step that the order of the statuses leaves.
next_status : (a b : SessionStatus) → status_index b ≡ status_index a + 1 → Moves (some a) (some b)
next_status draft opened e = opens
next_status opened closed e = closes
next_status draft draft e = ground arith
next_status draft closed e = ground arith
next_status opened draft e = ground arith
next_status opened opened e = ground arith
next_status closed draft e = ground arith
next_status closed opened e = ground arith
next_status closed closed e = ground arith

-- The statuses after a change of one session.
pub status_at-changed :
    (x y : ℕ) (f : ClubSession → ClubSession) (row : ClubSession) (db : Database)
    → ((r : ClubSession) → (f r).id ≡ r.id)
    → get_session x db ≡ some row
    → status_at y (changed x f db) ≡ (if y == x then some (f row).status else status_at y db)
status_at-changed x y f row db same found = elim (Bool-cases (y == x)) [
  | inl here ↦
      ground (
        arith,
        get_session-changed x x f db same,
        first-some (has_session_id x) db.club_sessions row,
      )
  | inr there ↦ elim (Option-cases (get_session y db)) [
    | inl gone ↦ ground (arith, get_session-changed x y f db same)
    | inr (other, at_y) ↦ ground (
      arith,
      get_session-changed x y f db same,
      first-some (has_session_id y) db.club_sessions other,
    )
  ]
]

pub transition-Moves :
    (x y : ℕ) (status : SessionStatus) (row : ClubSession) (db : Database)
    → get_session x db ≡ some row
    → status_index status ≡ status_index row.status + 1
    → Moves (status_at y db) (status_at y (changed x (with_status status) db))
transition-Moves x y status row db found e =
    let after = status_at-changed x y (with_status status) row db (λ r. refl) found in
    elim (Bool-cases (y == x)) [
      | inl here ↦
          let same : y ≡ x = ground arith in
          let before : status_at y db ≡ some row.status = rw (same, found) refl in
          rw (after, here, before) (next_status row.status status e)
      | inr there ↦ rw (after, there) stays
    ]
