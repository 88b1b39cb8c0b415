-- ===== src/Club/Sessions/Requests.antt =====
-- The requests on sessions, one by one: what each does to the statuses and to the feed.
use book_club.Prelude.{
  ℕ, ◌+◌, ◌≡◌, refl, ◌⊎◌, inl, inr, Option, none, some, [], ◌∷◌, ◌++◌, arith, ◌==◌, if◌then◌else◌,
  Bool-cases, Option-cases, first-append, first-append_other, sum_where-append, first-append_found,
}
use book_club.Core.Database.{Database}
use book_club.Core.Session.{Session}
use book_club.Feed.Models.{FeedEvent, FeedEventKind, session_opened}
use book_club.Club.Models.{ClubSession, SessionStatus, draft, opened, closed}
use book_club.Club.Guards.{has_session_id, get_session}
use book_club.Club.Sessions.Repository.{
  ClubSessionCreate, new_session, with_session, with_status, with_presenter, changed,
}
use book_club.Club.Sessions.Service.{
  create_session, set_session_presenter, transition_session_status, status_index, is_opening,
}
use book_club.Club.Sessions.Lifecycle.{
  status_at, stays, begins, announces, Follows, Follows-refl, get_session-changed,
  status_at-changed, transition-Moves,
}

abbrev event_row : ℕ → FeedEventKind → FeedEvent
event_row user_id kind = record { user_id = user_id; kind = kind }

-- The tables after a transition that was admitted.
abbrev after_transition : ℕ → ℕ → ℕ → SessionStatus → ClubSession → Database → Database
after_transition c x u status row db =
    let db' = changed x (with_status status) db in
    if is_opening status
    then record db' {
      feed_events = db.feed_events ++ event_row u (session_opened c x row.book_id) ∷ [];
    }
    else db'

transition_session_status_outcome :
    (c x u : ℕ) (status : SessionStatus) (s : Session)
    → let after = (transition_session_status c x u status s).1.db in
      (after ≡ s.db)
      ⊎ ((row : ClubSession) × (get_session x s.db ≡ some row)
          × (status_index status ≡ status_index row.status + 1)
          × (after ≡ after_transition c x u status row s.db))
unfolding transition_session_status
transition_session_status_outcome c x u status s =
    ground (arith, get_session-changed x x (with_status status) s.db (λ r. refl))

after_transition-Follows :
    (c x u : ℕ) (status : SessionStatus) (row : ClubSession) (db : Database)
    → get_session x db ≡ some row
    → status_index status ≡ status_index row.status + 1
    → Follows db (after_transition c x u status row db)
after_transition-Follows c x u draft row db found e = ground arith
after_transition-Follows c x u opened row db found e = record {
  moves = λ y. transition-Moves x y opened row db found e;
  announced = λ h y. ground (
    arith,
    h y,
    status_at-changed x y (with_status opened) row db (λ r. refl) found,
    sum_where-append (announces y) (λ r. 1) db.feed_events
        (event_row u (session_opened c x row.book_id) ∷ []),
  );
}
after_transition-Follows c x u closed row db found e = record {
  moves = λ y. transition-Moves x y closed row db found e;
  announced = λ h y.
      ground (arith, h y, status_at-changed x y (with_status closed) row db (λ r. refl) found);
}

pub transition_session_status-Follows :
    (c x u : ℕ) (status : SessionStatus) (s : Session)
    → Follows s.db (transition_session_status c x u status s).1.db
transition_session_status-Follows c x u status s =
    elim (transition_session_status_outcome c x u status s) [
      | inl same ↦ rw same (Follows-refl s.db)
      | inr (row, found, e, after) ↦
          rw after (after_transition-Follows c x u status row s.db found e)
    ]

set_session_presenter_outcome :
    (c x u : ℕ) (presenter_id : Option ℕ) (s : Session)
    → let after = (set_session_presenter c x u presenter_id s).1.db in
      (after ≡ s.db)
      ⊎ ((row : ClubSession) × (get_session x s.db ≡ some row)
          × (after ≡ changed x (with_presenter presenter_id) s.db))
unfolding set_session_presenter
set_session_presenter_outcome c x u none s =
    ground (arith, get_session-changed x x (with_presenter none) s.db (λ r. refl))
set_session_presenter_outcome c x u (some p) s =
    ground (arith, get_session-changed x x (with_presenter (some p)) s.db (λ r. refl))

presented-status :
    (x y : ℕ) (p : Option ℕ) (row : ClubSession) (db : Database)
    → get_session x db ≡ some row
    → status_at y (changed x (with_presenter p) db) ≡ status_at y db
presented-status x y p row db found =
    let after = status_at-changed x y (with_presenter p) row db (λ r. refl) found in
    elim (Bool-cases (y == x)) [
      | inl here ↦ let same : y ≡ x = ground arith in rw (after, here, same, found) refl
      | inr there ↦ rw (after, there) refl
    ]

pub set_session_presenter-Follows :
    (c x u : ℕ) (presenter_id : Option ℕ) (s : Session)
    → Follows s.db (set_session_presenter c x u presenter_id s).1.db
set_session_presenter-Follows c x u p s = elim (set_session_presenter_outcome c x u p s) [
  | inl same ↦ rw same (Follows-refl s.db)
  | inr (row, found, after) ↦ rw after (record {
    moves = λ y. rw (presented-status x y p row s.db found) stays;
    announced = λ h y. rw (presented-status x y p row s.db found) (h y);
  })
]

create_session_outcome :
    (id now c u : ℕ) (req : ClubSessionCreate) (s : Session)
    → let after = (create_session id now c u req s).1.db in
      (after ≡ s.db) ⊎ (after ≡ with_session (new_session id now c u req) s.db)
unfolding create_session
create_session_outcome id now c u req s = elim (Option-cases req.presenter_id) [
  | inl nobody ↦ ground arith
  | inr (p, somebody) ↦ ground arith
]

created-status :
    (id now c u y : ℕ) (req : ClubSessionCreate) (db : Database)
    → get_session id db ≡ none
    → status_at y (with_session (new_session id now c u req) db)
      ≡ (if y == id then some draft else status_at y db)
created-status id now c u y req db new = elim (Option-cases (get_session y db)) [
  | inl gone ↦ ground (
    arith,
    first-append (has_session_id y) db.club_sessions (new_session id now c u req),
    first-append_other (has_session_id y) db.club_sessions (new_session id now c u req),
  )
  | inr (row, old) ↦ ground (
    arith,
    first-append_found (has_session_id y) db.club_sessions row (new_session id now c u req),
  )
]

pub create_session-Follows :
    (id now c u : ℕ) (req : ClubSessionCreate) (s : Session)
    → get_session id s.db ≡ none
    → Follows s.db (create_session id now c u req s).1.db
create_session-Follows id now c u req s new = elim (create_session_outcome id now c u req s) [
  | inl same ↦ rw same (Follows-refl s.db)
  | inr after ↦ rw after (record {
    moves = λ y. elim (Bool-cases (y == id)) [
      | inl here ↦
          let same : y ≡ id = ground arith in
          let before : status_at y s.db ≡ none = rw (same, new) refl in
          rw (created-status id now c u y req s.db new, here, before) begins
      | inr there ↦ rw (created-status id now c u y req s.db new, there) stays
    ];
    announced = λ h y. ground (arith, h y, created-status id now c u y req s.db new);
  })
]
