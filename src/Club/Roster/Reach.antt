-- ===== src/Club/Roster/Reach.antt =====
-- The requests that change clubs and memberships, as steps of the process in any order.
use book_club.Prelude.{
  ℕ, ◌≤◌, ◌<◌, ◌≡◌, ◌⊎◌, inl, inr, false, Option, none, some, String, [], ◌∷◌, ◌++◌, arith, ◌==◌,
  first, first-by_key,
}
use book_club.Core.Database.{Database}
use book_club.Core.Session.{Session, World, run_request}
use book_club.Core.Session.Atomic.{run_request-keeps, fresh}
use book_club.Feed.Models.{FeedEvent, club_joined}
use book_club.Club.Models.{ReadingClub, owner, member}
use book_club.Club.Repository.{
  CreateClubRequest, has_club_id, get_by_id, get_by_invite_code, is_row, member_count, new_club,
  new_member, added, with_member, without_member, rebooked,
}
use book_club.Club.Membership.{create_club, join_by_code, join_public, leave_club, set_book}
use book_club.Club.Plans.{update_member_progress}
use book_club.Club.Roster.Progress.{update_member_progress-IsRoster}
use book_club.Club.Roster.{
  IsRoster, with_member-IsRoster, without_member-IsRoster, rebooked-IsRoster, added-IsRoster,
}

abbrev with_event : FeedEvent → Database → Database
with_event e db = record db { feed_events = db.feed_events ++ e ∷ [] }

-- An event of the feed is no matter of the rolls.
with_event-IsRoster : (e : FeedEvent) (db : Database) → IsRoster db → IsRoster (with_event e db)
with_event-IsRoster e db h = record {
  ids = h.ids;
  rows = h.rows;
  known = h.known;
  bounded = h.bounded;
  host = h.host;
}

create_club_outcome :
    (id now u : ℕ) (code : String) (req : CreateClubRequest) (s : Session)
    → let after = (create_club id now code u req s).1.db in
      (after ≡ s.db)
      ⊎ (after ≡ added (new_club id now code u req) (new_member id u now owner) req.tags s.db)
unfolding create_club
create_club_outcome id now u code req s = ground arith

create_club-IsRoster :
    (id now u : ℕ) (code : String) (req : CreateClubRequest) (s : Session)
    → 1 ≤ req.max_members
    → get_by_id id s.db ≡ none
    → IsRoster s.db
    → IsRoster (create_club id now code u req s).1.db
create_club-IsRoster id now u code req s room new h =
    elim (create_club_outcome id now u code req s) [
      | inl same ↦ rw same h
      | inr grown ↦ rw grown (added-IsRoster id now u code req s.db room new h)
    ]

-- What admits a user to a club.
abbrev Admits : ReadingClub → ℕ → Database → Type 0
Admits club u db =
    (member_count club.id db < club.max_members) × (first (is_row club.id u) db.club_members ≡ none)

join_by_code_outcome :
    (upper : String → String) (now u : ℕ) (code : String) (s : Session)
    → let after = (join_by_code upper now u code s).1.db in
      (after ≡ s.db)
      ⊎ ((club : ReadingClub) × (get_by_invite_code (upper code) s.db ≡ some club)
          × Admits club u s.db
          × (after ≡ with_member (new_member club.id u now member) s.db))
unfolding join_by_code
join_by_code_outcome upper now u code s = ground arith

join_by_code-IsRoster :
    (upper : String → String) (now u : ℕ) (code : String) (s : Session)
    → IsRoster s.db
    → IsRoster (join_by_code upper now u code s).1.db
join_by_code-IsRoster upper now u code s h = elim (join_by_code_outcome upper now u code s) [
  | inl same ↦ rw same h
  | inr (club, found, (room, new), grown) ↦ rw grown (
      with_member-IsRoster now club.id u club s.db
        (first-by_key _ (has_club_id club.id) s.db.reading_clubs club (h.ids club.id) found
          (ground arith))
        room new h)
]

join_public_outcome :
    (now c u : ℕ) (s : Session)
    → let after = (join_public now c u s).1.db in
      (after ≡ s.db)
      ⊎ ((club : ReadingClub) × (get_by_id c s.db ≡ some club)
          × (member_count c s.db < club.max_members)
          × (first (is_row c u) s.db.club_members ≡ none)
          × (after
              ≡ with_event
                  (record { user_id = u; kind = club_joined c })
                  (with_member (new_member c u now member) s.db)))
unfolding join_public
join_public_outcome now c u s = ground arith

join_public-IsRoster :
    (now c u : ℕ) (s : Session) → IsRoster s.db → IsRoster (join_public now c u s).1.db
join_public-IsRoster now c u s h = elim (join_public_outcome now c u s) [
  | inl same ↦ rw same h
  | inr (club, found, room, new, grown) ↦
      rw grown (with_event-IsRoster _ _ (with_member-IsRoster now c u club s.db found room new h))
]

leave_club_outcome :
    (u c : ℕ) (s : Session)
    → let after = (leave_club u c s).1.db in
      (after ≡ s.db)
      ⊎ ((club : ReadingClub) × (get_by_id c s.db ≡ some club)
          × ((club.owner_id == u) ≡ false)
          × (after ≡ without_member c u s.db))
unfolding leave_club
leave_club_outcome u c s = ground arith

leave_club-IsRoster : (u c : ℕ) (s : Session) → IsRoster s.db → IsRoster (leave_club u c s).1.db
leave_club-IsRoster u c s h = elim (leave_club_outcome u c s) [
  | inl same ↦ rw same h
  | inr (club, found, other, gone) ↦ rw gone (without_member-IsRoster c u club s.db found other h)
]

set_book_outcome :
    (c u : ℕ) (book_id : Option ℕ) (s : Session)
    → let after = (set_book c u book_id s).1.db in
      (after ≡ s.db) ⊎ (after ≡ rebooked c book_id s.db)
unfolding set_book
set_book_outcome c u book_id s = ground arith

set_book-IsRoster :
    (c u : ℕ) (book_id : Option ℕ) (s : Session)
    → IsRoster s.db
    → IsRoster (set_book c u book_id s).1.db
set_book-IsRoster c u book_id s h = elim (set_book_outcome c u book_id s) [
  | inl same ↦ rw same h
  | inr changed ↦ rw changed (rebooked-IsRoster c book_id s.db h)
]

-- The id of a new club is drawn fresh, and its request passed the schema, which wants room for a member.
pub data Step (upper : String → String) : World → World → Type 0 where
  creates :
      (w : World) (id now u : ℕ) (code : String) (req : CreateClubRequest)
      → 1 ≤ req.max_members
      → get_by_id id w.db ≡ none
      → Step upper w (run_request (create_club id now code u req) w).1
  joins_by_code :
      (w : World) (now u : ℕ) (code : String)
      → Step upper w (run_request (join_by_code upper now u code) w).1
  joins_public : (w : World) (now c u : ℕ) → Step upper w (run_request (join_public now c u) w).1
  leaves : (w : World) (u c : ℕ) → Step upper w (run_request (leave_club u c) w).1
  sets_book :
      (w : World) (c u : ℕ) (book_id : Option ℕ)
      → Step upper w (run_request (set_book c u book_id) w).1
  progresses :
      (w : World) (now c u page : ℕ)
      → Step upper w (run_request (update_member_progress now c u page) w).1

pub data Reach (upper : String → String) (w : World) : World → Type 0 where
  here : Reach upper w w
  next : {v u : World} → Reach upper w v → Step upper v u → Reach upper w u

Step-IsRoster :
    {upper : String → String} {w v : World} → Step upper w v → IsRoster w.db → IsRoster v.db
Step-IsRoster (creates w id now u code req room new) h =
    run_request-keeps IsRoster (create_club id now code u req) w h
      (create_club-IsRoster id now u code req (fresh w) room new h)
Step-IsRoster {upper} (joins_by_code w now u code) h =
    run_request-keeps IsRoster (join_by_code upper now u code) w h
      (join_by_code-IsRoster upper now u code (fresh w) h)
Step-IsRoster (joins_public w now c u) h =
    run_request-keeps IsRoster (join_public now c u) w h (join_public-IsRoster now c u (fresh w) h)
Step-IsRoster (leaves w u c) h =
    run_request-keeps IsRoster (leave_club u c) w h (leave_club-IsRoster u c (fresh w) h)
Step-IsRoster (sets_book w c u book_id) h =
    run_request-keeps IsRoster (set_book c u book_id) w h
      (set_book-IsRoster c u book_id (fresh w) h)
Step-IsRoster (progresses w now c u page) h =
    run_request-keeps IsRoster (update_member_progress now c u page) w h
      (update_member_progress-IsRoster now c u page (fresh w) h)

-- Whatever transactions create clubs, under fresh ids and with room for a member, join them by code or as
-- public clubs, leave them, set their books and tell the page a member has read to, in any order and
-- refused or not: where it held before, club ids are unique, a member has one row, a row belongs to a
-- club, no club has more members than it admits, and a user has the owner's role in a club exactly if the
-- club names the user its owner.
pub Reach-IsRoster :
    {upper : String → String} {w v : World} → IsRoster w.db → Reach upper w v → IsRoster v.db
Reach-IsRoster h here = h
Reach-IsRoster h (next r st) = Step-IsRoster st (Reach-IsRoster h r)
