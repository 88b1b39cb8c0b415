-- ===== src/Club/Rooms.antt =====
-- backend/app/domains/club: the rooms of a club, the statements of repository.py and the operations of
-- service.py. The column `current_chapter` of user_books is an argument, where the user has the book.
pub mod Closing
use book_club.Prelude.{
  ℕ, Bool, true, false, Option, none, some, String, List, [], ◌∷◌, ◌++◌, map, not, ◌&&◌, ◌||◌, ◌==◌,
  ltb, leb, some_eq, select, first, update_where, delete_where, sort_by, if◌then◌else◌,
}
use book_club.Core.Exceptions.{room_not_found, not_found_error}
use book_club.Core.Database.{Database}
use book_club.Core.Session.{Action, pure, gets, require, raise_if, modify, ◌>>=◌, ◌>>◌}
use book_club.Club.Models.{ReadingClub, ClubRoom, ClubMessage}
use book_club.Club.Repository.{get_by_id}
use book_club.Club.Events.Service.{assert_owner_or_manager, assert_member}

abbrev pub new_room : ℕ → ℕ → ℕ → String → ℕ → ℕ → ClubRoom
new_room id now club_id name progress_gate created_by = record {
  id = id;
  club_id = club_id;
  name = name;
  progress_gate = progress_gate;
  created_by = created_by;
  created_at = now;
}

-- ORDER BY progress_gate, created_at
abbrev room_before : ClubRoom → ClubRoom → Bool
room_before a b =
    ltb a.progress_gate b.progress_gate
    || (a.progress_gate == b.progress_gate && leb a.created_at b.created_at)

unfoldable get_rooms : ℕ → Database → List ClubRoom
get_rooms club_id db = sort_by room_before (select (λ r. r.club_id == club_id) db.club_rooms)

abbrev has_room_id : ℕ → ClubRoom → Bool
has_room_id room_id r = r.id == room_id

abbrev get_room : ℕ → Database → Option ClubRoom
get_room room_id db = first (has_room_id room_id) db.club_rooms

abbrev pub in_room : ℕ → ClubMessage → Bool
in_room room_id m = some_eq m.room_id room_id

abbrev pub without_room : ClubMessage → ClubMessage
without_room m = record m { room_id = none }

-- The DELETE. Its foreign key sets the room of the room's messages to NULL.
abbrev closed_room : ℕ → Database → Database
closed_room room_id db = record db {
  club_rooms = delete_where (has_room_id room_id) db.club_rooms;
  club_messages = update_where (in_room room_id) without_room db.club_messages;
}

abbrev or_zero : Option ℕ → ℕ
or_zero none = 0
or_zero (some n) = n

-- The club's book, and then the chapter of it.
abbrev chapter_in : Option ReadingClub → (ℕ → Option ℕ) → ℕ
chapter_in none chapter_of = 0
chapter_in (some club) chapter_of = elim club.book_id [
  | none ↦ 0
  | some book_id ↦ or_zero (chapter_of book_id)
]

unfoldable get_user_chapter_for_club : (ℕ → ℕ → Option ℕ) → ℕ → ℕ → Database → ℕ
get_user_chapter_for_club current_chapter user_id club_id db =
    chapter_in (get_by_id club_id db) (current_chapter user_id)

-- ClubRoomPublic: the room and `can_enter`.
abbrev room_public : ℕ → ClubRoom → ClubRoom × Bool
room_public caller_chapter room = (room, leb room.progress_gate caller_chapter)

unfoldable create_room : (ℕ → ℕ → Option ℕ) → ℕ → ℕ → ℕ → ℕ → String → ℕ → Action (ClubRoom × Bool)
unfolding assert_owner_or_manager get_user_chapter_for_club
create_room current_chapter id now club_id user_id name progress_gate = do
  assert_owner_or_manager club_id user_id
  modify (λ db. record db {
    club_rooms = db.club_rooms ++ new_room id now club_id name progress_gate user_id ∷ [];
  })
  caller_chapter ← gets (get_user_chapter_for_club current_chapter user_id club_id)
  pure (room_public caller_chapter (new_room id now club_id name progress_gate user_id))

unfoldable list_rooms : (ℕ → ℕ → Option ℕ) → ℕ → ℕ → Action (List (ClubRoom × Bool))
unfolding assert_member get_rooms get_user_chapter_for_club
list_rooms current_chapter club_id caller_user_id = do
  assert_member club_id caller_user_id
  rooms ← gets (get_rooms club_id)
  caller_chapter ← gets (get_user_chapter_for_club current_chapter caller_user_id club_id)
  pure (map (room_public caller_chapter) rooms)

unfoldable pub delete_room : ℕ → ℕ → ℕ → Action (Unit {0})
unfolding assert_owner_or_manager
delete_room club_id room_id user_id = do
  room ← require (get_room room_id) (not_found_error room_not_found)
  raise_if (not (room.club_id == club_id)) (not_found_error room_not_found)
  assert_owner_or_manager club_id user_id
  modify (closed_room room_id)
