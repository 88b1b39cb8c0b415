-- ===== src/Club/Messages.antt =====
-- backend/app/domains/club: the chat of a club, the statements of repository.py on its messages. The names
-- that the join with the users adds are left out.
pub mod Service
pub mod Deletion
pub mod Order
pub mod Paging
use book_club.Prelude.{
  ℕ, Bool, true, false, Option, none, some, String, List, [], ◌∷◌, ◌++◌, map, not, ◌&&◌, ◌==◌, ltb,
  leb, is_some, some_eq, select, first, count_where, update_where, sort_by, take, if◌then◌else◌,
}
use book_club.Core.Database.{Database}
use book_club.Core.Session.{Action, pure, when, modify, gets, ◌>>=◌, ◌>>◌}
use book_club.Club.Models.{ClubMessage, MessageRead}

abbrev pub new_message : ℕ → ℕ → ℕ → ℕ → String → Option String → Option ℕ → ClubMessage
new_message id now club_id user_id content media_url room_id = record {
  id = id;
  club_id = club_id;
  room_id = room_id;
  user_id = user_id;
  content = content;
  media_url = media_url;
  created_at = now;
  edited_at = none;
  deleted_at = none;
}

unfoldable pub create_message :
    ℕ → ℕ → ℕ → ℕ → String → Option String → Option ℕ → Action ClubMessage
create_message id now club_id user_id content media_url room_id =
    let msg = new_message id now club_id user_id content media_url room_id in
    do modify (λ db. record db { club_messages = db.club_messages ++ msg ∷ [] }); pure msg

-- The room that is asked for, or the club-wide channel.
abbrev in_channel : Option ℕ → ClubMessage → Bool
in_channel none m = not (is_some m.room_id)
in_channel (some room_id) m = some_eq m.room_id room_id

abbrev pub before_cursor : Option ℕ → ClubMessage → Bool
before_cursor none m = true
before_cursor (some cursor) m = ltb m.created_at cursor

-- A message of the channel that is not deleted.
abbrev pub is_visible : ℕ → Option ℕ → ClubMessage → Bool
is_visible club_id room_id m =
    m.club_id == club_id && not (is_some m.deleted_at) && in_channel room_id m

-- ORDER BY created_at DESC
abbrev pub newer : ClubMessage → ClubMessage → Bool
newer a b = leb b.created_at a.created_at

abbrev pub read_count : Database → ℕ → ℕ
read_count db message_id = count_where (λ r. r.message_id == message_id) db.message_reads

-- The messages of the channel before the cursor, newest first.
abbrev pub history : ℕ → Option ℕ → Option ℕ → Database → List ClubMessage
history club_id room_id cursor db =
    sort_by newer
      (select (λ m. before_cursor cursor m && is_visible club_id room_id m) db.club_messages)

unfoldable pub list_messages : ℕ → Option ℕ → ℕ → Option ℕ → Database → List (ClubMessage × ℕ)
list_messages club_id cursor limit room_id db =
    map (λ m. (m, read_count db m.id)) (take limit (history club_id room_id cursor db))

abbrev pub has_message_id : ℕ → ClubMessage → Bool
has_message_id message_id m = m.id == message_id

abbrev pub get_message : ℕ → Database → Option ClubMessage
get_message message_id db = first (has_message_id message_id) db.club_messages

abbrev pub message_changed : ℕ → (ClubMessage → ClubMessage) → Database → Database
message_changed message_id f db = record db {
  club_messages = update_where (has_message_id message_id) f db.club_messages;
}

abbrev pub edited : String → ℕ → ClubMessage → ClubMessage
edited content now m = record m { content = content; edited_at = some now }

abbrev pub deleted : ℕ → ClubMessage → ClubMessage
deleted now m = record m { deleted_at = some now }

unfoldable pub update_message_content : ℕ → String → ℕ → Action (Unit {0})
update_message_content message_id content edited_at =
    modify (message_changed message_id (edited content edited_at))

unfoldable pub soft_delete_message : ℕ → ℕ → Action (Unit {0})
soft_delete_message message_id deleted_at = modify (message_changed message_id (deleted deleted_at))

abbrev is_read_by : ℕ → ℕ → MessageRead → Bool
is_read_by message_id user_id r = r.message_id == message_id && r.user_id == user_id

abbrev has_read : ℕ → ℕ → Database → Bool
has_read message_id user_id db = is_some (first (is_read_by message_id user_id) db.message_reads)

abbrev with_read : MessageRead → Database → Database
with_read r db = record db { message_reads = db.message_reads ++ r ∷ [] }

unfoldable pub upsert_message_read : ℕ → ℕ → ℕ → Action (Unit {0})
upsert_message_read now message_id user_id = do
  existing ← gets (has_read message_id user_id)
  when (not existing)
      (modify (with_read (record { message_id = message_id; user_id = user_id; read_at = now })))
