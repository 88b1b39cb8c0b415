-- ===== src/Club/Rooms/Closing.antt =====
-- Where the messages of a room go when the room is deleted.
use book_club.Prelude.{
  ℕ, ◌+◌, ◌≡◌, ◌∙◌, Bool, ◌&&◌, Option, none, some, List, [], ◌∷◌, arith, select, count_where,
  update_where, sum_where-sort_by, sum_where-select, sort_by, ap,
}
use book_club.Core.Session.{Session, ok}
use book_club.Club.Models.{ClubMessage}
use book_club.Club.Messages.{before_cursor, is_visible, newer, history, has_message_id}
use book_club.Club.Rooms.{in_room, without_room, delete_room}

-- The rows of a history.
abbrev in_history : ℕ → Option ℕ → Option ℕ → ClubMessage → Bool
in_history c room cursor m = before_cursor cursor m && is_visible c room m

history_count :
    (c id : ℕ) (room cursor : Option ℕ) (ms : List ClubMessage)
    → let rows = select (in_history c room cursor) ms in
      count_where (has_message_id id) (sort_by newer rows)
      ≡ count_where (λ m. in_history c room cursor m && has_message_id id m) ms
history_count c id room cursor ms =
    sum_where-sort_by (has_message_id id) (λ m. 1) newer (select (in_history c room cursor) ms)
    ∙ sum_where-select (has_message_id id) (in_history c room cursor) (λ m. 1) ms

moved :
    (c id room : ℕ) (cursor : Option ℕ) (ms : List ClubMessage)
    → count_where
        (λ m. in_history c none cursor m && has_message_id id m)
        (update_where (in_room room) without_room ms)
      ≡ count_where (λ m. in_history c none cursor m && has_message_id id m) ms
        + count_where (λ m. in_history c (some room) cursor m && has_message_id id m) ms
moved c id room cursor [] = omega arith
moved c id room cursor (m ∷ ms) = ground (arith, moved c id room cursor ms)

-- When the deletion of a room returns, the messages of the room stand in the history of the club-wide
-- channel: there every message is as often as it was there and in the room before.
pub delete_room-history :
    (c room u id : ℕ) (cursor : Option ℕ) (s s' : Session)
    → delete_room c room u s ≡ (ok tt, s')
    → count_where (has_message_id id) (history c none cursor s'.db)
      ≡ count_where (has_message_id id) (history c none cursor s.db)
        + count_where (has_message_id id) (history c (some room) cursor s.db)
unfolding delete_room
delete_room-history c room u id cursor s s' done =
    let after : s'.db.club_messages ≡ update_where (in_room room) without_room s.db.club_messages =
      ground (arith, done) in
    omega (
      arith,
      history_count c id none cursor s'.db.club_messages,
      history_count c id none cursor s.db.club_messages,
      history_count c id (some room) cursor s.db.club_messages,
      ap (count_where (λ m. in_history c none cursor m && has_message_id id m)) after,
      moved c id room cursor s.db.club_messages,
    )
