-- ===== src/Club/Messages/Deletion.antt =====
-- What the deletion of a message means.
use book_club.Prelude.{
  ℕ, ◌≡◌, refl, ◌∙◌, true, ◌&&◌, Option, some, String, List, [], ◌∷◌, arith, ◌==◌, is_some, select,
  count_where, sum_where-sort_by, sum_where-select, update_where, first-update,
}
use book_club.Core.Session.{Session, ok, is_err}
use book_club.Club.Models.{ClubMessage}
use book_club.Club.Messages.{
  before_cursor, is_visible, newer, history, has_message_id, get_message, message_changed, deleted,
}
use book_club.Club.Messages.Service.{edit_message, delete_message}

-- A deleted message is in no page of any channel.
deleted_hidden :
    (id now c : ℕ) (room cursor : Option ℕ) (ms : List ClubMessage)
    → count_where
        (λ m. (before_cursor cursor m && is_visible c room m) && m.id == id)
        (update_where (has_message_id id) (deleted now) ms)
      ≡ 0
deleted_hidden id now c room cursor [] = refl
deleted_hidden id now c room cursor (m ∷ ms) =
    ground (arith, deleted_hidden id now c room cursor ms)

-- The message after a deletion that returned.
delete_message_done :
    (now c u id : ℕ) (s s' : Session)
    → delete_message now c u id s ≡ (ok tt, s')
    → (m : ClubMessage) × (get_message id s.db ≡ some m)
      × (m.user_id ≡ u)
      × (s'.db ≡ message_changed id (deleted now) s.db)
unfolding delete_message
delete_message_done now c u id s s' done = ground (arith, done)

-- An edit and a deletion are refused, and change nothing.
abbrev pub IsFinal : ℕ → ℕ → ℕ → ℕ → String → Session → Type 0
IsFinal now c u id content s =
    (is_err (edit_message now c u id content s).0 ≡ true)
    × ((edit_message now c u id content s).1 ≡ s)
    × (is_err (delete_message now c u id s).0 ≡ true)
    × ((delete_message now c u id s).1 ≡ s)

refused_after :
    (now c u id : ℕ) (content : String) (s : Session) (m : ClubMessage)
    → get_message id s.db ≡ some m
    → is_some m.deleted_at ≡ true
    → IsFinal now c u id content s
unfolding edit_message delete_message
refused_after now c u id content s m found gone = ground arith

-- After a deletion of a message that returned, the message is in the history of no club, of no channel and
-- before no cursor, and every edit and every further deletion of it, by anyone, is refused and changes
-- nothing.
pub delete_message-IsFinal :
    (now c u id now' c' u' : ℕ) (room cursor : Option ℕ) (content : String) (s s' : Session)
    → delete_message now c u id s ≡ (ok tt, s')
    → (count_where (has_message_id id) (history c' room cursor s'.db) ≡ 0)
      × IsFinal now' c' u' id content s'
delete_message-IsFinal now c u id now' c' u' room cursor content s s' done =
    let (m, found, author, after) = delete_message_done now c u id s s' done in
    let shown = λ (x : ClubMessage). before_cursor cursor x && is_visible c' room x in
    let hidden = deleted_hidden id now c' room cursor s.db.club_messages in
    let at_id : get_message id s'.db ≡ some (deleted now m) =
      rw after
        (first-update (has_message_id id) (deleted now) s.db.club_messages m (λ y. refl) found) in
    let none_left : count_where (has_message_id id) (history c' room cursor s'.db) ≡ 0 = rw after (
      sum_where-sort_by (has_message_id id) (λ x. 1) newer (select shown _)
      ∙ sum_where-select (has_message_id id) shown (λ x. 1) _
      ∙ hidden) in
    (none_left, refused_after now' c' u' id content s' (deleted now m) at_id refl)
