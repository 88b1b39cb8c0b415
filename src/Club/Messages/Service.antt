-- ===== src/Club/Messages/Service.antt =====
-- backend/app/domains/club/service.py: ClubService on messages. The broadcast over the websockets that follows
-- an edit or a deletion is outside the model.
use book_club.Prelude.{
  ℕ, ◌+◌, Option, none, some, String, List, [], ◌∷◌, not, ◌||◌, ◌==◌, ltb, is_some, length, take,
  if◌then◌else◌,
}
use book_club.Core.Exceptions.{
  message_not_found, not_member, not_permitted, not_found_error, permission_denied_error,
}
use book_club.Core.Session.{Action, pure, gets, require, raise_if, ◌>>=◌, ◌>>◌}
use book_club.Club.Models.{ClubMessage}
use book_club.Club.Repository.{is_member}
use book_club.Club.Messages.{
  create_message, get_message, update_message_content, soft_delete_message, upsert_message_read,
}
use book_club.Club.Messages

unfoldable pub assert_member : ℕ → ℕ → Action (Unit {0})
assert_member club_id user_id = do
  joined ← gets (is_member club_id user_id)
  raise_if (not joined) (permission_denied_error not_member)

-- The user of the first row, whose nickname the answer carries.
abbrev author_of : List (ClubMessage × ℕ) → Option ℕ
author_of [] = none
author_of ((m, read_count) ∷ rows) = some m.user_id

unfoldable send_message : ℕ → ℕ → ℕ → ℕ → String → Option String → Action (ClubMessage × Option ℕ)
unfolding assert_member create_message Messages.list_messages
send_message id now club_id user_id content media_url = do
  assert_member club_id user_id
  msg ← create_message id now club_id user_id content media_url none
  rows ← gets (Messages.list_messages club_id none 1 none)
  pure (msg, author_of rows)

-- page[-1][0].created_at
abbrev pub last_created_at : List (ClubMessage × ℕ) → Option ℕ
last_created_at [] = none
last_created_at ((m, read_count) ∷ []) = some m.created_at
last_created_at (row ∷ row' ∷ rows) = last_created_at (row' ∷ rows)

-- The page and, where there are more rows, the cursor of the next one.
abbrev pub page_of : ℕ → List (ClubMessage × ℕ) → List (ClubMessage × ℕ) × Option ℕ
page_of limit rows =
    let page = take limit rows in
    (page, if ltb limit (length rows) then last_created_at page else none)

unfoldable pub list_messages : ℕ → ℕ → Option ℕ → ℕ → Action (List (ClubMessage × ℕ) × Option ℕ)
unfolding assert_member Messages.list_messages
list_messages club_id user_id cursor limit = do
  assert_member club_id user_id
  rows ← gets (Messages.list_messages club_id cursor (limit + 1) none)
  pure (page_of limit rows)

unfoldable mark_read : ℕ → ℕ → ℕ → ℕ → Action (Unit {0})
unfolding assert_member upsert_message_read
mark_read now club_id user_id message_id = do
  msg ← require (get_message message_id) (not_found_error message_not_found)
  raise_if (not (msg.club_id == club_id)) (not_found_error message_not_found)
  assert_member club_id user_id
  upsert_message_read now message_id user_id

-- How an edit and a deletion begin: the message of the club, for its author.
unfoldable own_message : ℕ → ℕ → ℕ → Action ClubMessage
own_message club_id user_id message_id = do
  msg ← require (get_message message_id) (not_found_error message_not_found)
  raise_if (not (msg.club_id == club_id) || is_some msg.deleted_at)
      (not_found_error message_not_found)
  raise_if (not (msg.user_id == user_id)) (permission_denied_error not_permitted)
  pure msg

unfoldable pub edit_message : ℕ → ℕ → ℕ → ℕ → String → Action (Unit {0})
unfolding own_message update_message_content
edit_message now club_id user_id message_id content = do
  own_message club_id user_id message_id
  update_message_content message_id content now

unfoldable pub delete_message : ℕ → ℕ → ℕ → ℕ → Action (Unit {0})
unfolding own_message soft_delete_message
delete_message now club_id user_id message_id = do
  own_message club_id user_id message_id
  soft_delete_message message_id now
