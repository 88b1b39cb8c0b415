-- ===== src/Club/Messages/Order.antt =====
-- The history of a channel, and its parts before a cursor.
use book_club.Prelude.{
  ℕ, ◌≡◌, refl, ◌∙◌, ap, ◌&&◌, Option, none, some, List, [], ◌∷◌, arith, select, sort_by, sym,
}
use book_club.Core.Database.{Database}
use book_club.Club.Models.{ClubMessage}
use book_club.Core.Pages.{before, select-sort_by}
use book_club.Club.Messages.{before_cursor, is_visible, newer, history}

abbrev pub sent : ClubMessage → ℕ
sent m = m.created_at

select-visible :
    (c k : ℕ) (room : Option ℕ) (ms : List ClubMessage)
    → select (λ m. before_cursor (some k) m && is_visible c room m) ms
      ≡ select (before sent k) (select (λ m. before_cursor none m && is_visible c room m) ms)
select-visible c k room [] = refl
select-visible c k room (m ∷ ms) = ground (arith, select-visible c k room ms)

-- The history before a cursor is the part of the whole history before it.
pub history-before :
    (c k : ℕ) (room : Option ℕ) (db : Database)
    → history c room (some k) db ≡ select (before sent k) (history c room none db)
history-before c k room db =
    ap (sort_by newer) (select-visible c k room db.club_messages) ∙ sym (select-sort_by sent k _)
