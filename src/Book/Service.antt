-- ===== src/Book/Service.antt =====
-- backend/app/domains/book/service.py: the operations of BookService on a reader's library, wired with the
-- event queue and the feed.
use book_club.Prelude.{ℕ, Option, not, ◌==◌, first}
use book_club.Core.Exceptions.{book_not_found, user_book_not_found, not_found_error}
use book_club.Core.Events.{user_book_completed}
use book_club.Core.Database.{Database}
use book_club.Core.Session.{Action, pure, require, raise_if, when, stage_event, ◌>>=◌, ◌>>◌}
use book_club.Feed.Repository.{record_book_completed}
use book_club.Book.Models.{UserBook, UserBookStatus, is_completed}
use book_club.Book.Repository
use book_club.Book.Repository.{find_user_book}

-- BookRepository.get_by_id
abbrev pub find_book : ℕ → Database → Option ℕ
find_book book_id db = first (λ id. id == book_id) db.books

unfoldable pub add_to_library : ℕ → ℕ → ℕ → UserBookStatus → Action UserBook
unfolding Repository.create
add_to_library id user_id book_id status = do
  require (find_book book_id) (not_found_error book_not_found)
  Repository.create id user_id book_id status

unfoldable pub update_status : ℕ → ℕ → UserBookStatus → Action UserBook
unfolding Repository.update_status record_book_completed
update_status user_id user_book_id status = do
  ub ← require (find_user_book user_book_id) (not_found_error user_book_not_found)
  raise_if (not (ub.user_id == user_id)) (not_found_error user_book_not_found)
  updated ← Repository.update_status user_book_id status
  when (is_completed status) (do
    stage_event (
        user_book_completed
          (record { user_id = user_id; user_book_id = user_book_id; book_id = ub.book_id }))
    record_book_completed user_id ub.book_id)
  pure updated

unfoldable pub remove_from_library : ℕ → ℕ → Action (Unit {0})
unfolding Repository.delete
remove_from_library user_id user_book_id = do
  ub ← require (find_user_book user_book_id) (not_found_error user_book_not_found)
  raise_if (not (ub.user_id == user_id)) (not_found_error user_book_not_found)
  Repository.delete user_book_id
