-- ===== src/Book/Repository.antt =====
-- backend/app/domains/book/repository.py (UserBookRepository), and the queries of
-- backend/app/domains/reading/providers.py (BookQueryAdapter) on the same table.
use book_club.Prelude.{
  ℕ, ◌+◌, ◌*◌, Bool, true, false, Option, none, some, [], ◌∷◌, ◌++◌, ◌&&◌, ltb, leb, ◌==◌, first,
  is_some, update_where, delete_where, count_where,
}
use book_club.Core.Exceptions.{
  book_already_in_library, user_book_not_found, not_found_error, conflict_error,
}
use book_club.Core.Database.{Database}
use book_club.Core.Session.{Action, pure, gets, require, raise_if, modify, ◌>>=◌, ◌>>◌}
use book_club.Book.Models.{UserBook, UserBookStatus, is_completed}

abbrev pub find_user_book : ℕ → Database → Option UserBook
find_user_book user_book_id db = first (λ ub. ub.id == user_book_id) db.user_books

-- UniqueConstraint("user_id", "book_id")
abbrev pub in_library : ℕ → ℕ → Database → Bool
in_library user_id book_id db =
    is_some (first (λ ub. ub.user_id == user_id && ub.book_id == book_id) db.user_books)

-- `create`; the row's id is a fresh uuid4, given here as an argument.
unfoldable pub create : ℕ → ℕ → ℕ → UserBookStatus → Action UserBook
create id user_id book_id status =
    let ub : UserBook = record {
      id = id;
      user_id = user_id;
      book_id = book_id;
      status = status;
      finished_at = none;
    } in
    do
      raise_if (← gets (in_library user_id book_id)) (conflict_error book_already_in_library)
      modify (λ db. record db { user_books = db.user_books ++ ub ∷ [] })
      pure ub

unfoldable pub update_status : ℕ → UserBookStatus → Action UserBook
update_status user_book_id status = do
  ub ← require (find_user_book user_book_id) (not_found_error user_book_not_found)
  modify (λ db. record db {
    user_books =
        update_where (λ r. r.id == user_book_id) (λ r. record r { status = status }) db.user_books;
  })
  pure (record ub { status = status })

-- The foreign keys of reading_sessions and post_highlights cascade: the book's sessions and highlights go
-- with it.
unfoldable pub delete : ℕ → Action (Unit {0})
delete user_book_id = do
  require (find_user_book user_book_id) (not_found_error user_book_not_found)
  modify (λ db. record db {
    user_books = delete_where (λ r. r.id == user_book_id) db.user_books;
    reading_sessions = delete_where (λ r. r.user_book_id == user_book_id) db.reading_sessions;
    post_highlights = delete_where (λ r. r.user_book_id == user_book_id) db.post_highlights;
  })

-- The instant at which a date begins.
abbrev pub midnight : ℕ → ℕ
midnight date = date * 86400000000

-- `finished_at >= from_date` and `finished_at < to_date + 1 day`, where a bound is given. A comparison
-- with NULL selects nothing.
abbrev pub finished_from : Option ℕ → Option ℕ → Bool
finished_from none finished_at = true
finished_from (some from_date) none = false
finished_from (some from_date) (some t) = leb (midnight from_date) t

abbrev pub finished_to : Option ℕ → Option ℕ → Bool
finished_to none finished_at = true
finished_to (some to_date) none = false
finished_to (some to_date) (some t) = ltb t (midnight (to_date + 1))

-- BookQueryAdapter.user_book_belongs_to_user
abbrev owner_is : ℕ → Option UserBook → Bool
owner_is user_id none = false
owner_is user_id (some ub) = ub.user_id == user_id

unfoldable pub user_book_belongs_to_user : ℕ → ℕ → Database → Bool
user_book_belongs_to_user user_id user_book_id db =
    owner_is user_id (find_user_book user_book_id db)

-- BookQueryAdapter.count_completed_books
unfoldable pub count_completed_books : ℕ → Option ℕ → Option ℕ → Database → ℕ
count_completed_books user_id from_date to_date db =
    count_where
      (λ ub.
        ub.user_id == user_id
        && is_completed ub.status
        && finished_from from_date ub.finished_at
        && finished_to to_date ub.finished_at)
      db.user_books
