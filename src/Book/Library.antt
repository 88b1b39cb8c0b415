-- ===== src/Book/Library.antt =====
-- A reader's library: what a change of status counts, and the finishing times.
use book_club.Prelude.{
  ℕ, ◌+◌, ◌≤◌, ◌≡◌, refl, Bool, Option, none, some, List, [], ◌∷◌, ◌++◌, ◌&&◌, arith, ◌==◌,
  if◌then◌else◌, is_some, first-some, append-nil, count_where, update_where, delete_where,
  sum_where-append, sum_where-update_one,
}
use book_club.Core.Database.{Database}
use book_club.Core.Events.{Event, user_book_completed}
use book_club.Core.Session.{Session}
use book_club.Book.Models.{UserBook, UserBookStatus, is_completed}
use book_club.Book.Repository.{find_user_book, count_completed_books, finished_from, finished_to}
use book_club.Book.Service.{add_to_library, update_status, remove_from_library}

-- No row has a finishing time.
abbrev pub finished : UserBook → Bool
finished ub = is_some ub.finished_at

abbrev pub NeverFinished : Database → Type 0
NeverFinished db = count_where finished db.user_books ≡ 0

delete-count :
    (p q : UserBook → Bool) (rows : List UserBook)
    → count_where p (delete_where q rows) ≤ count_where p rows
delete-count p q [] = omega arith
delete-count p q (ub ∷ rows) = ground (arith, delete-count p q rows)

status-count :
    (q : UserBook → Bool) (status : UserBookStatus) (rows : List UserBook)
    → count_where finished (update_where q (λ r. record r { status = status }) rows)
      ≡ count_where finished rows
status-count q status [] = refl
status-count q status (ub ∷ rows) = ground (arith, status-count q status rows)

-- Adding a book, changing its status, to completed too, and removing it set no finishing time, whether the
-- call raises or not: where no row has one, none has one afterwards.
pub library_calls-NeverFinished :
    (id user_id book_id user_book_id : ℕ) (status : UserBookStatus) (s : Session)
    → NeverFinished s.db
    → NeverFinished (add_to_library id user_id book_id status s).1.db
      × NeverFinished (update_status user_id user_book_id status s).1.db
      × NeverFinished (remove_from_library user_id user_book_id s).1.db
unfolding add_to_library update_status remove_from_library
library_calls-NeverFinished id user_id book_id user_book_id status s h = (
  ground (
    arith,
    sum_where-append finished (λ r. 1) s.db.user_books
        (record {
          id = id;
          user_id = user_id;
          book_id = book_id;
          status = status;
          finished_at = none;
        }
          ∷ []),
  ),
  ground (arith, status-count (λ r. r.id == user_book_id) status s.db.user_books),
  ground (arith, delete-count finished (λ r. r.id == user_book_id) s.db.user_books),
)

-- Where no row has a finishing time, no completed book is counted in a window with a first day.
count_completed_books-NeverFinished :
    (user_id from_date : ℕ) (to_date : Option ℕ) (db : Database)
    → NeverFinished db
    → count_completed_books user_id (some from_date) to_date db ≡ 0
unfolding count_completed_books
count_completed_books-NeverFinished user_id from_date to_date db h = windowed db.user_books h
  where
    windowed :
        (rows : List UserBook)
        → count_where finished rows ≡ 0
        → count_where
            (λ ub.
              ub.user_id == user_id
              && is_completed ub.status
              && finished_from (some from_date) ub.finished_at
              && finished_to to_date ub.finished_at)
            rows
          ≡ 0
    windowed [] k = refl
    windowed (ub ∷ rows) k = ground (arith, windowed rows)

abbrev pub completed_by : ℕ → UserBook → Bool
completed_by user_id ub = ub.user_id == user_id && is_completed ub.status

count_completed-all :
    (user_id : ℕ) (db : Database)
    → count_completed_books user_id none none db ≡ count_where (completed_by user_id) db.user_books
unfolding count_completed_books
count_completed-all user_id db = go db.user_books
  where
    go :
        (rows : List UserBook)
        → count_where
            (λ ub.
              ub.user_id == user_id
              && is_completed ub.status
              && finished_from none ub.finished_at
              && finished_to none ub.finished_at)
            rows
          ≡ count_where (completed_by user_id) rows
    go [] = refl
    go (ub ∷ rows) = ground (arith, go rows)

abbrev completion : ℕ → UserBook → Event
completion user_id ub =
    user_book_completed (record { user_id = user_id; user_book_id = ub.id; book_id = ub.book_id })

-- Where no two rows share its id, changing the status of the reader's own book exchanges its share of the
-- completed books, and every change to completed stages a completion event, also when the book was
-- completed before.
pub update_status_counts :
    (user_id user_book_id : ℕ) (status : UserBookStatus) (ub : UserBook) (s : Session)
    → count_where (λ r. r.id == user_book_id) s.db.user_books ≤ 1
    → find_user_book user_book_id s.db ≡ some ub
    → ub.user_id ≡ user_id
    → let s' = (update_status user_id user_book_id status s).1 in
      (count_completed_books user_id none none s'.db + (if is_completed ub.status then 1 else 0)
        ≡ count_completed_books user_id none none s.db + (if is_completed status then 1 else 0))
      × (s'.queue ≡ s.queue ++ (if is_completed status then completion user_id ub ∷ [] else []))
unfolding update_status
update_status_counts user_id user_book_id status ub s unique found owned =
    let s' = (update_status user_id user_book_id status s).1 in
    ground (
      arith,
      found,
      owned,
      append-nil s.queue,
      first-some (λ r. r.id == user_book_id) s.db.user_books ub found,
      count_completed-all user_id s.db,
      count_completed-all user_id s'.db,
      sum_where-update_one (completed_by user_id) (λ r. r.id == user_book_id) (λ r. 1)
          (λ r. record r { status = status }) s.db.user_books ub unique found,
    )
