-- ===== src/Tests/Library.antt =====
-- Changes of the library of the reader of Tests.Data.
use book_club.Prelude.{◌+◌, ◌≡◌, refl, none, [], ◌∷◌, ◌++◌, arith}
use book_club.Core.Events.{user_book_completed}
use book_club.Book.Models.{completed}
use book_club.Book.Repository.{count_completed_books}
use book_club.Book.Service.{update_status}
use book_club.Book.Library.{update_status_counts}
use book_club.Tests.Data.{open_book, idle}

update_status_counts_example :
    let s' = (update_status 7 2 completed idle).1 in
    (count_completed_books 7 none none s'.db + 0 ≡ count_completed_books 7 none none idle.db + 1)
    × (s'.queue
        ≡ idle.queue
          ++ user_book_completed (record { user_id = 7; user_book_id = 2; book_id = 101 }) ∷ [])
update_status_counts_example =
    update_status_counts 7 2 completed open_book idle (omega arith) refl refl
