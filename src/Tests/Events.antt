-- ===== src/Tests/Events.antt =====
-- The bus and the challenges' subscriptions, on the world of Tests.Data.
use book_club.Prelude.{arith, ◌+◌, ◌≡◌, refl}
use book_club.Prelude.Int.{pos}
use book_club.Core.EventBus.{dispatch}
use book_club.Core.Session.{ok}
use book_club.Core.Session.Atomic.{fresh}
use book_club.Book.Models.{completed}
use book_club.Book.Service.{update_status}
use book_club.Challenge.Models.{books_count}
use book_club.Challenge.Service.{add, handle_progress_event}
use book_club.Challenge.Uniqueness.{IsUnique}
use book_club.Challenge.Progress.{Grows}
use book_club.Challenge.Wiring.{
  subscribe_challenges, no_handlers, handle_progress_event-IsUnique, update_status-dispatch,
  Dispatched, end_session-dispatch,
}
use book_club.Reading.Sessions.Effects.{grade_of}
use book_club.Tests.Data.{noon, later, open_book, idle_world, busy_world}
use book_club.Tests.Sessions.{completion, ended, running-ended}

idle_world-IsUnique : IsUnique idle_world.db
idle_world-IsUnique = record { participants = λ c u. ground arith; badges = λ u b. ground arith }

busy_world-IsUnique : IsUnique busy_world.db
busy_world-IsUnique = record { participants = λ c u. ground arith; badges = λ u b. ground arith }

handle_progress_event-IsUnique_example :
    let (r, v) = handle_progress_event noon noon 7 books_count 1 add idle_world in
    (r ≡ ok tt) × IsUnique v.db
handle_progress_event-IsUnique_example =
    handle_progress_event-IsUnique noon noon 7 1 books_count add idle_world idle_world-IsUnique

updated : update_status 7 2 completed (fresh idle_world) ≡ (
  ok (record open_book { status = completed }),
  (update_status 7 2 completed (fresh idle_world)).1,
)
unfolding update_status
updated = refl

update_status-dispatch_example :
    Grows 7 books_count
      (λ n. n + 1)
      noon
      noon
      idle_world
      (dispatch
        (subscribe_challenges noon noon no_handlers)
        (update_status 7 2 completed (fresh idle_world)).1.queue
        idle_world)
update_status-dispatch_example =
    update_status-dispatch noon noon 7 2 idle_world idle_world
      (update_status 7 2 completed (fresh idle_world)).1 (record open_book { status = completed })
      updated idle_world-IsUnique

end_session-dispatch_example :
    Dispatched noon noon 7
      (grade_of 7 busy_world.db.user_grades)
      completion
      busy_world
      (dispatch (subscribe_challenges noon noon no_handlers) ended.queue busy_world)
end_session-dispatch_example =
    end_session-dispatch noon noon 7 50 later (pos 60000) busy_world busy_world ended completion
      running-ended busy_world-IsUnique
