-- ===== src/Tests/Sessions.antt =====
-- The session theorems on the tables of Tests.Data.
use book_club.Prelude.{◌≡◌, refl, true, none, some, [], ◌++◌, ltb, arith}
use book_club.Prelude.Int.{pos}
use book_club.Core.Database.{empty_database}
use book_club.Core.Session.{World, Session, ok, run_request}
use book_club.Book.Repository.{user_book_belongs_to_user, count_completed_books}
use book_club.Reading.Models.{manual, ReadingSession, SessionCompletion}
use book_club.Reading.Repository.{stamped}
use book_club.Reading.Service.{
  start_session, log_manual_session, end_session, reconcile_duration, summary_of,
}
use book_club.Reading.Sessions.Effects.{grade_of}
use book_club.Reading.Sessions.Ending.{
  MayEnd, grade_after, ended_db, ended_events, end_session_effect,
}
use book_club.Reading.Sessions.Outcome.{Ended, seconds_between, row_after, end_session-Ended}
use book_club.Reading.Sessions.Consistency.{IsConsistent}
use book_club.Reading.Sessions.Reach.{here, next, starts, ends, Reach-IsConsistent}
use book_club.Reading.Sessions.Published.{IsReported, Reach-IsReported}
use book_club.Tests.Data.{noon, later, running, idle, busy, tables}

running-MayEnd : MayEnd 7 50 later (pos 60000) running busy.db
unfolding reconcile_duration
running-MayEnd = record { found = refl; owned = refl; running = refl; long_enough = omega arith }

end_session-Ended_example :
    let d = seconds_between noon later.instant (pos 60000) in
    let before = grade_of 7 busy.db.user_grades in
    let after = row_after (count_completed_books 7 none none busy.db) d later.date before in
    let (answer, s') = end_session 7 50 later (pos 60000) busy in
    Ended later d running before after busy s' answer
end_session-Ended_example = end_session-Ended 7 50 later (pos 60000) running busy running-MayEnd

-- The result of that call, as a pair.
abbrev pub completion : SessionCompletion
completion =
    let after = grade_after 7 (reconcile_duration noon later.instant (pos 60000)) later busy.db in
    record {
      session = stamped later.instant (reconcile_duration noon later.instant (pos 60000)) running;
      grade = summary_of after;
      grade_up = ltb (grade_of 7 busy.db.user_grades).grade after.grade;
    }

abbrev pub ended : Session
ended =
    let d = reconcile_duration noon later.instant (pos 60000) in
    record {
      db = ended_db 7 50 d later busy.db;
      queue =
          busy.queue
          ++ ended_events 7 running d later (grade_of 7 busy.db.user_grades)
              (grade_after 7 d later busy.db);
    }

pub running-ended : end_session 7 50 later (pos 60000) busy ≡ (ok completion, ended)
running-ended = end_session_effect 7 50 later (pos 60000) running busy running-MayEnd

started :
    start_session 51 noon 7 2 none idle
    ≡ (ok (record running { id = 51 }), (start_session 51 noon 7 2 none idle).1)
unfolding start_session user_book_belongs_to_user
started = refl

owned : user_book_belongs_to_user 7 1 tables ≡ true
unfolding user_book_belongs_to_user
owned = refl

abbrev logged : ReadingSession
logged = record {
  id = 53;
  user_id = 7;
  user_book_id = 2;
  started_at = noon;
  ended_at = some later.instant;
  duration_sec = some 5400;
  source = manual;
  device = none;
  note = none;
}

returned :
    log_manual_session 53 7 2 noon later.instant none idle
    ≡ (ok logged, (log_manual_session 53 7 2 noon later.instant none idle).1)
unfolding log_manual_session user_book_belongs_to_user
returned = refl

-- A reader starts a session and ends it, and logs another one.
abbrev empty_world : World
empty_world = record {
  db = record empty_database { user_books = tables.user_books };
  published = [];
}

abbrev started_world : World
started_world = (run_request (start_session 50 noon 7 2 none) empty_world).1

abbrev ended_world : World
ended_world = (run_request (end_session 7 50 later (pos 60000)) started_world).1

empty_world-IsConsistent : IsConsistent empty_world.db
empty_world-IsConsistent = ground arith

Reach-IsConsistent_example : IsConsistent ended_world.db
Reach-IsConsistent_example = Reach-IsConsistent {w = empty_world} empty_world-IsConsistent (
    next (next here (starts empty_world 50 noon 7 2 none refl))
      (ends started_world 7 50 later (pos 60000)))

empty_world-IsReported : IsReported empty_world
empty_world-IsReported u = refl

Reach-IsReported_example : IsReported ended_world
Reach-IsReported_example =
    Reach-IsReported {w = empty_world} empty_world-IsConsistent empty_world-IsReported (
      next (next here (starts empty_world 50 noon 7 2 none refl))
        (ends started_world 7 50 later (pos 60000)))
