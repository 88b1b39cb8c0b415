-- ===== src/Tests/Clubs.antt =====
-- The club of Tests.Meeting: its rolls, its sessions, events, messages, rooms and plans.
use book_club.Prelude.{
  ℕ, ◌*◌, ◌≤◌, ◌<◌, Option, Bool, map, ◌+◌, ◌≡◌, refl, true, none, some, String, [], ◌∷◌, ◌&&◌,
  ◌==◌, count_where, arith, if◌then◌else◌,
}
use book_club.Core.Database.{empty_database}
use book_club.Core.Session.{Session, World, ok, run_request}
use book_club.Core.Session.Atomic.{fresh}
use book_club.Club.Models.{ClubReadingPlan, opened, closed, maybe}
use book_club.Club.Membership.{create_club, join_public}
use book_club.Club.Roster.{IsRoster}
use book_club.Club.Roster.Reach as Rolls
use book_club.Club.Roster.Reach.{Reach-IsRoster}
use book_club.Club.Guards.{get_session}
use book_club.Club.Sessions.Repository.{with_status}
use book_club.Club.Sessions.Service.{create_session, transition_session_status}
use book_club.Club.Sessions.Lifecycle.{IsAnnounced, status_at}
use book_club.Club.Sessions.Reach as Rounds
use book_club.Club.Sessions.Reach.{Runs, Reach-Runs, Reach-IsAnnounced}
use book_club.Club.Sessions.Hosting.{host_completes}
use book_club.Club.Events.{get_my_rsvp_status}
use book_club.Club.Events.Service.{rsvp}
use book_club.Club.Events.Rsvp.{rsvp_status}
use book_club.Club.Messages.{history, has_message_id}
use book_club.Club.Messages.Service.{delete_message}
use book_club.Club.Messages.Paging.{read_all, counted, read_all_lem}
use book_club.Club.Rooms.{delete_room}
use book_club.Club.Rooms.Closing.{delete_room-history}
use book_club.Club.Plans.{new_plan, plan_weeks, create_reading_plan}
use book_club.Club.Plans.Pace.{create_reading_plan_pace}
use book_club.Tests.Data.{noon}
use book_club.Tests.Meeting.{request, plan, club, row, meeting, met, meeting-IsRoster}

abbrev library : World
library = record { db = record empty_database { books = 100 ∷ [] }; published = [] }

library-IsRoster : IsRoster library.db
library-IsRoster = record {
  ids = λ c. ground arith;
  rows = λ c u. ground arith;
  known = λ c none'. refl;
  bounded = λ c club found. ground arith;
  host = λ c u club found. ground arith;
}

abbrev same : String → String
same code = code

abbrev founded : World
founded = (run_request (create_club 1 noon "ABCDEFGH" 7 request) library).1

abbrev joined : World
joined = (run_request (join_public noon 1 8) founded).1

abbrev full : World
full = (run_request (join_public noon 1 9) joined).1

joined-Reach : Rolls.Reach same library full
joined-Reach =
    Rolls.next
      (Rolls.next
        (Rolls.next Rolls.here
          (Rolls.creates library 1 noon 7 "ABCDEFGH" request (omega arith) refl))
        (Rolls.joins_public founded noon 1 8))
      (Rolls.joins_public joined noon 1 9)

Reach-IsRoster_example : IsRoster full.db
Reach-IsRoster_example =
    Reach-IsRoster {upper = same} {w = library} {v = full} library-IsRoster joined-Reach

abbrev planned : World
planned = (run_request (create_session 5 noon 1 7 plan) met).1

abbrev begun : World
begun = (run_request (transition_session_status 1 5 7 opened) planned).1

begun-Reach : Rounds.Reach met begun
begun-Reach =
    Rounds.next (Rounds.next Rounds.here (Rounds.creates met 5 noon 1 7 plan refl))
      (Rounds.transitions planned 1 5 7 opened)

Reach-Runs_example : Runs (status_at 5 met.db) (status_at 5 begun.db)
Reach-Runs_example = Reach-Runs {w = met} {v = begun} 5 begun-Reach

meeting-IsAnnounced : IsAnnounced meeting
meeting-IsAnnounced x = ground arith

Reach-IsAnnounced_example : IsAnnounced begun.db
Reach-IsAnnounced_example = Reach-IsAnnounced {w = met} {v = begun} begun-Reach meeting-IsAnnounced

host_completes_example :
    let (r, s1) = transition_session_status 1 2 7 opened (fresh met) in
    let (r', s2) = transition_session_status 1 2 7 closed s1 in
    (r ≡ ok (with_status opened row))
    × (r' ≡ ok (with_status closed row))
    × (get_session 2 s2.db ≡ some (with_status closed row))
host_completes_example =
    host_completes 1 2 club row (fresh met) meeting-IsRoster refl refl refl refl

abbrev invited : Session
invited = (rsvp (noon + 1) 8 20 maybe (fresh met)).1

rsvp-invited : rsvp (noon + 1) 8 20 maybe (fresh met) ≡ (ok tt, invited)
unfolding rsvp
rsvp-invited = refl

rsvp_status_example :
    get_my_rsvp_status 20 7 invited.db
    ≡ (if 20 == 20 && 8 == 7 then some maybe else get_my_rsvp_status 20 7 meeting)
rsvp_status_example = rsvp_status (noon + 1) 8 20 20 7 maybe (fresh met) invited rsvp-invited

abbrev tidied : Session
tidied = (delete_message (noon + 1) 1 8 30 (fresh met)).1

delete_message-tidied : delete_message (noon + 1) 1 8 30 (fresh met) ≡ (ok tt, tidied)
unfolding delete_message
delete_message-tidied = refl

read_all_lem_example :
    read_all 2 1 8 1 none (fresh met) ≡ some (map (counted meeting) (history 1 none none meeting))
read_all_lem_example =
    read_all_lem 2 1 8 1 (fresh met) refl (omega arith) ((omega arith, tt), (tt, tt)) (omega arith)
      (omega arith)

abbrev closed_session : Session
closed_session = (delete_room 1 40 7 (fresh met)).1

delete_room-closed : delete_room 1 40 7 (fresh met) ≡ (ok tt, closed_session)
unfolding delete_room
delete_room-closed = refl

delete_room-history_example :
    count_where (has_message_id 31) (history 1 none none closed_session.db)
    ≡ count_where (has_message_id 31) (history 1 none none meeting)
      + count_where (has_message_id 31) (history 1 (some 40) none meeting)
delete_room-history_example =
    delete_room-history 1 40 7 31 none (fresh met) closed_session delete_room-closed

abbrev is_pro : ℕ → Bool
is_pro u = u == 7

abbrev page_count : ℕ → Option ℕ
page_count book_id = some 301

abbrev fortnight : ClubReadingPlan
fortnight = new_plan 50 noon 1 100 738000 738013 151 7

abbrev scheduled : Session
scheduled = (create_reading_plan is_pro page_count 50 noon 1 7 100 738000 738013 (fresh met)).1

create_reading_plan-scheduled :
    create_reading_plan is_pro page_count 50 noon 1 7 100 738000 738013 (fresh met)
    ≡ (ok fortnight, scheduled)
unfolding create_reading_plan
create_reading_plan-scheduled = refl

create_reading_plan_pace_example :
    let weeks = plan_weeks 738000 738013 in
    (is_pro 7 ≡ true)
    × (301 ≤ weeks * 151)
    × (weeks * 151 < 301 + weeks)
    × (738013 + 1 ≤ 738000 + 7 * weeks)
    × (738000 ≤ 738013 → 738000 + 7 * weeks < 738013 + 8)
create_reading_plan_pace_example =
    create_reading_plan_pace is_pro page_count 50 noon 1 7 100 738000 738013 (fresh met) scheduled
      fortnight create_reading_plan-scheduled
