-- ===== src/Club/Events/Rsvp.antt =====
-- The answers to the invitations of an event.
use book_club.Prelude.{
  ℕ, ◌+◌, ◌≡◌, refl, Bool, ◌&&◌, some, List, [], ◌∷◌, arith, ◌==◌, if◌then◌else◌, is_some,
  Bool-cases, Option-cases, inl, inr, first, count_where, first-update, first-update_other,
  first-append, first-append_other, sum_where-append, count_where-update,
}
use book_club.Core.Database.{Database}
use book_club.Core.Session.{Session, ok}
use book_club.Club.Models.{EventAttendee, RsvpStatus, going, maybe, not_going}
use book_club.Club.Events.{
  AttendeeCount, is_answer, reanswered, new_answer, upserted, same_status, get_attendee_counts,
  status_of, get_my_rsvp_status,
}
use book_club.Club.Events.Service.{rsvp}

-- An answer is found where it was given.
answer_given :
    (now e u : ℕ) (status : RsvpStatus) (rows : List EventAttendee)
    → status_of (first (is_answer e u) (upserted now e u status rows)) ≡ some status
answer_given now e u status rows = elim (Option-cases (first (is_answer e u) rows)) [
  | inl none' ↦
      ground (arith, none', first-append (is_answer e u) rows (new_answer now e u status) none')
  | inr (a, old) ↦
      ground
        (arith, old, first-update (is_answer e u) (reanswered status now) rows a (λ y. refl) old)
]

-- An answer is seen where it was given, and nowhere else.
answer_seen :
    (now e u e' u' : ℕ) (status : RsvpStatus) (rows : List EventAttendee)
    → status_of (first (is_answer e' u') (upserted now e u status rows))
      ≡ (if e == e' && u == u' then some status else status_of (first (is_answer e' u') rows))
answer_seen now e u e' u' status rows = elim (Bool-cases (e == e' && u == u')) [
  | inl same ↦
      let event : e' ≡ e = ground arith in
      let user : u' ≡ u = ground arith in rw (same, event, user) (answer_given now e u status rows)
  | inr apart ↦ ground (
    arith,
    apart,
    first-update_other (is_answer e' u') (is_answer e u) (reanswered status now) rows (λ y. refl)
        (λ y k. ground arith),
    first-append_other (is_answer e' u') rows (new_answer now e u status),
  )
]

-- The table of answers behaves as a function from events and users to answers: after an answer that
-- returned, the caller's answer to that event is the one given, and every other answer is the one that it
-- was.
pub rsvp_status :
    (now u e e' u' : ℕ) (status : RsvpStatus) (s s' : Session)
    → rsvp now u e status s ≡ (ok tt, s')
    → get_my_rsvp_status e' u' s'.db
      ≡ (if e == e' && u == u' then some status else get_my_rsvp_status e' u' s.db)
unfolding rsvp
rsvp_status now u e e' u' status s s' done =
    ground (arith, done, answer_seen now e u e' u' status s.db.event_attendees)

-- The sum of the three numbers.
abbrev pub total : AttendeeCount → ℕ
total counts = counts.going_count + counts.maybe_count + counts.not_going_count

abbrev of_event : ℕ → EventAttendee → Bool
of_event e a = a.event_id == e

total-get_attendee_counts :
    (e : ℕ) (db : Database)
    → total (get_attendee_counts e db) ≡ count_where (of_event e) db.event_attendees
total-get_attendee_counts e db = sums db.event_attendees
  where
    sums :
        (rows : List EventAttendee)
        → count_where (λ a. of_event e a && same_status a.status going) rows
            + count_where (λ a. of_event e a && same_status a.status maybe) rows
            + count_where (λ a. of_event e a && same_status a.status not_going) rows
          ≡ count_where (of_event e) rows
    sums [] = omega arith
    sums (a ∷ rows) = ground (arith, sums rows)

answers-upserted :
    (now e u : ℕ) (status : RsvpStatus) (rows : List EventAttendee)
    → count_where (of_event e) (upserted now e u status rows)
      ≡ count_where (of_event e) rows
        + (if is_some (status_of (first (is_answer e u) rows)) then 0 else 1)
answers-upserted now e u status rows = ground (
  arith,
  count_where-update (of_event e) (is_answer e u) (reanswered status now) rows (λ a. refl),
  sum_where-append (of_event e) (λ a. 1) rows (new_answer now e u status ∷ []),
)

-- After an answer that returned, the three numbers of answers of the event add up to one more than before,
-- or to the same if the caller had answered it already.
pub rsvp-total :
    (now u e : ℕ) (status : RsvpStatus) (s s' : Session)
    → rsvp now u e status s ≡ (ok tt, s')
    → total (get_attendee_counts e s'.db)
      ≡ total (get_attendee_counts e s.db)
        + (if is_some (get_my_rsvp_status e u s.db) then 0 else 1)
unfolding rsvp
rsvp-total now u e status s s' done =
    let answers : s'.db.event_attendees ≡ upserted now e u status s.db.event_attendees =
      ground (arith, done) in
    rw (total-get_attendee_counts e s'.db, total-get_attendee_counts e s.db, answers)
      (answers-upserted now e u status s.db.event_attendees)
