-- ===== src/Challenge/Wiring.antt =====
-- backend/app/main.py: the challenge service's subscriptions on the event bus. What a committed request
-- published reaches the challenges through them. The other subscribers of the bus are the argument `bus`.
use book_club.Prelude.{
  ℕ, ◌+◌, ◌≡◌, ◌≢◌, ◌⊎◌, ◌∙◌, ap, refl, some, false, List, [], ◌∷◌, arith, ◌==◌, ltb, if◌then◌else◌,
  max, Bool-cases, Option-cases, inl, inr,
}
use book_club.Prelude.Int.{ℤ}
use book_club.Core.Events.{
  Event, reading_session_completed, user_grade_recomputed, user_book_completed, badge_earned,
  post_created, reaction_added, comment_added, follow_received,
}
use book_club.Core.EventBus.{
  Bus, Handler, reading_session_completed_type, user_grade_recomputed_type,
  user_book_completed_type, EventType, same_type, type_of, subscribe, publish, dispatch,
  publish-subscribe,
}
use book_club.Core.Session.{Session, World, ok, run_request}
use book_club.Core.Session.Atomic.{fresh, run_request-keeps}
use book_club.Book.Models.{UserBook, completed}
use book_club.Book.Repository.{find_user_book}
use book_club.Book.Service.{update_status}
use book_club.Challenge.Models.{ChallengeType, books_count, reading_time, streak}
use book_club.Challenge.Service.{
  Mode, add, maximum, handle_progress_event, on_reading_session_completed, on_user_book_completed,
  on_grade_recomputed, advance_challenges,
}
use book_club.Challenge.Uniqueness.{
  IsUnique, advance_challenges_returns, advance_challenges-IsUnique,
}
use book_club.Challenge.Progress.{Grows, handle_progress_event-Grows}
use book_club.Reading.Models.{DateTime, ReadingSession, UserGrade, SessionCompletion}
use book_club.Reading.Repository.{stamped}
use book_club.Reading.Service.{summary_of, reconcile_duration, end_session}
use book_club.Reading.Sessions.Ending.{
  MayEnd, end_session_effect, grade_after, completion_event, grade_event, same_grade, ended_events,
}
use book_club.Reading.Sessions.Refusals.{end_session_ok}
use book_club.Reading.Sessions.Effects.{grade_of}

-- The challenge part of `lifespan`.
unfoldable pub subscribe_challenges : ℕ → ℕ → Bus → Bus
unfolding subscribe
subscribe_challenges now db_now bus =
    subscribe user_grade_recomputed_type (on_grade_recomputed now db_now) (
      subscribe user_book_completed_type (on_user_book_completed now db_now)
        (subscribe reading_session_completed_type (on_reading_session_completed now db_now) bus))

-- What the challenges do on an event.
abbrev react : ℕ → ℕ → Event → World → World
react now db_now (reading_session_completed e) w =
    (handle_progress_event now db_now e.user_id reading_time e.duration_sec add w).1
react now db_now (user_book_completed e) w =
    (handle_progress_event now db_now e.user_id books_count 1 add w).1
react now db_now (user_grade_recomputed e) w =
    (handle_progress_event now db_now e.user_id streak e.streak_days maximum w).1
react now db_now (badge_earned e) w = w
react now db_now (post_created e) w = w
react now db_now (reaction_added e) w = w
react now db_now (comment_added e) w = w
react now db_now (follow_received e) w = w

publish_three :
    (h1 h2 h3 : Handler) (bus : Bus) (e : Event) (w : World)
    → publish
        (subscribe user_grade_recomputed_type h3
          (subscribe user_book_completed_type h2 (subscribe reading_session_completed_type h1 bus)))
        e
        w
      ≡ (let on = λ (t : EventType) (h : Handler) (v : World).
            if same_type t (type_of e) then (h e v).1 else v in
          on user_grade_recomputed_type h3 (
            on user_book_completed_type h2
              (on reading_session_completed_type h1 (publish bus e w))))
publish_three h1 h2 h3 bus e w =
    let b1 = subscribe reading_session_completed_type h1 bus in
    let b2 = subscribe user_book_completed_type h2 b1 in
    rw (
      publish-subscribe user_grade_recomputed_type h3 b2 e w,
      publish-subscribe user_book_completed_type h2 b1 e w,
      publish-subscribe reading_session_completed_type h1 bus e w,
    )

publish_challenges :
    (now db_now : ℕ) (bus : Bus) (e : Event) (w : World)
    → publish (subscribe_challenges now db_now bus) e w ≡ react now db_now e (publish bus e w)
unfolding subscribe_challenges on_reading_session_completed on_user_book_completed
    on_grade_recomputed
publish_challenges now db_now bus e w = all e
  where
    all :
        (e : Event)
        → publish (subscribe_challenges now db_now bus) e w ≡ react now db_now e (publish bus e w)
    all (reading_session_completed e) =
        publish_three (on_reading_session_completed now db_now) (on_user_book_completed now db_now)
          (on_grade_recomputed now db_now) bus (reading_session_completed e) w
    all (user_book_completed e) =
        publish_three (on_reading_session_completed now db_now) (on_user_book_completed now db_now)
          (on_grade_recomputed now db_now) bus (user_book_completed e) w
    all (user_grade_recomputed e) =
        publish_three (on_reading_session_completed now db_now) (on_user_book_completed now db_now)
          (on_grade_recomputed now db_now) bus (user_grade_recomputed e) w
    all (badge_earned e) =
        publish_three (on_reading_session_completed now db_now) (on_user_book_completed now db_now)
          (on_grade_recomputed now db_now) bus (badge_earned e) w
    all (post_created e) =
        publish_three (on_reading_session_completed now db_now) (on_user_book_completed now db_now)
          (on_grade_recomputed now db_now) bus (post_created e) w
    all (reaction_added e) =
        publish_three (on_reading_session_completed now db_now) (on_user_book_completed now db_now)
          (on_grade_recomputed now db_now) bus (reaction_added e) w
    all (comment_added e) =
        publish_three (on_reading_session_completed now db_now) (on_user_book_completed now db_now)
          (on_grade_recomputed now db_now) bus (comment_added e) w
    all (follow_received e) =
        publish_three (on_reading_session_completed now db_now) (on_user_book_completed now db_now)
          (on_grade_recomputed now db_now) bus (follow_received e) w

-- Where participations and owned badges are unique, the handling of a progress event returns, whatever
-- else the tables hold: no unique constraint refuses an award, even where two challenges name the same
-- badge or the user owns it already; and participations and owned badges stay unique.
pub handle_progress_event-IsUnique :
    (now db_now user_id delta : ℕ) (challenge_type : ChallengeType) (mode : Mode) (w : World)
    → IsUnique w.db
    → let (r, v) = handle_progress_event now db_now user_id challenge_type delta mode w in
      (r ≡ ok tt) × IsUnique v.db
unfolding handle_progress_event run_request
handle_progress_event-IsUnique now db_now user_id delta challenge_type mode w h =
    let returns =
      advance_challenges_returns now db_now user_id delta challenge_type mode (fresh w) in
    let keeps =
      run_request-keeps IsUnique (advance_challenges now db_now user_id challenge_type delta mode) w
        h (advance_challenges-IsUnique now db_now user_id delta challenge_type mode (fresh w) h) in
    (ground (arith, returns), keeps)

-- The bus without other subscribers.
abbrev pub no_handlers : Bus
no_handlers t = []

dispatch_challenges :
    (now db_now : ℕ) (e : Event) (events : List Event) (w : World)
    → dispatch (subscribe_challenges now db_now no_handlers) (e ∷ events) w
      ≡ dispatch (subscribe_challenges now db_now no_handlers) events (react now db_now e w)
unfolding dispatch publish
dispatch_challenges now db_now e events w =
    ap (dispatch (subscribe_challenges now db_now no_handlers) events)
      (publish_challenges now db_now no_handlers e w)

dispatch_none : (bus : Bus) (w : World) → dispatch bus [] w ≡ w
unfolding dispatch
dispatch_none bus w = refl

completed_queue :
    (user_id user_book_id : ℕ) (w : World) (s' : Session) (ub : UserBook)
    → update_status user_id user_book_id completed (fresh w) ≡ (ok ub, s')
    → (book_id : ℕ) × (s'.queue
        ≡ user_book_completed
            (record { user_id = user_id; user_book_id = user_book_id; book_id = book_id })
          ∷ [])
unfolding update_status
completed_queue user_id user_book_id w s' ub h =
    elim (Option-cases (find_user_book user_book_id w.db)) [
      | inl missing ↦ ground (arith, h, missing)
      | inr (old, found) ↦ (old.book_id, ground (arith, h, found))
    ]

-- Where participations and owned badges are unique, the dispatch of the events of a change of a book's
-- status to completed that returned, to the challenges alone, adds one to each participation of the
-- reader's that is not achieved and whose challenge is one of books and runs, and stamps it if that
-- reaches the target. No other participation changes, the new badges are those that the newly published
-- events announce, and all else is as it was.
pub update_status-dispatch :
    (now db_now user_id user_book_id : ℕ) (w v : World) (s' : Session) (ub : UserBook)
    → update_status user_id user_book_id completed (fresh w) ≡ (ok ub, s')
    → IsUnique v.db
    → Grows user_id books_count
        (λ n. n + 1)
        now
        db_now
        v
        (dispatch (subscribe_challenges now db_now no_handlers) s'.queue v)
update_status-dispatch now db_now user_id user_book_id w v s' ub h unique =
    let (book_id, q) = completed_queue user_id user_book_id w s' ub h in
    let e =
      user_book_completed
        (record { user_id = user_id; user_book_id = user_book_id; book_id = book_id }) in
    rw
      (
        q,
        dispatch_challenges now db_now e [] v,
        dispatch_none (subscribe_challenges now db_now no_handlers) (react now db_now e v),
      )
      (handle_progress_event-Grows now db_now user_id 1 books_count add v unique)

-- What the events of an ended session make of the challenges.
abbrev pub Dispatched : ℕ → ℕ → ℕ → UserGrade → SessionCompletion → World → World → Type 0
Dispatched now db_now user_id before c v v' =
    (d : ℕ) × (timed : World) × (c.session.duration_sec ≡ some d)
    × Grows user_id reading_time (λ n. n + d) now db_now v timed
    × (((c.grade.grade ≡ before.grade) × (c.grade.tier ≡ before.tier) × (v' ≡ timed))
        ⊎ (((c.grade.grade ≢ before.grade) ⊎ (c.grade.tier ≢ before.tier))
            × Grows user_id streak (λ n. max n c.grade.streak_days) now db_now timed v'))

-- What `end_session` answers.
abbrev completed_session : DateTime → ℕ → ReadingSession → UserGrade → UserGrade → SessionCompletion
completed_session ended_at d r before after = record {
  session = stamped ended_at.instant d r;
  grade = summary_of after;
  grade_up = ltb before.grade after.grade;
}

ended_events-Dispatched :
    (now db_now user_id d : ℕ) (ended_at : DateTime) (r : ReadingSession) (before after : UserGrade)
    (v : World)
    → IsUnique v.db
    → Dispatched now db_now user_id before (completed_session ended_at d r before after) v (
        dispatch
          (subscribe_challenges now db_now no_handlers)
          (ended_events user_id r d ended_at before after)
          v)
ended_events-Dispatched now db_now user_id d ended_at r before after v unique =
    let e1 = completion_event user_id r d ended_at in
    let e2 = grade_event user_id before after in
    let v1 = react now db_now e1 v in
    let v2 = react now db_now e2 v1 in
    let bus = subscribe_challenges now db_now no_handlers in
    let grows = handle_progress_event-Grows now db_now user_id d reading_time add v unique in
    let unique' =
      (handle_progress_event-IsUnique now db_now user_id d reading_time add v unique).1 in
    let grows' =
      handle_progress_event-Grows now db_now user_id after.streak_days streak maximum v1 unique' in
    let timed : dispatch bus (e1 ∷ []) v ≡ v1 =
      dispatch_challenges now db_now e1 [] v ∙ dispatch_none bus v1 in
    let raised : dispatch bus (e1 ∷ e2 ∷ []) v ≡ v2 =
      dispatch_challenges now db_now e1 (e2 ∷ []) v
      ∙ dispatch_challenges now db_now e2 [] v1
      ∙ dispatch_none bus v2 in
    elim (Bool-cases (same_grade before after)) [
      | inl same ↦ rw (same, timed) (d, v1, refl, grows, inl (ground arith, ground arith, refl))
      | inr moved ↦ rw (moved, raised) (d, v1, refl, grows, inr (apart moved, grows'))
    ]
  where
    apart :
        same_grade before after ≡ false → (after.grade ≢ before.grade) ⊎ (after.tier ≢ before.tier)
    apart moved = elim (Bool-cases (after.grade == before.grade)) [
      | inl grade ↦ inr (λ e. ground (arith, e))
      | inr grade ↦ inl (λ e. ground (arith, e))
    ]

dispatched :
    (now db_now user_id session_id : ℕ) (ended_at : DateTime) (paused_ms : ℤ) (w v : World)
    (s' : Session) (c : SessionCompletion) (r : ReadingSession)
    → MayEnd user_id session_id ended_at paused_ms r w.db
    → end_session user_id session_id ended_at paused_ms (fresh w) ≡ (ok c, s')
    → IsUnique v.db
    → Dispatched now db_now user_id
        (grade_of user_id w.db.user_grades)
        c
        v
        (dispatch (subscribe_challenges now db_now no_handlers) s'.queue v)
dispatched now db_now user_id session_id ended_at paused_ms w v s' c r m h unique =
    let d = reconcile_duration r.started_at ended_at.instant paused_ms in
    let before = grade_of user_id w.db.user_grades in
    let after = grade_after user_id d ended_at w.db in
    let effect = end_session_effect user_id session_id ended_at paused_ms r (fresh w) m in
    let result : c ≡ completed_session ended_at d r before after = ground (arith, h, effect) in
    let queued : s'.queue ≡ ended_events user_id r d ended_at before after =
      ground (arith, h, effect) in
    rw (result, queued)
      (ended_events-Dispatched now db_now user_id d ended_at r before after v unique)

-- Where participations and owned badges are unique, the dispatch of the events of an ended session to the
-- challenges alone adds the session's seconds to each participation of the reader's that is not achieved
-- and whose challenge is one of reading time and runs, and stamps it if that reaches the target; then,
-- only if the grade or the tier moved, it raises those in streak challenges to the new streak, where that
-- is more, in the same way. No other participation changes, the new badges are those that the newly
-- published events announce, and all else is as it was.
pub end_session-dispatch :
    (now db_now user_id session_id : ℕ) (ended_at : DateTime) (paused_ms : ℤ) (w v : World)
    (s' : Session) (c : SessionCompletion)
    → end_session user_id session_id ended_at paused_ms (fresh w) ≡ (ok c, s')
    → IsUnique v.db
    → Dispatched now db_now user_id
        (grade_of user_id w.db.user_grades)
        c
        v
        (dispatch (subscribe_challenges now db_now no_handlers) s'.queue v)
end_session-dispatch now db_now user_id session_id ended_at paused_ms w v s' c h unique =
    let (r, m) = end_session_ok user_id session_id ended_at paused_ms (fresh w) s' c h in
    dispatched now db_now user_id session_id ended_at paused_ms w v s' c r m h unique
