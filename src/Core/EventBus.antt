-- ===== src/Core/EventBus.antt =====
-- backend/app/shared/event_bus.py: LocalEventBus and the dispatch of the events that a commit drained. A
-- handler returns or raises, and leaves the process in some state either way.
use book_club.Prelude.{
  ℕ, ◌≡◌, refl, Bool, true, List, [], ◌∷◌, ◌++◌, ◌==◌, if◌then◌else◌, arith, Bool-cases, inl, inr,
}
use book_club.Core.Events.{
  Event, reading_session_completed, user_grade_recomputed, user_book_completed, badge_earned,
  post_created, reaction_added, comment_added, follow_received,
}
use book_club.Core.Session.{Result, is_err, Action, World, run_request}
use book_club.Core.Session.Atomic.{fresh}

abbrev pub Handler : Type 0
Handler = Event → World → Result (Unit {0}) × World

-- The classes of events that handlers are registered for.
pub data EventType : Type 0 where
  reading_session_completed_type user_grade_recomputed_type user_book_completed_type
        badge_earned_type post_created_type reaction_added_type comment_added_type
        follow_received_type :
      EventType

-- type(event)
abbrev pub type_of : Event → EventType
type_of (reading_session_completed e) = reading_session_completed_type
type_of (user_grade_recomputed e) = user_grade_recomputed_type
type_of (user_book_completed e) = user_book_completed_type
type_of (badge_earned e) = badge_earned_type
type_of (post_created e) = post_created_type
type_of (reaction_added e) = reaction_added_type
type_of (comment_added e) = comment_added_type
type_of (follow_received e) = follow_received_type

abbrev pub type_index : EventType → ℕ
type_index reading_session_completed_type = 0
type_index user_grade_recomputed_type = 1
type_index user_book_completed_type = 2
type_index badge_earned_type = 3
type_index post_created_type = 4
type_index reaction_added_type = 5
type_index comment_added_type = 6
type_index follow_received_type = 7

abbrev pub same_type : EventType → EventType → Bool
same_type t t' = type_index t == type_index t'

-- `_handlers`, a defaultdict of lists.
abbrev pub Bus : Type 0
Bus = EventType → List Handler

unfoldable pub subscribe : EventType → Handler → Bus → Bus
subscribe event_type handler bus t = if same_type event_type t then bus t ++ handler ∷ [] else bus t

-- The loop of `publish`: an exception is logged and swallowed, and what the handler left stays.
unfoldable pub run_handlers : List Handler → Event → World → World
run_handlers [] e w = w
run_handlers (handler ∷ handlers) e w = run_handlers handlers e (handler e w).1

unfoldable pub publish : Bus → Event → World → World
unfolding run_handlers
publish bus e w = run_handlers (bus (type_of e)) e w

-- `_dispatch`
unfoldable pub dispatch : Bus → List Event → World → World
unfolding publish
dispatch bus [] w = w
dispatch bus (e ∷ events) w = dispatch bus events (publish bus e w)

run_handlers-append :
    (handlers : List Handler) (handler : Handler) (e : Event) (w : World)
    → run_handlers (handlers ++ handler ∷ []) e w ≡ (handler e (run_handlers handlers e w)).1
unfolding run_handlers
run_handlers-append [] handler e w = refl
run_handlers-append (h ∷ handlers) handler e w = run_handlers-append handlers handler e (h e w).1

-- A new subscriber sees an event of its type after all the earlier ones, whether they raised or not, and
-- sees no event of another type.
pub publish-subscribe :
    (event_type : EventType) (handler : Handler) (bus : Bus) (e : Event) (w : World)
    → publish (subscribe event_type handler bus) e w ≡ (
        if same_type event_type (type_of e)
        then (handler e (publish bus e w)).1
        else publish bus e w)
unfolding publish subscribe
publish-subscribe event_type handler bus e w =
    elim (Bool-cases (same_type event_type (type_of e))) [
      | inl same ↦ rw same (run_handlers-append (bus (type_of e)) handler e w)
      | inr other ↦ rw other
    ]

run_request-raise :
    (m : Action (Unit {0})) (w : World) → is_err (m (fresh w)).0 ≡ true → (run_request m w).1 ≡ w
unfolding run_request
run_request-raise m w h = ground arith

-- A handler that opens its own session and raises on an event changes nothing for the subscribers before
-- it and for one after it on that event.
publish_isolates :
    (m : Event → Action (Unit {0})) (t t' : EventType) (next : Handler) (bus : Bus) (e : Event)
    (w : World)
    → is_err (m e (fresh (publish bus e w))).0 ≡ true
    → publish (subscribe t' next (subscribe t (λ e. run_request (m e)) bus)) e w
      ≡ publish (subscribe t' next bus) e w
publish_isolates m t t' next bus e w h = ground (
  arith,
  publish-subscribe t' next (subscribe t (λ e. run_request (m e)) bus) e w,
  publish-subscribe t' next bus e w,
  publish-subscribe t (λ e. run_request (m e)) bus e w,
  run_request-raise (m e) (publish bus e w) h,
)
