-- ===== src/Core/Session.antt =====
-- backend/app/core/db.py and the staged events of backend/app/shared/event_bus.py: the session of one
-- request or of one event handler. A call may raise, and what was written before it raised stays in the
-- session until the session is rolled back.
pub mod Atomic
use book_club.Prelude.{Bool, true, false, Option, none, some, List, [], ◌∷◌, ◌++◌, if◌then◌else◌}
use book_club.Core.Exceptions.{Raised}
use book_club.Core.Events.{Event}
use book_club.Core.Database.{Database}

-- An `AsyncSession`: the tables as this transaction sees them, and `session.info`'s event queue.
pub record Session : Type 0 where
  pub db : Database
  pub queue : List Event

pub data Result {ℓ} (A : Type ℓ) : Type ℓ where
  ok : A → Result A
  err : Raised → Result A

abbrev pub is_err {ℓ} : {A : Type ℓ} → Result A → Bool
is_err (ok a) = false
is_err (err e) = true

abbrev pub Action : Type 0 → Type 0
Action A = Session → Result A × Session

module _ {A : Type 0} where
  abbrev pub pure : A → Action A
  pure a s = (ok a, s)

  abbrev pub raise : Raised → Action A
  raise e s = (err e, s)

  abbrev pub gets : (Database → A) → Action A
  gets f s = (ok (f s.db), s)

  -- row = find(…); if row is None: raise e
  abbrev pub require : (Database → Option A) → Raised → Action A
  require find e s = (elim (find s.db) [ none ↦ err e | some a ↦ ok a ], s)

infixl 5 ◌>>=◌ ◌>>◌
abbrev pub ◌>>=◌ : {A B : Type 0} → Action A → (A → Action B) → Action B
◌>>=◌ m f s = let (r, s') = m s in elim r [ ok a ↦ f a s' | err e ↦ (err e, s') ]

abbrev pub ◌>>◌ : {A B : Type 0} → Action A → Action B → Action B
m >> k = m >>= λ _. k

-- if condition: raise e
abbrev pub raise_if : Bool → Raised → Action (Unit {0})
raise_if test e s = (if test then err e else ok tt, s)

-- if condition: m
abbrev pub when : Bool → Action (Unit {0}) → Action (Unit {0})
when test m s = elim test [ true ↦ m s | false ↦ (ok tt, s) ]

abbrev pub modify : (Database → Database) → Action (Unit {0})
modify f s = (ok tt, record s { db = f s.db })

-- stage_event
abbrev pub stage_event : Event → Action (Unit {0})
stage_event e s = (ok tt, record s { queue = s.queue ++ e ∷ [] })

-- The process: the committed tables, and the events that were drained onto the bus, oldest first.
pub record World : Type 0 where
  pub db : Database
  pub published : List Event

-- `get_session` around a handler, with the listeners of `commit_and_publish`: on success it commits and
-- drains the queue onto the bus; on an exception it rolls back and clears the queue.
unfoldable pub run_request : {A : Type 0} → Action A → World → Result A × World
run_request m w =
    let (r, s) = m (record { db = w.db; queue = [] }) in
    elim r [
      | ok a ↦ (ok a, record { db = s.db; published = w.published ++ s.queue })
      | err e ↦ (err e, w)
    ]
