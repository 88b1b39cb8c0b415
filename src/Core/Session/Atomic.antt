-- ===== src/Core/Session/Atomic.antt =====
-- What a request leaves behind.
use book_club.Prelude.{◌≡◌, refl, []}
use book_club.Core.Database.{Database}
use book_club.Core.Session.{Session, Result, ok, err, Action, World, run_request}

-- The session that a request starts from.
abbrev pub fresh : World → Session
fresh w = record { db = w.db; queue = [] }

-- What holds of the tables before a request and of the tables that its handler leaves holds of the tables
-- that are committed.
pub run_request-keeps {ℓ} :
    {A : Type 0} (P : Database → Type ℓ) (m : Action A) (w : World)
    → P w.db
    → P (m (fresh w)).1.db
    → P (run_request m w).1.db
unfolding run_request
run_request-keeps {A} P m w h k = go (m (fresh w)).0 refl
  where
    go : (r : Result A) → (m (fresh w)).0 ≡ r → P (run_request m w).1.db
    go (ok a) e = rw (e, run_request) k
    go (err x) e = rw (e, run_request) h
