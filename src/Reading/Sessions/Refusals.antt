-- ===== src/Reading/Sessions/Refusals.antt =====
-- Which calls of Reading.Service.end_session are refused, and what every call does.
use book_club.Prelude.{
  ℕ, ◌≡◌, ap, ◌⊎◌, inl, inr, Option-cases, not, is_some, Option, none, some, arith, ◌==◌,
  if◌then◌else◌, ltb,
}
use book_club.Prelude.Int.{ℤ}
use book_club.Core.Database.{Database}
use book_club.Core.Session.{Session, Result, ok, err}
use book_club.Core.Exceptions.{
  Raised, session_not_found, session_already_ended, session_too_short, not_found_error,
  conflict_error,
}
use book_club.Reading.Models.{DateTime, ReadingSession, SessionCompletion}
use book_club.Reading.Repository.{get_by_id}
use book_club.Reading.Service.{reconcile_duration, min_timer_duration_sec, end_session}
use book_club.Reading.Sessions.Ending.{MayEnd, ended_db, end_session_effect}

-- Why a call of `end_session` is refused, if it is.
unfoldable pub refusal : ℕ → ℕ → DateTime → ℤ → Database → Option Raised
refusal user_id session_id ended_at paused_ms db = elim (get_by_id session_id db) [
  | none ↦ some (not_found_error session_not_found)
  | some r ↦
      if not (r.user_id == user_id)
      then some (not_found_error session_not_found)
      else if is_some r.ended_at
      then some (conflict_error session_already_ended)
      else if ltb (reconcile_duration r.started_at ended_at.instant paused_ms)
          min_timer_duration_sec
      then some (conflict_error session_too_short)
      else none
]

pub end_session_refused :
    (user_id session_id : ℕ) (ended_at : DateTime) (paused_ms : ℤ) (s : Session) (e : Raised)
    → refusal user_id session_id ended_at paused_ms s.db ≡ some e
    → end_session user_id session_id ended_at paused_ms s ≡ (err e, s)
unfolding end_session refusal
end_session_refused user_id session_id ended_at paused_ms s e h = ground arith

pub allowed-MayEnd :
    (user_id session_id : ℕ) (ended_at : DateTime) (paused_ms : ℤ) (db : Database)
    → refusal user_id session_id ended_at paused_ms db ≡ none
    → (r : ReadingSession) × MayEnd user_id session_id ended_at paused_ms r db
unfolding refusal
allowed-MayEnd user_id session_id ended_at paused_ms db h =
    elim (Option-cases (get_by_id session_id db)) [
      | inl e ↦ absurd (ground arith)
      | inr (r, e) ↦ (r, ground arith)
    ]

-- A call that returns found a session that may be ended.
pub end_session_ok :
    (user_id session_id : ℕ) (ended_at : DateTime) (paused_ms : ℤ) (s s' : Session)
    (c : SessionCompletion)
    → end_session user_id session_id ended_at paused_ms s ≡ (ok c, s')
    → (r : ReadingSession) × MayEnd user_id session_id ended_at paused_ms r s.db
end_session_ok user_id session_id ended_at paused_ms s s' c h =
    elim (Option-cases (refusal user_id session_id ended_at paused_ms s.db)) [
      | inr (e, k) ↦
          absurd (ground (arith, end_session_refused user_id session_id ended_at paused_ms s e k))
      | inl k ↦ allowed-MayEnd user_id session_id ended_at paused_ms s.db k
    ]

-- Every call either leaves the tables alone or ends a session that may be ended.
pub end_session_outcome :
    (user_id session_id : ℕ) (ended_at : DateTime) (paused_ms : ℤ) (s : Session)
    → let after = (end_session user_id session_id ended_at paused_ms s).1.db in
      (after ≡ s.db)
      ⊎ ((r : ReadingSession) × MayEnd user_id session_id ended_at paused_ms r s.db
          × (after
              ≡ ended_db user_id session_id
                  (reconcile_duration r.started_at ended_at.instant paused_ms)
                  ended_at
                  s.db))
end_session_outcome user_id session_id ended_at paused_ms s =
    elim (Option-cases (refusal user_id session_id ended_at paused_ms s.db)) [
      | inr (e, h) ↦ inl (
          ap (λ (p : Result SessionCompletion × Session). p.1.db)
            (end_session_refused user_id session_id ended_at paused_ms s e h))
      | inl h ↦
          let (r, m) = allowed-MayEnd user_id session_id ended_at paused_ms s.db h in
          inr (
            r,
            m,
            ap (λ (p : Result SessionCompletion × Session). p.1.db)
                (end_session_effect user_id session_id ended_at paused_ms r s m),
          )
    ]
