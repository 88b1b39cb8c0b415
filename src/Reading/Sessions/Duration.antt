-- ===== src/Reading/Sessions/Duration.antt =====
-- The length of a session, against the pause that the client reports.
use book_club.Prelude.{ℕ, ◌-◌, ◌*◌, ◌/◌, ◌≤◌, ◌≡◌, arith}
use book_club.Prelude.Int.{ℤ, pos, negsuc}
use book_club.Reading.Service.{reconcile_duration}

-- Whatever pause a client reports, a negative one included, a session is no longer than the time between
-- its two ends, and it has no seconds if it ended before it started.
reconcile_duration_bounded :
    (started_at ended_at : ℕ) (paused_ms : ℤ)
    → reconcile_duration started_at ended_at paused_ms * 1000000 ≤ ended_at - started_at
unfolding reconcile_duration
reconcile_duration_bounded started_at ended_at (pos n) = ground arith
reconcile_duration_bounded started_at ended_at (negsuc n) = ground arith

-- A pause that is not negative is taken off the elapsed time, down to nothing, and the rest counts in whole
-- seconds.
reconcile_duration-pos :
    (started_at ended_at n : ℕ)
    → reconcile_duration started_at ended_at (pos n) ≡ (ended_at - started_at - n * 1000) / 1000000
unfolding reconcile_duration
reconcile_duration-pos started_at ended_at n = ground arith

-- A longer pause never makes a session longer.
reconcile_duration_antitone :
    (started_at ended_at n m : ℕ)
    → n ≤ m
    → reconcile_duration started_at ended_at (pos m)
      ≤ reconcile_duration started_at ended_at (pos n)
reconcile_duration_antitone started_at ended_at n m h = omega (
  arith,
  reconcile_duration-pos started_at ended_at n,
  reconcile_duration-pos started_at ended_at m,
)
