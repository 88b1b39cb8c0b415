-- ===== src/Reading/StreakPolicy/Shields.antt =====
-- The counters and the shield balance across the branches of `apply_streak_with_shield`.
use book_club.Prelude.{ℕ, ◌+◌, ◌%◌, ◌≤◌, ◌<◌, ◌≡◌, true, is_some, ltb, Option, some, arith}
use book_club.Reading.StreakPolicy.{
  max_streak_shields, shield_award_interval, apply_streak_with_shield,
}

-- What holds of a row of user_grades between two sessions: a reader with a last day has a streak, the
-- best streak covers the current one, and the balance is inside the cap.
pub record IsSound (last : Option ℕ) (streak_days longest_streak streak_shields : ℕ) : Type 0 where
  pub started : is_some last ≡ true → 1 ≤ streak_days
  pub covered : streak_days ≤ longest_streak
  pub capped : streak_shields ≤ max_streak_shields

-- From sound counters every session leads to sound counters: the longest streak covers the current one,
-- the current one is at least a day, and the balance stays within three shields.
pub apply_streak_with_shield-IsSound :
    (last : Option ℕ) (days longest shields day : ℕ)
    → IsSound last days longest shields
    → let (days', longest', last', shields') =
        apply_streak_with_shield last days longest shields day in
      IsSound (some last') days' longest' shields'
unfolding apply_streak_with_shield
apply_streak_with_shield-IsSound last days longest shields day h = ground arith

-- For a reader with a last day who holds a shield, with the balance inside the cap, no session lowers the
-- streak or moves the last day back, and the balance falls exactly when a gap of more than a day was
-- bridged, and then by one.
pub shield_protects :
    (last days longest shields day : ℕ)
    → 0 < shields
    → shields ≤ max_streak_shields
    → let (days', longest', last', shields') =
        apply_streak_with_shield (some last) days longest shields day in
      (days ≤ days')
      × (last ≤ last')
      × (ltb shields' shields ≡ ltb (last + 1) day)
      × (shields ≤ shields' + 1)
unfolding apply_streak_with_shield
shield_protects last days longest shields day h cap = ground arith

-- A second session on a day on which the streak stands at a positive multiple of seven is awarded a shield
-- again, with the streak unchanged, as long as the balance is below the cap.
award_repeats_same_day :
    (day days longest shields : ℕ)
    → 0 < days
    → days % shield_award_interval ≡ 0
    → shields < max_streak_shields
    → apply_streak_with_shield (some day) days longest shields day
      ≡ (days, longest, day, shields + 1)
unfolding apply_streak_with_shield
award_repeats_same_day day days longest shields h k c = ground arith

-- A balance above three shields falls to three when a session on the next day brings the streak to a
-- multiple of seven.
award_cuts_balance :
    (last days longest shields : ℕ)
    → (days + 1) % shield_award_interval ≡ 0
    → max_streak_shields < shields
    → let (days', longest', last', shields') =
        apply_streak_with_shield (some last) days longest shields (last + 1) in
      (days' ≡ days + 1) × (shields' ≡ max_streak_shields) × (shields' < shields)
unfolding apply_streak_with_shield
award_cuts_balance last days longest shields h c = ground arith
