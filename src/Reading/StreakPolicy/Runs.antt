-- ===== src/Reading/StreakPolicy/Runs.antt =====
-- The streak counters against the days that were read. A history lists the sessions, the last one first,
-- each with its date and the balance of shields that the reader held by then: shields are bought and refunded
-- between sessions.
use book_club.Prelude.{
  ℕ, ◌+◌, ◌≤◌, ◌<◌, ◌-◌, ◌≡◌, refl, sym, ap, ◌⊎◌, inl, inr, Bool, true, false, ◌||◌, ◌&&◌, Option,
  none, some, List, [], ◌∷◌, arith, ◌==◌, ltb, if◌then◌else◌, max, dec_lt, Bool-cases,
}
use book_club.Reading.StreakPolicy.{update_streak, apply_streak_with_shield}

-- The counters after the sessions of a history, from a reader with none.
pub counters : List (ℕ × ℕ) → Option ℕ × ℕ × ℕ
counters [] = (none, 0, 0)
counters ((d, shields) ∷ h) =
    let (last, days, longest) = counters h in
    let (days', longest', last', shields') = apply_streak_with_shield last days longest shields d in
    (some last', days', longest')

-- The days that shields took out of the calendar: where a session follows a gap and finds a shield, the days
-- after the session before it, up to its own.
abbrev pub bridged : List (ℕ × ℕ) → ℕ
bridged [] = 0
bridged ((d, shields) ∷ []) = 0
bridged ((d, shields) ∷ (d', shields') ∷ h) =
    bridged ((d', shields') ∷ h) + (if ltb (d' + 1) d && ltb 0 shields then d - d' else 0)

-- Whether a day of the calendar without those days was read.
abbrev pub read_on : List (ℕ × ℕ) → ℕ → Bool
read_on [] x = false
read_on ((d, shields) ∷ h) x = x == d - bridged ((d, shields) ∷ h) || read_on h x

-- No session is dated before one that was completed earlier.
abbrev pub InOrder : List (ℕ × ℕ) → Type 0
InOrder [] = Unit
InOrder ((d, shields) ∷ []) = Unit
InOrder ((d, shields) ∷ (d', shields') ∷ h) = (d' ≤ d) × InOrder ((d', shields') ∷ h)

-- What the counters of a reader say about the days that were read.
pub record CountsRuns (read : ℕ → Bool) (last days longest : ℕ) : Type 0 where
  pub counted : (x : ℕ) → x ≤ last → last < x + days → read x ≡ true
  pub stopped : (x : ℕ) → x + days ≡ last → read x ≡ false
  pub latest : (x : ℕ) → read x ≡ true → x ≤ last
  pub positive : 1 ≤ days
  pub covered : days ≤ longest
  pub longest_run : (from n : ℕ) → ((x : ℕ) → from ≤ x → x < from + n → read x ≡ true) → n ≤ longest

first_day : (d shields : ℕ) → CountsRuns (read_on ((d, shields) ∷ [])) (d - 0) 1 1
first_day d shields = record {
  counted = λ x h k. ground arith;
  stopped = λ x h. ground arith;
  latest = λ x h. ground arith;
  positive = omega arith;
  covered = omega arith;
  longest_run = λ from n h. ground (arith, h from, h (from + 1));
}

module _ (read : ℕ → Bool) (last days : ℕ) (stopped : (x : ℕ) → x + days ≡ last → read x ≡ false)
    (latest : (x : ℕ) → read x ≡ true → x ≤ last) where
  -- A run of days that holds the last one is no longer than the streak.
  run_to_last :
      (from n : ℕ)
      → ((x : ℕ) → from ≤ x → x < from + n → read x ≡ true)
      → from ≤ last
      → last < from + n
      → n ≤ days
  run_to_last from n block h k = elim (dec_lt days n) [
    | no small ↦ omega arith
    | yes big ↦
        let ends : from + n ≤ last + 1 = elim (dec_lt (last + 1) (from + n)) [
          | no small ↦ omega arith
          | yes past ↦
              absurd (omega (arith, latest (last + 1) (block (last + 1) (omega arith) past)))
        ] in
        absurd (
          cc (block (last - days) (omega arith) (omega arith), stopped (last - days) (omega arith)))
  ]

abbrev read_also : ℕ → (ℕ → Bool) → ℕ → Bool
read_also d read x = x == d || read x

module _ (read : ℕ → Bool) (last days longest d : ℕ) (h : CountsRuns read last days longest) where
  -- A block without the new day was read before.
  block_before :
      (from n : ℕ)
      → ((x : ℕ) → from ≤ x → x < from + n → read_also d read x ≡ true)
      → (d < from) ⊎ (from + n ≤ d)
      → n ≤ longest
  block_before from n block out = h.longest_run from n (λ x a b. ground (arith, block x))

  again-CountsRuns : d ≡ last → CountsRuns (read_also d read) last days longest
  again-CountsRuns e = record {
    counted = λ x a b. ground (arith, h.counted x);
    stopped = λ x a. ground (arith, h.stopped x, h.positive);
    latest = λ x a. ground (arith, h.latest x);
    positive = h.positive;
    covered = h.covered;
    longest_run = λ from n block.
        h.longest_run from n (λ x a b. ground (arith, block x, h.counted x, h.positive));
  }

  next-CountsRuns :
      d ≡ last + 1 → CountsRuns (read_also d read) d (days + 1) (max longest (days + 1))
  next-CountsRuns e =
      let stopped' : (x : ℕ) → x + (days + 1) ≡ d → read_also d read x ≡ false =
        λ x a. ground (arith, h.stopped x) in
      let latest' : (x : ℕ) → read_also d read x ≡ true → x ≤ d =
        λ x a. ground (arith, h.latest x) in
      record {
        counted = λ x a b. ground (arith, h.counted x);
        stopped = stopped';
        latest = latest';
        positive = omega arith;
        covered = omega arith;
        longest_run = λ from n block. elim (dec_lt d from) [
          | yes after ↦ omega (arith, block_before from n block (inl after))
          | no other ↦ elim (dec_lt d (from + n)) [
            | no before ↦ omega (arith, block_before from n block (inr (omega arith)))
            | yes across ↦ omega (
              arith,
              run_to_last (read_also d read) d (days + 1) stopped' latest' from n block
                  (omega arith) across,
            )
          ]
        ];
      }

  gap-CountsRuns : last + 1 < d → CountsRuns (read_also d read) d 1 longest
  gap-CountsRuns e =
      let stopped' : (x : ℕ) → x + 1 ≡ d → read_also d read x ≡ false =
        λ x a. ground (arith, h.latest x) in
      let latest' : (x : ℕ) → read_also d read x ≡ true → x ≤ d =
        λ x a. ground (arith, h.latest x) in
      record {
        counted = λ x a b. ground arith;
        stopped = stopped';
        latest = latest';
        positive = omega arith;
        covered = omega (arith, h.positive, h.covered);
        longest_run = λ from n block. elim (dec_lt d from) [
          | yes after ↦ omega (arith, block_before from n block (inl after))
          | no other ↦ elim (dec_lt d (from + n)) [
            | no before ↦ omega (arith, block_before from n block (inr (omega arith)))
            | yes across ↦ omega (
              arith,
              h.positive,
              h.covered,
              run_to_last (read_also d read) d 1 stopped' latest' from n block (omega arith) across,
            )
          ]
        ];
      }

  update_streak-CountsRuns :
      last ≤ d
      → let (days', longest', last') = update_streak (some last) days longest d in
        (last' ≡ d) × CountsRuns (read_also d read) d days' longest'
  unfolding update_streak
  update_streak-CountsRuns ord = elim (dec_lt (last + 1) d) [
    | yes gap ↦ rw (update_gap gap) (refl, gap-CountsRuns gap)
    | no near ↦ elim (dec_lt last d) [
      | yes next ↦
          let e : d ≡ last + 1 = omega arith in rw (update_next e) (refl, next-CountsRuns e)
      | no same ↦
          let e : d ≡ last = omega arith in
          rw (update_same e) (sym e, rw e (rw e at (again-CountsRuns e)))
    ]
  ]
    where
      update_gap : last + 1 < d → update_streak (some last) days longest d ≡ (1, longest, d)
      update_gap e = ground arith

      update_next :
          d ≡ last + 1
          → update_streak (some last) days longest d ≡ (days + 1, max longest (days + 1), d)
      update_next e = ground arith

      update_same : d ≡ last → update_streak (some last) days longest d ≡ (days, longest, last)
      update_same e = ground arith

bridged_le :
    (d shields : ℕ) (h : List (ℕ × ℕ)) → InOrder ((d, shields) ∷ h) → bridged ((d, shields) ∷ h) ≤ d
bridged_le d shields [] ord = omega arith
bridged_le d shields ((d', shields') ∷ h) (le, ord) =
    ground (arith, le, bridged_le d' shields' h ord)

-- The streak and the longest one depend on the distance of the dates alone.
update_streak_shift :
    (last d t days longest : ℕ)
    → t ≤ last
    → last ≤ d
    → let (days1, longest1, last1) = update_streak (some last) days longest d in
      let (days2, longest2, last2) = update_streak (some (last - t)) days longest (d - t) in
      (days1 ≡ days2) × (longest1 ≡ longest2) × (last1 ≡ d)
unfolding update_streak
update_streak_shift last d t days longest h k = ground arith

apply_streak_saved :
    (last days longest shields d : ℕ)
    → (ltb (last + 1) d && ltb 0 shields) ≡ true
    → let (days', longest', last', shields') =
        apply_streak_with_shield (some last) days longest shields d in
      (days' ≡ days) × (longest' ≡ longest) × (last' ≡ d)
unfolding apply_streak_with_shield
apply_streak_saved last days longest shields d h = ground arith

apply_streak_unsaved :
    (last days longest shields d : ℕ)
    → (ltb (last + 1) d && ltb 0 shields) ≡ false
    → let (days', longest', last', shields') =
        apply_streak_with_shield (some last) days longest shields d in
      let (days1, longest1, last1) = update_streak (some last) days longest d in
      (days' ≡ days1) × (longest' ≡ longest1) × (last' ≡ last1)
unfolding apply_streak_with_shield
apply_streak_unsaved last days longest shields d h = ground arith

step-CountsRuns :
    (read : ℕ → Bool) (last t days longest shields d : ℕ)
    → t ≤ last
    → last ≤ d
    → CountsRuns read (last - t) days longest
    → let (days', longest', last', shields') =
        apply_streak_with_shield (some last) days longest shields d in
      let day = d - (t + (if ltb (last + 1) d && ltb 0 shields then d - last else 0)) in
      (last' ≡ d) × CountsRuns (read_also day read) day days' longest'
step-CountsRuns read last t days longest shields d small le runs =
    elim (Bool-cases (ltb (last + 1) d && ltb 0 shields)) [
      | inl saved ↦
          let (days_e, longest_e, last_e) = apply_streak_saved last days longest shields d saved in
          let e : d - (t + (d - last)) ≡ last - t = omega (arith, small, le) in
          rw (saved, days_e, longest_e, last_e, e)
            (refl, again-CountsRuns read (last - t) days longest (last - t) runs refl)
      | inr unsaved ↦
          let (days_e, longest_e, last_e) =
            apply_streak_unsaved last days longest shields d unsaved in
          let (days_s, longest_s, last_s) = update_streak_shift last d t days longest small le in
          let e : t + 0 ≡ t = omega arith in
          rw (unsaved, days_e, longest_e, last_e, e, days_s, longest_s, last_s)
            (
              refl,
              (update_streak-CountsRuns read (last - t) days longest (d - t) runs (omega arith)).1,
            )
    ]

first_session :
    (d shields : ℕ)
    → let (days, longest, last, shields') = apply_streak_with_shield none 0 0 shields d in
      (days ≡ 1) × (longest ≡ 1) × (last ≡ d)
unfolding apply_streak_with_shield update_streak
first_session d shields = ground arith

-- Over any history of sessions in order of date, each met with any balance of shields, the streak is the
-- run of consecutive days that ends at the last session, and no run of consecutive days is longer than the
-- longest streak, in the calendar without the days that shields took out: those after a session up to and
-- with the day of the next one, where the next one follows a gap and finds a shield.
pub counters-CountsRuns :
    (d shields : ℕ) (h : List (ℕ × ℕ))
    → InOrder ((d, shields) ∷ h)
    → let (last, days, longest) = counters ((d, shields) ∷ h) in
      (last ≡ some d)
      × CountsRuns (read_on ((d, shields) ∷ h)) (d - bridged ((d, shields) ∷ h)) days longest
unfolding counters
counters-CountsRuns d shields [] ord =
    let (days_e, longest_e, last_e) = first_session d shields in
    rw (days_e, longest_e, last_e) (refl, first_day d shields)
counters-CountsRuns d shields ((d', shields') ∷ h) (le, ord) =
    let (last, days, longest) = counters ((d', shields') ∷ h) in
    let (at, runs) = counters-CountsRuns d' shields' h ord in
    let (now, runs') =
      step-CountsRuns (read_on ((d', shields') ∷ h)) d' (bridged ((d', shields') ∷ h)) days longest
        shields d (bridged_le d' shields' h ord) le runs in
    rw at (ap some now, runs')
