-- ===== src/Reading/Goals/Current.antt =====
-- The goals that the screen of current goals shows.
use book_club.Prelude.{
  ℕ, ◌≤◌, ◌≡◌, ◌∙◌, sym, ap, refl, inl, inr, Bool, true, false, none, List, [], ◌∷◌, arith,
  if◌then◌else◌, Bool-cases, All, first, select, count_where,
}
use book_club.Core.Database.{Database}
use book_club.Reading.Models.{Goal, GoalPeriod}
use book_club.Reading.Goals.{
  period_index, has_period, is_running, newer, insert, newest_first, active_for, is_seen, dedupe,
  list_active,
}

-- No later goal is newer than an earlier one.
abbrev NotNewer : Goal → Goal → Type 0
NotNewer g h = newer h g ≡ false

Sorted : List Goal → Type 0
Sorted [] = Unit
Sorted (g ∷ goals) = All (NotNewer g) goals × Sorted goals

newer_trans : (g h k : Goal) → newer g h ≡ true → newer k h ≡ false → newer k g ≡ false
newer_trans g h k a b = ground arith

newer_over : (g h k : Goal) → newer g h ≡ true → newer k h ≡ false → newer g k ≡ true
newer_over g h k a b = ground arith

not_newer_of : (g h : Goal) → newer g h ≡ true → newer h g ≡ false
not_newer_of g h a = ground arith

All-older :
    (g h : Goal) (goals : List Goal)
    → newer g h ≡ true
    → All (NotNewer h) goals
    → All (NotNewer g) goals
All-older g h [] a k = tt
All-older g h (x ∷ goals) a k = (newer_trans g h x a k.0, All-older g h goals a k.1)

All-insert :
    (x g : Goal) (goals : List Goal)
    → NotNewer x g
    → All (NotNewer x) goals
    → All (NotNewer x) (insert g goals)
unfolding insert
All-insert x g [] a k = (a, tt)
All-insert x g (h ∷ goals) a k = elim (Bool-cases (newer g h)) [
  | inl before ↦ rw before (a, k)
  | inr after ↦ rw after (k.0, All-insert x g goals a k.1)
]

insert-Sorted : (g : Goal) (goals : List Goal) → Sorted goals → Sorted (insert g goals)
unfolding insert Sorted
insert-Sorted g [] s = (tt, tt)
insert-Sorted g (h ∷ goals) s = elim (Bool-cases (newer g h)) [
  | inl before ↦ rw before ((not_newer_of g h before, All-older g h goals before s.0), s)
  | inr after ↦ rw after (All-insert h g goals after s.0, insert-Sorted g goals s.1)
]

newest_first-Sorted : (goals : List Goal) → Sorted (newest_first goals)
unfolding newest_first Sorted
newest_first-Sorted [] = tt
newest_first-Sorted (g ∷ goals) = insert-Sorted g (newest_first goals) (newest_first-Sorted goals)

-- The first goal of a kind is found with the goals of other kinds left out before the sorting.
first-insert_other :
    (p : Goal → Bool) (g : Goal) (goals : List Goal)
    → p g ≡ false
    → first p (insert g goals) ≡ first p goals
unfolding insert
first-insert_other p g [] a = ground arith
first-insert_other p g (h ∷ goals) a = ground (arith, first-insert_other p g goals a)

select-insert_first :
    (p : Goal → Bool) (g : Goal) (goals : List Goal)
    → All (λ h. newer g h ≡ true) goals
    → p g ≡ true
    → insert g (select p goals) ≡ g ∷ select p goals
unfolding insert
select-insert_first p g [] k a = refl
select-insert_first p g (h ∷ goals) k a = ground (arith, k, select-insert_first p g goals k.1 a)

All-newer :
    (g h : Goal) (goals : List Goal)
    → newer g h ≡ true
    → All (NotNewer h) goals
    → All (λ x. newer g x ≡ true) goals
All-newer g h [] a k = tt
All-newer g h (x ∷ goals) a k = (newer_over g h x a k.0, All-newer g h goals a k.1)

select-insert :
    (p : Goal → Bool) (g : Goal) (goals : List Goal)
    → Sorted goals
    → p g ≡ true
    → select p (insert g goals) ≡ insert g (select p goals)
unfolding insert Sorted
select-insert p g [] s a = ground arith
select-insert p g (h ∷ goals) s a = elim (Bool-cases (newer g h)) [
  | inl before ↦
      ground (arith, before, a, select-insert_first p g goals (All-newer g h goals before s.0) a)
  | inr after ↦ ground (arith, after, a, select-insert p g goals s.1 a)
]

select-insert_other :
    (p : Goal → Bool) (g : Goal) (goals : List Goal)
    → p g ≡ false
    → select p (insert g goals) ≡ select p goals
unfolding insert
select-insert_other p g [] a = ground arith
select-insert_other p g (h ∷ goals) a = ground (arith, select-insert_other p g goals a)

-- Selecting before the sorting and after it are the same.
select-newest_first :
    (p : Goal → Bool) (goals : List Goal)
    → select p (newest_first goals) ≡ newest_first (select p goals)
unfolding newest_first
select-newest_first p [] = refl
select-newest_first p (g ∷ goals) = elim (Bool-cases (p g)) [
  | inl yes_p ↦ rw (
    yes_p,
    select-insert p g (newest_first goals) (newest_first-Sorted goals) yes_p,
    select-newest_first p goals,
  )
  | inr no_p ↦
      rw (no_p, select-insert_other p g (newest_first goals) no_p, select-newest_first p goals)
]

first-select :
    (p : Goal → Bool) (goals : List Goal) → first (λ g. true) (select p goals) ≡ first p goals
first-select p [] = refl
first-select p (g ∷ goals) = ground (arith, first-select p goals)

is_seen-same :
    (p q : GoalPeriod) (seen : List GoalPeriod)
    → period_index p ≡ period_index q
    → is_seen p seen ≡ is_seen q seen
is_seen-same p q [] e = refl
is_seen-same p q (r ∷ seen) e = ground (arith, e, is_seen-same p q seen e)

dedupe-old :
    (seen : List GoalPeriod) (g : Goal) (goals : List Goal)
    → is_seen g.period seen ≡ true
    → dedupe seen (g ∷ goals) ≡ dedupe seen goals
unfolding dedupe
dedupe-old seen g goals e = rw (e, dedupe)

dedupe-new :
    (seen : List GoalPeriod) (g : Goal) (goals : List Goal)
    → is_seen g.period seen ≡ false
    → dedupe seen (g ∷ goals) ≡ g ∷ dedupe (g.period ∷ seen) goals
unfolding dedupe
dedupe-new seen g goals e = rw (e, dedupe)

-- The first goal of a period that was not seen survives, and no other goal of that period does.
dedupe-first :
    (period : GoalPeriod) (seen : List GoalPeriod) (goals : List Goal)
    → first (has_period period) (dedupe seen goals)
      ≡ (if is_seen period seen then none else first (has_period period) goals)
unfolding dedupe
dedupe-first period seen [] = ground arith
dedupe-first period seen (g ∷ goals) = elim (Bool-cases (is_seen g.period seen)) [
  | inl old ↦ ground (
    arith,
    old,
    dedupe-old seen g goals old,
    dedupe-first period seen goals,
    is_seen-same g.period period seen,
  )
  | inr new ↦ ground (
    arith,
    new,
    dedupe-new seen g goals new,
    dedupe-first period (g.period ∷ seen) goals,
    is_seen-same g.period period seen,
  )
]

dedupe-count :
    (period : GoalPeriod) (seen : List GoalPeriod) (goals : List Goal)
    → count_where (has_period period) (dedupe seen goals) ≤ (if is_seen period seen then 0 else 1)
unfolding dedupe
dedupe-count period seen [] = ground arith
dedupe-count period seen (g ∷ goals) = elim (Bool-cases (is_seen g.period seen)) [
  | inl old ↦ ground (
    arith,
    old,
    dedupe-old seen g goals old,
    dedupe-count period seen goals,
    is_seen-same g.period period seen,
  )
  | inr new ↦ ground (
    arith,
    new,
    dedupe-new seen g goals new,
    dedupe-count period (g.period ∷ seen) goals,
    is_seen-same g.period period seen,
  )
]

-- The list of current goals has at most one goal of each period, and it is the one that the query for that
-- period alone finds.
pub list_active-active_for :
    (user_id on_date : ℕ) (period : GoalPeriod) (db : Database)
    → (first (has_period period) (list_active user_id on_date db)
        ≡ active_for user_id period on_date db)
      × (count_where (has_period period) (list_active user_id on_date db) ≤ 1)
unfolding list_active active_for
list_active-active_for user_id on_date period db =
    let rows = select (is_running user_id on_date) db.goals in
    (
      dedupe-first period [] (newest_first rows)
          ∙ sym (first-select (has_period period) (newest_first rows))
          ∙ ap (first (λ g. true)) (select-newest_first (has_period period) rows),
      dedupe-count period [] (newest_first rows),
    )
