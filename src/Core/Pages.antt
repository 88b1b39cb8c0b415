-- ===== src/Core/Pages.antt =====
-- Rows that are listed page by page, the newest first, each page before the time of a row of the last one.
use book_club.Prelude.{
  ℕ, ◌-◌, ◌≤◌, ◌<◌, ◌≡◌, ◌≢◌, refl, Bool, Option, none, some, List, [], ◌∷◌, arith, ltb, leb, ◌==◌,
  if◌then◌else◌, Bool-cases, inl, inr, All, select, sort_by, insert_by, take, drop, length,
}

module _ {A : Type 0} (time : A → ℕ) where
  -- The newest first.
  abbrev pub newer : A → A → Bool
  newer a b = leb (time b) (time a)

  -- Newest first, no two at the same time.
  abbrev pub IsStrict : List A → Type 0
  IsStrict [] = Unit
  IsStrict (m ∷ ms) = All (λ x. time x < time m) ms × IsStrict ms

  abbrev pub AtDistinctTimes : List A → Type 0
  AtDistinctTimes [] = Unit
  AtDistinctTimes (m ∷ ms) = All (λ x. time x ≢ time m) ms × AtDistinctTimes ms

  insert_by-All :
      (P : A → Type 0) (x : A) (ms : List A) → P x → All P ms → All P (insert_by newer x ms)
  insert_by-All P x [] p h = (p, tt)
  insert_by-All P x (m ∷ ms) p (q, h) = elim (Bool-cases (newer x m)) [
    | inl here ↦ rw here (p, (q, h))
    | inr later ↦ rw later (q, insert_by-All P x ms p h)
  ]

  pub sort_by-All : (P : A → Type 0) (ms : List A) → All P ms → All P (sort_by newer ms)
  sort_by-All P [] h = tt
  sort_by-All P (m ∷ ms) (p, h) = insert_by-All P m (sort_by newer ms) p (sort_by-All P ms h)

  below_more : (a b : ℕ) (ms : List A) → a < b → All (λ x. time x < a) ms → All (λ x. time x < b) ms
  below_more a b [] h k = tt
  below_more a b (m ∷ ms) h (p, k) = (omega (arith, p), below_more a b ms h k)

  insert_by-IsStrict :
      (x : A) (ms : List A)
      → All (λ m. time m ≢ time x) ms
      → IsStrict ms
      → IsStrict (insert_by newer x ms)
  insert_by-IsStrict x [] apart h = (tt, tt)
  insert_by-IsStrict x (m ∷ ms) (p, apart) (below, h) = elim (Bool-cases (newer x m)) [
    | inl here ↦
        let less : time m < time x = ground arith in
        rw here ((less, below_more (time m) (time x) ms less below), (below, h))
    | inr later ↦ rw later (
      insert_by-All (λ y. time y < time m) x ms (ground arith) below,
      insert_by-IsStrict x ms apart h,
    )
  ]

  pub sort_by-IsStrict : (ms : List A) → AtDistinctTimes ms → IsStrict (sort_by newer ms)
  sort_by-IsStrict [] h = tt
  sort_by-IsStrict (m ∷ ms) (apart, h) =
      insert_by-IsStrict m (sort_by newer ms) (sort_by-All (λ x. time x ≢ time m) ms apart)
        (sort_by-IsStrict ms h)

  abbrev pub before : ℕ → A → Bool
  before k m = ltb (time m) k

  select-insert_by :
      (k : ℕ) (x : A) (ms : List A)
      → select (before k) (insert_by newer x ms)
        ≡ (if before k x then insert_by newer x (select (before k) ms) else select (before k) ms)
  select-insert_by k x [] = ground arith
  select-insert_by k x (m ∷ ms) = ground (arith, select-insert_by k x ms)

  pub select-sort_by :
      (k : ℕ) (ms : List A)
      → select (before k) (sort_by newer ms) ≡ sort_by newer (select (before k) ms)
  select-sort_by k [] = refl
  select-sort_by k (m ∷ ms) =
      ground (arith, select-insert_by k m (sort_by newer ms), select-sort_by k ms)

  pub select-none : (k : ℕ) (ms : List A) → All (λ x. time x < k) ms → select (before k) ms ≡ ms
  select-none k [] h = refl
  select-none k (m ∷ ms) (p, h) = ground (arith, p, select-none k ms h)

  -- The time of the last of the first entries.
  abbrev pub last_of : List A → Option ℕ
  last_of [] = none
  last_of (m ∷ []) = some (time m)
  last_of (m ∷ m' ∷ ms) = last_of (m' ∷ ms)

  pub last_of-below :
      (b k n : ℕ) (ms : List A) → All (λ x. time x < b) ms → last_of (take n ms) ≡ some k → k < b
  last_of-below b k n [] h e = cc
  last_of-below b k n (m ∷ []) (p, h) e = ground (arith, p, e)
  last_of-below b k n (m ∷ m' ∷ ms) (p, h) e =
      ground (arith, p, e, last_of-below b k (n - 1) (m' ∷ ms) h)

  -- In strict order, what comes before the time of the last entry of a page is what comes after the page.
  pub select-last_of :
      (k n : ℕ) (ms : List A)
      → IsStrict ms
      → last_of (take n ms) ≡ some k
      → select (before k) ms ≡ drop n ms
  select-last_of k n [] h e = refl
  select-last_of k n (m ∷ []) (below, h) e = ground (arith, e)
  select-last_of k n (m ∷ m' ∷ ms) (below, h) e = ground (
    arith,
    e,
    select-last_of k (n - 1) (m' ∷ ms) h,
    last_of-below (time m) k (n - 1) (m' ∷ ms) below,
    select-none (time m) (m' ∷ ms) below,
  )

  pub select-below : (k : ℕ) (ms : List A) → All (λ x. time x < k) (select (before k) ms)
  select-below k [] = tt
  select-below k (m ∷ ms) = elim (Bool-cases (before k m)) [
    | inl below ↦ rw below (ground arith, select-below k ms)
    | inr above ↦ rw above (select-below k ms)
  ]

  pub select-select :
      (k b : ℕ) (ms : List A)
      → k < b
      → select (before k) (select (before b) ms) ≡ select (before k) ms
  select-select k b [] h = refl
  select-select k b (m ∷ ms) h = ground (arith, h, select-select k b ms h)

  pub drop-IsStrict : (n : ℕ) (ms : List A) → IsStrict ms → IsStrict (drop n ms)
  drop-IsStrict n [] h = tt
  drop-IsStrict n (m ∷ ms) (below, h) = elim (Bool-cases (n == 0)) [
    | inl first ↦ rw first (below, h)
    | inr more ↦ rw more (drop-IsStrict (n - 1) ms h)
  ]

  pub length-drop : (n : ℕ) (ms : List A) → length (drop n ms) ≡ length ms - n
  length-drop n [] = omega arith
  length-drop n (m ∷ ms) = ground (arith, length-drop (n - 1) ms)

  pub take-all : (n : ℕ) (ms : List A) → length ms ≤ n → take n ms ≡ ms
  take-all n [] h = refl
  take-all n (m ∷ ms) h = ground (arith, take-all (n - 1) ms)

  -- A page of at least one row has a last one.
  pub last_of-take : (n : ℕ) (ms : List A) → 1 ≤ n → 1 ≤ length ms → last_of (take n ms) ≢ none
  last_of-take n [] h k e = ground arith
  last_of-take n (m ∷ []) h k e = ground arith
  last_of-take n (m ∷ m' ∷ ms) h k e = ground (arith, e, last_of-take (n - 1) (m' ∷ ms))
