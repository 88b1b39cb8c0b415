-- ===== src/Core/Cursors.antt =====
-- Pages that are followed by their cursors: a full page names the time of its last row, and the next page
-- holds what comes before that time.
use book_club.Prelude.{
  ℕ, zero, suc, ◌-◌, ◌≤◌, ◌<◌, ◌≡◌, refl, ◌∙◌, sym, ap, Option, none, some, List, [], ◌∷◌, ◌++◌,
  map, arith, ◌==◌, leb, if◌then◌else◌, Bool-cases, Option-cases, inl, inr, All, select, take, drop,
  length,
}
use book_club.Core.Pages.{
  IsStrict, before, last_of, last_of-below, select-last_of, select-below, select-select,
  length-drop, take-all, last_of-take,
}

-- A page before the pages that its cursor leads to.
abbrev pub followed_by {ℓ} : {B : Type ℓ} → List B → Option (List B) → Option (List B)
followed_by page none = none
followed_by page (some more) = some (page ++ more)

module _ {A B : Type 0} (time : A → ℕ) (f : A → B) where
  -- The rows before a cursor.
  abbrev pub part : Option ℕ → List A → List A
  part none rows = rows
  part (some k) rows = select (before time k) rows

  abbrev pub cursor_of : ℕ → List A → Option ℕ
  cursor_of n rows = if length rows == n then last_of time rows else none

  -- The pages from a cursor on, if as many calls as the fuel lead to a page without a cursor.
  abbrev pub follow : ℕ → (Option ℕ → List B × Option ℕ) → Option ℕ → Option (List B)
  follow zero fetch cursor = none
  follow (suc fuel) fetch cursor =
      let (page, next) = fetch cursor in
      elim next [ none ↦ some page | some k ↦ followed_by page (follow fuel fetch (some k)) ]

  select-All : (P : A → Type 0) (b : ℕ) (ms : List A) → All P ms → All P (select (before time b) ms)
  select-All P b [] h = tt
  select-All P b (m ∷ ms) (p, h) = elim (Bool-cases (before time b m)) [
    | inl kept ↦ rw kept (p, select-All P b ms h)
    | inr dropped ↦ rw dropped (select-All P b ms h)
  ]

  select-IsStrict :
      (b : ℕ) (ms : List A) → IsStrict time ms → IsStrict time (select (before time b) ms)
  select-IsStrict b [] h = tt
  select-IsStrict b (m ∷ ms) (below, h) = elim (Bool-cases (before time b m)) [
    | inl kept ↦ rw kept (select-All (λ x. time x < time m) b ms below, select-IsStrict b ms h)
    | inr dropped ↦ rw dropped (select-IsStrict b ms h)
  ]

  part-next :
      (k n : ℕ) (cursor : Option ℕ) (rows : List A)
      → IsStrict time rows
      → last_of time (take n (part cursor rows)) ≡ some k
      → part (some k) rows ≡ drop n (part cursor rows)
  part-next k n none rows h e = select-last_of time k n rows h e
  part-next k n (some b) rows h e =
      let below : k < b =
        last_of-below time b k n (select (before time b) rows) (select-below time b rows) e in
      sym (select-select time k b rows below)
      ∙ select-last_of time k n _ (select-IsStrict b rows h) e

  take-drop : (n : ℕ) (ms : List A) → map f (take n ms) ++ map f (drop n ms) ≡ map f ms
  take-drop n [] = refl
  take-drop n (m ∷ ms) = ground (arith, take-drop (n - 1) ms)

  length-take : (n : ℕ) (ms : List A) → (length (take n ms) == n) ≡ leb n (length ms)
  length-take n [] = ground arith
  length-take n (m ∷ ms) = elim (Bool-cases (n == 0)) [
    | inl first ↦ ground arith
    | inr more ↦ ground (arith, more, length-take (n - 1) ms)
  ]

  -- A reader of pages in strict order is done, and has read them all, once the fuel exceeds the rows.
  pub follow-all :
      (fetch : Option ℕ → List B × Option ℕ) (rows : List A) (n : ℕ)
      → 1 ≤ n
      → IsStrict time rows
      → ((c : Option ℕ)
          → fetch c ≡ (map f (take n (part c rows)), cursor_of n (take n (part c rows))))
      → (fuel : ℕ) (cursor : Option ℕ) → length (part cursor rows) < fuel
      → follow fuel fetch cursor ≡ some (map f (part cursor rows))
  follow-all fetch rows n some_rows strict serves zero cursor enough = ground arith
  follow-all fetch rows n some_rows strict serves (suc fuel) cursor enough =
      let here = part cursor rows in
      let answer =
        ap
          (λ r. elim r.1 [
            | none ↦ some r.0
            | some k ↦ followed_by r.0 (follow fuel fetch (some k))
          ])
          (serves cursor) in
      elim (Bool-cases (leb n (length here))) [
        | inl full ↦ elim (Option-cases (last_of time (take n here))) [
          | inl nothing ↦ ground (arith, last_of-take time n here, nothing, full, some_rows)
          | inr (k, last) ↦
              let rest = part-next k n cursor rows strict last in
              let onward =
                follow-all fetch rows n some_rows strict serves fuel (some k)
                  (rw rest (ground (arith, full, some_rows, enough, length-drop time n here))) in
              answer
              ∙ rw (length-take n here, full, last, onward, rest) (ap some (take-drop n here))
        ]
        | inr short ↦
            answer
            ∙ rw (length-take n here, short)
                (ap (λ ms. some (map f ms)) (take-all time n here (ground arith)))
      ]
