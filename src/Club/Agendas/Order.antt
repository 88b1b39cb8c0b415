-- ===== src/Club/Agendas/Order.antt =====
-- The positions of topics: no two topics of an agenda share one.
use book_club.Prelude.{
  ℕ, ◌+◌, ◌≤◌, ◌≡◌, refl, ◌∙◌, Bool, true, false, not, ◌&&◌, none, String, List, [], ◌∷◌, ◌++◌,
  arith, ltb, ◌==◌, if◌then◌else◌, Bool-cases, inl, inr, first, first-none, count_where,
  count_where-update, count_where-delete, count_where-cong, sum_where-sort_by, sum_where-select,
  sort_by, select, map, update_where, delete_where, sum_where-append,
}
use book_club.Club.Models.{AgendaTopic}
use book_club.Club.Guards.{has_topic_id}
use book_club.Club.Agendas.Repository.{
  topic_before, in_agenda, new_topic, next_position, with_prompt, is_topic_of, at_position,
  position_from,
}
use book_club.Club.Agendas.Service.{is_in, all_in}

abbrev stands_at : ℕ → ℕ → AgendaTopic → Bool
stands_at agenda_id n t = in_agenda agenda_id t && t.position == n

-- Ids are unique, and so are the positions in each agenda.
pub record IsOrdered (ts : List AgendaTopic) : Type 0 where
  pub ids : (i : ℕ) → count_where (has_topic_id i) ts ≤ 1
  pub positions : (a n : ℕ) → count_where (stands_at a n) ts ≤ 1

-- No topic of the agenda stands at the next position or behind it.
next_position_free :
    (a n : ℕ) (ts : List AgendaTopic) → next_position a ts ≤ n → count_where (stands_at a n) ts ≡ 0
next_position_free a n [] h = refl
next_position_free a n (t ∷ ts) h = ground (arith, next_position_free a n ts)

pub add-IsOrdered :
    (id now a : ℕ) (prompt : String) (ts : List AgendaTopic)
    → first (has_topic_id id) ts ≡ none
    → IsOrdered ts
    → IsOrdered (ts ++ new_topic id now a (next_position a ts) prompt ∷ [])
add-IsOrdered id now a prompt ts new h =
    let row = new_topic id now a (next_position a ts) prompt in
    record {
      ids = λ i. ground (
        arith,
        h.ids i,
        first-none (has_topic_id id) ts new,
        sum_where-append (has_topic_id i) (λ t. 1) ts (row ∷ []),
      );
      positions = λ b n. ground (
        arith,
        h.positions b n,
        next_position_free a n ts,
        sum_where-append (stands_at b n) (λ t. 1) ts (row ∷ []),
      );
    }

pub rename-IsOrdered :
    (i : ℕ) (prompt : String) (ts : List AgendaTopic)
    → IsOrdered ts
    → IsOrdered (update_where (has_topic_id i) (with_prompt prompt) ts)
rename-IsOrdered i prompt ts h = record {
  ids = λ j. ground (
    arith,
    h.ids j,
    count_where-update (has_topic_id j) (has_topic_id i) (with_prompt prompt) ts (λ t. refl),
  );
  positions = λ b n. ground (
    arith,
    h.positions b n,
    count_where-update (stands_at b n) (has_topic_id i) (with_prompt prompt) ts (λ t. refl),
  );
}

pub delete-IsOrdered :
    (i : ℕ) (ts : List AgendaTopic) → IsOrdered ts → IsOrdered (delete_where (has_topic_id i) ts)
delete-IsOrdered i ts h = record {
  ids = λ j. ground (arith, h.ids j, count_where-delete (has_topic_id j) (has_topic_id i) ts);
  positions = λ b n.
      ground (arith, h.positions b n, count_where-delete (stands_at b n) (has_topic_id i) ts);
}

-- A topic of the agenda at a position, whose turn in the list of ids is over.
abbrev settled_at : ℕ → List ℕ → ℕ → AgendaTopic → Bool
settled_at a ids n t = in_agenda a t && not (is_in ids t.id) && t.position == n

-- One round of the reordering settles one topic, at the round's position.
settle_one :
    (a k x n : ℕ) (ids : List ℕ) (ts : List AgendaTopic)
    → count_where (settled_at a ids n) (update_where (is_topic_of a x) (at_position k) ts)
      ≤ count_where (settled_at a (x ∷ ids) n) ts
        + (if n == k then count_where (has_topic_id x) ts else 0)
settle_one a k x n ids [] = ground arith
settle_one a k x n ids (t ∷ ts) = ground (arith, settle_one a k x n ids ts)

-- The settled topics stand at distinct positions below the round's.
abbrev Settled : ℕ → ℕ → List ℕ → List AgendaTopic → Type 0
Settled a k ids ts = (n : ℕ) → count_where (settled_at a ids n) ts ≤ (if ltb n k then 1 else 0)

position_from-ids :
    (a k i : ℕ) (ids : List ℕ) (ts : List AgendaTopic)
    → count_where (has_topic_id i) (position_from a k ids ts) ≡ count_where (has_topic_id i) ts
unfolding position_from
position_from-ids a k i [] ts = refl
position_from-ids a k i (x ∷ ids) ts =
    position_from-ids a (k + 1) i ids (update_where (is_topic_of a x) (at_position k) ts)
    ∙ count_where-update (has_topic_id i) (is_topic_of a x) (at_position k) ts (λ t. refl)

-- After the last round every topic is settled.
position_from-Settled :
    (a k n : ℕ) (ids : List ℕ) (ts : List AgendaTopic)
    → ((i : ℕ) → count_where (has_topic_id i) ts ≤ 1)
    → Settled a k ids ts
    → count_where (stands_at a n) (position_from a k ids ts) ≤ 1
unfolding position_from
position_from-Settled a k n [] ts one h =
    ground (arith, h n, count_where-cong (settled_at a [] n) (stands_at a n) ts (λ t. ground arith))
position_from-Settled a k n (x ∷ ids) ts one h =
    let ts' = update_where (is_topic_of a x) (at_position k) ts in
    position_from-Settled a (k + 1) n ids ts'
      (λ i. ground (
        arith,
        one i,
        count_where-update (has_topic_id i) (is_topic_of a x) (at_position k) ts (λ t. refl),
      ))
      (λ m. ground (arith, one x, h m, settle_one a k x m ids ts))

-- A reordering moves no topic of another agenda.
position_from-other :
    (a b k n : ℕ) (ids : List ℕ) (ts : List AgendaTopic)
    → (a == b) ≡ false
    → count_where (stands_at b n) (position_from a k ids ts) ≡ count_where (stands_at b n) ts
unfolding position_from
position_from-other a b k n [] ts apart = refl
position_from-other a b k n (x ∷ ids) ts apart =
    position_from-other a b (k + 1) n ids (update_where (is_topic_of a x) (at_position k) ts) apart
    ∙ moved_elsewhere ts
  where
    moved_elsewhere :
        (ts : List AgendaTopic)
        → count_where (stands_at b n) (update_where (is_topic_of a x) (at_position k) ts)
          ≡ count_where (stands_at b n) ts
    moved_elsewhere [] = refl
    moved_elsewhere (t ∷ ts) = ground (arith, apart, moved_elsewhere ts)

-- A list of ids that has every id of some rows leaves none of them out.
all_in-count :
    (ids : List ℕ) (ts : List AgendaTopic)
    → all_in ids (map (λ t. t.id) ts) ≡ true
    → count_where (λ t. not (is_in ids t.id)) ts ≡ 0
all_in-count ids [] h = refl
all_in-count ids (t ∷ ts) h = ground (arith, h, all_in-count ids ts)

unsettled :
    (a n : ℕ) (ids : List ℕ) (ts : List AgendaTopic)
    → count_where (settled_at a ids n) ts
      ≤ count_where (λ t. in_agenda a t && not (is_in ids t.id)) ts
unsettled a n ids [] = ground arith
unsettled a n ids (t ∷ ts) = ground (arith, unsettled a n ids ts)

pub reorder-IsOrdered :
    (a : ℕ) (ids : List ℕ) (ts : List AgendaTopic)
    → all_in ids (map (λ t. t.id) (sort_by topic_before (select (in_agenda a) ts))) ≡ true
    → IsOrdered ts
    → IsOrdered (position_from a 0 ids ts)
reorder-IsOrdered a ids ts named h = record {
  ids = λ i. ground (arith, h.ids i, position_from-ids a 0 i ids ts);
  positions = λ b n. elim (Bool-cases (a == b)) [
    | inl same ↦
        let e : a ≡ b = ground arith in
        rw⁻¹ e (
          position_from-Settled a 0 n ids ts h.ids (λ m. ground (
            arith,
            unsettled a m ids ts,
            all_in-count ids (sort_by topic_before (select (in_agenda a) ts)) named,
            sum_where-sort_by (λ t. not (is_in ids t.id)) (λ t. 1) topic_before
                (select (in_agenda a) ts),
            sum_where-select (λ t. not (is_in ids t.id)) (in_agenda a) (λ t. 1) ts,
          )))
    | inr apart ↦ ground (arith, h.positions b n, position_from-other a b 0 n ids ts apart)
  ];
}
