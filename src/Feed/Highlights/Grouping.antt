-- ===== src/Feed/Highlights/Grouping.antt =====
-- The highlights of a reader, grouped by the reader's copies of the books.
use book_club.Prelude.{
  ℕ, ◌+◌, ◌≤◌, ◌≡◌, refl, ap, inl, inr, Bool, true, false, Option, List, [], ◌∷◌, ◌++◌, map, arith,
  ◌==◌, is_some, if◌then◌else◌, Bool-cases, Option-cases, All, All-snoc, select, count_where,
  sort_by, sum_where-append, sum_where-sort_by,
}
use book_club.Core.Database.{Database}
use book_club.Core.Session.{Session, ok}
use book_club.Book.Repository.{find_user_book}
use book_club.Feed.Models.{PostHighlight}
use book_club.Feed.Highlights.{HighlightWithBookId, joined, by_book, of_user, list_all_for_user}
use book_club.Feed.Highlights.Service.{
  BookHighlightGroup, Groups, add_item, add_items, group_of, list_all_highlights,
}

-- The highlights of the groups, in the order that they are shown.
abbrev pub shown : {Snapshot : Type 0} → List (BookHighlightGroup Snapshot) → List PostHighlight
shown [] = []
shown (g ∷ groups) = g.highlights ++ shown groups

-- The highlights are of the copy that heads the group.
abbrev pub IsOfCopy : {Snapshot : Type 0} → BookHighlightGroup Snapshot → Type 0
IsOfCopy g = All (λ h. h.user_book_id ≡ g.user_book_id) g.highlights

abbrev listed : Groups → List PostHighlight
listed [] = []
listed ((k, b, hs) ∷ groups) = hs ++ listed groups

abbrev IsSorted : Groups → Type 0
IsSorted [] = Unit
IsSorted ((k, b, hs) ∷ groups) = All (λ h. h.user_book_id ≡ k) hs × IsSorted groups

abbrev has_key : ℕ → ℕ × ℕ × List PostHighlight → Bool
has_key k (k', b, hs) = k' == k

count_where-add_item :
    (p : PostHighlight → Bool) (h : PostHighlight) (b : ℕ) (groups : Groups)
    → count_where p (listed (add_item (h, b) groups))
      ≡ count_where p (listed groups) + (if p h then 1 else 0)
count_where-add_item p h b [] = ground arith
count_where-add_item p h b ((k, b', hs) ∷ groups) = ground (
  arith,
  count_where-add_item p h b groups,
  sum_where-append p (λ x. 1) (hs ++ h ∷ []) (listed groups),
  sum_where-append p (λ x. 1) hs (h ∷ []),
  sum_where-append p (λ x. 1) hs (listed groups),
  sum_where-append p (λ x. 1) hs (listed (add_item (h, b) groups)),
)

add_item-IsSorted :
    (h : PostHighlight) (b : ℕ) (groups : Groups)
    → IsSorted groups
    → IsSorted (add_item (h, b) groups)
add_item-IsSorted h b [] sorted = ((refl, tt), tt)
add_item-IsSorted h b ((k, b', hs) ∷ groups) (own, sorted) =
    elim (Bool-cases (k == h.user_book_id)) [
      | inl here ↦
          let e : h.user_book_id ≡ k = ground arith in
          rw here (All-snoc (λ x. x.user_book_id ≡ k) hs h own e, sorted)
      | inr later ↦ rw later (own, add_item-IsSorted h b groups sorted)
    ]

keys_other :
    (k : ℕ) (h : PostHighlight) (b : ℕ) (groups : Groups)
    → (h.user_book_id == k) ≡ false
    → count_where (has_key k) (add_item (h, b) groups) ≡ count_where (has_key k) groups
keys_other k h b [] other = ground (arith, other)
keys_other k h b ((k', b', hs) ∷ groups) other = ground (arith, other, keys_other k h b groups)

keys_own :
    (h : PostHighlight) (b : ℕ) (groups : Groups)
    → count_where (has_key h.user_book_id) groups ≤ 1
    → count_where (has_key h.user_book_id) (add_item (h, b) groups) ≤ 1
keys_own h b [] one = ground arith
keys_own h b ((k', b', hs) ∷ groups) one = ground (arith, one, keys_own h b groups)

keys-add_item :
    (h : PostHighlight) (b : ℕ) (groups : Groups)
    → ((k : ℕ) → count_where (has_key k) groups ≤ 1)
    → (k : ℕ) → count_where (has_key k) (add_item (h, b) groups) ≤ 1
keys-add_item h b groups one k = elim (Bool-cases (h.user_book_id == k)) [
  | inl own ↦
      let e : k ≡ h.user_book_id = ground arith in rw e (keys_own h b groups (one h.user_book_id))
  | inr other ↦ ground (arith, one k, keys_other k h b groups other)
]

-- What holds of the groups after any number of items.
record Grouped (p : PostHighlight → Bool) (n : ℕ) (groups : Groups) : Type 0 where
  total : count_where p (listed groups) ≡ n
  sorted : IsSorted groups
  keys : (k : ℕ) → count_where (has_key k) groups ≤ 1

add_items-Grouped :
    (p : PostHighlight → Bool) (items : List HighlightWithBookId) (n : ℕ) (groups : Groups)
    → Grouped p n groups
    → Grouped p (n + count_where (λ x. p x.0) items) (add_items items groups)
add_items-Grouped p [] n groups g = let e : n + 0 ≡ n = omega arith in rw e g
add_items-Grouped p ((h, b) ∷ items) n groups g =
    let more = if p h then 1 else 0 in
    let e : n + (more + count_where (λ x. p x.0) items)
        ≡ (n + more) + count_where (λ x. p x.0) items =
      omega arith in
    rw e (
      add_items-Grouped p items (n + more) (add_item (h, b) groups) (record {
        total = rw (count_where-add_item p h b groups, g.total) refl;
        sorted = add_item-IsSorted h b groups g.sorted;
        keys = keys-add_item h b groups g.keys;
      }))

joined_count :
    (p : PostHighlight → Bool) (db : Database) (hs : List PostHighlight)
    → All (λ h. is_some (find_user_book h.user_book_id db) ≡ true) hs
    → count_where (λ x. p x.0) (joined db hs) ≡ count_where p hs
joined_count p db [] h = refl
joined_count p db (x ∷ hs) (there, h) = elim (Option-cases (find_user_book x.user_book_id db)) [
  | inl gone ↦ ground (arith, there, gone)
  | inr (ub, at) ↦ ground (arith, at, joined_count p db hs h)
]

-- The same of the groups as they are answered.
module _ {Snapshot : Type 0} (snapshot : ℕ → Option Snapshot) where
  shown-map : (groups : Groups) → shown (map (group_of snapshot) groups) ≡ listed groups
  shown-map [] = refl
  shown-map ((k, b, hs) ∷ groups) = ap (λ r. hs ++ r) (shown-map groups)

  sorted-map : (groups : Groups) → IsSorted groups → All IsOfCopy (map (group_of snapshot) groups)
  sorted-map [] h = tt
  sorted-map ((k, b, hs) ∷ groups) (own, h) = (own, sorted-map groups h)

  keys-map :
      (k : ℕ) (groups : Groups)
      → count_where (λ g. g.user_book_id == k) (map (group_of snapshot) groups)
        ≡ count_where (has_key k) groups
  keys-map k [] = refl
  keys-map k ((k', b, hs) ∷ groups) = ground (arith, keys-map k groups)

  -- Where the copies of the books that a reader's highlights name are in the library, the list of all
  -- highlights returns, any kind of highlight is as often among those shown as among the reader's rows,
  -- each group holds the highlights of one copy, and no copy has two groups.
  pub list_all_highlights_lem :
      (u : ℕ) (s : Session) (p : PostHighlight → Bool)
      → All
          (λ h. is_some (find_user_book h.user_book_id s.db) ≡ true)
          (select (of_user u) s.db.post_highlights)
      → (groups : List (BookHighlightGroup Snapshot)) × (list_all_highlights snapshot u s
          ≡ (ok groups, s))
        × (count_where p (shown groups) ≡ count_where p (select (of_user u) s.db.post_highlights))
        × All IsOfCopy groups
        × ((k : ℕ) → count_where (λ g. g.user_book_id == k) groups ≤ 1)
  unfolding list_all_highlights list_all_for_user
  list_all_highlights_lem u s p there =
      let own = select (of_user u) s.db.post_highlights in
      let rows = sort_by by_book (joined s.db own) in
      let groups = add_items rows [] in
      let g : Grouped p (0 + count_where (λ x. p x.0) rows) groups =
        add_items-Grouped p rows 0 []
          (record { total = refl; sorted = tt; keys = λ k. omega arith }) in
      (
        map (group_of snapshot) groups,
        refl,
        rw
            (
              shown-map groups,
              g.total,
              sum_where-sort_by (λ (x : HighlightWithBookId). p x.0) (λ x. 1) by_book
                  (joined s.db own),
              joined_count p s.db own there,
            )
            (omega arith),
        sorted-map groups g.sorted,
        λ k. rw (keys-map k groups) (g.keys k),
      )
