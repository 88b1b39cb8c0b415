-- ===== src/Feed/Reactions/Unique.antt =====
-- The table of reactions holds a triple of post, user and type at most once.
use book_club.Prelude.{
  ℕ, ◌≤◌, ◌≡◌, refl, ◌∙◌, sym, ap, ◌⊎◌, Bool, true, false, none, some, List, [], ◌∷◌, ◌++◌, arith,
  ◌==◌, ◌&&◌, not, if◌then◌else◌, first, count_where, delete_where, Bool-cases, Option-cases, inl,
  inr, sum_where-append, first-none, count_where-delete, first-by_key, first-delete_key,
  first-delete_only, first-some, first-append, first-append_other, ==_refl,
}
use book_club.Feed.Models.{Reaction, ReactionType, idea, fire, think, clap, heart}
use book_club.Feed.Reactions.{is_reaction, same_reaction, reaction_index, has_reacted}

abbrev pub has_id : ℕ → Reaction → Bool
has_id id r = r.id == id

-- Ids and triples are unique.
pub record IsUnique (rows : List Reaction) : Type 0 where
  pub ids : (i : ℕ) → count_where (has_id i) rows ≤ 1
  pub triples : (p u : ℕ) (t : ReactionType) → count_where (is_reaction p u t) rows ≤ 1

-- A row of the triple, after which one.
abbrev pub triple : ℕ → ℕ → ℕ → ReactionType → Reaction
triple id p u t = record { id = id; post_id = p; user_id = u; reaction_type = t }

-- What a toggle leaves of the table.
abbrev pub flipped : ℕ → ℕ → ℕ → ReactionType → List Reaction → List Reaction
flipped id p u t rows = elim (first (is_reaction p u t) rows) [
  | none ↦ rows ++ triple id p u t ∷ []
  | some r ↦ delete_where (has_id r.id) rows
]

abbrev pub same_triple : ℕ → ℕ → ReactionType → ℕ → ℕ → ReactionType → Bool
same_triple p u t p' u' t' = p == p' && u == u' && same_reaction t t'

-- The type with an index.
abbrev of_index : ℕ → ReactionType
of_index n =
    if n == 0
    then idea
    else if n == 1
    then fire
    else if n == 2
    then think
    else if n == 3
    then clap
    else heart

of_index_lem : (t : ReactionType) → of_index (reaction_index t) ≡ t
of_index_lem idea = refl
of_index_lem fire = refl
of_index_lem think = refl
of_index_lem clap = refl
of_index_lem heart = refl

pub same_reaction-eq : (t t' : ReactionType) → same_reaction t t' ≡ true → t ≡ t'
same_reaction-eq t t' h =
    let e : reaction_index t ≡ reaction_index t' = ground arith in
    sym (of_index_lem t) ∙ ap of_index e ∙ of_index_lem t'

-- A search for the triple itself, or for another one.
pub triple-cases :
    (p u : ℕ) (t : ReactionType) (p' u' : ℕ) (t' : ReactionType)
    → ((same_triple p u t p' u' t' ≡ true) × (is_reaction p' u' t' ≡ is_reaction p u t))
      ⊎ (same_triple p u t p' u' t' ≡ false)
triple-cases p u t p' u' t' = elim (Bool-cases (same_triple p u t p' u' t')) [
  | inl same ↦
      let e : p' ≡ p = ground arith in
      let e' : u' ≡ u = ground arith in
      let e'' : t' ≡ t = sym (same_reaction-eq t t' (ground arith)) in
      inl (same, rw (e, e', e'') refl)
  | inr other ↦ inr other
]

pub same_reaction_refl : (t : ReactionType) → same_reaction t t ≡ true
same_reaction_refl t = ground arith

snoc-triples :
    (id p u : ℕ) (t : ReactionType) (rows : List Reaction) (p' u' : ℕ) (t' : ReactionType)
    → first (is_reaction p u t) rows ≡ none
    → IsUnique rows
    → count_where (is_reaction p' u' t') (rows ++ triple id p u t ∷ []) ≤ 1
snoc-triples id p u t rows p' u' t' absent h =
    let parts = sum_where-append (is_reaction p' u' t') (λ r. 1) rows (triple id p u t ∷ []) in
    elim (triple-cases p u t p' u' t') [
      | inl (same, e) ↦
          let none_yet : count_where (is_reaction p' u' t') rows ≡ 0 =
            rw e (first-none (is_reaction p u t) rows absent) in
          ground (arith, parts, none_yet)
      | inr other ↦ ground (arith, parts, other, h.triples p' u' t')
    ]

snoc-IsUnique :
    (id p u : ℕ) (t : ReactionType) (rows : List Reaction)
    → first (has_id id) rows ≡ none
    → first (is_reaction p u t) rows ≡ none
    → IsUnique rows
    → IsUnique (rows ++ triple id p u t ∷ [])
snoc-IsUnique id p u t rows new absent h = record {
  ids = λ i. ground (
    arith,
    sum_where-append (has_id i) (λ r. 1) rows (triple id p u t ∷ []),
    h.ids i,
    first-none (has_id id) rows new,
  );
  triples = λ p' u' t'. snoc-triples id p u t rows p' u' t' absent h;
}

pub flipped-IsUnique :
    (id p u : ℕ) (t : ReactionType) (rows : List Reaction)
    → first (has_id id) rows ≡ none
    → IsUnique rows
    → IsUnique (flipped id p u t rows)
flipped-IsUnique id p u t rows new h = elim (Option-cases (first (is_reaction p u t) rows)) [
  | inl absent ↦ rw (flipped, absent) (snoc-IsUnique id p u t rows new absent h)
  | inr (r, found) ↦
      rw (flipped, found)
        (record {
          ids = λ i. omega (arith, count_where-delete (has_id i) (has_id r.id) rows, h.ids i);
          triples = λ p' u' t'. omega (
            arith,
            count_where-delete (is_reaction p' u' t') (has_id r.id) rows,
            h.triples p' u' t',
          );
        })
]

-- The rows that are not deleted with a row of the triple: every other triple is found as before.
reacted-delete :
    (p u : ℕ) (t : ReactionType) (p' u' : ℕ) (t' : ReactionType) (r : Reaction)
    (rows : List Reaction)
    → IsUnique rows
    → first (is_reaction p u t) rows ≡ some r
    → has_reacted p' u' t' (delete_where (has_id r.id) rows)
      ≡ (if same_triple p u t p' u' t' then false else has_reacted p' u' t' rows)
reacted-delete p u t p' u' t' r rows h found =
    let key = has_id r.id in
    let by_id = first-by_key (is_reaction p u t) key rows r (h.ids r.id) found (==_refl r.id) in
    let own = (first-some (is_reaction p u t) rows r found).0 in
    elim (triple-cases p u t p' u' t') [
      | inl (same, e) ↦
          let gone =
            first-delete_only (is_reaction p u t) key rows r (h.triples p u t) found
              (==_refl r.id) in
          rw (same, e, gone) refl
      | inr other ↦
          let apart : is_reaction p' u' t' r ≡ false = ground arith in
          rw (other, first-delete_key (is_reaction p' u' t') key rows r (h.ids r.id) by_id apart)
            refl
    ]

-- A toggle answers for its own triple what was not so before, and leaves every other triple as it was.
pub has_reacted-flipped :
    (id p u : ℕ) (t : ReactionType) (p' u' : ℕ) (t' : ReactionType) (rows : List Reaction)
    → IsUnique rows
    → has_reacted p' u' t' (flipped id p u t rows) ≡ (
        if same_triple p u t p' u' t'
        then not (has_reacted p' u' t' rows)
        else has_reacted p' u' t' rows)
has_reacted-flipped id p u t p' u' t' rows h =
    elim (Option-cases (first (is_reaction p u t) rows)) [
      | inl absent ↦
          rw (flipped, absent)
            (elim (triple-cases p u t p' u' t') [
              | inl (same, e) ↦ ground (
                arith,
                e,
                same,
                first-append (is_reaction p u t) rows (triple id p u t),
                same_reaction_refl t,
              )
              | inr other ↦
                  ground
                    (arith, other, first-append_other (is_reaction p' u' t') rows (triple id p u t))
            ])
      | inr (r, found) ↦
          rw (flipped, found)
            (elim (triple-cases p u t p' u' t') [
              | inl (same, e) ↦
                  rw (reacted-delete p u t p' u' t' r rows h found, same, e, found) refl
              | inr other ↦ rw (reacted-delete p u t p' u' t' r rows h found, other) refl
            ])
    ]
