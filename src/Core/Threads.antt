-- ===== src/Core/Threads.antt =====
-- Tables whose rows answer earlier rows of the same table, one level deep: the discussions under a topic, a
-- post and an event of the feed. A row has an id, the thread that it belongs to and, for a reply, its parent.
use book_club.Prelude.{
  ℕ, ◌≡◌, refl, ◌∙◌, sym, ap, ◌⊎◌, inl, inr, Bool, true, false, Option, none, some, List, [], ◌∷◌,
  ◌++◌, append_assoc, append-nil, arith, ◌==◌, ◌||◌, if◌then◌else◌, Bool-cases, first, update_where,
  updated, first-updated, first-snoc,
}

abbrev pub is_among : List ℕ → ℕ → Bool
is_among [] id = false
is_among (x ∷ xs) id = x == id || is_among xs id

-- The parent is one of the ids.
abbrev pub is_under : {A : Type 0} → (A → Option ℕ) → List ℕ → A → Bool
is_under parent_of ids c = elim (parent_of c) [ none ↦ false | some p ↦ is_among ids p ]

-- What a DELETE leaves: ON DELETE CASCADE takes the replies to a row with the row. A reply stands after its
-- parent, which was there when the reply was inserted.
unfoldable pub cascade :
    {A : Type 0} → (A → ℕ) → (A → Option ℕ) → (A → Bool) → List ℕ → List A → List A
cascade id_of parent_of gone ids [] = []
cascade id_of parent_of gone ids (c ∷ cs) =
    let taken = cascade id_of parent_of gone (id_of c ∷ ids) cs in
    let kept = cascade id_of parent_of gone ids cs in
    if gone c || is_under parent_of ids c then taken else c ∷ kept

module _ {A : Type 0} (id_of : A → ℕ) (parent_of : A → Option ℕ) (thread_of : A → ℕ) where
  abbrev pub has_id : ℕ → A → Bool
  has_id id c = id_of c == id

  -- The row that a reply answers, among the rows before it.
  abbrev pub Answers : List A → A → ℕ → Type 0
  Answers seen c p =
      (parent : A) × (first (has_id p) seen ≡ some parent)
      × (parent_of parent ≡ none)
      × (thread_of parent ≡ thread_of c)

  -- A row that may follow the rows before it: its id is new, and it answers one of them if it is a reply.
  pub record Fits (seen : List A) (c : A) : Type 0 where
    pub new : first (has_id (id_of c)) seen ≡ none
    pub answer : (p : ℕ) → parent_of c ≡ some p → Answers seen c p

  abbrev pub Follow : List A → List A → Type 0
  Follow seen [] = Unit
  Follow seen (c ∷ cs) = Fits seen c × Follow (seen ++ c ∷ []) cs

  -- Ids are unique, and every reply answers an earlier row of its thread, which is no reply.
  abbrev pub IsThreaded : List A → Type 0
  IsThreaded cs = Follow [] cs

  Follow-append :
      (seen cs : List A) (c : A) → Fits (seen ++ cs) c → Follow seen cs → Follow seen (cs ++ c ∷ [])
  Follow-append seen [] c fits h = (rw append-nil at fits, tt)
  Follow-append seen (d ∷ cs) c fits (first, h) =
      (first, Follow-append (seen ++ d ∷ []) cs c (rw append_assoc fits) h)

  -- A row that fits keeps the threads.
  pub append-IsThreaded :
      (cs : List A) (c : A) → Fits cs c → IsThreaded cs → IsThreaded (cs ++ c ∷ [])
  append-IsThreaded cs c fits h = Follow-append [] cs c fits h

  -- A reply that fits where its parent was found.
  pub reply-Fits :
      (cs : List A) (c parent : A) (q : ℕ)
      → first (has_id (id_of c)) cs ≡ none
      → parent_of c ≡ some q
      → first (has_id q) cs ≡ some parent
      → parent_of parent ≡ none
      → thread_of parent ≡ thread_of c
      → Fits cs c
  reply-Fits cs c parent q new up found root same = record {
    new = new;
    answer = λ p up'. let e : q ≡ p = cc in (parent, rw e at found, root, same);
  }

  pub root-Fits :
      (cs : List A) (c : A) → first (has_id (id_of c)) cs ≡ none → parent_of c ≡ none → Fits cs c
  root-Fits cs c new top = record { new = new; answer = λ p up. cc }

  module _ (f : A → A) (same_id : (x : A) → id_of (f x) ≡ id_of x)
      (same_parent : (x : A) → parent_of (f x) ≡ parent_of x)
      (same_thread : (x : A) → thread_of (f x) ≡ thread_of x) (q : A → Bool) where
    abbrev change : A → A
    change c = if q c then f c else c

    change-snoc :
        (seen : List A) (c : A)
        → update_where q f (seen ++ c ∷ []) ≡ update_where q f seen ++ change c ∷ []
    change-snoc [] c = refl
    change-snoc (d ∷ seen) c = rw (change-snoc seen c) refl

    change_id : (c : A) → id_of (change c) ≡ id_of c
    change_id c = ground (arith, same_id c)

    change_parent : (c : A) → parent_of (change c) ≡ parent_of c
    change_parent c = ground (arith, same_parent c)

    change_thread : (c : A) → thread_of (change c) ≡ thread_of c
    change_thread c = ground (arith, same_thread c)

    first-change :
        (p : ℕ) (seen : List A)
        → first (has_id p) (update_where q f seen) ≡ updated q f (first (has_id p) seen)
    first-change p seen = first-updated (has_id p) q f seen (λ x. ap (λ i. i == p) (same_id x))

    change-Fits : (seen : List A) (c : A) → Fits seen c → Fits (update_where q f seen) (change c)
    change-Fits seen c h = record {
      new = rw (change_id c, first-change (id_of c) seen, h.new) refl;
      answer = λ p up.
          let (parent, found, root, thread) = h.answer p (sym (change_parent c) ∙ up) in
          (
            change parent,
            first-change p seen ∙ ap (updated q f) found,
            change_parent parent ∙ root,
            change_thread parent ∙ thread ∙ sym (change_thread c),
          );
    }

    change-Follow :
        (seen cs : List A) → Follow seen cs → Follow (update_where q f seen) (update_where q f cs)
    change-Follow seen [] h = tt
    change-Follow seen (c ∷ cs) (fits, h) =
        (change-Fits seen c fits, rw (change-snoc seen c) at (change-Follow (seen ++ c ∷ []) cs h))

    -- An update that keeps ids, parents and threads keeps the threads.
    pub update_where-IsThreaded : (cs : List A) → IsThreaded cs → IsThreaded (update_where q f cs)
    update_where-IsThreaded cs h = change-Follow [] cs h

  -- A search for an id finds what it found before the deletion, or the id was deleted.
  abbrev Kept : List A → List ℕ → List A → Type 0
  Kept seen ids seen' =
      (p : ℕ)
      → (first (has_id p) seen' ≡ first (has_id p) seen)
        ⊎ ((is_among ids p ≡ true) × (first (has_id p) seen' ≡ none))

  Kept-drop :
      (seen seen' : List A) (ids : List ℕ) (c : A)
      → first (has_id (id_of c)) seen ≡ none
      → Kept seen ids seen'
      → Kept (seen ++ c ∷ []) (id_of c ∷ ids) seen'
  Kept-drop seen seen' ids c new kept p = elim (Bool-cases (id_of c == p)) [
    | inl same ↦
        let e : p ≡ id_of c = ground arith in
        inr (ground arith, rw e (ground (arith, kept (id_of c))))
    | inr other ↦ ground (arith, kept p, first-snoc (has_id p) seen c)
  ]

  Kept-keep :
      (seen seen' : List A) (ids : List ℕ) (c : A)
      → first (has_id (id_of c)) seen ≡ none
      → Kept seen ids seen'
      → Kept (seen ++ c ∷ []) ids (seen' ++ c ∷ [])
  Kept-keep seen seen' ids c new kept p = elim (Bool-cases (id_of c == p)) [
    | inl same ↦
        let e : p ≡ id_of c = ground arith in
        rw e (
          ground (
            arith,
            kept (id_of c),
            first-snoc (has_id (id_of c)) seen c,
            first-snoc (has_id (id_of c)) seen' c,
          ))
    | inr other ↦
        ground (arith, kept p, first-snoc (has_id p) seen c, first-snoc (has_id p) seen' c)
  ]

  Kept-Fits :
      (seen seen' : List A) (ids : List ℕ) (c : A)
      → is_under parent_of ids c ≡ false
      → Kept seen ids seen'
      → Fits seen c
      → Fits seen' c
  Kept-Fits seen seen' ids c stays kept fits = record {
    new = ground (arith, kept (id_of c), fits.new);
    answer = λ p up.
        let (parent, found, root, thread) = fits.answer p up in
        (parent, ground (arith, kept p), root, thread);
  }

  cascade-Follow :
      (gone : A → Bool) (ids : List ℕ) (seen seen' cs : List A)
      → Kept seen ids seen'
      → Follow seen cs
      → Follow seen' (cascade id_of parent_of gone ids cs)
  unfolding cascade
  cascade-Follow gone ids seen seen' [] kept h = tt
  cascade-Follow gone ids seen seen' (c ∷ cs) kept (fits, h) =
      elim (Bool-cases (gone c || is_under parent_of ids c)) [
        | inl dropped ↦ rw dropped (
            cascade-Follow gone (id_of c ∷ ids) (seen ++ c ∷ []) seen' cs
              (Kept-drop seen seen' ids c fits.new kept) h)
        | inr stays ↦ rw stays (
          Kept-Fits seen seen' ids c (ground arith) kept fits,
          cascade-Follow gone ids (seen ++ c ∷ []) (seen' ++ c ∷ []) cs
              (Kept-keep seen seen' ids c fits.new kept) h,
        )
      ]

  -- A deletion that takes the replies with a comment keeps the threads.
  pub cascade-IsThreaded :
      (gone : A → Bool) (cs : List A)
      → IsThreaded cs
      → IsThreaded (cascade id_of parent_of gone [] cs)
  cascade-IsThreaded gone cs h = cascade-Follow gone [] [] [] cs (λ p. inl refl) h
