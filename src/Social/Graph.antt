-- ===== src/Social/Graph.antt =====
-- The graph of follows and blocks: nobody follows across a block.
use book_club.Prelude.{
  ℕ, ◌≤◌, ◌≡◌, ◌∙◌, ◌⊎◌, inl, inr, Bool, false, none, List, [], ◌∷◌, ◌++◌, arith, ◌==◌, Bool-cases,
  first, delete_where, count_where, first-none, first-append_other, count_where-delete,
  sum_where-append, first-absent,
}
use book_club.Social.Models.{Follow, Block}
use book_club.Social.Repository.{is_follow, new_follow, is_block, new_block}

abbrev pub Unfollowed : ℕ → ℕ → List Follow → Type 0
Unfollowed a b fs = first (is_follow a b) fs ≡ none

abbrev pub Unblocked : ℕ → ℕ → List Block → Type 0
Unblocked a b bs = first (is_block a b) bs ≡ none

-- Edges are unique, nobody follows or blocks themselves, and who follows someone neither blocks them nor is
-- blocked by them.
pub record IsOpen (fs : List Follow) (bs : List Block) : Type 0 where
  pub follows_once : (a b : ℕ) → count_where (is_follow a b) fs ≤ 1
  pub blocks_once : (a b : ℕ) → count_where (is_block a b) bs ≤ 1
  pub no_self_follow : (a : ℕ) → Unfollowed a a fs
  pub no_self_block : (a : ℕ) → Unblocked a a bs
  pub apart : (a b : ℕ) → Unfollowed a b fs ⊎ (Unblocked a b bs × Unblocked b a bs)

-- A search that found nothing finds nothing after a DELETE.
pub first-delete_none :
    {A : Type 0} (p q : A → Bool) (xs : List A)
    → first p xs ≡ none
    → first p (delete_where q xs) ≡ none
first-delete_none p q xs h =
    first-absent p (delete_where q xs) (omega (arith, count_where-delete p q xs, first-none p xs h))

pub unfollow-IsOpen :
    (q : Follow → Bool) (fs : List Follow) (bs : List Block)
    → IsOpen fs bs
    → IsOpen (delete_where q fs) bs
unfollow-IsOpen q fs bs h = record {
  follows_once = λ a b. omega (arith, h.follows_once a b, count_where-delete (is_follow a b) q fs);
  blocks_once = h.blocks_once;
  no_self_follow = λ a. first-delete_none (is_follow a a) q fs (h.no_self_follow a);
  no_self_block = h.no_self_block;
  apart = λ a b. elim (h.apart a b) [
    | inl none_yet ↦ inl (first-delete_none (is_follow a b) q fs none_yet)
    | inr clear ↦ inr clear
  ];
}

pub unblock-IsOpen :
    (q : Block → Bool) (fs : List Follow) (bs : List Block)
    → IsOpen fs bs
    → IsOpen fs (delete_where q bs)
unblock-IsOpen q fs bs h = record {
  follows_once = h.follows_once;
  blocks_once = λ a b. omega (arith, h.blocks_once a b, count_where-delete (is_block a b) q bs);
  no_self_follow = h.no_self_follow;
  no_self_block = λ a. first-delete_none (is_block a a) q bs (h.no_self_block a);
  apart = λ a b. elim (h.apart a b) [
    | inl none_yet ↦ inl none_yet
    | inr (ab, ba) ↦
        inr (first-delete_none (is_block a b) q bs ab, first-delete_none (is_block b a) q bs ba)
  ];
}

-- A search for an edge after the insertion of another one, or of the edge itself.
follow-snoc :
    (a b x y : ℕ) (fs : List Follow)
    → ((x ≡ a) × (y ≡ b))
      ⊎ ((first (is_follow x y) (fs ++ new_follow a b ∷ []) ≡ first (is_follow x y) fs)
          × (count_where (is_follow x y) (fs ++ new_follow a b ∷ [])
              ≡ count_where (is_follow x y) fs))
follow-snoc a b x y fs = elim (Bool-cases (is_follow x y (new_follow a b))) [
  | inl same ↦ inl (ground (arith, same))
  | inr other ↦ inr (
    first-append_other (is_follow x y) fs (new_follow a b) other,
    ground (arith, other, sum_where-append (is_follow x y) (λ f. 1) fs (new_follow a b ∷ [])),
  )
]

block-snoc :
    (a b x y : ℕ) (bs : List Block)
    → ((x ≡ a) × (y ≡ b))
      ⊎ ((first (is_block x y) (bs ++ new_block a b ∷ []) ≡ first (is_block x y) bs)
          × (count_where (is_block x y) (bs ++ new_block a b ∷ []) ≡ count_where (is_block x y) bs))
block-snoc a b x y bs = elim (Bool-cases (is_block x y (new_block a b))) [
  | inl same ↦ inl (ground (arith, same))
  | inr other ↦ inr (
    first-append_other (is_block x y) bs (new_block a b) other,
    ground (arith, other, sum_where-append (is_block x y) (λ f. 1) bs (new_block a b ∷ [])),
  )
]

pub follow-IsOpen :
    (a b : ℕ) (fs : List Follow) (bs : List Block)
    → (a == b) ≡ false
    → Unfollowed a b fs
    → Unblocked a b bs
    → Unblocked b a bs
    → IsOpen fs bs
    → IsOpen (fs ++ new_follow a b ∷ []) bs
follow-IsOpen a b fs bs differ free ab ba h = record {
  follows_once = λ x y. elim (follow-snoc a b x y fs) [
    | inl (e, e') ↦
        rw (e, e')
          (omega (
            arith,
            sum_where-append (is_follow a b) (λ f. 1) fs (new_follow a b ∷ []),
            first-none (is_follow a b) fs free,
            at_most a b,
          ))
    | inr (same, k) ↦ omega (arith, k, h.follows_once x y)
  ];
  blocks_once = h.blocks_once;
  no_self_follow = λ x. elim (follow-snoc a b x x fs) [
    | inl (e, e') ↦ ground (arith, e, e', differ)
    | inr (same, k) ↦ same ∙ h.no_self_follow x
  ];
  no_self_block = h.no_self_block;
  apart = λ x y. elim (follow-snoc a b x y fs) [
    | inl (e, e') ↦ rw (e, e') (inr (ab, ba))
    | inr (same, k) ↦ elim (h.apart x y) [
      | inl none_yet ↦ inl (same ∙ none_yet)
      | inr clear ↦ inr clear
    ]
  ];
}
  where
    at_most : (a b : ℕ) → count_where (is_follow a b) (new_follow a b ∷ []) ≤ 1
    at_most a b = ground arith

pub block-IsOpen :
    (a b : ℕ) (fs : List Follow) (bs : List Block)
    → (a == b) ≡ false
    → Unblocked a b bs
    → Unfollowed a b fs
    → Unfollowed b a fs
    → IsOpen fs bs
    → IsOpen fs (bs ++ new_block a b ∷ [])
block-IsOpen a b fs bs differ free ab ba h = record {
  follows_once = h.follows_once;
  blocks_once = λ x y. elim (block-snoc a b x y bs) [
    | inl (e, e') ↦
        rw (e, e')
          (omega (
            arith,
            sum_where-append (is_block a b) (λ f. 1) bs (new_block a b ∷ []),
            first-none (is_block a b) bs free,
            at_most a b,
          ))
    | inr (same, k) ↦ omega (arith, k, h.blocks_once x y)
  ];
  no_self_follow = h.no_self_follow;
  no_self_block = λ x. elim (block-snoc a b x x bs) [
    | inl (e, e') ↦ ground (arith, e, e', differ)
    | inr (same, k) ↦ same ∙ h.no_self_block x
  ];
  apart = λ x y. elim (h.apart x y) [
    | inl none_yet ↦ inl none_yet
    | inr (xy, yx) ↦ elim (block-snoc a b x y bs) [
      | inl (e, e') ↦ inl (rw (e, e') ab)
      | inr (same, k) ↦ elim (block-snoc a b y x bs) [
        | inl (e, e') ↦ inl (rw (e, e') ba)
        | inr (same', k') ↦ inr (same ∙ xy, same' ∙ yx)
      ]
    ]
  ];
}
  where
    at_most : (a b : ℕ) → count_where (is_block a b) (new_block a b ∷ []) ≤ 1
    at_most a b = ground arith
