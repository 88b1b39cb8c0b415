-- ===== src/Feed/Reactions/Toggle.antt =====
-- A toggle of a reaction, as the change of one triple in the set of triples.
use book_club.Prelude.{
  ℕ, ◌≡◌, refl, true, none, some, List, [], ◌∷◌, ◌++◌, arith, not, append-nil, first, first-append,
  if◌then◌else◌, Bool-cases, Option-cases, inl, inr,
}
use book_club.Core.Events.{Event, reaction_added}
use book_club.Core.Session.{Session, ok}
use book_club.Feed.Models.{Post, ReactionType}
use book_club.Feed.Posts.{get_post}
use book_club.Feed.Reactions.{is_reaction, has_reacted, aggregate_for_post}
use book_club.Feed.Reactions.Unique.{
  IsUnique, has_id, triple, flipped, same_triple, flipped-IsUnique, has_reacted-flipped,
  same_reaction_refl,
}
use book_club.Feed.Service.{added, removed, toggle_reaction}

-- The event of a new reaction.
abbrev announcement : ℕ → ℕ → ReactionType → Post → List Event
announcement p u t post =
    reaction_added
      (record { post_id = p; reactor_id = u; post_author_id = post.user_id; reaction_type = t })
    ∷ []

-- The session after a toggle of a reaction to a post that is there.
abbrev toggled : ℕ → ℕ → ℕ → ReactionType → Post → Session → Session
toggled id u p t post s = record {
  db = record s.db { reactions = flipped id p u t s.db.reactions };
  queue = s.queue ++ (if has_reacted p u t s.db.reactions then [] else announcement p u t post);
}

is_reaction-triple : (id p u : ℕ) (t : ReactionType) → is_reaction p u t (triple id p u t) ≡ true
is_reaction-triple id p u t = ground (arith, same_reaction_refl t)

pub toggle_reaction_effect :
    (id u p : ℕ) (t : ReactionType) (s : Session) (post : Post)
    → get_post p s.db ≡ some post
    → toggle_reaction id u p t s ≡ (
      ok (
        if has_reacted p u t s.db.reactions then removed else added,
        aggregate_for_post p (toggled id u p t post s).db,
      ),
      toggled id u p t post s,
    )
unfolding toggle_reaction
toggle_reaction_effect id u p t s post found =
    elim (Option-cases (first (is_reaction p u t) s.db.reactions)) [
      | inl absent ↦
          let back =
            first-append (is_reaction p u t) s.db.reactions (triple id p u t) absent
              (is_reaction-triple id p u t) in
          ground (arith, found, absent, back)
      | inr (r, at) ↦ ground (arith, found, at, append-nil s.queue)
    ]

-- A toggle of a reaction to a post that is there answers with what it did and the new numbers of reactions
-- to the post, turns the caller's reaction of that type into the opposite, leaves every other reaction to
-- any post as it was, and announces the reaction exactly if it was added, where ids and triples are
-- unique.
pub toggle_reaction_flips :
    (id u p : ℕ) (t : ReactionType) (s : Session) (post : Post)
    → IsUnique s.db.reactions
    → get_post p s.db ≡ some post
    → let before = has_reacted p u t s.db.reactions in
      let (r, s') = toggle_reaction id u p t s in
      (r ≡ ok (if before then removed else added, aggregate_for_post p s'.db))
      × (s'.queue ≡ s.queue ++ (if before then [] else announcement p u t post))
      × ((p' u' : ℕ) (t' : ReactionType)
          → has_reacted p' u' t' s'.db.reactions ≡ (
              if same_triple p u t p' u' t'
              then not (has_reacted p' u' t' s.db.reactions)
              else has_reacted p' u' t' s.db.reactions))
toggle_reaction_flips id u p t s post h found =
    rw (toggle_reaction_effect id u p t s post found)
      (refl, refl, λ p' u' t'. has_reacted-flipped id p u t p' u' t' s.db.reactions h)

-- Where ids and triples are unique, toggling a reaction to a post that is there twice, first under a fresh
-- id, leaves every reaction to every post as it was.
pub toggle_reaction-toggle_reaction :
    (id id' u p : ℕ) (t : ReactionType) (s : Session) (post : Post)
    → IsUnique s.db.reactions
    → first (has_id id) s.db.reactions ≡ none
    → get_post p s.db ≡ some post
    → let once = (toggle_reaction id u p t s).1 in
      (p' u' : ℕ) (t' : ReactionType)
      → has_reacted p' u' t' (toggle_reaction id' u p t once).1.db.reactions
        ≡ has_reacted p' u' t' s.db.reactions
toggle_reaction-toggle_reaction id id' u p t s post h new found p' u' t' =
    let once = toggled id u p t post s in
    let rows = flipped id p u t s.db.reactions in
    rw
      (
        toggle_reaction_effect id u p t s post found,
        toggle_reaction_effect id' u p t once post found,
      )
      (elim (Bool-cases (same_triple p u t p' u' t')) [
        | inl same ↦ ground (
          arith,
          same,
          has_reacted-flipped id' p u t p' u' t' rows
              (flipped-IsUnique id p u t s.db.reactions new h),
          has_reacted-flipped id p u t p' u' t' s.db.reactions h,
        )
        | inr other ↦ ground (
          arith,
          other,
          has_reacted-flipped id' p u t p' u' t' rows
              (flipped-IsUnique id p u t s.db.reactions new h),
          has_reacted-flipped id p u t p' u' t' s.db.reactions h,
        )
      ])
