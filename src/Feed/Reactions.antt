-- ===== src/Feed/Reactions.antt =====
-- backend/app/domains/feed/repository.py: ReactionRepository, the statements on reactions.
pub mod Unique
pub mod Toggle
use book_club.Prelude.{
  ℕ, Bool, Option, none, some, List, [], ◌∷◌, ◌++◌, ◌&&◌, ◌==◌, is_some, first, count_where,
  delete_where, if◌then◌else◌,
}
use book_club.Core.Exceptions.{runtime_error}
use book_club.Core.Database.{Database}
use book_club.Core.Session.{Action, pure, gets, modify, require, ◌>>=◌, ◌>>◌}
use book_club.Feed.Models.{Reaction, ReactionType, idea, fire, think, clap, heart}

abbrev pub reaction_index : ReactionType → ℕ
reaction_index idea = 0
reaction_index fire = 1
reaction_index think = 2
reaction_index clap = 3
reaction_index heart = 4

abbrev pub same_reaction : ReactionType → ReactionType → Bool
same_reaction t t' = reaction_index t == reaction_index t'

-- The row of a triple, which the constraint uq_reactions_triple keeps from occurring twice.
abbrev pub is_reaction : ℕ → ℕ → ReactionType → Reaction → Bool
is_reaction post_id user_id t r =
    r.post_id == post_id && r.user_id == user_id && same_reaction r.reaction_type t

abbrev pub has_reacted : ℕ → ℕ → ReactionType → List Reaction → Bool
has_reacted post_id user_id t rows = is_some (first (is_reaction post_id user_id t) rows)

-- INSERT … ON CONFLICT DO NOTHING
abbrev pub inserted : Reaction → List Reaction → List Reaction
inserted row rows =
    if has_reacted row.post_id row.user_id row.reaction_type rows then rows else rows ++ row ∷ []

unfoldable pub add : ℕ → ℕ → ℕ → ReactionType → Action Reaction
add id post_id user_id t =
    let row : Reaction = record {
      id = id;
      post_id = post_id;
      user_id = user_id;
      reaction_type = t;
    } in
    do
      modify (λ db. record db { reactions = inserted row db.reactions })
      require (λ db. first (is_reaction post_id user_id t) db.reactions) runtime_error

-- if existing is None: return 0
abbrev delete_existing : Option Reaction → Action ℕ
delete_existing none = pure 0
delete_existing (some existing) = do
  modify (λ db. record db { reactions = delete_where (λ r. r.id == existing.id) db.reactions })
  pure 1

unfoldable pub remove : ℕ → ℕ → ReactionType → Action ℕ
remove post_id user_id t = do
  existing ← gets (λ db. first (is_reaction post_id user_id t) db.reactions)
  delete_existing existing

-- A dict with an entry for every type that has a row.
abbrev pub counted : ℕ → Option ℕ
counted n = if n == 0 then none else some n

unfoldable pub aggregate_for_post : ℕ → Database → ReactionType → Option ℕ
aggregate_for_post post_id db t =
    counted
      (count_where (λ r. r.post_id == post_id && same_reaction r.reaction_type t) db.reactions)

-- A set of types.
abbrev pub reactions_by_user : ℕ → ℕ → Database → ReactionType → Bool
reactions_by_user post_id user_id db t = has_reacted post_id user_id t db.reactions
