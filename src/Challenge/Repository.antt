-- ===== src/Challenge/Repository.antt =====
-- backend/app/domains/challenge/repository.py (ChallengeRepository): participation, progress and badges.
use book_club.Prelude.{
  ℕ, ◌+◌, Bool, Option, none, some, List, [], ◌∷◌, ◌++◌, ◌&&◌, not, ltb, leb, ◌==◌, if◌then◌else◌,
  some_eq, first, is_some, select, update_where, delete_where, count_where,
}
use book_club.Core.Exceptions.{integrity_error, multiple_results_found}
use book_club.Core.Database.{Database}
use book_club.Core.Session.{Action, pure, gets, raise_if, modify, ◌>>=◌, ◌>>◌}
use book_club.Challenge.Models.{
  ChallengeType, books_count, reading_time, streak, genre, Badge, Challenge, ChallengeParticipant,
  UserBadge,
}

abbrev pub get_challenge : ℕ → Database → Option Challenge
get_challenge challenge_id db = first (λ ch. ch.id == challenge_id) db.challenges

abbrev pub is_participant : ℕ → ℕ → ChallengeParticipant → Bool
is_participant challenge_id user_id p = p.challenge_id == challenge_id && p.user_id == user_id

abbrev pub get_participant : ℕ → ℕ → Database → Option ChallengeParticipant
get_participant challenge_id user_id db =
    first (is_participant challenge_id user_id) db.challenge_participants

abbrev pub new_participant : ℕ → ℕ → ChallengeParticipant
new_participant challenge_id user_id = record {
  challenge_id = challenge_id;
  user_id = user_id;
  current_value = 0;
  achieved_at = none;
}

abbrev pub add_participant : ChallengeParticipant → Database → Database
add_participant row db = record db {
  challenge_participants = db.challenge_participants ++ row ∷ [];
}

-- UniqueConstraint("challenge_id", "user_id") refuses a second row at the flush.
unfoldable pub join : ℕ → ℕ → Action ChallengeParticipant
join challenge_id user_id = do
  existing ← gets (get_participant challenge_id user_id)
  raise_if (is_some existing) integrity_error
  modify (add_participant (new_participant challenge_id user_id))
  pure (new_participant challenge_id user_id)

abbrev pub remove_participant : ℕ → ℕ → Database → Database
remove_participant challenge_id user_id db = record db {
  challenge_participants =
      delete_where (is_participant challenge_id user_id) db.challenge_participants;
}

unfoldable pub leave : ℕ → ℕ → Action (Unit {0})
leave challenge_id user_id = modify (remove_participant challenge_id user_id)

unfoldable pub participant_count : ℕ → Database → ℕ
participant_count challenge_id db =
    count_where (λ p. p.challenge_id == challenge_id) db.challenge_participants

abbrev pub type_index : ChallengeType → ℕ
type_index books_count = 0
type_index reading_time = 1
type_index streak = 2
type_index genre = 3

-- The conditions of `list_user_active_challenges` on a challenge, at the database's clock.
abbrev pub is_current : ChallengeType → ℕ → Challenge → Bool
is_current challenge_type now ch =
    type_index ch.challenge_type == type_index challenge_type
    && leb ch.starts_at now
    && leb now ch.ends_at

-- The row of the join that a participation makes with its challenge, if the conditions hold.
abbrev with_challenge :
    ChallengeType
    → ℕ
    → ChallengeParticipant
    → Option Challenge
    → List (Challenge × ChallengeParticipant)
with_challenge challenge_type now p none = []
with_challenge challenge_type now p (some ch) =
    if is_current challenge_type now ch then (ch, p) ∷ [] else []

abbrev pub joined_rows :
    ℕ
    → ChallengeType
    → ℕ
    → Database
    → List ChallengeParticipant
    → List (Challenge × ChallengeParticipant)
joined_rows user_id challenge_type now db [] = []
joined_rows user_id challenge_type now db (p ∷ rows) =
    let rest = joined_rows user_id challenge_type now db rows in
    if p.user_id == user_id && not (is_some p.achieved_at)
    then with_challenge challenge_type now p (get_challenge p.challenge_id db) ++ rest
    else rest

unfoldable pub list_user_active_challenges :
    ℕ → ChallengeType → ℕ → Database → List (Challenge × ChallengeParticipant)
list_user_active_challenges user_id challenge_type now db =
    joined_rows user_id challenge_type now db db.challenge_participants

abbrev pub owns_exclusive : ℕ → Challenge → Bool
owns_exclusive badge_id ch = ch.is_limited && some_eq ch.badge_id_exclusive badge_id

-- `scalar_one_or_none` raises where two limited challenges share the badge.
unfoldable pub get_limited_challenge_by_exclusive_badge : ℕ → Action (Option Challenge)
get_limited_challenge_by_exclusive_badge badge_id = do
  n ← gets (λ db. count_where (owns_exclusive badge_id) db.challenges)
  raise_if (ltb 1 n) multiple_results_found
  gets (λ db. first (owns_exclusive badge_id) db.challenges)

abbrev pub get_badge : ℕ → Database → Option Badge
get_badge badge_id db = first (λ b. b.id == badge_id) db.badges

abbrev pub progressed : ℕ → Option ℕ → ChallengeParticipant → ChallengeParticipant
progressed value achieved_at p = record p { current_value = value; achieved_at = achieved_at }

abbrev pub set_progress : ℕ → ℕ → ℕ → Option ℕ → Database → Database
set_progress challenge_id user_id value achieved_at db = record db {
  challenge_participants =
      update_where (is_participant challenge_id user_id) (progressed value achieved_at)
        db.challenge_participants;
}

unfoldable pub update_progress : ℕ → ℕ → ℕ → Option ℕ → Action (Unit {0})
update_progress challenge_id user_id value achieved_at =
    modify (set_progress challenge_id user_id value achieved_at)

abbrev pub owns : ℕ → ℕ → UserBadge → Bool
owns user_id badge_id ub = ub.user_id == user_id && ub.badge_id == badge_id

abbrev pub has_badge : ℕ → ℕ → Database → Bool
has_badge user_id badge_id db = is_some (first (owns user_id badge_id) db.user_badges)

abbrev pub add_badge : ℕ → ℕ → Database → Database
add_badge user_id badge_id db =
    let row : UserBadge = record { user_id = user_id; badge_id = badge_id; pin_order = 0 } in
    record db { user_badges = db.user_badges ++ row ∷ [] }

-- UniqueConstraint("user_id", "badge_id") refuses a second row at the flush.
unfoldable pub award_badge : ℕ → ℕ → Action (Unit {0})
award_badge user_id badge_id = do
  owned ← gets (has_badge user_id badge_id)
  raise_if owned integrity_error
  modify (add_badge user_id badge_id)

abbrev pub belongs_to : ℕ → UserBadge → Bool
belongs_to user_id ub = ub.user_id == user_id

abbrev pub my_badges : ℕ → Database → List UserBadge
my_badges user_id db = select (belongs_to user_id) db.user_badges

abbrev pub pinned : ℕ → UserBadge → UserBadge
pinned order ub = record ub { pin_order = order }

-- The UPDATE for each badge of the list, from the position `order` on.
unfoldable pub pin_from : ℕ → ℕ → List ℕ → List UserBadge → List UserBadge
pin_from user_id order [] rows = rows
pin_from user_id order (badge_id ∷ badge_ids) rows =
    pin_from user_id (order + 1) badge_ids
      (update_where (owns user_id badge_id) (pinned order) rows)

unfoldable pub reorder_pinned_badges : ℕ → List ℕ → Action (Unit {0})
unfolding pin_from
reorder_pinned_badges user_id ordered_badge_ids = modify (λ db. record db {
  user_badges =
      pin_from user_id 0 ordered_badge_ids
        (update_where (belongs_to user_id) (pinned 0) db.user_badges);
})
