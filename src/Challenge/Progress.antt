-- ===== src/Challenge/Progress.antt =====
-- What a progress event does to the participations, row by row (ChallengeService._handle_progress_event).
use book_club.Prelude.{
  ℕ, ◌≤◌, ◌≡◌, refl, ◌∙◌, inl, inr, Bool, true, false, ◌&&◌, not, ◌==◌, leb, if◌then◌else◌, is_some,
  Option, none, some, List, [], ◌∷◌, ◌++◌, map, arith, append-nil, append_assoc, first, first-some,
  count_where, update_where, Bool-cases, Option-cases,
}
use book_club.Core.Database.{Database}
use book_club.Core.Events.{Event}
use book_club.Core.Session.{Session, World, ok, run_request}
use book_club.Core.Session.Atomic.{fresh}
use book_club.Challenge.Models.{
  ChallengeType, books_count, reading_time, streak, genre, Badge, Challenge, ChallengeParticipant,
}
use book_club.Challenge.Repository.{
  is_participant, get_challenge, progressed, type_index, joined_rows, has_badge,
  list_user_active_challenges,
}
use book_club.Challenge.Service.{
  Mode, advanced, earned, advance_challenge, advance_all, advance_challenges, handle_progress_event,
}
use book_club.Challenge.Effects.{
  after_award, after_progress, standard_award, exclusive_award, advance_challenge_lem,
}
use book_club.Challenge.Uniqueness.{IsUnique, advance_challenges_returns}
use book_club.Challenge.Awards.{announced, announced-append}

abbrev pub is_type : ChallengeType → ChallengeType → Bool
is_type books_count books_count = true
is_type reading_time reading_time = true
is_type streak streak = true
is_type genre genre = true
is_type _ _ = false

-- A participation after an event that makes `grow n` of a value n: it is changed where it is the user's, not
-- achieved yet, and in a challenge of the type that runs at the database's clock.
abbrev pub grown :
    ℕ → ChallengeType → (ℕ → ℕ) → ℕ → ℕ → Database → ChallengeParticipant → ChallengeParticipant
grown user_id t grow now db_now db p =
    elim (first (λ (c : Challenge). c.id == p.challenge_id) db.challenges) [
      | none ↦ p
      | some ch ↦
          if p.user_id == user_id
            && not (is_some p.achieved_at)
            && is_type ch.challenge_type t
            && leb ch.starts_at db_now
            && leb db_now ch.ends_at
          then record p {
            current_value = grow p.current_value;
            achieved_at = if leb ch.target_value (grow p.current_value) then some now else none;
          }
          else p
    ]

type_index_lem : (a t : ChallengeType) → (type_index a == type_index t) ≡ is_type a t
type_index_lem books_count books_count = refl
type_index_lem books_count reading_time = refl
type_index_lem books_count streak = refl
type_index_lem books_count genre = refl
type_index_lem reading_time books_count = refl
type_index_lem reading_time reading_time = refl
type_index_lem reading_time streak = refl
type_index_lem reading_time genre = refl
type_index_lem streak books_count = refl
type_index_lem streak reading_time = refl
type_index_lem streak streak = refl
type_index_lem streak genre = refl
type_index_lem genre books_count = refl
type_index_lem genre reading_time = refl
type_index_lem genre streak = refl
type_index_lem genre genre = refl

-- The session has other participations, and badges that its new events announce; all else is as it was.
abbrev Leaves : Session → Session → List ChallengeParticipant → Type 0
Leaves s s' rows =
    (events : List Event) × (s' ≡ record {
      db = record s.db {
        challenge_participants = rows;
        user_badges = s.db.user_badges ++ announced events;
      };
      queue = s.queue ++ events;
    })

-- The second step goes on from the participations that the first one left.
Leaves-trans :
    (s s' s'' : Session) (rows : List ChallengeParticipant)
    (f : List ChallengeParticipant → List ChallengeParticipant)
    → Leaves s s' rows
    → Leaves s' s'' (f s'.db.challenge_participants)
    → Leaves s s'' (f rows)
Leaves-trans s s' s'' rows f (xs, e) (ys, e') = (
  xs ++ ys,
  e'
      ∙ rw e (
          cc (
            append_assoc s.queue xs ys,
            append_assoc s.db.user_badges (announced xs) (announced ys),
            announced-append xs ys,
          )),
)

after_award-Leaves :
    (user_id : ℕ) (badge : Option Badge) (s : Session)
    → Leaves s (after_award user_id badge s) s.db.challenge_participants
after_award-Leaves user_id none s = ([], cc (append-nil s.queue, append-nil s.db.user_badges))
after_award-Leaves user_id (some badge) s = elim (Bool-cases (has_badge user_id badge.id s.db)) [
  | inl old ↦ rw old ([], cc (append-nil s.queue, append-nil s.db.user_badges))
  | inr new ↦ rw new (earned user_id badge ∷ [], refl)
]

module _ (now user_id delta : ℕ) (mode : Mode) where
  abbrev value : ChallengeParticipant → ℕ
  value p = advanced mode delta p.current_value

  -- What the loop makes of one row of the table.
  abbrev touch :
      List (Challenge × ChallengeParticipant) → ChallengeParticipant → ChallengeParticipant
  touch [] q = q
  touch ((ch, p) ∷ rows) q = touch rows (
      if is_participant ch.id user_id q
      then progressed (value p) (if leb ch.target_value (value p) then some now else none) q
      else q)

  touch-update :
      (ch : Challenge) (p : ChallengeParticipant) (rows : List (Challenge × ChallengeParticipant))
      (xs : List ChallengeParticipant)
      → map (touch rows) (
          update_where
            (is_participant ch.id user_id)
            (progressed (value p) (if leb ch.target_value (value p) then some now else none))
            xs)
        ≡ map (touch ((ch, p) ∷ rows)) xs
  touch-update ch p rows [] = refl
  touch-update ch p rows (x ∷ xs) = cc (touch-update ch p rows xs)

  map_id : (xs : List ChallengeParticipant) → map (touch []) xs ≡ xs
  map_id [] = refl
  map_id (x ∷ xs) = cc (map_id xs)

  advance_challenge-Leaves :
      (ch : Challenge) (p : ChallengeParticipant) (s : Session)
      → Leaves s (advance_challenge now user_id delta mode ch p s).1 (
          update_where
            (is_participant ch.id user_id)
            (progressed (value p) (if leb ch.target_value (value p) then some now else none))
            s.db.challenge_participants)
  advance_challenge-Leaves ch p s =
      let s1 = after_progress now user_id delta mode ch p s in
      let rows = s1.db.challenge_participants in
      let s2 = after_award user_id (standard_award delta mode ch p s.db) s1 in
      let s3 = after_award user_id (exclusive_award now delta mode ch p s.db) s2 in
      let progress : Leaves s s1 rows =
        ([], cc (append-nil s.queue, append-nil s.db.user_badges)) in
      rw (advance_challenge_lem now user_id delta mode ch p s) (
        Leaves-trans s s1 s3 rows (λ r. r) progress
          (Leaves-trans s1 s2 s3 rows (λ r. r)
            (after_award-Leaves user_id (standard_award delta mode ch p s.db) s1)
            (after_award-Leaves user_id (exclusive_award now delta mode ch p s.db) s2)))

  advance_all-Leaves :
      (rows : List (Challenge × ChallengeParticipant)) (s : Session)
      → Leaves s
          (advance_all now user_id delta mode rows s).1
          (map (touch rows) s.db.challenge_participants)
  unfolding advance_all
  advance_all-Leaves [] s =
      ([], cc (append-nil s.queue, append-nil s.db.user_badges, map_id s.db.challenge_participants))
  advance_all-Leaves ((ch, p) ∷ rows) s =
      let s' = (advance_challenge now user_id delta mode ch p s).1 in
      let s'' = (advance_all now user_id delta mode rows s').1 in
      let done : (advance_challenge now user_id delta mode ch p s).0 ≡ ok tt =
        rw (advance_challenge_lem now user_id delta mode ch p s) refl in
      let rest =
        Leaves-trans s s' s'' _ (map (touch rows)) (advance_challenge-Leaves ch p s)
          (advance_all-Leaves rows s') in
      let rest' : Leaves s s'' (map (touch ((ch, p) ∷ rows)) s.db.challenge_participants) =
        rw (← touch-update ch p rows s.db.challenge_participants) rest in
      let step : (advance_all now user_id delta mode ((ch, p) ∷ rows) s).1 ≡ s'' =
        unfold advance_all in ground (arith, done) in
      rw step rest'

  module _ (t : ChallengeType) (db_now : ℕ) (db : Database) where
    abbrev listed : List ChallengeParticipant → List (Challenge × ChallengeParticipant)
    listed = joined_rows user_id t db_now db

    abbrev after : ChallengeParticipant → ChallengeParticipant
    after = grown user_id t (advanced mode delta) now db_now db

    -- The round for one row leaves a row with another key alone, and makes of the row itself what it becomes.
    touch-other :
        (p q : ChallengeParticipant) (rows : List ChallengeParticipant)
        → is_participant q.challenge_id q.user_id p ≡ false
        → touch (listed (p ∷ rows)) q ≡ touch (listed rows) q
    touch-other p q rows other = elim (Option-cases (get_challenge p.challenge_id db)) [
      | inl missing ↦ ground (arith, missing)
      | inr (ch, found) ↦
          let key = first-some (λ (c : Challenge). c.id == p.challenge_id) db.challenges ch found in
          ground (arith, found, key, other)
    ]

    touch-same :
        (p : ChallengeParticipant) (rows : List ChallengeParticipant)
        → touch (listed (p ∷ rows)) p ≡ touch (listed rows) (after p)
    touch-same p rows = elim (Option-cases (get_challenge p.challenge_id db)) [
      | inl missing ↦ ground (arith, missing)
      | inr (ch, found) ↦
          let key = first-some (λ (c : Challenge). c.id == p.challenge_id) db.challenges ch found in
          ground (arith, found, key, type_index_lem ch.challenge_type t)
    ]

    touch-absent :
        (q : ChallengeParticipant) (rows : List ChallengeParticipant)
        → count_where (is_participant q.challenge_id q.user_id) rows ≡ 0
        → touch (listed rows) q ≡ q
    touch-absent q [] none_left = refl
    touch-absent q (p ∷ rows) none_left =
        touch-other p q rows (ground arith) ∙ touch-absent q rows (ground arith)

    touch-others :
        (p : ChallengeParticipant) (rows xs : List ChallengeParticipant)
        → count_where (is_participant p.challenge_id p.user_id) xs ≡ 0
        → map (touch (listed (p ∷ rows))) xs ≡ map (touch (listed rows)) xs
    touch-others p rows [] none_left = refl
    touch-others p rows (q ∷ xs) none_left =
        cc (touch-other p q rows (ground arith), touch-others p rows xs (ground arith))

    after_key :
        (p : ChallengeParticipant)
        → ((after p).challenge_id ≡ p.challenge_id) × ((after p).user_id ≡ p.user_id)
    after_key p = elim (Option-cases (get_challenge p.challenge_id db)) [
      | inl missing ↦ ground (arith, missing)
      | inr (ch, found) ↦ ground (arith, found)
    ]

    touch-grown :
        (rows : List ChallengeParticipant)
        → ((c u : ℕ) → count_where (is_participant c u) rows ≤ 1)
        → map (touch (listed rows)) rows ≡ map after rows
    touch-grown [] unique = refl
    touch-grown (p ∷ rows) unique =
        let rest : count_where (is_participant p.challenge_id p.user_id) rows ≡ 0 =
          ground (arith, unique p.challenge_id p.user_id) in
        let (key_c, key_u) = after_key p in
        cc (
          touch-same p rows,
          touch-absent (after p) rows (rw (key_c, key_u) rest),
          touch-others p rows rows rest,
          touch-grown rows (λ c u. ground (arith, unique c u)),
        )

-- The world after an event: the participations have grown, badges were given as the new events announce,
-- and all else is as it was.
abbrev pub Grows : ℕ → ChallengeType → (ℕ → ℕ) → ℕ → ℕ → World → World → Type 0
Grows user_id t grow now db_now w v =
    (events : List Event) × (v ≡ record {
      db = record w.db {
        challenge_participants =
            map (grown user_id t grow now db_now w.db) w.db.challenge_participants;
        user_badges = w.db.user_badges ++ announced events;
      };
      published = w.published ++ events;
    })

pub handle_progress_event-Grows :
    (now db_now user_id delta : ℕ) (t : ChallengeType) (mode : Mode) (w : World)
    → IsUnique w.db
    → Grows user_id t
        (advanced mode delta)
        now
        db_now
        w
        (handle_progress_event now db_now user_id t delta mode w).1
unfolding handle_progress_event run_request advance_challenges list_user_active_challenges
handle_progress_event-Grows now db_now user_id delta t mode w unique =
    let rows = joined_rows user_id t db_now w.db w.db.challenge_participants in
    let (events, e) = advance_all-Leaves now user_id delta mode rows (fresh w) in
    let returns : (advance_challenges now db_now user_id t delta mode (fresh w)).0 ≡ ok tt =
      advance_challenges_returns now db_now user_id delta t mode (fresh w) in
    let same =
      touch-grown now user_id delta mode t db_now w.db w.db.challenge_participants
        unique.participants in
    (events, ground (arith, returns, e, same))
