-- ===== src/Challenge/Awards.antt =====
-- The awards of badges by `_advance_challenges`: their announcement, and the round that reaches a target.
use book_club.Prelude.{
  ℕ, ◌≤◌, ◌≡◌, refl, inl, inr, Bool, true, Option, none, some, List, [], ◌∷◌, ◌++◌, arith,
  append-nil, sym, append_assoc, is_some, first, first-update, first-append, Bool-cases,
}
use book_club.Core.Events.{
  Event, reading_session_completed, user_grade_recomputed, user_book_completed, badge_earned,
  post_created, reaction_added, comment_added, follow_received,
}
use book_club.Core.Session.{Session, ok}
use book_club.Challenge.Models.{ChallengeType, Badge, Challenge, ChallengeParticipant, UserBadge}
use book_club.Challenge.Repository.{
  is_participant, get_participant, progressed, owns, has_badge, list_user_active_challenges,
}
use book_club.Challenge.Service.{
  Mode, advanced, named_badge, earned, advance_challenge, advance_all, advance_challenges,
}
use book_club.Challenge.Effects.{
  after_award, after_progress, standard_award, exclusive_award, advance_challenge_lem,
}

-- The row of the badge that an event announces; another event announces none.
abbrev pub announced : List Event → List UserBadge
announced [] = []
announced (badge_earned e ∷ events) =
    record { user_id = e.user_id; badge_id = e.badge_id; pin_order = 0 } ∷ announced events
announced (reading_session_completed e ∷ events) = announced events
announced (user_grade_recomputed e ∷ events) = announced events
announced (user_book_completed e ∷ events) = announced events
announced (post_created e ∷ events) = announced events
announced (reaction_added e ∷ events) = announced events
announced (comment_added e ∷ events) = announced events
announced (follow_received e ∷ events) = announced events

-- The new rows of user_badges are the ones that the newly staged events announce, in the same order.
abbrev pub Announces : Session → Session → Type 0
Announces s s' =
    (events : List Event) × (s'.queue ≡ s.queue ++ events)
    × (s'.db.user_badges ≡ s.db.user_badges ++ announced events)

pub announced-append : (xs ys : List Event) → announced (xs ++ ys) ≡ announced xs ++ announced ys
announced-append [] ys = refl
announced-append (badge_earned e ∷ xs) ys = cc (announced-append xs ys)
announced-append (reading_session_completed e ∷ xs) ys = announced-append xs ys
announced-append (user_grade_recomputed e ∷ xs) ys = announced-append xs ys
announced-append (user_book_completed e ∷ xs) ys = announced-append xs ys
announced-append (post_created e ∷ xs) ys = announced-append xs ys
announced-append (reaction_added e ∷ xs) ys = announced-append xs ys
announced-append (comment_added e ∷ xs) ys = announced-append xs ys
announced-append (follow_received e ∷ xs) ys = announced-append xs ys

Announces-trans : (s s' s'' : Session) → Announces s s' → Announces s' s'' → Announces s s''
Announces-trans s s' s'' (xs, q, b) (ys, q', b') = (
  xs ++ ys,
  cc (q, q', append_assoc s.queue xs ys),
  cc (b, b', append_assoc s.db.user_badges (announced xs) (announced ys), announced-append xs ys),
)

Announces-refl : (s : Session) → Announces s s
Announces-refl s = ([], sym (append-nil s.queue), sym (append-nil s.db.user_badges))

after_award-Announces :
    (user_id : ℕ) (badge : Option Badge) (s : Session) → Announces s (after_award user_id badge s)
after_award-Announces user_id none s = Announces-refl s
after_award-Announces user_id (some badge) s = elim (Bool-cases (has_badge user_id badge.id s.db)) [
  | inl old ↦ rw old (Announces-refl s)
  | inr new ↦ rw new (earned user_id badge ∷ [], refl, refl)
]

advance_challenge-Announces :
    (now user_id delta : ℕ) (mode : Mode) (ch : Challenge) (p : ChallengeParticipant) (s : Session)
    → Announces s (advance_challenge now user_id delta mode ch p s).1
advance_challenge-Announces now user_id delta mode ch p s =
    let s1 = after_progress now user_id delta mode ch p s in
    let s2 = after_award user_id (standard_award delta mode ch p s.db) s1 in
    let exclusive = exclusive_award now delta mode ch p s.db in
    rw (advance_challenge_lem now user_id delta mode ch p s) (
      Announces-trans s s2 (after_award user_id exclusive s2)
        (after_award-Announces user_id (standard_award delta mode ch p s.db) s1)
        (after_award-Announces user_id exclusive s2))

advance_all-Announces :
    (now user_id delta : ℕ) (mode : Mode) (rows : List (Challenge × ChallengeParticipant))
    (s : Session)
    → Announces s (advance_all now user_id delta mode rows s).1
unfolding advance_all
advance_all-Announces now user_id delta mode [] s = Announces-refl s
advance_all-Announces now user_id delta mode ((ch, p) ∷ rows) s =
    let s' = (advance_challenge now user_id delta mode ch p s).1 in
    let rest =
      Announces-trans s s' (advance_all now user_id delta mode rows s').1
        (advance_challenge-Announces now user_id delta mode ch p s)
        (advance_all-Announces now user_id delta mode rows s') in
    ground (arith, rest, advance_challenge_lem now user_id delta mode ch p s)

-- A progress event adds exactly the badges that it announces: the new rows of user_badges are those of the
-- newly staged events, in the same order.
pub advance_challenges-Announces :
    (now db_now user_id delta : ℕ) (challenge_type : ChallengeType) (mode : Mode) (s : Session)
    → Announces s (advance_challenges now db_now user_id challenge_type delta mode s).1
unfolding advance_challenges
advance_challenges-Announces now db_now user_id delta challenge_type mode s =
    advance_all-Announces now user_id delta mode
      (list_user_active_challenges user_id challenge_type db_now s.db) s

after_award-participants :
    (user_id : ℕ) (badge : Option Badge) (s : Session)
    → (after_award user_id badge s).db.challenge_participants ≡ s.db.challenge_participants
after_award-participants user_id none s = refl
after_award-participants user_id (some badge) s = ground arith

is_some-first-append :
    (p : UserBadge → Bool) (rows rows' : List UserBadge)
    → is_some (first p rows) ≡ true
    → is_some (first p (rows ++ rows')) ≡ true
is_some-first-append p [] rows' h = ground arith
is_some-first-append p (r ∷ rows) rows' h = ground (arith, is_some-first-append p rows rows')

-- Whoever is given a badge owns it, and an award takes no badge away.
pub after_award-has_badge :
    (user_id : ℕ) (badge : Badge) (s : Session)
    → has_badge user_id badge.id (after_award user_id (some badge) s).db ≡ true
after_award-has_badge user_id badge s =
    let row : UserBadge = record { user_id = user_id; badge_id = badge.id; pin_order = 0 } in
    ground (arith, first-append (owns user_id badge.id) s.db.user_badges row)

has_badge-after_award :
    (user_id badge_id : ℕ) (badge : Option Badge) (s : Session)
    → has_badge user_id badge_id s.db ≡ true
    → has_badge user_id badge_id (after_award user_id badge s).db ≡ true
has_badge-after_award user_id badge_id none s h = h
has_badge-after_award user_id badge_id (some badge) s h =
    let row : UserBadge = record { user_id = user_id; badge_id = badge.id; pin_order = 0 } in
    ground (arith, h, is_some-first-append (owns user_id badge_id) s.db.user_badges (row ∷ []))

-- One round of the loop for a stored participation that reaches its target returns, stores the new value
-- and the time of the achievement, and leaves the user with the badge that the challenge names, which the
-- catalogue has.
pub advance_challenge_achieves :
    (now user_id delta : ℕ) (mode : Mode) (ch : Challenge) (p : ChallengeParticipant) (s : Session)
    (badge : Badge)
    → get_participant ch.id user_id s.db ≡ some p
    → ch.target_value ≤ advanced mode delta p.current_value
    → named_badge ch.badge_id s.db ≡ some badge
    → let (r, s') = advance_challenge now user_id delta mode ch p s in
      (r ≡ ok tt)
      × (get_participant ch.id user_id s'.db
          ≡ some (progressed (advanced mode delta p.current_value) (some now) p))
      × (has_badge user_id badge.id s'.db ≡ true)
advance_challenge_achieves now user_id delta mode ch p s badge found reached named =
    let s1 = after_progress now user_id delta mode ch p s in
    let s2 = after_award user_id (some badge) s1 in
    let exclusive = exclusive_award now delta mode ch p s.db in
    let standard : standard_award delta mode ch p s.db ≡ some badge =
      ground (arith, named, reached) in
    let s3 = after_award user_id exclusive s2 in
    rw (advance_challenge_lem now user_id delta mode ch p s, standard)
      (
        refl,
        rw
            (
              after_award-participants user_id exclusive s2,
              after_award-participants user_id (some badge) s1,
            )
            (ground (
              arith,
              reached,
              first-update (is_participant ch.id user_id)
                  (progressed (advanced mode delta p.current_value) (some now))
                  s.db.challenge_participants p (λ q. refl) found,
            )),
        has_badge-after_award user_id badge.id exclusive s2
            (after_award-has_badge user_id badge s1),
      )
