-- ===== src/Challenge/Participation.antt =====
-- Joining and leaving a challenge.
use book_club.Prelude.{
  ℕ, ◌≤◌, ◌≡◌, refl, Bool, true, none, some, List, [], ◌∷◌, ◌++◌, arith, first, first-append,
  delete_where,
}
use book_club.Core.Exceptions.{http_status}
use book_club.Core.Session.{Session, ok, err}
use book_club.Challenge.Models.{Challenge, ChallengeParticipant}
use book_club.Challenge.Repository.{get_challenge, is_participant, get_participant}
use book_club.Challenge.Service.{join, leave, already_joined_error}

-- Taking the one new row away again gives the rows back.
delete-append :
    (p : ChallengeParticipant → Bool) (rows : List ChallengeParticipant)
    (row : ChallengeParticipant)
    → first p rows ≡ none
    → p row ≡ true
    → delete_where p (rows ++ row ∷ []) ≡ rows
delete-append p [] row h k = ground arith
delete-append p (r ∷ rows) row h k = ground (arith, delete-append p rows row)

first-delete :
    (p : ChallengeParticipant → Bool) (rows : List ChallengeParticipant)
    → first p (delete_where p rows) ≡ none
first-delete p [] = refl
first-delete p (r ∷ rows) = ground (arith, first-delete p rows)

-- A user who joined a challenge can leave it, and the session is then as it was before.
join-leave :
    (now challenge_id user_id : ℕ) (s s' : Session) (p : ChallengeParticipant)
    → join now challenge_id user_id s ≡ (ok p, s')
    → leave challenge_id user_id s' ≡ (ok tt, s)
unfolding join leave
join-leave now challenge_id user_id s s' p h = ground (
  arith,
  h,
  first-append (is_participant challenge_id user_id) s.db.challenge_participants p,
  delete-append (is_participant challenge_id user_id) s.db.challenge_participants p,
)

-- Whoever left is no participant, and leaving again changes nothing.
leave_removes :
    (challenge_id user_id : ℕ) (s s' : Session)
    → leave challenge_id user_id s ≡ (ok tt, s')
    → (get_participant challenge_id user_id s'.db ≡ none) × ((leave challenge_id user_id s').1 ≡ s')
unfolding leave
leave_removes challenge_id user_id s s' h =
    ground
      (arith, h, first-delete (is_participant challenge_id user_id) s.db.challenge_participants)

-- Joining a challenge that runs a second time raises AlreadyJoinedError and changes nothing; the
-- application answers with 500, since the error is no DomainError.
pub join_again :
    (now now' challenge_id user_id : ℕ) (s s' : Session) (p : ChallengeParticipant) (ch : Challenge)
    → join now challenge_id user_id s ≡ (ok p, s')
    → get_challenge challenge_id s.db ≡ some ch
    → now' ≤ ch.ends_at
    → (join now' challenge_id user_id s' ≡ (err already_joined_error, s'))
      × (http_status already_joined_error ≡ 500)
unfolding join http_status
join_again now now' challenge_id user_id s s' p ch h found runs = ground (
  arith,
  h,
  found,
  first-append (is_participant challenge_id user_id) s.db.challenge_participants p,
)
