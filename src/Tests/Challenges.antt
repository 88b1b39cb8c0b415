-- ===== src/Tests/Challenges.antt =====
-- Challenges and badges of the reader of Tests.Data.
use book_club.Prelude.{◌≡◌, refl, true, none, some, [], ◌∷◌, arith}
use book_club.Core.Session.{Session, ok}
use book_club.Challenge.Models.{ChallengeParticipant, reading_time}
use book_club.Challenge.Repository.{get_participant, progressed, has_badge}
use book_club.Challenge.Service.{add, join, award_badge, advance_challenge, advance_challenges}
use book_club.Challenge.Uniqueness.{IsUnique}
use book_club.Challenge.Awards.{Announces, advance_challenges-Announces, advance_challenge_achieves}
use book_club.Tests.Data.{noon, marathon, runner, gold, idle}

idle-IsUnique : IsUnique idle.db
idle-IsUnique = record { participants = λ c u. ground arith; badges = λ u b. ground arith }

advance_challenges-Announces_example :
    Announces idle (advance_challenges noon noon 7 reading_time 5400 add idle).1
advance_challenges-Announces_example =
    advance_challenges-Announces noon noon 7 5400 reading_time add idle

advance_challenge_achieves_example :
    let (r, s') = advance_challenge noon 7 5400 add marathon runner idle in
    (r ≡ ok tt)
    × (get_participant 30 7 s'.db ≡ some (progressed 5500 (some noon) runner))
    × (has_badge 7 40 s'.db ≡ true)
advance_challenge_achieves_example =
    advance_challenge_achieves noon 7 5400 add marathon runner idle gold refl (omega arith) refl

abbrev shelf_runner : ChallengeParticipant
shelf_runner = record { challenge_id = 31; user_id = 7; current_value = 0; achieved_at = none }

abbrev joined : Session
joined = record idle { db = record idle.db { challenge_participants = runner ∷ shelf_runner ∷ [] } }

join-joined : join noon 31 7 idle ≡ (ok shelf_runner, joined)
unfolding join
join-joined = refl

awarded : award_badge noon 7 41 idle ≡ (ok tt, (award_badge noon 7 41 idle).1)
unfolding award_badge
awarded = refl
