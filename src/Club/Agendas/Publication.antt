-- ===== src/Club/Agendas/Publication.antt =====
-- The publication of an agenda.
use book_club.Prelude.{
  ℕ, ◌≡◌, refl, true, false, some, List, [], ◌∷◌, ◌++◌, arith, first-some, first-updated,
}
use book_club.Core.Session.{Session, ok, is_err}
use book_club.Feed.Models.{agenda_published}
use book_club.Club.Models.{SessionAgenda, is_published}
use book_club.Club.Guards.{has_agenda_id, get_agenda}
use book_club.Club.Agendas.Repository.{as_published, get_member_ids}
use book_club.Club.Agendas.Service.{AgendaPublic, others, publish_agenda}

-- A published agenda is not published again.
publish_agenda_again :
    (now c x a u : ℕ) (s : Session) (agenda : SessionAgenda)
    → get_agenda a s.db ≡ some agenda
    → is_published agenda.status ≡ true
    → let (r, s') = publish_agenda now c x a u s in (is_err r ≡ true) × (s' ≡ s)
unfolding publish_agenda
publish_agenda_again now c x a u s agenda found done = ground arith

-- When the publication of a stored agenda returns, the agenda was a draft and is published now with the
-- time of the call, the answer carries it, the notified users are the members of the club without the
-- caller, and the feed has one new row about it.
pub publish_agenda_effects :
    (now c x a u : ℕ) (s s' : Session) (agenda : SessionAgenda) (public : AgendaPublic)
    (recipients : List ℕ)
    → get_agenda a s.db ≡ some agenda
    → publish_agenda now c x a u s ≡ (ok (public, recipients), s')
    → (is_published agenda.status ≡ false)
      × (get_agenda a s'.db ≡ some (as_published now agenda))
      × (public.0 ≡ as_published now agenda)
      × (recipients ≡ others u (get_member_ids c s.db))
      × (s'.db.feed_events
          ≡ s.db.feed_events ++ record { user_id = u; kind = agenda_published c x a } ∷ [])
unfolding publish_agenda
publish_agenda_effects now c x a u s s' agenda public recipients found done = ground (
  arith,
  found,
  done,
  first-some (has_agenda_id a) s.db.session_agendas agenda found,
  first-updated (has_agenda_id a) (has_agenda_id agenda.id) (as_published now) s.db.session_agendas
      (λ r. refl),
)

-- After a publication of a stored agenda that returned, every later one of the same agenda, at any time,
-- by anyone and by any route, is refused and changes nothing.
pub publish_agenda_once :
    (now c x a u now' c' x' u' : ℕ) (s s' : Session) (agenda : SessionAgenda)
    (public : AgendaPublic) (recipients : List ℕ)
    → get_agenda a s.db ≡ some agenda
    → publish_agenda now c x a u s ≡ (ok (public, recipients), s')
    → let (r, s'') = publish_agenda now' c' x' a u' s' in (is_err r ≡ true) × (s'' ≡ s')
publish_agenda_once now c x a u now' c' x' u' s s' agenda public recipients found done =
    let (_, after, _, _, _) =
      publish_agenda_effects now c x a u s s' agenda public recipients found done in
    publish_agenda_again now' c' x' a u' s' (as_published now agenda) after refl
