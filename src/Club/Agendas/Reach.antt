-- ===== src/Club/Agendas/Reach.antt =====
-- The requests on topics as steps of the process in any order.
use book_club.Prelude.{
  ℕ, ◌≡◌, ◌⊎◌, inl, inr, true, none, String, List, [], ◌∷◌, ◌++◌, map, arith, Option-cases, select,
  sort_by, update_where, delete_where,
}
use book_club.Core.Database.{Database}
use book_club.Core.Session.{Session, World, run_request}
use book_club.Core.Session.Atomic.{run_request-keeps, fresh}
use book_club.Club.Models.{SessionAgenda, AgendaTopic}
use book_club.Club.Guards.{get_agenda, has_topic_id, get_topic}
use book_club.Club.Agendas.Repository.{
  in_agenda, new_topic, next_position, topic_before, with_prompt, position_from,
}
use book_club.Club.Agendas.Service.{all_in, add_topic, update_topic, delete_topic, reorder_topics}
use book_club.Club.Agendas.Order.{
  IsOrdered, add-IsOrdered, rename-IsOrdered, delete-IsOrdered, reorder-IsOrdered,
}

-- The new topic stands behind the others of the agenda.
add_topic_outcome :
    (id now c x a u : ℕ) (prompt : String) (s : Session)
    → let ts = s.db.agenda_topics in
      let after = (add_topic id now c x a u prompt s).1.db.agenda_topics in
      (after ≡ ts)
      ⊎ ((agenda : SessionAgenda) × (after
            ≡ ts ++ new_topic id now agenda.id (next_position agenda.id ts) prompt ∷ []))
unfolding add_topic
add_topic_outcome id now c x a u prompt s = elim (Option-cases (get_agenda a s.db)) [
  | inl gone ↦ inl (ground arith)
  | inr (agenda, found) ↦
      let ts = s.db.agenda_topics in
      let after = (add_topic id now c x a u prompt s).1.db.agenda_topics in
      let outcome : (after ≡ ts)
          ⊎ (after ≡ ts ++ new_topic id now agenda.id (next_position agenda.id ts) prompt ∷ []) =
        ground arith in
      elim outcome [ inl same ↦ inl same | inr grown ↦ inr (agenda, grown) ]
]

update_topic_outcome :
    (c x a t u : ℕ) (prompt : String) (s : Session)
    → let after = (update_topic c x a t u prompt s).1.db.agenda_topics in
      (after ≡ s.db.agenda_topics)
      ⊎ (after ≡ update_where (has_topic_id t) (with_prompt prompt) s.db.agenda_topics)
unfolding update_topic
update_topic_outcome c x a t u prompt s = ground arith

delete_topic_outcome :
    (c x a t u : ℕ) (s : Session)
    → let after = (delete_topic c x a t u s).1.db.agenda_topics in
      (after ≡ s.db.agenda_topics) ⊎ (after ≡ delete_where (has_topic_id t) s.db.agenda_topics)
unfolding delete_topic
delete_topic_outcome c x a t u s = ground arith

-- The list has every id of the agenda, which is then reordered by it.
abbrev Reordered : ℕ → List ℕ → List AgendaTopic → List AgendaTopic → Type 0
Reordered a ids ts after =
    (all_in ids (map (λ t. t.id) (sort_by topic_before (select (in_agenda a) ts))) ≡ true)
    × (after ≡ position_from a 0 ids ts)

reorder_topics_outcome :
    (c x a u : ℕ) (ids : List ℕ) (s : Session)
    → let ts = s.db.agenda_topics in
      let after = (reorder_topics c x a u ids s).1.db.agenda_topics in
      (after ≡ ts) ⊎ ((agenda : SessionAgenda) × Reordered agenda.id ids ts after)
unfolding reorder_topics
reorder_topics_outcome c x a u ids s = elim (Option-cases (get_agenda a s.db)) [
  | inl gone ↦ inl (ground arith)
  | inr (agenda, found) ↦
      let after = (reorder_topics c x a u ids s).1.db.agenda_topics in
      let outcome : (after ≡ s.db.agenda_topics)
          ⊎ Reordered agenda.id ids s.db.agenda_topics after =
        ground arith in
      elim outcome [ inl same ↦ inl same | inr moved ↦ inr (agenda, moved) ]
]

-- The id of a new topic is drawn fresh.
pub data Step : World → World → Type 0 where
  adds :
      (w : World) (id now c x a u : ℕ) (prompt : String)
      → get_topic id w.db ≡ none
      → Step w (run_request (add_topic id now c x a u prompt) w).1
  renames :
      (w : World) (c x a t u : ℕ) (prompt : String)
      → Step w (run_request (update_topic c x a t u prompt) w).1
  deletes : (w : World) (c x a t u : ℕ) → Step w (run_request (delete_topic c x a t u) w).1
  reorders :
      (w : World) (c x a u : ℕ) (ids : List ℕ)
      → Step w (run_request (reorder_topics c x a u ids) w).1

pub data Reach (w : World) : World → Type 0 where
  here : Reach w w
  next : {v u : World} → Reach w v → Step v u → Reach w u

abbrev Ordered : Database → Type 0
Ordered db = IsOrdered db.agenda_topics

Step-IsOrdered : {w v : World} → Step w v → Ordered w.db → Ordered v.db
Step-IsOrdered (adds w id now c x a u prompt new) h =
    run_request-keeps Ordered (add_topic id now c x a u prompt) w h
      (elim (add_topic_outcome id now c x a u prompt (fresh w)) [
        | inl same ↦ rw same h
        | inr (agenda, grown) ↦
            rw grown (add-IsOrdered id now agenda.id prompt w.db.agenda_topics new h)
      ])
Step-IsOrdered (renames w c x a t u prompt) h =
    run_request-keeps Ordered (update_topic c x a t u prompt) w h
      (elim (update_topic_outcome c x a t u prompt (fresh w)) [
        | inl same ↦ rw same h
        | inr renamed ↦ rw renamed (rename-IsOrdered t prompt w.db.agenda_topics h)
      ])
Step-IsOrdered (deletes w c x a t u) h =
    run_request-keeps Ordered (delete_topic c x a t u) w h
      (elim (delete_topic_outcome c x a t u (fresh w)) [
        | inl same ↦ rw same h
        | inr gone ↦ rw gone (delete-IsOrdered t w.db.agenda_topics h)
      ])
Step-IsOrdered (reorders w c x a u ids) h =
    run_request-keeps Ordered (reorder_topics c x a u ids) w h
      (elim (reorder_topics_outcome c x a u ids (fresh w)) [
        | inl same ↦ rw same h
        | inr (agenda, (named, moved)) ↦
            rw moved (reorder-IsOrdered agenda.id ids w.db.agenda_topics named h)
      ])

-- Whatever transactions add topics under fresh ids, rename, delete and reorder them, in any order and
-- refused or not, even by a list that repeats an id: where topic ids and the positions in each agenda were
-- unique, they stay so.
pub Reach-IsOrdered :
    {w v : World} → IsOrdered w.db.agenda_topics → Reach w v → IsOrdered v.db.agenda_topics
Reach-IsOrdered h here = h
Reach-IsOrdered h (next r st) = Step-IsOrdered st (Reach-IsOrdered h r)
