-- ===== src/Club/Messages/Paging.antt =====
-- A member who follows the cursors reads the whole history of the club's channel.
use book_club.Prelude.{
  ℕ, zero, suc, ◌+◌, ◌-◌, ◌≤◌, ◌<◌, ◌≡◌, refl, ◌∙◌, sym, ap, true, ◌&&◌, Option, none, some, List,
  [], ◌∷◌, ◌++◌, arith, ltb, ◌==◌, if◌then◌else◌, Bool-cases, Option-cases, inl, inr, select, take,
  drop, length, map,
}
use book_club.Core.Database.{Database}
use book_club.Core.Pages.{
  IsStrict, AtDistinctTimes, sort_by-IsStrict, before, last_of, last_of-below, select-last_of,
  select-below, select-select, drop-IsStrict, length-drop, take-all, last_of-take,
}
use book_club.Core.Cursors.{followed_by}
use book_club.Core.Session.{Session, Result, ok, err}
use book_club.Club.Models.{ClubMessage}
use book_club.Club.Repository.{is_member}
use book_club.Club.Messages
use book_club.Club.Messages.{before_cursor, is_visible, history, read_count, newer}
use book_club.Club.Messages.Service.{page_of, last_created_at, list_messages}
use book_club.Club.Messages.Order.{sent, history-before}

abbrev follow :
    List (ClubMessage × ℕ)
    → Option ℕ
    → (ℕ → Option (List (ClubMessage × ℕ)))
    → Option (List (ClubMessage × ℕ))
follow page none more = some page
follow page (some cursor) more = followed_by page (more cursor)

-- A page, and what its cursor leads to.
abbrev read_on :
    Result (List (ClubMessage × ℕ) × Option ℕ)
    → (ℕ → Option (List (ClubMessage × ℕ)))
    → Option (List (ClubMessage × ℕ))
read_on (err e) more = none
read_on (ok (page, next)) more = follow page next more

-- The pages that follow each other from a cursor, if as many calls as the fuel lead to one without a
-- cursor.
abbrev pub read_all : ℕ → ℕ → ℕ → ℕ → Option ℕ → Session → Option (List (ClubMessage × ℕ))
read_all zero c u limit cursor s = none
read_all (suc n) c u limit cursor s =
    read_on (list_messages c u cursor limit s).0 (λ k. read_all n c u limit (some k) s)

-- A row of a page.
abbrev pub counted : Database → ClubMessage → ClubMessage × ℕ
counted db m = (m, read_count db m.id)

page-take :
    (f : ClubMessage → ClubMessage × ℕ) (n : ℕ) (ms : List ClubMessage)
    → take n (map f (take (n + 1) ms)) ≡ map f (take n ms)
page-take f n [] = refl
page-take f n (m ∷ ms) = elim (Bool-cases (n == 0)) [
  | inl first ↦ ground arith
  | inr more ↦
      let e : (n - 1) + 1 ≡ n = ground arith in ground (arith, more, e, page-take f (n - 1) ms)
]

page-length :
    (f : ClubMessage → ClubMessage × ℕ) (n : ℕ) (ms : List ClubMessage)
    → ltb n (length (map f (take (n + 1) ms))) ≡ ltb n (length ms)
page-length f n [] = refl
page-length f n (m ∷ ms) = elim (Bool-cases (n == 0)) [
  | inl first ↦ ground arith
  | inr more ↦
      let e : (n - 1) + 1 ≡ n = ground arith in ground (arith, more, e, page-length f (n - 1) ms)
]

last_created_at-counted :
    (db : Database) (ms : List ClubMessage)
    → last_created_at (map (counted db) ms) ≡ last_of sent ms
last_created_at-counted db [] = refl
last_created_at-counted db (m ∷ []) = refl
last_created_at-counted db (m ∷ m' ∷ ms) = last_created_at-counted db (m' ∷ ms)

page_of-counted :
    (db : Database) (n : ℕ) (ms : List ClubMessage)
    → page_of n (map (counted db) (take (n + 1) ms))
      ≡ (map (counted db) (take n ms), if ltb n (length ms) then last_of sent (take n ms) else none)
page_of-counted db n ms =
    rw
      (
        page-take (counted db) n ms,
        page-length (counted db) n ms,
        last_created_at-counted db (take n ms),
      )
      refl

-- The history before sent the last row of a page is the rest of the history that the page begins.
history-next :
    (c k n : ℕ) (cursor : Option ℕ) (db : Database)
    → IsStrict sent (history c none cursor db)
    → last_of sent (take n (history c none cursor db)) ≡ some k
    → history c none (some k) db ≡ drop n (history c none cursor db)
history-next c k n none db h e =
    history-before c k none db ∙ select-last_of sent k n (history c none none db) h e
history-next c k n (some b) db h e =
    let whole = history c none none db in
    let part = history-before c b none db in
    let below : k < b =
      last_of-below sent b k n (select (before sent b) whole) (select-below sent b whole)
        (rw part at e) in
    history-before c k none db
    ∙ sym (select-select sent k b whole below)
    ∙ ap (select (before sent k)) (sym part)
    ∙ select-last_of sent k n (history c none (some b) db) h e

take-drop :
    (f : ClubMessage → ClubMessage × ℕ) (n : ℕ) (ms : List ClubMessage)
    → map f (take n ms) ++ map f (drop n ms) ≡ map f ms
take-drop f n [] = refl
take-drop f n (m ∷ ms) = ground (arith, take-drop f (n - 1) ms)

list_messages_lem :
    (c u n : ℕ) (cursor : Option ℕ) (s : Session)
    → is_member c u s.db ≡ true
    → (list_messages c u cursor n s).0
      ≡ ok (page_of n (map (counted s.db) (take (n + 1) (history c none cursor s.db))))
unfolding list_messages Messages.list_messages
list_messages_lem c u n cursor s member = ground arith

read_all-history :
    (fuel c u n : ℕ) (cursor : Option ℕ) (s : Session)
    → is_member c u s.db ≡ true
    → 1 ≤ n
    → IsStrict sent (history c none cursor s.db)
    → 1 ≤ fuel
    → length (history c none cursor s.db) ≤ fuel
    → read_all fuel c u n cursor s ≡ some (map (counted s.db) (history c none cursor s.db))
read_all-history zero c u n cursor s member some_rows strict a_call enough = ground arith
read_all-history (suc fuel) c u n cursor s member some_rows strict a_call enough =
    let rows = history c none cursor s.db in
    let answer =
      ap (λ r. read_on r (λ k. read_all fuel c u n (some k) s))
        (list_messages_lem c u n cursor s member ∙ ap ok (page_of-counted s.db n rows)) in
    elim (Bool-cases (ltb n (length rows))) [
      | inl more ↦ elim (Option-cases (last_of sent (take n rows))) [
        | inl nothing ↦ ground (arith, last_of-take sent n rows, nothing, more, some_rows)
        | inr (k, last) ↦
            let rest = history-next c k n cursor s.db strict last in
            let onward =
              read_all-history fuel c u n (some k) s member some_rows
                (rw rest (drop-IsStrict sent n rows strict))
                (ground (arith, more, enough, some_rows))
                (rw rest (omega (arith, length-drop sent n rows))) in
            answer ∙ rw (more, last, onward, rest) (ap some (take-drop (counted s.db) n rows))
      ]
      | inr all ↦
          answer
          ∙ rw all (ap (λ ms. some (map (counted s.db) ms)) (take-all sent n rows (ground arith)))
    ]

-- Where the visible messages of a club's channel were sent at distinct times, a member who asks for pages
-- of at least one row and follows each cursor reads exactly the whole history, newest first: at most as
-- many calls as there are messages, or one where there are none, lead to a page without a cursor.
pub read_all_lem :
    (fuel c u limit : ℕ) (s : Session)
    → is_member c u s.db ≡ true
    → 1 ≤ limit
    → AtDistinctTimes sent
        (select (λ m. before_cursor none m && is_visible c none m) s.db.club_messages)
    → 1 ≤ fuel
    → length (history c none none s.db) ≤ fuel
    → read_all fuel c u limit none s ≡ some (map (counted s.db) (history c none none s.db))
read_all_lem fuel c u limit s member some_rows apart a_call enough =
    read_all-history fuel c u limit none s member some_rows (sort_by-IsStrict sent _ apart) a_call
      enough
