-- ===== src/Shield/Balance.antt =====
-- The balance of shields under purchases and refunds.
use book_club.Prelude.{
  ℕ, ◌+◌, ◌-◌, ◌*◌, ◌≡◌, ◌⊎◌, ◌≢◌, refl, Bool, true, false, none, some, String, List, [], ◌∷◌, ◌++◌,
  arith, ◌==◌, ==_refl, first-append, first-append_other, first-update, first-update_other,
  update_where,
}
use book_club.Core.Session.{Session, ok, is_err}
use book_club.Reading.Models.{UserGrade}
use book_club.Reading.Repository.{update_streak_shields, with_shields, new_grade}
use book_club.Reading.Sessions.Effects.{
  grade_of, ensured, find-ensured, get_or_init_effect, ensured-ensured,
}
use book_club.Shield.Models.{ShieldPurchase}
use book_club.Shield.Service.{
  product_shields, find_purchase, purchase_row, refunded, purchase_shields, handle_refund_webhook,
}

-- The reader's balance.
abbrev pub balance : ℕ → Session → ℕ
balance user_id s = (grade_of user_id s.db.user_grades).streak_shields

update_streak_shields_effect :
    (user_id shields : ℕ) (s : Session)
    → update_streak_shields user_id shields s ≡ (
      ok (with_shields shields (grade_of user_id s.db.user_grades)),
      record s {
        db = record s.db {
          user_grades =
              update_where
                (λ r. r.user_id == user_id)
                (with_shields shields)
                (ensured user_id s.db.user_grades);
        };
      },
    )
unfolding update_streak_shields
update_streak_shields_effect user_id shields s = ground arith

-- The tables of grades after a balance was set.
abbrev set_balance : ℕ → ℕ → List UserGrade → List UserGrade
set_balance user_id shields rows =
    update_where (λ r. r.user_id == user_id) (with_shields shields) (ensured user_id rows)

grade_of-set_balance :
    (user_id shields : ℕ) (rows : List UserGrade)
    → grade_of user_id (set_balance user_id shields rows)
      ≡ with_shields shields (grade_of user_id rows)
grade_of-set_balance user_id shields rows = rw (
    first-update (λ r. r.user_id == user_id) (with_shields shields) (ensured user_id rows)
      (grade_of user_id rows) (λ q. refl) (find-ensured user_id rows))

-- Setting one reader's balance changes nobody else's row.
grade_of-set_other :
    (u user_id shields : ℕ) (rows : List UserGrade)
    → u ≢ user_id
    → grade_of u (set_balance user_id shields rows) ≡ grade_of u rows
grade_of-set_other u user_id shields rows apart = ground (
  arith,
  first-update_other (λ r. r.user_id == u) (λ r. r.user_id == user_id) (with_shields shields)
      (ensured user_id rows) (λ q. refl) (λ q e. ground arith),
  first-append_other (λ r. r.user_id == u) rows (new_grade user_id),
)

purchase_shields_effect :
    (verify : String → String → String → Bool) (id user_id n : ℕ) (product_id receipt_data : String)
    (s : Session)
    → product_shields product_id ≡ some n
    → verify "ios" receipt_data product_id ≡ true
    → purchase_shields verify id user_id product_id receipt_data s ≡ (
      ok (record { shields_granted = n; total_shields = balance user_id s + n }),
      record s {
        db = record s.db {
          shield_purchases =
              s.db.shield_purchases ++ purchase_row id user_id product_id n receipt_data ∷ [];
          user_grades = set_balance user_id (balance user_id s + n) s.db.user_grades;
        };
      },
    )
unfolding purchase_shields
purchase_shields_effect verify id user_id n product_id receipt_data s known valid =
    let s1 : Session = record s {
      db = record s.db {
        shield_purchases =
            s.db.shield_purchases ++ purchase_row id user_id product_id n receipt_data ∷ [];
      };
    } in
    let s2 : Session = record s1 {
      db = record s1.db { user_grades = ensured user_id s.db.user_grades };
    } in
    ground (
      arith,
      known,
      valid,
      get_or_init_effect user_id s1,
      update_streak_shields_effect user_id (balance user_id s + n) s2,
      ensured-ensured user_id s.db.user_grades,
    )

refund_effect :
    (now purchase_id : ℕ) (p : ShieldPurchase) (s : Session)
    → find_purchase purchase_id s.db ≡ some p
    → handle_refund_webhook now purchase_id s ≡ (
      ok tt,
      record s {
        db = record s.db {
          shield_purchases =
              update_where (λ q. q.id == purchase_id) (refunded now) s.db.shield_purchases;
          user_grades =
              set_balance p.user_id (balance p.user_id s - p.shields_granted) s.db.user_grades;
        };
      },
    )
unfolding handle_refund_webhook
refund_effect now purchase_id p s found =
    let s1 : Session = record s {
      db = record s.db {
        shield_purchases =
            update_where (λ q. q.id == purchase_id) (refunded now) s.db.shield_purchases;
      };
    } in
    let s2 : Session = record s1 {
      db = record s1.db { user_grades = ensured p.user_id s.db.user_grades };
    } in
    ground (
      arith,
      found,
      get_or_init_effect p.user_id s1,
      update_streak_shields_effect p.user_id (balance p.user_id s - p.shields_granted) s2,
      ensured-ensured p.user_id s.db.user_grades,
    )

-- A purchase of a known product with a valid receipt adds the product's shields to the buyer's balance,
-- reports the new balance, and leaves the balance of every other reader alone.
pub purchase_shields_credits :
    (verify : String → String → String → Bool) (id user_id u n : ℕ)
    (product_id receipt_data : String) (s : Session)
    → product_shields product_id ≡ some n
    → verify "ios" receipt_data product_id ≡ true
    → u ≢ user_id
    → let (result, s') = purchase_shields verify id user_id product_id receipt_data s in
      (result ≡ ok (record { shields_granted = n; total_shields = balance user_id s' }))
      × (balance user_id s' ≡ balance user_id s + n)
      × (balance u s' ≡ balance u s)
purchase_shields_credits verify id user_id u n product_id receipt_data s known valid apart =
    ground (
      arith,
      purchase_shields_effect verify id user_id n product_id receipt_data s known valid,
      grade_of-set_balance user_id (balance user_id s + n) s.db.user_grades,
      grade_of-set_other u user_id (balance user_id s + n) s.db.user_grades apart,
    )

-- A purchase of an unknown product, or with a receipt that is not valid, raises and writes nothing.
purchase_shields_refused :
    (verify : String → String → String → Bool) (id user_id : ℕ) (product_id receipt_data : String)
    (s : Session)
    → (product_shields product_id ≡ none) ⊎ (verify "ios" receipt_data product_id ≡ false)
    → let (result, s') = purchase_shields verify id user_id product_id receipt_data s in
      (is_err result ≡ true) × (s' ≡ s)
unfolding purchase_shields
purchase_shields_refused verify id user_id product_id receipt_data s bad = ground arith

-- A valid purchase under a fresh id that is refunded at once leaves the balance as it was.
pub purchase_shields-refund :
    (verify : String → String → String → Bool) (id now user_id n : ℕ)
    (product_id receipt_data : String) (s : Session)
    → product_shields product_id ≡ some n
    → verify "ios" receipt_data product_id ≡ true
    → find_purchase id s.db ≡ none
    → let s1 = (purchase_shields verify id user_id product_id receipt_data s).1 in
      let s2 = (handle_refund_webhook now id s1).1 in balance user_id s2 ≡ balance user_id s
purchase_shields-refund verify id now user_id n product_id receipt_data s known valid fresh =
    let row = purchase_row id user_id product_id n receipt_data in
    let s1 = (purchase_shields verify id user_id product_id receipt_data s).1 in
    let bought =
      purchase_shields_effect verify id user_id n product_id receipt_data s known valid in
    let listed : find_purchase id s1.db ≡ some row = ground (
      arith,
      bought,
      first-append (λ p. p.id == id) s.db.shield_purchases row fresh (==_refl id),
    ) in
    ground (
      arith,
      bought,
      refund_effect now id row s1 listed,
      grade_of-set_balance user_id (balance user_id s + n) s.db.user_grades,
      grade_of-set_balance user_id (balance user_id s1 - n) s1.db.user_grades,
    )

-- The refund webhook takes a purchase's shields off the balance each time: a second call takes them off
-- once more.
refund_repeats :
    (now now' purchase_id : ℕ) (p : ShieldPurchase) (s : Session)
    → find_purchase purchase_id s.db ≡ some p
    → let s1 = (handle_refund_webhook now purchase_id s).1 in
      let s2 = (handle_refund_webhook now' purchase_id s1).1 in
      (balance p.user_id s1 ≡ balance p.user_id s - p.shields_granted)
      × (balance p.user_id s2 ≡ balance p.user_id s - 2 * p.shields_granted)
refund_repeats now now' purchase_id p s found =
    let s1 = (handle_refund_webhook now purchase_id s).1 in
    let once = refund_effect now purchase_id p s found in
    let again : find_purchase purchase_id s1.db ≡ some (refunded now p) = ground (
      arith,
      once,
      first-update (λ q. q.id == purchase_id) (refunded now) s.db.shield_purchases p (λ q. refl)
          found,
    ) in
    ground (
      arith,
      once,
      refund_effect now' purchase_id (refunded now p) s1 again,
      grade_of-set_balance p.user_id (balance p.user_id s - p.shields_granted) s.db.user_grades,
      grade_of-set_balance p.user_id (balance p.user_id s1 - p.shields_granted) s1.db.user_grades,
    )
