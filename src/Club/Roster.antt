-- ===== src/Club/Roster.antt =====
-- The rolls of the clubs: what ties a club to the rows of its members, and the service keeps it.
pub mod Progress
pub mod Reach
use book_club.Prelude.{
  ℕ, ◌≤◌, ◌<◌, ◌≡◌, ◌≢◌, updated, first-updated, refl, ◌∙◌, ap, ◌⊎◌, inl, inr, Bool, false, Option,
  none, some, String, List, [], ◌∷◌, ◌++◌, arith, ◌==◌, ◌&&◌, Bool-cases, Option-cases, first,
  count_where, first-none, first-append, first-append_other, first-delete, first-delete_other,
  first-absent, count_where-delete, count_where-update, sum_where-append,
}
use book_club.Core.Database.{Database}
use book_club.Club.Models.{ReadingClub, ClubMember, ClubRole, owner, member, is_owner}
use book_club.Club.Guards.{is_host_role}
use book_club.Club.Repository.{
  CreateClubRequest, has_club_id, get_by_id, in_club, is_row, member_count, role_of,
  get_member_role, new_club, new_member, added, with_member, without_member, with_book, rebooked,
}

-- Ids are unique, a member has one row, a row belongs to a club, no club has more members than it admits,
-- and the owner's row is the one with the owner's role.
pub record IsRoster (db : Database) : Type 0 where
  pub ids : (c : ℕ) → count_where (has_club_id c) db.reading_clubs ≤ 1
  pub rows : (c u : ℕ) → count_where (is_row c u) db.club_members ≤ 1
  pub known : (c : ℕ) → get_by_id c db ≡ none → member_count c db ≡ 0
  pub bounded :
      (c : ℕ) (club : ReadingClub)
      → get_by_id c db ≡ some club
      → member_count c db ≤ club.max_members
  pub host :
      (c u : ℕ) (club : ReadingClub)
      → get_by_id c db ≡ some club
      → is_host_role (get_member_role c u db) ≡ (club.owner_id == u)

-- A row of a club counts among the club's members.
row_counts :
    (c u : ℕ) (ms : List ClubMember)
    → count_where (in_club c) ms ≡ 0
    → count_where (is_row c u) ms ≡ 0
row_counts c u [] h = refl
row_counts c u (m ∷ ms) h = ground (arith, row_counts c u ms)

-- A new row without the owner's role makes nobody a host.
host_role-append :
    (p : ClubMember → Bool) (row : ClubMember) (ms : List ClubMember)
    → is_owner row.role ≡ false
    → is_host_role (role_of (first p (ms ++ row ∷ []))) ≡ is_host_role (role_of (first p ms))
host_role-append p row [] plain = ground arith
host_role-append p row (m ∷ ms) plain = ground (arith, host_role-append p row ms)

with_member-IsRoster :
    (now c u : ℕ) (club : ReadingClub) (db : Database)
    → get_by_id c db ≡ some club
    → member_count c db < club.max_members
    → first (is_row c u) db.club_members ≡ none
    → IsRoster db
    → IsRoster (with_member (new_member c u now member) db)
with_member-IsRoster now c u club db found room new h =
    let row = new_member c u now member in
    record {
      ids = h.ids;
      rows = λ c' u'. ground (
        arith,
        h.rows c' u',
        sum_where-append (is_row c' u') (λ r. 1) db.club_members (row ∷ []),
        first-none (is_row c u) db.club_members new,
      );
      known = λ c' none'. ground (
        arith,
        h.known c' none',
        sum_where-append (in_club c') (λ r. 1) db.club_members (row ∷ []),
      );
      bounded = λ c' club' found'. ground (
        arith,
        h.bounded c' club' found',
        sum_where-append (in_club c') (λ r. 1) db.club_members (row ∷ []),
      );
      host = λ c' u' club' found'.
          host_role-append (is_row c' u') row db.club_members refl ∙ h.host c' u' club' found';
    }

without_member-IsRoster :
    (c u : ℕ) (club : ReadingClub) (db : Database)
    → get_by_id c db ≡ some club
    → (club.owner_id == u) ≡ false
    → IsRoster db
    → IsRoster (without_member c u db)
without_member-IsRoster c u club db found other h = record {
  ids = h.ids;
  rows = λ c' u'.
      ground (arith, h.rows c' u', count_where-delete (is_row c' u') (is_row c u) db.club_members);
  known = λ c' none'.
      ground
        (arith, h.known c' none', count_where-delete (in_club c') (is_row c u) db.club_members);
  bounded = λ c' club' found'. ground (
    arith,
    h.bounded c' club' found',
    count_where-delete (in_club c') (is_row c u) db.club_members,
  );
  host = λ c' u' club' found'. elim (Bool-cases (c' == c && u' == u)) [
    | inl same ↦ ground (arith, first-delete (is_row c u) db.club_members)
    | inr apart ↦
        ap (λ r. is_host_role (role_of r))
          (first-delete_other (is_row c' u') (is_row c u) db.club_members (λ m e. ground arith))
        ∙ h.host c' u' club' found'
  ];
}

-- A club with another book is found as before, with the same limit and owner.
get_by_id-rebooked :
    (c c' : ℕ) (book_id : Option ℕ) (db : Database)
    → get_by_id c' (rebooked c book_id db)
      ≡ updated (has_club_id c) (with_book book_id) (get_by_id c' db)
get_by_id-rebooked c c' book_id db =
    first-updated (has_club_id c') (has_club_id c) (with_book book_id) db.reading_clubs (λ x. refl)

before_rebooked :
    (c c' : ℕ) (book_id : Option ℕ) (club' : ReadingClub) (db : Database)
    → get_by_id c' (rebooked c book_id db) ≡ some club'
    → (club : ReadingClub) × (get_by_id c' db ≡ some club)
      × (club'.max_members ≡ club.max_members)
      × (club'.owner_id ≡ club.owner_id)
before_rebooked c c' book_id club' db found = elim (Option-cases (get_by_id c' db)) [
  | inl gone ↦ ground (arith, get_by_id-rebooked c c' book_id db)
  | inr (club, before) ↦ (
    club,
    before,
    ground (arith, get_by_id-rebooked c c' book_id db),
    ground (arith, get_by_id-rebooked c c' book_id db),
  )
]

rebooked-IsRoster :
    (c : ℕ) (book_id : Option ℕ) (db : Database) → IsRoster db → IsRoster (rebooked c book_id db)
rebooked-IsRoster c book_id db h = record {
  ids = λ c'. ground (
    arith,
    h.ids c',
    count_where-update (has_club_id c') (has_club_id c) (with_book book_id) db.reading_clubs
        (λ x. refl),
  );
  rows = h.rows;
  known = λ c' none'. ground (arith, h.known c', get_by_id-rebooked c c' book_id db);
  bounded = λ c' club' found'.
      let (club, before, limit, _) = before_rebooked c c' book_id club' db found' in
      omega (arith, h.bounded c' club before, limit);
  host = λ c' u' club' found'.
      let (club, before, _, same) = before_rebooked c c' book_id club' db found' in
      rw same (h.host c' u' club before);
}

-- What a search for an id finds when a club has been added under a new one.
found_after :
    (id c' : ℕ) (club : ReadingClub) (db : Database)
    → club.id ≡ id
    → get_by_id id db ≡ none
    → let found = first (has_club_id c') (db.reading_clubs ++ club ∷ []) in
      ((c' ≡ id) × (found ≡ some club)) ⊎ ((c' ≢ id) × (found ≡ get_by_id c' db))
found_after id c' club db e new = ground (
  arith,
  first-append (has_club_id c') db.reading_clubs club,
  first-append_other (has_club_id c') db.reading_clubs club,
)

added-IsRoster :
    (id now u : ℕ) (code : String) (req : CreateClubRequest) (db : Database)
    → 1 ≤ req.max_members
    → get_by_id id db ≡ none
    → IsRoster db
    → IsRoster (added (new_club id now code u req) (new_member id u now owner) req.tags db)
added-IsRoster id now u code req db room new h =
    let row = new_member id u now owner in
    let club = new_club id now code u req in
    record {
      ids = λ c'. ground (
        arith,
        h.ids c',
        sum_where-append (has_club_id c') (λ r. 1) db.reading_clubs (club ∷ []),
        first-none (has_club_id id) db.reading_clubs new,
      );
      rows = λ c' u'. ground (
        arith,
        h.rows c' u',
        sum_where-append (is_row c' u') (λ r. 1) db.club_members (row ∷ []),
        row_counts id u db.club_members (h.known id new),
      );
      known = λ c' none'. ground (
        arith,
        h.known c',
        found_after id c' club db refl new,
        sum_where-append (in_club c') (λ r. 1) db.club_members (row ∷ []),
      );
      bounded = λ c' club' found'. ground (
        arith,
        h.bounded c' club',
        h.known id new,
        found_after id c' club db refl new,
        sum_where-append (in_club c') (λ r. 1) db.club_members (row ∷ []),
      );
      host = λ c' u' club' found'. elim (found_after id c' club db refl new) [
        | inl (at_id, fresh) ↦ ground (
          arith,
          at_id,
          fresh,
          found',
          first-absent (is_row id u') db.club_members
              (row_counts id u' db.club_members (h.known id new)),
          first-append (is_row c' u') db.club_members row,
          first-append_other (is_row c' u') db.club_members row,
        )
        | inr (elsewhere, old) ↦ ground (
          arith,
          h.host c' u' club',
          elsewhere,
          old,
          found',
          first-append_other (is_row c' u') db.club_members row,
        )
      ];
    }
