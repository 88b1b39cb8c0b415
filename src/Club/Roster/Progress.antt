-- ===== src/Club/Roster/Progress.antt =====
-- A member who tells a page stays on the rolls as before.
use book_club.Prelude.{
  ℕ, ◌≡◌, refl, ◌∙◌, ap, none, some, Bool, Option, arith, first, update_where, updated,
  first-updated, count_where-update,
}
use book_club.Core.Database.{Database}
use book_club.Core.Session.{Session}
use book_club.Club.Models.{ClubMember}
use book_club.Club.Repository.{in_club, is_row, role_of, get_member_role}
use book_club.Club.Guards.{is_host_role}
use book_club.Club.Plans.{at_page, update_member_progress}
use book_club.Club.Roster.{IsRoster}

abbrev after_page : ℕ → ℕ → ℕ → ℕ → Database → Database
after_page now c u page db = record db {
  club_members = update_where (is_row c u) (at_page now page) db.club_members;
}

role-updated :
    (now page c u : ℕ) (o : Option ClubMember)
    → role_of (updated (is_row c u) (at_page now page) o) ≡ role_of o
role-updated now page c u none = refl
role-updated now page c u (some m) = ground arith

role-after_page :
    (now c u page c' u' : ℕ) (db : Database)
    → get_member_role c' u' (after_page now c u page db) ≡ get_member_role c' u' db
role-after_page now c u page c' u' db =
    ap role_of
      (first-updated (is_row c' u') (is_row c u) (at_page now page) db.club_members (λ m. refl))
    ∙ role-updated now page c u (first (is_row c' u') db.club_members)

after_page-IsRoster :
    (now c u page : ℕ) (db : Database) → IsRoster db → IsRoster (after_page now c u page db)
after_page-IsRoster now c u page db h =
    let count = λ (p : ClubMember → Bool) (same : (m : ClubMember) → p (at_page now page m) ≡ p m).
      count_where-update p (is_row c u) (at_page now page) db.club_members same in
    record {
      ids = h.ids;
      rows = λ c' u'. rw (count (is_row c' u') (λ m. refl)) (h.rows c' u');
      known = λ c' gone. rw (count (in_club c') (λ m. refl)) (h.known c' gone);
      bounded = λ c' club found. rw (count (in_club c') (λ m. refl)) (h.bounded c' club found);
      host = λ c' u' club found.
          ap is_host_role (role-after_page now c u page c' u' db) ∙ h.host c' u' club found;
    }

update_member_progress_outcome :
    (now c u page : ℕ) (s : Session)
    → (update_member_progress now c u page s).1.db ≡ after_page now c u page s.db
unfolding update_member_progress
update_member_progress_outcome now c u page s = ground arith

pub update_member_progress-IsRoster :
    (now c u page : ℕ) (s : Session)
    → IsRoster s.db
    → IsRoster (update_member_progress now c u page s).1.db
update_member_progress-IsRoster now c u page s h =
    rw (update_member_progress_outcome now c u page s) (after_page-IsRoster now c u page s.db h)
