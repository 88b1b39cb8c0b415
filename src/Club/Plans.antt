-- ===== src/Club/Plans.antt =====
-- backend/app/domains/club: the reading plans of a club and the progress of its members, the statements of
-- repository.py and the operations of service.py. Dates are ordinals. The columns users.is_pro and
-- books.page_count are arguments. A percentage is a fraction of numerator and denominator, where the program
-- computes in floating point. The push that announces a plan swallows its failures and is outside the model.
pub mod Pace
use book_club.Prelude.{
  ℕ, ◌+◌, ◌-◌, ◌*◌, ◌/◌, min, max, Bool, true, false, Option, none, some, List, [], ◌∷◌, ◌++◌, map,
  not, ◌==◌, leb, select, first, update_where, sort_by, if◌then◌else◌,
}
use book_club.Core.Exceptions.{
  club_not_found, not_permitted, pro_required, not_member, not_found_error, conflict_error,
  permission_denied_error,
}
use book_club.Core.Database.{Database}
use book_club.Core.Session.{Action, pure, raise, gets, require, raise_if, modify, ◌>>=◌, ◌>>◌}
use book_club.Club.Models.{ReadingClub, ClubMember, ClubReadingPlan}
use book_club.Club.Repository.{get_by_id, in_club, is_row}
use book_club.Club.Events.Service.{assert_member}

abbrev default_page_count : ℕ
default_page_count = 200

-- math.ceil(a / b)
abbrev pub ceil_div : ℕ → ℕ → ℕ
ceil_div a b = (a + (b - 1)) / b

-- A plan that ends before it starts spans no day here and a negative number of days there: one week either way.
unfoldable pub plan_weeks : ℕ → ℕ → ℕ
plan_weeks start_date end_date = max 1 (ceil_div (end_date + 1 - start_date) 7)

-- date.today() is an argument.
unfoldable pub elapsed_weeks : ℕ → ClubReadingPlan → ℕ
unfolding plan_weeks
elapsed_weeks today plan =
    min (max 1 (ceil_div (today + 1 - plan.start_date) 7))
      (plan_weeks plan.start_date plan.end_date)

-- min(100, current / expected * 100), as the fraction of 100 that it is
unfoldable pub progress_pct : ℕ → ℕ → ℕ → ℕ × ℕ
progress_pct current_page weekly_pages elapsed =
    let expected = weekly_pages * elapsed in
    if expected == 0 then (0, 1) else (min current_page expected, expected)

-- page_count or _DEFAULT_PAGE_COUNT
abbrev pub pages_or_default : Option ℕ → ℕ
pages_or_default none = default_page_count
pages_or_default (some n) = if n == 0 then default_page_count else n

abbrev pub new_plan : ℕ → ℕ → ℕ → ℕ → ℕ → ℕ → ℕ → ℕ → ClubReadingPlan
new_plan id now club_id book_id start_date end_date weekly_pages created_by = record {
  id = id;
  club_id = club_id;
  book_id = book_id;
  start_date = start_date;
  end_date = end_date;
  weekly_pages = weekly_pages;
  created_by = created_by;
  created_at = now;
}

unfoldable pub create_reading_plan :
    (ℕ → Bool) → (ℕ → Option ℕ) → ℕ → ℕ → ℕ → ℕ → ℕ → ℕ → ℕ → Action ClubReadingPlan
unfolding plan_weeks
create_reading_plan is_pro page_count id now club_id created_by book_id start_date end_date =
    let total_pages = pages_or_default (page_count book_id) in
    let weekly_pages = ceil_div total_pages (plan_weeks start_date end_date) in
    let plan = new_plan id now club_id book_id start_date end_date weekly_pages created_by in
    do
      club ← require (get_by_id club_id) (not_found_error club_not_found)
      raise_if (not (club.owner_id == created_by)) (permission_denied_error not_permitted)
      raise_if (not (is_pro created_by)) (conflict_error pro_required)
      modify (λ db. record db { club_reading_plans = db.club_reading_plans ++ plan ∷ [] })
      pure plan

-- ORDER BY created_at DESC
abbrev newest_plan : ClubReadingPlan → ClubReadingPlan → Bool
newest_plan a b = leb b.created_at a.created_at

abbrev head {ℓ} : {A : Type ℓ} → List A → Option A
head [] = none
head (x ∷ xs) = some x

unfoldable get_active_reading_plan : ℕ → Database → Option ClubReadingPlan
get_active_reading_plan club_id db =
    head (sort_by newest_plan (select (λ p. p.club_id == club_id) db.club_reading_plans))

abbrev pub at_page : ℕ → ℕ → ClubMember → ClubMember
at_page now current_page m = record m {
  current_page = current_page;
  last_page_updated_at = some now;
}

-- if member is None: raise PermissionDeniedError(…)
abbrev found : Option ClubMember → Action ClubMember
found none = raise (permission_denied_error not_member)
found (some m) = pure m

unfoldable pub update_member_progress : ℕ → ℕ → ℕ → ℕ → Action ClubMember
update_member_progress now club_id user_id current_page = do
  modify (λ db. record db {
    club_members = update_where (is_row club_id user_id) (at_page now current_page) db.club_members;
  })
  updated ← gets (λ db. first (is_row club_id user_id) db.club_members)
  found updated

-- ORDER BY joined_at
abbrev joined_before : ClubMember → ClubMember → Bool
joined_before a b = leb a.joined_at b.joined_at

-- Without the nicknames that the join adds.
unfoldable get_members_with_progress : ℕ → Database → List ClubMember
get_members_with_progress club_id db =
    sort_by joined_before (select (in_club club_id) db.club_members)

-- A member's percentage of the active plan.
abbrev member_progress : ℕ → Option ClubReadingPlan → ClubMember → ℕ × ℕ
member_progress today none m = (0, 1)
member_progress today (some plan) m =
    progress_pct m.current_page plan.weekly_pages (elapsed_weeks today plan)

unfoldable get_club_progress :
    ℕ → ℕ → ℕ → Action (Option ClubReadingPlan × List (ClubMember × (ℕ × ℕ)))
unfolding assert_member get_active_reading_plan get_members_with_progress progress_pct elapsed_weeks
get_club_progress today club_id requester_id = do
  assert_member club_id requester_id
  plan ← gets (get_active_reading_plan club_id)
  members ← gets (get_members_with_progress club_id)
  pure (plan, map (λ m. (m, member_progress today plan m)) members)
