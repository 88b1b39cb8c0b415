-- ===== src/Club/Repository.antt =====
-- backend/app/domains/club/repository.py: the clubs and their members. A flush that breaks a unique or
-- foreign key raises IntegrityError; new ids and invite codes are arguments.
use text.Mathlib.Text.{◌==◌ as str_eq}
use book_club.Prelude.{
  ℕ, Bool, true, false, Option, none, some, String, List, [], ◌∷◌, ◌++◌, map, not, ◌&&◌, ◌||◌, ◌==◌,
  is_some, first, update_where, delete_where, count_where,
}
use book_club.Core.Exceptions.{integrity_error}
use book_club.Core.Database.{Database}
use book_club.Core.Session.{Action, pure, raise_if, modify, ◌>>◌}
use book_club.Club.Models.{ReadingClub, ClubTag, ClubMember, ClubRole, owner, member}

pub record CreateClubRequest : Type 0 where
  pub name : String
  pub description : Option String
  pub book_id : Option ℕ
  pub max_members : ℕ
  pub is_public : Bool
  pub category : Option String
  pub tags : List String

abbrev pub has_club_id : ℕ → ReadingClub → Bool
has_club_id club_id c = c.id == club_id

abbrev pub get_by_id : ℕ → Database → Option ReadingClub
get_by_id club_id db = first (has_club_id club_id) db.reading_clubs

-- The invite codes are unique.
abbrev pub get_by_invite_code : String → Database → Option ReadingClub
get_by_invite_code code db = first (λ c. str_eq c.invite_code code) db.reading_clubs

abbrev pub in_club : ℕ → ClubMember → Bool
in_club club_id m = m.club_id == club_id

abbrev pub is_row : ℕ → ℕ → ClubMember → Bool
is_row club_id user_id m = m.club_id == club_id && m.user_id == user_id

abbrev pub member_count : ℕ → Database → ℕ
member_count club_id db = count_where (in_club club_id) db.club_members

abbrev pub is_member : ℕ → ℕ → Database → Bool
is_member club_id user_id db = is_some (first (is_row club_id user_id) db.club_members)

abbrev pub role_of : Option ClubMember → Option ClubRole
role_of none = none
role_of (some m) = some m.role

abbrev pub get_member_role : ℕ → ℕ → Database → Option ClubRole
get_member_role club_id user_id db = role_of (first (is_row club_id user_id) db.club_members)

abbrev has_id_in : List ℕ → ℕ → Bool
has_id_in [] id = false
has_id_in (x ∷ xs) id = x == id || has_id_in xs id

-- The foreign key of a nullable book_id.
abbrev pub book_exists : Option ℕ → Database → Bool
book_exists none db = true
book_exists (some book_id) db = has_id_in db.books book_id

abbrev has_tag : List String → String → Bool
has_tag [] tag = false
has_tag (t ∷ tags) tag = str_eq t tag || has_tag tags tag

-- uq_club_tags_club_tag, for the tags of a new club
abbrev has_repeated_tag : List String → Bool
has_repeated_tag [] = false
has_repeated_tag (tag ∷ tags) = has_tag tags tag || has_repeated_tag tags

abbrev pub new_club : ℕ → ℕ → String → ℕ → CreateClubRequest → ReadingClub
new_club id now invite_code owner_id req = record {
  id = id;
  name = req.name;
  description = req.description;
  owner_id = owner_id;
  book_id = req.book_id;
  invite_code = invite_code;
  max_members = req.max_members;
  is_public = req.is_public;
  category = req.category;
  created_at = now;
}

abbrev pub new_member : ℕ → ℕ → ℕ → ClubRole → ClubMember
new_member club_id user_id now role = record {
  club_id = club_id;
  user_id = user_id;
  role = role;
  joined_at = now;
  current_page = 0;
  last_page_updated_at = none;
}

abbrev tag_rows : ℕ → List String → List ClubTag
tag_rows club_id tags = map (λ tag. record { club_id = club_id; tag = tag }) tags

-- The club, its creator's row, and its tags.
abbrev pub added : ReadingClub → ClubMember → List String → Database → Database
added club m tags db = record db {
  reading_clubs = db.reading_clubs ++ club ∷ [];
  club_members = db.club_members ++ m ∷ [];
  club_tags = db.club_tags ++ tag_rows club.id tags;
}

unfoldable pub create : ℕ → ℕ → String → ℕ → CreateClubRequest → Action ReadingClub
create id now invite_code owner_id req s =
    let club = new_club id now invite_code owner_id req in
    let refused =
      is_some (get_by_invite_code invite_code s.db)
      || not (book_exists req.book_id s.db)
      || has_repeated_tag req.tags in
    (do
      raise_if refused integrity_error
      modify (added club (new_member id owner_id now owner) req.tags)
      pure club)
      s

abbrev pub with_member : ClubMember → Database → Database
with_member m db = record db { club_members = db.club_members ++ m ∷ [] }

unfoldable pub join : ℕ → ℕ → ℕ → Action (Unit {0})
join now club_id user_id s =
    (do
      raise_if (is_member club_id user_id s.db) integrity_error
      modify (with_member (new_member club_id user_id now member)))
      s

abbrev pub without_member : ℕ → ℕ → Database → Database
without_member club_id user_id db = record db {
  club_members = delete_where (is_row club_id user_id) db.club_members;
}

unfoldable pub leave : ℕ → ℕ → Action (Unit {0})
leave club_id user_id = modify (without_member club_id user_id)

abbrev pub with_book : Option ℕ → ReadingClub → ReadingClub
with_book book_id c = record c { book_id = book_id }

abbrev pub rebooked : ℕ → Option ℕ → Database → Database
rebooked club_id book_id db = record db {
  reading_clubs = update_where (has_club_id club_id) (with_book book_id) db.reading_clubs;
}

-- The UPDATE. The commit that follows it ends the request's transaction early, with no statement after it.
unfoldable pub set_book : ℕ → Option ℕ → Action (Unit {0})
set_book club_id book_id s =
    (do
      raise_if (not (book_exists book_id s.db)) integrity_error
      modify (rebooked club_id book_id))
      s
