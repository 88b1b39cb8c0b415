-- ===== src/Tests/Highlights.antt =====
-- The highlights of reader 7 in the two books of Tests.Data.
use book_club.Prelude.{
  ℕ, ◌≤◌, ◌≡◌, refl, Option, none, some, String, List, [], ◌∷◌, arith, ◌==◌, select, count_where,
  if◌then◌else◌, All,
}
use book_club.Core.Database.{Database}
use book_club.Core.Session.{Session, World, ok, run_request}
use book_club.Core.Session.Atomic.{fresh}
use book_club.Feed.Models.{PostHighlight}
use book_club.Feed.Highlights.{of_user}
use book_club.Feed.Highlights.Service.{
  BookHighlightGroup, share_event, create_highlight, delete_highlight, update_highlight_visibility,
  share_highlight_to_feed, list_all_highlights,
}
use book_club.Feed.Highlights.Sharing.{IsShared, share_highlight_to_feed-again}
use book_club.Feed.Highlights.Reach.{
  Reach, here, next, creates, shares, shows, deletes, Reach-IsShared,
}
use book_club.Feed.Highlights.Visibility.{IsTyped, Reach-AreTyped}
use book_club.Feed.Highlights.Grouping.{shown, IsOfCopy, list_all_highlights_lem}
use book_club.Tests.Data.{tables}

abbrev quote : PostHighlight
quote = record {
  id = 1;
  user_id = 7;
  user_book_id = 1;
  quote_text = "a line";
  page_number = some 12;
  note_text = none;
  visibility = "private";
  shared_at = none;
  deleted_at = none;
  created_at = 10;
}

abbrev marked : Database
marked = record tables {
  post_highlights =
      quote ∷ record quote { id = 2; user_book_id = 2 } ∷ record quote { id = 3 } ∷ [];
}

abbrev shelf : World
shelf = record { db = marked; published = [] }

marked-IsShared : IsShared marked
marked-IsShared = record { once = λ i. omega arith; unshared = λ i row e never. refl }

abbrev saved : World
saved = (run_request (create_highlight 4 20 7 1 "another line" none none) shelf).1

abbrev told : World
told = (run_request (share_highlight_to_feed 30 7 4) saved).1

abbrev hidden : World
hidden = (run_request (update_highlight_visibility 7 4 "private") told).1

abbrev dropped : World
dropped = (run_request (delete_highlight 7 2) hidden).1

dropped-Reach : Reach shelf dropped
dropped-Reach =
    next
      (next
        (next (next here (creates shelf 4 20 7 1 "another line" none none refl refl))
          (shares saved 30 7 4))
        (shows told 7 4 "private"))
      (deletes hidden 7 2)

Reach-IsShared_example : IsShared dropped.db
Reach-IsShared_example = Reach-IsShared marked-IsShared dropped-Reach

Reach-AreTyped_example : All IsTyped dropped.db.post_highlights
Reach-AreTyped_example = Reach-AreTyped (refl, (refl, (refl, tt))) dropped-Reach

abbrev once : Session
once = (share_highlight_to_feed 30 7 1 (fresh shelf)).1

share-once : share_highlight_to_feed 30 7 1 (fresh shelf) ≡ (ok (share_event 7 1 quote), once)
unfolding share_highlight_to_feed
share-once = refl

share_highlight_to_feed-again_example :
    share_highlight_to_feed 40 7 1 once ≡ (ok (share_event 7 1 quote), once)
share_highlight_to_feed-again_example =
    share_highlight_to_feed-again 30 40 7 1 (fresh shelf) once (share_event 7 1 quote)
      marked-IsShared share-once

-- The title of a book, where it is known.
abbrev title : ℕ → Option String
title book_id = if book_id == 100 then some "a novel" else none

list_all_highlights_lem_example :
    (groups : List (BookHighlightGroup String)) × (list_all_highlights title 7 (fresh shelf)
      ≡ (ok groups, fresh shelf))
    × (count_where (λ h. h.id == 3) (shown groups)
        ≡ count_where (λ h. h.id == 3) (select (of_user 7) marked.post_highlights))
    × All IsOfCopy groups
    × ((k : ℕ) → count_where (λ g. g.user_book_id == k) groups ≤ 1)
list_all_highlights_lem_example =
    list_all_highlights_lem title 7 (fresh shelf) (λ h. h.id == 3) (refl, (refl, (refl, tt)))
