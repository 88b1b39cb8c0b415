-- ===== src/Social/Leaderboard.antt =====
-- What the ranks of the weekly leaderboard mean.
use book_club.Prelude.{
  ℕ, ◌+◌, ◌≤◌, ◌<◌, ◌≡◌, refl, ap, inl, inr, Option, none, some, List, [], ◌∷◌, ◌++◌, map,
  append_assoc, arith, ltb, ◌==◌, some_eq, length, All, All-snoc, Bool-cases, count_where,
  sum_where-append, if◌then◌else◌,
}
use book_club.Social.Service.{LeaderboardRow, LeaderboardEntry, rank_from, weekly_leaderboard}

-- ORDER BY weekly_minutes DESC
abbrev pub IsDescending : List LeaderboardRow → Type 0
IsDescending [] = Unit
IsDescending (r ∷ rows) = All (λ x. x.weekly_minutes ≤ r.weekly_minutes) rows × IsDescending rows

-- A user with the minutes of the week.
abbrev pub row_score : LeaderboardRow → ℕ × ℕ
row_score r = (r.user_id, r.weekly_minutes)

abbrev pub entry_score : LeaderboardEntry → ℕ × ℕ
entry_score e = (e.user_id, e.weekly_minutes)

-- How many rows have more minutes.
abbrev pub ahead : ℕ → List LeaderboardRow → ℕ
ahead minutes rows = count_where (λ r. ltb minutes r.weekly_minutes) rows

-- What the loop carries after the rows that it has seen.
abbrev Carried : List LeaderboardRow → ℕ → ℕ → Option ℕ → Type 0
Carried seen i rank none = (length seen ≡ i) × (i ≡ 0)
Carried seen i rank (some m) =
    (length seen ≡ i) × (rank ≡ 1 + ahead m seen) × All (λ r. m ≤ r.weekly_minutes) seen

ahead-All :
    (w m : ℕ) (rows : List LeaderboardRow)
    → w < m
    → All (λ r. m ≤ r.weekly_minutes) rows
    → ahead w rows ≡ length rows
ahead-All w m [] h k = refl
ahead-All w m (r ∷ rows) h (p, k) = ground (arith, p, ahead-All w m rows h k)

ahead_none :
    (w : ℕ) (rows : List LeaderboardRow) → All (λ r. r.weekly_minutes ≤ w) rows → ahead w rows ≡ 0
ahead_none w [] h = refl
ahead_none w (r ∷ rows) (p, h) = ground (arith, p, ahead_none w rows h)

length-snoc :
    (rows : List LeaderboardRow) (r : LeaderboardRow) → length (rows ++ r ∷ []) ≡ length rows + 1
length-snoc [] r = refl
length-snoc (x ∷ rows) r = omega (arith, length-snoc rows r)

-- No row has more minutes than the last one that was seen.
abbrev Below : Option ℕ → ℕ → Type 0
Below none w = Unit
Below (some m) w = w ≤ m

-- The rank of the next row.
next_rank :
    (seen : List LeaderboardRow) (i rank : ℕ) (prev : Option ℕ) (r : LeaderboardRow)
    → Carried seen i rank prev
    → Below prev r.weekly_minutes
    → (if some_eq prev r.weekly_minutes then rank else i + 1) ≡ 1 + ahead r.weekly_minutes seen
next_rank [] i rank none r (len, start) low = ground (arith, len, start)
next_rank (x ∷ seen) i rank none r (len, start) low = ground (arith, len, start)
next_rank seen i rank (some m) r (len, at, high) low = elim (Bool-cases (m == r.weekly_minutes)) [
  | inl same ↦ let e : r.weekly_minutes ≡ m = ground arith in rw e (ground (arith, at))
  | inr other ↦
      let less : r.weekly_minutes < m = ground (arith, other, low) in
      ground (arith, other, len, ahead-All r.weekly_minutes m seen less high)
]

lower :
    (w m : ℕ) (rows : List LeaderboardRow)
    → w ≤ m
    → All (λ r. m ≤ r.weekly_minutes) rows
    → All (λ r. w ≤ r.weekly_minutes) rows
lower w m [] h k = tt
lower w m (r ∷ rows) h (p, k) = (omega (arith, h, p), lower w m rows h k)

-- What was seen has as many minutes as the next row, or more.
seen-above :
    (seen : List LeaderboardRow) (i rank : ℕ) (prev : Option ℕ) (w : ℕ)
    → Carried seen i rank prev
    → Below prev w
    → All (λ r. w ≤ r.weekly_minutes) seen
seen-above [] i rank prev w c low = tt
seen-above (x ∷ seen) i rank none w (len, start) low = ground (arith, len, start)
seen-above (x ∷ seen) i rank (some m) w (len, at, high) low = lower w m (x ∷ seen) low high

-- The next row is carried on.
carry :
    (seen : List LeaderboardRow) (i rank : ℕ) (prev : Option ℕ) (r : LeaderboardRow)
    → Carried seen i rank prev
    → Below prev r.weekly_minutes
    → Carried
        (seen ++ r ∷ [])
        (i + 1)
        (if some_eq prev r.weekly_minutes then rank else i + 1)
        (some r.weekly_minutes)
carry seen i rank prev r c low = (
  omega (arith, length-snoc seen r, seen_length prev c),
  ground (
    arith,
    next_rank seen i rank prev r c low,
    sum_where-append (λ x. ltb r.weekly_minutes x.weekly_minutes) (λ x. 1) seen (r ∷ []),
  ),
  All-snoc (λ x. r.weekly_minutes ≤ x.weekly_minutes) seen r
      (seen-above seen i rank prev r.weekly_minutes c low) (omega arith),
)
  where
    seen_length : (prev : Option ℕ) → Carried seen i rank prev → length seen ≡ i
    seen_length none c = c.0
    seen_length (some m) c = c.0

rank_from-ahead :
    (u : ℕ) (seen : List LeaderboardRow) (i rank : ℕ) (prev : Option ℕ) (rows : List LeaderboardRow)
    → Carried seen i rank prev
    → All (λ r. Below prev r.weekly_minutes) rows
    → IsDescending rows
    → All (λ e. e.rank ≡ 1 + ahead e.weekly_minutes (seen ++ rows)) (rank_from u i rank prev rows)
unfolding rank_from
rank_from-ahead u seen i rank prev [] c low h = tt
rank_from-ahead u seen i rank prev (r ∷ rows) c (p, low) (below, h) = (
  ground (
    arith,
    next_rank seen i rank prev r c p,
    sum_where-append (λ x. ltb r.weekly_minutes x.weekly_minutes) (λ x. 1) seen (r ∷ rows),
    ahead_none r.weekly_minutes rows below,
  ),
  rw append_assoc at (
      rank_from-ahead u (seen ++ r ∷ []) (i + 1)
        (if some_eq prev r.weekly_minutes then rank else i + 1) (some r.weekly_minutes) rows
        (carry seen i rank prev r c p) below h),
)

rank_from-users :
    (u i rank : ℕ) (prev : Option ℕ) (rows : List LeaderboardRow)
    → map entry_score (rank_from u i rank prev rows) ≡ map row_score rows
unfolding rank_from
rank_from-users u i rank prev [] = refl
rank_from-users u i rank prev (r ∷ rows) =
    ap (λ xs. row_score r ∷ xs) (rank_from-users u (i + 1) _ _ rows)

unbounded : (rows : List LeaderboardRow) → All (λ r. Below none r.weekly_minutes) rows
unbounded [] = tt
unbounded (r ∷ rows) = (tt, unbounded rows)

-- Where the rows come in descending order of minutes, the leaderboard lists the same users with the same
-- minutes in the same order, and the rank of each is one more than the number of users with more minutes.
pub weekly_leaderboard_ranks :
    (u : ℕ) (rows : List LeaderboardRow)
    → IsDescending rows
    → (map entry_score (weekly_leaderboard u rows) ≡ map row_score rows)
      × All (λ e. e.rank ≡ 1 + ahead e.weekly_minutes rows) (weekly_leaderboard u rows)
unfolding weekly_leaderboard
weekly_leaderboard_ranks u rows h = (
  rank_from-users u 0 0 none rows,
  rank_from-ahead u [] 0 0 none rows (refl, refl) (unbounded rows) h,
)
