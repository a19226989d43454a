-- ===== src/Backfill/Sweep/Plan.antt =====
-- internal/backfill/sweep.go: what a sweep sends for repair.
use chomo_syncer_go.Base.{
  ltb, leb, if◌then◌else◌, Bool-cases, ◌==◌, nat_eq, length, length-append, Text, text_eq, Map,
  lookup, insert, lookup-insert, contains, Uniq, contains-snoc, snoc-Uniq, sum_by, sum_by-append, ℕ,
  ◌+◌, ◌≤◌, ◌≡◌, refl, ◌⊎◌, inl, inr, true, false, List, [], ◌∷◌, ◌++◌, arith,
}
use chomo_syncer_go.Universe.{sort}
use chomo_syncer_go.Backfill.{Key, key_beq_iff, key_eq}
use chomo_syncer_go.Backfill.Requests.{Range}
use chomo_syncer_go.Backfill.Process.{key_ranges}
use chomo_syncer_go.Backfill.Sweep.{
  Sweeper, is_empty, Chosen, choose, choose_ranges, choose_all, choose_gaps, symbols_of, get_gaps,
}

-- How many ranges a key has.
abbrev pub size_at : Map Key (List Range) → Key → ℕ
size_at m k = length (key_ranges k m)

-- Adding a range to a key changes its number and no other.
size_at-insert :
    (k j : Key) (r : Range) (m : Map Key (List Range))
    → size_at (insert k (key_ranges k m ++ r ∷ []) m) j ≡ size_at m j + (if k == j then 1 else 0)
unfolding key_ranges
size_at-insert k j r m = ground (
  arith,
  key_beq_iff k j,
  lookup-insert k j (key_ranges k m ++ r ∷ []) m,
  length-append (key_ranges k m) (r ∷ []),
)

-- The sum over keys that are not listed does not change, that over a set that lists the key grows
-- by one.
sum-insert_other :
    (k : Key) (r : Range) (m : Map Key (List Range)) (ks : List Key)
    → contains ks k ≡ false
    → sum_by (size_at (insert k (key_ranges k m ++ r ∷ []) m)) ks ≡ sum_by (size_at m) ks
unfolding sum_by contains
sum-insert_other k r m [] h = refl
sum-insert_other k r m (j ∷ ks) h =
    ground
      (arith, size_at-insert k j r m, sum-insert_other k r m ks, key_beq_iff j k, key_beq_iff k j)

sum-insert :
    (k : Key) (r : Range) (m : Map Key (List Range)) (ks : List Key)
    → Uniq ks
    → contains ks k ≡ true
    → sum_by (size_at (insert k (key_ranges k m ++ r ∷ []) m)) ks ≡ sum_by (size_at m) ks + 1
unfolding sum_by contains
sum-insert k r m [] u h = absurd (ground (arith, h))
sum-insert k r m (j ∷ ks) u h = ground (
  arith,
  size_at-insert k j r m,
  sum-insert k r m ks,
  sum-insert_other k r m ks,
  key_beq_iff j k,
  key_beq_iff k j,
  key_beq_iff k k,
)

-- The keys with ranges are listed once each, their ranges are those counted, within the cap, and
-- where a range was neither counted nor skipped the cap was reached.
abbrev pub Inv : ℕ → Chosen → Type 0
Inv most c =
    Uniq c.keys
    × ((k : Key) → contains c.keys k ≡ ltb 0 (size_at c.ranges k))
    × (sum_by (size_at c.ranges) c.keys ≡ c.stats.submitted)
    × (c.stats.submitted ≤ most)
    × (c.stats.skipped + c.stats.submitted ≤ c.stats.found)
    × ((c.stats.skipped + c.stats.submitted ≡ c.stats.found) ⊎ (c.stats.submitted ≡ most))

-- The keys after a range is added, which are those before if the key had ranges.
abbrev keys_with : Key → Chosen → List Key
keys_with k c = if length (key_ranges k c.ranges) == 0 then c.keys ++ k ∷ [] else c.keys

abbrev ranges_with : Key → Range → Chosen → Map Key (List Range)
ranges_with k r c = insert k (key_ranges k c.ranges ++ r ∷ []) c.ranges

-- The keys are listed once each, and are those that have ranges.
abbrev AreKeys : List Key → Map Key (List Range) → Type 0
AreKeys ks m = Uniq ks × ((k : Key) → contains ks k ≡ ltb 0 (size_at m k))

keys_with-AreKeys :
    (k : Key) (r : Range) (c : Chosen)
    → AreKeys c.keys c.ranges
    → AreKeys (keys_with k c) (ranges_with k r c)
      × (sum_by (size_at (ranges_with k r c)) (keys_with k c)
          ≡ sum_by (size_at c.ranges) c.keys + 1)
unfolding sum_by
keys_with-AreKeys k r c (u, h) = elim (Bool-cases (contains c.keys k)) [
  | inl old ↦
      let some_ranges : (length (key_ranges k c.ranges) == 0) ≡ false = ground (arith, old, h k) in
      rw some_ranges (
        (u, λ j. ground (arith, h j, size_at-insert k j r c.ranges, key_beq_iff k j, old)),
        sum-insert k r c.ranges c.keys u old,
      )
  | inr fresh ↦
      let no_ranges : (length (key_ranges k c.ranges) == 0) ≡ true = ground (arith, fresh, h k) in
      let new_size : sum_by (size_at (ranges_with k r c)) (k ∷ []) ≡ 1 =
        ground (arith, no_ranges, size_at-insert k k r c.ranges, key_beq_iff k k) in
      rw no_ranges (
        (
          snoc-Uniq c.keys k u fresh,
          λ j. ground (arith, h j, size_at-insert k j r c.ranges, contains-snoc c.keys k j),
        ),
        omega (
          arith,
          sum_by-append (size_at (ranges_with k r c)) c.keys (k ∷ []),
          sum-insert_other k r c.ranges c.keys fresh,
          new_size,
        ),
      )
]

choose-Inv :
    (s : Sweeper) (clock : ℕ → ℕ) (symbol : Text) (r : Range) (c : Chosen)
    → Inv s.cfg.max_ranges c
    → Inv s.cfg.max_ranges (choose s clock symbol r c)
unfolding choose
choose-Inv s clock symbol r c (u, h, t, m, l, o) =
    elim (Bool-cases (is_empty symbol r.from (clock c.stats.found) s.empty)) [
      | inl known ↦ rw known (u, h, t, m, omega (arith, l), ground (arith, o))
      | inr fresh ↦ rw fresh (elim (Bool-cases (leb s.cfg.max_ranges c.stats.submitted)) [
        | inl full ↦ rw full (u, h, t, m, omega (arith, l), inr (ground (arith, full, m)))
        | inr room ↦
            let added =
              keys_with-AreKeys (record { symbol = symbol; interval = s.cfg.interval }) r c
                (u, h) in
            rw room (
              added.0.0,
              added.0.1,
              omega (arith, added.1, t),
              ground (arith, room),
              omega (arith, l),
              ground (arith, o),
            )
      ])
    ]

choose_ranges-Inv :
    (s : Sweeper) (clock : ℕ → ℕ) (symbol : Text) (rs : List Range) (c : Chosen)
    → Inv s.cfg.max_ranges c
    → Inv s.cfg.max_ranges (choose_ranges s clock symbol rs c)
unfolding choose_ranges
choose_ranges-Inv s clock symbol [] c i = i
choose_ranges-Inv s clock symbol (r ∷ rs) c i =
    choose_ranges-Inv s clock symbol rs (choose s clock symbol r c)
      (choose-Inv s clock symbol r c i)

choose_all-Inv :
    (s : Sweeper) (clock : ℕ → ℕ) (symbols : List Text) (gaps : Map Text (List Range)) (c : Chosen)
    → Inv s.cfg.max_ranges c
    → Inv s.cfg.max_ranges (choose_all s clock symbols gaps c)
unfolding choose_all
choose_all-Inv s clock [] gaps c i = i
choose_all-Inv s clock (symbol ∷ symbols) gaps c i =
    let rs : List Range = get_gaps symbol gaps in
    choose_all-Inv s clock symbols gaps (choose_ranges s clock symbol rs c)
      (choose_ranges-Inv s clock symbol rs c i)

-- What a sweep sends is well formed: whatever gaps are found, the keys of its request are listed
-- once each and are those that have ranges; the ranges of those keys are as many as were counted,
-- which are within the cap; and a range that is neither counted nor skipped as known to be empty is
-- left out only because the cap is reached.
pub choose_gaps-Inv :
    (s : Sweeper) (clock : ℕ → ℕ) (gaps : Map Text (List Range))
    → Inv s.cfg.max_ranges (choose_gaps s clock gaps)
unfolding choose_gaps key_ranges lookup contains sum_by
choose_gaps-Inv s clock gaps =
    choose_all-Inv s clock (sort (symbols_of gaps)) gaps _
      (tt, (λ k. refl), refl, omega arith, omega arith, inl refl)
