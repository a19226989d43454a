-- ===== src/Sharding.antt =====
-- internal/collector/sharding.go: which shard carries which stream, and the changes of a
-- subscription. `checksum` stands for hash/crc32's ChecksumIEEE, of which nothing is assumed.
pub mod Plan
pub mod Digits
mod Tests
use chomo_syncer_go.Base.{
  ltb, leb, if◌then◌else◌, ◌==◌, nat_eq, Text, codes, text_eq, to_upper, to_lower, Map, lookup,
  insert, contains, add_elem, ℤ, ℕ, zero, suc, ◌+◌, ◌/◌, ◌%◌, not, none, some, List, [], ◌∷◌, ◌++◌,
  map, arith, pos, negsuc,
}
use chomo_syncer_go.Universe.{sort}

-- `streamName`
unfoldable pub stream_name : Text → Text → Text
stream_name symbol interval = to_lower symbol ++ (codes "@kline_" ++ interval)

-- `strconv.Itoa` of a natural number; a number has fewer digits than its value and one.
unfoldable pub digits_of : ℕ → ℕ → Text
digits_of zero n = []
digits_of (suc fuel) n =
    let rest = digits_of fuel (n / 10) in
    if ltb n 10 then (b'0' + n) ∷ [] else rest ++ (b'0' + n % 10) ∷ []

unfoldable pub itoa : ℕ → Text
unfolding digits_of
itoa n = digits_of (suc n) n

-- `shardID`
unfoldable pub shard_id : Text → ℕ → Text
unfolding itoa
shard_id interval bucket = codes "kline_" ++ (interval ++ (codes "_" ++ itoa bucket))

-- `m[k]` of a map to sets.
unfoldable pub get_set : Text → Map Text (List Text) → List Text
get_set k m = elim (lookup k m) [ none ↦ [] | some s ↦ s ]

-- The elements of `xs` that are not in `ys`.
unfoldable pub without_set : List Text → List Text → List Text
without_set ys [] = []
without_set ys (x ∷ xs) = let rest = without_set ys xs in if contains ys x then rest else x ∷ rest

-- `diffSets`: the streams to add and to remove.
unfoldable pub diff_sets : List Text → List Text → List Text × List Text
diff_sets cur want = (sort (without_set cur want), sort (without_set want cur))

module _ (checksum : Text → ℕ) where
  -- `bucketOf`; the checksum is a uint32, which an int holds.
  unfoldable pub bucket_of : Text → ℤ → ℕ
  bucket_of symbol (negsuc n) = 0
  bucket_of symbol (pos n) = if leb n 1 then 0 else checksum (to_upper symbol) % n

  unfoldable pub id_of : Text → Text → ℤ → Text
  id_of interval symbol shards = shard_id interval (bucket_of symbol shards)

  -- The inner loop of `planStreams`.
  unfoldable pub plan_interval : List Text → Text → ℤ → Map Text (List Text) → Map Text (List Text)
  plan_interval [] interval shards m = m
  plan_interval (symbol ∷ symbols) interval shards m =
      let id = id_of interval symbol shards in
      plan_interval symbols interval shards
        (insert id (add_elem (stream_name symbol interval) (get_set id m)) m)

  unfoldable pub plan_intervals :
      List Text → List Text → ℤ → Map Text (List Text) → Map Text (List Text)
  unfolding plan_interval
  plan_intervals symbols [] shards m = m
  plan_intervals symbols (interval ∷ intervals) shards m =
      plan_intervals symbols intervals shards (plan_interval symbols interval shards m)

  -- `planStreams`; fewer than one shard are one.
  unfoldable pub plan_streams : List Text → List Text → ℤ → Map Text (List Text)
  unfolding plan_intervals
  plan_streams symbols intervals (negsuc n) = plan_intervals symbols intervals (pos 1) []
  plan_streams symbols intervals (pos n) =
      plan_intervals symbols intervals (if n == 0 then pos 1 else pos n) []
