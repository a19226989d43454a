-- ===== src/Sharding/Plan.antt =====
-- internal/collector/sharding.go: what the plan contains, and what applying a difference gives.
use chomo_syncer_go.Base.{
  ◌==◌, nat_eq, Text, text_beq_iff, text_eq, Map, lookup, insert, lookup-insert, contains, add_elem,
  contains-add_elem, ℤ, ℕ, ◌<◌, ◌≡◌, refl, ◌∙◌, Bool, false, not, ◌&&◌, ◌||◌, List, [], ◌∷◌, arith,
  pos,
}
use chomo_syncer_go.Universe.Members.{contains-sort}
use chomo_syncer_go.Sharding.{
  stream_name, get_set, without_set, diff_sets, id_of, plan_interval, plan_intervals, plan_streams,
}

contains-without_set :
    (ys xs : List Text) (s : Text)
    → contains (without_set ys xs) s ≡ (contains xs s && not (contains ys s))
unfolding contains without_set
contains-without_set ys [] s = refl
contains-without_set ys (x ∷ xs) s = ground (arith, contains-without_set ys xs s, text_beq_iff x s)

-- The streams to add are the wanted ones that are not current, those to remove the current ones
-- that are not wanted, and a subscription that makes both changes carries exactly the wanted
-- streams.
pub diff_sets-apply :
    (cur want : List Text) (s : Text)
    → let d = diff_sets cur want in
      (contains d.0 s ≡ (contains want s && not (contains cur s)))
      × (contains d.1 s ≡ (contains cur s && not (contains want s)))
      × (((contains cur s || contains d.0 s) && not (contains d.1 s)) ≡ contains want s)
unfolding diff_sets
diff_sets-apply cur want s =
    let add = contains-sort (without_set cur want) s ∙ contains-without_set cur want s in
    let remove = contains-sort (without_set want cur) s ∙ contains-without_set want cur s in
    (add, remove, rw (add, remove) (ground arith))

module _ (checksum : Text → ℕ) (shards : ℤ) (id s : Text) where
  -- Whether the stream `s` of some symbol, and then of some interval, is to be carried by `id`.
  unfoldable pub assigned_in : Text → List Text → Bool
  assigned_in interval [] = false
  assigned_in interval (symbol ∷ symbols) =
      (id_of checksum interval symbol shards == id && stream_name symbol interval == s)
      || assigned_in interval symbols

  unfoldable pub assigned : List Text → List Text → Bool
  assigned symbols [] = false
  assigned symbols (interval ∷ intervals) =
      assigned_in interval symbols || assigned symbols intervals

  contains-plan_interval :
      (symbols : List Text) (interval : Text) (m : Map Text (List Text))
      → contains (get_set id (plan_interval checksum symbols interval shards m)) s
        ≡ (contains (get_set id m) s || assigned_in interval symbols)
  unfolding plan_interval assigned_in get_set
  contains-plan_interval [] interval m = ground arith
  contains-plan_interval (symbol ∷ symbols) interval m =
      let k : Text = id_of checksum interval symbol shards in
      let new : List Text = add_elem (stream_name symbol interval) (get_set k m) in
      ground (
        arith,
        contains-plan_interval symbols interval (insert k new m),
        lookup-insert k id new m,
        contains-add_elem (stream_name symbol interval) s (get_set k m),
        text_beq_iff k id,
      )

  contains-plan_intervals :
      (symbols intervals : List Text) (m : Map Text (List Text))
      → contains (get_set id (plan_intervals checksum symbols intervals shards m)) s
        ≡ (contains (get_set id m) s || assigned symbols intervals)
  unfolding plan_intervals assigned
  contains-plan_intervals symbols [] m = ground arith
  contains-plan_intervals symbols (interval ∷ intervals) m = ground (
    arith,
    contains-plan_intervals symbols intervals (plan_interval checksum symbols interval shards m),
    contains-plan_interval symbols interval m,
  )

-- With a positive number of shards, a shard carries a stream exactly if it is the stream of some
-- symbol and interval whose bucket names that shard.
pub contains-plan_streams :
    (checksum : Text → ℕ) (symbols intervals : List Text) (n : ℕ) (id s : Text)
    → 0 < n
    → contains (get_set id (plan_streams checksum symbols intervals (pos n))) s
      ≡ assigned checksum (pos n) id s symbols intervals
unfolding plan_streams contains get_set lookup
contains-plan_streams checksum symbols intervals n id s h =
    ground (arith, contains-plan_intervals checksum (pos n) id s symbols intervals [])
