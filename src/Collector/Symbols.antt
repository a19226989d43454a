-- ===== src/Collector/Symbols.antt =====
-- internal/collector/collector.go: SetSymbols, which gives each shard its streams. The stagger of
-- new shards is left out, and a shard that is no longer wanted stops on its own.
use chomo_syncer_go.Base.{
  if◌then◌else◌, Bool-cases, ◌==◌, nat_eq, Text, text_beq, text_beq_iff, text_eq, Map, lookup,
  insert, Distinct, lookup-insert, insert-Distinct, contains, add_elem, ℤ, ℕ, ◌<◌, ◌≡◌, refl, ap,
  subst, ◌∙◌, inl, inr, Bool, true, false, ◌||◌, Option, none, some, List, [], ◌∷◌, arith, pos,
}
use chomo_syncer_go.Sharding.{
  get_set, plan_interval, plan_intervals, plan_streams, id_of, stream_name,
}
use chomo_syncer_go.Sharding.Plan.{assigned, contains-plan_streams}
use chomo_syncer_go.Collector.{ResolvedConfig, Shard, new, set_desired}

-- The shard of an id after the plan gives it these streams.
unfoldable pub renewed : ResolvedConfig → List Text → Option Shard → Shard
renewed cfg streams none = new cfg streams
renewed cfg streams (some sh) = set_desired streams sh

-- The first loop of `SetSymbols`.
unfoldable pub renew_shards :
    ResolvedConfig → Map Text (List Text) → Map Text Shard → Map Text Shard
unfolding renewed
renew_shards cfg [] shards = shards
renew_shards cfg ((id, streams) ∷ rest) shards =
    renew_shards cfg rest (insert id (renewed cfg streams (lookup id shards)) shards)

unfoldable pub is_there : {A : Type 0} → Option A → Bool
is_there none = false
is_there (some a) = true

-- The second loop: the shards whose buckets are empty are dropped.
unfoldable pub keep_shards : Map Text (List Text) → Map Text Shard → Map Text Shard
unfolding is_there
keep_shards desired [] = []
keep_shards desired ((id, sh) ∷ shards) =
    let rest = keep_shards desired shards in
    if is_there (lookup id desired) then (id, sh) ∷ rest else rest

unfoldable pub set_symbols :
    (Text → ℕ) → ResolvedConfig → List Text → Bool → Map Text Shard → Map Text Shard
unfolding renew_shards keep_shards
set_symbols checksum cfg symbols closed shards =
    let desired = plan_streams checksum symbols cfg.intervals (pos cfg.shards_per_interval) in
    if closed then shards else keep_shards desired (renew_shards cfg desired shards)

-- The streams that the shard of an id wants, none if there is no shard.
unfoldable pub wanted_by : Option Shard → List Text
wanted_by none = []
wanted_by (some sh) = sh.desired

unfoldable or_set : Option (List Text) → List Text → List Text
or_set none old = old
or_set (some s) old = s

wanted_by-renewed :
    (cfg : ResolvedConfig) (streams : List Text) (o : Option Shard)
    → wanted_by (some (renewed cfg streams o)) ≡ streams
unfolding wanted_by renewed new set_desired
wanted_by-renewed cfg streams none = refl
wanted_by-renewed cfg streams (some sh) = refl

lookup-renew_shards :
    (cfg : ResolvedConfig) (desired : Map Text (List Text)) (shards : Map Text Shard) (id : Text)
    → Distinct desired
    → (wanted_by (lookup id (renew_shards cfg desired shards))
        ≡ or_set (lookup id desired) (wanted_by (lookup id shards)))
      × (is_there (lookup id (renew_shards cfg desired shards))
          ≡ (is_there (lookup id desired) || is_there (lookup id shards)))
unfolding renew_shards or_set is_there lookup
lookup-renew_shards cfg [] shards id d = (refl, refl)
lookup-renew_shards cfg ((i, streams) ∷ rest) shards id (n, d) =
    let sh : Shard = renewed cfg streams (lookup i shards) in
    let later = lookup-renew_shards cfg rest (insert i sh shards) id d in
    elim (Bool-cases (text_beq i id)) [
      | inl y ↦
          let got : lookup id (insert i sh shards) ≡ some sh =
            lookup-insert i id sh shards ∙ rw y refl in
          let last : lookup id rest ≡ none =
            subst (λ j. lookup j rest ≡ none) ((text_beq_iff i id).0 y) n in
          rw y (
            later.0
                ∙ ap (λ o. or_set o (wanted_by (lookup id (insert i sh shards)))) last
                ∙ ap wanted_by got
                ∙ wanted_by-renewed cfg streams (lookup i shards),
            later.1
                ∙ ap (λ o. is_there o || is_there (lookup id (insert i sh shards))) last
                ∙ ap is_there got,
          )
      | inr ne ↦
          let got : lookup id (insert i sh shards) ≡ lookup id shards =
            lookup-insert i id sh shards ∙ rw ne refl in
          rw ne (
            later.0 ∙ ap (λ o. or_set (lookup id rest) (wanted_by o)) got,
            later.1 ∙ ap (λ o. is_there (lookup id rest) || is_there o) got,
          )
    ]

lookup-keep_shards :
    (desired : Map Text (List Text)) (shards : Map Text Shard) (id : Text)
    → lookup id (keep_shards desired shards)
      ≡ (if is_there (lookup id desired) then lookup id shards else none)
unfolding keep_shards lookup
lookup-keep_shards desired [] id = ground arith
lookup-keep_shards desired ((i, sh) ∷ shards) id = elim (Bool-cases (text_beq i id)) [
  | inl y ↦
      let there : is_there (lookup i desired) ≡ is_there (lookup id desired) =
        ap (λ j. is_there (lookup j desired)) ((text_beq_iff i id).0 y) in
      ground (arith, y, there, lookup-keep_shards desired shards id)
  | inr n ↦ ground (arith, n, lookup-keep_shards desired shards id)
]

plan_interval-Distinct :
    (checksum : Text → ℕ) (symbols : List Text) (interval : Text) (n : ℤ) (m : Map Text (List Text))
    → Distinct m
    → Distinct (plan_interval checksum symbols interval n m)
unfolding plan_interval
plan_interval-Distinct checksum [] interval n m d = d
plan_interval-Distinct checksum (symbol ∷ symbols) interval n m d =
    let id : Text = id_of checksum interval symbol n in
    let streams : List Text = add_elem (stream_name symbol interval) (get_set id m) in
    plan_interval-Distinct checksum symbols interval n (insert id streams m)
      (insert-Distinct id streams m d)

plan_intervals-Distinct :
    (checksum : Text → ℕ) (symbols intervals : List Text) (n : ℤ) (m : Map Text (List Text))
    → Distinct m
    → Distinct (plan_intervals checksum symbols intervals n m)
unfolding plan_intervals
plan_intervals-Distinct checksum symbols [] n m d = d
plan_intervals-Distinct checksum symbols (interval ∷ intervals) n m d =
    plan_intervals-Distinct checksum symbols intervals n
      (plan_interval checksum symbols interval n m)
      (plan_interval-Distinct checksum symbols interval n m d)

plan_streams-Distinct :
    (checksum : Text → ℕ) (symbols intervals : List Text) (n : ℕ)
    → Distinct (plan_streams checksum symbols intervals (pos n))
unfolding plan_streams
plan_streams-Distinct checksum symbols intervals n =
    plan_intervals-Distinct checksum symbols intervals (if n == 0 then pos 1 else pos n) [] tt

-- The streams of a shard that was looked up in the plan, or of none.
wanted_by-kept :
    (o : Option (List Text)) (old : List Text) (found kept : Option Shard)
    → wanted_by found ≡ or_set o old
    → kept ≡ (if is_there o then found else none)
    → wanted_by kept ≡ elim o [ none ↦ [] | some s ↦ s ]
unfolding wanted_by or_set is_there
wanted_by-kept none old found kept h e = ap wanted_by e
wanted_by-kept (some s) old found kept h e = ap wanted_by e ∙ h

-- After a refresh of the universe each shard wants what the plan gives it: for any shards that
-- there were, while the collector is not closed, a stream is wanted by the shard of an id exactly
-- if it is the stream of some symbol and interval whose bucket names that shard.
pub set_symbols-wanted :
    (checksum : Text → ℕ) (cfg : ResolvedConfig) (symbols : List Text) (shards : Map Text Shard)
    (id s : Text)
    → 0 < cfg.shards_per_interval
    → contains (wanted_by (lookup id (set_symbols checksum cfg symbols false shards))) s
      ≡ assigned checksum (pos cfg.shards_per_interval) id s symbols cfg.intervals
unfolding set_symbols get_set
set_symbols-wanted checksum cfg symbols shards id s h =
    let plan : Map Text (List Text) =
      plan_streams checksum symbols cfg.intervals (pos cfg.shards_per_interval) in
    let renewal =
      lookup-renew_shards cfg plan shards id
        (plan_streams-Distinct checksum symbols cfg.intervals cfg.shards_per_interval) in
    ap (λ streams. contains streams s)
      (wanted_by-kept (lookup id plan) (wanted_by (lookup id shards))
        (lookup id (renew_shards cfg plan shards))
        (lookup id (keep_shards plan (renew_shards cfg plan shards))) renewal.0
        (lookup-keep_shards plan (renew_shards cfg plan shards) id))
    ∙ contains-plan_streams checksum symbols cfg.intervals cfg.shards_per_interval id s h
