-- ===== src/Backfill/Sweep.antt =====
-- internal/backfill/sweep.go: the sweeper, which looks for missing bars and asks the backfiller to
-- repair them. Times and durations are nanoseconds since 1970; the query of the archive is a
-- parameter, and so is what the backfiller answers.
pub mod Plan
pub mod Empty
pub mod Outcome
mod Tests
use chomo_syncer_go.Base.{
  ltb, leb, if◌then◌else◌, nat_beq_iff, HasEq, ◌==◌, nat_eq, length, Text, codes, text_beq,
  text_beq_iff, text_eq, Map, lookup, insert, ℤ, or_default, millisecond, second, ℕ, ◌+◌, ◌-◌, ◌*◌,
  ◌/◌, ◌≡◌, ◌↔◌, Bool, true, false, not, ◌&&◌, ◌||◌, Option, none, some, List, [], ◌∷◌, ◌++◌, arith,
}
use chomo_syncer_go.Interval.{parse_interval_atoi}
use chomo_syncer_go.Universe.{sort}
use chomo_syncer_go.Backfill.{Key, key_beq, key_beq_iff, key_eq}
use chomo_syncer_go.Backfill.Requests.{Range, RangeOutcome, RepairResult, Request}
use chomo_syncer_go.Backfill.Requests
use chomo_syncer_go.Backfill.Process.{key_ranges}

pub record SweepConfig : Type 0 where
  pub interval : Text
  pub every : ℤ
  pub window : ℤ
  pub settle : ℤ
  pub first_delay : ℤ
  pub empty_ttl : ℤ
  pub max_ranges : ℤ

-- The settings with their defaults.
pub record Resolved : Type 0 where
  pub interval : Text
  pub every : ℕ
  pub window : ℕ
  pub settle : ℕ
  pub first_delay : ℕ
  pub empty_ttl : ℕ
  pub max_ranges : ℕ

pub record EmptyKey : Type 0 where
  pub sym : Text
  pub from : ℕ

abbrev pub empty_key_beq : EmptyKey → EmptyKey → Bool
empty_key_beq a b = text_beq a.sym b.sym && a.from == b.from

pub empty_key_beq_iff : (a b : EmptyKey) → (empty_key_beq a b ≡ true) ↔ (a ≡ b)
empty_key_beq_iff a b = ground (arith, text_beq_iff a.sym b.sym, nat_beq_iff a.from b.from)

instance abbrev pub empty_key_eq : HasEq EmptyKey
empty_key_eq = record { same = empty_key_beq; same_iff = empty_key_beq_iff }

-- `empty`: the ranges that the exchange had no bars for, with the time until which they are left
-- alone.
pub record Sweeper : Type 0 where
  pub cfg : Resolved
  pub empty : Map EmptyKey ℕ

unfoldable pub or_text : Text → Text → Text
or_text [] def = def
or_text (c ∷ cs) def = c ∷ cs

unfoldable pub resolve : SweepConfig → Resolved
unfolding or_default or_text
resolve c = record {
  interval = or_text c.interval (codes "1m");
  every = or_default c.every (1800 * second);
  window = or_default c.window (86400 * second);
  settle = or_default c.settle (180 * second);
  first_delay = or_default c.first_delay (120 * second);
  empty_ttl = or_default c.empty_ttl (86400 * second);
  max_ranges = or_default c.max_ranges 3000;
}

-- `NewSweeper`: `none` for an interval that is not known.
unfoldable pub new : SweepConfig → Option Sweeper
unfolding resolve
new c = elim (parse_interval_atoi (resolve c).interval) [
  | none ↦ none
  | some dur ↦ some (record { cfg = resolve c; empty = [] })
]

-- `SweepStats`
pub record SweepStats : Type 0 where
  pub found : ℕ
  pub skipped : ℕ
  pub submitted : ℕ
  pub repaired : ℕ
  pub empty : ℕ
  pub failed : ℕ
  pub skipped_keys : ℕ

abbrev pub no_stats : SweepStats
no_stats = record {
  found = 0;
  skipped = 0;
  submitted = 0;
  repaired = 0;
  empty = 0;
  failed = 0;
  skipped_keys = 0;
}

unfoldable pub is_unexpired : ℕ → Option ℕ → Bool
is_unexpired now none = false
is_unexpired now (some exp) = ltb now exp

-- `isEmpty`, at the time `now`
unfoldable pub is_empty : Text → ℕ → ℕ → Map EmptyKey ℕ → Bool
unfolding is_unexpired
is_empty sym from now m =
    is_unexpired now (lookup (record { sym = sym; from = from / millisecond }) m)

unfoldable pub mark_empty : ℕ → Text → ℕ → ℕ → Map EmptyKey ℕ → Map EmptyKey ℕ
mark_empty ttl sym from now m =
    insert (record { sym = sym; from = from / millisecond }) (now + ttl) m

unfoldable pub prune_empty : ℕ → Map EmptyKey ℕ → Map EmptyKey ℕ
prune_empty now [] = []
prune_empty now ((k, exp) ∷ m) =
    let rest = prune_empty now m in if ltb now exp then (k, exp) ∷ rest else rest

-- What a sweep has chosen: the request's keys and ranges, and the counts.
pub record Chosen : Type 0 where
  pub keys : List Key
  pub ranges : Map Key (List Range)
  pub stats : SweepStats

unfoldable pub get_gaps : Text → Map Text (List Range) → List Range
get_gaps sym gaps = elim (lookup sym gaps) [ none ↦ [] | some rs ↦ rs ]

module _ (s : Sweeper) (clock : ℕ → ℕ) where
  -- A range of a symbol; `clock n` is the time at which the n-th is tested.
  unfoldable pub choose : Text → Range → Chosen → Chosen
  unfolding is_empty key_ranges
  choose sym r c =
      let k : Key = record { symbol = sym; interval = s.cfg.interval } in
      let st : SweepStats = record c.stats { found = c.stats.found + 1 } in
      let old = key_ranges k c.ranges in
      if is_empty sym r.from (clock c.stats.found) s.empty
      then record c { stats = record st { skipped = st.skipped + 1 } }
      else if leb s.cfg.max_ranges st.submitted
      then record c { stats = st }
      else record {
        keys = if length old == 0 then c.keys ++ k ∷ [] else c.keys;
        ranges = insert k (old ++ r ∷ []) c.ranges;
        stats = record st { submitted = st.submitted + 1 };
      }

  unfoldable pub choose_ranges : Text → List Range → Chosen → Chosen
  unfolding choose
  choose_ranges sym [] c = c
  choose_ranges sym (r ∷ rs) c = choose_ranges sym rs (choose sym r c)

  unfoldable pub choose_all : List Text → Map Text (List Range) → Chosen → Chosen
  unfolding choose_ranges get_gaps
  choose_all [] gaps c = c
  choose_all (sym ∷ syms) gaps c = choose_all syms gaps (choose_ranges sym (get_gaps sym gaps) c)

symbols_of : Map Text (List Range) → List Text
symbols_of [] = []
symbols_of ((sym, rs) ∷ m) = sym ∷ symbols_of m

unfoldable pub choose_gaps : Sweeper → (ℕ → ℕ) → Map Text (List Range) → Chosen
unfolding choose_all symbols_of
choose_gaps s clock gaps =
    choose_all s clock (sort (symbols_of gaps)) gaps
      (record { keys = []; ranges = []; stats = no_stats })

-- The window of a sweep: it ends at a whole bar before the settle time. A bar divides a day.
unfoldable pub sweep_window : Resolved → ℕ → ℕ → ℕ × ℕ
sweep_window cfg dur start = let to = (start - cfg.settle) / dur * dur in (to - cfg.window, to)

-- An outcome of the repair.
unfoldable pub note_outcome : ℕ → RangeOutcome → Sweeper × SweepStats → Sweeper × SweepStats
unfolding mark_empty
note_outcome start o (s, st) =
    if o.failed
    then (s, record st { failed = st.failed + 1 })
    else if o.fetched == 0
    then (
      record s { empty = mark_empty s.cfg.empty_ttl o.key.symbol o.range.from start s.empty },
      record st { empty = st.empty + 1 },
    )
    else (s, record st { repaired = st.repaired + o.fetched })

unfoldable pub note_outcomes : ℕ → List RangeOutcome → Sweeper × SweepStats → Sweeper × SweepStats
unfolding note_outcome
note_outcomes start [] r = r
note_outcomes start (o ∷ os) r = note_outcomes start os (note_outcome start o r)

-- How a sweep ends; `no_answer` if its context does.
pub data SweepEnd : Type 0 where
  find_error all_ok partial no_answer : SweepEnd

unfoldable pub after_repair :
    ℕ → Sweeper → SweepStats → Option RepairResult → Sweeper × SweepStats × SweepEnd
unfolding note_outcomes
after_repair start s st none = (s, st, no_answer)
after_repair start s st (some res) =
    let r = note_outcomes start res.outcomes (s, record st { skipped_keys = res.skipped_keys }) in
    (r.0, r.1, if ltb 0 r.1.failed || ltb 0 r.1.skipped_keys then partial else all_ok)

-- The request of a sweep; its channel has room for the answer.
unfoldable pub sweep_request : Chosen → ℕ → Request
sweep_request c to = record {
  keys = c.keys;
  since = none;
  until = some to;
  reason = Requests.sweep;
  ranges = some c.ranges;
  result = some (record { id = 0; size = 1 });
  skipped = 0;
}

-- `SweepOnce` at `start`, for an interval of the duration `dur`: `find_gaps` is the query of the
-- archive and `answer` what the backfiller answers.
unfoldable pub sweep_once :
    (ℕ × ℕ → Option (Map Text (List Range)))
    → (Request → Option RepairResult)
    → (ℕ → ℕ)
    → ℕ
    → ℕ
    → Sweeper
    → Sweeper × SweepStats × SweepEnd
unfolding choose_gaps prune_empty after_repair sweep_window sweep_request
sweep_once find_gaps answer clock dur start s =
    let window = sweep_window s.cfg dur start in
    let s' = record s { empty = prune_empty start s.empty } in
    elim (find_gaps window) [
      | none ↦ (s, no_stats, find_error)
      | some gaps ↦
          let c = choose_gaps s' clock gaps in
          if length c.keys == 0
          then (s', c.stats, all_ok)
          else after_repair start s' c.stats (answer (sweep_request c window.1))
    ]
