-- ===== src/Backfill/Process.antt =====
-- internal/backfill/backfill.go: what the runner does for a request: process and processInterval.
-- Times and durations are nanoseconds since 1970, and a time before 1970 is taken as 1970. The
-- queries of the archive, its flush and the fetches are parameters. The fetches of one interval run
-- side by side; their outcomes are listed in the order of the jobs.
pub mod Resume
pub mod Repair
pub mod Whole
mod Tests
use chomo_syncer_go.Base.{
  ltb, if◌then◌else◌, nat_eq, Text, text_eq, Map, lookup, insert, without, minute, ℕ, zero, ◌+◌,
  ◌-◌, ◌*◌, Bool, true, false, not, ◌||◌, Option, none, some, List, [], ◌∷◌, ◌++◌, map, arith,
}
use mathlib.Core.List.{reverse}
use chomo_syncer_go.Bars.{Row, CompactBar, row_to_compact}
use chomo_syncer_go.Backfill.{Key, key_eq}
use chomo_syncer_go.Backfill.Requests.Settings.{ResolvedConfig}
use chomo_syncer_go.Backfill.Requests.{Range, RangeOutcome, Request, repairs}

-- `fetchJob`
pub record FetchJob : Type 0 where
  pub sym : Text
  pub since : ℕ
  pub until : ℕ
  pub rng : Option Range

-- Where a symbol without a bar in the archive starts.
unfoldable pub anchor : ResolvedConfig → ℕ → Option ℕ → ℕ → ℕ
anchor cfg dur since until = elim cfg.cold_start_time [
  | some t ↦ t
  | none ↦ elim since [ some s ↦ s - dur | none ↦ until - cfg.window_size * dur ]
]

-- `sinceFor`, by what the archive holds: the last open time, `none` for the zero time.
unfoldable pub since_for : ResolvedConfig → ℕ → Option ℕ → ℕ → Option (Option ℕ) → ℕ
unfolding anchor
since_for cfg dur since until (some (some last)) = last + dur
since_for cfg dur since until (some none) = anchor cfg dur since until
since_for cfg dur since until none = anchor cfg dur since until

-- The jobs of a request that resumes: one for each symbol that can have a closed bar.
unfoldable pub resume_jobs :
    ResolvedConfig → ℕ → Option ℕ → ℕ → Map Text (Option ℕ) → List Text → List FetchJob
unfolding since_for
resume_jobs cfg dur since until ch_max [] = []
resume_jobs cfg dur since until ch_max (sym ∷ symbols) =
    let s = since_for cfg dur since until (lookup sym ch_max) in
    let rest = resume_jobs cfg dur since until ch_max symbols in
    if ltb until (s + dur)
    then rest
    else record { sym = sym; since = s; until = until; rng = none } ∷ rest

-- The ranges of a symbol, and the jobs of a repair: one for each range.
unfoldable pub ranges_of : Text → Map Text (List Range) → List Range
ranges_of sym m = elim (lookup sym m) [ none ↦ [] | some rs ↦ rs ]

unfoldable pub range_job : Text → Range → FetchJob
range_job sym r = record { sym = sym; since = r.from; until = r.to; rng = some r }

unfoldable pub repair_jobs : Map Text (List Range) → List Text → List FetchJob
unfolding ranges_of range_job
repair_jobs repair [] = []
repair_jobs repair (sym ∷ symbols) =
    map (range_job sym) (ranges_of sym repair) ++ repair_jobs repair symbols

-- What the processing of an interval meets: the last open times, `none` where there is no archive
-- to ask or the query failed; whether the context ends at the n-th fetch; how many bars a fetch got
-- and whether it failed; whether there are an archive and windows to rebuild; whether the flush, or
-- the wait for it, went through; and the last bars of the symbols, ascending.
pub record Exchange (F : Type 0) : Type 0 where
  pub ch_max : Option (Map Text (Option ℕ))
  pub cancelled : ℕ → Bool
  pub fetched : FetchJob → ℕ × Bool
  pub rebuilds : Bool
  pub flushed : Bool
  pub last_bars : List Text → Option (Map Text (List (Row F)))

unfoldable pub outcome_of : Text → FetchJob → ℕ × Bool → List RangeOutcome
outcome_of iv j r = elim j.rng [
  | none ↦ []
  | some rng ↦
      record {
        key = record { symbol = j.sym; interval = iv };
        range = rng;
        fetched = r.0;
        failed = r.1;
      }
      ∷ []
]

-- The loop of fetches, from the n-th on: the outcomes, and whether the context ended it.
unfoldable pub fetch_jobs :
    (ℕ → Bool) → (FetchJob → ℕ × Bool) → Text → ℕ → List FetchJob → List RangeOutcome × Bool
unfolding outcome_of
fetch_jobs cancelled fetched iv n [] = ([], false)
fetch_jobs cancelled fetched iv n (j ∷ js) =
    let rest = fetch_jobs cancelled fetched iv (n + 1) js in
    if cancelled n then ([], true) else (outcome_of iv j (fetched j) ++ rest.0, rest.1)

-- The symbols whose repaired ranges reach into the window.
reaches : ℕ → List Range → Bool
reaches window_start [] = false
reaches window_start (r ∷ rs) = ltb window_start r.to || reaches window_start rs

unfoldable pub touched : ℕ → Map Text (List Range) → List Text → List Text
unfolding ranges_of reaches
touched window_start repair [] = []
touched window_start repair (sym ∷ symbols) =
    let rest = touched window_start repair symbols in
    if reaches window_start (ranges_of sym repair) then sym ∷ rest else rest

module _ {F : Type 0} where
  rows_of : Text → Map Text (List (Row F)) → List (Row F)
  rows_of sym m = elim (lookup sym m) [ none ↦ [] | some rows ↦ rows ]

  -- The calls of `RebuildWindow`: the bars of each symbol, newest first.
  unfoldable pub windows : Map Text (List (Row F)) → List Text → List (Text × List (CompactBar F))
  unfolding rows_of
  windows last [] = []
  windows last (sym ∷ symbols) =
      (sym, map row_to_compact (reverse (rows_of sym last))) ∷ windows last symbols

  unfoldable pub rebuild : Exchange F → List Text → List (Text × List (CompactBar F))
  unfolding windows
  rebuild ex [] = []
  rebuild ex (sym ∷ symbols) = elim (ex.last_bars (sym ∷ symbols)) [
    | none ↦ []
    | some last ↦ windows last (sym ∷ symbols)
  ]

-- The symbols whose windows are rebuilt: in a repair, those that it touched.
unfoldable pub to_rebuild :
    ResolvedConfig → ℕ → ℕ → Option (Map Text (List Range)) → List Text → List Text
unfolding touched
to_rebuild cfg dur until none symbols = symbols
to_rebuild cfg dur until (some repair) symbols =
    touched (until - cfg.window_size * dur) repair symbols

unfoldable pub jobs_of :
    ResolvedConfig
    → ℕ
    → Option ℕ
    → ℕ
    → Option (Map Text (List Range))
    → Option (Map Text (Option ℕ))
    → List Text
    → List FetchJob
unfolding repair_jobs resume_jobs
jobs_of cfg dur since until (some repair) ch_max symbols = repair_jobs repair symbols
jobs_of cfg dur since until none none symbols = resume_jobs cfg dur since until [] symbols
jobs_of cfg dur since until none (some m) symbols = resume_jobs cfg dur since until m symbols

-- `processInterval`, for an interval of the duration `dur`: the outcomes and the windows rebuilt.
unfoldable pub process_interval :
    {F : Type 0}
    → ResolvedConfig
    → Exchange F
    → ℕ
    → Text
    → List Text
    → Option ℕ
    → ℕ
    → Option (Map Text (List Range))
    → List RangeOutcome × List (Text × List (CompactBar F))
unfolding jobs_of fetch_jobs rebuild to_rebuild
process_interval cfg ex dur iv symbols since until repair =
    let r =
      fetch_jobs ex.cancelled ex.fetched iv 0
        (jobs_of cfg dur since until repair ex.ch_max symbols) in
    (
      r.0,
      if r.1 || not ex.rebuilds || not ex.flushed
          then []
          else rebuild ex (to_rebuild cfg dur until repair symbols),
    )

-- `byIv`
unfoldable pub symbols_in : Text → Map Text (List Text) → List Text
symbols_in iv m = elim (lookup iv m) [ none ↦ [] | some symbols ↦ symbols ]

unfoldable pub by_interval : List Key → Map Text (List Text) → Map Text (List Text)
unfolding symbols_in
by_interval [] m = m
by_interval (k ∷ ks) m =
    by_interval ks (insert k.interval (symbols_in k.interval m ++ k.symbol ∷ []) m)

-- The ranges of the symbols of one interval.
unfoldable pub key_ranges : Key → Map Key (List Range) → List Range
key_ranges k m = elim (lookup k m) [ none ↦ [] | some rs ↦ rs ]

unfoldable pub repair_of : Text → Map Key (List Range) → List Text → Map Text (List Range)
unfolding key_ranges
repair_of iv ranges [] = []
repair_of iv ranges (sym ∷ symbols) =
    insert sym (key_ranges (record { symbol = sym; interval = iv }) ranges)
      (repair_of iv ranges symbols)

unfoldable pub repair_option :
    Text → Option (Map Key (List Range)) → List Text → Option (Map Text (List Range))
unfolding repair_of
repair_option iv none symbols = none
repair_option iv (some ranges) symbols = some (repair_of iv ranges symbols)

module _ {F : Type 0} (cfg : ResolvedConfig) (ex : Text → Exchange F) (dur : Text → ℕ) where
  -- The loop over the intervals; `dur` is the duration of an interval, a minute if it is not known.
  unfoldable pub process_intervals :
      Option ℕ
      → ℕ
      → Option (Map Key (List Range))
      → Map Text (List Text)
      → List RangeOutcome × List (Text × List (CompactBar F))
  unfolding process_interval repair_option
  process_intervals since until ranges [] = ([], [])
  process_intervals since until ranges ((iv, symbols) ∷ rest) =
      let r =
        process_interval cfg (ex iv) (dur iv) iv symbols since until
          (repair_option iv ranges symbols) in
      let others = process_intervals since until ranges rest in (r.0 ++ others.0, r.1 ++ others.1)

  -- `process`, at the time `now`: the outcomes that it delivers and the windows that it rebuilds.
  unfoldable pub process : Request → ℕ → List RangeOutcome × List (Text × List (CompactBar F))
  unfolding process_intervals by_interval
  process req now =
      process_intervals req.since (elim req.until [ none ↦ now | some t ↦ t ]) req.ranges
        (by_interval req.keys [])
