-- ===== src/OpenInterest/Pass.antt =====
-- internal/openinterest/hist.go: a pass of the reconciler, which the one of the long/short ratios
-- repeats. The workers fetch one symbol each; their results are taken in the order of the jobs,
-- which only the order of the pushed rows can show. The context ends before the retry, before the
-- flush, or not at all.
pub mod Commit
pub mod NoHole
mod Tests
use chomo_syncer_go.Base.{
  ltb, leb, if◌then◌else◌, ◌==◌, nat_eq, length, Text, text_eq, Map, lookup, insert, contains,
  second, ℕ, zero, suc, ◌+◌, Bool, true, false, not, ◌&&◌, ◌||◌, Option, none, some, List, [], ◌∷◌,
  ◌++◌, map, arith,
}
use chomo_syncer_go.OpenInterest.{newest_published_start}
use chomo_syncer_go.OpenInterest.Settings.{Hist}
use chomo_syncer_go.OpenInterest.Pages.{
  HistJob, Emitted, Ended, finished, delisted, request_failed, push_failed, unterminated,
}
use chomo_syncer_go.OpenInterest.Plan.{PassStats, plan_jobs}
use chomo_syncer_go.OpenInterest.{Row}

-- `jobResult`, with the rows that were pushed.
pub record Fetched (R : Type 0) : Type 0 where
  pub pushed : List R
  pub rows : ℕ
  pub newest : ℕ
  pub gaps : ℕ
  pub failed : Bool

unfoldable pub is_failure : Ended → Bool
is_failure finished = false
is_failure delisted = false
is_failure request_failed = true
is_failure push_failed = true
is_failure unterminated = true

unfoldable pub fetched_of : {F : Type 0} → Emitted F × Ended → Fetched (Row F)
unfolding is_failure
fetched_of (e, end) = record {
  pushed = e.pushed;
  rows = e.rows;
  newest = e.newest;
  gaps = e.gaps;
  failed = is_failure end;
}

-- What the workers share in `runHistJobs`, and the rows pushed so far.
pub record Results (R : Type 0) : Type 0 where
  pub out : Map Text (Fetched R)
  pub failed : List HistJob
  pub pushed : List R

unfoldable pub start_or_zero : Option ℕ → ℕ
start_or_zero none = 0
start_or_zero (some t) = t

unfoldable pub advance : Bool → Text → ℕ → Map Text ℕ → Map Text ℕ
unfolding start_or_zero
advance committed symbol newest last =
    if committed && (not (newest == 0) && ltb (start_or_zero (lookup symbol last)) newest)
    then insert symbol newest last
    else last

module _ {R : Type 0} where
  unfoldable pub store_by : Bool → HistJob → Fetched R → Results R → Results R
  store_by true j f r = record r { failed = r.failed ++ j ∷ []; pushed = r.pushed ++ f.pushed }
  store_by false j f r = record r { out = insert j.symbol f r.out; pushed = r.pushed ++ f.pushed }

  unfoldable pub store_result : HistJob → Fetched R → Results R → Results R
  unfolding store_by
  store_result j f r = store_by f.failed j f r

  -- `runHistJobs`
  unfoldable pub run_jobs : (HistJob → Fetched R) → List HistJob → Results R → Results R
  unfolding store_result
  run_jobs fetch [] r = r
  run_jobs fetch (j ∷ js) r = run_jobs fetch js (store_result j (fetch j) r)

  -- The failed jobs are tried once more.
  unfoldable pub retry : Bool → (HistJob → Fetched R) → Results R → Results R
  unfolding run_jobs
  retry ended fetch r =
      if length r.failed == 0 || ended
      then r
      else run_jobs fetch r.failed (record r { failed = [] })

  unfoldable pub no_results : Results R
  no_results = record { out = []; failed = []; pushed = [] }

  -- A result that is not there is the zero value.
  unfoldable pub result_or_zero : Option (Fetched R) → Fetched R
  result_or_zero none = record { pushed = []; rows = 0; newest = 0; gaps = 0; failed = false }
  result_or_zero (some f) = f

  unfoldable pub commit_job :
      Bool → Results R → HistJob → Map Text ℕ × PassStats → Map Text ℕ × PassStats
  unfolding advance result_or_zero
  commit_job committed r j (last, st) =
      if contains (map (λ k. k.symbol) r.failed) j.symbol
      then (last, record st { failed = st.failed + 1 })
      else let res = result_or_zero (lookup j.symbol r.out) in
        (
          advance committed j.symbol res.newest last,
          record st {
            fetched = st.fetched + 1;
            rows = st.rows + res.rows;
            live_gap_bar = st.live_gap_bar + res.gaps;
          },
        )

  unfoldable pub commit_all :
      Bool → Results R → List HistJob → Map Text ℕ × PassStats → Map Text ℕ × PassStats
  unfolding commit_job
  commit_all committed r [] s = s
  commit_all committed r (j ∷ js) s = commit_all committed r js (commit_job committed r j s)

-- What a pass leaves: the calibrated bars, its account, the rows that it pushed, and whether its
-- context ended.
pub record Passed (R : Type 0) : Type 0 where
  pub last : Map Text ℕ
  pub stats : PassStats
  pub pushed : List R
  pub cut_short : Bool

-- The surroundings of a pass: what fetching a job yields at the first and at the second attempt,
-- whether the context has ended before the retry and before the flush, and whether the flush fails,
-- if the sink has one.
pub record World (R : Type 0) : Type 0 where
  pub fetch : ℕ → HistJob → Fetched R
  pub ended_early : Bool
  pub ended : Bool
  pub flush_failed : Option Bool

unfoldable pub is_committed : Option Bool → Bool
is_committed none = true
is_committed (some failed) = not failed

module _ {R : Type 0} where
  unfoldable pub fetch_all : World R → List HistJob → Results R
  unfolding run_jobs retry no_results
  fetch_all w jobs = retry w.ended_early (w.fetch 1) (run_jobs (w.fetch 0) jobs no_results)

  passed : Bool → List R → Map Text ℕ × PassStats → Passed R
  passed committed pushed (last, st) = record {
    last = last;
    stats = record st { committed = committed };
    pushed = pushed;
    cut_short = false;
  }

  finish : World R → Map Text ℕ → List HistJob × PassStats → Passed R
  unfolding fetch_all commit_all passed is_committed
  finish w last (jobs, st) =
      let r = fetch_all w jobs in
      let committed = is_committed w.flush_failed in
      if w.ended
      then record { last = last; stats = st; pushed = r.pushed; cut_short = true }
      else passed committed r.pushed (commit_all committed r jobs (last, st))

  -- `pass`
  unfoldable pub pass : World R → Hist → List Text → Map Text ℕ → ℕ → Bool → Passed R
  unfolding finish
  pass w cfg syms last now full = finish w last (plan_jobs cfg syms last now full)

-- The share of `crossSection`: how many symbols have the newest published bar.
unfoldable pub current : ℕ → Map Text ℕ → List Text → ℕ
current target last [] = 0
current target last (s ∷ syms) =
    let rest = current target last syms in
    elim (lookup s last) [ none ↦ rest | some lh ↦ if leb target lh then suc rest else rest ]

-- What `LastStarts` says of a symbol; 0 is no such row.
pub record LastStarts : Type 0 where
  pub any : ℕ
  pub hist : ℕ

load_one : Text → Option LastStarts → Map Text ℕ → Map Text ℕ
load_one s none last = last
load_one s (some ls) last = if ls.hist == 0 then last else insert s ls.hist last

-- `LoadState`, once the query has succeeded
unfoldable pub load_state : List Text → (Text → Option LastStarts) → Map Text ℕ → Map Text ℕ
unfolding load_one
load_state [] got last = last
load_state (s ∷ syms) got last = load_state syms got (load_one s (got s) last)
