-- ===== src/OpenInterest/Plan.antt =====
-- internal/openinterest/hist.go: planJobs, which symbols a pass asks for and how far back.
pub mod Windows
pub mod Covers
mod Tests
use chomo_syncer_go.Base.{
  ltb, leb, if◌then◌else◌, nat_eq, length, Text, text_eq, Map, lookup, without, second, ℕ, ◌+◌, ◌-◌,
  ◌*◌, ◌/◌, max, Bool, true, false, not, ◌&&◌, Option, none, some, List, [], ◌∷◌, arith,
}
use chomo_syncer_go.OpenInterest.{floor_bar, newest_published_start}
use chomo_syncer_go.OpenInterest.Settings.{Hist}
use chomo_syncer_go.OpenInterest.Pages.{HistJob}

-- `PassStats`, less its duration
pub record PassStats : Type 0 where
  pub symbols : ℕ
  pub skipped : ℕ
  pub fetched : ℕ
  pub failed : ℕ
  pub rows : ℕ
  pub beyond_cap : ℕ
  pub committed : Bool
  pub cold_start : ℕ
  pub live_gap_bar : ℕ

-- The moments that one call of `planJobs` computes.
pub record Moments : Type 0 where
  pub floor_now : ℕ
  pub target : ℕ
  pub cap_start : ℕ
  pub page_start : ℕ

unfoldable pub moments : Hist → ℕ → Moments
unfolding floor_bar newest_published_start
moments cfg now = record {
  floor_now = floor_bar now;
  target = newest_published_start now cfg.publish_lag;
  cap_start = floor_bar (now - cfg.max_backfill);
  page_start = floor_bar now - max (cfg.max_limit - cfg.limit_margin) 1 * (300 * second);
}

-- The oldest bar to ask for, before the cap; `none` for a symbol that is up to date.
unfoldable pub since_of : Hist → Bool → Moments → Option ℕ → Option ℕ
since_of cfg full m none = some (m.floor_now - cfg.cold_start_window)
since_of cfg full m (some lh) = if not full && leb m.target lh then none else some lh

-- The full pass widens the window to a page; the cap cuts it.
unfoldable pub widen : Bool → Moments → ℕ → ℕ
widen full m since = if full && ltb m.page_start since then m.page_start else since

unfoldable pub cut : Moments → ℕ → ℕ
cut m since = if ltb since m.cap_start then m.cap_start else since

unfoldable pub job_of : Bool → Moments → Text → Bool → ℕ → HistJob
unfolding widen cut
job_of full m symbol fresh since =
    let from = cut m (widen full m since) in
    record {
      symbol = symbol;
      since = from;
      needed = (m.floor_now - from) / (300 * second);
      fresh = fresh;
    }

is_none : {A : Type 0} → Option A → Bool
is_none none = true
is_none (some a) = false

bit : Bool → ℕ
bit true = 1
bit false = 0

-- The end of an iteration: a window without a whole bar is skipped.
keep_job : HistJob → List HistJob × PassStats → List HistJob × PassStats
keep_job j (jobs, st) =
    if ltb j.needed 1 then (jobs, record st { skipped = st.skipped + 1 }) else (j ∷ jobs, st)

counted : Bool → Bool → List HistJob × PassStats → List HistJob × PassStats
unfolding bit
counted fresh beyond (jobs, st) = (
  jobs,
  record st { cold_start = st.cold_start + bit fresh; beyond_cap = st.beyond_cap + bit beyond },
)

plan_since :
    Bool → Moments → Text → Bool → Option ℕ → List HistJob × PassStats → List HistJob × PassStats
unfolding job_of keep_job counted
plan_since full m symbol fresh none (jobs, st) = (jobs, record st { skipped = st.skipped + 1 })
plan_since full m symbol fresh (some since) r =
    keep_job (job_of full m symbol fresh since) (counted fresh (ltb since m.cap_start) r)

-- The loop over the symbols; the counts do not depend on its order.
unfoldable pub plan_all :
    Hist
    → Bool
    → Moments
    → Map Text ℕ
    → List Text
    → List HistJob × PassStats
    → List HistJob × PassStats
unfolding since_of plan_since is_none
plan_all cfg full m last [] r = r
plan_all cfg full m last (s ∷ syms) r =
    plan_since full m s (is_none (lookup s last)) (since_of cfg full m (lookup s last))
      (plan_all cfg full m last syms r)

-- `sort.SliceStable`, the biggest gaps first
unfoldable pub insert_job : HistJob → List HistJob → List HistJob
insert_job j [] = j ∷ []
insert_job j (k ∷ ks) =
    let rest = insert_job j ks in if ltb j.needed k.needed then k ∷ rest else j ∷ k ∷ ks

unfoldable pub sort_jobs : List HistJob → List HistJob
unfolding insert_job
sort_jobs [] = []
sort_jobs (j ∷ js) = insert_job j (sort_jobs js)

abbrev pub no_stats : ℕ → PassStats
no_stats n = record {
  symbols = n;
  skipped = 0;
  fetched = 0;
  failed = 0;
  rows = 0;
  beyond_cap = 0;
  committed = false;
  cold_start = 0;
  live_gap_bar = 0;
}

sorted : List HistJob × PassStats → List HistJob × PassStats
unfolding sort_jobs
sorted (jobs, st) = (sort_jobs jobs, st)

-- `planJobs`
unfoldable pub plan_jobs : Hist → List Text → Map Text ℕ → ℕ → Bool → List HistJob × PassStats
unfolding plan_all moments sorted
plan_jobs cfg syms last now full =
    sorted (plan_all cfg full (moments cfg now) last syms ([], no_stats (length syms)))
