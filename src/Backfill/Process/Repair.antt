-- ===== src/Backfill/Process/Repair.antt =====
-- internal/backfill/backfill.go: a repair fetches the ranges that it is asked for, each once, and
-- reports each.
use chomo_syncer_go.Base.{
  nat_eq, Text, text_eq, Map, ℕ, ◌+◌, ◌≡◌, refl, ap, Bool, true, false, Option, some, List, [], ◌∷◌,
  ◌++◌, map,
}
use chomo_syncer_go.Backfill.Requests.Settings.{ResolvedConfig}
use chomo_syncer_go.Backfill.Requests.{Range, RangeOutcome}
use chomo_syncer_go.Backfill.Process.{
  FetchJob, ranges_of, range_job, repair_jobs, Exchange, outcome_of, fetch_jobs, jobs_of,
  process_interval,
}

-- What is reported for a range.
abbrev pub report : (FetchJob → ℕ × Bool) → Text → Text → Range → RangeOutcome
report fetched iv symbol r = record {
  key = record { symbol = symbol; interval = iv };
  range = r;
  fetched = (fetched (range_job symbol r)).0;
  failed = (fetched (range_job symbol r)).1;
}

-- The reports of all ranges, by symbol.
unfoldable pub reports :
    (FetchJob → ℕ × Bool) → Text → Map Text (List Range) → List Text → List RangeOutcome
unfolding ranges_of
reports fetched iv repair [] = []
reports fetched iv repair (symbol ∷ symbols) =
    map (report fetched iv symbol) (ranges_of symbol repair) ++ reports fetched iv repair symbols

module _ (cancelled : ℕ → Bool) (fetched : FetchJob → ℕ × Bool) (iv : Text)
    (never : (n : ℕ) → cancelled n ≡ false) where
  fetch_jobs-ranges :
      (n : ℕ) (symbol : Text) (rs : List Range) (js : List FetchJob) (os : List RangeOutcome)
      → ((m : ℕ) → fetch_jobs cancelled fetched iv m js ≡ (os, false))
      → fetch_jobs cancelled fetched iv n (map (range_job symbol) rs ++ js)
        ≡ (map (report fetched iv symbol) rs ++ os, false)
  unfolding fetch_jobs outcome_of range_job
  fetch_jobs-ranges n symbol [] js os h = h n
  fetch_jobs-ranges n symbol (r ∷ rs) js os h =
      rw (never n, fetch_jobs-ranges (n + 1) symbol rs js os h) refl

  fetch_jobs-repair_jobs :
      (n : ℕ) (repair : Map Text (List Range)) (symbols : List Text)
      → fetch_jobs cancelled fetched iv n (repair_jobs repair symbols)
        ≡ (reports fetched iv repair symbols, false)
  unfolding repair_jobs reports fetch_jobs
  fetch_jobs-repair_jobs n repair [] = refl
  fetch_jobs-repair_jobs n repair (symbol ∷ symbols) =
      fetch_jobs-ranges n symbol (ranges_of symbol repair) (repair_jobs repair symbols)
        (reports fetched iv repair symbols) (λ m. fetch_jobs-repair_jobs m repair symbols)

-- A repair is exact: where its context does not end, the runner fetches for each symbol exactly its
-- ranges, each once and in order, and reports for each how many bars it got and whether it failed.
pub process_interval-reports :
    {F : Type 0} (cfg : ResolvedConfig) (ex : Exchange F) (dur : ℕ) (iv : Text)
    (symbols : List Text) (since : Option ℕ) (until : ℕ) (repair : Map Text (List Range))
    → ((n : ℕ) → ex.cancelled n ≡ false)
    → (process_interval cfg ex dur iv symbols since until (some repair)).0
      ≡ reports ex.fetched iv repair symbols
unfolding process_interval jobs_of
process_interval-reports cfg ex dur iv symbols since until repair never =
    ap (λ r. r.0) (fetch_jobs-repair_jobs ex.cancelled ex.fetched iv never 0 repair symbols)

fetch_jobs-cancelled :
    (cancelled : ℕ → Bool) (fetched : FetchJob → ℕ × Bool) (iv : Text) (n : ℕ) (js : List FetchJob)
    → cancelled n ≡ true
    → (fetch_jobs cancelled fetched iv n js).0 ≡ []
unfolding fetch_jobs
fetch_jobs-cancelled cancelled fetched iv n [] e = refl
fetch_jobs-cancelled cancelled fetched iv n (j ∷ js) e = rw e refl

-- A repair whose context has ended before its first fetch reports nothing.
pub process_interval-cancelled :
    {F : Type 0} (cfg : ResolvedConfig) (ex : Exchange F) (dur : ℕ) (iv : Text)
    (symbols : List Text) (since : Option ℕ) (until : ℕ) (repair : Map Text (List Range))
    → ex.cancelled 0 ≡ true
    → (process_interval cfg ex dur iv symbols since until (some repair)).0 ≡ []
unfolding process_interval jobs_of
process_interval-cancelled cfg ex dur iv symbols since until repair ended =
    fetch_jobs-cancelled ex.cancelled ex.fetched iv 0 (repair_jobs repair symbols) ended
