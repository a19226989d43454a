-- ===== src/OpenInterest/Pass/Commit.antt =====
-- internal/openinterest/hist.go: why a calibrated bar is what it is after a pass.
use chomo_syncer_go.Base.{
  ltb, if◌then◌else◌, if-elim, ◌==◌, nat_eq, All, length, All-append, Text, text_eq, Map, lookup,
  insert, lookup-insert, contains, sum_by, sum_by-append, ℕ, ◌+◌, ◌≤◌, ◌≡◌, refl, sym, subst, ◌∙◌,
  ◌≢◌, ◌⊎◌, inl, inr, Bool, true, false, not, ◌&&◌, ◌||◌, Option, none, some, List, [], ◌∷◌, ◌++◌,
  map, arith,
}
use chomo_syncer_go.OpenInterest.Settings.{Hist}
use chomo_syncer_go.OpenInterest.Pages.{HistJob}
use chomo_syncer_go.OpenInterest.Plan.{PassStats, moments, plan_jobs}
use chomo_syncer_go.OpenInterest.Plan.Windows.{Sound, plan_jobs-Sound}
use chomo_syncer_go.OpenInterest.Pass.{
  Fetched, Results, store_by, store_result, run_jobs, retry, no_results, result_or_zero,
  start_or_zero, advance, commit_job, commit_all, Passed, World, is_committed, fetch_all, passed,
  finish, pass,
}

-- A job whose fetch of an attempt succeeded, with its rows among those pushed.
pub record Source {R : Type 0} (P : HistJob → Type 0) (fetch : ℕ → HistJob → Fetched R)
    (pushed : List R) (s : Text) (f : Fetched R) : Type 0 where
  pub job : HistJob
  pub attempt : ℕ
  pub holds : P job
  pub symbol : job.symbol ≡ s
  pub good : (fetch attempt job).failed ≡ false
  pub result : f ≡ fetch attempt job
  pub kept : (q : R → ℕ) → sum_by q (fetch attempt job).pushed ≤ sum_by q pushed

module _ {R : Type 0} (P : HistJob → Type 0) (fetch : ℕ → HistJob → Fetched R) where
  -- Every result in the map has a source, and failed jobs are jobs of the plan.
  Traced : Results R → Type 0
  Traced r =
      ((s : Text) (f : Fetched R) → lookup s r.out ≡ some f → Source P fetch r.pushed s f)
      × All P r.failed

  Source-grow :
      (s : Text) (f : Fetched R) (xs ys : List R)
      → Source P fetch xs s f
      → Source P fetch (xs ++ ys) s f
  Source-grow s f xs ys h = record {
    job = h.job;
    attempt = h.attempt;
    holds = h.holds;
    symbol = h.symbol;
    good = h.good;
    result = h.result;
    kept = λ q. omega (arith, h.kept q, sum_by-append q xs ys);
  }

  put-Source :
      (n : ℕ) (j : HistJob) (b : Bool) (r : Results R) (s : Text) (f : Fetched R)
      → P j
      → (fetch n j).failed ≡ false
      → ((s : Text) (f : Fetched R) → lookup s r.out ≡ some f → Source P fetch r.pushed s f)
      → (j.symbol == s) ≡ b
      → (if b then some (fetch n j) else lookup s r.out) ≡ some f
      → Source P fetch (r.pushed ++ (fetch n j).pushed) s f
  put-Source n j true r s f p good t at e = record {
    job = j;
    attempt = n;
    holds = p;
    symbol = (text_eq.same_iff j.symbol s).0 at;
    good = good;
    result = cc e;
    kept = λ q. omega (arith, sum_by-append q r.pushed (fetch n j).pushed);
  }
  put-Source n j false r s f p good t at e = Source-grow s f r.pushed (fetch n j).pushed (t s f e)

  store_by-Traced :
      (n : ℕ) (j : HistJob) (b : Bool) (r : Results R)
      → (fetch n j).failed ≡ b
      → P j
      → Traced r
      → Traced (store_by b j (fetch n j) r)
  unfolding store_by Traced
  store_by-Traced n j true r bad p (t, a) = (
    (λ s f e. Source-grow s f r.pushed (fetch n j).pushed (t s f e)),
    All-append P r.failed (j ∷ []) a (p, tt),
  )
  store_by-Traced n j false r good p (t, a) = (
    (λ s f e.
        put-Source n j (j.symbol == s) r s f p good t refl
          (sym (lookup-insert j.symbol s (fetch n j) r.out) ∙ e)),
    a,
  )

  store_result-Traced :
      (n : ℕ) (j : HistJob) (r : Results R) → P j → Traced r → Traced (store_result j (fetch n j) r)
  unfolding store_result
  store_result-Traced n j r p t = store_by-Traced n j (fetch n j).failed r refl p t

  run_jobs-Traced :
      (n : ℕ) (js : List HistJob) (r : Results R)
      → All P js
      → Traced r
      → Traced (run_jobs (fetch n) js r)
  unfolding run_jobs
  run_jobs-Traced n [] r a t = t
  run_jobs-Traced n (j ∷ js) r (p, a) t =
      run_jobs-Traced n js (store_result j (fetch n j) r) a (store_result-Traced n j r p t)

  retry-Traced : (ended : Bool) (r : Results R) → Traced r → Traced (retry ended (fetch 1) r)
  unfolding retry Traced
  retry-Traced ended r (t, a) =
      if-elim Traced (length r.failed == 0 || ended) {x = r} (t, a)
        (run_jobs-Traced 1 r.failed (record r { failed = [] }) a (t, tt))

-- Why a symbol is calibrated up to a bar: it was before, or this pass has committed the newest bar
-- of a fetch.
Explained :
    {R : Type 0} (P : HistJob → Type 0) (fetch : ℕ → HistJob → Fetched R) (committed : Bool)
    (pushed : List R) (before : Map Text ℕ) (s : Text) (t : ℕ)
    → Type 0
Explained P fetch committed pushed before s t =
    (lookup s before ≡ some t)
    ⊎ ((committed ≡ true)
        × ((f : Fetched _) × (f.newest ≡ t) × (t ≢ 0) × Source P fetch pushed s f))

module _ {R : Type 0} (P : HistJob → Type 0) (fetch : ℕ → HistJob → Fetched R) (committed : Bool)
    (r : Results R) (before : Map Text ℕ) (traced : Traced P fetch r) where
  AllExplained : Map Text ℕ → Type 0
  AllExplained last =
      (s : Text) (t : ℕ) → lookup s last ≡ some t → Explained P fetch committed r.pushed before s t

  -- A result that is not in the map is zero, and moves nothing.
  moved-Explained :
      (symbol : Text) (o : Option (Fetched R)) (t : ℕ)
      → lookup symbol r.out ≡ o
      → (result_or_zero o).newest ≡ t
      → t ≢ 0
      → committed ≡ true
      → Explained P fetch committed r.pushed before symbol t
  unfolding result_or_zero Explained Traced
  moved-Explained symbol none t at e n c = absurd (n (sym e))
  moved-Explained symbol (some f) t at e n c = inr (c, (f, e, n, traced.0 symbol f at))

  set-Explained :
      (symbol : Text) (newest : ℕ) (last : Map Text ℕ) (s : Text) (t : ℕ) (b : Bool)
      → Explained P fetch committed r.pushed before symbol newest
      → AllExplained last
      → (symbol == s) ≡ b
      → (if b then some newest else lookup s last) ≡ some t
      → Explained P fetch committed r.pushed before s t
  unfolding AllExplained
  set-Explained symbol newest last s t true h a at e =
      subst (λ (x : Text). Explained P fetch committed r.pushed before x t)
        ((text_eq.same_iff symbol s).0 at)
        (subst (λ (n : ℕ). Explained P fetch committed r.pushed before symbol n) (cc e) h)
  set-Explained symbol newest last s t false h a at e = a s t e

  if-Explained :
      (symbol : Text) (newest : ℕ) (last : Map Text ℕ) (s : Text) (t : ℕ) (b : Bool)
      → (b ≡ true → Explained P fetch committed r.pushed before symbol newest)
      → AllExplained last
      → lookup s (if b then insert symbol newest last else last) ≡ some t
      → Explained P fetch committed r.pushed before s t
  unfolding AllExplained
  if-Explained symbol newest last s t true h a e =
      set-Explained symbol newest last s t (symbol == s) (h refl) a refl
        (sym (lookup-insert symbol s newest last) ∙ e)
  if-Explained symbol newest last s t false h a e = a s t e

  advance-AllExplained :
      (symbol : Text) (newest : ℕ) (last : Map Text ℕ)
      → (newest ≢ 0 → committed ≡ true → Explained P fetch committed r.pushed before symbol newest)
      → AllExplained last
      → AllExplained (advance committed symbol newest last)
  unfolding advance AllExplained
  advance-AllExplained symbol newest last h a s t e =
      if-Explained symbol newest last s t
        (committed && (not (newest == 0) && ltb (start_or_zero (lookup symbol last)) newest))
        (λ y. h (λ zero_newest. absurd (ground (arith, y, zero_newest))) (ground (arith, y))) a e

  commit_job-AllExplained :
      (j : HistJob) (st : Map Text ℕ × PassStats)
      → AllExplained st.0
      → AllExplained (commit_job committed r j st).0
  unfolding commit_job
  commit_job-AllExplained j (last, st) a =
      if-elim (λ (x : Map Text ℕ × PassStats). AllExplained x.0)
        (contains (map (λ k. k.symbol) r.failed) j.symbol)
        {x = (last, record st { failed = st.failed + 1 })} a
        (advance-AllExplained j.symbol (result_or_zero (lookup j.symbol r.out)).newest last
          (λ n c. moved-Explained j.symbol (lookup j.symbol r.out) _ refl refl n c) a)

  commit_all-AllExplained :
      (js : List HistJob) (st : Map Text ℕ × PassStats)
      → AllExplained st.0
      → AllExplained (commit_all committed r js st).0
  unfolding commit_all
  commit_all-AllExplained [] st a = a
  commit_all-AllExplained (j ∷ js) st a =
      commit_all-AllExplained js (commit_job committed r j st) (commit_job-AllExplained j st a)

fetch_all-Traced :
    {R : Type 0} (P : HistJob → Type 0) (w : World R) (jobs : List HistJob)
    → All P jobs
    → Traced P w.fetch (fetch_all w jobs)
unfolding fetch_all no_results lookup Traced
fetch_all-Traced P w jobs a =
    retry-Traced P w.fetch w.ended_early (run_jobs (w.fetch 0) jobs no_results)
      (run_jobs-Traced P w.fetch 0 jobs no_results a ((λ s f e. absurd (cc e)), tt))

-- What a pass leaves explains its calibrated bars.
AllRight :
    {R : Type 0} (P : HistJob → Type 0) (w : World R) (before : Map Text ℕ) → Passed R → Type 0
AllRight P w before r =
    (s : Text) (t : ℕ)
    → lookup s r.last ≡ some t
    → Explained P w.fetch (is_committed w.flush_failed) r.pushed before s t

passed-AllRight :
    {R : Type 0} (P : HistJob → Type 0) (w : World R) (before : Map Text ℕ) (r : Results R)
    (st : Map Text ℕ × PassStats) (traced : Traced P w.fetch r)
    → AllExplained P w.fetch (is_committed w.flush_failed) r before traced st.0
    → AllRight P w before (passed (is_committed w.flush_failed) r.pushed st)
unfolding passed AllRight AllExplained
passed-AllRight P w before r (last, st) traced a = a

finish-AllRight :
    {R : Type 0} (P : HistJob → Type 0) (w : World R) (last : Map Text ℕ)
    (plan : List HistJob × PassStats)
    → All P plan.0
    → AllRight P w last (finish w last plan)
unfolding finish AllExplained Explained AllRight
finish-AllRight P w last (jobs, st) a =
    let r = fetch_all w jobs in
    let traced : Traced P w.fetch r = fetch_all-Traced P w jobs a in
    if-elim (AllRight P w last) w.ended
      {x = record { last = last; stats = st; pushed = r.pushed; cut_short = true }} (λ s t e. inl e)
      (passed-AllRight P w last r (commit_all (is_committed w.flush_failed) r jobs (last, st))
        traced
        (commit_all-AllExplained P w.fetch (is_committed w.flush_failed) r last traced jobs
          (last, st) (λ s t e. inl e)))

-- The calibrated bars never run ahead of what is stored: after a pass, a symbol is calibrated up to
-- a bar only if it was before, or if the flush of this pass succeeded and the bar is the newest
-- that a successful fetch of a sound job of this symbol reported, whose rows are all among those
-- that were flushed.
pub pass-Explained :
    {R : Type 0} (w : World R) (cfg : Hist) (syms : List Text) (last : Map Text ℕ) (now : ℕ)
    (full : Bool) (s : Text) (t : ℕ)
    → lookup s (pass w cfg syms last now full).last ≡ some t
    → (lookup s last ≡ some t)
      ⊎ ((is_committed w.flush_failed ≡ true)
          × ((f : Fetched R) × (f.newest ≡ t)
              × (t ≢ 0)
              × Source
                  (Sound cfg (moments cfg now) last)
                  w.fetch
                  (pass w cfg syms last now full).pushed
                  s
                  f))
unfolding pass Explained AllRight
pass-Explained w cfg syms last now full s t e =
    finish-AllRight (Sound cfg (moments cfg now) last) w last (plan_jobs cfg syms last now full)
      (plan_jobs-Sound cfg syms last now full).0 s t e
