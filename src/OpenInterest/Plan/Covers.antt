-- ===== src/OpenInterest/Plan/Covers.antt =====
-- internal/openinterest/hist.go: which symbols a pass asks for.
use chomo_syncer_go.Base.{
  ltb, Bool-cases, ◌==◌, nat_eq, length, Text, text_eq, Map, lookup, contains, second, ℕ, ◌+◌, ◌-◌,
  ◌*◌, ◌≤◌, ◌≡◌, refl, ◌∙◌, ◌⊎◌, inl, inr, Bool, true, false, not, ◌&&◌, ◌||◌, Option, none, some,
  List, [], ◌∷◌, map, arith,
}
use chomo_syncer_go.OpenInterest.{floor_bar, newest_published_start}
use chomo_syncer_go.OpenInterest.Settings.{Hist}
use chomo_syncer_go.OpenInterest.Pages.{HistJob}
use chomo_syncer_go.OpenInterest.Plan.{
  PassStats, Moments, moments, since_of, widen, cut, job_of, is_none, keep_job, counted, plan_since,
  plan_all, insert_job, sort_jobs, no_stats, sorted, plan_jobs,
}

abbrev pub symbols_of : List HistJob → List Text
symbols_of js = map (λ j. j.symbol) js

-- Whether the newest published bar of a symbol is not calibrated.
unfoldable pub behind : ℕ → Option ℕ → Bool
behind target none = true
behind target (some lh) = ltb lh target

-- Each moment leaves a bar before now.
record Past (cfg : Hist) (m : Moments) : Type 0 where
  cap : m.cap_start + 300 * second ≤ m.floor_now
  page : m.page_start + 300 * second ≤ m.floor_now
  target : m.target ≤ m.floor_now - 300 * second
  cold : m.floor_now - cfg.cold_start_window + 300 * second ≤ m.floor_now

moments-Past :
    (cfg : Hist) (now : ℕ)
    → 300 * second ≤ now
    → 300 * second ≤ cfg.max_backfill
    → 300 * second ≤ cfg.cold_start_window
    → Past cfg (moments cfg now)
unfolding moments floor_bar newest_published_start
moments-Past cfg now h back cold = record {
  cap = omega (arith, h, back);
  page = omega (arith, h);
  target = omega arith;
  cold = omega (arith, h, cold);
}

contains-insert_job :
    (j : HistJob) (js : List HistJob) (s : Text)
    → contains (symbols_of (insert_job j js)) s ≡ (j.symbol == s || contains (symbols_of js) s)
unfolding insert_job contains
contains-insert_job j [] s = refl
contains-insert_job j (k ∷ ks) s = ground (arith, contains-insert_job j ks s)

contains-sort_jobs :
    (js : List HistJob) (s : Text)
    → contains (symbols_of (sort_jobs js)) s ≡ contains (symbols_of js) s
unfolding sort_jobs contains
contains-sort_jobs [] s = refl
contains-sort_jobs (j ∷ js) s =
    ground (arith, contains-insert_job j (sort_jobs js) s, contains-sort_jobs js s)

one_more :
    (w : Text → Bool) (x s : Text) (c : Bool)
    → ((not (not (w x)) && x == s) || (c && w s)) ≡ ((x == s || c) && w s)
one_more w x s c = elim (Bool-cases (x == s)) [
  | inl y ↦ rw (y, (text_eq.same_iff x s).0 y) (both (w s) c)
  | inr n ↦ rw n (neither (not (not (w x))) (c && w s))
]
  where
    both : (a b : Bool) → ((not (not a) && true) || (b && a)) ≡ (true && a)
    both a b = ground arith

    neither : (a b : Bool) → ((a && false) || b) ≡ b
    neither a b = ground arith

module _ (cfg : Hist) (full : Bool) (m : Moments) (past : Past cfg m) where
  from-le :
      (since : ℕ)
      → (full ≡ true) ⊎ (since + 300 * second ≤ m.floor_now)
      → cut m (widen full m since) + 300 * second ≤ m.floor_now
  unfolding widen cut
  from-le since (inl h) = ground (arith, h, past.page, past.cap)
  from-le since (inr h) = ground (arith, h, past.page, past.cap)

  since_of-past :
      (o : Option ℕ) (since : ℕ)
      → since_of cfg full m o ≡ some since
      → (full ≡ true) ⊎ (since + 300 * second ≤ m.floor_now)
  unfolding since_of
  since_of-past none since e = inr (ground (arith, e, past.cold))
  since_of-past (some lh) since e = elim (Bool-cases full) [
    | inl y ↦ inl y
    | inr n ↦ inr (ground (arith, e, n, past.target))
  ]

  -- The window of a symbol that is asked for has a bar.
  needed_pos :
      (s : Text) (fresh : Bool) (o : Option ℕ) (since : ℕ)
      → since_of cfg full m o ≡ some since
      → ltb (job_of full m s fresh since).needed 1 ≡ false
  unfolding job_of
  needed_pos s fresh o since e = ground (arith, from-le since (since_of-past o since e))

  wants : Option ℕ → Bool
  wants o = full || behind m.target o

  since_of-wants : (o : Option ℕ) → (is_none (since_of cfg full m o)) ≡ not (wants o)
  unfolding since_of wants behind is_none
  since_of-wants none = ground arith
  since_of-wants (some lh) = ground arith

  plan_since-contains :
      (x : Text) (fresh : Bool) (o : Option ℕ) (r : List HistJob × PassStats) (s : Text)
      → ((since : ℕ) → o ≡ some since → ltb (job_of full m x fresh since).needed 1 ≡ false)
      → contains (symbols_of (plan_since full m x fresh o r).0) s
        ≡ ((not (is_none o) && x == s) || contains (symbols_of r.0) s)
  unfolding plan_since counted keep_job contains is_none job_of
  plan_since-contains x fresh none (jobs, st) s h = refl
  plan_since-contains x fresh (some since) (jobs, st) s h = rw (h since refl) refl

  plan_all-contains :
      (last : Map Text ℕ) (syms : List Text) (st : PassStats) (s : Text)
      → contains (symbols_of (plan_all cfg full m last syms ([], st)).0) s
        ≡ (contains syms s && wants (lookup s last))
  unfolding plan_all contains
  plan_all-contains last [] st s = refl
  plan_all-contains last (x ∷ syms) st s =
      plan_since-contains x (is_none (lookup x last)) (since_of cfg full m (lookup x last))
        (plan_all cfg full m last syms ([], st)) s
        (λ since e. needed_pos x (is_none (lookup x last)) (lookup x last) since e)
      ∙ rw (since_of-wants (lookup x last), plan_all-contains last syms st s)
          (one_more (λ (y : Text). wants (lookup y last)) x s (contains syms s))

sorted-jobs : (r : List HistJob × PassStats) → (sorted r).0 ≡ sort_jobs r.0
unfolding sorted
sorted-jobs (jobs, st) = refl

-- A pass asks for exactly the symbols that it should: where the cap and the cold-start window are
-- at least a bar, a full pass has a job for every symbol, and any other pass for exactly those
-- symbols that have no calibrated bar, or whose last one is older than the newest published bar.
pub plan_jobs-covers :
    (cfg : Hist) (syms : List Text) (last : Map Text ℕ) (now : ℕ) (full : Bool) (s : Text)
    → 300 * second ≤ now
    → 300 * second ≤ cfg.max_backfill
    → 300 * second ≤ cfg.cold_start_window
    → contains (symbols_of (plan_jobs cfg syms last now full).0) s ≡ (
        contains syms s
        && (full || behind (newest_published_start now cfg.publish_lag) (lookup s last)))
unfolding plan_jobs moments wants
plan_jobs-covers cfg syms last now full s h back cold =
    let past : Past cfg (moments cfg now) = moments-Past cfg now h back cold in
    rw sorted-jobs (
      contains-sort_jobs
        (plan_all cfg full (moments cfg now) last syms ([], no_stats (length syms))).0 s
      ∙ plan_all-contains cfg full (moments cfg now) past last syms (no_stats (length syms)) s)
