-- ===== src/Backfill/Sweep/Outcome.antt =====
-- internal/backfill/sweep.go: what a sweep reports of the repair that internal/backfill/backfill.go
-- carries out.
use chomo_syncer_go.Base.{
  if◌then◌else◌, ◌==◌, nat_eq, length, Text, text_eq, Map, sum_by, ℕ, ◌+◌, ◌≡◌, refl, true, false,
  ◌||◌, Option, some, List, [], ◌∷◌, arith,
}
use chomo_syncer_go.Backfill.{key_eq}
use chomo_syncer_go.Backfill.Requests.Settings.{ResolvedConfig}
use chomo_syncer_go.Backfill.Requests.{Range, RangeOutcome, RepairResult}
use chomo_syncer_go.Universe.{sort}
use chomo_syncer_go.Backfill.Process.{Exchange, process}
use chomo_syncer_go.Backfill.Process.Whole.{length-process, process-cancelled}
use chomo_syncer_go.Backfill.Sweep.{
  Sweeper, SweepStats, choose, choose_ranges, choose_all, symbols_of, get_gaps, sweep_request,
  choose_gaps, Chosen, note_outcome, note_outcomes, all_ok, after_repair,
}
use chomo_syncer_go.Backfill.Sweep.Plan.{choose_gaps-Inv}

-- The outcomes that brought bars.
unfoldable pub served : List RangeOutcome → ℕ
served os = sum_by (λ o. if o.failed || o.fetched == 0 then 0 else 1) os

-- An outcome is counted once.
note_outcome-counts :
    (start : ℕ) (o : RangeOutcome) (r : Sweeper × SweepStats)
    → let q = note_outcome start o r in
      q.1.failed + q.1.empty + (if o.failed || o.fetched == 0 then 0 else 1)
      ≡ r.1.failed + r.1.empty + 1
unfolding note_outcome
note_outcome-counts start o (s, st) = ground arith

note_outcomes-counts :
    (start : ℕ) (os : List RangeOutcome) (r : Sweeper × SweepStats)
    → let q = note_outcomes start os r in
      q.1.failed + q.1.empty + served os ≡ r.1.failed + r.1.empty + length os
unfolding note_outcomes served sum_by
note_outcomes-counts start [] r = omega arith
note_outcomes-counts start (o ∷ os) r =
    omega
      (arith, note_outcomes-counts start os (note_outcome start o r), note_outcome-counts start o r)

-- A choice counts no outcome yet.
abbrev IsFresh : Chosen → Type 0
IsFresh c = (c.stats.failed ≡ 0) × (c.stats.empty ≡ 0)

module _ (s : Sweeper) (clock : ℕ → ℕ) where
  choose-IsFresh :
      (symbol : Text) (r : Range) (c : Chosen) → IsFresh c → IsFresh (choose s clock symbol r c)
  unfolding choose
  choose-IsFresh symbol r c h = ground (arith, h)

  choose_ranges-IsFresh :
      (symbol : Text) (rs : List Range) (c : Chosen)
      → IsFresh c
      → IsFresh (choose_ranges s clock symbol rs c)
  unfolding choose_ranges
  choose_ranges-IsFresh symbol [] c h = h
  choose_ranges-IsFresh symbol (r ∷ rs) c h =
      choose_ranges-IsFresh symbol rs (choose s clock symbol r c) (choose-IsFresh symbol r c h)

  choose_all-IsFresh :
      (symbols : List Text) (gaps : Map Text (List Range)) (c : Chosen)
      → IsFresh c
      → IsFresh (choose_all s clock symbols gaps c)
  unfolding choose_all
  choose_all-IsFresh [] gaps c h = h
  choose_all-IsFresh (symbol ∷ symbols) gaps c h =
      let rs : List Range = get_gaps symbol gaps in
      choose_all-IsFresh symbols gaps (choose_ranges s clock symbol rs c)
        (choose_ranges-IsFresh symbol rs c h)

  choose_gaps-IsFresh : (gaps : Map Text (List Range)) → IsFresh (choose_gaps s clock gaps)
  unfolding choose_gaps
  choose_gaps-IsFresh gaps = choose_all-IsFresh (sort (symbols_of gaps)) gaps _ (refl, refl)

-- The answer of a backfiller that took all keys.
abbrev pub taken : List RangeOutcome → Option RepairResult
taken os = some (record { outcomes = os; skipped_keys = 0 })

module _ {F : Type 0} (s : Sweeper) (clock : ℕ → ℕ) (gaps : Map Text (List Range))
    (start to now : ℕ) (cfg : ResolvedConfig) (ex : Text → Exchange F) (dur : Text → ℕ) where
  abbrev outcomes : List RangeOutcome
  outcomes = (process cfg ex dur (sweep_request (choose_gaps s clock gaps) to) now).0

  -- A sweep accounts for all that it sent: where the backfiller took its request whole and carried
  -- it out without its context ending, each range submitted is counted once, as failed, as empty at
  -- the exchange, or as one that brought bars.
  pub after_repair-served :
      ((iv : Text) (n : ℕ) → (ex iv).cancelled n ≡ false)
      → let st = (after_repair start s (choose_gaps s clock gaps).stats (taken outcomes)).1 in
        st.failed + st.empty + served outcomes ≡ (choose_gaps s clock gaps).stats.submitted
  unfolding after_repair sweep_request
  after_repair-served never =
      let c : Chosen = choose_gaps s clock gaps in
      let (u, k, t, m, l, o) = choose_gaps-Inv s clock gaps in
      omega (
        arith,
        note_outcomes-counts start outcomes (s, record c.stats { skipped_keys = 0 }),
        choose_gaps-IsFresh s clock gaps,
        length-process cfg ex dur never (sweep_request c to) c.ranges now refl,
        t,
      )

  -- A sweep that is cut short still reports success: where the backfiller took its request whole,
  -- but its context had ended before the first fetch, so that nothing was fetched, the sweep ends
  -- as fully successful and counts no range as failed.
  pub after_repair-cut_short :
      ((iv : Text) → (ex iv).cancelled 0 ≡ true)
      → after_repair start s (choose_gaps s clock gaps).stats (taken outcomes)
        ≡ (s, record (choose_gaps s clock gaps).stats { skipped_keys = 0 }, all_ok)
  unfolding after_repair note_outcomes sweep_request
  after_repair-cut_short ended =
      let c : Chosen = choose_gaps s clock gaps in
      rw
        (
          process-cancelled cfg ex dur (sweep_request c to) c.ranges now refl ended,
          (choose_gaps-IsFresh s clock gaps).0,
        )
        refl
