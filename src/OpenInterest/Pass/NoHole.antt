-- ===== src/OpenInterest/Pass/NoHole.antt =====
-- internal/openinterest/hist.go: a pass over the open interest leaves no hole.
use chomo_syncer_go.Base.{
  nat_eq, Text, text_eq, Map, lookup, sum_by, second, ℕ, ◌+◌, ◌-◌, ◌*◌, ◌/◌, ◌≤◌, ◌<◌, max, ◌≡◌,
  refl, sym, ap, subst, ◌∙◌, ◌⊎◌, inl, inr, Bool, true, false, Option, none, some, List, arith,
}
use chomo_syncer_go.OpenInterest.{floor_bar, Row}
use chomo_syncer_go.OpenInterest.Settings.{Hist}
use chomo_syncer_go.OpenInterest.Pages.{
  Point, Reply, points, Ended, Limits, HistJob, start_label, Emitted, LiveView, fetch_symbol,
}
use chomo_syncer_go.OpenInterest.Pages.Window.{Spaced, between, last_n}
use chomo_syncer_go.OpenInterest.Pages.Rows.{HasRows, rows_of, newest_of, fetch_symbol-rows}
use chomo_syncer_go.OpenInterest.Plan.{Moments, moments}
use chomo_syncer_go.OpenInterest.Plan.Windows.{Sound}
use chomo_syncer_go.OpenInterest.Pass.{fetched_of, World, is_committed, pass}
use chomo_syncer_go.OpenInterest.Pass.Commit.{pass-Explained}

unfoldable pub limits_of : Hist → Limits
limits_of cfg = record { margin = cfg.limit_margin; max_limit = cfg.max_limit }

-- The reconciler's pass: each job is fetched by `fetchSymbol` at the time that `clock` tells.
unfoldable pub hist_world :
    {F : Type 0}
    → Hist
    → (ℕ → Text → ℕ → ℕ → ℕ → ℕ → Reply F)
    → Option LiveView
    → (ℕ → HistJob → ℕ)
    → Bool
    → Bool
    → Option Bool
    → World (Row F)
unfolding limits_of fetched_of
hist_world cfg reply live clock ended_early ended flush_failed = record {
  fetch = λ attempt j.
      fetched_of (
        fetch_symbol (limits_of cfg) (reply attempt j.symbol) (λ r. false) live j
          (clock attempt j));
  ended_early = ended_early;
  ended = ended;
  flush_failed = flush_failed;
}

-- A window that was fetched whole: it begins no later than the last calibrated bar of the symbol,
-- or than the cold-start window where there is none, unless that lies past the cap; its rows are
-- among those pushed, and `t` is the newest of them.
pub record Filled {F : Type 0} (cfg : Hist) (m : Moments) (last : Map Text ℕ)
    (history : Text → List (Point F)) (pushed : List (Row F)) (s : Text) (t : ℕ) : Type 0 where
  pub since : ℕ
  pub until : ℕ
  pub no_hole : (lh : ℕ) → lookup s last ≡ some lh → since ≤ max lh m.cap_start
  pub cold : lookup s last ≡ none → since ≤ max (m.floor_now - cfg.cold_start_window) m.cap_start
  pub kept :
      (q : Row F → ℕ)
      → sum_by q (rows_of s until (between (since + 300 * second) until (history s)))
        ≤ sum_by q pushed
  pub newest : t ≡ newest_of (rows_of s until (between (since + 300 * second) until (history s)))

fetched_of-pushed : {F : Type 0} (r : Emitted F × Ended) → (fetched_of r).pushed ≡ r.0.pushed
unfolding fetched_of
fetched_of-pushed (e, end) = refl

fetched_of-newest : {F : Type 0} (r : Emitted F × Ended) → (fetched_of r).newest ≡ r.0.newest
unfolding fetched_of
fetched_of-newest (e, end) = refl

module _ {F : Type 0} (cfg : Hist) (reply : ℕ → Text → ℕ → ℕ → ℕ → ℕ → Reply F)
    (history : Text → List (Point F)) (live : Option LiveView) (clock : ℕ → HistJob → ℕ)
    (last : Map Text ℕ) (now : ℕ) (pushed : List (Row F)) (margin : 0 < cfg.limit_margin)
    (limit : 0 < cfg.max_limit) (spaced : (s : Text) → Spaced 0 (history s))
    (honest : (a : ℕ) (s : Text) (n start end k : ℕ)
      → reply a s n start end k ≡ points (last_n k (between start end (history s))))
    (soon : (a : ℕ) (j : HistJob)
      → clock a j + 300 * second ≤ now + cfg.max_limit * (300 * second)) where
  in_time :
      (a : ℕ) (j : HistJob)
      → Sound cfg (moments cfg now) last j
      → (clock a j - j.since) / (300 * second) ≤ j.needed + cfg.max_limit
  unfolding moments floor_bar
  in_time a j h = omega (arith, soon a j, h.counts, h.some_needed)

  fetch_rows :
      (a : ℕ) (j : HistJob)
      → Sound cfg (moments cfg now) last j
      → HasRows
          (fetch_symbol (limits_of cfg) (reply a j.symbol) (λ r. false) live j (clock a j)).0
          (rows_of j.symbol (clock a j) (between (start_label j) (clock a j) (history j.symbol)))
  unfolding limits_of
  fetch_rows a j h =
      (fetch_symbol-rows (limits_of cfg) j (clock a j) (history j.symbol) (reply a j.symbol)
        (λ r. false) live limit margin (spaced j.symbol) (in_time a j h)
        (λ n end k. honest a j.symbol n (start_label j) end k) (λ r. refl)).1

  job-Filled :
      (a : ℕ) (j : HistJob) (t : ℕ)
      → Sound cfg (moments cfg now) last j
      → (fetched_of
          (fetch_symbol (limits_of cfg) (reply a j.symbol) (λ r. false) live j (clock a j))).newest
        ≡ t
      → ((q : Row F → ℕ)
          → sum_by q
              (fetched_of (
                fetch_symbol
                  (limits_of cfg)
                  (reply a j.symbol)
                  (λ r. false)
                  live
                  j
                  (clock a j))).pushed
            ≤ sum_by q pushed)
      → Filled cfg (moments cfg now) last history pushed j.symbol t
  unfolding start_label
  job-Filled a j t h e kept =
      let r : Emitted F × Ended =
        fetch_symbol (limits_of cfg) (reply a j.symbol) (λ r. false) live j (clock a j) in
      let (rows, newest, count) = fetch_rows a j h in
      record {
        since = j.since;
        until = clock a j;
        no_hole = h.no_hole;
        cold = h.cold;
        kept = λ q. omega (arith, kept q, rows q, ap (sum_by q) (fetched_of-pushed r));
        newest = sym e ∙ fetched_of-newest r ∙ newest;
      }

-- A pass leaves no hole: against an exchange that answers each request with the newest points of
-- its window, whose labels rise by at least a bar, where the sink takes every row and no more bars
-- close during the pass than a page holds, a symbol is calibrated up to a bar after the pass only
-- if it was before, or if the flush succeeded and the rows of all points of a window were pushed
-- that begins at the last calibrated bar or earlier (at the cold-start window where there was
-- none), unless that lies past the cap, and whose newest row is that bar.
pub pass-Filled :
    {F : Type 0} (cfg : Hist) (reply : ℕ → Text → ℕ → ℕ → ℕ → ℕ → Reply F)
    (history : Text → List (Point F)) (live : Option LiveView) (clock : ℕ → HistJob → ℕ)
    (ended_early ended : Bool) (flush_failed : Option Bool) (syms : List Text) (last : Map Text ℕ)
    (now : ℕ) (full : Bool) (s : Text) (t : ℕ)
    → 0 < cfg.limit_margin
    → 0 < cfg.max_limit
    → ((s : Text) → Spaced 0 (history s))
    → ((a : ℕ) (s : Text) (n start end k : ℕ)
        → reply a s n start end k ≡ points (last_n k (between start end (history s))))
    → ((a : ℕ) (j : HistJob) → clock a j + 300 * second ≤ now + cfg.max_limit * (300 * second))
    → lookup s
        (pass
          (hist_world cfg reply live clock ended_early ended flush_failed)
          cfg
          syms
          last
          now
          full).last
      ≡ some t
    → (lookup s last ≡ some t)
      ⊎ ((is_committed flush_failed ≡ true)
          × Filled cfg
              (moments cfg now)
              last
              history
              (pass
                (hist_world cfg reply live clock ended_early ended flush_failed)
                cfg
                syms
                last
                now
                full).pushed
              s
              t)
unfolding hist_world
pass-Filled cfg reply history live clock ended_early ended flush_failed syms last now full s t
      margin limit spaced honest soon e =
    let w = hist_world cfg reply live clock ended_early ended flush_failed in
    elim (pass-Explained w cfg syms last now full s t e) [
      | inl same ↦ inl same
      | inr (c, (f, newest, some_bar, src)) ↦ inr (
        c,
        subst
            (λ x.
              Filled cfg (moments cfg now) last history (pass w cfg syms last now full).pushed x t)
            src.symbol
            (job-Filled cfg reply history live clock last now (pass w cfg syms last now full).pushed
              margin limit spaced honest soon src.attempt src.job t src.holds
              (sym (ap (λ x. x.newest) src.result) ∙ newest) src.kept),
      )
    ]
