-- ===== src/OpenInterest/Pass/Tests.antt =====
-- Runs of internal/openinterest/hist.go: a pass that calibrates a symbol by three bars.
use chomo_syncer_go.Base.{
  nat_eq, Text, codes, text_eq, Map, lookup, insert, contains, second, minute, hour, ℕ, ◌*◌, ◌≡◌,
  refl, ◌⊎◌, true, false, none, some, List, [], ◌∷◌, arith,
}
use chomo_syncer_go.OpenInterest.{Row, floor_bar, newest_published_start, hist_bar_start}
use chomo_syncer_go.OpenInterest.Settings.{Hist}
use chomo_syncer_go.OpenInterest.Pages.{Point, Reply, points, fetch_symbol}
use chomo_syncer_go.OpenInterest.Pages.Window.{between, last_n}
use chomo_syncer_go.OpenInterest.Plan.{moments, plan_jobs}
use chomo_syncer_go.OpenInterest.Pass.{Passed, pass, is_committed}
use chomo_syncer_go.OpenInterest.Pass.NoHole.{Filled, hist_world, pass-Filled}

abbrev cfg : Hist
cfg = record {
  interval = hour;
  offset = 5 * minute;
  spread = 20 * minute;
  publish_lag = 4 * minute;
  limit_margin = 1;
  max_limit = 2;
  cold_start_window = 48 * hour;
  max_backfill = 168 * hour;
  workers = 4;
  request_timeout = 15 * second;
}

abbrev point : ℕ → Point ℕ
point n = record { label = n * (300 * second); value = n }

abbrev history : Text → List (Point ℕ)
history s = point 3331 ∷ point 3332 ∷ point 3333 ∷ point 3334 ∷ []

abbrev exchange : ℕ → Text → ℕ → ℕ → ℕ → ℕ → Reply ℕ
exchange a s n start end k = points (last_n k (between start end (history s)))

abbrev calibrated : Map Text ℕ
calibrated = (codes "BTC", 999000 * second) ∷ []

abbrev result : Passed (Row ℕ)
result =
    pass (hist_world cfg exchange none (λ a j. 1000000 * second) false false (some false)) cfg
      (codes "BTC" ∷ []) calibrated (1000000 * second) false

moved : lookup (codes "BTC") result.last ≡ some (999600 * second)
unfolding pass plan_jobs floor_bar newest_published_start lookup insert contains hist_world
    fetch_symbol between hist_bar_start
moved = refl

pass-Filled_example :
    (lookup (codes "BTC") calibrated ≡ some (999600 * second))
    ⊎ ((is_committed (some false) ≡ true)
        × Filled cfg
            (moments cfg (1000000 * second))
            calibrated
            history
            result.pushed
            (codes "BTC")
            (999600 * second))
pass-Filled_example =
    pass-Filled cfg exchange history none (λ a j. 1000000 * second) false false (some false)
      (codes "BTC" ∷ []) calibrated (1000000 * second) false (codes "BTC") (999600 * second)
      (omega arith) (omega arith) (λ s. omega arith) (λ a s n start end k. refl)
      (λ a j. omega arith) moved
