-- ===== src/OpenInterest/Pages/Tests.antt =====
-- Runs of internal/openinterest: a gap of three bars, in pages of two.
use chomo_syncer_go.Base.{
  nat_eq, codes, text_eq, second, ℕ, ◌*◌, ◌≡◌, refl, false, none, List, [], ◌∷◌, arith,
}
use chomo_syncer_go.OpenInterest.{hist_bar_start}
use chomo_syncer_go.OpenInterest.Pages.{
  Point, Reply, points, finished, Limits, HistJob, start_label, ratio_series, fetch_symbol,
}
use chomo_syncer_go.OpenInterest.Pages.Window.{between, last_n}
use chomo_syncer_go.OpenInterest.Pages.Complete.{ratio_series-between}

abbrev limits : Limits
limits = record { margin = 1; max_limit = 2 }

abbrev job : HistJob
job = record { symbol = codes "BTC"; since = 300 * second; needed = 3; fresh = false }

abbrev point : ℕ → Point ℕ
point n = record { label = n * (300 * second); value = n }

abbrev history : List (Point ℕ)
history = point 1 ∷ point 2 ∷ point 3 ∷ point 4 ∷ []

abbrev exchange : ℕ → ℕ → ℕ → ℕ → Reply ℕ
exchange n start end limit = points (last_n limit (between start end history))

series_run : (ratio_series limits exchange job (1300 * second)).0 ≡ point 2 ∷ point 3 ∷ point 4 ∷ []
unfolding ratio_series between
series_run = refl

newest_run :
    (fetch_symbol limits exchange (λ r. false) none job (1300 * second)).0.newest ≡ 900 * second
unfolding fetch_symbol between hist_bar_start
newest_run = refl

ratio_series-between_example :
    ratio_series limits exchange job (1300 * second)
    ≡ (between (start_label job) (1300 * second) history, finished)
ratio_series-between_example =
    ratio_series-between limits job (1300 * second) history exchange (omega arith) (omega arith)
      (omega arith) (omega arith) (λ n end limit. refl)
