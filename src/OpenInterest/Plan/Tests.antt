-- ===== src/OpenInterest/Plan/Tests.antt =====
-- Runs of internal/openinterest/hist.go: a plan over a symbol that is behind, one that is up to
-- date and a new one.
use chomo_syncer_go.Base.{
  nat_eq, All, length, Text, codes, text_eq, Map, lookup, contains, second, minute, hour, ℕ, ◌+◌,
  ◌*◌, ◌≤◌, ◌≡◌, refl, false, ◌&&◌, ◌||◌, List, [], ◌∷◌, arith,
}
use chomo_syncer_go.OpenInterest.{newest_published_start, floor_bar}
use chomo_syncer_go.OpenInterest.Settings.{Hist}
use chomo_syncer_go.OpenInterest.Plan.{plan_jobs, moments}
use chomo_syncer_go.OpenInterest.Plan.Windows.{Sound, Falls, jobs_for, times, plan_jobs-Sound}
use chomo_syncer_go.OpenInterest.Plan.Covers.{symbols_of, behind, plan_jobs-covers}

abbrev cfg : Hist
cfg = record {
  interval = hour;
  offset = 5 * minute;
  spread = 20 * minute;
  publish_lag = 4 * minute;
  limit_margin = 3;
  max_limit = 500;
  cold_start_window = 48 * hour;
  max_backfill = 168 * hour;
  workers = 4;
  request_timeout = 15 * second;
}

abbrev universe : List Text
universe = codes "BTC" ∷ codes "ETH" ∷ codes "NEW" ∷ []

abbrev calibrated : Map Text ℕ
calibrated = (codes "BTC", 999000 * second) ∷ (codes "ETH", 999300 * second) ∷ []

new_first :
    symbols_of (plan_jobs cfg universe calibrated (1000000 * second) false).0
    ≡ codes "NEW" ∷ codes "BTC" ∷ []
unfolding plan_jobs floor_bar newest_published_start lookup
new_first = refl

plan_jobs-Sound_example :
    All
      (Sound cfg (moments cfg (1000000 * second)) calibrated)
      (plan_jobs cfg universe calibrated (1000000 * second) false).0
    × Falls (plan_jobs cfg universe calibrated (1000000 * second) false).0
    × ((s : Text)
        → jobs_for s (plan_jobs cfg universe calibrated (1000000 * second) false).0
          ≤ times s universe)
    × (length (plan_jobs cfg universe calibrated (1000000 * second) false).0
          + (plan_jobs cfg universe calibrated (1000000 * second) false).1.skipped
        ≡ length universe)
plan_jobs-Sound_example = plan_jobs-Sound cfg universe calibrated (1000000 * second) false

plan_jobs-covers_example :
    contains
      (symbols_of (plan_jobs cfg universe calibrated (1000000 * second) false).0)
      (codes "ETH")
    ≡ (contains universe (codes "ETH")
        && (false
            || behind
                (newest_published_start (1000000 * second) cfg.publish_lag)
                (lookup (codes "ETH") calibrated)))
plan_jobs-covers_example =
    plan_jobs-covers cfg universe calibrated (1000000 * second) false (codes "ETH") (omega arith)
      (omega arith) (omega arith)
