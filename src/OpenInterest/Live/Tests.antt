-- ===== src/OpenInterest/Live/Tests.antt =====
-- Runs of internal/openinterest/live.go: rounds around a boundary, and a round over three symbols.
use chomo_syncer_go.Base.{
  nat_eq, Text, codes, text_eq, second, ℕ, ◌*◌, ◌≡◌, refl, false, List, [], ◌∷◌,
}
use chomo_syncer_go.OpenInterest.{floor_bar}
use chomo_syncer_go.OpenInterest.Settings.{LiveSettings}
use chomo_syncer_go.OpenInterest.Live.{run_live, Attempt, no_snapshot, snapshot}
use chomo_syncer_go.OpenInterest.Live.Rounds.{Later, run_live-Later}

abbrev cfg : LiveSettings
cfg = record {
  lead = 30 * second;
  accept_window = 60 * second;
  workers = 8;
  request_timeout = 10 * second;
  catch_up = 240 * second;
  min_remaining = 5 * second;
}

-- Started 100 s after a boundary, the run catches up; the round at 885 s ends early and is not
-- repeated.
abbrev looks : List ℕ
looks = 705 * second ∷ 886 * second ∷ 1198 * second ∷ []

three_rounds :
    run_live cfg (700 * second) looks
    ≡ 600 * second ∷ 900 * second ∷ 1200 * second ∷ 1500 * second ∷ []
unfolding run_live floor_bar
three_rounds = refl

run_live-Later_example : Later 0 (run_live cfg (700 * second) looks)
run_live-Later_example = run_live-Later cfg (700 * second) looks

abbrev reached : List (Text × Attempt ℕ)
reached = (codes "BTC", snapshot 5 (899 * second) false) ∷ (codes "ETH", no_snapshot) ∷ []
