-- ===== src/DataPool/Tests.antt =====
-- Runs of internal/openinterest/limiter.go with a window of 100 ns for two requests, and the
-- theorems on it there.
use chomo_syncer_go.Base.{
  nat_eq, text_eq, or_default, ℕ, ◌+◌, ◌≡◌, refl, false, List, [], ◌∷◌, arith, pos,
}
use chomo_syncer_go.DataPool.{
  Config, Pool, new, prune, window_wait, count_at, used, pause_for, pause_remaining,
}
use chomo_syncer_go.DataPool.Wait.{Round, admitted, wait, wait_round, take_token}
use chomo_syncer_go.DataPool.Window.{
  Op, waits, counts, uses, pauses, apply, run, IsSpaced, run-IsSpaced,
}

abbrev settings : Config
settings = record { window_cap = pos 2; window = pos 100 }

abbrev ops : List Op
ops = counts 10 ∷ counts 20 ∷ counts 30 ∷ pauses (pos 5) 40 ∷ waits 90 ∷ counts 110 ∷ uses 115 ∷ []

abbrev instants : List ℕ
instants = 110 ∷ 20 ∷ 10 ∷ []

counted_after_ops : (run ops (new settings, [])).1 ≡ instants
unfolding run apply new count_at window_wait used pause_for prune or_default
counted_after_ops = refl

run-IsSpaced_example :
    IsSpaced (new settings).window (new settings).most (run ops (new settings, [])).1
run-IsSpaced_example = run-IsSpaced settings ops (
  omega arith,
  (omega arith, (omega arith, (omega arith, (omega arith, (omega arith, (omega arith, tt)))))),
)

abbrev full : Pool
full = record { window = 100; most = 2; paused_ns = 0; times = 10 ∷ 20 ∷ [] }

abbrev round_at : ℕ → Round
round_at t = record {
  ctx_err = false;
  now = t;
  at_pause = full;
  at_window = full;
  sleep_err = false;
  delay = 3;
  after = t + 3;
  at_recheck = full;
  at_record = full;
}

rounds_admit : (wait (round_at 30 ∷ round_at 110 ∷ [])).0 ≡ admitted
unfolding wait wait_round take_token window_wait count_at prune pause_remaining
rounds_admit = refl
