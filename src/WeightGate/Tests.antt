-- ===== src/WeightGate/Tests.antt =====
-- Runs of internal/weightgate/gate.go with the default settings, and the theorems on it there.
use chomo_syncer_go.Base.{
  nat_eq, codes, text_eq, or_default, atoi, ℕ, ◌+◌, ◌≤◌, ◌≡◌, refl, false, none, some, List, [],
  ◌∷◌, arith, pos, negsuc,
}
use chomo_syncer_go.WeightGate.{
  bulk, Config, at_class, resolve, validate, new, Gate, observe, pause_remaining,
  backpressure_delay, retry_after, parse_used_weight,
}
use chomo_syncer_go.WeightGate.Wait.{Round, admitted, wait, wait_loop, wait_round}
use chomo_syncer_go.WeightGate.Admission.{
  standing, price, standing-wait, AdmittedClear, wait-admitted,
}
use chomo_syncer_go.WeightGate.Progress.{IsQuiet, wait_admits}

abbrev defaults : Config
defaults = record {
  live_budget = pos 0;
  bulk_budget = pos 0;
  misc_budget = pos 0;
  live_burst = pos 0;
  bulk_burst = pos 0;
  misc_burst = pos 0;
  soft_limit = pos 0;
  hard_limit = pos 0;
}

defaults_valid : validate defaults ≡ none
unfolding validate resolve or_default
defaults_valid = refl

retry_after_header : retry_after (codes "30") (pos 5) ≡ pos 30_000_000_000
unfolding retry_after atoi
retry_after_header = refl

used_weight_header : parse_used_weight (codes "1812") ≡ some (pos 1812)
unfolding parse_used_weight
used_weight_header = refl

-- Settings with negative numbers and contradictory limits.
abbrev odd_settings : Config
odd_settings = record defaults { live_budget = negsuc 4; soft_limit = pos 5000 }

-- A gate that the exchange has told of 1900 used weight, 10 s into a minute.
abbrev busy : Gate
busy = observe (pos 1900) 70_000_000_000 (new defaults)

-- A round of a caller that the busy gate sends at the given instant.
abbrev round_at : ℕ → Round
round_at t = record {
  ctx_err = false;
  now = t;
  before = busy;
  sleep_err = false;
  reservation = some 1000;
  after = t + 1000;
  later = busy;
}

abbrev rounds : List Round
rounds = round_at 70_000_000_000 ∷ round_at 121_000_000_000 ∷ round_at 122_000_000_000 ∷ []

rounds_admit : (wait (new defaults).cfg bulk (pos 10) rounds).0 ≡ some admitted
unfolding wait wait_loop wait_round pause_remaining backpressure_delay observe new resolve
    or_default
rounds_admit = refl

standing-wait_example :
    standing 7 (wait (new defaults).cfg bulk (pos 10) rounds).1
    ≡ 7 + price (or_default (pos 10) 1) (wait (new defaults).cfg bulk (pos 10) rounds).0
standing-wait_example = standing-wait (new defaults).cfg bulk (pos 10) 7 rounds

wait-admitted_example :
    (or_default (pos 10) 1 ≤ at_class (new defaults).cfg.burst bulk)
    × AdmittedClear bulk (or_default (pos 10) 1) rounds
wait-admitted_example = wait-admitted (new defaults).cfg bulk (pos 10) rounds rounds_admit

IsQuiet-at : (t : ℕ) → IsQuiet busy (round_at t)
IsQuiet-at t = record {
  no_ctx_err = refl;
  no_sleep_err = refl;
  same_before = refl;
  same_later = refl;
  accepted = (1000, refl);
  forward = omega arith;
}

wait_admits_example : (wait (new defaults).cfg bulk (pos 10) rounds).0 ≡ some admitted
unfolding pause_remaining backpressure_delay observe new resolve or_default
wait_admits_example =
    wait_admits busy (new defaults).cfg bulk (pos 10) (round_at 70_000_000_000)
      (round_at 121_000_000_000) (round_at 122_000_000_000) [] (λ e. cc) (omega arith)
      (IsQuiet-at 70_000_000_000) (IsQuiet-at 121_000_000_000) (IsQuiet-at 122_000_000_000)
      (omega arith) (omega arith)
