-- ===== src/WeightGate/Admission.antt =====
-- internal/weightgate/gate.go: what Gate.Wait promises of a request that it admits, refuses or
-- keeps waiting.
use chomo_syncer_go.Base.{
  nat_eq, text_eq, ℤ, or_default, ℕ, ◌+◌, ◌-◌, ◌≤◌, ◌≡◌, refl, ◌≢◌, ◌⊎◌, false, Option, none, some,
  List, [], ◌∷◌, ◌++◌, arith,
}
use chomo_syncer_go.WeightGate.{
  Class, ResolvedConfig, at_class, pause_remaining, backpressure_delay,
}
use chomo_syncer_go.WeightGate.Wait.{
  Round, Verdict, admitted, Outcome, again, ret, Effect, reserve, cancel, wait_round, wait_loop,
  wait,
}

-- The weight of the reservations that a list of effects makes and does not cancel again.
unfoldable pub standing : ℕ → List Effect → ℕ
standing n [] = n
standing n (reserve w ∷ es) = standing (n + w) es
standing n (cancel w ∷ es) = standing (n - w) es

abbrev pub price : ℕ → Option Verdict → ℕ
price weight (some admitted) = weight
price weight _ = 0

standing-append :
    (n : ℕ) (es fs : List Effect) → standing n (es ++ fs) ≡ standing (standing n es) fs
unfolding standing
standing-append n [] fs = refl
standing-append n (reserve w ∷ es) fs = standing-append (n + w) es fs
standing-append n (cancel w ∷ es) fs = standing-append (n - w) es fs

abbrev outcome_price : ℕ → Outcome → ℕ
outcome_price weight again = 0
outcome_price weight (ret v) = price weight (some v)

standing-wait_round :
    (c : Class) (weight n : ℕ) (r : Round)
    → standing n (wait_round c weight r).1 ≡ n + outcome_price weight (wait_round c weight r).0
unfolding wait_round standing
standing-wait_round c weight n r = ground arith

pub standing-wait_loop :
    (c : Class) (weight n : ℕ) (rs : List Round)
    → standing n (wait_loop c weight rs).1 ≡ n + price weight (wait_loop c weight rs).0
unfolding wait_loop standing
standing-wait_loop c weight n [] = ground arith
standing-wait_loop c weight n (r ∷ rs) = ground (
  arith,
  standing-wait_round c weight n r,
  standing-append n (wait_round c weight r).1 (wait_loop c weight rs).1,
  standing-wait_loop c weight (standing n (wait_round c weight r).1) rs,
)

-- Under any interleaving `Wait` leaves a reservation standing only when it admits, and then exactly
-- one of the request's weight, a non-positive weight counting as 1: each reservation of an error
-- and of a round of waiting is cancelled with the bucket. How many tokens a cancellation restores
-- is the bucket's matter.
pub standing-wait :
    (cfg : ResolvedConfig) (c : Class) (w : ℤ) (n : ℕ) (rs : List Round)
    → standing n (wait cfg c w rs).1 ≡ n + price (or_default w 1) (wait cfg c w rs).0
unfolding wait standing
standing-wait cfg c w n rs = ground (arith, standing-wait_loop c (or_default w 1) n rs)

-- The state of affairs in which the loop sends: no pause and no backpressure, as last read.
pub record IsClear (c : Class) (r : Round) : Type 0 where
  pub no_ctx_err : r.ctx_err ≡ false
  pub no_pause : pause_remaining r.later r.after ≡ 0
  pub no_backpressure : backpressure_delay r.later c r.after ≡ 0
  pub granted : r.reservation ≢ none

wait_round-admitted :
    (c : Class) (weight : ℕ) (r : Round) → (wait_round c weight r).0 ≡ ret admitted → IsClear c r
unfolding wait_round
wait_round-admitted c weight r h = record {
  no_ctx_err = ground arith;
  no_pause = ground arith;
  no_backpressure = ground arith;
  granted = ground arith;
}

-- Every round before the last one looked at goes round again, and the last one is clear.
wait_round-admitted_effects :
    (c : Class) (weight : ℕ) (r : Round)
    → (wait_round c weight r).0 ≡ ret admitted
    → wait_round c weight r ≡ (ret admitted, reserve weight ∷ [])
unfolding wait_round
wait_round-admitted_effects c weight r h = ground arith

abbrev pub AdmittedClear : Class → ℕ → List Round → Type 0
AdmittedClear c weight [] = ⊥
AdmittedClear c weight (r ∷ rs) =
    ((wait_round c weight r ≡ (ret admitted, reserve weight ∷ [])) × IsClear c r)
    ⊎ (((wait_round c weight r).0 ≡ again) × AdmittedClear c weight rs)

wait_loop-admitted :
    (c : Class) (weight : ℕ) (rs : List Round)
    → (wait_loop c weight rs).0 ≡ some admitted
    → AdmittedClear c weight rs
unfolding wait_loop
wait_loop-admitted c weight [] h = cc
wait_loop-admitted c weight (r ∷ rs) h = ground (
  arith,
  wait_round-admitted c weight r,
  wait_round-admitted_effects c weight r,
  wait_loop-admitted c weight rs,
)

-- `Wait` sends into no pause and no backpressure: under any interleaving, a request that is
-- admitted was within its class's burst, and in the round that admits it the last reading of the
-- clock and the gate, after the wait for tokens, shows neither a pause nor a used weight at the
-- class's limit.
pub wait-admitted :
    (cfg : ResolvedConfig) (c : Class) (w : ℤ) (rs : List Round)
    → (wait cfg c w rs).0 ≡ some admitted
    → (or_default w 1 ≤ at_class cfg.burst c) × AdmittedClear c (or_default w 1) rs
unfolding wait
wait-admitted cfg c w rs h = ground (arith, wait_loop-admitted c (or_default w 1) rs)
