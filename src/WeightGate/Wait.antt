-- ===== src/WeightGate/Wait.antt =====
-- internal/weightgate/gate.go: the loop of Gate.Wait. Other goroutines change the gate and the
-- token bucket (golang.org/x/time/rate, a library) while the caller sleeps, so each iteration takes
-- what it sees of them from a `Round`; the list of rounds is any interleaving at all.
use chomo_syncer_go.Base.{
  ltb, if◌then◌else◌, nat_eq, text_eq, ℤ, or_default, ℕ, Bool, true, false, not, ◌&&◌, ◌||◌, Option,
  none, some, List, [], ◌∷◌, ◌++◌,
}
use chomo_syncer_go.WeightGate.{
  Class, other, ResolvedConfig, at_class, Gate, pause_remaining, backpressure_delay,
}

pub record Round : Type 0 where
  -- ctx.Err() at the top of the iteration
  pub ctx_err : Bool
  pub now : ℕ
  -- the gate as the checks before the reservation read it
  pub before : Gate
  -- whether the iteration's sleep, if it has one, is cut short by ctx
  pub sleep_err : Bool
  -- ReserveN: `none` if it is not OK, else the delay until the tokens are there
  pub reservation : Option ℕ
  -- the clock and the gate after that delay
  pub after : ℕ
  pub later : Gate

pub data Verdict : Type 0 where
  unknown_class exceeds_burst interrupted admitted : Verdict

-- `continue`, or a return.
pub data Outcome : Type 0 where
  again : Outcome
  ret : Verdict → Outcome

-- What the loop asks of the token bucket.
pub data Effect : Type 0 where
  reserve : ℕ → Effect
  cancel : ℕ → Effect

-- A sleep: interrupted, or on to the next iteration.
abbrev slept : Bool → Outcome
slept err = if err then ret interrupted else again

-- The iteration from the reservation on. `r.CancelAt` cancels the reservation.
unfoldable pub take_tokens : Class → ℕ → Round → Outcome × List Effect
take_tokens c weight r = elim r.reservation [
  | none ↦ (ret exceeds_burst, [])
  | some d ↦
      if ltb 0 d && r.sleep_err
      then (ret interrupted, reserve weight ∷ cancel weight ∷ [])
      else if ltb 0 (pause_remaining r.later r.after)
          || ltb 0 (backpressure_delay r.later c r.after)
      then (again, reserve weight ∷ cancel weight ∷ [])
      else (ret admitted, reserve weight ∷ [])
]

-- One iteration of the loop.
unfoldable pub wait_round : Class → ℕ → Round → Outcome × List Effect
unfolding take_tokens
wait_round c weight r =
    if r.ctx_err
    then (ret interrupted, [])
    else if ltb 0 (pause_remaining r.before r.now)
    then (slept r.sleep_err, [])
    else if ltb 0 (backpressure_delay r.before c r.now)
    then (slept r.sleep_err, [])
    else take_tokens c weight r

-- The loop over an interleaving; `none` if it is still waiting when the rounds end.
unfoldable pub wait_loop : Class → ℕ → List Round → Option Verdict × List Effect
wait_loop c weight [] = (none, [])
wait_loop c weight (r ∷ rs) =
    let rest = wait_loop c weight rs in
    elim (wait_round c weight r).0 [
      | again ↦ (rest.0, (wait_round c weight r).1 ++ rest.1)
      | ret v ↦ (some v, (wait_round c weight r).1)
    ]

abbrev is_known : Class → Bool
is_known other = false
is_known _ = true

-- `Wait`: the checks before the loop, then the loop.
unfoldable pub wait : ResolvedConfig → Class → ℤ → List Round → Option Verdict × List Effect
wait cfg c w rs =
    let weight = or_default w 1 in
    if not (is_known c)
    then (some unknown_class, [])
    else if ltb (at_class cfg.burst c) weight
    then (some exceeds_burst, [])
    else wait_loop c weight rs
