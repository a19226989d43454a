-- ===== src/WeightGate/Progress.antt =====
-- internal/weightgate/gate.go: Gate.Wait ends when the gate is left alone.
use chomo_syncer_go.Base.{
  ltb, if◌then◌else◌, Bool-cases, nat_eq, text_eq, ℤ, or_default, ℕ, ◌+◌, ◌≤◌, ◌<◌, ◌≡◌, ◌≢◌, inl,
  inr, false, some, List, ◌∷◌, arith,
}
use chomo_syncer_go.WeightGate.{
  Class, other, ResolvedConfig, at_class, Gate, pause_remaining, backpressure_delay,
}
use chomo_syncer_go.WeightGate.Pauses.{pause_remaining_mono, backpressure_delay_mono}
use chomo_syncer_go.WeightGate.Wait.{
  Round, Verdict, admitted, again, ret, take_tokens, wait_round, wait_loop, wait,
}

-- What still has to be slept off before the loop reserves tokens.
abbrev pub pending : Gate → Class → ℕ → ℕ
pending g c t =
    if ltb 0 (pause_remaining g t) then pause_remaining g t else backpressure_delay g c t

-- A quiet iteration: nobody reports to the gate, no ctx ends, the bucket accepts the request and
-- the clock does not run backwards.
pub record IsQuiet (g : Gate) (r : Round) : Type 0 where
  pub no_ctx_err : r.ctx_err ≡ false
  pub no_sleep_err : r.sleep_err ≡ false
  pub same_before : r.before ≡ g
  pub same_later : r.later ≡ g
  pub accepted : (d : ℕ) × (r.reservation ≡ some d)
  pub forward : r.now ≤ r.after

wait_round-again :
    (g : Gate) (c : Class) (weight : ℕ) (r : Round)
    → IsQuiet g r
    → 0 < pending g c r.now
    → (wait_round c weight r).0 ≡ again
unfolding wait_round
wait_round-again g c weight r q h = rw (q.no_ctx_err, q.no_sleep_err, q.same_before) (ground arith)

take_tokens-admits :
    (c : Class) (weight d : ℕ) (r : Round)
    → r.reservation ≡ some d
    → r.sleep_err ≡ false
    → pause_remaining r.later r.after ≡ 0
    → backpressure_delay r.later c r.after ≡ 0
    → (take_tokens c weight r).0 ≡ ret admitted
unfolding take_tokens
take_tokens-admits c weight d r e f h k = ground arith

wait_round-admits :
    (g : Gate) (c : Class) (weight : ℕ) (r : Round)
    → IsQuiet g r
    → pause_remaining g r.now ≡ 0
    → backpressure_delay g c r.now ≡ 0
    → (wait_round c weight r).0 ≡ ret admitted
unfolding wait_round
wait_round-admits g c weight r q h k = ground (
  arith,
  take_tokens-admits c weight q.accepted.0 r q.accepted.1 q.no_sleep_err,
  pause_remaining_mono g r.now r.after,
  backpressure_delay_mono g c r.now r.after,
)

wait_loop-again :
    (c : Class) (weight : ℕ) (r : Round) (rs : List Round)
    → (wait_round c weight r).0 ≡ again
    → (wait_loop c weight (r ∷ rs)).0 ≡ (wait_loop c weight rs).0
unfolding wait_loop
wait_loop-again c weight r rs h = rw (h, wait_loop)

wait_loop-ret :
    (c : Class) (weight : ℕ) (r : Round) (rs : List Round) {v : Verdict}
    → (wait_round c weight r).0 ≡ ret v
    → (wait_loop c weight (r ∷ rs)).0 ≡ some v
unfolding wait_loop
wait_loop-ret c weight r rs h = rw (h, wait_loop)

-- Without a pause two rounds are enough.
wait_loop-unpaused :
    (g : Gate) (c : Class) (weight : ℕ) (s t : Round) (rest : List Round)
    → IsQuiet g s
    → IsQuiet g t
    → pause_remaining g s.now ≡ 0
    → s.now + pending g c s.now ≤ t.now
    → (wait_loop c weight (s ∷ t ∷ rest)).0 ≡ some admitted
wait_loop-unpaused g c weight s t rest q u h l = ground (
  arith,
  wait_round-again g c weight s q,
  wait_round-admits g c weight s q h,
  wait_round-admits g c weight t u,
  wait_loop-again c weight s (t ∷ rest),
  wait_loop-ret c weight s (t ∷ rest) {v = admitted},
  wait_loop-ret c weight t rest {v = admitted},
  pause_remaining_mono g s.now t.now,
  backpressure_delay_mono g c s.now t.now,
)

wait_loop-admits :
    (g : Gate) (c : Class) (weight : ℕ) (r s t : Round) (rest : List Round)
    → IsQuiet g r
    → IsQuiet g s
    → IsQuiet g t
    → r.now + pending g c r.now ≤ s.now
    → s.now + pending g c s.now ≤ t.now
    → (wait_loop c weight (r ∷ s ∷ t ∷ rest)).0 ≡ some admitted
wait_loop-admits g c weight r s t rest qr qs qt h l =
    elim (Bool-cases (ltb 0 (pause_remaining g r.now))) [
      | inl e ↦ ground (
        arith,
        wait_round-again g c weight r qr,
        wait_loop-again c weight r (s ∷ t ∷ rest),
        wait_loop-unpaused g c weight s t rest qs qt,
        pause_remaining_mono g r.now s.now,
      )
      | inr e ↦ ground (
        arith,
        wait_round-again g c weight r qr,
        wait_loop-again c weight r (s ∷ t ∷ rest),
        wait_round-admits g c weight r qr,
        wait_loop-ret c weight r (s ∷ t ∷ rest) {v = admitted},
        wait_loop-unpaused g c weight s t rest qs qt,
        pause_remaining_mono g r.now s.now,
      )
    ]

-- `Wait` ends: in a quiet interleaving whose sleeps last at least what was asked for, three rounds
-- are enough for any known class and any weight within the burst.
pub wait_admits :
    (g : Gate) (cfg : ResolvedConfig) (c : Class) (w : ℤ) (r s t : Round) (rest : List Round)
    → c ≢ other
    → or_default w 1 ≤ at_class cfg.burst c
    → IsQuiet g r
    → IsQuiet g s
    → IsQuiet g t
    → r.now + pending g c r.now ≤ s.now
    → s.now + pending g c s.now ≤ t.now
    → (wait cfg c w (r ∷ s ∷ t ∷ rest)).0 ≡ some admitted
unfolding wait
wait_admits g cfg c w r s t rest k b qr qs qt h l =
    let done = wait_loop-admits g c (or_default w 1) r s t rest qr qs qt h l in ground (arith, done)
