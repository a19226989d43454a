-- ===== src/Aggregator/Derived.antt =====
-- internal/dispatcher/aggregator.go: the cascade to coarser intervals.
use native.Mathlib.Nat.{mod-eq_of_lt, mod-eq-sub-mod, add-mod_right}
use native.Mathlib.Decide.{dec_le}
use chomo_syncer_go.Base.{
  nat_beq_iff, Bool-cases, ◌==◌, nat_eq, length, text_eq, ℕ, zero, suc, ◌+◌, ◌-◌, ◌%◌, ◌≤◌, ◌<◌,
  ◌≡◌, refl, sym, ◌∙◌, ◌≢◌, inl, inr, List, [], ◌∷◌, arith,
}
use chomo_syncer_go.Aggregator.{DerivedInterval, ReadyEvent, publish_derived}

-- An event is the section of `di` whose bucket the base bar at `t` closes.
pub record Closes (base_ms t count : ℕ) (di : DerivedInterval) (e : ReadyEvent) : Type 0 where
  pub named : e.interval ≡ di.name
  pub ends : e.timestamp + di.ms ≡ t + base_ms
  pub aligned : e.timestamp % di.ms ≡ 0
  pub counted : e.symbols_count ≡ count

-- The derived events of a base section are those of the configured intervals whose bucket ends with
-- the base bar, in the order of the configuration.
pub data Cascade (base_ms t count : ℕ) : List DerivedInterval → List ReadyEvent → Type 0 where
  done : Cascade base_ms t count [] []
  skip :
      {di : DerivedInterval} {ds : List DerivedInterval} {es : List ReadyEvent}
      → ((s : ℕ) → s % di.ms ≡ 0 → s + di.ms ≢ t + base_ms)
      → Cascade base_ms t count ds es
      → Cascade base_ms t count (di ∷ ds) es
  send :
      {di : DerivedInterval} {ds : List DerivedInterval} {e : ReadyEvent} {es : List ReadyEvent}
      → Closes base_ms t count di e
      → Cascade base_ms t count ds es
      → Cascade base_ms t count (di ∷ ds) (e ∷ es)

due_fits : (m d : ℕ) → 0 < m → m % d ≡ 0 → d ≤ m
due_fits m d h e = elim (dec_le d m) [
  | yes p ↦ p
  | no p ↦ absurd (omega (arith, mod-eq_of_lt {n = m} {m = d} (omega arith)))
]

due_aligned : (m d : ℕ) → d ≤ m → m % d ≡ 0 → (m - d) % d ≡ 0
due_aligned m d h e = sym (mod-eq-sub-mod h) ∙ e

not_due : (m d s : ℕ) → m % d ≢ 0 → s % d ≡ 0 → s + d ≢ m
not_due m d s n e f = n (rw (← f, add-mod_right s d) e)

-- The cascade of a base section with a positive base length sends exactly the coarser sections
-- whose bucket the base bar closes, with the base section's symbol count, as long as the dispatcher
-- stays open.
pub publish_derived-Cascade :
    (ds : List DerivedInterval) (base_ms t count opens : ℕ)
    → 0 < base_ms
    → length ds ≤ opens
    → Cascade base_ms t count ds (publish_derived ds base_ms t count opens)
unfolding publish_derived
publish_derived-Cascade [] base_ms t count opens h k = done
publish_derived-Cascade (di ∷ ds) base_ms t count zero h k = absurd (omega arith)
publish_derived-Cascade (di ∷ ds) base_ms t count (suc opens) h k =
    elim (Bool-cases ((t + base_ms) % di.ms == 0)) [
      | inl due ↦
          let z : (t + base_ms) % di.ms ≡ 0 = (nat_beq_iff _ 0).0 due in
          let fits : di.ms ≤ t + base_ms = due_fits (t + base_ms) di.ms (omega arith) z in
          rw due (
            send
              (record {
                named = refl;
                ends = omega arith;
                aligned = due_aligned (t + base_ms) di.ms fits z;
                counted = refl;
              })
              (publish_derived-Cascade ds base_ms t count opens h (omega arith)))
      | inr other ↦ rw other (
          skip (λ s e. not_due (t + base_ms) di.ms s (ground arith) e)
            (publish_derived-Cascade ds base_ms t count (suc opens) h (omega arith)))
    ]
