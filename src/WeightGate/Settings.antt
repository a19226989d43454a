-- ===== src/WeightGate/Settings.antt =====
-- internal/weightgate/gate.go: what Config.resolve, Config.Validate and New make of any settings.
use chomo_syncer_go.Base.{
  Option-cases, nat_eq, All, Text, text_eq, ℤ, is_neg, or_default, or_default_pos, ◌/◌, ◌≤◌, ◌<◌,
  max, ◌≡◌, refl, ◌↔◌, inl, inr, false, none, List, [], ◌∷◌, arith,
}
use chomo_syncer_go.WeightGate.{
  Config, ResolvedConfig, resolve, validate, settings, first_negative, check_limits, budget_sum,
  exchange_weight_per_minute, new,
}

-- What a gate needs of its settings to admit anything at all.
pub record IsUsable (r : ResolvedConfig) : Type 0 where
  pub budgets : (0 < r.budget.at_live) × (0 < r.budget.at_bulk) × (0 < r.budget.at_misc)
  pub bursts : (0 < r.burst.at_live) × (0 < r.burst.at_bulk) × (0 < r.burst.at_misc)
  pub thresholds : (0 < r.soft) × (r.soft ≤ r.hard)

-- `New` makes a usable gate of any settings, negative and contradictory ones included: every
-- budget, burst and threshold is positive, and the soft limit is at most the hard one.
pub new-IsUsable : (c : Config) → IsUsable (new c).cfg
unfolding new resolve
new-IsUsable c = ground (
  arith,
  or_default_pos c.live_budget 600,
  or_default_pos c.bulk_budget 1200,
  or_default_pos c.misc_budget 100,
  or_default_pos c.live_burst (or_default c.live_budget 600),
  or_default_pos c.bulk_burst (max (or_default c.bulk_budget 1200 / 6) 10),
  or_default_pos c.misc_burst (or_default c.misc_budget 100),
  or_default_pos c.soft_limit 1800,
  or_default_pos c.hard_limit 2300,
)

abbrev IsNonneg : ℤ → Type 0
IsNonneg v = is_neg v ≡ false

-- What `Validate` promises: no setting is negative, the three budgets together stay within the
-- exchange's cap, and soft limit ≤ hard limit ≤ cap.
pub record IsSound (c : Config) : Type 0 where
  pub nonneg : All (λ (f : Text × ℤ). IsNonneg f.1) (settings c)
  pub within_cap : budget_sum (resolve c) ≤ exchange_weight_per_minute
  pub ordered : (resolve c).soft ≤ (resolve c).hard
  pub hard_within_cap : (resolve c).hard ≤ exchange_weight_per_minute

first_negative-none :
    (fs : List (Text × ℤ)) → first_negative fs ≡ none → All (λ (f : Text × ℤ). IsNonneg f.1) fs
unfolding first_negative
first_negative-none [] h = tt
first_negative-none ((name, v) ∷ fs) h = ground (arith, first_negative-none fs)

first_negative-of_nonneg :
    (fs : List (Text × ℤ)) → All (λ (f : Text × ℤ). IsNonneg f.1) fs → first_negative fs ≡ none
unfolding first_negative
first_negative-of_nonneg [] h = refl
first_negative-of_nonneg ((name, v) ∷ fs) h = rw h.0 (first_negative-of_nonneg fs h.1)

check_limits-none :
    (c : Config)
    → All (λ (f : Text × ℤ). IsNonneg f.1) (settings c)
    → check_limits (resolve c) ≡ none
    → IsSound c
unfolding check_limits
check_limits-none c n h = record {
  nonneg = n;
  within_cap = ground arith;
  ordered = ground arith;
  hard_within_cap = ground arith;
}

check_limits-of_sound : (c : Config) → IsSound c → check_limits (resolve c) ≡ none
unfolding check_limits
check_limits-of_sound c s = ground (arith, s.within_cap, s.ordered, s.hard_within_cap)

-- `Validate` returns nil exactly on sound settings.
pub validate_iff : (c : Config) → (validate c ≡ none) ↔ IsSound c
unfolding validate
validate_iff c = elim (Option-cases (first_negative (settings c))) [
  | inl e ↦ (
    λ h. check_limits-none c (first_negative-none (settings c) e) (rw (e, validate) at h),
    λ s. rw (e, validate) (check_limits-of_sound c s),
  )
  | inr (x, e) ↦ (
    λ h. absurd (cc (rw (e, validate) at h)),
    λ s. absurd (cc (first_negative-of_nonneg (settings c) s.nonneg, e)),
  )
]

-- `New` changes nothing that `Validate` has accepted: the limits that the gate runs with are the
-- resolved settings, and their budgets leave the exchange's cap.
pub new_of_valid :
    (c : Config)
    → validate c ≡ none
    → ((new c).cfg ≡ resolve c) × (budget_sum (new c).cfg ≤ exchange_weight_per_minute)
unfolding new
new_of_valid c h =
    let s = (validate_iff c).0 h in
    (ground (arith, s.ordered), ground (arith, s.ordered, s.within_cap))
