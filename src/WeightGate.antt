-- ===== src/WeightGate.antt =====
-- internal/weightgate/gate.go: the shared admission gate of the /fapi request-weight budget.
-- Instants are nanoseconds since 1970 and durations are nanoseconds. Prometheus metrics and logs
-- are left out.
pub mod Settings
pub mod Pauses
pub mod Wait
pub mod Admission
pub mod Progress
mod Tests
use chomo_syncer_go.Base.{
  ltb, leb, if◌then◌else◌, ◌==◌, nat_eq, Text, codes, text_eq, ℤ, is_neg, or_default, wrap64,
  second, minute, atoi, ℕ, ◌+◌, ◌-◌, ◌*◌, ◌/◌, ◌%◌, max, not, Option, none, some, List, [], ◌∷◌,
  arith, pos, negsuc,
}

-- `other` is any value of the Go type outside the three constants.
pub data Class : Type 0 where
  live bulk misc other : Class

pub record Config : Type 0 where
  pub live_budget : ℤ
  pub bulk_budget : ℤ
  pub misc_budget : ℤ
  pub live_burst : ℤ
  pub bulk_burst : ℤ
  pub misc_burst : ℤ
  pub soft_limit : ℤ
  pub hard_limit : ℤ

-- An array indexed by the three classes.
pub record PerClass : Type 0 where
  pub at_live : ℕ
  pub at_bulk : ℕ
  pub at_misc : ℕ

abbrev pub at_class : PerClass → Class → ℕ
at_class a live = a.at_live
at_class a bulk = a.at_bulk
at_class a misc = a.at_misc
at_class a other = 0

pub record ResolvedConfig : Type 0 where
  pub budget : PerClass
  pub burst : PerClass
  pub soft : ℕ
  pub hard : ℕ

abbrev pub exchange_weight_per_minute : ℕ
exchange_weight_per_minute = 2400

abbrev pub default_live_budget : ℕ
default_live_budget = 600

abbrev pub default_bulk_budget : ℕ
default_bulk_budget = 1200

abbrev pub default_misc_budget : ℕ
default_misc_budget = 100

abbrev pub default_soft_limit : ℕ
default_soft_limit = 1800

abbrev pub default_hard_limit : ℕ
default_hard_limit = 2300

resolve_budget : Config → PerClass
resolve_budget c = record {
  at_live = or_default c.live_budget default_live_budget;
  at_bulk = or_default c.bulk_budget default_bulk_budget;
  at_misc = or_default c.misc_budget default_misc_budget;
}

resolve_burst : Config → PerClass → PerClass
resolve_burst c budget = record {
  at_live = or_default c.live_burst budget.at_live;
  at_bulk = or_default c.bulk_burst (max (budget.at_bulk / 6) 10);
  at_misc = or_default c.misc_burst budget.at_misc;
}

-- `Config.resolve`
unfoldable pub resolve : Config → ResolvedConfig
unfolding resolve_budget resolve_burst
resolve c = record {
  budget = resolve_budget c;
  burst = resolve_burst c (resolve_budget c);
  soft = or_default c.soft_limit default_soft_limit;
  hard = or_default c.hard_limit default_hard_limit;
}

pub data ConfigError : Type 0 where
  negative : Text → ConfigError
  budgets_exceed_cap : ℕ → ConfigError
  soft_above_hard : ℕ → ℕ → ConfigError
  hard_exceeds_cap : ℕ → ConfigError

-- The table that `Validate` walks.
abbrev pub settings : Config → List (Text × ℤ)
settings c =
    (codes "live_budget", c.live_budget)
    ∷ (codes "bulk_budget", c.bulk_budget)
    ∷ (codes "misc_budget", c.misc_budget)
    ∷ (codes "live_burst", c.live_burst)
    ∷ (codes "bulk_burst", c.bulk_burst)
    ∷ (codes "misc_burst", c.misc_burst)
    ∷ (codes "soft_limit", c.soft_limit)
    ∷ (codes "hard_limit", c.hard_limit)
    ∷ []

unfoldable pub first_negative : List (Text × ℤ) → Option ConfigError
first_negative [] = none
first_negative ((name, v) ∷ fs) = if is_neg v then some (negative name) else first_negative fs

abbrev pub budget_sum : ResolvedConfig → ℕ
budget_sum r = r.budget.at_live + r.budget.at_bulk + r.budget.at_misc

unfoldable pub check_limits : ResolvedConfig → Option ConfigError
check_limits r =
    if ltb exchange_weight_per_minute (budget_sum r)
    then some (budgets_exceed_cap (budget_sum r))
    else if ltb r.hard r.soft
    then some (soft_above_hard r.soft r.hard)
    else if ltb exchange_weight_per_minute r.hard
    then some (hard_exceeds_cap r.hard)
    else none

-- `Config.Validate`; `none` is a nil error.
unfoldable pub validate : Config → Option ConfigError
unfolding first_negative check_limits
validate c = elim (first_negative (settings c)) [
  | some e ↦ some e
  | none ↦ check_limits (resolve c)
]

pub record Observation : Type 0 where
  pub used : ℕ
  pub taken_at : ℕ

pub record Gate : Type 0 where
  pub cfg : ResolvedConfig
  -- 0 = not paused
  pub paused_until_ns : ℕ
  pub obs : Option Observation

-- `New`: the soft limit is clamped to the hard one.
unfoldable pub new : Config → Gate
new cfg =
    let rc = resolve cfg in
    record {
      cfg = if ltb rc.hard rc.soft then record rc { soft = rc.hard } else rc;
      paused_until_ns = 0;
      obs = none;
    }

-- `Observe`
unfoldable pub observe : ℤ → ℕ → Gate → Gate
observe (negsuc n) now g = g
observe (pos used) now g = record g { obs = some (record { used = used; taken_at = now }) }

-- `PauseFor`: the compare-and-swap loop ends with its read and its write as one atomic step.
unfoldable pub pause_for : ℤ → ℕ → Gate → Gate
pause_for (negsuc n) now g = g
pause_for (pos d) now g =
    if d == 0
    then g
    else if leb (now + d) g.paused_until_ns
    then g
    else record g { paused_until_ns = now + d }

-- `ParseUsedWeight` on the value of the X-MBX-USED-WEIGHT-1M header, empty when it is missing.
unfoldable pub parse_used_weight : Text → Option ℤ
unfolding atoi
parse_used_weight v = elim (atoi v) [ none ↦ none | some n ↦ if is_neg n then none else some n ]

-- `ObserveHeader`
unfoldable pub observe_header : Text → ℕ → Gate → Gate
observe_header v now g = elim (parse_used_weight v) [ none ↦ g | some used ↦ observe used now g ]

-- `RetryAfter` on the value of the Retry-After header; the product wraps as an int64 does.
unfoldable pub retry_after : Text → ℤ → ℤ
unfolding atoi wrap64
retry_after v fallback = elim (atoi v) [
  | none ↦ fallback
  | some (negsuc n) ↦ fallback
  | some (pos secs) ↦ if secs == 0 then fallback else wrap64 (secs * second)
]

-- `pauseRemaining`. A pause that is over gives 0 here and a negative duration in the source; the
-- callers only ask whether it is positive.
unfoldable pub pause_remaining : Gate → ℕ → ℕ
pause_remaining g now = if g.paused_until_ns == 0 then 0 else g.paused_until_ns - now

-- The end of the UTC minute that an observation was taken in.
abbrev pub minute_end : ℕ → ℕ
minute_end t = t - t % minute + minute

abbrev pub limit_of : ResolvedConfig → Class → ℕ
limit_of cfg bulk = cfg.soft
limit_of cfg _ = cfg.hard

-- `backpressureDelay`
unfoldable pub backpressure_delay : Gate → Class → ℕ → ℕ
backpressure_delay g c now = elim g.obs [
  | none ↦ 0
  | some o ↦
      if leb (minute_end o.taken_at) now
      then 0
      else if ltb o.used (limit_of g.cfg c)
      then 0
      else minute_end o.taken_at - now
]
