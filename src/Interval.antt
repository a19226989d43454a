-- ===== src/Interval.antt =====
-- parseIntervalDuration: internal/dispatcher/aggregator.go, and the copies in
-- internal/backfill/interval.go and internal/rediswin/livebar.go. Durations are int64 nanoseconds.
pub mod Grammar
mod Tests
use mathlib.Core.List.{reverse}
use chomo_syncer_go.Base.{
  if◌then◌else◌, ◌==◌, nat_eq, All, Text, text_eq, ℤ, is_nonpos, wrap64, second, is_digit, atoi, ℕ,
  ◌+◌, ◌-◌, ◌*◌, ◌%◌, ◌^◌, Option, none, some, List, [], ◌∷◌, arith, pos, negsuc,
}

-- The length of a unit in seconds; `none` is the `default` of the switch.
unfoldable pub unit_seconds : ℕ → Option ℕ
unit_seconds c =
    if c == b's'
    then some 1
    else if c == b'm'
    then some 60
    else if c == b'h'
    then some 3600
    else if c == b'd'
    then some 86400
    else if c == b'w'
    then some 604800
    else if c == b'M'
    then some 2592000
    else none

-- All bytes but the last, and the last.
unfoldable pub split_last : Text → Option (Text × ℕ)
split_last [] = none
split_last (c ∷ cs) = elim (split_last cs) [
  | none ↦ some ([], c)
  | some (front, last) ↦ some (c ∷ front, last)
]

-- `time.Duration(n) * unit`, as an int64.
unfoldable pub scale : ℕ → ℕ → Option ℤ
unfolding unit_seconds wrap64
scale unit n = elim (unit_seconds unit) [ none ↦ none | some s ↦ some (wrap64 (n * (s * second))) ]

-- The dispatcher's loop over the digits, in a 64-bit register; `none` at a byte that is no digit.
unfoldable pub digit_loop : ℕ → Text → Option ℕ
digit_loop n [] = some n
digit_loop n (c ∷ cs) =
    let rest = digit_loop ((n * 10 + (c - b'0')) % 2 ^ 64) cs in if is_digit c then rest else none

-- The dispatcher's version.
unfoldable pub parse_interval_duration : Text → Option ℤ
unfolding split_last digit_loop scale
parse_interval_duration interval = elim (split_last interval) [
  | none ↦ none
  | some ([], unit) ↦ none
  | some (c ∷ cs, unit) ↦ elim (digit_loop 0 (c ∷ cs)) [
    | none ↦ none
    | some n ↦ if is_nonpos (wrap64 n) then none else scale unit n
  ]
]

-- The version of backfill and rediswin, by strconv.Atoi.
unfoldable pub parse_interval_atoi : Text → Option ℤ
unfolding split_last atoi scale
parse_interval_atoi interval = elim (split_last interval) [
  | none ↦ none
  | some ([], unit) ↦ none
  | some (c ∷ cs, unit) ↦ elim (atoi (c ∷ cs)) [
    | none ↦ none
    | some (negsuc n) ↦ none
    | some (pos n) ↦ if n == 0 then none else scale unit n
  ]
]
