-- ===== src/Base/Ints.antt =====
-- Signed integers (Go's int and int64), `time.Duration` constants in nanoseconds, and
-- `strconv.Atoi`.
use Prim.Native.Nat.{ℕ, suc, ◌+◌, ◌-◌, ◌*◌, ◌%◌, ◌^◌, ◌<◌}
use mathlib.Core.Path.{◌≡◌}
use mathlib.Core.Bool.{Bool, true, false, ◌&&◌}
use mathlib.Core.Option.{Option, none, some}
use mathlib.Core.List.{[], ◌∷◌}
use native.Mathlib.Omega.{arith}
use chomo_syncer_go.Base.Tests.{leb, ltb, nat_beq, if◌then◌else◌}
use chomo_syncer_go.Base.Bytes.{Text}

-- `negsuc n` is -(n + 1).
pub data ℤ : Type 0 where
  pos : ℕ → ℤ
  negsuc : ℕ → ℤ

abbrev pub is_neg : ℤ → Bool
is_neg (pos n) = false
is_neg (negsuc n) = true

-- `v <= 0`
abbrev pub is_nonpos : ℤ → Bool
is_nonpos (pos n) = nat_beq n 0
is_nonpos (negsuc n) = true

-- `orDefault(v, def)`: what a configuration's non-positive number stands for. The same three lines
-- stand in every `resolve` and `withDefaults` of the program.
unfoldable pub or_default : ℤ → ℕ → ℕ
or_default (pos n) def = if nat_beq n 0 then def else n
or_default (negsuc n) def = def

pub or_default_pos : (v : ℤ) (def : ℕ) → 0 < def → 0 < or_default v def
unfolding or_default
or_default_pos (pos n) def h = ground arith
or_default_pos (negsuc n) def h = h

-- The two's complement reading of a number that a 64-bit register holds.
unfoldable pub wrap64 : ℕ → ℤ
wrap64 n = let m = n % 2 ^ 64 in if ltb m (2 ^ 63) then pos m else negsuc (2 ^ 64 - 1 - m)

pub wrap64_small : (n : ℕ) → n < 2 ^ 63 → wrap64 n ≡ pos n
unfolding wrap64
wrap64_small n h = ground arith

abbrev pub millisecond : ℕ
millisecond = 1_000_000

abbrev pub second : ℕ
second = 1_000_000_000

abbrev pub minute : ℕ
minute = 60 * second

abbrev pub hour : ℕ
hour = 60 * minute

unfoldable pub is_digit : ℕ → Bool
is_digit c = leb b'0' c && leb c b'9'

-- The value of a run of decimal digits; `none` at a byte that is no digit.
unfoldable pub digits_value : ℕ → Text → Option ℕ
unfolding is_digit
digits_value acc [] = some acc
digits_value acc (c ∷ cs) =
    let rest = digits_value (acc * 10 + (c - b'0')) cs in if is_digit c then rest else none

-- At least one digit.
unfoldable pub parse_uint : Text → Option ℕ
unfolding digits_value
parse_uint [] = none
parse_uint (c ∷ cs) = digits_value 0 (c ∷ cs)

abbrev pub in_range : ℕ → Option ℕ → Option ℕ
in_range bound none = none
in_range bound (some n) = if ltb n bound then some n else none

abbrev pub negate : ℕ → ℤ
negate n = if nat_beq n 0 then pos 0 else negsuc (n - 1)

abbrev pub signed : (ℕ → ℤ) → Option ℕ → Option ℤ
signed f none = none
signed f (some n) = some (f n)

-- `strconv.Atoi` and `strconv.ParseInt(s, 10, 64)`: an optional sign, digits, 64-bit range; `none`
-- is an error.
unfoldable pub atoi : Text → Option ℤ
unfolding parse_uint
atoi [] = none
atoi (c ∷ cs) =
    if nat_beq c b'-'
    then signed negate (in_range (2 ^ 63 + 1) (parse_uint cs))
    else signed pos (in_range (2 ^ 63) (parse_uint (if nat_beq c b'+' then cs else c ∷ cs)))

-- Comparison of signed integers, through natural numbers.
abbrev pub pos_part : ℤ → ℕ
pos_part (pos n) = n
pos_part (negsuc n) = 0

abbrev pub neg_part : ℤ → ℕ
neg_part (pos n) = 0
neg_part (negsuc n) = suc n

abbrev pub leb_ℤ : ℤ → ℤ → Bool
leb_ℤ a b = leb (pos_part a + neg_part b) (pos_part b + neg_part a)

abbrev pub ltb_ℤ : ℤ → ℤ → Bool
ltb_ℤ a b = ltb (pos_part a + neg_part b) (pos_part b + neg_part a)

infix 50 ◌<ℤ◌
abbrev pub ◌<ℤ◌ : ℤ → ℤ → Type 0
a <ℤ b = pos_part a + neg_part b < pos_part b + neg_part a

-- A decimal run with an optional minus sign, of any length.
unfoldable pub parse_int : Text → Option ℤ
unfolding parse_uint
parse_int [] = none
parse_int (c ∷ cs) =
    if nat_beq c b'-' then signed negate (parse_uint cs) else signed pos (parse_uint (c ∷ cs))
