-- ===== src/RedisWin/Prefix.antt =====
-- internal/rediswin/writer.go: startTimeOf in Go and the pattern of the Lua script read the same
-- timestamp from a payload.
use chomo_syncer_go.Base.{
  nat_eq, Text, text_eq, ℤ, is_digit, parse_uint, in_range, negate, signed, atoi, parse_int, ℕ, ◌+◌,
  ◌^◌, ◌≡◌, ◌≢◌, Option, none, some, [], ◌∷◌, arith, pos,
}
use chomo_syncer_go.RedisWin.{leading_int, head_time, start_time_of}

signed-in_range :
    (f : ℕ → ℤ) (bound : ℕ) (o : Option ℕ) (z : ℤ)
    → signed f (in_range bound o) ≡ some z
    → signed f o ≡ some z
signed-in_range f bound none z h = h
signed-in_range f bound (some n) z h = ground arith

-- A number that starts with a plus sign is not one that `leading_int` lets through.
leading_int-no_plus : (s : Text) (cs : Text) → leading_int s ≢ b'+' ∷ cs
unfolding leading_int is_digit
leading_int-no_plus [] cs h = cc
leading_int-no_plus (c ∷ s) cs h = ground arith

atoi-parse_int :
    (s : Text) (z : ℤ) → ((cs : Text) → s ≢ b'+' ∷ cs) → atoi s ≡ some z → parse_int s ≡ some z
unfolding atoi parse_int
atoi-parse_int [] z n h = cc
atoi-parse_int (c ∷ cs) z n h = ground (
  arith,
  n cs,
  signed-in_range negate (2 ^ 63 + 1) (parse_uint cs) z,
  signed-in_range pos (2 ^ 63) (parse_uint (c ∷ cs)) z,
)

-- Whenever `startTimeOf` accepts a payload, the timestamp with which `PushRawAndTrim` calls the
-- script is the one that later pushes read from the stored payload.
pub start_time_of-head_time : (p : Text) (z : ℤ) → start_time_of p ≡ some z → head_time p ≡ some z
unfolding start_time_of head_time
start_time_of-head_time [] z h = cc
start_time_of-head_time (c ∷ cs) z h =
    ground (arith, atoi-parse_int (leading_int cs) z (leading_int-no_plus cs))
