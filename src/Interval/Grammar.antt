-- ===== src/Interval/Grammar.antt =====
-- parseIntervalDuration: where the copies agree, and where they do not.
use chomo_syncer_go.Base.{
  Bool-cases, nat_eq, Text, text_eq, wrap64, wrap64_small, second, is_digit, digits_value,
  parse_uint, atoi, ℕ, ◌+◌, ◌-◌, ◌*◌, ◌%◌, ◌^◌, ◌≤◌, ◌<◌, ◌≡◌, inl, inr, none, some, [], ◌∷◌, arith,
  pos,
}
use chomo_syncer_go.Interval.{
  split_last, digit_loop, parse_interval_duration, parse_interval_atoi, unit_seconds,
}

digits_value_ge : (acc n : ℕ) (cs : Text) → digits_value acc cs ≡ some n → acc ≤ n
unfolding digits_value
digits_value_ge acc n [] h = ground arith
digits_value_ge acc n (c ∷ cs) h = ground (arith, digits_value_ge (acc * 10 + (c - b'0')) n cs)

-- Below 2^64 the register of the loop does not wrap.
digit_loop-digits_value :
    (acc n : ℕ) (cs : Text) → n < 2 ^ 64 → digits_value acc cs ≡ some n → digit_loop acc cs ≡ some n
unfolding digits_value digit_loop
digit_loop-digits_value acc n [] k h = h
digit_loop-digits_value acc n (c ∷ cs) k h = elim (Bool-cases (is_digit c)) [
  | inl d ↦
      let step : digits_value (acc * 10 + (c - b'0')) cs ≡ some n = ground arith in
      let small : (acc * 10 + (c - b'0')) % 2 ^ 64 ≡ acc * 10 + (c - b'0') =
        omega (arith, digits_value_ge (acc * 10 + (c - b'0')) n cs step) in
      rw (d, small) (digit_loop-digits_value (acc * 10 + (c - b'0')) n cs k step)
  | inr o ↦ ground arith
]

atoi_digits :
    (c n : ℕ) (cs : Text)
    → n < 2 ^ 63
    → digits_value 0 (c ∷ cs) ≡ some n
    → atoi (c ∷ cs) ≡ some (pos n)
unfolding atoi digits_value parse_uint
atoi_digits c n cs k h = ground arith

-- On a number written in digits alone and below 2^63 the dispatcher's copy agrees with the others,
-- for every unit, known or not.
pub parse_interval_duration-atoi :
    (interval front : Text) (unit n : ℕ)
    → split_last interval ≡ some (front, unit)
    → parse_uint front ≡ some n
    → n < 2 ^ 63
    → parse_interval_duration interval ≡ parse_interval_atoi interval
unfolding parse_interval_duration parse_interval_atoi parse_uint
parse_interval_duration-atoi interval [] unit n s h k = ground arith
parse_interval_duration-atoi interval (c ∷ cs) unit n s h k =
    let value : digits_value 0 (c ∷ cs) ≡ some n = h in
    rw (
      s,
      parse_interval_duration,
      parse_interval_atoi,
      digit_loop-digits_value 0 n (c ∷ cs) (omega arith) value,
      atoi_digits c n cs k value,
      wrap64_small n k,
    )

-- They differ on a sign: `+` before a positive number of digits is accepted by backfill and
-- rediswin, for every known unit, and refused by the dispatcher.
pub parse_interval_plus :
    (interval digits : Text) (unit n s : ℕ)
    → split_last interval ≡ some (b'+' ∷ digits, unit)
    → parse_uint digits ≡ some n
    → 0 < n
    → n < 2 ^ 63
    → unit_seconds unit ≡ some s
    → (parse_interval_duration interval ≡ none)
      × (parse_interval_atoi interval ≡ some (wrap64 (n * (s * second))))
unfolding parse_interval_duration parse_interval_atoi atoi
parse_interval_plus interval digits unit n s e h k l u =
    (rw (e, parse_interval_duration), rw (e, parse_interval_atoi) (ground (arith, h, u)))
