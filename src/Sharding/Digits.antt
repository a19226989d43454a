-- ===== src/Sharding/Digits.antt =====
-- internal/collector/sharding.go: the decimal digits of a bucket's number.
use chomo_syncer_go.Base.{
  ltb, Bool-cases, if-elim, nat_eq, Text, text_eq, is_digit, digits_value, parse_uint, ℕ, zero, suc,
  ◌+◌, ◌-◌, ◌*◌, ◌/◌, ◌%◌, ◌<◌, ◌≡◌, refl, ap, ◌∙◌, inl, inr, some, [], ◌∷◌, ◌++◌, arith,
}
use chomo_syncer_go.Sharding.{itoa, digits_of}

digits_value-snoc :
    (acc v d : ℕ) (s : Text)
    → d < 10
    → digits_value acc s ≡ some v
    → digits_value acc (s ++ (b'0' + d) ∷ []) ≡ some (v * 10 + d)
unfolding digits_value is_digit
digits_value-snoc acc v d [] l h = ground (arith, h)
digits_value-snoc acc v d (c ∷ s) l h =
    ground (arith, h, digits_value-snoc (acc * 10 + (c - b'0')) v d s l)

digits_value-digits_of : (fuel n : ℕ) → n < fuel → digits_value 0 (digits_of fuel n) ≡ some n
unfolding digits_of digits_value is_digit
digits_value-digits_of zero n l = absurd (omega arith)
digits_value-digits_of (suc fuel) n l = elim (Bool-cases (ltb n 10)) [
  | inl one ↦ rw one (ground (arith, one))
  | inr more ↦ rw more (
      digits_value-snoc 0 (n / 10) (n % 10) (digits_of fuel (n / 10)) (omega arith)
        (digits_value-digits_of fuel (n / 10) (ground (arith, more)))
      ∙ ap some (omega arith))
]

parse_uint-snoc : (s : Text) (c : ℕ) → parse_uint (s ++ c ∷ []) ≡ digits_value 0 (s ++ c ∷ [])
unfolding parse_uint
parse_uint-snoc [] c = refl
parse_uint-snoc (d ∷ s) c = refl

-- The digits of a number are read back as the number.
pub parse_uint-itoa : (n : ℕ) → parse_uint (itoa n) ≡ some n
unfolding itoa digits_of parse_uint
parse_uint-itoa n =
    if-elim (λ (s : Text). parse_uint s ≡ digits_value 0 s) (ltb n 10) refl
      (parse_uint-snoc (digits_of n (n / 10)) (b'0' + n % 10))
    ∙ digits_value-digits_of (suc n) n (omega arith)
