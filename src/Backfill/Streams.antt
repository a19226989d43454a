-- ===== src/Backfill/Streams.antt =====
-- internal/backfill/backfill.go reads the stream names that internal/collector/sharding.go writes.
use chomo_syncer_go.Base.{
  nat_eq, All, Text, codes, text_eq, upper_byte, lower_byte, to_upper, to_lower, ℕ, ◌≡◌, refl, ap,
  ◌∙◌, ◌≢◌, some, [], ◌∷◌, ◌++◌, arith,
}
use chomo_syncer_go.Sharding.{stream_name}
use chomo_syncer_go.Backfill.{split_at_sign, cut_prefix, parse_stream, keyed_parts, keyed}

-- A byte that is not '@' in a symbol.
abbrev pub NoSign : Text → Type 0
NoSign = All (λ c. c ≢ b'@')

lower_byte-sign : (c : ℕ) → c ≢ b'@' → lower_byte c ≢ b'@'
unfolding lower_byte
lower_byte-sign c h e = ground (arith, h, e)

upper_byte-lower_byte : (c : ℕ) → upper_byte (lower_byte c) ≡ upper_byte c
unfolding upper_byte lower_byte
upper_byte-lower_byte c = ground arith

to_upper-to_lower : (s : Text) → to_upper (to_lower s) ≡ to_upper s
unfolding to_upper to_lower
to_upper-to_lower [] = refl
to_upper-to_lower (c ∷ s) = cc (upper_byte-lower_byte c, to_upper-to_lower s)

split_at_sign-to_lower :
    (s t : Text) → NoSign s → split_at_sign (to_lower s ++ b'@' ∷ t) ≡ some (to_lower s, t)
unfolding split_at_sign to_lower
split_at_sign-to_lower [] t n = refl
split_at_sign-to_lower (c ∷ s) t (h, n) =
    ground (arith, lower_byte-sign c h, split_at_sign-to_lower s t n)

-- A gap event names the keys of its streams: from the name of the stream of a symbol, which is not
-- empty and has no '@', and an interval that is not empty, the backfiller reads the symbol in upper
-- case and the interval.
pub parse_stream-stream_name :
    (c d : ℕ) (cs ds : Text)
    → NoSign (c ∷ cs)
    → parse_stream (stream_name (c ∷ cs) (d ∷ ds))
      ≡ some (record { symbol = to_upper (c ∷ cs); interval = d ∷ ds })
unfolding parse_stream stream_name keyed_parts keyed cut_prefix to_lower
parse_stream-stream_name c d cs ds n =
    ap keyed_parts (split_at_sign-to_lower (c ∷ cs) (codes "kline_" ++ (d ∷ ds)) n)
    ∙ ap (λ symbol. some (record { symbol = symbol; interval = d ∷ ds }))
        (to_upper-to_lower (c ∷ cs))
