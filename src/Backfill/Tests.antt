-- ===== src/Backfill/Tests.antt =====
-- Runs of internal/backfill/backfill.go on stream names.
use chomo_syncer_go.Base.{nat_eq, codes, text_eq, to_upper, ◌≡◌, refl, some, [], ◌∷◌, arith}
use chomo_syncer_go.Backfill.{parse_stream, gap_keys, keyed_parts, keyed, split_at_sign, cut_prefix}
use chomo_syncer_go.Backfill.Streams.{NoSign, parse_stream-stream_name}
use chomo_syncer_go.Sharding.{stream_name}

two_streams :
    gap_keys (codes "btcusdt@kline_1m" ∷ codes "!miniTicker@arr" ∷ codes "ethusdt@kline_" ∷ [])
    ≡ record { symbol = codes "BTCUSDT"; interval = codes "1m" } ∷ []
unfolding gap_keys parse_stream split_at_sign keyed_parts keyed cut_prefix to_upper
two_streams = refl

NoSign-btc : NoSign (codes "BTC")
NoSign-btc = (
  λ e. absurd (omega (arith, e)),
  (λ e. absurd (omega (arith, e)), (λ e. absurd (omega (arith, e)), tt)),
)

parse_stream-stream_name_example :
    parse_stream (stream_name (codes "BTC") (codes "1m"))
    ≡ some (record { symbol = to_upper (codes "BTC"); interval = codes "1m" })
parse_stream-stream_name_example =
    parse_stream-stream_name b'B' b'1' (codes "TC") (codes "m") NoSign-btc
