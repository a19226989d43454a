-- ===== src/Sharding/Tests.antt =====
-- Runs of internal/collector/sharding.go, with the length of a text for its checksum, and the
-- theorems on it there.
use chomo_syncer_go.Base.{
  nat_eq, length, Text, codes, text_eq, to_upper, to_lower, lookup, insert, contains, add_elem, ℕ,
  ◌≡◌, refl, true, List, [], ◌∷◌, pos,
}
use chomo_syncer_go.Universe.{sort, insert_text, text_leb}
use chomo_syncer_go.Sharding.{
  stream_name, itoa, digits_of, shard_id, get_set, without_set, diff_sets, bucket_of, id_of,
  plan_streams, plan_intervals, plan_interval,
}

abbrev symbols : List Text
symbols = codes "BTCUSDT" ∷ codes "1000PEPEUSDT" ∷ codes "ETHUSDT" ∷ []

abbrev intervals : List Text
intervals = codes "1m" ∷ codes "1h" ∷ []

abbrev checksum : Text → ℕ
checksum s = length s

second_shard : shard_id (codes "1m") 12 ≡ codes "kline_1m_12"
unfolding shard_id itoa digits_of
second_shard = refl

abbrev current : List Text
current = codes "btcusdt@kline_1m" ∷ codes "oldusdt@kline_1m" ∷ []

abbrev wanted : List Text
wanted = codes "ethusdt@kline_1m" ∷ codes "btcusdt@kline_1m" ∷ []

one_added :
    diff_sets current wanted ≡ (codes "ethusdt@kline_1m" ∷ [], codes "oldusdt@kline_1m" ∷ [])
unfolding diff_sets without_set contains sort insert_text text_leb
one_added = refl

btc_in_shard :
    contains
      (get_set (codes "kline_1m_1") (plan_streams checksum symbols intervals (pos 2)))
      (codes "btcusdt@kline_1m")
    ≡ true
unfolding plan_streams plan_intervals plan_interval id_of bucket_of shard_id itoa digits_of
    stream_name get_set lookup insert add_elem contains to_lower to_upper
btc_in_shard = refl
