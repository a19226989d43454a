-- ===== src/Collector/Tests.antt =====
-- Runs of internal/collector/shard.go: a drop, an attempt that fails, a reconnect and a change of
-- streams.
use chomo_syncer_go.Base.{
  nat_eq, All, length, Text, codes, text_eq, lookup, contains, ℕ, ◌≤◌, ◌≡◌, refl, true, false, List,
  [], ◌∷◌, arith, pos,
}
use chomo_syncer_go.Collector.{
  Config, ResolvedConfig, resolve, Shard, new, up, changed, Event, wants, connects, fails, drops,
  ticks, handle, run,
}
use chomo_syncer_go.Collector.Gaps.{Inv, run-AllFollow}
use chomo_syncer_go.Collector.Backoff.{IsBetween, Keeps, run-backoff}
use chomo_syncer_go.Sharding.Plan.{assigned}
use chomo_syncer_go.Collector.Symbols.{wanted_by, set_symbols, set_symbols-wanted}
use chomo_syncer_go.Collector.Streams.{run-carries}

abbrev cfg : ResolvedConfig
cfg = record {
  intervals = codes "1m" ∷ [];
  shards_per_interval = 4;
  ws_base_url = codes "wss://fstream.binance.com";
  connect_stagger = 300;
  reconnect_base = 1000;
  reconnect_max = 30000;
  stale_timeout = 60000;
  watchdog_interval = 10000;
  connect_timeout = 20000;
}

abbrev events : List Event
events =
    connects 100
    ∷ drops 500
    ∷ fails
    ∷ connects 900
    ∷ wants (codes "a" ∷ codes "b" ∷ [])
    ∷ ticks 950 940 changed
    ∷ []

abbrev last_state : Shard
last_state = run events (new cfg (codes "b" ∷ codes "c" ∷ []))

run-AllFollow_example : Inv last_state
run-AllFollow_example = run-AllFollow cfg (codes "b" ∷ codes "c" ∷ []) events

is_current : last_state.phase ≡ up 900 (codes "a" ∷ codes "b" ∷ []) last_state.version
unfolding run handle new
is_current = refl

wants_a : contains last_state.desired (codes "a") ≡ true
unfolding run handle new contains
wants_a = refl

run-carries_example : contains last_state.client (codes "a") ≡ true
run-carries_example =
    run-carries cfg (codes "b" ∷ codes "c" ∷ []) events 900 (codes "a" ∷ codes "b" ∷ []) (codes "a")
      is_current wants_a

abbrev defaults : Config
defaults = record {
  intervals = [];
  shards_per_interval = pos 0;
  ws_base_url = [];
  connect_stagger = pos 0;
  reconnect_base = pos 0;
  reconnect_max = pos 0;
  stale_timeout = pos 0;
  watchdog_interval = pos 0;
  connect_timeout = pos 0;
}

run-backoff_example :
    All
      (IsBetween (resolve defaults).reconnect_base (resolve defaults).reconnect_max)
      (run (drops 990 ∷ []) (run events (new (resolve defaults) []))).delays
    × Keeps (run (drops 990 ∷ []) (run events (new (resolve defaults) []))).delays
    × ((run events (new (resolve defaults) [])).backoff
        ≤ (run (drops 990 ∷ []) (run events (new (resolve defaults) []))).backoff)
run-backoff_example = run-backoff defaults [] events (drops 990 ∷ [])

abbrev checksum : Text → ℕ
checksum s = length s

set_symbols-wanted_example :
    contains
      (wanted_by
        (lookup (codes "kline_1m_3") (set_symbols checksum cfg (codes "BTC" ∷ []) false [])))
      (codes "btc@kline_1m")
    ≡ assigned checksum
        (pos 4)
        (codes "kline_1m_3")
        (codes "btc@kline_1m")
        (codes "BTC" ∷ [])
        (codes "1m" ∷ [])
set_symbols-wanted_example =
    set_symbols-wanted checksum cfg (codes "BTC" ∷ []) [] (codes "kline_1m_3")
      (codes "btc@kline_1m") (omega arith)
