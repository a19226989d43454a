-- ===== src/Bars/Samples.antt =====
-- One event with whole numbers for prices, for the tests of internal/rediswin/livebar.go and of the
-- dispatcher.
use chomo_syncer_go.Base.{nat_eq, Text, codes, text_eq, parse_uint, ℕ, ◌≡◌, refl, true, pos}
use chomo_syncer_go.Bars.{ok, LiveBar, KlineEvent, to_live_bar}

abbrev pub sample : Text → KlineEvent
sample close = record {
  symbol = codes "BTCUSDT";
  interval = codes "1m";
  open_time = 60_000;
  close_time = 119_999;
  opened = codes "10";
  high = codes "12";
  low = codes "9";
  close = close;
  volume = codes "100";
  quote_volume = codes "1000";
  taker_buy_volume = codes "50";
  taker_buy_quote_volume = codes "500";
  trade_count = pos 17;
  is_final = true;
}

abbrev pub sample_bar : LiveBar ℕ
sample_bar = record {
  start_time = 60_000;
  opened = 10;
  high = 12;
  low = 9;
  close = 11;
  volume = 100;
  quote_volume = 1000;
  taker_buy_volume = 50;
  taker_buy_quote_volume = 500;
  trades_count = pos 17;
  is_final = true;
}

pub sample_ok : to_live_bar parse_uint (sample (codes "11")) ≡ ok sample_bar
unfolding to_live_bar parse_uint
sample_ok = refl
