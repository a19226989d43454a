-- ===== src/Bars/Conversion.antt =====
-- internal/dispatcher/event.go and internal/backfill/backfill.go: the three readings of one event.
use chomo_syncer_go.Base.{nat_eq, Text, text_eq, ◌%◌, ◌^◌, ◌<◌, ◌≡◌, Option, arith}
use chomo_syncer_go.Bars.{
  ok, err, LiveBar, Row, KlineEvent, clamp_count, to_compact_bar, to_live_bar, to_row,
  row_to_compact,
}

module _ {F : Type 0} (parse_float : Text → Option F) where
  -- An event that gives no live bar gives no window bar and no archive row either, and all three
  -- fail with the name of the same field.
  pub to_live_bar-agrees :
      (e : KlineEvent) (name : Text)
      → to_live_bar parse_float e ≡ err name
      → (to_compact_bar parse_float e ≡ err name) × (to_row parse_float e ≡ err name)
  unfolding to_live_bar to_compact_bar to_row
  to_live_bar-agrees e name h = (ground arith, ground arith)

  -- The archive row of an event whose live bar is `lb`.
  abbrev archived : KlineEvent → LiveBar F → Row F
  archived e lb = record {
    symbol = e.symbol;
    start_time = e.open_time;
    end_time = e.close_time;
    opened = lb.opened;
    high = lb.high;
    low = lb.low;
    close = lb.close;
    volume = lb.volume;
    quote_volume = lb.quote_volume;
    taker_buy_volume = lb.taker_buy_volume;
    taker_buy_quote_volume = lb.taker_buy_quote_volume;
    trades_count = clamp_count e.trade_count % 2 ^ 32;
  }

  -- The window rebuilt from the archive shows the bar that was pushed live: where an event gives a
  -- live bar, its window bar and its archive row exist, and the row read back is the window bar, as
  -- long as the trade count fits the archive's uint32.
  pub row_to_compact-to_row :
      (e : KlineEvent) (lb : LiveBar F)
      → to_live_bar parse_float e ≡ ok lb
      → clamp_count e.trade_count < 2 ^ 32
      → (r : Row F) × (to_row parse_float e ≡ ok r)
        × (to_compact_bar parse_float e ≡ ok (row_to_compact r))
  unfolding to_live_bar to_compact_bar to_row row_to_compact
  row_to_compact-to_row e lb h k = (archived e lb, ground arith, ground arith)
