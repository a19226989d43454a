-- ===== src/Bars.antt =====
-- The three bar types and their constructors from Binance's decimal strings:
-- internal/rediswin/bar.go and livebar.go, internal/chwriter/row.go, internal/dispatcher/event.go.
-- `F` stands for float64 and `parse_float` for strconv.ParseFloat, of which nothing is assumed.
pub mod Conversion
pub mod Samples
mod Tests
use chomo_syncer_go.Base.{
  nat_eq, Text, codes, text_eq, ℤ, ℕ, ◌%◌, ◌^◌, ◌<◌, Bool, not, Option, none, some, arith, pos,
  negsuc,
}

-- The field whose text is no number, as in the error message of the source.
pub data Result {ℓ} (A : Type ℓ) : Type ℓ where
  ok : A → Result A
  err : Text → Result A

infixl 5 ◌>>=◌
abbrev pub ◌>>=◌ {ℓ κ} : {A : Type ℓ} {B : Type κ} → Result A → (A → Result B) → Result B
ok a >>= f = f a
err e >>= f = err e

pub record CompactBar (F : Type 0) : Type 0 where
  pub start_time : ℕ
  pub opened : F
  pub high : F
  pub low : F
  pub close : F
  pub volume : F
  pub quote_volume : F
  pub taker_buy_volume : F
  pub taker_buy_quote_volume : F
  pub trades_count : ℤ

pub record LiveBar (F : Type 0) : Type 0 where
  pub start_time : ℕ
  pub opened : F
  pub high : F
  pub low : F
  pub close : F
  pub volume : F
  pub quote_volume : F
  pub taker_buy_volume : F
  pub taker_buy_quote_volume : F
  pub trades_count : ℤ
  pub is_final : Bool

-- `StartTime` and `EndTime` are kept as the milliseconds they were made from. Timestamps are
-- milliseconds since 1970 and never negative.
pub record Row (F : Type 0) : Type 0 where
  pub symbol : Text
  pub start_time : ℕ
  pub end_time : ℕ
  pub opened : F
  pub high : F
  pub low : F
  pub close : F
  pub volume : F
  pub quote_volume : F
  pub taker_buy_volume : F
  pub taker_buy_quote_volume : F
  -- uint32
  pub trades_count : ℕ

-- `KlineEvent`
pub record KlineEvent : Type 0 where
  pub symbol : Text
  pub interval : Text
  pub open_time : ℕ
  pub close_time : ℕ
  pub opened : Text
  pub high : Text
  pub low : Text
  pub close : Text
  pub volume : Text
  pub quote_volume : Text
  pub taker_buy_volume : Text
  pub taker_buy_quote_volume : Text
  pub trade_count : ℤ
  pub is_final : Bool

-- `if tradesCount < 0 { tradesCount = 0 }`
abbrev pub clamp_count : ℤ → ℕ
clamp_count (pos n) = n
clamp_count (negsuc n) = 0

module _ {F : Type 0} (parse_float : Text → Option F) where
  -- The closure `parse` of each constructor.
  unfoldable pub parse_field : Text → Text → Result F
  parse_field name s = elim (parse_float s) [ none ↦ err name | some v ↦ ok v ]

  -- `NewCompactBar`, as `KlineEvent.toCompactBar` calls it
  unfoldable pub to_compact_bar : KlineEvent → Result (CompactBar F)
  unfolding parse_field
  to_compact_bar e = do
    o ← parse_field (codes "open") e.opened
    h ← parse_field (codes "high") e.high
    l ← parse_field (codes "low") e.low
    c ← parse_field (codes "close") e.close
    v ← parse_field (codes "volume") e.volume
    qv ← parse_field (codes "quote_volume") e.quote_volume
    tbv ← parse_field (codes "taker_buy_volume") e.taker_buy_volume
    tbqv ← parse_field (codes "taker_buy_quote_volume") e.taker_buy_quote_volume
    ok (record {
      start_time = e.open_time;
      opened = o;
      high = h;
      low = l;
      close = c;
      volume = v;
      quote_volume = qv;
      taker_buy_volume = tbv;
      taker_buy_quote_volume = tbqv;
      trades_count = pos (clamp_count e.trade_count);
    })

  -- `NewLiveBar`, as `KlineEvent.toLiveBar` calls it; the count is not clamped.
  unfoldable pub to_live_bar : KlineEvent → Result (LiveBar F)
  unfolding parse_field
  to_live_bar e = do
    o ← parse_field (codes "open") e.opened
    h ← parse_field (codes "high") e.high
    l ← parse_field (codes "low") e.low
    c ← parse_field (codes "close") e.close
    v ← parse_field (codes "volume") e.volume
    qv ← parse_field (codes "quote_volume") e.quote_volume
    tbv ← parse_field (codes "taker_buy_volume") e.taker_buy_volume
    tbqv ← parse_field (codes "taker_buy_quote_volume") e.taker_buy_quote_volume
    ok (record {
      start_time = e.open_time;
      opened = o;
      high = h;
      low = l;
      close = c;
      volume = v;
      quote_volume = qv;
      taker_buy_volume = tbv;
      taker_buy_quote_volume = tbqv;
      trades_count = e.trade_count;
      is_final = e.is_final;
    })

  -- `NewRow`, as `KlineEvent.toRow` calls it; the count is converted to uint32.
  unfoldable pub to_row : KlineEvent → Result (Row F)
  unfolding parse_field
  to_row e = do
    o ← parse_field (codes "open") e.opened
    h ← parse_field (codes "high") e.high
    l ← parse_field (codes "low") e.low
    c ← parse_field (codes "close") e.close
    v ← parse_field (codes "volume") e.volume
    qv ← parse_field (codes "quote_volume") e.quote_volume
    tbv ← parse_field (codes "taker_buy_volume") e.taker_buy_volume
    tbqv ← parse_field (codes "taker_buy_quote_volume") e.taker_buy_quote_volume
    ok (record {
      symbol = e.symbol;
      start_time = e.open_time;
      end_time = e.close_time;
      opened = o;
      high = h;
      low = l;
      close = c;
      volume = v;
      quote_volume = qv;
      taker_buy_volume = tbv;
      taker_buy_quote_volume = tbqv;
      trades_count = clamp_count e.trade_count % 2 ^ 32;
    })

-- `rowToCompact` of internal/backfill/backfill.go: the archived row back as a window bar.
unfoldable pub row_to_compact : {F : Type 0} → Row F → CompactBar F
row_to_compact r = record {
  start_time = r.start_time;
  opened = r.opened;
  high = r.high;
  low = r.low;
  close = r.close;
  volume = r.volume;
  quote_volume = r.quote_volume;
  taker_buy_volume = r.taker_buy_volume;
  taker_buy_quote_volume = r.taker_buy_quote_volume;
  trades_count = pos r.trades_count;
}
