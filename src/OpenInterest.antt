-- ===== src/OpenInterest.antt =====
-- internal/openinterest/{align,row}.go: the 5-minute kline that an open-interest value belongs to,
-- and the check of a row. Times are nanoseconds since Go's zero time.
pub mod Align
pub mod Pages
pub mod Settings
pub mod Plan
pub mod Pass
pub mod Ratios
pub mod RowWriter
pub mod Cache
pub mod Live
pub mod Syncer
mod Tests
use chomo_syncer_go.Base.{
  ltb, if◌then◌else◌, ◌==◌, nat_eq, Text, text_eq, second, ℕ, zero, ◌-◌, ◌*◌, ◌%◌, Bool, not,
  Option, none, some, [], arith,
}

-- `Truncate(BarInterval)`
unfoldable pub floor_bar : ℕ → ℕ
floor_bar t = t - t % (300 * second)

-- The start of the kline that closes at a label, for a label on a boundary.
unfoldable pub hist_bar_start : ℕ → Option ℕ
unfolding floor_bar
hist_bar_start label = if label == floor_bar label then some (label - 300 * second) else none

unfoldable pub newest_published_start : ℕ → ℕ → ℕ
unfolding floor_bar
newest_published_start now lag = floor_bar (now - lag) - 300 * second

pub record Row (F : Type 0) : Type 0 where
  pub symbol : Text
  pub start_time : ℕ
  pub sum_open_interest : F
  pub snap_time : ℕ
  pub src_rank : ℕ

pub data RowError : Type 0 where
  empty_symbol off_boundary bad_open_interest bad_rank : RowError

-- `validate`; whether a float is not a number, infinite or negative is a parameter.
unfoldable pub validate : {F : Type 0} → (F → Bool) → Row F → Option RowError
unfolding floor_bar
validate is_bad r =
    if r.symbol == []
    then some empty_symbol
    else if r.start_time == 0
    then some off_boundary
    else if not (r.start_time == floor_bar r.start_time)
    then some off_boundary
    else if is_bad r.sum_open_interest
    then some bad_open_interest
    else if r.src_rank == 0
    then some bad_rank
    else if ltb 3 r.src_rank
    then some bad_rank
    else none
