-- ===== src/OpenInterest/Align.antt =====
-- internal/openinterest/{align,row}.go: labels and klines agree, and a row built from a label is
-- accepted.
use chomo_syncer_go.Base.{
  ◌==◌, nat_eq, text_eq, second, ℕ, ◌+◌, ◌-◌, ◌*◌, ◌%◌, ◌≤◌, ◌<◌, ◌≡◌, ap, ◌∙◌, Bool, false, none,
  some, [], arith,
}
use chomo_syncer_go.OpenInterest.{floor_bar, hist_bar_start, newest_published_start, Row, validate}

floor_bar-bounds :
    (t : ℕ)
    → (floor_bar t ≤ t) × (t < floor_bar t + 300 * second) × (floor_bar t % (300 * second) ≡ 0)
unfolding floor_bar
floor_bar-bounds t = (omega arith, omega arith, omega arith)

floor_bar-fix : (t : ℕ) → t % (300 * second) ≡ 0 → t ≡ floor_bar t
unfolding floor_bar
floor_bar-fix t e = omega (arith, e)

hist_bar_start-label : (t : ℕ) → t % (300 * second) ≡ 0 → hist_bar_start t ≡ some (t - 300 * second)
unfolding hist_bar_start
hist_bar_start-label t e = ground (arith, floor_bar-fix t e)

-- The newest published kline: at a time at least two bars after the lag, its start is on a
-- boundary, its label plus the lag is not after now, the label that follows plus the lag is, and
-- its label is read as that kline.
pub newest_published_start-label :
    (now lag : ℕ)
    → lag + 600 * second ≤ now
    → (newest_published_start now lag + 300 * second + lag ≤ now)
      × (now < newest_published_start now lag + 600 * second + lag)
      × (hist_bar_start (newest_published_start now lag + 300 * second)
          ≡ some (newest_published_start now lag))
unfolding newest_published_start
newest_published_start-label now lag h =
    let (below, above, even) = floor_bar-bounds (now - lag) in
    let back : floor_bar (now - lag) - 300 * second + 300 * second ≡ floor_bar (now - lag) =
      omega (arith, h, above) in
    (
      omega (arith, h, above, below),
      omega (arith, h, above, below),
      ap hist_bar_start back ∙ hist_bar_start-label (floor_bar (now - lag)) even,
    )

hist_bar_start-even : (label s : ℕ) → hist_bar_start label ≡ some s → s ≡ floor_bar s
unfolding hist_bar_start floor_bar
hist_bar_start-even label s e = ground (arith, e)

-- A row of a named symbol whose start is that of a label, past Go's zero time, and whose value and
-- rank are sound is accepted.
pub validate-hist_bar_start :
    {F : Type 0} (is_bad : F → Bool) (r : Row F) (label : ℕ)
    → hist_bar_start label ≡ some r.start_time
    → 0 < r.start_time
    → (r.symbol == []) ≡ false
    → is_bad r.sum_open_interest ≡ false
    → 0 < r.src_rank
    → r.src_rank ≤ 3
    → validate is_bad r ≡ none
unfolding validate
validate-hist_bar_start is_bad r label e pos_start named good low high =
    ground (arith, hist_bar_start-even label r.start_time e, named, good)
