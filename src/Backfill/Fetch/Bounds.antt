-- ===== src/Backfill/Fetch/Bounds.antt =====
-- internal/backfill/rest.go: the size and the price of a page.
use chomo_syncer_go.Base.{
  ltb, if-elim, nat_eq, Text, text_eq, ℤ, is_nonpos, or_default, ℕ, ◌≤◌, ◌<◌, ◌≡◌, refl, true,
  Option, none, some, arith, pos, negsuc,
}
use chomo_syncer_go.Interval.{parse_interval_atoi}
use chomo_syncer_go.WeightGate.{Config, ResolvedConfig, bulk, at_class, resolve, new}
use chomo_syncer_go.Backfill.Fetch.{page_span, limit_by, page_limit_for, kline_weight}

page_span_bounds : (n : ℤ) → (0 < page_span n) × (page_span n ≤ 1500)
unfolding page_span
page_span_bounds (pos n) = ground arith
page_span_bounds (negsuc n) = ground arith

limit_by_bounds :
    (o : Option ℤ) (lim cursor until : ℕ)
    → 0 < lim
    → (0 < limit_by o lim cursor until) × (limit_by o lim cursor until ≤ lim)
unfolding limit_by
limit_by_bounds none lim cursor until h = ground arith
limit_by_bounds (some (negsuc d)) lim cursor until h = ground arith
limit_by_bounds (some (pos d)) lim cursor until h = ground arith

pub page_limit_for_bounds :
    (n : ℤ) (interval : Text) (cursor until : ℕ)
    → (0 < page_limit_for (page_span n) interval cursor until)
      × (page_limit_for (page_span n) interval cursor until ≤ page_span n)
unfolding page_limit_for
page_limit_for_bounds n interval cursor until =
    limit_by_bounds (parse_interval_atoi interval) (page_span n) cursor until (page_span_bounds n).0

-- The weight of a page of any size is at most 10, and a larger page is never cheaper.
kline_weight_mono : (a b : ℕ) → a ≤ b → (kline_weight a ≤ kline_weight b) × (kline_weight b ≤ 10)
unfolding kline_weight
kline_weight_mono a b h = ground arith

or_default_nonpos : (v : ℤ) (def : ℕ) → is_nonpos v ≡ true → or_default v def ≡ def
unfolding or_default
or_default_nonpos (pos n) def h = ground arith
or_default_nonpos (negsuc n) def h = refl

resolve_bulk_burst_ge :
    (c : Config) → is_nonpos c.bulk_burst ≡ true → 10 ≤ (resolve c).burst.at_bulk
unfolding resolve
resolve_bulk_burst_ge c h = rw (or_default_nonpos c.bulk_burst _ h) (omega arith)

bulk_burst_ge : (c : Config) → is_nonpos c.bulk_burst ≡ true → 10 ≤ at_class (new c).cfg.burst bulk
unfolding new
bulk_burst_ge c h =
    if-elim (λ (r : ResolvedConfig). 10 ≤ at_class r.burst bulk)
      (ltb (resolve c).hard (resolve c).soft) (resolve_bulk_burst_ge c h)
      (resolve_bulk_burst_ge c h)

-- For any configured span and interval, a request asks for at least one bar and at most 1500, and,
-- where the burst of the bulk class is left to its default, the weight gate has room for its weight
-- in one piece: `Wait` cannot refuse a page for exceeding the burst.
pub kline_weight-page_limit_for :
    (n : ℤ) (interval : Text) (cursor until : ℕ) (c : Config)
    → is_nonpos c.bulk_burst ≡ true
    → let limit = page_limit_for (page_span n) interval cursor until in
      (0 < limit) × (limit ≤ 1500) × (kline_weight limit ≤ at_class (new c).cfg.burst bulk)
kline_weight-page_limit_for n interval cursor until c h =
    let limit : ℕ = page_limit_for (page_span n) interval cursor until in
    let bounds = page_limit_for_bounds n interval cursor until in
    (
      bounds.0,
      omega (arith, bounds.1, page_span_bounds n),
      omega (arith, kline_weight_mono limit limit (omega arith), bulk_burst_ge c h),
    )
