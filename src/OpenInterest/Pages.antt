-- ===== src/OpenInterest/Pages.antt =====
-- internal/openinterest/{hist,lsratio_hist}.go: the pages that lead back through a symbol's gap,
-- what a page of open interest hands to the sink, and the series of a ratio. The client is a
-- parameter: it answers the n-th request from its start, end and limit.
pub mod Window
pub mod Complete
pub mod Rows
mod Tests
use chomo_syncer_go.Base.{
  ltb, if◌then◌else◌, ◌==◌, nat_eq, length, Text, text_eq, without, millisecond, second, ℕ, zero,
  suc, ◌+◌, ◌-◌, ◌*◌, ◌/◌, min, max, Bool, true, false, not, ◌&&◌, Option, none, some, List, [],
  ◌∷◌, ◌++◌, arith,
}
use chomo_syncer_go.OpenInterest.{hist_bar_start, Row}

-- `HistPoint` and `RatioPoint`
pub record Point (F : Type 0) : Type 0 where
  pub label : ℕ
  pub value : F

pub data Reply (F : Type 0) : Type 0 where
  points : List (Point F) → Reply F
  invalid_symbol failed : Reply F

-- How the paging ends. For `delisted` the caller returns what it has, without an error.
pub data Ended : Type 0 where
  finished delisted request_failed push_failed unterminated : Ended

-- The settings that the paging reads.
pub record Limits : Type 0 where
  pub margin : ℕ
  pub max_limit : ℕ

pub record HistJob : Type 0 where
  pub symbol : Text
  pub since : ℕ
  pub needed : ℕ
  pub fresh : Bool

unfoldable pub start_label : HistJob → ℕ
start_label j = j.since + 300 * second

unfoldable pub max_pages : Limits → ℕ → ℕ
max_pages l needed = needed / max (l.max_limit - l.margin) 1 + 3

unfoldable pub limit_for : Limits → ℕ → ℕ
limit_for l n = min (n + l.margin) l.max_limit

module _ {ℓ} {F : Type 0} {S : Type ℓ} (l : Limits) (start : ℕ) where
  -- The end of an iteration, after a page whose oldest point is `p`.
  unfoldable pub after_page : ℕ → Point F → ℕ → S × Bool → (ℕ → ℕ → S → S × Ended) → S × Ended
  unfolding limit_for
  after_page limit p n (s, true) go = (s, push_failed)
  after_page limit p n (s, false) go =
      if ltb n limit
      then (s, finished)
      else if ltb (p.label - millisecond) start
      then (s, finished)
      else go (p.label - millisecond) (limit_for l ((p.label - start) / (300 * second) + 1)) s

  unfoldable pub on_reply :
      (S → List (Point F) → S × Bool) → ℕ → S → Reply F → (ℕ → ℕ → S → S × Ended) → S × Ended
  unfolding after_page
  on_reply handle limit s invalid_symbol go = (s, delisted)
  on_reply handle limit s failed go = (s, request_failed)
  on_reply handle limit s (points []) go = (s, finished)
  on_reply handle limit s (points (p ∷ ps)) go =
      after_page limit p (length (p ∷ ps)) (handle s (p ∷ ps)) go

  -- The loop over pages; `n` counts the requests, and the fuel is what is left of `maxPages`.
  unfoldable pub page_loop :
      (ℕ → ℕ → ℕ → ℕ → Reply F) → (S → List (Point F) → S × Bool) → ℕ → ℕ → ℕ → ℕ → S → S × Ended
  unfolding on_reply
  page_loop history handle zero n end limit s = (s, unterminated)
  page_loop history handle (suc fuel) n end limit s =
      on_reply handle limit s (history n start end limit)
        (λ end' limit' s'. page_loop history handle fuel (suc n) end' limit' s')

-- The frame of `fetchSymbol` and of `pageBack`.
unfoldable pub page_back {ℓ} :
    {F : Type 0} {S : Type ℓ}
    → Limits
    → (ℕ → ℕ → ℕ → ℕ → Reply F)
    → (S → List (Point F) → S × Bool)
    → HistJob
    → ℕ
    → S
    → S × Ended
unfolding page_loop start_label limit_for max_pages
page_back l history handle j now s =
    page_loop l (start_label j) history handle (max_pages l j.needed) 0 now (limit_for l j.needed) s

-- `jobResult`, and the rows that were handed to the sink.
pub record Emitted (F : Type 0) : Type 0 where
  pub pushed : List (Row F)
  pub rows : ℕ
  pub newest : ℕ
  pub gaps : ℕ

-- What the cache of live values knows of a bar, and since when live snapshots run (0 for never).
pub record LiveView : Type 0 where
  pub known : ℕ → Bool
  pub since : ℕ

-- `compareWithLive`, less its histogram; `none` stands for no cache.
unfoldable pub new_gaps : Option LiveView → ℕ → ℕ
new_gaps none start = 0
new_gaps (some v) start =
    if v.known start
    then 0
    else if not (v.since == 0) && ltb v.since (start + 300 * second)
    then 1
    else 0

unfoldable pub row_of : {F : Type 0} → Text → ℕ → Point F → Row F
row_of symbol start p = record {
  symbol = symbol;
  start_time = start;
  sum_open_interest = p.value;
  snap_time = p.label;
  src_rank = 2;
}

module _ {F : Type 0} (push_err : Row F → Bool) (live : Option LiveView) (symbol : Text)
    (now : ℕ) where
  unfoldable pub emit_row : ℕ → Point F → Emitted F → Emitted F
  unfolding new_gaps row_of
  emit_row start p e = record {
    pushed = e.pushed ++ row_of symbol start p ∷ [];
    rows = e.rows + 1;
    newest = if ltb e.newest start then start else e.newest;
    gaps = e.gaps + new_gaps live start;
  }

  -- A point of `emit`: whether its push failed.
  unfoldable pub emit_at : Point F → Option ℕ → Emitted F → Emitted F × Bool
  unfolding emit_row row_of
  emit_at p none e = (e, false)
  emit_at p (some start) e =
      if push_err (row_of symbol start p) then (e, true) else (emit_row start p e, false)

  unfoldable pub emit_point : Point F → Emitted F → Emitted F × Bool
  unfolding emit_at hist_bar_start
  emit_point p e = if ltb now p.label then (e, false) else emit_at p (hist_bar_start p.label) e

  unfoldable pub and_then : (Emitted F → Emitted F × Bool) → Emitted F × Bool → Emitted F × Bool
  and_then next (e, true) = (e, true)
  and_then next (e, false) = next e

  unfoldable pub emit : Emitted F → List (Point F) → Emitted F × Bool
  unfolding emit_point and_then
  emit e [] = (e, false)
  emit e (p ∷ ps) = and_then (λ e'. emit e' ps) (emit_point p e)

unfoldable pub nothing_emitted : {F : Type 0} → Emitted F
nothing_emitted = record { pushed = []; rows = 0; newest = 0; gaps = 0 }

unfoldable pub fetch_symbol :
    {F : Type 0}
    → Limits
    → (ℕ → ℕ → ℕ → ℕ → Reply F)
    → (Row F → Bool)
    → Option LiveView
    → HistJob
    → ℕ
    → Emitted F × Ended
unfolding page_back emit nothing_emitted
fetch_symbol l history push_err live j now =
    page_back l history (emit push_err live j.symbol now) j now nothing_emitted

-- The pages are joined oldest first.
unfoldable pub gather : {F : Type 0} → List (Point F) → List (Point F) → List (Point F) × Bool
gather out page = (page ++ out, false)

-- `pageBack`
unfoldable pub ratio_series :
    {F : Type 0} → Limits → (ℕ → ℕ → ℕ → ℕ → Reply F) → HistJob → ℕ → List (Point F) × Ended
unfolding page_back gather
ratio_series l history j now = page_back l history gather j now []
