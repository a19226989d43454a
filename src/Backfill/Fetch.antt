-- ===== src/Backfill/Fetch.antt =====
-- internal/backfill/rest.go: the pages of GET /fapi/v1/klines. The request-rate limiter, the HTTP
-- client and the JSON decoder are libraries: what they answer to one request is a `Reply`.
-- Timestamps are milliseconds since 1970.
pub mod Bounds
pub mod Complete
pub mod Ends
pub mod Archive
mod Tests
use chomo_syncer_go.Base.{
  ltb, leb, if◌then◌else◌, ◌==◌, nat_eq, length, Text, text_eq, ℤ, millisecond, second, ℕ, zero,
  suc, ◌+◌, ◌-◌, ◌*◌, ◌/◌, Bool, true, false, not, ◌||◌, Option, none, some, List, [], ◌∷◌, ◌++◌,
  arith, pos, negsuc,
}
use chomo_syncer_go.Bars
use chomo_syncer_go.Bars.{KlineEvent, Row, Result, to_row}
use chomo_syncer_go.Interval.{parse_interval_atoi}
use chomo_syncer_go.WeightGate.{Gate, observe_header, pause_for, retry_after}

-- `rawKline`
pub record RawKline : Type 0 where
  pub open_ms : ℕ
  pub close_ms : ℕ
  pub opened : Text
  pub high : Text
  pub low : Text
  pub close : Text
  pub volume : Text
  pub quote_volume : Text
  pub taker_buy : Text
  pub taker_buy_quote : Text
  pub trades : ℤ

-- What a request meets: the errors of the limiter, of the gate and of the client, then the
-- response. `body` is `none` if it cannot be decoded, and an array of fewer than 11 elements in it
-- is `none`.
pub record Reply : Type 0 where
  pub limiter_err : Bool
  pub gate_err : Bool
  pub client_err : Bool
  pub status : ℕ
  pub used_weight : Text
  pub retry_after_header : Text
  pub body : Option (List (Option RawKline))

unfoldable pub decode_rows : List (Option RawKline) → List RawKline
decode_rows [] = []
decode_rows (none ∷ rs) = decode_rows rs
decode_rows (some k ∷ rs) = k ∷ decode_rows rs

-- `lastOpen`: that of the last row, 0 if there is none.
unfoldable pub last_open : ℕ → List RawKline → ℕ
last_open last [] = last
last_open last (k ∷ ks) = last_open k.open_ms ks

-- `page`: the rows and the last open time, `none` for an error.
unfoldable pub page : Reply → Option (List RawKline × ℕ)
unfolding decode_rows last_open
page r =
    if r.limiter_err || (r.gate_err || (r.client_err || not (r.status == 200)))
    then none
    else elim r.body [
      | none ↦ none
      | some raw ↦ some (decode_rows raw, last_open 0 (decode_rows raw))
    ]

-- What `page` reports to the weight gate.
unfoldable pub page_gate : Reply → ℕ → Gate → Gate
page_gate r now g =
    let g' = observe_header r.used_weight now g in
    if r.limiter_err || (r.gate_err || r.client_err)
    then g
    else if r.status == 429
    then pause_for (retry_after r.retry_after_header (pos (5 * second))) now g'
    else if r.status == 418
    then pause_for (retry_after r.retry_after_header (pos (60 * second))) now g'
    else g'

-- `pageLim` of `NewBinanceFetcher`
unfoldable pub page_span : ℤ → ℕ
page_span (negsuc n) = 1500
page_span (pos n) = if n == 0 || ltb 1500 n then 1500 else n

limit_by : Option ℤ → ℕ → ℕ → ℕ → ℕ
limit_by none lim cursor until = lim
limit_by (some (negsuc d)) lim cursor until = lim
limit_by (some (pos d)) lim cursor until =
    if d == 0 || leb until cursor
    then lim
    else if ltb lim ((until - cursor) / (d / millisecond) + 2)
    then lim
    else (until - cursor) / (d / millisecond) + 2

-- `pageLimitFor`. A duration is a number of seconds, so it has a millisecond unless it overflowed.
unfoldable pub page_limit_for : ℕ → Text → ℕ → ℕ → ℕ
unfolding limit_by
page_limit_for lim interval cursor until = limit_by (parse_interval_atoi interval) lim cursor until

-- `klineWeight`
unfoldable pub kline_weight : ℕ → ℕ
kline_weight limit =
    if ltb limit 100 then 1 else if ltb limit 500 then 2 else if leb limit 1000 then 5 else 10

pub data Ended : Type 0 where
  finished page_failed callback_failed out_of_fuel : Ended

module _ {F : Type 0} (parse_float : Text → Option F) (symbol : Text) where
  -- `buildRow`; `NewRow` reads neither the interval nor the final flag of an event.
  unfoldable pub build_row : RawKline → Result (Row F)
  build_row k = to_row parse_float (record {
    symbol = symbol;
    interval = [];
    open_time = k.open_ms;
    close_time = k.close_ms;
    opened = k.opened;
    high = k.high;
    low = k.low;
    close = k.close;
    volume = k.volume;
    quote_volume = k.quote_volume;
    taker_buy_volume = k.taker_buy;
    taker_buy_quote_volume = k.taker_buy_quote;
    trade_count = k.trades;
    is_final = true;
  })

  cons_ok : Result (Row F) → List (Row F) → List (Row F)
  cons_ok (Bars.ok row) rows = row ∷ rows
  cons_ok (Bars.err name) rows = rows

  -- The rows of a page that are handed on: in range, closed, and well formed.
  unfoldable pub batch_of : ℕ → ℕ → ℕ → List RawKline → List (Row F)
  unfolding build_row cons_ok
  batch_of since until closed_before [] = []
  batch_of since until closed_before (k ∷ ks) =
      let rest = batch_of since until closed_before ks in
      if ltb k.open_ms since || (leb until k.open_ms || leb closed_before k.close_ms)
      then rest
      else cons_ok (build_row k) rest

-- `onBatch` is called for a batch that is not empty; it returns whether it failed.
abbrev pub call_on {ℓ κ} :
    {S : Type ℓ} {R : Type κ} → (S → List R → S × Bool) → S → List R → S × Bool
call_on on_batch s [] = (s, false)
call_on on_batch s (r ∷ rs) = on_batch s (r ∷ rs)

-- The end of an iteration: whether the loop goes on, from the cursor `last + 1`.
unfoldable pub after_batch {ℓ} :
    {S : Type ℓ} → ℕ → ℕ → List RawKline → ℕ → S × Bool → (S → S × Ended) → S × Ended
after_batch cursor limit rows last (s, true) go = (s, callback_failed)
after_batch cursor limit rows last (s, false) go =
    if length rows == 0 || ltb last cursor
    then (s, finished)
    else if leb (last + 1) cursor
    then (s, finished)
    else if ltb (length rows) limit
    then (s, finished)
    else go s

module _ {ℓ} {F : Type 0} {S : Type ℓ} (parse_float : Text → Option F) (symbol : Text)
    (since until closed_before : ℕ) (on_batch : S → List (Row F) → S × Bool) where
  -- The rest of an iteration, by what `page` returned; `go last` are the later iterations.
  unfoldable pub on_page : ℕ → ℕ → S → Option (List RawKline × ℕ) → (ℕ → S → S × Ended) → S × Ended
  unfolding after_batch
  on_page cursor limit s none go = (s, page_failed)
  on_page cursor limit s (some (rows, last)) go =
      after_batch cursor limit rows last
        (call_on on_batch s (batch_of parse_float symbol since until closed_before rows)) (go last)

module _ {ℓ} {F : Type 0} {S : Type ℓ} (parse_float : Text → Option F) (symbol : Text) (lim : ℕ)
    (interval : Text) (since until closed_before : ℕ) (reply : ℕ → ℕ → ℕ → Reply)
    (on_batch : S → List (Row F) → S × Bool) where
  -- The loop of `FetchStream`; `reply n cursor limit` answers its n-th request.
  unfoldable pub fetch_loop : ℕ → ℕ → ℕ → S → S × Ended
  unfolding on_page
  fetch_loop zero n cursor s = (s, out_of_fuel)
  fetch_loop (suc fuel) n cursor s =
      let limit = page_limit_for lim interval cursor until in
      let next =
        on_page parse_float symbol since until closed_before on_batch cursor limit s
          (page (reply n cursor limit)) (λ last s'. fetch_loop fuel (suc n) (last + 1) s') in
      if ltb cursor until then next else (s, finished)

  -- `FetchStream`: each iteration but the last moves the cursor on.
  unfoldable pub fetch_stream : S → S × Ended
  fetch_stream s = fetch_loop (suc (until - since)) 0 since s

-- `Fetch`: the callback that collects.
unfoldable pub collect : {F : Type 0} → List (Row F) → List (Row F) → List (Row F) × Bool
collect out batch = (out ++ batch, false)

-- The callback of `fetchAndArchive`: how many rows were fetched and which were pushed. `push_err n`
-- says whether the push of the n-th row fails; `none` stands for no archive writer.
pub record Archived (R : Type 0) : Type 0 where
  pub fetched : ℕ
  pub written : List R

unfoldable pub push_rows : {R : Type 0} → (ℕ → Bool) → List R → Archived R → Archived R × Bool
push_rows push_err [] a = (a, false)
push_rows push_err (r ∷ rs) a =
    let rest = push_rows push_err rs (record a { written = a.written ++ r ∷ [] }) in
    if push_err (length a.written) then (a, true) else rest

unfoldable pub archive_batch :
    {R : Type 0} → Option (ℕ → Bool) → Archived R → List R → Archived R × Bool
unfolding push_rows
archive_batch none a batch = (record a { fetched = a.fetched + length batch }, false)
archive_batch (some push_err) a batch =
    push_rows push_err batch (record a { fetched = a.fetched + length batch })
