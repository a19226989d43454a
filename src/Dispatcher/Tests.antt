-- ===== src/Dispatcher/Tests.antt =====
-- Runs of internal/dispatcher/dispatcher.go with whole numbers for prices, and the theorems on it
-- there.
use chomo_syncer_go.Base.{
  nat_eq, Text, codes, text_eq, lookup, insert, parse_uint, ℕ, ◌≡◌, refl, none, some, List, [], ◌∷◌,
  ◌++◌, arith,
}
use chomo_syncer_go.Bars.{ok, KlineEvent, Row, to_row, row_to_compact, to_live_bar, to_compact_bar}
use chomo_syncer_go.Bars.Samples.{sample, sample_bar, sample_ok}
use chomo_syncer_go.Dispatcher.{
  Action, event, works, closes, guard_key, accept_closed, handle_kline_event, live_bar, is_busy,
  new, run, snapshot, guarded, hand_off, enqueue,
}
use chomo_syncer_go.Dispatcher.Guard.{times, Rising, bound, run-Rising}
use chomo_syncer_go.Dispatcher.Jobs.{handle_kline_event_closed}

abbrev closed_bar : KlineEvent
closed_bar = sample (codes "11")

abbrev btc : Text
btc = codes "BTCUSDT|1m"

abbrev history : List Action
history = event closed_bar ∷ works ∷ event closed_bar ∷ closes ∷ event closed_bar ∷ []

run-Rising_example :
    Rising 0
      (times btc ((run parse_uint history (new 1)).taken ++ (run parse_uint history (new 1)).queue))
      (bound btc (run parse_uint history (new 1)).last_closed)
run-Rising_example = run-Rising parse_uint btc history 1

handle_kline_event_closed_example :
    (r : Row ℕ) × (to_row parse_uint closed_bar ≡ ok r)
    × (handle_kline_event parse_uint closed_bar (new 1) ≡ (
      record (new {F = ℕ} 1) {
        calls = live_bar (codes "BTCUSDT") (codes "1m") sample_bar ∷ [];
        last_closed = insert (guard_key (codes "BTCUSDT") (codes "1m")) 60_000 [];
        queue =
            record {
              symbol = codes "BTCUSDT";
              interval = codes "1m";
              open_time = 60_000;
              bar = row_to_compact r;
              row = some r;
            }
            ∷ [];
      },
      none,
    ))
unfolding new accept_closed guard_key lookup
handle_kline_event_closed_example =
    handle_kline_event_closed parse_uint closed_bar sample_bar (new 1) refl refl sample_ok
      (omega arith) refl

full_queue : (handle_kline_event parse_uint closed_bar (new 0)).1 ≡ some is_busy
unfolding handle_kline_event snapshot guarded hand_off enqueue accept_closed new lookup to_live_bar
    to_compact_bar to_row parse_uint
full_queue = refl
