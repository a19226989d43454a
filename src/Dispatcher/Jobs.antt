-- ===== src/Dispatcher/Jobs.antt =====
-- internal/dispatcher/dispatcher.go: what a closed bar is turned into.
use mathlib.Core.List.{append-nil}
use chomo_syncer_go.Base.{
  ltb, if◌then◌else◌, nat_eq, length, Text, text_eq, Map, beq_refl, insert, lookup-insert, ℕ, ◌^◌,
  ◌<◌, ◌≡◌, true, false, Option, none, some, [], ◌∷◌, ◌++◌, arith,
}
use chomo_syncer_go.Bars.{
  ok, LiveBar, Row, KlineEvent, clamp_count, to_live_bar, to_row, row_to_compact,
}
use chomo_syncer_go.Bars.Conversion.{row_to_compact-to_row}
use chomo_syncer_go.Dispatcher.{
  Dispatcher, guard_key, accept_closed, enqueue, handle_kline_event, is_busy, live_bar,
}

module _ {F : Type 0} (parse_float : Text → Option F) where
  accept_closed_newer :
      (k : Text) (t : ℕ) (m : Map Text ℕ)
      → (accept_closed k t m).0 ≡ true
      → (accept_closed k t m).1 ≡ insert k t m
  unfolding accept_closed
  accept_closed_newer k t m h = ground arith

  -- A closed event that can be read, with a trade count that fits the archive's uint32, on an open
  -- dispatcher whose guard accepts it: its archive row exists; if the queue has room, one job is
  -- queued behind the others, whose row is the event's and whose window bar is that row read back,
  -- and the error is nil; if the queue is full, nothing is queued and the error is ErrBusy. In both
  -- cases the live snapshot was sent and the guard has moved on to the bar's open time.
  pub handle_kline_event_closed :
      (e : KlineEvent) (lb : LiveBar F) (d : Dispatcher F)
      → d.closed ≡ false
      → e.is_final ≡ true
      → to_live_bar parse_float e ≡ ok lb
      → clamp_count e.trade_count < 2 ^ 32
      → (accept_closed (guard_key e.symbol e.interval) e.open_time d.last_closed).0 ≡ true
      → (r : Row F) × (to_row parse_float e ≡ ok r)
        × (handle_kline_event parse_float e d ≡ (
          record d {
            calls = d.calls ++ live_bar e.symbol e.interval lb ∷ [];
            last_closed = insert (guard_key e.symbol e.interval) e.open_time d.last_closed;
            queue =
                d.queue
                ++ (if ltb (length d.queue) d.capacity
                    then record {
                      symbol = e.symbol;
                      interval = e.interval;
                      open_time = e.open_time;
                      bar = row_to_compact r;
                      row = some r;
                    }
                      ∷ []
                    else []);
          },
          (if ltb (length d.queue) d.capacity then none else some is_busy),
        ))
  unfolding handle_kline_event enqueue
  handle_kline_event_closed e lb d o f l c a =
      let (r, er, ec) = row_to_compact-to_row parse_float e lb l c in
      (
        r,
        er,
        ground (
          arith,
          er,
          ec,
          accept_closed_newer (guard_key e.symbol e.interval) e.open_time d.last_closed a,
          append-nil d.queue,
        ),
      )

  -- A closed bar that met a full queue is lost: a dispatcher whose guard is as ErrBusy left it
  -- answers the same event, sent again, with a nil error and hands nothing to its workers, whatever
  -- room its queue has by then.
  pub handle_kline_event_busy_replay :
      (e : KlineEvent) (d d' : Dispatcher F)
      → (handle_kline_event parse_float e d).1 ≡ some is_busy
      → d'.closed ≡ false
      → d'.last_closed ≡ (handle_kline_event parse_float e d).0.last_closed
      → ((handle_kline_event parse_float e d').1 ≡ none)
        × ((handle_kline_event parse_float e d').0.queue ≡ d'.queue)
  unfolding handle_kline_event enqueue accept_closed
  handle_kline_event_busy_replay e d d' h o l = ground (
    arith,
    lookup-insert (guard_key e.symbol e.interval) (guard_key e.symbol e.interval) e.open_time
        d.last_closed,
    beq_refl (guard_key e.symbol e.interval),
  )
