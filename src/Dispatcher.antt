-- ===== src/Dispatcher.antt =====
-- internal/dispatcher/dispatcher.go: HandleKlineEvent, the monotonic guard, the closed-bar queue
-- and its workers. `F` and `parse_float` are those of Bars. What a sink answers changes only
-- metrics and logs, so a sink is the list of the calls made on it.
pub mod Guard
pub mod Jobs
mod Tests
use chomo_syncer_go.Base.{
  ltb, leb, if◌then◌else◌, ◌==◌, nat_eq, length, Text, codes, text_eq, Map, lookup, insert, ℕ, Bool,
  true, false, Option, none, some, List, [], ◌∷◌, ◌++◌, map, arith,
}
use chomo_syncer_go.Bars.{
  Result, ok, err, CompactBar, LiveBar, Row, KlineEvent, to_compact_bar, to_live_bar, to_row,
}

-- `closedJob`; `none` stands for `hasRow == false`.
pub record ClosedJob (F : Type 0) : Type 0 where
  pub symbol : Text
  pub interval : Text
  pub open_time : ℕ
  pub bar : CompactBar F
  pub row : Option (Row F)

pub data SinkCall (F : Type 0) : Type 0 where
  -- Live.TryEnqueue
  live_bar : Text → Text → LiveBar F → SinkCall F
  -- Window.PushBarAndTrim
  window_bar : Text → Text → CompactBar F → SinkCall F
  -- Archive.TryPush
  archive_row : Text → Row F → SinkCall F
  -- agg.mark
  section_mark : Text → Text → ℕ → SinkCall F

pub record Dispatcher (F : Type 0) : Type 0 where
  pub closed : Bool
  pub last_closed : Map Text ℕ
  pub capacity : ℕ
  pub queue : List (ClosedJob F)
  -- the jobs that workers have taken, in order
  pub taken : List (ClosedJob F)
  pub calls : List (SinkCall F)

pub data HandleError : Type 0 where
  is_closed is_busy : HandleError
  bad_field : Text → HandleError

-- The key of the guard's map.
unfoldable pub guard_key : Text → Text → Text
guard_key symbol interval = symbol ++ (codes "|" ++ interval)

abbrev not_newer : Option ℕ → ℕ → Bool
not_newer none t = false
not_newer (some prev) t = leb t prev

-- `acceptClosed`: the map is written only if the bar is newer than the last.
unfoldable pub accept_closed : Text → ℕ → Map Text ℕ → Bool × Map Text ℕ
accept_closed k t m = if not_newer (lookup k m) t then (false, m) else (true, insert k t m)

module _ {F : Type 0} where
  abbrev row_of : Result (Row F) → Option (Row F)
  row_of (ok r) = some r
  row_of (err name) = none

  -- The non-blocking send on the closed-bar channel.
  unfoldable pub enqueue : ClosedJob F → Dispatcher F → Dispatcher F × Option HandleError
  enqueue job d =
      if ltb (length d.queue) d.capacity
      then (record d { queue = d.queue ++ job ∷ [] }, none)
      else (d, some is_busy)

module _ {F : Type 0} (parse_float : Text → Option F) where
  -- Step 3 of `HandleKlineEvent`: the payloads and the hand-off.
  unfoldable pub hand_off : KlineEvent → Dispatcher F → Dispatcher F × Option HandleError
  unfolding enqueue
  hand_off e d = elim (to_compact_bar parse_float e) [
    | err name ↦ (d, some (bad_field name))
    | ok cb ↦
        enqueue
          (record {
            symbol = e.symbol;
            interval = e.interval;
            open_time = e.open_time;
            bar = cb;
            row = row_of (to_row parse_float e);
          })
          d
  ]

  -- Step 2: the guard.
  unfoldable pub guarded : KlineEvent → Dispatcher F → Dispatcher F × Option HandleError
  unfolding accept_closed guard_key hand_off
  guarded e d =
      let r = accept_closed (guard_key e.symbol e.interval) e.open_time d.last_closed in
      if r.0 then hand_off e (record d { last_closed = r.1 }) else (d, none)

  -- Step 1: the live snapshot, for every event that can be read.
  unfoldable pub snapshot :
      KlineEvent → Result (LiveBar F) → Dispatcher F → Dispatcher F × Option HandleError
  unfolding guarded
  snapshot e (err name) d = (d, some (bad_field name))
  snapshot e (ok lb) d =
      let d' = record d { calls = d.calls ++ live_bar e.symbol e.interval lb ∷ [] } in
      if e.is_final then guarded e d' else (d', none)

  -- `HandleKlineEvent`; `none` is a nil error.
  unfoldable pub handle_kline_event : KlineEvent → Dispatcher F → Dispatcher F × Option HandleError
  unfolding snapshot
  handle_kline_event e d =
      if d.closed then (d, some is_closed) else snapshot e (to_live_bar parse_float e) d

module _ {F : Type 0} where
  -- `handleClosed`: the window first, then the archive, then the section's mark.
  unfoldable pub handle_closed : ClosedJob F → List (SinkCall F)
  handle_closed job =
      window_bar job.symbol job.interval job.bar
      ∷ (elim job.row [ none ↦ [] | some r ↦ archive_row job.interval r ∷ [] ]
          ++ section_mark job.symbol job.interval job.open_time ∷ [])

  take_job : List (ClosedJob F) → Dispatcher F → Dispatcher F
  unfolding handle_closed
  take_job [] d = d
  take_job (job ∷ rest) d = record d {
    queue = rest;
    taken = d.taken ++ job ∷ [];
    calls = d.calls ++ handle_closed job;
  }

  -- One receive of a worker, in `worker` or in `drain`.
  unfoldable pub work : Dispatcher F → Dispatcher F
  unfolding take_job
  work d = take_job d.queue d

  -- `Close`, up to the drain by the workers.
  unfoldable pub close : Dispatcher F → Dispatcher F
  close d = record d { closed = true }

  unfoldable pub new : ℕ → Dispatcher F
  new capacity = record {
    closed = false;
    last_closed = [];
    capacity = capacity;
    queue = [];
    taken = [];
    calls = [];
  }

pub data Action : Type 0 where
  event : KlineEvent → Action
  works closes : Action

module _ {F : Type 0} (parse_float : Text → Option F) where
  unfoldable pub act : Action → Dispatcher F → Dispatcher F
  unfolding handle_kline_event work close
  act (event e) d = (handle_kline_event parse_float e d).0
  act works d = work d
  act closes d = close d

  -- Any interleaving of events, workers and the shutdown.
  unfoldable pub run : List Action → Dispatcher F → Dispatcher F
  run [] d = d
  run (a ∷ acts) d = run acts (act a d)
