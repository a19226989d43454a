-- ===== src/Collector.antt =====
-- internal/collector/{collector,shard}.go: the settings, and a shard, which supervises one
-- connection. The connector is a library: what it does is an event. Times are nanoseconds since
-- 1970. Cloned and sorted sets are the sets themselves.
pub mod Gaps
pub mod Streams
pub mod Backoff
pub mod Symbols
mod Tests
use chomo_syncer_go.Base.{
  ltb, leb, if◌then◌else◌, ◌==◌, nat_eq, length, drop, Text, codes, text_eq, without, ℤ, or_default,
  millisecond, second, ℕ, ◌+◌, ◌*◌, ◌/◌, ◌%◌, not, Option, none, some, List, [], ◌∷◌, ◌++◌, arith,
}
use chomo_syncer_go.Sharding.{diff_sets}

pub record Config : Type 0 where
  pub intervals : List Text
  pub shards_per_interval : ℤ
  pub ws_base_url : Text
  pub connect_stagger : ℤ
  pub reconnect_base : ℤ
  pub reconnect_max : ℤ
  pub stale_timeout : ℤ
  pub watchdog_interval : ℤ
  pub connect_timeout : ℤ

pub record ResolvedConfig : Type 0 where
  pub intervals : List Text
  pub shards_per_interval : ℕ
  pub ws_base_url : Text
  pub connect_stagger : ℕ
  pub reconnect_base : ℕ
  pub reconnect_max : ℕ
  pub stale_timeout : ℕ
  pub watchdog_interval : ℕ
  pub connect_timeout : ℕ

unfoldable pub or_intervals : List Text → List Text
or_intervals [] = codes "1m" ∷ codes "1h" ∷ []
or_intervals (i ∷ is) = i ∷ is

unfoldable pub or_url : Text → Text
or_url [] = codes "wss://fstream.binance.com"
or_url (c ∷ cs) = c ∷ cs

unfoldable pub resolve : Config → ResolvedConfig
unfolding or_default or_intervals or_url
resolve c =
    let base = or_default c.reconnect_base second in
    let most = or_default c.reconnect_max (30 * second) in
    record {
      intervals = or_intervals c.intervals;
      shards_per_interval = or_default c.shards_per_interval 4;
      ws_base_url = or_url c.ws_base_url;
      connect_stagger = or_default c.connect_stagger (300 * millisecond);
      reconnect_base = base;
      reconnect_max = if ltb most base then base else most;
      stale_timeout = or_default c.stale_timeout (60 * second);
      watchdog_interval = or_default c.watchdog_interval (10 * second);
      connect_timeout = or_default c.connect_timeout (20 * second);
    }

-- `GapEvent`, without the id of the shard
pub record GapEvent : Type 0 where
  pub streams : List Text
  pub last_msg_at : ℕ
  pub reconnect_at : ℕ

-- The shard waits to connect, or is connected since a time, with the streams that it takes as
-- subscribed and the version of the wanted ones that it has applied, or is gone.
pub data Phase : Type 0 where
  down ended : Phase
  up : ℕ → List Text → ℕ → Phase

pub record Shard : Type 0 where
  pub cfg : ResolvedConfig
  pub desired : List Text
  pub version : ℕ
  pub phase : Phase
  -- the time of the last frame before the last drop
  pub down_at : Option ℕ
  pub backoff : ℕ
  -- the delays slept before a reconnect, the last first, each by the random number drawn for it
  pub delays : List (ℕ → ℕ)
  -- what the connection is subscribed to at the exchange
  pub client : List Text
  -- the calls of OnGap, the last first
  pub gaps : List GapEvent
  -- the connections that ended, the last first: when each was made and its last frame came
  pub sessions : List (ℕ × ℕ)

-- `newShard`, and the head of `run`
unfoldable pub new : ResolvedConfig → List Text → Shard
new cfg streams = record {
  cfg = cfg;
  desired = streams;
  version = 0;
  phase = down;
  down_at = none;
  backoff = cfg.reconnect_base;
  delays = [];
  client = [];
  gaps = [];
  sessions = [];
}

unfoldable pub set_desired : List Text → Shard → Shard
set_desired streams s = record s { desired = streams; version = s.version + 1 }

-- `reportGap`
unfoldable pub report_gap : Option ℕ → ℕ → List Text → Shard → Shard
report_gap none up_at streams s = s
report_gap (some down_at) up_at streams s =
    if ltb down_at up_at
    then record s {
      gaps = record { streams = streams; last_msg_at = down_at; reconnect_at = up_at } ∷ s.gaps;
    }
    else s

-- `connectAndPump` up to its loop, where Connect succeeds and it is `now`.
unfoldable pub connect : ℕ → Shard → Shard
unfolding report_gap
connect now s =
    report_gap s.down_at now s.desired
      (record s { phase = up now s.desired s.version; client = s.desired })

-- `jitter`, by the random number; Int63n takes it below half of the delay and one more.
unfoldable pub jitter : ℕ → ℕ → ℕ
jitter d draw = if leb d 0 then 0 else d / 2 + draw % (d / 2 + 1)

-- The end of a round of `run`: the next drop time, the sleep and the next backoff.
unfoldable pub retry : Option ℕ → Shard → Shard
unfolding jitter
retry down_at s = record s {
  phase = down;
  down_at = down_at;
  delays = jitter s.backoff ∷ s.delays;
  backoff = if ltb s.cfg.reconnect_max (s.backoff * 2) then s.cfg.reconnect_max else s.backoff * 2;
}

-- The connection that was made at `at` ends, its last frame being of the time `last`.
unfoldable pub drop_at : ℕ → ℕ → Shard → Shard
unfolding retry
drop_at at last s = record (retry (some last) s) { sessions = (at, last) ∷ s.sessions }

-- What became of the delta: Subscribe failed, or only Unsubscribe did.
pub data Applied : Type 0 where
  refused added changed : Applied

-- The streams of the connection after Unsubscribe.
unfoldable pub removed_from : List Text → List Text → List Text
removed_from [] client = client
removed_from (x ∷ xs) client = removed_from xs (without x client)

-- The wanted streams are taken as subscribed.
unfoldable pub advance : ℕ → List Text → Shard → Shard
advance at client s = record s { phase = up at s.desired s.version; client = client }

-- A delta of subscriptions; Subscribe and Unsubscribe are not called for no stream.
unfoldable pub apply_delta : ℕ → List Text → Applied → ℕ → Shard → Shard
unfolding removed_from drop_at advance
apply_delta at subscribed refused last s =
    let add = (diff_sets subscribed s.desired).0 in
    if length add == 0 then advance at (s.client ++ add) s else drop_at at last s
apply_delta at subscribed added last s =
    advance at (s.client ++ (diff_sets subscribed s.desired).0) s
apply_delta at subscribed changed last s =
    let d = diff_sets subscribed s.desired in advance at (removed_from d.1 (s.client ++ d.0)) s

-- The check of staleness at the end of a watchdog's tick.
unfoldable pub check_stale : ℕ → ℕ → Phase → Shard → Shard
unfolding drop_at
check_stale now last (up at subscribed v) s =
    if ltb (last + s.cfg.stale_timeout) now then drop_at at last s else s
check_stale now last down s = s
check_stale now last ended s = s

-- The case `<-wd.C`.
unfoldable pub tick : ℕ → ℕ → Applied → Phase → Shard → Shard
unfolding apply_delta check_stale
tick now last r (up at subscribed v) s =
    let s' = if s.version == v then s else apply_delta at subscribed r last s in
    check_stale now last s'.phase s'
tick now last r down s = s
tick now last r ended s = s

unfoldable pub connect_step : ℕ → Phase → Shard → Shard
unfolding connect
connect_step now down s = connect now s
connect_step now _ s = s

unfoldable pub fail_step : Phase → Shard → Shard
unfolding retry
fail_step down s = retry s.down_at s
fail_step _ s = s

unfoldable pub drop_step : ℕ → Phase → Shard → Shard
unfolding drop_at
drop_step last (up at subscribed v) s = drop_at at last s
drop_step last _ s = s

-- The case `g := <-silent`.
unfoldable pub silent_step : ℕ → ℕ → Phase → Shard → Shard
unfolding report_gap
silent_step last reconnected (up at subscribed v) s =
    report_gap (some last) reconnected subscribed s
silent_step last reconnected _ s = s

pub data Event : Type 0 where
  wants : List Text → Event
  -- Connect succeeds at a time, or fails
  connects : ℕ → Event
  fails : Event
  -- an error, or the end of the errors, with the time of the last frame
  drops : ℕ → Event
  silents : ℕ → ℕ → Event
  ticks : ℕ → ℕ → Applied → Event
  stops : Event

unfoldable pub handle : Event → Shard → Shard
unfolding set_desired connect_step fail_step drop_step silent_step tick
handle (wants streams) s = set_desired streams s
handle (connects now) s = connect_step now s.phase s
handle fails s = fail_step s.phase s
handle (drops last) s = drop_step last s.phase s
handle (silents last reconnected) s = silent_step last reconnected s.phase s
handle (ticks now last r) s = tick now last r s.phase s
handle stops s = record s { phase = ended }

unfoldable pub run : List Event → Shard → Shard
run [] s = s
run (e ∷ rest) s = run rest (handle e s)
