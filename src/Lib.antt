-- ===== src/Lib.antt =====
-- ChomoSyncer collects the klines of the Binance USD-M perpetual contracts. A collector receives
-- frames and passes each event to the dispatcher (internal/dispatcher), which sends the snapshot of
-- every frame to a live writer and each closed bar through a queue to workers:
-- to the rolling window in Redis (internal/rediswin), to the archive in ClickHouse
-- (internal/chwriter) and to the aggregator of sections, which publishes a kline_ready event when
-- every symbol of the universe has reported. A backfiller (internal/backfill) repairs gaps through
-- REST requests, which the weight gate (internal/weightgate) admits; the keys under repair are held
-- at the window gate (internal/windowgate), which keeps the live path from their windows.
--
-- Files and code:
--   Base        what the Go code takes from its language and standard library: Boolean tests,
--               slices, maps, sets, ASCII text, 64-bit words, strconv.Atoi
--   WindowGate  internal/windowgate/gate.go: Hold, Release, HeldWindow, HeldInterval, HeldCount and
--               the two wrapped sinks
--   WeightGate  internal/weightgate/gate.go: settings, Observe, PauseFor, the delays; Wait in
--               WeightGate/Wait
--   RedisWin    internal/rediswin/{config,writer}.go: the two Lua scripts, startTimeOf, the push
--   Bars        internal/rediswin/{bar,livebar}.go, internal/chwriter/row.go and
--               internal/dispatcher/event.go: the readings of one event
--   Interval    parseIntervalDuration of internal/dispatcher and its copies
--   Aggregator  internal/dispatcher/aggregator.go: mark, onTimeout, publish, publishDerived, evict;
--               their interleavings in Aggregator/Steps;
--               universe.go in Aggregator/Static
--   Dispatcher  internal/dispatcher/dispatcher.go: HandleKlineEvent, acceptClosed, the queue, the
--               workers, Close
--   BatchWriter internal/chwriter/{config,writer}.go: flushWithRetry; producers, the run loop, Flush
--               and Close as steps in BatchWriter/Loop
--   DataPool    internal/openinterest/limiter.go: the sliding window of requests, Wait
--   Universe    internal/universe/monitor.go: the filter, Refresh, Size and Has, nextDelay
--   Sharding    internal/collector/sharding.go: planStreams and diffSets
--   Backfill    internal/backfill: parseStream; the paged requests of rest.go in
--               Backfill/Fetch; Submit, HandleGap, run and the release of keys in
--               Backfill/Requests;
--               process and processInterval in Backfill/Process; sweep.go in
--               Backfill/Sweep
--   Collector   internal/collector/{collector,shard}.go: settings, SetSymbols, the life of a shard
--   RedisWin/Live  internal/rediswin/livebar_writer.go: enqueueing, the workers, Close
--   OpenInterest  internal/openinterest/{align,row}.go: the bar of a value, the check of a row; in its
--               children hist.go (Pages, Plan, Pass), lsratio.go and lsratio_hist.go (Ratios),
--               live.go (Live), livecache.go (Cache), writer.go (RowWriter), syncer.go
--               (Syncer) and the settings of all of them (Settings)
-- A mutable struct is a record and a method a function on it; a field that a mutex guards is changed
-- by one function per critical section, and concurrency is a list of such steps in any order. A
-- nil error is `none` or `ok`.
--
-- Numbers: timestamps and durations are natural numbers (milliseconds or nanoseconds since 1970,
-- in OpenInterest since Go's zero time);
-- Go's int and int64 are the type ℤ where a negative number can come in, and a register's
-- wrap-around is written out where the code can reach it.
--
-- Loops: a loop that waits for its surroundings takes what it sees in each iteration from a list,
-- and ends undecided if the list does. Only the digits of a number run on fuel, one more than the
-- number itself: a number has no more digits than that.
--
-- Parameters: float64 with strconv.ParseFloat, the token buckets of golang.org/x/time/rate, Redis and
-- the other clients, clocks, timers, and the answers of the sinks.
--
-- Not modelled: metrics and logs, which no decision reads; JSON encoding; the clients of ClickHouse,
-- Redis and Binance; the reading of the configuration; the wiring of internal/app and cmd;
-- the watcher of silent reconnects; the pacing and the timers of internal/openinterest.
pub mod Base
pub mod WindowGate
pub mod WeightGate
pub mod RedisWin
pub mod Bars
pub mod Interval
pub mod Aggregator
pub mod Dispatcher
pub mod BatchWriter
pub mod DataPool
pub mod Universe
pub mod Sharding
pub mod Collector
pub mod Backfill
pub mod OpenInterest
