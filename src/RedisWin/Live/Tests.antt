-- ===== src/RedisWin/Live/Tests.antt =====
-- Runs of internal/rediswin/livebar_writer.go: two snapshots, one worker, and Close.
use chomo_syncer_go.Base.{
  to_upper, nat_eq, Text, codes, text_eq, sum_by, millisecond, second, ℕ, ◌*◌, ◌≡◌, refl, true,
  false, Option, none, some, List, [], ◌∷◌, arith, pos,
}
use chomo_syncer_go.Bars.{LiveBar}
use chomo_syncer_go.Interval.{parse_interval_atoi}
use chomo_syncer_go.RedisWin.Live.{
  pipeline, hset, pexpire, publishes, publish_command, job_of, live_key, ResolvedLiveConfig,
  LiveWriter, new, Action, enters, try_enqueues, enqueues, takes, sees_stop, closes, act, run,
  ttl_for,
}
use chomo_syncer_go.RedisWin.Live.Writes.{IsFifo, live-IsFifo}
use chomo_syncer_go.RedisWin.Live.Drain.{gone_workers, run-drained}

abbrev cfg : ResolvedLiveConfig
cfg = record {
  key_prefix = codes "livebar";
  workers = 1;
  channel_size = 4;
  write_timeout = 200 * millisecond;
  ttl_multiple = 2;
  default_ttl = 7200 * second;
  publish = false;
  channel_prefix = codes "livebar";
}

hour_ttl : ttl_for cfg (codes "1h") ≡ pos (7200 * second)
unfolding ttl_for parse_interval_atoi
hour_ttl = refl

abbrev bar : ℕ → LiveBar ℕ
bar t = record {
  start_time = t;
  opened = 1;
  high = 2;
  low = 1;
  close = 2;
  volume = 3;
  quote_volume = 4;
  taker_buy_volume = 1;
  taker_buy_quote_volume = 1;
  trades_count = pos 5;
  is_final = false;
}

abbrev marshal : LiveBar ℕ → Option Text
marshal b = none

writes_two :
    pipeline cfg (job_of cfg (codes "btc") (codes "1h") (bar 60) (some (codes "[]")))
    ≡ hset (codes "livebar:BTC:1h") (bar 60)
      ∷ pexpire (codes "livebar:BTC:1h") (pos (7200 * second))
      ∷ publishes (codes "livebar.1h") (codes "[]")
      ∷ []
unfolding pipeline publish_command ttl_for job_of live_key parse_interval_atoi to_upper
writes_two = refl

abbrev two_sent : List (Action ℕ)
two_sent =
    enters (codes "BTC") (codes "1m") (bar 60)
    ∷ try_enqueues 0
    ∷ enters (codes "BTC") (codes "1m") (bar 120)
    ∷ enqueues 0
    ∷ closes
    ∷ []

live-IsFifo_example : IsFifo (run marshal two_sent (new cfg))
live-IsFifo_example = live-IsFifo marshal cfg two_sent

abbrev closed_writer : LiveWriter ℕ
closed_writer = run marshal two_sent (new cfg)

abbrev finish : List (Action ℕ)
finish = sees_stop 0 ∷ takes 0 ∷ takes 0 ∷ takes 0 ∷ []

is_closed_now : closed_writer.closed ≡ true
unfolding run act new
is_closed_now = refl

none_entered : closed_writer.entered ≡ []
unfolding run act new
none_entered = refl

none_gone : gone_workers closed_writer.workers ≡ 0
unfolding run act new gone_workers sum_by
none_gone = refl

worker_gone : gone_workers (run marshal finish closed_writer).workers ≡ 1
unfolding run act new gone_workers sum_by
worker_gone = refl

run-drained_example :
    (run marshal finish closed_writer).written ≡ (run marshal finish closed_writer).accepted
run-drained_example =
    run-drained marshal finish closed_writer live-IsFifo_example is_closed_now none_entered
      none_gone (omega (arith, worker_gone))
