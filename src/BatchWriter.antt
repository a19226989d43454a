-- ===== src/BatchWriter.antt =====
-- internal/chwriter: config.go and writer.go. Producers, the run loop and Close are steps on one
-- state, in any order; a `select` that has several ready cases is a step for each. The flusher, its
-- errors, contexts and the random jitter are an `attempts` function, by batch and by attempt.
-- Durations are nanoseconds below 2^62, so that doubling one does not overflow.
pub mod Loop
pub mod Rows
pub mod Retry
pub mod Shutdown
mod Tests
use chomo_syncer_go.Base.{
  ltb, if◌then◌else◌, ◌==◌, nat_eq, text_eq, ℤ, or_default, millisecond, second, ℕ, zero, suc, ◌+◌,
  ◌*◌, ◌/◌, ◌%◌, Bool, not, none, List, [], ◌∷◌, arith, pos, negsuc,
}

pub record Config : Type 0 where
  pub batch_size : ℤ
  pub flush_interval : ℤ
  pub channel_size : ℤ
  pub max_retries : ℤ
  pub retry_backoff : ℤ
  pub max_retry_backoff : ℤ
  pub shutdown_timeout : ℤ

pub record ResolvedConfig : Type 0 where
  pub size : ℕ
  pub interval : ℕ
  pub capacity : ℕ
  pub retries : ℕ
  pub backoff : ℕ
  pub max_backoff : ℕ
  pub timeout : ℕ

-- A negative number of retries means none, zero means the default.
resolve_retries : ℤ → ℕ
resolve_retries (negsuc n) = 0
resolve_retries (pos n) = if n == 0 then 5 else n

-- `Config.resolve`
unfoldable pub resolve : Config → ResolvedConfig
unfolding resolve_retries
resolve c =
    let base = or_default c.retry_backoff (200 * millisecond) in
    let cap = or_default c.max_retry_backoff (5 * second) in
    record {
      size = or_default c.batch_size 5000;
      interval = or_default c.flush_interval second;
      capacity = or_default c.channel_size 20000;
      retries = resolve_retries c.max_retries;
      backoff = base;
      max_backoff = if ltb cap base then base else cap;
      timeout = or_default c.shutdown_timeout (15 * second);
    }

-- What one attempt at a flush meets.
pub record Attempt : Type 0 where
  pub flush_err : Bool
  -- ctx.Err() after the attempt
  pub ctx_err : Bool
  -- whether ctx ends during the backoff
  pub sleep_err : Bool
  -- the random number that the jitter is taken from
  pub random : ℕ

pub data FlushResult : Type 0 where
  stored flush_failed ctx_done : FlushResult

-- A return of `flushWithRetry`: its error, the number of calls of Flush and the backoffs slept.
pub record Flushed : Type 0 where
  pub result : FlushResult
  pub calls : ℕ
  pub waits : List ℕ

-- `backoff + rand.Int63n(backoff/2 + 1)`
abbrev pub sleep_time : ℕ → ℕ → ℕ
sleep_time backoff random = backoff + random % (backoff / 2 + 1)

abbrev pub next_backoff : ℕ → ℕ → ℕ
next_backoff cap backoff = if ltb cap (backoff * 2) then cap else backoff * 2

abbrev give_up : Attempt → FlushResult
give_up a = if a.ctx_err then ctx_done else flush_failed

abbrev once_more : ℕ → Flushed → Flushed
once_more slept f = record { result = f.result; calls = suc f.calls; waits = slept ∷ f.waits }

-- The loop of `flushWithRetry` at attempt `n`, with `left` retries left.
unfoldable pub flush_loop : (ℕ → Attempt) → ℕ → ℕ → ℕ → ℕ → Flushed
flush_loop attempts cap backoff n zero = record {
  result = if (attempts n).flush_err then give_up (attempts n) else stored;
  calls = 1;
  waits = [];
}
flush_loop attempts cap backoff n (suc left) =
    let rest = flush_loop attempts cap (next_backoff cap backoff) (suc n) left in
    if not (attempts n).flush_err
    then record { result = stored; calls = 1; waits = [] }
    else if (attempts n).ctx_err
    then record { result = ctx_done; calls = 1; waits = [] }
    else if (attempts n).sleep_err
    then record { result = ctx_done; calls = 1; waits = [] }
    else once_more (sleep_time backoff (attempts n).random) rest

-- `flushWithRetry`
unfoldable pub flush_with_retry : ResolvedConfig → (ℕ → Attempt) → Flushed
unfolding flush_loop
flush_with_retry cfg attempts = flush_loop attempts cfg.max_backoff cfg.backoff 0 cfg.retries
