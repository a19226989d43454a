-- ===== src/OpenInterest/RowWriter.antt =====
-- internal/openinterest/writer.go: the batching writer of rows. Callers of Push and the loop take
-- their steps in any order; a caller passes the checks and then sends on the channel. The flusher,
-- the contexts and the random delays are the environment's.
pub mod Barrier
pub mod Attempts
mod Tests
use chomo_syncer_go.Base.{
  ltb, leb, if◌then◌else◌, ◌==◌, nat_eq, length, take, text_eq, pick, ℤ, or_default, millisecond,
  second, ℕ, zero, suc, ◌+◌, ◌*◌, Bool, true, false, not, ◌&&◌, ◌||◌, Option, none, some, List, [],
  ◌∷◌, ◌++◌, arith, pos, negsuc,
}

pub record WriterConfig : Type 0 where
  pub batch_size : ℤ
  pub flush_interval : ℤ
  pub channel_size : ℤ
  pub max_retries : ℤ
  pub retry_backoff : ℤ
  pub max_retry_backoff : ℤ
  pub shutdown_timeout : ℤ

-- A `WriterConfig` after its defaults.
pub record WriterSettings : Type 0 where
  pub batch_size : ℕ
  pub flush_interval : ℕ
  pub channel_size : ℕ
  pub max_retries : ℕ
  pub retry_backoff : ℕ
  pub max_retry_backoff : ℕ
  pub shutdown_timeout : ℕ

-- A negative number of retries is none.
unfoldable pub retries_or_default : ℤ → ℕ
retries_or_default (negsuc n) = 0
retries_or_default (pos n) = if n == 0 then 5 else n

unfoldable pub writer_defaults : WriterConfig → WriterSettings
unfolding or_default retries_or_default
writer_defaults c = record {
  batch_size = or_default c.batch_size 2000;
  flush_interval = or_default c.flush_interval second;
  channel_size = or_default c.channel_size 20000;
  max_retries = retries_or_default c.max_retries;
  retry_backoff = or_default c.retry_backoff (200 * millisecond);
  max_retry_backoff = or_default c.max_retry_backoff (5 * second);
  shutdown_timeout = or_default c.shutdown_timeout (15 * second);
}

-- What a flush meets: whether its n-th attempt fails, and whether its context has ended by then.
pub record Flusher : Type 0 where
  pub fails : ℕ → Bool
  pub ended : ℕ → Bool

-- The attempts of `flushWithRetry`, from the n-th with so many retries left: how many were made,
-- and whether the last one succeeded.
unfoldable pub attempts : Flusher → ℕ → ℕ → ℕ × Bool
attempts f zero n = (n + 1, not (f.fails n))
attempts f (suc left) n =
    let next = attempts f left (n + 1) in
    if not (f.fails n) then (n + 1, true) else if f.ended n then (n + 1, false) else next

-- `backoff` after an attempt, doubled up to its cap
unfoldable pub next_backoff : WriterSettings → ℕ → ℕ
next_backoff cfg backoff =
    if ltb cfg.max_retry_backoff (backoff * 2) then cfg.max_retry_backoff else backoff * 2

pub data PushError : Type 0 where
  invalid_row writer_closed : PushError

pub record RowWriter (R : Type 0) : Type 0 where
  pub cfg : WriterSettings
  pub closed : Bool
  pub stopping : Bool
  pub running : Bool
  -- the rows of callers past their checks and before their send
  pub entered : List R
  pub input : List R
  pub batch : List R
  pub dropped : Bool
  -- the rows whose send succeeded, those that were flushed, those that were dropped, and those that
  -- had been at the last barrier
  pub accepted : List R
  pub stored : List R
  pub lost : List R
  pub lost_before : List R

module _ {R : Type 0} where
  -- `newBatchWriter`
  unfoldable pub new : WriterSettings → RowWriter R
  new cfg = record {
    cfg = cfg;
    closed = false;
    stopping = false;
    running = true;
    entered = [];
    input = [];
    batch = [];
    dropped = false;
    accepted = [];
    stored = [];
    lost = [];
    lost_before = [];
  }

  -- The head of `Push`; `is_valid` is the row's own check.
  unfoldable pub enter : (R → Bool) → R → RowWriter R → RowWriter R × Option PushError
  enter is_valid r w =
      if not (is_valid r)
      then (w, some invalid_row)
      else if w.closed
      then (w, some writer_closed)
      else (record w { entered = r ∷ w.entered }, none)

  -- The send of `Push`, where the channel has room; a caller may leave instead when its context or
  -- the writer ends.
  unfoldable pub send : R → List R → RowWriter R → RowWriter R
  send r others w =
      if ltb (length w.input) w.cfg.channel_size
      then record w { entered = others; input = w.input ++ r ∷ []; accepted = w.accepted ++ r ∷ [] }
      else w

  unfoldable pub settle : Bool → R → List R → RowWriter R → RowWriter R × Bool
  settle true r rs w = (record w { batch = []; stored = w.stored ++ (r ∷ rs) }, false)
  settle false r rs w = (record w { batch = []; lost = w.lost ++ (r ∷ rs); dropped = true }, true)

  unfoldable pub flush_rows : Flusher → List R → RowWriter R → RowWriter R × Bool
  unfolding attempts settle
  flush_rows f [] w = (w, false)
  flush_rows f (r ∷ rs) w = settle (attempts f w.cfg.max_retries 0).1 r rs w

  -- `flush` of the loop: whether it failed.
  unfoldable pub flush : Flusher → RowWriter R → RowWriter R × Bool
  unfolding flush_rows
  flush f w = flush_rows f w.batch w

  unfoldable pub drain : RowWriter R → RowWriter R
  drain w = record w { batch = w.batch ++ w.input; input = [] }

  unfoldable pub take_row : Flusher → List R → RowWriter R → RowWriter R
  unfolding flush
  take_row f [] w = w
  take_row f (r ∷ rest) w =
      let w' = record w { input = rest; batch = w.batch ++ r ∷ [] } in
      if leb w.cfg.batch_size (length (w.batch ++ r ∷ [])) then (flush f w').0 else w'

  -- The reply to a Flush, true for an error, and the barrier that it sets.
  unfoldable pub answer : RowWriter R × Bool → RowWriter R × Bool
  answer (w, failed) = (record w { dropped = false; lost_before = w.lost }, failed || w.dropped)

  unfoldable pub barrier : Flusher → RowWriter R → RowWriter R × Bool
  unfolding flush drain answer
  barrier f w = answer (flush f (drain w))

  unfoldable pub last_flush : RowWriter R × Bool → RowWriter R
  last_flush (w, failed) = record w { running = false }

  unfoldable pub stop : Flusher → RowWriter R → RowWriter R
  unfolding flush drain last_flush
  stop f w = last_flush (flush f (drain w))

  -- `Close`
  unfoldable pub close : RowWriter R → RowWriter R
  close w = record w { closed = true; stopping = true }

pub data Action (R : Type 0) : Type 0 where
  enters : R → Action R
  sends leaves : ℕ → Action R
  receives ticks flushes stops : Flusher → Action R
  closes : Action R

abbrev pub picked {ℓ} : {A : Type ℓ} {B : Type 0} → Option (A × List A) → B → (A → List A → B) → B
picked none b f = b
picked (some (x, others)) b f = f x others

module _ {R : Type 0} (is_valid : R → Bool) where
  unfoldable pub act : Action R → RowWriter R → RowWriter R
  unfolding pick enter send take_row flush barrier stop close
  act (enters r) w = (enter is_valid r w).0
  act (sends n) w = picked (pick n w.entered) w (λ r others. send r others w)
  act (leaves n) w = picked (pick n w.entered) w (λ r others. record w { entered = others })
  act (receives f) w = if w.running then take_row f w.input w else w
  act (ticks f) w = if w.running then (flush f w).0 else w
  act (flushes f) w = if w.running then (barrier f w).0 else w
  act (stops f) w = if w.running && w.stopping then stop f w else w
  act closes w = close w

  unfoldable pub run : List (Action R) → RowWriter R → RowWriter R
  run [] w = w
  run (a ∷ rest) w = run rest (act a w)
