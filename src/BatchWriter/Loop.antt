-- ===== src/BatchWriter/Loop.antt =====
-- internal/chwriter/writer.go: producers, the run loop in its phases, Flush and Close.
use chomo_syncer_go.Base.{
  ltb, leb, if◌then◌else◌, nat_eq, length, text_eq, pick, ℕ, Bool, true, false, Option, none, some,
  List, [], ◌∷◌, ◌++◌,
}
use chomo_syncer_go.BatchWriter.{ResolvedConfig, Attempt, FlushResult, stored, flush_with_retry}

-- The loop at its select, draining for a `Flush` with its `lastErr`, draining for the shutdown, or
-- gone.
pub data Phase : Type 0 where
  running : Phase
  flushing : Option FlushResult → Phase
  stopping : Phase
  stopped : Phase

pub data PushError : Type 0 where
  is_closed buffer_full : PushError

pub record Writer {ℓ} (R : Type ℓ) : Type ℓ where
  pub cfg : ResolvedConfig
  pub closed : Bool
  pub phase : Phase
  -- rows of producers that are past the check of `closed` and before their send
  pub entered : List R
  pub queue : List R
  pub batch : List R
  -- the batches given to flushWithRetry, with its result, in order
  pub log : List (List R × FlushResult)
  -- the answers to Flush; `none` is a nil error
  pub answers : List (Option FlushResult)
  -- the rows whose send succeeded, in order
  pub accepted : List R

module _ {ℓ} {R : Type ℓ} where
  -- `NewWithFlusher`
  unfoldable pub new : ResolvedConfig → Writer R
  new cfg = record {
    cfg = cfg;
    closed = false;
    phase = running;
    entered = [];
    queue = [];
    batch = [];
    log = [];
    answers = [];
    accepted = [];
  }

  -- The check at the head of `Push` and `TryPush`.
  unfoldable pub enter : R → Writer R → Writer R × Option PushError
  enter row w =
      if w.closed then (w, some is_closed) else (record w { entered = row ∷ w.entered }, none)

  -- A send on the channel, if it has room.
  unfoldable pub send : R → List R → Writer R → Writer R
  send row others w =
      if ltb (length w.queue) w.cfg.capacity
      then record w {
        entered = others;
        queue = w.queue ++ row ∷ [];
        accepted = w.accepted ++ row ∷ [];
      }
      else w

  -- The select of `TryPush`: without room the row is dropped.
  unfoldable pub try_send : R → List R → Writer R → Writer R × Option PushError
  unfolding send
  try_send row others w =
      if ltb (length w.queue) w.cfg.capacity
      then (send row others w, none)
      else (record w { entered = others }, some buffer_full)

-- `if err := flush(...); err != nil { lastErr = err }`
abbrev pub last_err : Option FlushResult → Option FlushResult → Option FlushResult
last_err none old = old
last_err (some e) old = some e

module _ {ℓ} {R : Type ℓ} (attempts : ℕ → ℕ → Attempt) where
  -- The closure `flush`; `none` is a nil error.
  unfoldable pub flush_batch : List R → Writer R → Writer R × Option FlushResult
  flush_batch [] w = (w, none)
  flush_batch (x ∷ xs) w =
      let r = (flush_with_retry w.cfg (attempts (length w.log))).result in
      (
        record w { batch = []; log = w.log ++ (x ∷ xs, r) ∷ [] },
        elim r [ stored ↦ none | e ↦ some e ],
      )

  unfoldable pub flush : Writer R → Writer R × Option FlushResult
  unfolding flush_batch
  flush w = flush_batch w.batch w

  -- A row is received and the batch flushed if it is full.
  unfoldable pub receive : R → List R → Writer R → Writer R × Option FlushResult
  unfolding flush
  receive row rest w =
      let w' = record w { queue = rest; batch = w.batch ++ row ∷ [] } in
      if leb w.cfg.size (length w'.batch) then flush w' else (w', none)

  -- One iteration of the drain of a `Flush`: a receive, or the final flush and the answer.
  unfoldable pub flush_step : Option FlushResult → List R → Writer R → Writer R
  unfolding flush receive
  flush_step err [] w =
      let r = flush w in
      record r.0 { phase = running; answers = r.0.answers ++ last_err r.1 err ∷ [] }
  flush_step err (row ∷ rest) w =
      let r = receive row rest w in record r.0 { phase = flushing (last_err r.1 err) }

  -- One iteration of `drainInto`, or the final flush of `shutdown`.
  unfoldable pub stop_step : List R → Writer R → Writer R
  unfolding flush receive
  stop_step [] w = record (flush w).0 { phase = stopped }
  stop_step (row ∷ rest) w = (receive row rest w).0

  -- The case `row := <-w.input` of the select.
  unfoldable pub run_step : List R → Writer R → Writer R
  unfolding receive
  run_step [] w = w
  run_step (row ∷ rest) w = (receive row rest w).0

  -- The next receive of the loop in its phase.
  unfoldable pub step : Phase → Writer R → Writer R
  unfolding flush_step stop_step run_step
  step running w = run_step w.queue w
  step (flushing err) w = flush_step err w.queue w
  step stopping w = stop_step w.queue w
  step stopped w = w

  -- The case `<-ticker.C`.
  unfoldable pub tick : Phase → Writer R → Writer R
  unfolding flush
  tick running w = (flush w).0
  tick _ w = w

-- The case of a flush request, and those of `<-rootCtx.Done()` and `<-w.stopCh`.
unfoldable pub request {ℓ} : {R : Type ℓ} → Phase → Writer R → Writer R
request running w = record w { phase = flushing none }
request _ w = w

unfoldable pub stop {ℓ} : {R : Type ℓ} → Phase → Writer R → Writer R
stop running w = record w { phase = stopping; closed = true }
stop _ w = w

pub data Action {ℓ} (R : Type ℓ) : Type ℓ where
  enters : R → Action R
  -- `Push` and `TryPush` at their select, by position among the entered rows
  sends try_sends leaves : ℕ → Action R
  steps ticks requests closes stops : Action R

abbrev pub entered_at {ℓ} :
    {R : Type ℓ} → Option (R × List R) → Writer R → (R → List R → Writer R) → Writer R
entered_at none w f = w
entered_at (some (row, others)) w f = f row others

module _ {ℓ} {R : Type ℓ} (attempts : ℕ → ℕ → Attempt) where
  unfoldable pub act : Action R → Writer R → Writer R
  unfolding pick enter send try_send step tick request stop
  act (enters row) w = (enter row w).0
  act (sends n) w = entered_at (pick n w.entered) w (λ row others. send row others w)
  act (try_sends n) w = entered_at (pick n w.entered) w (λ row others. (try_send row others w).0)
  act (leaves n) w = entered_at (pick n w.entered) w (λ row others. record w { entered = others })
  act steps w = step attempts w.phase w
  act ticks w = tick attempts w.phase w
  act requests w = request w.phase w
  act closes w = record w { closed = true }
  act stops w = stop w.phase w

  unfoldable pub run : List (Action R) → Writer R → Writer R
  run [] w = w
  run (a ∷ rest) w = run rest (act a w)
