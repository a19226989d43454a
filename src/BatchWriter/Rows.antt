-- ===== src/BatchWriter/Rows.antt =====
-- internal/chwriter/writer.go: every accepted row is given to flushWithRetry once and in order, in
-- batches within the batch size.
use mathlib.Core.List.{append_assoc, append-nil}
use chomo_syncer_go.Base.{
  ltb, leb, Bool-cases, if-elim, nat_eq, All, length, length-append, text_eq, pick, ℕ, ◌+◌, ◌≤◌,
  ◌<◌, ◌≡◌, refl, sym, ap, ◌∙◌, inl, inr, Option, none, some, List, [], ◌∷◌, ◌++◌, arith,
}
use chomo_syncer_go.BatchWriter.{ResolvedConfig, Attempt, FlushResult}
use chomo_syncer_go.BatchWriter.Loop.{
  Phase, running, flushing, stopping, stopped, PushError, Writer, new, enter, send, try_send, flush,
  receive, step, tick, request, stop, Action, enters, sends, try_sends, leaves, steps, ticks,
  requests, closes, stops, act, run, flush_batch, flush_step, stop_step, run_step, entered_at,
}

-- The rows of a list of batches.
unfoldable pub rows_of {ℓ} : {R : Type ℓ} → List (List R × FlushResult) → List R
rows_of [] = []
rows_of ((rows, r) ∷ log) = rows ++ rows_of log

rows_of-snoc {ℓ} :
    {R : Type ℓ} (log : List (List R × FlushResult)) (rows : List R) (r : FlushResult)
    → rows_of (log ++ (rows, r) ∷ []) ≡ rows_of log ++ rows
unfolding rows_of
rows_of-snoc [] rows r = append-nil rows
rows_of-snoc ((more, q) ∷ log) rows r =
    rw (rows_of-snoc log rows r) (sym (append_assoc more (rows_of log) rows))

-- A batch is not empty and at most `size` long.
abbrev pub Fits {ℓ} : {R : Type ℓ} → ℕ → List R × FlushResult → Type 0
Fits size e = (0 < length e.0) × (length e.0 ≤ size)

All-snoc {ℓ} :
    {R : Type ℓ} (size : ℕ) (log : List (List R × FlushResult)) (e : List R × FlushResult)
    → All (Fits size) log
    → Fits size e
    → All (Fits size) (log ++ e ∷ [])
All-snoc size [] e h f = (f, tt)
All-snoc size (d ∷ log) e (g, h) f = (g, All-snoc size log e h f)

-- The accepted rows are those flushed, those in the batch and those queued, in order.
abbrev pub IsFifo {ℓ} : {R : Type ℓ} → Writer R → Type ℓ
IsFifo w = rows_of w.log ++ (w.batch ++ w.queue) ≡ w.accepted

-- The settings stay `cfg`, and batches and the queue stay within them.
abbrev pub IsBounded {ℓ} : {R : Type ℓ} → ResolvedConfig → Writer R → Type 0
IsBounded cfg w =
    (w.cfg ≡ cfg)
    × (length w.batch < cfg.size)
    × All (Fits cfg.size) w.log
    × (length w.queue ≤ cfg.capacity)

abbrev pub Inv {ℓ} : {R : Type ℓ} → ResolvedConfig → Writer R → Type ℓ
Inv cfg w = IsFifo w × IsBounded cfg w

module _ {ℓ} {R : Type ℓ} (attempts : ℕ → ℕ → Attempt) (cfg : ResolvedConfig)
    (positive : 0 < cfg.size) where
  -- A flush, of a batch that may be full.
  flush_batch-Inv :
      (b : List R) (w : Writer R)
      → w.batch ≡ b
      → IsFifo w
      → w.cfg ≡ cfg
      → length b ≤ cfg.size
      → All (Fits cfg.size) w.log
      → length w.queue ≤ cfg.capacity
      → Inv cfg (flush_batch attempts b w).0
  unfolding flush_batch
  flush_batch-Inv [] w e f c l a q = (f, (c, rw e (omega arith), a, q))
  flush_batch-Inv (x ∷ xs) w e f c l a q = (
    rw (rows_of-snoc w.log (x ∷ xs) _) (
        append_assoc (rows_of w.log) (x ∷ xs) w.queue
        ∙ ap (λ b. rows_of w.log ++ (b ++ w.queue)) (sym e)
        ∙ f),
    (c, omega arith, All-snoc cfg.size w.log (x ∷ xs, _) a (omega arith, l), q),
  )

  receive-Inv :
      (row : R) (rest : List R) (w : Writer R)
      → w.queue ≡ row ∷ rest
      → Inv cfg w
      → Inv cfg (receive attempts row rest w).0
  unfolding receive flush
  receive-Inv row rest w e (f, (c, b, a, q)) =
      let w' : Writer R = record w { queue = rest; batch = w.batch ++ row ∷ [] } in
      let fifo : IsFifo w' =
        ap (◌++◌ (rows_of w.log)) (append_assoc w.batch (row ∷ []) rest)
        ∙ ap (λ q. rows_of w.log ++ (w.batch ++ q)) (sym e)
        ∙ f in
      let room : length rest ≤ cfg.capacity = omega (arith, ap length e) in
      let size : w.cfg.size ≡ cfg.size = ap (λ (s : ResolvedConfig). s.size) c in
      let longer : length w'.batch ≡ length w.batch + 1 = length-append w.batch (row ∷ []) in
      elim (Bool-cases (leb w.cfg.size (length w'.batch))) [
        | inl full ↦ rw full (flush_batch-Inv w'.batch w' refl fifo c (omega arith) a room)
        | inr more ↦ rw more (fifo, (c, ground (arith), a, room))
      ]

  run_step-Inv :
      (q : List R) (w : Writer R) → w.queue ≡ q → Inv cfg w → Inv cfg (run_step attempts q w)
  unfolding run_step
  run_step-Inv [] w e v = v
  run_step-Inv (row ∷ rest) w e v = receive-Inv row rest w e v

  flush-Inv : (w : Writer R) → Inv cfg w → Inv cfg (flush attempts w).0
  unfolding flush
  flush-Inv w (f, (c, b, a, q)) = flush_batch-Inv w.batch w refl f c (omega arith) a q

  flush_step-Inv :
      (err : Option FlushResult) (q : List R) (w : Writer R)
      → w.queue ≡ q
      → Inv cfg w
      → Inv cfg (flush_step attempts err q w)
  unfolding flush_step
  flush_step-Inv err [] w e v = flush-Inv w v
  flush_step-Inv err (row ∷ rest) w e v = receive-Inv row rest w e v

  stop_step-Inv :
      (q : List R) (w : Writer R) → w.queue ≡ q → Inv cfg w → Inv cfg (stop_step attempts q w)
  unfolding stop_step
  stop_step-Inv [] w e v = flush-Inv w v
  stop_step-Inv (row ∷ rest) w e v = receive-Inv row rest w e v

  pub step-Inv : (p : Phase) (w : Writer R) → Inv cfg w → Inv cfg (step attempts p w)
  unfolding step
  step-Inv running w v = run_step-Inv w.queue w refl v
  step-Inv (flushing err) w v = flush_step-Inv err w.queue w refl v
  step-Inv stopping w v = stop_step-Inv w.queue w refl v
  step-Inv stopped w v = v

  tick-Inv : (p : Phase) (w : Writer R) → Inv cfg w → Inv cfg (tick attempts p w)
  unfolding tick
  tick-Inv running w v = flush-Inv w v
  tick-Inv (flushing err) w v = v
  tick-Inv stopping w v = v
  tick-Inv stopped w v = v

  send-Inv : (row : R) (others : List R) (w : Writer R) → Inv cfg w → Inv cfg (send row others w)
  unfolding send
  send-Inv row others w (f, (c, b, a, q)) =
      let fifo : rows_of w.log ++ (w.batch ++ (w.queue ++ row ∷ [])) ≡ w.accepted ++ row ∷ [] =
        ap (◌++◌ (rows_of w.log)) (sym (append_assoc w.batch w.queue (row ∷ [])))
        ∙ sym (append_assoc (rows_of w.log) (w.batch ++ w.queue) (row ∷ []))
        ∙ ap (λ rows. rows ++ row ∷ []) f in
      let capacity : w.cfg.capacity ≡ cfg.capacity = ap (λ (s : ResolvedConfig). s.capacity) c in
      let longer : length (w.queue ++ row ∷ []) ≡ length w.queue + 1 =
        length-append w.queue (row ∷ []) in
      elim (Bool-cases (ltb (length w.queue) w.cfg.capacity)) [
        | inl room ↦ rw room (fifo, (c, b, a, ground arith))
        | inr full ↦ rw full (f, (c, b, a, q))
      ]

  try_send-Inv :
      (row : R) (others : List R) (w : Writer R) → Inv cfg w → Inv cfg (try_send row others w).0
  unfolding try_send
  try_send-Inv row others w v =
      if-elim (λ (s : Writer R × Option PushError). Inv cfg s.0)
        (ltb (length w.queue) w.cfg.capacity) (send-Inv row others w v) v

  enter-Inv : (row : R) (w : Writer R) → Inv cfg w → Inv cfg (enter row w).0
  unfolding enter
  enter-Inv row w v = if-elim (λ (s : Writer R × Option PushError). Inv cfg s.0) w.closed v v

  entered_at-Inv :
      (o : Option (R × List R)) (w : Writer R) (f : R → List R → Writer R)
      → ((row : R) (others : List R) → Inv cfg (f row others))
      → Inv cfg w
      → Inv cfg (entered_at o w f)
  entered_at-Inv none w f h v = v
  entered_at-Inv (some (row, others)) w f h v = h row others

  request-Inv : (p : Phase) (w : Writer R) → Inv cfg w → Inv cfg (request p w)
  unfolding request
  request-Inv running w v = v
  request-Inv (flushing err) w v = v
  request-Inv stopping w v = v
  request-Inv stopped w v = v

  stop-Inv : (p : Phase) (w : Writer R) → Inv cfg w → Inv cfg (stop p w)
  unfolding stop
  stop-Inv running w v = v
  stop-Inv (flushing err) w v = v
  stop-Inv stopping w v = v
  stop-Inv stopped w v = v

  act-Inv : (a : Action R) (w : Writer R) → Inv cfg w → Inv cfg (act attempts a w)
  unfolding act
  act-Inv (enters row) w v = enter-Inv row w v
  act-Inv (sends n) w v =
      entered_at-Inv (pick n w.entered) w _ (λ row others. send-Inv row others w v) v
  act-Inv (try_sends n) w v =
      entered_at-Inv (pick n w.entered) w _ (λ row others. try_send-Inv row others w v) v
  act-Inv (leaves n) w v = entered_at-Inv (pick n w.entered) w _ (λ row others. v) v
  act-Inv steps w v = step-Inv w.phase w v
  act-Inv ticks w v = tick-Inv w.phase w v
  act-Inv requests w v = request-Inv w.phase w v
  act-Inv closes w v = v
  act-Inv stops w v = stop-Inv w.phase w v

  pub run-Inv_from :
      (acts : List (Action R)) (w : Writer R) → Inv cfg w → Inv cfg (run attempts acts w)
  unfolding run
  run-Inv_from [] w v = v
  run-Inv_from (a ∷ rest) w v = run-Inv_from rest (act attempts a w) (act-Inv a w v)

  pub new-Inv : Inv cfg (new {R = R} cfg)
  unfolding new rows_of
  new-Inv = (refl, (refl, omega arith, tt, omega arith))

  -- Under every interleaving of producers, the loop, ticks, flush requests and the shutdown, from a
  -- new writer with a positive batch size: the rows given to flushWithRetry, those in the batch and
  -- those queued are the accepted rows, each once and in the order of acceptance; a flushed batch
  -- is not empty and within the batch size; and the queue stays within its capacity.
  pub run-IsFifo :
      (acts : List (Action R))
      → let w = run attempts acts (new cfg) in
        (rows_of w.log ++ (w.batch ++ w.queue) ≡ w.accepted)
        × All (Fits cfg.size) w.log
        × (length w.queue ≤ cfg.capacity)
  run-IsFifo acts = let (f, (c, b, a, q)) = run-Inv_from acts (new cfg) new-Inv in (f, a, q)
