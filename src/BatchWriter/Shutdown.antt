-- ===== src/BatchWriter/Shutdown.antt =====
-- internal/chwriter/writer.go: the drain of the shutdown, and rows that are sent after it.
use mathlib.Core.List.{append-nil}
use chomo_syncer_go.Base.{
  ltb, leb, lt→ltb, if-elim, nat_eq, length, text_eq, pick, ℕ, zero, suc, ◌<◌, ◌≡◌, refl, sym, ap,
  subst, ◌∙◌, Option, none, some, List, [], ◌∷◌, ◌++◌,
}
use chomo_syncer_go.BatchWriter.{ResolvedConfig, Attempt, FlushResult}
use chomo_syncer_go.BatchWriter.Loop.{
  stopping, stopped, PushError, Writer, new, enter, send, try_send, flush, receive, step, tick,
  request, stop, Action, enters, sends, try_sends, leaves, steps, ticks, requests, closes, stops,
  act, run, flush_batch, stop_step, entered_at,
}
use chomo_syncer_go.BatchWriter.Rows.{rows_of, IsFifo, Inv, step-Inv, run-Inv_from, new-Inv}

module _ {ℓ} {R : Type ℓ} (attempts : ℕ → ℕ → Attempt) where
  flush_batch-rest :
      (b : List R) (w : Writer R)
      → w.batch ≡ b
      → ((flush_batch attempts b w).0.batch ≡ [])
        × ((flush_batch attempts b w).0.queue ≡ w.queue)
        × ((flush_batch attempts b w).0.accepted ≡ w.accepted)
        × ((flush_batch attempts b w).0.phase ≡ w.phase)
  unfolding flush_batch
  flush_batch-rest [] w e = (e, refl, refl, refl)
  flush_batch-rest (x ∷ xs) w e = (refl, refl, refl, refl)

  flush_rest :
      (w : Writer R)
      → ((flush attempts w).0.queue ≡ w.queue)
        × ((flush attempts w).0.accepted ≡ w.accepted)
        × ((flush attempts w).0.phase ≡ w.phase)
  unfolding flush
  flush_rest w = let (b, q, a, p) = flush_batch-rest w.batch w refl in (q, a, p)

  receive-rest :
      (row : R) (rest : List R) (w : Writer R)
      → ((receive attempts row rest w).0.queue ≡ rest)
        × ((receive attempts row rest w).0.accepted ≡ w.accepted)
        × ((receive attempts row rest w).0.phase ≡ w.phase)
  unfolding receive
  receive-rest row rest w =
      let w' : Writer R = record w { queue = rest; batch = w.batch ++ row ∷ [] } in
      if-elim
        (λ (s : Writer R × Option FlushResult).
          (s.0.queue ≡ rest) × (s.0.accepted ≡ w.accepted) × (s.0.phase ≡ w.phase))
        (leb w.cfg.size (length w'.batch)) (flush_rest w') (refl, refl, refl)

  -- `n` iterations of the loop.
  unfoldable pub iterate : ℕ → Writer R → Writer R
  unfolding step
  iterate zero w = w
  iterate (suc n) w = iterate n (step attempts w.phase w)

  abbrev Drained : List R → Writer R → Type ℓ
  Drained rows v = (v.phase ≡ stopped) × (v.batch ≡ []) × (v.queue ≡ []) × (v.accepted ≡ rows)

  step_stopping :
      (q : List R) (w : Writer R)
      → w.queue ≡ q
      → w.phase ≡ stopping
      → step attempts w.phase w ≡ stop_step attempts q w
  unfolding step
  step_stopping q w e p =
      ap (λ phase. step attempts phase w) p ∙ ap (λ queue. stop_step attempts queue w) e

  iterate-drains :
      (q : List R) (w : Writer R)
      → w.queue ≡ q
      → w.phase ≡ stopping
      → Drained w.accepted (iterate (suc (length q)) w)
  unfolding iterate stop_step flush
  iterate-drains [] w e p =
      let (b, q, a, r) = flush_batch-rest w.batch w refl in
      subst (Drained w.accepted) (sym (step_stopping [] w e p)) (refl, b, q ∙ e, a)
  iterate-drains (row ∷ rest) w e p =
      let (q, a, r) = receive-rest row rest w in
      let v : Writer R = stop_step attempts (row ∷ rest) w in
      let (s, b, t, c) = iterate-drains rest v q (r ∙ p) in
      subst (λ u. Drained w.accepted (iterate (suc (length rest)) u))
        (sym (step_stopping (row ∷ rest) w e p)) (s, b, t, c ∙ a)

  module _ (cfg : ResolvedConfig) (positive : 0 < cfg.size) where
    iterate-Inv : (n : ℕ) (w : Writer R) → Inv cfg w → Inv cfg (iterate n w)
    unfolding iterate
    iterate-Inv zero w v = v
    iterate-Inv (suc n) w v =
        iterate-Inv n (step attempts w.phase w) (step-Inv attempts cfg positive w.phase w v)

    Drained-rows_of :
        (w v : Writer R) → IsFifo v → Drained w.accepted v → rows_of v.log ≡ w.accepted
    Drained-rows_of w v f (s, b, q, a) =
        sym (append-nil (rows_of v.log))
        ∙ ap (λ rows. rows_of v.log ++ (rows ++ [])) (sym b)
        ∙ ap (λ rows. rows_of v.log ++ (v.batch ++ rows)) (sym q)
        ∙ f
        ∙ a

    -- A shutdown terminates and loses no row sent before it: whatever happened to a new writer with
    -- a positive batch size, once its loop drains for the shutdown, as many iterations as rows are
    -- queued and one more, with no send in between, stop the loop, and then every accepted row was
    -- given to flushWithRetry, once and in order.
    pub stopping_flushes_all :
        (acts : List (Action R))
        → (run attempts acts (new cfg)).phase ≡ stopping
        → let w = run attempts acts (new cfg) in
          ((iterate (suc (length w.queue)) w).phase ≡ stopped)
          × (rows_of (iterate (suc (length w.queue)) w).log ≡ w.accepted)
    stopping_flushes_all acts p =
        let w : Writer R = run attempts acts (new cfg) in
        let d : Drained w.accepted (iterate (suc (length w.queue)) w) =
          iterate-drains w.queue w refl p in
        let (f, b) =
          iterate-Inv (suc (length w.queue)) w
            (run-Inv_from attempts cfg positive acts (new cfg) (new-Inv attempts cfg positive)) in
        (d.0, Drained-rows_of w (iterate (suc (length w.queue)) w) f d)

  -- A stopped loop flushes nothing more.
  abbrev IsStill : List (List R × FlushResult) → Writer R → Type ℓ
  IsStill log w = (w.phase ≡ stopped) × (w.log ≡ log)

  entered_at-IsStill :
      (log : List (List R × FlushResult)) (o : Option (R × List R)) (w : Writer R)
      (f : R → List R → Writer R)
      → ((row : R) (others : List R) → IsStill log (f row others))
      → IsStill log w
      → IsStill log (entered_at o w f)
  entered_at-IsStill log none w f h v = v
  entered_at-IsStill log (some (row, others)) w f h v = h row others

  send-IsStill :
      (log : List (List R × FlushResult)) (row : R) (others : List R) (w : Writer R)
      → IsStill log w
      → IsStill log (send row others w)
  unfolding send
  send-IsStill log row others w v =
      if-elim (λ (s : Writer R). IsStill log s) (ltb (length w.queue) w.cfg.capacity) v v

  act-IsStill :
      (log : List (List R × FlushResult)) (a : Action R) (w : Writer R)
      → IsStill log w
      → IsStill log (act attempts a w)
  unfolding act enter try_send step tick request stop
  act-IsStill log (enters row) w v =
      if-elim (λ (s : Writer R × Option PushError). IsStill log s.0) w.closed v v
  act-IsStill log (sends n) w v =
      entered_at-IsStill log (pick n w.entered) w _ (λ row others. send-IsStill log row others w v)
        v
  act-IsStill log (try_sends n) w v =
      entered_at-IsStill log (pick n w.entered) w _
        (λ row others.
          if-elim (λ (s : Writer R × Option PushError). IsStill log s.0)
            (ltb (length w.queue) w.cfg.capacity) (send-IsStill log row others w v) v)
        v
  act-IsStill log (leaves n) w v = entered_at-IsStill log (pick n w.entered) w _ (λ row others. v) v
  act-IsStill log steps w (p, l) =
      subst (IsStill log) (sym (ap (λ phase. step attempts phase w) p)) (p, l)
  act-IsStill log ticks w (p, l) =
      subst (IsStill log) (sym (ap (λ phase. tick attempts phase w) p)) (p, l)
  act-IsStill log requests w (p, l) =
      subst (IsStill log) (sym (ap (λ phase. request phase w) p)) (p, l)
  act-IsStill log closes w v = v
  act-IsStill log stops w (p, l) = subst (IsStill log) (sym (ap (λ phase. stop phase w) p)) (p, l)

  run-IsStill :
      (log : List (List R × FlushResult)) (acts : List (Action R)) (w : Writer R)
      → IsStill log w
      → IsStill log (run attempts acts w)
  unfolding run
  run-IsStill log [] w v = v
  run-IsStill log (a ∷ rest) w v = run-IsStill log rest (act attempts a w) (act-IsStill log a w v)

  -- A producer that passed the check of `closed`, then saw the loop stop, then sends its row: the
  -- send succeeds if the channel has any capacity, and whatever happens afterwards no row is ever
  -- flushed.
  pub late_send_lost :
      (cfg : ResolvedConfig) (row : R) (acts : List (Action R))
      → 0 < cfg.capacity
      → let w = run attempts (enters row ∷ stops ∷ steps ∷ sends 0 ∷ []) (new cfg) in
        (w.accepted ≡ row ∷ []) × ((run attempts acts w).log ≡ [])
  unfolding run act new enter stop step stop_step flush flush_batch pick send
  late_send_lost cfg row acts h =
      let late : Writer R = run attempts (enters row ∷ stops ∷ steps ∷ []) (new cfg) in
      let still : IsStill [] (send row [] late) = send-IsStill [] row [] late (refl, refl) in
      (
        rw (lt→ltb 0 cfg.capacity h) refl,
        (run-IsStill [] acts (run attempts (enters row ∷ stops ∷ steps ∷ sends 0 ∷ []) (new cfg))
            still).1,
      )
