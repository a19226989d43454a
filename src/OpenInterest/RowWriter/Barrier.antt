-- ===== src/OpenInterest/RowWriter/Barrier.antt =====
-- internal/openinterest/writer.go: what a reply to Flush promises.
use chomo_syncer_go.Base.{
  ltb, leb, if-elim, nat_eq, length, text_eq, pick, sum_by, sum_by-append, ℕ, ◌+◌, ◌≡◌, refl, ap,
  Bool, true, false, not, ◌&&◌, Option, none, some, List, [], ◌∷◌, ◌++◌, arith,
}
use chomo_syncer_go.OpenInterest.RowWriter.{
  Flusher, attempts, WriterSettings, RowWriter, new, enter, send, settle, flush_rows, flush, drain,
  take_row, answer, barrier, last_flush, stop, close, Action, enters, sends, leaves, receives,
  ticks, flushes, stops, closes, picked, act, run,
}

-- Every accepted row is stored, dropped, in the batch or in the channel; and without a note of a
-- dropped batch nothing was dropped since the last barrier.
abbrev pub Kept : {R : Type 0} → RowWriter R → Type 0
Kept {R} w =
    ((q : R → ℕ)
      → sum_by q w.accepted
        ≡ sum_by q w.stored + sum_by q w.lost + sum_by q w.batch + sum_by q w.input)
    × (w.dropped ≡ false → w.lost ≡ w.lost_before)

module _ {R : Type 0} where
  settle-Kept :
      (b : Bool) (r : R) (rs : List R) (w : RowWriter R)
      → w.batch ≡ r ∷ rs
      → Kept w
      → Kept (settle b r rs w).0
  unfolding settle sum_by
  settle-Kept true r rs w e (k, d) =
      ((λ q. omega (arith, k q, ap (sum_by q) e, sum_by-append q w.stored (r ∷ rs))), d)
  settle-Kept false r rs w e (k, d) = (
    (λ q. omega (arith, k q, ap (sum_by q) e, sum_by-append q w.lost (r ∷ rs))),
    λ no_note. absurd (cc no_note),
  )

  flush_rows-Kept :
      (f : Flusher) (rs : List R) (w : RowWriter R)
      → w.batch ≡ rs
      → Kept w
      → Kept (flush_rows f rs w).0
  unfolding flush_rows
  flush_rows-Kept f [] w e k = k
  flush_rows-Kept f (r ∷ rs) w e k = settle-Kept (attempts f w.cfg.max_retries 0).1 r rs w e k

  flush-Kept : (f : Flusher) (w : RowWriter R) → Kept w → Kept (flush f w).0
  unfolding flush
  flush-Kept f w k = flush_rows-Kept f w.batch w refl k

  drain-Kept : (w : RowWriter R) → Kept w → Kept (drain w)
  unfolding drain sum_by
  drain-Kept w (k, d) = ((λ q. omega (arith, k q, sum_by-append q w.batch w.input)), d)

  take_row-Kept :
      (f : Flusher) (rows : List R) (w : RowWriter R)
      → w.input ≡ rows
      → Kept w
      → Kept (take_row f rows w)
  unfolding take_row sum_by
  take_row-Kept f [] w e k = k
  take_row-Kept f (r ∷ rest) w e (k, d) =
      let w' : RowWriter R = record w { input = rest; batch = w.batch ++ r ∷ [] } in
      let k' : Kept w' =
        ((λ q. omega (arith, k q, ap (sum_by q) e, sum_by-append q w.batch (r ∷ []))), d) in
      if-elim Kept (leb w.cfg.batch_size (length (w.batch ++ r ∷ []))) (flush-Kept f w' k') k'

  answer-Kept : (r : RowWriter R × Bool) → Kept r.0 → Kept (answer r).0
  unfolding answer
  answer-Kept (w, failed) (k, d) = (k, λ e. refl)

  last_flush-Kept : (r : RowWriter R × Bool) → Kept r.0 → Kept (last_flush r)
  unfolding last_flush
  last_flush-Kept (w, failed) k = k

  send-Kept : (r : R) (others : List R) (w : RowWriter R) → Kept w → Kept (send r others w)
  unfolding send sum_by
  send-Kept r others w (k, d) =
      if-elim Kept (ltb (length w.input) w.cfg.channel_size)
        {x = record w {
          entered = others;
          input = w.input ++ r ∷ [];
          accepted = w.accepted ++ r ∷ [];
        }}
        {y = w}
        (
          (λ q.
              omega (
                arith,
                k q,
                sum_by-append q w.input (r ∷ []),
                sum_by-append q w.accepted (r ∷ []),
              )),
          d,
        )
        (k, d)

  picked-Kept :
      {A : Type 0} (o : Option (A × List A)) (w : RowWriter R) (step : A → List A → RowWriter R)
      → Kept w
      → ((x : A) (others : List A) → Kept (step x others))
      → Kept (picked o w step)
  picked-Kept none w step k h = k
  picked-Kept (some (x, others)) w step k h = h x others

  enter-Kept :
      (is_valid : R → Bool) (r : R) (w : RowWriter R) → Kept w → Kept (enter is_valid r w).0
  unfolding enter
  enter-Kept is_valid r w k =
      if-elim (λ (x : RowWriter R × Option _). Kept x.0) (not (is_valid r)) {x = (w, _)} k
        (if-elim (λ (x : RowWriter R × Option _). Kept x.0) w.closed {x = (w, _)} k k)

module _ {R : Type 0} (is_valid : R → Bool) where
  act-Kept : (a : Action R) (w : RowWriter R) → Kept w → Kept (act is_valid a w)
  unfolding act stop barrier close
  act-Kept (enters r) w k = enter-Kept is_valid r w k
  act-Kept (sends n) w k =
      picked-Kept (pick n w.entered) w (λ r others. send r others w) k
        (λ r others. send-Kept r others w k)
  act-Kept (leaves n) w k =
      picked-Kept (pick n w.entered) w (λ r others. record w { entered = others }) k (λ r others. k)
  act-Kept (receives f) w k = if-elim Kept w.running {y = w} (take_row-Kept f w.input w refl k) k
  act-Kept (ticks f) w k = if-elim Kept w.running {y = w} (flush-Kept f w k) k
  act-Kept (flushes f) w k =
      if-elim Kept w.running {y = w}
        (answer-Kept (flush f (drain w)) (flush-Kept f (drain w) (drain-Kept w k))) k
  act-Kept (stops f) w k =
      if-elim Kept (w.running && w.stopping) {y = w}
        (last_flush-Kept (flush f (drain w)) (flush-Kept f (drain w) (drain-Kept w k))) k
  act-Kept closes w k = k

  run-Kept : (acts : List (Action R)) (w : RowWriter R) → Kept w → Kept (run is_valid acts w)
  unfolding run
  run-Kept [] w k = k
  run-Kept (a ∷ acts) w k = run-Kept acts (act is_valid a w) (act-Kept a w k)

module _ {R : Type 0} where
  -- After a flush that did not fail the batch is empty.
  settle-batch :
      (b : Bool) (r : R) (rs : List R) (w : RowWriter R)
      → ((settle b r rs w).0.batch ≡ [])
        × ((settle b r rs w).0.input ≡ w.input)
        × ((settle b r rs w).0.lost_before ≡ w.lost_before)
        × ((settle b r rs w).0.accepted ≡ w.accepted)
  unfolding settle
  settle-batch true r rs w = (refl, refl, refl, refl)
  settle-batch false r rs w = (refl, refl, refl, refl)

  flush_rows-batch :
      (f : Flusher) (rs : List R) (w : RowWriter R)
      → w.batch ≡ rs
      → ((flush_rows f rs w).0.batch ≡ [])
        × ((flush_rows f rs w).0.input ≡ w.input)
        × ((flush_rows f rs w).0.lost_before ≡ w.lost_before)
        × ((flush_rows f rs w).0.accepted ≡ w.accepted)
  unfolding flush_rows
  flush_rows-batch f [] w e = (e, refl, refl, refl)
  flush_rows-batch f (r ∷ rs) w e = settle-batch (attempts f w.cfg.max_retries 0).1 r rs w

  answer-stored :
      (r : RowWriter R × Bool)
      → Kept r.0
      → r.0.batch ≡ []
      → r.0.input ≡ []
      → (answer r).1 ≡ false
      → (q : R → ℕ)
      → sum_by q r.0.accepted ≡ sum_by q (answer r).0.stored + sum_by q r.0.lost_before
  unfolding answer sum_by
  answer-stored (w, failed) (k, d) b i e q =
      omega (arith, k q, ap (sum_by q) b, ap (sum_by q) i, ap (sum_by q) (d (ground (arith, e))))

  barrier-stored :
      (f : Flusher) (w : RowWriter R)
      → Kept w
      → (barrier f w).1 ≡ false
      → (q : R → ℕ) → sum_by q w.accepted ≡ sum_by q (barrier f w).0.stored + sum_by q w.lost_before
  unfolding barrier flush drain
  barrier-stored f w k e q =
      let (empty, same, before, all) = flush_rows-batch f (drain w).batch (drain w) refl in
      omega (
        arith,
        answer-stored (flush f (drain w)) (flush-Kept f (drain w) (drain-Kept w k)) empty same e q,
        ap (sum_by q) before,
        ap (sum_by q) all,
      )

-- A Flush that returns no error stored all that was accepted: after any steps of callers, loop and
-- shutdown of a new writer, where the loop answers a Flush without an error, the rows accepted so
-- far are those that are stored and those that had been dropped before the last Flush, each as
-- often.
pub run-barrier :
    {R : Type 0} (is_valid : R → Bool) (cfg : WriterSettings) (acts : List (Action R)) (f : Flusher)
    → (barrier f (run is_valid acts (new cfg))).1 ≡ false
    → (q : R → ℕ)
    → sum_by q (run is_valid acts (new cfg)).accepted
      ≡ sum_by q (barrier f (run is_valid acts (new cfg))).0.stored
        + sum_by q (run is_valid acts (new cfg)).lost_before
unfolding new sum_by
run-barrier is_valid cfg acts f e q =
    barrier-stored f (run is_valid acts (new cfg))
      (run-Kept is_valid acts (new cfg) ((λ q. refl), λ x. refl)) e q
