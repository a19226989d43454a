-- ===== src/RedisWin/Live/Drain.antt =====
-- internal/rediswin/livebar_writer.go: the workers leave nothing behind.
use mathlib.Core.List.{append-nil}
use chomo_syncer_go.Base.{
  if◌then◌else◌, if-elim, nat_eq, Text, text_eq, pick, sum_by, Splits, pick-Splits, ℕ, ◌+◌, ◌<◌,
  ◌≡◌, refl, sym, ap, ◌∙◌, ◌⊎◌, inl, inr, Bool, true, false, Option, none, some, List, [], ◌∷◌,
  ◌++◌, arith,
}
use chomo_syncer_go.Bars.{LiveBar}
use chomo_syncer_go.RedisWin.Live.{
  LiveJob, is_closed, Worker, working, draining, gone, LiveWriter, enter, enter_job, new_job,
  take_job, cancel, see_stop, Action, enters, try_enqueues, enqueues, leaves, takes, cancels,
  sees_stop, closes, close, act, run, picked,
}
use chomo_syncer_go.RedisWin.Live.Writes.{IsFifo, run-keep}

unfoldable pub is_gone : Worker → ℕ
is_gone gone = 1
is_gone working = 0
is_gone draining = 0

-- How many workers are gone.
unfoldable pub gone_workers : List Worker → ℕ
unfolding is_gone
gone_workers ks = sum_by is_gone ks

-- The writer is closed, no caller is between its check and its send, and a worker that is gone has
-- left an empty channel.
abbrev pub IsClosing : {F : Type 0} → LiveWriter F → Type 0
IsClosing w = (w.closed ≡ true) × (w.entered ≡ []) × ((gone_workers w.workers ≡ 0) ⊎ (w.input ≡ []))

take_job-IsClosing :
    {F : Type 0} (k : Worker) (others : List Worker) (q : List (LiveJob F)) (w : LiveWriter F)
    → w.input ≡ q
    → gone_workers w.workers ≡ is_gone k + sum_by is_gone others
    → IsClosing w
    → IsClosing (take_job k others q w)
unfolding take_job gone_workers is_gone sum_by
take_job-IsClosing working others [] w e g i = i
take_job-IsClosing draining others [] w e g (c, n, d) = (c, n, inr e)
take_job-IsClosing gone others [] w e g i = i
take_job-IsClosing gone others (job ∷ rest) w e g i = i
take_job-IsClosing working others (job ∷ rest) w e g (c, n, inl d) =
    (c, n, inl (omega (arith, d, g)))
take_job-IsClosing working others (job ∷ rest) w e g (c, n, inr d) = absurd (cc (d, e))
take_job-IsClosing draining others (job ∷ rest) w e g (c, n, inl d) =
    (c, n, inl (omega (arith, d, g)))
take_job-IsClosing draining others (job ∷ rest) w e g (c, n, inr d) = absurd (cc (d, e))

cancel-IsClosing :
    {F : Type 0} (k : Worker) (others : List Worker) (w : LiveWriter F)
    → gone_workers w.workers ≡ is_gone k + sum_by is_gone others
    → IsClosing w
    → IsClosing (cancel k others w)
unfolding cancel gone_workers is_gone sum_by
cancel-IsClosing working others w g (c, n, inl d) = (refl, n, inl (omega (arith, d, g)))
cancel-IsClosing working others w g (c, n, inr d) = (refl, n, inr d)
cancel-IsClosing draining others w g i = i
cancel-IsClosing gone others w g i = i

see_stop-IsClosing :
    {F : Type 0} (k : Worker) (others : List Worker) (w : LiveWriter F)
    → gone_workers w.workers ≡ is_gone k + sum_by is_gone others
    → IsClosing w
    → IsClosing (see_stop k others w)
unfolding see_stop gone_workers is_gone sum_by
see_stop-IsClosing working others w g (c, n, inl d) =
    if-elim IsClosing w.stopped {y = w} (c, n, inl (omega (arith, d, g))) (c, n, inl d)
see_stop-IsClosing working others w g (c, n, inr d) =
    if-elim IsClosing w.stopped {y = w} (c, n, inr d) (c, n, inr d)
see_stop-IsClosing draining others w g i = i
see_stop-IsClosing gone others w g i = i

-- A step of a picked worker, and of a caller where there is none.
worker-IsClosing :
    {F : Type 0} (o : Option (Worker × List Worker)) (w : LiveWriter F)
    (step : Worker → List Worker → LiveWriter F)
    → Splits is_gone w.workers o
    → IsClosing w
    → ((k : Worker) (others : List Worker)
        → gone_workers w.workers ≡ is_gone k + sum_by is_gone others
        → IsClosing (step k others))
    → IsClosing (picked o w step)
unfolding gone_workers
worker-IsClosing none w step g i h = i
worker-IsClosing (some (k, others)) w step g i h = h k others g

nobody :
    {F : Type 0} (n : ℕ) (js : List (LiveJob F)) (w : LiveWriter F)
    (step : LiveJob F → List (LiveJob F) → LiveWriter F)
    → js ≡ []
    → IsClosing w
    → IsClosing (picked (pick n js) w step)
unfolding pick
nobody n [] w step e i = i
nobody n (j ∷ js) w step e i = absurd (cc e)

module _ {F : Type 0} (marshal : LiveBar F → Option Text) where
  act-IsClosing : (a : Action F) (w : LiveWriter F) → IsClosing w → IsClosing (act marshal a w)
  unfolding act enter close
  act-IsClosing (enters symbol interval bar) w i = if-true w.closed i.0
    where
      if-true :
          (b : Bool)
          → b ≡ true
          → IsClosing
              (if b
                then (w, some is_closed)
                else enter_job (new_job marshal w.cfg symbol interval bar) w).0
      if-true true e = i
      if-true false e = absurd (cc e)
  act-IsClosing (try_enqueues n) w i = nobody n w.entered w _ i.1 i
  act-IsClosing (enqueues n) w i = nobody n w.entered w _ i.1 i
  act-IsClosing (leaves n) w i = nobody n w.entered w _ i.1 i
  act-IsClosing (takes n) w i =
      worker-IsClosing (pick n w.workers) w (λ k others. take_job k others w.input w)
        (pick-Splits is_gone n w.workers) i
        (λ k others g. take_job-IsClosing k others w.input w refl g i)
  act-IsClosing (cancels n) w i =
      worker-IsClosing (pick n w.workers) w (λ k others. cancel k others w)
        (pick-Splits is_gone n w.workers) i (λ k others g. cancel-IsClosing k others w g i)
  act-IsClosing (sees_stop n) w i =
      worker-IsClosing (pick n w.workers) w (λ k others. see_stop k others w)
        (pick-Splits is_gone n w.workers) i (λ k others g. see_stop-IsClosing k others w g i)
  act-IsClosing closes w (c, n, d) = (refl, n, d)

  run-IsClosing :
      (acts : List (Action F)) (w : LiveWriter F) → IsClosing w → IsClosing (run marshal acts w)
  unfolding run
  run-IsClosing [] w i = i
  run-IsClosing (a ∷ acts) w i = run-IsClosing acts (act marshal a w) (act-IsClosing a w i)

  -- Close loses nothing: from a state in which the accepted snapshots are those written and those
  -- that wait, the writer is closed, no caller is between its check and its send and no worker is
  -- gone, once any worker is gone, whatever the order of the steps, every accepted snapshot is
  -- received by a worker for its write.
  pub run-drained :
      (acts : List (Action F)) (w : LiveWriter F)
      → IsFifo w
      → w.closed ≡ true
      → w.entered ≡ []
      → gone_workers w.workers ≡ 0
      → 0 < gone_workers (run marshal acts w).workers
      → (run marshal acts w).written ≡ (run marshal acts w).accepted
  run-drained acts w f c n g h =
      let (c', n', d) = run-IsClosing acts w (c, n, inl g) in
      let (e, b) = run-keep marshal acts w f in
      elim d [
        | inl all_there ↦ absurd (omega (arith, all_there, h))
        | inr empty ↦
            sym (append-nil (run marshal acts w).written)
            ∙ ap (λ q. (run marshal acts w).written ++ q) (sym empty)
            ∙ e
      ]
