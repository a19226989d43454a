-- ===== src/RedisWin/Live/Writes.antt =====
-- internal/rediswin/livebar_writer.go: every accepted snapshot is written once, in order.
use mathlib.Core.List.{append_assoc}
use chomo_syncer_go.Base.{
  ltb, ltb→lt, Bool-cases, if-elim, nat_eq, length, length-append, Text, text_eq, pick, ◌≤◌, ◌<◌,
  ◌≡◌, refl, sym, ap, ◌∙◌, inl, inr, Option, none, some, List, [], ◌∷◌, ◌++◌, arith,
}
use chomo_syncer_go.Bars.{LiveBar}
use chomo_syncer_go.RedisWin.Live.{
  ResolvedLiveConfig, LiveJob, LiveError, is_closed, new_job, Worker, working, draining, gone,
  LiveWriter, new, enter, enter_job, accept, try_enqueue, enqueue, take_job, cancel, see_stop,
  Action, enters, try_enqueues, enqueues, leaves, takes, cancels, sees_stop, closes, close, act,
  run, picked,
}

-- The accepted jobs are those written and those queued, in order, and the queue keeps to its size.
abbrev pub IsFifo : {F : Type 0} → LiveWriter F → Type 0
IsFifo w = (w.written ++ w.input ≡ w.accepted) × (length w.input ≤ w.cfg.channel_size)

accept-IsFifo :
    {F : Type 0} (job : LiveJob F) (others : List (LiveJob F)) (w : LiveWriter F)
    → length w.input < w.cfg.channel_size
    → IsFifo w
    → IsFifo (accept job others w)
unfolding accept
accept-IsFifo job others w l (e, b) = (
  sym (append_assoc w.written w.input (job ∷ [])) ∙ ap (λ js. js ++ job ∷ []) e,
  omega (arith, l, length-append w.input (job ∷ [])),
)

try_enqueue-IsFifo :
    {F : Type 0} (job : LiveJob F) (others : List (LiveJob F)) (w : LiveWriter F)
    → IsFifo w
    → IsFifo (try_enqueue job others w).0
unfolding try_enqueue
try_enqueue-IsFifo job others w f = elim (Bool-cases (ltb (length w.input) w.cfg.channel_size)) [
  | inl room ↦ rw room (accept-IsFifo job others w (ltb→lt _ _ room) f)
  | inr full ↦ rw full f
]

enqueue-IsFifo :
    {F : Type 0} (job : LiveJob F) (others : List (LiveJob F)) (w : LiveWriter F)
    → IsFifo w
    → IsFifo (enqueue job others w)
unfolding enqueue
enqueue-IsFifo job others w f = elim (Bool-cases (ltb (length w.input) w.cfg.channel_size)) [
  | inl room ↦ rw room (accept-IsFifo job others w (ltb→lt _ _ room) f)
  | inr full ↦ rw full f
]

take_job-IsFifo :
    {F : Type 0} (k : Worker) (others : List Worker) (q : List (LiveJob F)) (w : LiveWriter F)
    → w.input ≡ q
    → IsFifo w
    → IsFifo (take_job k others q w)
unfolding take_job
take_job-IsFifo working others [] w e f = f
take_job-IsFifo draining others [] w e f = f
take_job-IsFifo gone others [] w e f = f
take_job-IsFifo gone others (job ∷ rest) w e f = f
take_job-IsFifo working others (job ∷ rest) w e (f, b) = (
  append_assoc w.written (job ∷ []) rest ∙ ap (λ q. w.written ++ q) (sym e) ∙ f,
  omega (arith, b, ap length e),
)
take_job-IsFifo draining others (job ∷ rest) w e (f, b) = (
  append_assoc w.written (job ∷ []) rest ∙ ap (λ q. w.written ++ q) (sym e) ∙ f,
  omega (arith, b, ap length e),
)

cancel-IsFifo :
    {F : Type 0} (k : Worker) (others : List Worker) (w : LiveWriter F)
    → IsFifo w
    → IsFifo (cancel k others w)
unfolding cancel
cancel-IsFifo working others w f = f
cancel-IsFifo draining others w f = f
cancel-IsFifo gone others w f = f

see_stop-IsFifo :
    {F : Type 0} (k : Worker) (others : List Worker) (w : LiveWriter F)
    → IsFifo w
    → IsFifo (see_stop k others w)
unfolding see_stop
see_stop-IsFifo working others w f = if-elim IsFifo w.stopped {y = w} f f
see_stop-IsFifo draining others w f = f
see_stop-IsFifo gone others w f = f

enter_job-IsFifo :
    {F : Type 0} (o : Option (LiveJob F)) (w : LiveWriter F) → IsFifo w → IsFifo (enter_job o w).0
unfolding enter_job
enter_job-IsFifo none w f = f
enter_job-IsFifo (some job) w f = f

enter-IsFifo :
    {F : Type 0} (marshal : LiveBar F → Option Text) (symbol interval : Text) (bar : LiveBar F)
    (w : LiveWriter F)
    → IsFifo w
    → IsFifo (enter marshal symbol interval bar w).0
unfolding enter
enter-IsFifo {F = F} marshal symbol interval bar w f =
    if-elim (λ (r : LiveWriter F × Option LiveError). IsFifo r.0) w.closed {x = (w, some is_closed)}
      f (enter_job-IsFifo (new_job marshal w.cfg symbol interval bar) w f)

picked-IsFifo :
    {A F : Type 0} (o : Option (A × List A)) (w : LiveWriter F) (step : A → List A → LiveWriter F)
    → IsFifo w
    → ((x : A) (others : List A) → IsFifo (step x others))
    → IsFifo (picked o w step)
picked-IsFifo none w step f h = f
picked-IsFifo (some (x, others)) w step f h = h x others

module _ {F : Type 0} (marshal : LiveBar F → Option Text) where
  act-IsFifo : (a : Action F) (w : LiveWriter F) → IsFifo w → IsFifo (act marshal a w)
  unfolding act close
  act-IsFifo (enters symbol interval bar) w f = enter-IsFifo marshal symbol interval bar w f
  act-IsFifo (try_enqueues n) w f =
      picked-IsFifo (pick n w.entered) w (λ job others. (try_enqueue job others w).0) f
        (λ job others. try_enqueue-IsFifo job others w f)
  act-IsFifo (enqueues n) w f =
      picked-IsFifo (pick n w.entered) w (λ job others. enqueue job others w) f
        (λ job others. enqueue-IsFifo job others w f)
  act-IsFifo (leaves n) w f =
      picked-IsFifo (pick n w.entered) w (λ job others. record w { entered = others }) f
        (λ job others. f)
  act-IsFifo (takes n) w f =
      picked-IsFifo (pick n w.workers) w (λ k others. take_job k others w.input w) f
        (λ k others. take_job-IsFifo k others w.input w refl f)
  act-IsFifo (cancels n) w f =
      picked-IsFifo (pick n w.workers) w (λ k others. cancel k others w) f
        (λ k others. cancel-IsFifo k others w f)
  act-IsFifo (sees_stop n) w f =
      picked-IsFifo (pick n w.workers) w (λ k others. see_stop k others w) f
        (λ k others. see_stop-IsFifo k others w f)
  act-IsFifo closes w f = f

  pub run-keep :
      (acts : List (Action F)) (w : LiveWriter F) → IsFifo w → IsFifo (run marshal acts w)
  unfolding run
  run-keep [] w f = f
  run-keep (a ∷ acts) w f = run-keep acts (act marshal a w) (act-IsFifo a w f)

  -- Every accepted snapshot is received once and in order: whatever the steps of callers and
  -- workers, the snapshots whose send succeeded are those that a worker received for its write and
  -- those that wait in the channel, in order, and no more wait than the channel has room for.
  pub live-IsFifo :
      (cfg : ResolvedLiveConfig) (acts : List (Action F)) → IsFifo (run marshal acts (new cfg))
  unfolding new
  live-IsFifo cfg acts = run-keep acts (new cfg) (refl, omega arith)
