-- ===== src/OpenInterest/RowWriter/Tests.antt =====
-- Runs of internal/openinterest/writer.go: a batch that is dropped, and the Flush that tells of it.
use chomo_syncer_go.Base.{
  ◌==◌, nat_eq, text_eq, sum_by, millisecond, second, ℕ, ◌+◌, ◌*◌, ◌≡◌, refl, true, false, List, [],
  ◌∷◌, ◌++◌,
}
use chomo_syncer_go.OpenInterest.RowWriter.{
  Flusher, attempts, WriterSettings, new, barrier, Action, enters, sends, receives, flushes, act,
  run,
}
use chomo_syncer_go.OpenInterest.RowWriter.Barrier.{run-barrier}

abbrev settings : WriterSettings
settings = record {
  batch_size = 2;
  flush_interval = second;
  channel_size = 4;
  max_retries = 1;
  retry_backoff = 200 * millisecond;
  max_retry_backoff = 5 * second;
  shutdown_timeout = 15 * second;
}

abbrev down : Flusher
down = record { fails = λ n. true; ended = λ n. false }

abbrev up : Flusher
up = record { fails = λ n. false; ended = λ n. false }

abbrev second_try : Flusher
second_try = record { fails = λ n. n == 0; ended = λ n. false }

abbrev push : ℕ → List (Action ℕ)
push r = enters r ∷ sends 0 ∷ receives down ∷ []

abbrev two_dropped : List (Action ℕ)
two_dropped = push 7 ++ push 8

abbrev told : List (Action ℕ)
told = two_dropped ++ flushes up ∷ enters 9 ∷ sends 0 ∷ []

tells : (barrier up (run (λ r. true) two_dropped (new settings))).1 ≡ true
unfolding barrier run act new
tells = refl

silent_after : (barrier second_try (run (λ r. true) told (new settings))).1 ≡ false
unfolding barrier run act new
silent_after = refl

retried : attempts second_try 1 0 ≡ (2, true)
unfolding attempts
retried = refl

run-barrier_example :
    sum_by (λ r. r) (run (λ r. true) told (new settings)).accepted
    ≡ sum_by (λ r. r) (barrier second_try (run (λ r. true) told (new settings))).0.stored
      + sum_by (λ r. r) (run (λ r. true) told (new settings)).lost_before
run-barrier_example = run-barrier (λ r. true) settings told second_try silent_after (λ r. r)
