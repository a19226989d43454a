-- ===== src/BatchWriter/Tests.antt =====
-- Runs of internal/chwriter with whole numbers for rows, and the theorems on them there.
use chomo_syncer_go.Base.{
  ◌==◌, nat_eq, All, length, text_eq, pick, or_default, millisecond, second, ℕ, suc, ◌*◌, ◌≤◌, ◌≡◌,
  refl, false, List, [], ◌∷◌, ◌++◌, arith, pos, negsuc,
}
use chomo_syncer_go.BatchWriter.{
  Config, ResolvedConfig, resolve, Attempt, flush_with_retry, flush_loop,
}
use chomo_syncer_go.BatchWriter.Loop.{
  stopping, stopped, new, Action, enters, sends, try_sends, steps, ticks, closes, stops, act, run,
  enter, send, try_send, flush, flush_batch, receive, step, run_step, tick, stop,
}
use chomo_syncer_go.BatchWriter.Rows.{rows_of, Fits, run-IsFifo}
use chomo_syncer_go.BatchWriter.Shutdown.{iterate, stopping_flushes_all, late_send_lost}

abbrev settings : Config
settings = record {
  batch_size = pos 2;
  flush_interval = pos 0;
  channel_size = pos 4;
  max_retries = pos 3;
  retry_backoff = negsuc 0;
  max_retry_backoff = pos 0;
  shutdown_timeout = pos 0;
}

abbrev cfg : ResolvedConfig
cfg = record {
  size = 2;
  interval = second;
  capacity = 4;
  retries = 3;
  backoff = 200 * millisecond;
  max_backoff = 5 * second;
  timeout = 15 * second;
}

resolve-settings : resolve settings ≡ cfg
unfolding resolve or_default
resolve-settings = refl

-- Every batch fails on its first attempt and is stored by its second.
abbrev second_try : ℕ → Attempt
second_try n = record { flush_err = n == 0; ctx_err = false; sleep_err = false; random = 7 }

abbrev attempts : ℕ → ℕ → Attempt
attempts batch = second_try

second_try_waits : (flush_with_retry cfg second_try).waits ≡ 200_000_007 ∷ []
unfolding flush_with_retry flush_loop
second_try_waits = refl

-- Five rows, of which three are received before the shutdown.
abbrev history : List (Action ℕ)
history =
    enters 1
    ∷ sends 0
    ∷ enters 2
    ∷ enters 3
    ∷ try_sends 1
    ∷ try_sends 0
    ∷ steps
    ∷ ticks
    ∷ steps
    ∷ steps
    ∷ enters 4
    ∷ sends 0
    ∷ enters 5
    ∷ sends 0
    ∷ closes
    ∷ stops
    ∷ []

run-IsFifo_example :
    (rows_of (run attempts history (new cfg)).log
        ++ ((run attempts history (new cfg)).batch ++ (run attempts history (new cfg)).queue)
      ≡ (run attempts history (new cfg)).accepted)
    × All (Fits 2) (run attempts history (new cfg)).log
    × (length (run attempts history (new cfg)).queue ≤ 4)
run-IsFifo_example = run-IsFifo attempts cfg (omega arith) history

history_stopping : (run attempts history (new cfg)).phase ≡ stopping
unfolding run act new enter send try_send pick step run_step receive flush flush_batch tick stop
    flush_with_retry flush_loop
history_stopping = refl

stopping_flushes_all_example :
    ((iterate attempts
        (suc (length (run attempts history (new cfg)).queue))
        (run attempts history (new cfg))).phase
      ≡ stopped)
    × (rows_of
          (iterate attempts
            (suc (length (run attempts history (new cfg)).queue))
            (run attempts history (new cfg))).log
        ≡ (run attempts history (new cfg)).accepted)
stopping_flushes_all_example =
    stopping_flushes_all attempts cfg (omega arith) history history_stopping

late_send_lost_example :
    ((run {R = ℕ} attempts (enters 9 ∷ stops ∷ steps ∷ sends 0 ∷ []) (new cfg)).accepted ≡ 9 ∷ [])
    × ((run attempts
          (steps ∷ ticks ∷ closes ∷ [])
          (run {R = ℕ} attempts (enters 9 ∷ stops ∷ steps ∷ sends 0 ∷ []) (new cfg))).log
        ≡ [])
late_send_lost_example = late_send_lost attempts cfg 9 (steps ∷ ticks ∷ closes ∷ []) (omega arith)
