-- ===== src/Backfill/Requests/Tests.antt =====
-- Runs of internal/backfill/backfill.go: a sweep for one key, its answer, and a second request for
-- the key.
use chomo_syncer_go.Base.{
  if◌then◌else◌, nat_eq, length, codes, text_eq, to_upper, insert, contains, add_elem, second, ℕ,
  ◌*◌, ◌≤◌, min, ◌≡◌, refl, inl, none, some, List, [], ◌∷◌, pos,
}
use chomo_syncer_go.Backfill.{Key, key_eq, fold_key}
use chomo_syncer_go.Backfill.Requests.Settings.{ResolvedConfig}
use chomo_syncer_go.Backfill.Requests.{
  Channel, answered, Request, sweep, serving, new, Action, submits, goes, works, finishes, run, act,
}
use chomo_syncer_go.Backfill.Requests.Holds.{hold, release, gate_key}
use chomo_syncer_go.Backfill.Requests.Rule.{load}
use chomo_syncer_go.Backfill.Requests.Balance.{
  backfill, holders, backfill_balance, backfill_holds, IsQuiet,
}
use chomo_syncer_go.Backfill.Requests.Marks.{marks, run-marks}
use chomo_syncer_go.Backfill.Requests.Answers.{asked, asked_repairs, run-answered}
use chomo_syncer_go.WindowGate
use chomo_syncer_go.WindowGate.{gated_push, gated_publish}
use chomo_syncer_go.WindowGate.Counts.{refs}

abbrev cfg : ResolvedConfig
cfg = record {
  cold_start_time = none;
  gap_debounce = 30 * second;
  workers = 4;
  queue_size = 2;
  window_size = 200;
  gate_timeout = pos (300 * second);
  flush_wait = 2 * second;
}

abbrev btc : Key
btc = record { symbol = codes "BTC"; interval = codes "1m" }

abbrev answer_to : Channel
answer_to = record { id = 7; size = 1 }

abbrev sweep_btc : Request
sweep_btc = record {
  keys = btc ∷ [];
  since = none;
  until = some 600000;
  reason = sweep;
  ranges = some ((btc, record { from = 60000; to = 120000 } ∷ []) ∷ []);
  result = some answer_to;
  skipped = 0;
}

-- Submitted, marked, held, queued and received.
abbrev in_process : List Action
in_process = submits sweep_btc ∷ goes 0 ∷ goes 0 ∷ goes 0 ∷ works ∷ []

-- Then carried out, and its key released, while a second request for the key is skipped.
abbrev all_done : List Action
all_done =
    submits sweep_btc
    ∷ goes 0
    ∷ goes 0
    ∷ goes 0
    ∷ works
    ∷ submits sweep_btc
    ∷ goes 0
    ∷ finishes []
    ∷ works
    ∷ works
    ∷ works
    ∷ []

in_process_serves :
    (backfill cfg in_process).runner ≡ serving (record sweep_btc { keys = btc ∷ [] })
unfolding run act new fold_key to_upper contains insert
in_process_serves = refl

all_done-IsQuiet : IsQuiet (backfill cfg all_done)
unfolding run act new fold_key to_upper contains add_elem
all_done-IsQuiet = (refl, refl, inl refl)

backfill_balance_example :
    refs (backfill cfg in_process).gate (gate_key btc)
    ≡ load (holders btc) (backfill cfg in_process)
backfill_balance_example = backfill_balance cfg in_process btc

abbrev dropped : ℕ
dropped = 0

backfill_holds_example :
    (gated_push
        (backfill cfg in_process).gate
        (λ symbol interval bar. bar)
        dropped
        (codes "BTC")
        (codes "1m")
        5
      ≡ dropped)
    × (gated_publish (backfill cfg in_process).gate (λ evt. evt) length dropped (codes "1m")
        ≡ dropped)
unfolding contains
backfill_holds_example =
    backfill_holds cfg in_process sweep_btc btc (λ symbol interval bar. bar) length dropped
      (λ evt. evt) 5 (codes "1m") (inl in_process_serves) refl refl

run-marks_example :
    (if contains (backfill cfg in_process).inflight btc then 1 else 0)
    ≡ load (marks btc) (backfill cfg in_process)
run-marks_example = run-marks hold release btc cfg WindowGate.new in_process

run-answered_example :
    (min 1 (asked_repairs answer_to (backfill cfg all_done).received)
      ≤ answered answer_to (backfill cfg all_done).answers)
    × (answered answer_to (backfill cfg all_done).answers
        ≤ asked answer_to (backfill cfg all_done).received)
run-answered_example =
    run-answered hold release answer_to cfg WindowGate.new all_done all_done-IsQuiet
