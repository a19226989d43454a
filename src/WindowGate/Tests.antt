-- ===== src/WindowGate/Tests.antt =====
-- Runs of internal/windowgate/gate.go on two keys, and the theorems on it at that history.
use chomo_syncer_go.Base.{
  nat_eq, Text, Option, some, none, length, to_upper, codes, text_eq, lookup, insert, delete, ℕ,
  ◌≡◌, refl, true, List, [], ◌∷◌, arith,
}
use chomo_syncer_go.WindowGate.{
  Key, key_eq, get_int, new, hold, release, held_window, held_count, gated_push, gated_publish,
}
use chomo_syncer_go.WindowGate.Counts.{occurs}
use chomo_syncer_go.WindowGate.Intervals.{Call, holds, releases, run}
use chomo_syncer_go.WindowGate.Suppression.{hold_suppresses}

abbrev btc : Key
btc = record { symbol = codes "btcusdt"; interval = codes "1m" }

abbrev eth : Key
eth = record { symbol = codes "ETHUSDT"; interval = codes "1m" }

abbrev calls : List Call
calls = holds (btc ∷ eth ∷ []) ∷ holds (btc ∷ []) ∷ releases (eth ∷ btc ∷ []) ∷ []

held_after_calls : held_window (run calls new) (codes "BTCUSDT") (codes "1m") ≡ true
unfolding run hold release new held_window insert lookup delete to_upper
held_after_calls = refl

count_after_calls : held_count (run calls new) ≡ 1
unfolding run hold release new held_count insert lookup delete get_int to_upper
count_after_calls = refl

abbrev push_bar : Text → Text → ℕ → Option ℕ
push_bar symbol interval bar = some bar

abbrev publish_event : Text → Option ℕ
publish_event event = some (length event)

hold_suppresses_example :
    (gated_push
        (release (eth ∷ []) (hold (btc ∷ []) (run calls new)))
        push_bar
        none
        (codes "btcusdt")
        (codes "1m")
        5
      ≡ none)
    × (gated_publish
          (release (eth ∷ []) (hold (btc ∷ []) (run calls new)))
          (λ (e : Text). e)
          publish_event
          none
          (codes "1m")
        ≡ none)
unfolding run hold release new insert lookup delete get_int occurs to_upper
hold_suppresses_example =
    hold_suppresses calls (btc ∷ []) (eth ∷ []) btc push_bar publish_event none (λ e. e) 5
      (codes "1m") (omega arith) refl
