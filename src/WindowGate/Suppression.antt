-- ===== src/WindowGate/Suppression.antt =====
-- internal/windowgate/gate.go: what a held key keeps from the wrapped sinks.
use chomo_syncer_go.Base.{lt→ltb, nat_eq, Text, text_eq, ◌+◌, ◌<◌, ◌≡◌, sym, true, List, arith}
use chomo_syncer_go.WindowGate.{
  Key, key_eq, norm, Gate, hold, release, held_window, held_interval, gated_push, gated_publish,
  new,
}
use chomo_syncer_go.WindowGate.Counts.{refs, occurs, refs-hold, refs-release}
use chomo_syncer_go.WindowGate.Intervals.{
  hold-Inv, release-Inv, held_interval-of_key, new-Inv, Call, run, run-Inv,
}

held_after :
    (g : Gate) (ks ls : List Key) (j : Key)
    → occurs j ls < refs g j + occurs j ks
    → 0 < refs (release ls (hold ks g)) j
held_after g ks ls j h = omega (arith, refs-release ls j (hold ks g), refs-hold ks j g)

-- On a gate that any history of calls has led to, after one more Hold of `ks` and a Release of `ls`
-- that leave some hold of the key: a push to the key is dropped and an event of its interval is
-- suppressed; the wrapped sinks are not called.
pub hold_suppresses {ℓ κ μ} :
    {Bar : Type ℓ} {Event : Type κ} {R : Type μ} (cs : List Call) (ks ls : List Key) (k : Key)
    (push : Text → Text → Bar → R) (publish : Event → R) (r : R) (interval_of : Event → Text)
    (bar : Bar) (evt : Event)
    → occurs (norm k) ls < refs (run cs new) (norm k) + occurs (norm k) ks
    → interval_of evt ≡ k.interval
    → (gated_push (release ls (hold ks (run cs new))) push r k.symbol k.interval bar ≡ r)
      × (gated_publish (release ls (hold ks (run cs new))) interval_of publish r evt ≡ r)
unfolding gated_push gated_publish held_window
hold_suppresses cs ks ls k push publish r interval_of bar evt h e = (rw (lt→ltb 0 _ still), rw shut)
  where
    g' : Gate
    g' = release ls (hold ks (run cs new))

    still : 0 < refs g' (norm k)
    still = held_after (run cs new) ks ls (norm k) h

    shut : held_interval g' (interval_of evt) ≡ true
    shut =
        held_interval-of_key g' (norm k) (interval_of evt)
          (release-Inv ls _ (hold-Inv ks _ (run-Inv cs new new-Inv))) still (sym e)
