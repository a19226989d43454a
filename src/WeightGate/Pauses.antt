-- ===== src/WeightGate/Pauses.antt =====
-- internal/weightgate/gate.go: pauses and backpressure over time.
use chomo_syncer_go.Base.{
  nat_eq, text_eq, ℤ, minute, ℕ, ◌+◌, ◌-◌, ◌%◌, ◌≤◌, ◌<◌, ◌≡◌, List, [], ◌∷◌, arith, pos, negsuc,
}
use chomo_syncer_go.WeightGate.{
  Class, live, bulk, misc, other, Gate, observe, pause_for, pause_remaining, backpressure_delay,
  minute_end, limit_of,
}

-- What other callers do to the gate between two looks at it.
pub data Report : Type 0 where
  observes : ℤ → ℕ → Report
  pauses : ℤ → ℕ → Report

unfoldable pub apply_report : Report → Gate → Gate
unfolding observe pause_for
apply_report (observes used now) g = observe used now g
apply_report (pauses d now) g = pause_for d now g

unfoldable pub apply_reports : List Report → Gate → Gate
apply_reports [] g = g
apply_reports (r ∷ rs) g = apply_reports rs (apply_report r g)

apply_report-pause_mono :
    (r : Report) (g : Gate) → g.paused_until_ns ≤ (apply_report r g).paused_until_ns
unfolding apply_report
apply_report-pause_mono (observes (pos u) now) g = omega arith
apply_report-pause_mono (observes (negsuc u) now) g = omega arith
apply_report-pause_mono (pauses (pos d) now) g = ground arith
apply_report-pause_mono (pauses (negsuc d) now) g = omega arith

apply_reports-pause_mono :
    (rs : List Report) (g : Gate) → g.paused_until_ns ≤ (apply_reports rs g).paused_until_ns
unfolding apply_reports
apply_reports-pause_mono [] g = omega arith
apply_reports-pause_mono (r ∷ rs) g =
    omega (arith, apply_report-pause_mono r g, apply_reports-pause_mono rs (apply_report r g))

pause_for-reaches :
    (d now : ℕ) (g : Gate) → 0 < d → now + d ≤ (pause_for (pos d) now g).paused_until_ns
unfolding pause_for
pause_for-reaches d now g h = ground arith

-- A pause of `d`, more than 0, reported at `now` holds every caller until `now + d`, whatever is
-- reported after it: at each earlier instant `t` at least `now + d - t` remain.
pub pause_for_holds :
    (d now t : ℕ) (g : Gate) (rs : List Report)
    → 0 < d
    → now + d - t ≤ pause_remaining (apply_reports rs (pause_for (pos d) now g)) t
unfolding pause_remaining
pause_for_holds d now t g rs h =
    ground (arith, paused, apply_reports-pause_mono rs (pause_for (pos d) now g))
  where
    paused : now + d ≤ (pause_for (pos d) now g).paused_until_ns
    paused = pause_for-reaches d now g h

-- A pause that is over stays over, and sleeping what remains ends it.
pub pause_remaining_mono :
    (g : Gate) (t u : ℕ) → t + pause_remaining g t ≤ u → pause_remaining g u ≡ 0
unfolding pause_remaining
pause_remaining_mono g t u h = ground arith

pub backpressure_delay_mono :
    (g : Gate) (c : Class) (t u : ℕ)
    → t + backpressure_delay g c t ≤ u
    → backpressure_delay g c u ≡ 0
unfolding backpressure_delay
backpressure_delay_mono g c t u h = ground arith

-- A bulk caller waits at least as long as any other class, at every instant.
pub backpressure_delay-bulk :
    (g : Gate) (c : Class) (t : ℕ)
    → g.cfg.soft ≤ g.cfg.hard
    → backpressure_delay g c t ≤ backpressure_delay g bulk t
unfolding backpressure_delay
backpressure_delay-bulk g live t h = ground arith
backpressure_delay-bulk g bulk t h = omega arith
backpressure_delay-bulk g misc t h = ground arith
backpressure_delay-bulk g other t h = ground arith

within_minute : (taken t : ℕ) → taken ≤ t → t < minute_end taken → minute_end taken - t ≤ minute
within_minute taken t h k = omega arith

-- An observation at or above a class's limit holds the class until the end of its UTC minute, at
-- each instant `t` of the rest of that minute: the delay leads to a whole minute of the clock, and
-- is at most a minute.
pub observe_holds :
    (g : Gate) (c : Class) (used taken t : ℕ)
    → taken ≤ t
    → t < minute_end taken
    → limit_of g.cfg c ≤ used
    → (t + backpressure_delay (observe (pos used) taken g) c t ≡ minute_end taken)
      × (minute_end taken % minute ≡ 0)
      × (backpressure_delay (observe (pos used) taken g) c t ≤ minute)
unfolding observe backpressure_delay
observe_holds g c used taken t h k l =
    (ground arith, omega arith, ground (arith, within_minute taken t h k))
