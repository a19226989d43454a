-- ===== src/Universe/Schedule.antt =====
-- internal/universe/monitor.go: nextDelay.
use chomo_syncer_go.Base.{
  leb, le→ltb_false, Bool-cases, nat_eq, text_eq, hour, ℕ, ◌+◌, ◌-◌, ◌%◌, ◌≤◌, ◌<◌, ◌≡◌, inl, inr,
  arith,
}
use chomo_syncer_go.Universe.{ResolvedConfig, day, next_delay}

midnight_offset : (now offset : ℕ) → offset < day → (now - now % day + offset) % day ≡ offset
midnight_offset now offset h = omega arith

-- With a refresh interval of an hour or more and an offset below a day, the next refresh is due
-- within the next 24 hours, not at once, and at the offset after a midnight UTC.
pub next_delay_daily :
    (cfg : ResolvedConfig) (now : ℕ)
    → hour ≤ cfg.refresh
    → cfg.offset < day
    → (0 < next_delay cfg now)
      × (next_delay cfg now ≤ day)
      × ((now + next_delay cfg now) % day ≡ cfg.offset)
unfolding next_delay
next_delay_daily cfg now h l = elim (Bool-cases (leb (now - now % day + cfg.offset) now)) [
  | inl past ↦
      rw (le→ltb_false _ _ h, past)
        (ground (arith, past), ground (arith, past), ground (arith, past))
  | inr ahead ↦
      rw (le→ltb_false _ _ h, ahead)
        (ground (arith, ahead), ground (arith, ahead), ground (arith, ahead))
]
