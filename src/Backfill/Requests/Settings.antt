-- ===== src/Backfill/Requests/Settings.antt =====
-- internal/backfill/backfill.go: Config and its defaults. Durations are nanoseconds.
use chomo_syncer_go.Base.{
  if◌then◌else◌, ◌==◌, nat_eq, text_eq, ℤ, or_default, second, ℕ, ◌*◌, Option, pos, negsuc,
}

pub record Config : Type 0 where
  -- `none` for the zero time
  pub cold_start_time : Option ℕ
  pub gap_debounce : ℤ
  pub workers : ℤ
  pub queue_size : ℤ
  pub window_size : ℤ
  pub gate_timeout : ℤ
  pub flush_wait : ℤ

pub record ResolvedConfig : Type 0 where
  pub cold_start_time : Option ℕ
  pub gap_debounce : ℕ
  pub workers : ℕ
  pub queue_size : ℕ
  pub window_size : ℕ
  pub gate_timeout : ℤ
  pub flush_wait : ℕ

-- A negative timeout stays, as no bound.
unfoldable pub resolve_timeout : ℤ → ℤ
resolve_timeout (pos n) = if n == 0 then pos (300 * second) else pos n
resolve_timeout (negsuc n) = negsuc n

unfoldable pub resolve : Config → ResolvedConfig
unfolding or_default resolve_timeout
resolve c = record {
  cold_start_time = c.cold_start_time;
  gap_debounce = or_default c.gap_debounce (30 * second);
  workers = or_default c.workers 4;
  queue_size = or_default c.queue_size 256;
  window_size = or_default c.window_size 200;
  gate_timeout = resolve_timeout c.gate_timeout;
  flush_wait = or_default c.flush_wait (2 * second);
}
