-- ===== src/OpenInterest/Settings/Schedule.antt =====
-- internal/openinterest/{hist,syncer}.go: what the checks of a schedule are for.
use native.Mathlib.Nat.{
  mod-lt, mod-le, mod-eq_of_lt, div-add-mod, mul-add-mod_self_left, add-mod_right,
}
use chomo_syncer_go.Base.{
  nat_eq, text_eq, or_default, or_default_pos, second, minute, hour, ℕ, ◌+◌, ◌-◌, ◌*◌, ◌/◌, ◌%◌,
  ◌≤◌, ◌<◌, ◌≡◌, refl, ap, ◌∙◌, Option, none, some, arith, pos,
}
use chomo_syncer_go.OpenInterest.Settings.{
  HistConfig, Hist, hist_defaults, SyncConfig, Sync, sync_defaults, ScheduleError,
  validate_schedule, SyncError, in_hist, in_ls_ratio, within, validate_sync, Given, NewError,
  missing, or_missing, new_error, next_reconcile_time,
}

-- What a schedule that passes its checks has, and its defaults.
pub record IsSound (h : Hist) : Type 0 where
  pub period : 0 < h.interval
  pub offset : h.offset < h.interval
  pub spread : h.spread ≤ h.interval
  pub margin : 0 < h.limit_margin
  pub limit : 0 < h.max_limit
  pub limit_max : h.max_limit ≤ 500
  pub cold_start : h.cold_start_window ≤ h.max_backfill
  pub backfill : h.max_backfill ≤ 720 * hour
  pub workers : 0 < h.workers

validate_schedule-IsSound :
    (c : HistConfig) → validate_schedule (hist_defaults c) ≡ none → IsSound (hist_defaults c)
unfolding validate_schedule hist_defaults
validate_schedule-IsSound c h = record {
  period = or_default_pos c.interval hour (omega arith);
  offset = ground (arith, h);
  spread = ground (arith, h);
  margin = or_default_pos c.limit_margin 3 (omega arith);
  limit = or_default_pos c.max_limit 500 (omega arith);
  limit_max = ground (arith, h);
  cold_start = ground (arith, h);
  backfill = ground (arith, h);
  workers = or_default_pos c.workers 4 (omega arith);
}

within-none :
    (f : ScheduleError → SyncError) (o : Option ScheduleError) (next : Option SyncError)
    → within f o next ≡ none
    → (o ≡ none) × (next ≡ none)
unfolding within
within-none f none next h = (refl, h)
within-none f (some e) next h = absurd (cc h)

or_missing-none :
    (o : Option SyncError) (next : Option NewError)
    → or_missing o next ≡ none
    → (o ≡ none) × (next ≡ none)
unfolding or_missing
or_missing-none none next h = (refl, h)
or_missing-none (some e) next h = absurd (cc h)

validate_sync-rounds :
    (c : Sync)
    → validate_sync c ≡ none
    → (c.live.lead < 300 * second)
      × (c.live.accept_window < 300 * second)
      × (c.live.min_remaining ≤ c.live.lead)
      × (within in_hist
            (validate_schedule c.hist)
            (within in_ls_ratio (validate_schedule c.ls_ratio) none)
          ≡ none)
unfolding validate_sync
validate_sync-rounds c h =
    (ground (arith, h), ground (arith, h), ground (arith, h), ground (arith, h))

-- What `New` accepts is sound: both schedules are, a round of live snapshots ends before the next
-- one begins and has its least time.
pub new_error-IsSound :
    (c : SyncConfig) (d : Given)
    → new_error c d ≡ none
    → IsSound (sync_defaults c).hist
      × IsSound (sync_defaults c).ls_ratio
      × ((sync_defaults c).live.lead < 300 * second)
      × ((sync_defaults c).live.accept_window < 300 * second)
      × ((sync_defaults c).live.min_remaining ≤ (sync_defaults c).live.lead)
unfolding new_error sync_defaults
new_error-IsSound c d h =
    let (valid, given) =
      or_missing-none (validate_sync (sync_defaults c)) (missing (sync_defaults c) d) h in
    let (lead, window, least, schedules) = validate_sync-rounds (sync_defaults c) valid in
    let (hist, rest) = within-none in_hist (validate_schedule (sync_defaults c).hist) _ schedules in
    let (ls_ratio, end) =
      within-none in_ls_ratio (validate_schedule (sync_defaults c).ls_ratio) none rest in
    (
      validate_schedule-IsSound c.hist hist,
      validate_schedule-IsSound
          (record c.ls_ratio { spread = pos (or_default c.ls_ratio.spread (30 * minute)) })
          ls_ratio,
      lead,
      window,
      least,
    )

whole_periods : (now interval : ℕ) → now - now % interval ≡ interval * (now / interval)
whole_periods now interval = omega (arith, div-add-mod now interval)

-- The next pass starts at the first moment after now that lies `offset` into a period.
pub next_reconcile_time-next :
    (now interval offset : ℕ)
    → offset < interval
    → (now < next_reconcile_time now interval offset)
      × (next_reconcile_time now interval offset ≤ now + interval)
      × (next_reconcile_time now interval offset % interval ≡ offset)
unfolding next_reconcile_time
next_reconcile_time-next now interval offset h =
    let part : now % interval < interval = mod-lt now (omega arith) in
    let at : (now - now % interval + offset) % interval ≡ offset =
      ap (λ (n : ℕ). (n + offset) % interval) (whole_periods now interval)
      ∙ mul-add-mod_self_left interval (now / interval) offset
      ∙ mod-eq_of_lt h in
    (
      ground (arith, part, mod-le now interval),
      ground (arith, part, mod-le now interval),
      ground (arith, at, add-mod_right (now - now % interval + offset) interval),
    )
