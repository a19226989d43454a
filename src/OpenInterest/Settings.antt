-- ===== src/OpenInterest/Settings.antt =====
-- internal/openinterest/{live,hist,syncer,writer}.go: the settings, their defaults and their
-- checks. The rates of the token buckets are floats, which only the bucket reads.
pub mod Schedule
mod Tests
use chomo_syncer_go.Base.{
  ltb, leb, if◌then◌else◌, nat_eq, text_eq, ℤ, or_default, second, minute, hour, ℕ, ◌+◌, ◌-◌, ◌*◌,
  ◌%◌, Bool, not, ◌&&◌, ◌||◌, Option, none, some, arith, pos,
}

pub record HistConfig : Type 0 where
  pub interval : ℤ
  pub offset : ℤ
  pub spread : ℤ
  pub publish_lag : ℤ
  pub limit_margin : ℤ
  pub max_limit : ℤ
  pub cold_start_window : ℤ
  pub max_backfill : ℤ
  pub workers : ℤ
  pub request_timeout : ℤ

-- A `HistConfig` after its defaults.
pub record Hist : Type 0 where
  pub interval : ℕ
  pub offset : ℕ
  pub spread : ℕ
  pub publish_lag : ℕ
  pub limit_margin : ℕ
  pub max_limit : ℕ
  pub cold_start_window : ℕ
  pub max_backfill : ℕ
  pub workers : ℕ
  pub request_timeout : ℕ

unfoldable pub hist_defaults : HistConfig → Hist
unfolding or_default
hist_defaults c = record {
  interval = or_default c.interval hour;
  offset = or_default c.offset (5 * minute);
  spread = or_default c.spread (20 * minute);
  publish_lag = or_default c.publish_lag (4 * minute);
  limit_margin = or_default c.limit_margin 3;
  max_limit = or_default c.max_limit 500;
  cold_start_window = or_default c.cold_start_window (48 * hour);
  max_backfill = or_default c.max_backfill (168 * hour);
  workers = or_default c.workers 4;
  request_timeout = or_default c.request_timeout (15 * second);
}

pub record LiveConfig : Type 0 where
  pub lead : ℤ
  pub accept_window : ℤ
  pub workers : ℤ
  pub request_timeout : ℤ
  pub catch_up : ℤ
  pub min_remaining : ℤ

-- A `LiveConfig` after its defaults.
pub record LiveSettings : Type 0 where
  pub lead : ℕ
  pub accept_window : ℕ
  pub workers : ℕ
  pub request_timeout : ℕ
  pub catch_up : ℕ
  pub min_remaining : ℕ

unfoldable pub live_defaults : LiveConfig → LiveSettings
unfolding or_default
live_defaults c = record {
  lead = or_default c.lead (30 * second);
  accept_window = or_default c.accept_window (60 * second);
  workers = or_default c.workers 8;
  request_timeout = or_default c.request_timeout (10 * second);
  catch_up = or_default c.catch_up (4 * minute);
  min_remaining = or_default c.min_remaining (5 * second);
}

pub record SyncConfig : Type 0 where
  pub hist_enabled : Bool
  pub live_enabled : Bool
  pub ls_ratio_enabled : Bool
  pub live : LiveConfig
  pub hist : HistConfig
  pub ls_ratio : HistConfig
  pub data_window_cap : ℤ

-- A `Config` after its defaults.
pub record Sync : Type 0 where
  pub hist_enabled : Bool
  pub live_enabled : Bool
  pub ls_ratio_enabled : Bool
  pub live : LiveSettings
  pub hist : Hist
  pub ls_ratio : Hist
  pub data_window_cap : ℕ

-- `withDefaults` of `Config`, less the names of the tables.
unfoldable pub sync_defaults : SyncConfig → Sync
unfolding hist_defaults live_defaults or_default
sync_defaults c = record {
  hist_enabled = c.hist_enabled;
  live_enabled = c.live_enabled;
  ls_ratio_enabled = c.ls_ratio_enabled;
  live = live_defaults c.live;
  hist = hist_defaults c.hist;
  ls_ratio =
      hist_defaults
        (record c.ls_ratio { spread = pos (or_default c.ls_ratio.spread (30 * minute)) });
  data_window_cap = or_default c.data_window_cap 900;
}

unfoldable pub oi_enabled : Sync → Bool
oi_enabled c = c.hist_enabled || c.live_enabled

-- `Enabled`
unfoldable pub enabled : Sync → Bool
unfolding oi_enabled
enabled c = oi_enabled c || c.ls_ratio_enabled

pub data ScheduleError : Type 0 where
  bad_offset bad_spread bad_max_limit bad_cold_start bad_max_backfill : ScheduleError

-- `validate` of `HistConfig`, whose checks `Validate` repeats for the open interest.
unfoldable pub validate_schedule : Hist → Option ScheduleError
validate_schedule h =
    if leb h.interval h.offset
    then some bad_offset
    else if ltb h.interval h.spread
    then some bad_spread
    else if ltb 500 h.max_limit
    then some bad_max_limit
    else if ltb h.max_backfill h.cold_start_window
    then some bad_cold_start
    else if ltb (720 * hour) h.max_backfill
    then some bad_max_backfill
    else none

pub data SyncError : Type 0 where
  long_lead long_accept_window long_catch_up short_lead : SyncError
  in_hist in_ls_ratio : ScheduleError → SyncError

within : (ScheduleError → SyncError) → Option ScheduleError → Option SyncError → Option SyncError
within where_in none next = next
within where_in (some e) next = some (where_in e)

-- `Validate`, after the defaults.
unfoldable pub validate_sync : Sync → Option SyncError
unfolding validate_schedule within
validate_sync c =
    if leb (300 * second) c.live.lead
    then some long_lead
    else if leb (300 * second) c.live.accept_window
    then some long_accept_window
    else if leb (300 * second) c.live.catch_up
    then some long_catch_up
    else if ltb c.live.lead c.live.min_remaining
    then some short_lead
    else within in_hist (validate_schedule c.hist)
        (within in_ls_ratio (validate_schedule c.ls_ratio) none)

-- Which collaborators of `Deps` are given.
pub record Given : Type 0 where
  pub symbols : Bool
  pub snapshots : Bool
  pub history : Bool
  pub store : Bool
  pub sink : Bool
  pub ratios : Bool
  pub ls_store : Bool
  pub ls_sink : Bool

pub data NewError : Type 0 where
  invalid : SyncError → NewError
  no_symbols no_sink no_ratios no_snapshots no_history : NewError

missing : Sync → Given → Option NewError
unfolding oi_enabled
missing c d =
    if not d.symbols
    then some no_symbols
    else if oi_enabled c && not d.sink
    then some no_sink
    else if c.ls_ratio_enabled && not (d.ratios && (d.ls_store && d.ls_sink))
    then some no_ratios
    else if c.live_enabled && not d.snapshots
    then some no_snapshots
    else if c.hist_enabled && not (d.history && d.store)
    then some no_history
    else none

or_missing : Option SyncError → Option NewError → Option NewError
or_missing (some e) next = some (invalid e)
or_missing none next = next

-- The error of `New`, if any.
unfoldable pub new_error : SyncConfig → Given → Option NewError
unfolding sync_defaults validate_sync missing or_missing
new_error c d = or_missing (validate_sync (sync_defaults c)) (missing (sync_defaults c) d)

-- `nextReconcileTime`
unfoldable pub next_reconcile_time : ℕ → ℕ → ℕ → ℕ
next_reconcile_time now interval offset =
    let t = now - now % interval + offset in if ltb now t then t else t + interval
