-- ===== src/OpenInterest/Settings/Tests.antt =====
-- Runs of internal/openinterest: the settings that a configuration without values stands for.
use chomo_syncer_go.Base.{nat_eq, text_eq, ◌≡◌, refl, true, false, none, pos, negsuc}
use chomo_syncer_go.OpenInterest.Settings.{
  HistConfig, hist_defaults, LiveConfig, SyncConfig, Given, new_error,
}

abbrev hist_config : HistConfig
hist_config = record {
  interval = pos 0;
  offset = pos 0;
  spread = pos 0;
  publish_lag = pos 0;
  limit_margin = pos 0;
  max_limit = negsuc 0;
  cold_start_window = pos 0;
  max_backfill = pos 0;
  workers = pos 0;
  request_timeout = pos 0;
}

abbrev live_config : LiveConfig
live_config = record {
  lead = pos 0;
  accept_window = pos 0;
  workers = pos 0;
  request_timeout = pos 0;
  catch_up = pos 0;
  min_remaining = pos 0;
}

abbrev config : SyncConfig
config = record {
  hist_enabled = true;
  live_enabled = true;
  ls_ratio_enabled = false;
  live = live_config;
  hist = hist_config;
  ls_ratio = hist_config;
  data_window_cap = pos 0;
}

abbrev given : Given
given = record {
  symbols = true;
  snapshots = true;
  history = true;
  store = true;
  sink = true;
  ratios = false;
  ls_store = false;
  ls_sink = false;
}

accepted : new_error config given ≡ none
unfolding new_error
accepted = refl

page_of_500 : (hist_defaults hist_config).max_limit ≡ 500
unfolding hist_defaults
page_of_500 = refl
