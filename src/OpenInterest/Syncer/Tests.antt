-- ===== src/OpenInterest/Syncer/Tests.antt =====
-- Runs of internal/openinterest/syncer.go: a Build that fails late, and calls of Start and Close.
use chomo_syncer_go.Base.{nat_eq, text_eq, ◌≡◌, refl, true, false, [], ◌∷◌, pos}
use chomo_syncer_go.OpenInterest.Settings.{HistConfig, SyncConfig, sync_defaults}
use chomo_syncer_go.OpenInterest.Syncer.{
  oi, flusher, store, writer, Opening, build, new, starts, closes, calls,
}
use chomo_syncer_go.OpenInterest.Syncer.Life.{Clean, build-Clean}

abbrev unset : HistConfig
unset = record {
  interval = pos 0;
  offset = pos 0;
  spread = pos 0;
  publish_lag = pos 0;
  limit_margin = pos 0;
  max_limit = pos 0;
  cold_start_window = pos 0;
  max_backfill = pos 0;
  workers = pos 0;
  request_timeout = pos 0;
}

abbrev config : SyncConfig
config = record {
  hist_enabled = true;
  live_enabled = false;
  ls_ratio_enabled = true;
  live = record {
    lead = pos 0;
    accept_window = pos 0;
    workers = pos 0;
    request_timeout = pos 0;
    catch_up = pos 0;
    min_remaining = pos 0;
  };
  hist = unset;
  ls_ratio = unset;
  data_window_cap = pos 0;
}

abbrev late : Opening
late = record { oi_flusher = true; oi_store = true; ls_flusher = true; ls_store = false }

closed_again : (build config late).closed ≡ writer oi ∷ flusher oi ∷ store oi ∷ []
unfolding build
closed_again = refl

build-Clean_example : Clean (build config late)
build-Clean_example = build-Clean config late

nothing_runs : (calls (closes ∷ starts ∷ []) (new (sync_defaults config))).running ≡ []
unfolding calls new
nothing_runs = refl
