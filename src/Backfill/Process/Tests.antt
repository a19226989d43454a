-- ===== src/Backfill/Process/Tests.antt =====
-- Runs of processInterval of internal/backfill/backfill.go.
use chomo_syncer_go.Base.{
  nat_eq, Text, codes, text_eq, Map, lookup, contains, second, ℕ, ◌-◌, ◌*◌, ◌≡◌, refl, true, false,
  Option, none, some, List, [], ◌∷◌, arith, pos,
}
use chomo_syncer_go.Backfill.Requests.Settings.{ResolvedConfig}
use chomo_syncer_go.Backfill.Requests.{Range}
use chomo_syncer_go.Backfill.Process.{Exchange, resume_jobs}
use chomo_syncer_go.Backfill.Process.Resume.{covers, resume_jobs-covers}

abbrev cfg : ResolvedConfig
cfg = record {
  cold_start_time = some 100;
  gap_debounce = 30 * second;
  workers = 4;
  queue_size = 2;
  window_size = 200;
  gate_timeout = pos (300 * second);
  flush_wait = 2 * second;
}

-- The archive of BTC ends with the bar at 600.
abbrev archive : Map Text (Option ℕ)
archive = (codes "BTC", some 600) ∷ []

resume_jobs-covers_example :
    (covers (codes "BTC") 720 (resume_jobs cfg 60 none 900 archive (codes "ETH" ∷ codes "BTC" ∷ []))
      ≡ true)
    × (covers
          (codes "BTC")
          600
          (resume_jobs cfg 60 none 900 archive (codes "ETH" ∷ codes "BTC" ∷ []))
        ≡ false)
unfolding contains lookup
resume_jobs-covers_example =
    resume_jobs-covers cfg 60 none 900 archive (codes "ETH" ∷ codes "BTC" ∷ []) (codes "BTC") 600
      720 600 (omega arith) refl refl (omega arith) (omega arith) (omega arith)

abbrev repair : Map Text (List Range)
repair = (codes "BTC", record { from = 0; to = 60 } ∷ record { from = 300; to = 420 } ∷ []) ∷ []

abbrev exchange : Exchange Text
exchange = record {
  ch_max = some archive;
  cancelled = λ n. false;
  fetched = λ j. (j.until - j.since, false);
  rebuilds = true;
  flushed = true;
  last_bars = λ symbols. some [];
}
