-- ===== src/Backfill/Sweep/Tests.antt =====
-- Runs of internal/backfill/sweep.go: two holes of one symbol, of which one is known to be empty.
use chomo_syncer_go.Base.{
  nat_eq, Text, codes, text_eq, Map, lookup, second, ℕ, ◌+◌, ◌*◌, ◌≡◌, refl, Bool, true, false,
  none, List, [], ◌∷◌, pos,
}
use chomo_syncer_go.Universe.{sort}
use chomo_syncer_go.Backfill.{key_eq}
use chomo_syncer_go.Backfill.Requests.Settings.{ResolvedConfig}
use chomo_syncer_go.Backfill.Requests.{Range}
use chomo_syncer_go.Backfill.Process.{Exchange, process}
use chomo_syncer_go.Backfill.Sweep.{
  Sweeper, empty_key_eq, choose_gaps, sweep_request, after_repair, all_ok,
}
use chomo_syncer_go.Backfill.Sweep.Outcome.{
  served, taken, after_repair-served, after_repair-cut_short,
}

abbrev minute : ℕ
minute = 60 * second

abbrev sweeper : Sweeper
sweeper = record {
  cfg = record {
    interval = codes "1m";
    every = 30 * minute;
    window = 1440 * minute;
    settle = 3 * minute;
    first_delay = 2 * minute;
    empty_ttl = 1440 * minute;
    max_ranges = 3000;
  };
  empty = (record { sym = codes "BTC"; from = 0 }, 2000 * minute) ∷ [];
}

abbrev gaps : Map Text (List Range)
gaps =
    (
      codes "BTC",
      record { from = 0; to = minute } ∷ record { from = 5 * minute; to = 7 * minute } ∷ [],
    )
    ∷ []

abbrev clock : ℕ → ℕ
clock n = 1500 * minute

abbrev cfg : ResolvedConfig
cfg = record {
  cold_start_time = none;
  gap_debounce = 30 * second;
  workers = 4;
  queue_size = 2;
  window_size = 200;
  gate_timeout = pos (5 * minute);
  flush_wait = 2 * second;
}

-- An exchange that has two bars for every range, with a context that ends at once or not at all.
abbrev exchange : Bool → Text → Exchange Text
exchange ended iv = record {
  ch_max = none;
  cancelled = λ n. ended;
  fetched = λ j. (2, false);
  rebuilds = false;
  flushed = true;
  last_bars = λ symbols. none;
}

abbrev dur : Text → ℕ
dur iv = minute

one_submitted : (choose_gaps sweeper clock gaps).stats.submitted ≡ 1
unfolding choose_gaps sort lookup
one_submitted = refl

after_repair-served_example :
    let os =
      (process cfg (exchange false) dur (sweep_request (choose_gaps sweeper clock gaps) 9) 9).0 in
    let st = (after_repair 3 sweeper (choose_gaps sweeper clock gaps).stats (taken os)).1 in
    st.failed + st.empty + served os ≡ (choose_gaps sweeper clock gaps).stats.submitted
after_repair-served_example =
    after_repair-served sweeper clock gaps 3 9 9 cfg (exchange false) dur (λ iv n. refl)

after_repair-cut_short_example :
    after_repair 3 sweeper (choose_gaps sweeper clock gaps).stats (
      taken
        (process cfg (exchange true) dur (sweep_request (choose_gaps sweeper clock gaps) 9) 9).0)
    ≡ (sweeper, record (choose_gaps sweeper clock gaps).stats { skipped_keys = 0 }, all_ok)
after_repair-cut_short_example =
    after_repair-cut_short sweeper clock gaps 3 9 9 cfg (exchange true) dur (λ iv. refl)
