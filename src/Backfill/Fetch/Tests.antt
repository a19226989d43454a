-- ===== src/Backfill/Fetch/Tests.antt =====
-- Runs of internal/backfill/rest.go, against an exchange that has two bars of a minute.
use chomo_syncer_go.Base.{
  nat_eq, length, take, Text, codes, text_eq, ℕ, ◌+◌, ◌≡◌, refl, sym, ap, ◌∙◌, ◌≢◌, false, Option,
  some, List, [], ◌∷◌, map, arith, pos,
}
use chomo_syncer_go.Bars.{Row, to_row}
use chomo_syncer_go.Interval.{parse_interval_atoi}
use chomo_syncer_go.Backfill.Fetch.{
  RawKline, Reply, decode_rows, last_open, page, page_span, page_limit_for, Ended, finished,
  callback_failed, batch_of, collect, fetch_loop, fetch_stream, Archived, archive_batch,
}
use chomo_syncer_go.Backfill.Fetch.Complete.{Rises, between, fetch_stream-collect}
use chomo_syncer_go.Backfill.Fetch.Archive.{fetch_stream-archive}
use chomo_syncer_go.WeightGate.{Config}

abbrev bar : ℕ → RawKline
bar t = record {
  open_ms = t;
  close_ms = t + 59999;
  opened = codes "1";
  high = codes "2";
  low = codes "1";
  close = codes "2";
  volume = codes "3";
  quote_volume = codes "4";
  taker_buy = codes "1";
  taker_buy_quote = codes "1";
  trades = pos 7;
}

abbrev history : List RawKline
history = bar 60000 ∷ bar 120000 ∷ bar 180000 ∷ []

abbrev served : List RawKline → Reply
served ks = record {
  limiter_err = false;
  gate_err = false;
  client_err = false;
  status = 200;
  used_weight = codes "1";
  retry_after_header = [];
  body = some (map some ks);
}

abbrev exchange : ℕ → ℕ → ℕ → Reply
exchange n c l = served (take l (between c 180000 history))

decode_rows-served : (ks : List RawKline) → decode_rows (map some ks) ≡ ks
unfolding decode_rows
decode_rows-served [] = refl
decode_rows-served (k ∷ ks) = ap (◌∷◌ k) (decode_rows-served ks)

page-served : (ks : List RawKline) → page (served ks) ≡ some (ks, last_open 0 ks)
unfolding page
page-served ks = ap (λ rows. some (rows, last_open 0 rows)) (decode_rows-served ks)

abbrev pass : Text → Option Text
pass s = some s

-- The range holds the second bar and not the third; the first opens before it.
two_minutes :
    (fetch_stream pass (codes "BTCUSDT") 2 (codes "1m") 100000 180000 1000000 exchange collect []).1
    ≡ finished
unfolding fetch_stream fetch_loop page batch_of page_limit_for parse_interval_atoi between to_row
    collect
two_minutes = refl

Rises-history : Rises 0 history
Rises-history = (omega arith, (omega arith, (omega arith, tt)))

fetch_stream-collect_example :
    fetch_stream pass
      (codes "BTCUSDT")
      (page_span (pos 2))
      (codes "1m")
      100000
      180000
      1000000
      exchange
      collect
      []
    ≡ (batch_of pass (codes "BTCUSDT") 100000 180000 1000000 history, finished)
fetch_stream-collect_example =
    fetch_stream-collect pass (codes "BTCUSDT") (pos 2) (codes "1m") 100000 180000 1000000 exchange
      history Rises-history (λ n c l. page-served (take l (between c 180000 history)))

abbrev defaults : Config
defaults = record {
  live_budget = pos 0;
  bulk_budget = pos 0;
  misc_budget = pos 0;
  live_burst = pos 0;
  bulk_burst = pos 0;
  misc_burst = pos 0;
  soft_limit = pos 0;
  hard_limit = pos 0;
}

finished-≢ : finished ≢ callback_failed
finished-≢ = λ e. cc

abbrev archived : Archived (Row Text) × Ended
archived =
    fetch_stream pass (codes "BTCUSDT") 2 (codes "1m") 0 180000 1000000 exchange
      (archive_batch (some (λ n. false))) (record { fetched = 0; written = [] })

archived_ends : archived.1 ≡ finished
unfolding fetch_stream fetch_loop page batch_of page_limit_for parse_interval_atoi between to_row
    archive_batch
archived_ends = refl

abbrev collected : List (Row Text) × Ended
collected = fetch_stream pass (codes "BTCUSDT") 2 (codes "1m") 0 180000 1000000 exchange collect []

fetch_stream-archive_example :
    ((archived.0.written ≡ collected.0) × (archived.0.fetched ≡ length collected.0))
    × (archived.1 ≡ collected.1)
fetch_stream-archive_example =
    fetch_stream-archive pass (codes "BTCUSDT") 2 (codes "1m") 0 180000 1000000 exchange
      (λ n. false) (λ e. absurd (finished-≢ (sym archived_ends ∙ e)))
