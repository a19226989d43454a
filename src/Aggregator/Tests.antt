-- ===== src/Aggregator/Tests.antt =====
-- Runs of internal/dispatcher/aggregator.go with two symbols, and the theorems on it there.
use chomo_syncer_go.Base.{
  if◌then◌else◌, nat_eq, Text, codes, text_eq, to_upper, lookup, insert, delete, contains, add_elem,
  Uniq, ◌+◌, ◌≡◌, refl, ◌↔◌, true, false, none, some, List, [], ◌∷◌, arith,
}
use chomo_syncer_go.Aggregator.{
  SectionKey, DerivedInterval, Aggregator, complete, delivered, get_section, mark, publish_derived,
  on_timeout, evict, publish,
}
use chomo_syncer_go.Aggregator.Static.{static_universe, upper_set}
use chomo_syncer_go.Aggregator.Completion.{listed, IsCounted, IsComplete, mark_complete}
use chomo_syncer_go.Aggregator.Once.{run_balance}
use chomo_syncer_go.Aggregator.Steps.{
  Sys, Action, marks, times_out, publishes, evicts, run, act, start, count_key, count_pending,
  take_pending,
}

abbrev symbols : List Text
symbols = codes "BTC" ∷ codes "ETH" ∷ []

abbrev section : SectionKey
section = record { interval = codes "1m"; open_time = 240_000 }

abbrev coarser : List DerivedInterval
coarser =
    record { name = codes "3m"; ms = 180_000 } ∷ record { name = codes "5m"; ms = 300_000 } ∷ []

abbrev half : Aggregator
half = record {
  base_interval = codes "1m";
  base_ms = 60_000;
  derived = coarser;
  sections =
      (section, record { symbols = codes "ETH" ∷ []; published = false; retained = false }) ∷ [];
}

half-IsCounted : IsCounted symbols (get_section section half.sections)
unfolding lookup contains
half-IsCounted = record { uniq = ground arith; inside = λ x h. ground (arith, h) }

symbols-Uniq : Uniq symbols
unfolding contains
symbols-Uniq = ground arith

mark_complete_example :
    ((get_section section
          (mark (some (listed symbols)) (codes "BTC") section half).0.sections).published
        ≡ true
      ↔ IsComplete symbols (
          get_section section (mark (some (listed symbols)) (codes "BTC") section half).0.sections))
    × IsCounted symbols
        (get_section section (mark (some (listed symbols)) (codes "BTC") section half).0.sections)
    × ((mark (some (listed symbols)) (codes "BTC") section half).1 ≡ (
        if (get_section section
          (mark (some (listed symbols)) (codes "BTC") section half).0.sections).published
        then some (record { key = section; n = 2; reason = complete })
        else none))
unfolding contains lookup
mark_complete_example =
    mark_complete symbols (codes "BTC") section half refl refl symbols-Uniq half-IsCounted

-- Two spellings of one symbol count as two: the section closes although ETH has not reported.
mixed_case :
    (let u = some (static_universe symbols) in
      let one = (mark u (codes "BTC") section (record half { sections = [] })).0 in
      (mark u (codes "btc") section one).1)
    ≡ some (record { key = section; n = 2; reason = complete })
unfolding mark static_universe upper_set contains lookup to_upper insert
mixed_case = refl

five_minute_close :
    publish_derived coarser 60_000 240_000 2 2
    ≡ record { interval = codes "5m"; timestamp = 0; symbols_count = 2 } ∷ []
unfolding publish_derived
five_minute_close = refl

abbrev history : List Action
history =
    marks (codes "BTC") section
    ∷ marks (codes "ETH") section
    ∷ times_out section
    ∷ publishes section delivered 2
    ∷ marks (codes "ETH") section
    ∷ evicts section
    ∷ marks (codes "ETH") section
    ∷ []

abbrev after : Sys
after = run (some (listed symbols)) history (start (codes "1m") 60_000 coarser)

run_balance_example :
    count_pending section after.pending + count_key section after.handled
    ≡ count_key section after.evicted
      + (if (get_section section after.agg.sections).published then 1 else 0)
run_balance_example =
    run_balance (some (listed symbols)) (codes "1m") 60_000 coarser history section

one_run : count_key section after.handled ≡ 1
unfolding run act mark on_timeout evict publish take_pending start count_key listed contains lookup
    insert delete add_elem
one_run = refl
