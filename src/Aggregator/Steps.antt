-- ===== src/Aggregator/Steps.antt =====
-- internal/dispatcher/aggregator.go: any interleaving of the aggregator's critical sections, of the
-- publications that they decide on, of timers and of the shutdown.
use chomo_syncer_go.Base.{
  if◌then◌else◌, ◌==◌, nat_eq, Text, text_eq, ℕ, suc, Bool, true, false, Option, none, some, List,
  [], ◌∷◌, ◌++◌,
}
use chomo_syncer_go.Aggregator.{
  SectionKey, section_key_eq, DerivedInterval, Aggregator, Universe, Pending, Reply, ReadyEvent,
  get_section, mark, on_timeout, evict, publish,
}

-- The aggregator with the publications that are decided on and not yet run, the keys of those that
-- have run and of the sections evicted, and the events sent.
pub record Sys : Type 0 where
  pub agg : Aggregator
  pub closed : Bool
  pub pending : List Pending
  pub handled : List SectionKey
  pub evicted : List SectionKey
  pub events : List ReadyEvent

pub data Action : Type 0 where
  marks : Text → SectionKey → Action
  times_out : SectionKey → Action
  publishes : SectionKey → Reply → ℕ → Action
  evicts : SectionKey → Action
  closes : Action

abbrev add_pending : Option Pending → List Pending → List Pending
add_pending none ps = ps
add_pending (some p) ps = p ∷ ps

-- A publication of the key that is still to run, and the others.
unfoldable pub take_pending : SectionKey → List Pending → Option (Pending × List Pending)
take_pending k [] = none
take_pending k (p ∷ ps) =
    if p.key == k
    then some (p, ps)
    else elim (take_pending k ps) [ none ↦ none | some (q, qs) ↦ some (q, p ∷ qs) ]

-- An action that is not possible changes nothing: there is no publication to run, or the section
-- has no retention timer.
unfoldable pub act : Option Universe → Action → Sys → Sys
unfolding take_pending
act u (marks symbol k) s =
    let r = mark u symbol k s.agg in record s { agg = r.0; pending = add_pending r.1 s.pending }
act u (times_out k) s =
    let r = on_timeout k s.agg in record s { agg = r.0; pending = add_pending r.1 s.pending }
act u (publishes k reply opens) s = elim (take_pending k s.pending) [
  | none ↦ s
  | some (p, ps) ↦
      let r = publish s.closed reply opens p s.agg in
      record s { agg = r.0; pending = ps; handled = k ∷ s.handled; events = s.events ++ r.1 }
]
act u (evicts k) s =
    if (get_section k s.agg.sections).retained
    then record s { agg = evict k s.agg; evicted = k ∷ s.evicted }
    else s
act u closes s = record s { closed = true }

unfoldable pub run : Option Universe → List Action → Sys → Sys
run u [] s = s
run u (a ∷ rest) s = run u rest (act u a s)

unfoldable pub count_key : SectionKey → List SectionKey → ℕ
count_key k [] = 0
count_key k (j ∷ js) = let rest = count_key k js in if j == k then suc rest else rest

unfoldable pub count_pending : SectionKey → List Pending → ℕ
count_pending k [] = 0
count_pending k (p ∷ ps) = let rest = count_pending k ps in if p.key == k then suc rest else rest

-- A system at its start, with no section.
unfoldable pub start : Text → ℕ → List DerivedInterval → Sys
start base_interval base_ms derived = record {
  agg = record {
    base_interval = base_interval;
    base_ms = base_ms;
    derived = derived;
    sections = [];
  };
  closed = false;
  pending = [];
  handled = [];
  evicted = [];
  events = [];
}
