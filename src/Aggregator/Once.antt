-- ===== src/Aggregator/Once.antt =====
-- internal/dispatcher/aggregator.go: a section is published once for each time it is opened.
use chomo_syncer_go.Base.{
  if◌then◌else◌, Option-cases, ◌==◌, nat_eq, Text, text_eq, lookup, lookup-insert, lookup-delete,
  add_elem, ℕ, ◌+◌, ◌≤◌, ◌<◌, ◌≡◌, inl, inr, true, false, Option, some, List, [], ◌∷◌, arith,
}
use chomo_syncer_go.Aggregator.{
  SectionKey, section_key_eq, section_key_beq_iff, Universe, Pending, Reply, get_section, mark,
  on_timeout, evict, publish, DerivedInterval,
}
use chomo_syncer_go.Aggregator.Steps.{
  Sys, Action, marks, times_out, publishes, evicts, closes, take_pending, act, run, count_key,
  count_pending, start,
}

-- What holds of each key: at most one publication is under way, and then its section is published
-- and has no retention timer; a retention timer stands on a published section; and the
-- publications of the key, under way and run, are as many as its evictions and one more while it is
-- published.
pub record InvAt (s : Sys) (j : SectionKey) : Type 0 where
  pub at_most_one : count_pending j s.pending ≤ 1
  pub under_way : 0 < count_pending j s.pending → (get_section j s.agg.sections).published ≡ true
  pub not_retained : 0 < count_pending j s.pending → (get_section j s.agg.sections).retained ≡ false
  pub retained :
      (get_section j s.agg.sections).retained ≡ true
      → (get_section j s.agg.sections).published ≡ true
  pub balance :
      count_pending j s.pending + count_key j s.handled
      ≡ count_key j s.evicted + (if (get_section j s.agg.sections).published then 1 else 0)

act_marks-InvAt :
    (u : Option Universe) (symbol : Text) (k j : SectionKey) (s : Sys)
    → InvAt s j
    → InvAt (act u (marks symbol k) s) j
unfolding act mark count_pending
act_marks-InvAt u symbol k j s v = ground (
  arith,
  section_key_beq_iff k j,
  lookup-insert k j
      (record {
        symbols = add_elem symbol (get_section k s.agg.sections).symbols;
        published = true;
        retained = (get_section k s.agg.sections).retained;
      })
      s.agg.sections,
  lookup-insert k j
      (record {
        symbols = add_elem symbol (get_section k s.agg.sections).symbols;
        published = false;
        retained = (get_section k s.agg.sections).retained;
      })
      s.agg.sections,
)

act_times_out-InvAt :
    (u : Option Universe) (k j : SectionKey) (s : Sys) → InvAt s j → InvAt (act u (times_out k) s) j
unfolding act on_timeout count_pending
act_times_out-InvAt u k j s v = ground (
  arith,
  section_key_beq_iff k j,
  lookup-insert k j (record (get_section k s.agg.sections) { published = true }) s.agg.sections,
)

take_pending-count :
    (k j : SectionKey) (ps : List Pending) (p : Pending) (qs : List Pending)
    → take_pending k ps ≡ some (p, qs)
    → (p.key ≡ k) × (count_pending j ps ≡ count_pending j qs + (if k == j then 1 else 0))
unfolding take_pending count_pending
take_pending-count k j [] p qs h = cc
take_pending-count k j (q ∷ ps) p qs h = elim (Option-cases (take_pending k ps)) [
  | inl e ↦
      ground
        (arith, section_key_beq_iff q.key k, section_key_beq_iff q.key j, section_key_beq_iff k j)
  | inr ((r, rs), e) ↦ ground (
    arith,
    section_key_beq_iff q.key k,
    section_key_beq_iff q.key j,
    section_key_beq_iff k j,
    take_pending-count k j ps r rs e,
  )
]

act_publishes-InvAt :
    (u : Option Universe) (k j : SectionKey) (r : Reply) (opens : ℕ) (s : Sys)
    → InvAt s j
    → InvAt (act u (publishes k r opens) s) j
unfolding act publish count_key
act_publishes-InvAt u k j r opens s v = elim (Option-cases (take_pending k s.pending)) [
  | inl e ↦ rw (e, act) v
  | inr ((p, ps), e) ↦
      rw (e, act)
        (ground (
          arith,
          section_key_beq_iff k j,
          take_pending-count k j s.pending p ps e,
          lookup-insert k j (record (get_section k s.agg.sections) { retained = true })
              s.agg.sections,
        ))
]

act_evicts-InvAt :
    (u : Option Universe) (k j : SectionKey) (s : Sys) → InvAt s j → InvAt (act u (evicts k) s) j
unfolding act evict count_key
act_evicts-InvAt u k j s v =
    ground (arith, section_key_beq_iff k j, lookup-delete k j s.agg.sections)

act-InvAt :
    (u : Option Universe) (a : Action) (j : SectionKey) (s : Sys) → InvAt s j → InvAt (act u a s) j
unfolding act
act-InvAt u (marks symbol k) j s v = act_marks-InvAt u symbol k j s v
act-InvAt u (times_out k) j s v = act_times_out-InvAt u k j s v
act-InvAt u (publishes k r opens) j s v = act_publishes-InvAt u k j r opens s v
act-InvAt u (evicts k) j s v = act_evicts-InvAt u k j s v
act-InvAt u closes j s v = record {
  at_most_one = v.at_most_one;
  under_way = v.under_way;
  not_retained = v.not_retained;
  retained = v.retained;
  balance = v.balance;
}

run-InvAt :
    (u : Option Universe) (acts : List Action) (j : SectionKey) (s : Sys)
    → InvAt s j
    → InvAt (run u acts s) j
unfolding run
run-InvAt u [] j s v = v
run-InvAt u (a ∷ acts) j s v = run-InvAt u acts j (act u a s) (act-InvAt u a j s v)

start-InvAt :
    (base_interval : Text) (base_ms : ℕ) (ds : List DerivedInterval) (j : SectionKey)
    → InvAt (start base_interval base_ms ds) j
unfolding start count_pending count_key lookup
start-InvAt base_interval base_ms ds j = ground arith

-- One publication for each opening of a section: under every interleaving of marks, timeouts,
-- publications, evictions and the shutdown, the publications of a key that have run or are under
-- way are as many as the key's evictions, and one more while its section is published. A section
-- that is not published, or was never opened, adds none.
pub run_balance :
    (u : Option Universe) (base_interval : Text) (base_ms : ℕ) (ds : List DerivedInterval)
    (acts : List Action) (j : SectionKey)
    → let s = run u acts (start base_interval base_ms ds) in
      count_pending j s.pending + count_key j s.handled
      ≡ count_key j s.evicted + (if (get_section j s.agg.sections).published then 1 else 0)
run_balance u base_interval base_ms ds acts j =
    (run-InvAt u acts j _ (start-InvAt base_interval base_ms ds j)).balance
