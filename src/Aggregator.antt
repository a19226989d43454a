-- ===== src/Aggregator.antt =====
-- internal/dispatcher/aggregator.go: which universe symbols have reported a closed bar of a
-- section, and the kline_ready events. Each function below that changes the state is one critical
-- section of the mutex. A publication is split in two: the critical section that decides on it, and
-- `publish`, which runs later and outside the lock. Timers are the environment's: it may call
-- `on_timeout` at any moment (a stopped timer may have fired already), and `evict` once the
-- retention timer is set.
pub mod Completion
pub mod Static
pub mod Once
pub mod Steps
pub mod Derived
mod Tests
use chomo_syncer_go.Base.{
  ltb, leb, nat_beq, if◌then◌else◌, HasEq, ◌==◌, nat_eq, length, Text, text_beq, text_beq_iff,
  text_eq, Map, lookup, insert, delete, add_elem, second, ℕ, zero, suc, ◌+◌, ◌-◌, ◌%◌, ◌≡◌, ◌↔◌,
  Bool, true, false, not, ◌&&◌, Option, none, some, List, [], ◌∷◌, arith,
}

pub record SectionKey : Type 0 where
  pub interval : Text
  pub open_time : ℕ

abbrev pub section_key_beq : SectionKey → SectionKey → Bool
section_key_beq a b = text_beq a.interval b.interval && nat_beq a.open_time b.open_time

pub section_key_beq_iff : (a b : SectionKey) → (section_key_beq a b ≡ true) ↔ (a ≡ b)
section_key_beq_iff a b = ground (arith, text_beq_iff a.interval b.interval)

instance abbrev pub section_key_eq : HasEq SectionKey
section_key_eq = record { same = section_key_beq; same_iff = section_key_beq_iff }

-- A derived interval and its length in milliseconds.
pub record DerivedInterval : Type 0 where
  pub name : Text
  pub ms : ℕ

-- `retained` says that the section's timer is the retention timer.
pub record SectionState : Type 0 where
  pub symbols : List Text
  pub published : Bool
  pub retained : Bool

pub record Aggregator : Type 0 where
  pub base_interval : Text
  pub base_ms : ℕ
  pub derived : List DerivedInterval
  pub sections : Map SectionKey SectionState

-- `UniverseProvider`
pub record Universe : Type 0 where
  pub size : ℕ
  pub has : Text → Bool

abbrev pub fresh_section : SectionState
fresh_section = record { symbols = []; published = false; retained = false }

abbrev pub get_section : SectionKey → Map SectionKey SectionState → SectionState
get_section k m = elim (lookup k m) [ none ↦ fresh_section | some st ↦ st ]

-- Whether a symbol is counted, and how many are wanted; with no universe every symbol counts and
-- nothing is ever complete.
abbrev pub counts : Option Universe → Text → Bool
counts none symbol = true
counts (some u) symbol = u.has symbol

abbrev pub wanted : Option Universe → ℕ
wanted none = 0
wanted (some u) = u.size

pub data Reason : Type 0 where
  complete timeout : Reason

-- A publication that was decided on and is still to run.
pub record Pending : Type 0 where
  pub key : SectionKey
  pub n : ℕ
  pub reason : Reason

abbrev with_section : Aggregator → SectionKey → SectionState → Aggregator
with_section a k st = record a { sections = insert k st a.sections }

-- The critical section of `mark` from the counting on, for a section that is not published.
mark_section :
    Option Universe → Text → SectionKey → SectionState → Aggregator → Aggregator × Option Pending
unfolding add_elem
mark_section u symbol k st a =
    let symbols' = add_elem symbol st.symbols in
    let n = length symbols' in
    if ltb 0 (wanted u) && leb (wanted u) n
    then (
      with_section a k (record { symbols = symbols'; published = true; retained = st.retained }),
      some (record { key = k; n = n; reason = complete }),
    )
    else (
      with_section a k (record { symbols = symbols'; published = false; retained = st.retained }),
      none,
    )

-- `mark`
unfoldable pub mark : Option Universe → Text → SectionKey → Aggregator → Aggregator × Option Pending
unfolding mark_section
mark u symbol k a =
    let st = get_section k a.sections in
    if counts u symbol
    then if st.published then (a, none) else mark_section u symbol k st a
    else (a, none)

-- `onTimeout`
unfoldable pub on_timeout : SectionKey → Aggregator → Aggregator × Option Pending
on_timeout k a = elim (lookup k a.sections) [
  | none ↦ (a, none)
  | some st ↦ if st.published then (a, none) else (
    with_section a k (record st { published = true }),
    some (record { key = k; n = length st.symbols; reason = timeout }),
  )
]

-- `evict`
unfoldable pub evict : SectionKey → Aggregator → Aggregator
evict k a = record a { sections = delete k a.sections }

-- `rediswin.KlineReadyEvent`
pub record ReadyEvent : Type 0 where
  pub interval : Text
  pub timestamp : ℕ
  pub symbols_count : ℕ

-- What `PublishKlineReady` answers: an error, an empty id (the window gate suppressed the event) or
-- the id of the stream entry.
pub data Reply : Type 0 where
  failed suppressed delivered : Reply

-- One event of the cascade; nothing more is sent once a check finds the dispatcher closed. `opens`
-- is the number of checks before that.
abbrev send_while_open : ℕ → ReadyEvent → (ℕ → List ReadyEvent) → List ReadyEvent
send_while_open zero e rest = []
send_while_open (suc opens) e rest = e ∷ rest opens

-- `publishDerived`: the events it sends, in order. A reply changes only metrics and logs.
unfoldable pub publish_derived : List DerivedInterval → ℕ → ℕ → ℕ → ℕ → List ReadyEvent
publish_derived [] base_ms t count opens = []
publish_derived (di ∷ ds) base_ms t count opens =
    let rest = publish_derived ds base_ms t count in
    if (t + base_ms) % di.ms == 0
    then send_while_open opens
        (record { interval = di.name; timestamp = t + base_ms - di.ms; symbols_count = count }) rest
    else rest opens

abbrev is_delivered : Reply → Bool
is_delivered delivered = true
is_delivered _ = false

-- The events of one publication: its own, and after a delivery of the base interval the derived.
unfoldable pub publish_events : Aggregator → Pending → Reply → ℕ → List ReadyEvent
publish_events a p r opens =
    record { interval = p.key.interval; timestamp = p.key.open_time; symbols_count = p.n }
    ∷ (if is_delivered r && p.key.interval == a.base_interval
        then publish_derived a.derived a.base_ms p.key.open_time p.n opens
        else [])

-- The second critical section of `publish`: the retention timer is set.
unfoldable pub retain : SectionKey → Aggregator → Aggregator
retain k a = elim (lookup k a.sections) [
  | none ↦ a
  | some st ↦ with_section a k (record st { retained = true })
]

-- `publish`: nothing at all once the dispatcher is closed.
unfoldable pub publish : Bool → Reply → ℕ → Pending → Aggregator → Aggregator × List ReadyEvent
unfolding retain publish_events
publish closed r opens p a =
    if closed then (a, []) else (retain p.key a, publish_events a p r opens)
