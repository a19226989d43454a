-- ===== src/WindowGate.antt =====
-- internal/windowgate/gate.go: the reference-counted gate that suppresses Redis window writes and
-- kline_ready events for the keys that a backfill is rebuilding. The mutex makes each method one
-- atomic step, so a method is a function on the gate. Prometheus counters are left out.
pub mod Counts
pub mod Intervals
pub mod Suppression
mod Tests
use chomo_syncer_go.Base.{
  ltb, leb, if◌then◌else◌, HasEq, ◌==◌, nat_eq, length, Text, text_beq, text_beq_iff, text_eq,
  to_upper, Map, lookup, insert, delete, ℕ, ◌+◌, ◌-◌, ◌≡◌, ◌↔◌, Bool, true, ◌&&◌, none, some, List,
  [], ◌∷◌, map, arith,
}

pub record Key : Type 0 where
  pub symbol : Text
  pub interval : Text

abbrev pub key_beq : Key → Key → Bool
key_beq a b = text_beq a.symbol b.symbol && text_beq a.interval b.interval

pub key_beq_iff : (a b : Key) → (key_beq a b ≡ true) ↔ (a ≡ b)
key_beq_iff a b = ground (arith, text_beq_iff a.symbol b.symbol, text_beq_iff a.interval b.interval)

instance abbrev pub key_eq : HasEq Key
key_eq = record { same = key_beq; same_iff = key_beq_iff }

-- Symbols are stored upper-cased.
unfoldable pub norm : Key → Key
norm k = record { symbol = to_upper k.symbol; interval = k.interval }

pub record Gate : Type 0 where
  pub keys : Map Key ℕ
  pub by_interv : Map Text ℕ

-- A missing key of a Go map of ints reads as 0.
unfoldable pub get_int {ℓ} : {K : Type ℓ} ⦃e : HasEq K⦄ → K → Map K ℕ → ℕ
get_int k m = elim (lookup k m) [ none ↦ 0 | some n ↦ n ]

unfoldable pub new : Gate
new = record { keys = []; by_interv = [] }

-- One round of the loop of `Hold`, on a normalised key.
unfoldable pub hold_key : Key → Gate → Gate
hold_key k g =
    let n = get_int k g.keys in
    record {
      keys = insert k (n + 1) g.keys;
      by_interv =
          if n == 0
          then insert k.interval (get_int k.interval g.by_interv + 1) g.by_interv
          else g.by_interv;
    }

unfoldable pub hold : List Key → Gate → Gate
unfolding hold_key norm
hold [] g = g
hold (raw ∷ ks) g = hold ks (hold_key (norm raw) g)

-- One round of the loop of `Release`.
unfoldable pub release_key : Key → Gate → Gate
release_key k g =
    let n = get_int k g.keys in
    let c = get_int k.interval g.by_interv in
    if leb n 0
    then g
    else if n == 1
    then record {
      keys = delete k g.keys;
      by_interv =
          if leb c 1 then delete k.interval g.by_interv else insert k.interval (c - 1) g.by_interv;
    }
    else record g { keys = insert k (n - 1) g.keys }

unfoldable pub release : List Key → Gate → Gate
unfolding release_key norm
release [] g = g
release (raw ∷ ks) g = release ks (release_key (norm raw) g)

unfoldable pub held_window : Gate → Text → Text → Bool
unfolding norm get_int
held_window g symbol interval =
    ltb 0 (get_int (norm (record { symbol = symbol; interval = interval })) g.keys)

unfoldable pub held_interval : Gate → Text → Bool
unfolding get_int
held_interval g interval = ltb 0 (get_int interval g.by_interv)

unfoldable pub held_count : Gate → ℕ
held_count g = length g.keys

-- `gatedWindow.PushBarAndTrim`: `inner` is the wrapped sink, `dropped` its result when the gate
-- returns nil without calling it.
unfoldable pub gated_push {ℓ κ} :
    {Bar : Type ℓ} {R : Type κ} → Gate → (Text → Text → Bar → R) → R → Text → Text → Bar → R
gated_push g inner dropped symbol interval bar =
    if held_window g symbol interval then dropped else inner symbol interval bar

-- `gatedReady.PublishKlineReady`: the event's interval decides; the result is an entry id, empty
-- when the event was suppressed.
unfoldable pub gated_publish {ℓ κ} :
    {Event : Type ℓ} {R : Type κ} → Gate → (Event → Text) → (Event → R) → R → Event → R
gated_publish g interval_of inner suppressed evt =
    if held_interval g (interval_of evt) then suppressed else inner evt
