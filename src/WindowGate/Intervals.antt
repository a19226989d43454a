-- ===== src/WindowGate/Intervals.antt =====
-- internal/windowgate/gate.go: the two maps of the gate agree after every Hold and Release.
use mathlib.Core.Logic.{∥∥₁_elim}
use mathlib.Core.Bool.{Bool-set}
use chomo_syncer_go.Base.{
  Bool-cases, Option-cases, ◌==◌, nat_eq, Text, text_beq_iff, text_eq, Map, beq_refl, lookup,
  Distinct, lookup-insert, lookup-delete, insert-Distinct, delete-Distinct, count_keys,
  count_keys-insert_new, count_keys-insert_old, count_keys-delete, count_keys_pos, ℕ, ◌+◌, ◌-◌, ◌<◌,
  ◌≡◌, refl, ◌↔◌, inl, inr, Bool, true, some, List, [], ◌∷◌, arith,
}
use chomo_syncer_go.WindowGate.{
  Key, key_eq, key_beq_iff, norm, Gate, get_int, new, hold_key, hold, release_key, release,
  held_interval,
}

abbrev pub of_interval : Text → Key → Bool
of_interval iv k = k.interval == iv

-- The invariant of the gate.
pub record Inv (g : Gate) : Type 0 where
  pub distinct : Distinct g.keys
  pub positive : (k : Key) (n : ℕ) → lookup k g.keys ≡ some n → 0 < n
  pub counted : (iv : Text) → get_int iv g.by_interv ≡ count_keys (of_interval iv) g.keys

pub new-Inv : Inv new
unfolding new get_int lookup count_keys
new-Inv = record { distinct = tt; positive = λ k n h. cc; counted = λ iv. refl }

hold_key-counted :
    (k : Key) (g : Gate) (iv : Text)
    → Inv g
    → get_int iv (hold_key k g).by_interv ≡ count_keys (of_interval iv) (hold_key k g).keys
unfolding hold_key get_int
hold_key-counted k g iv v = elim (Option-cases (lookup k g.keys)) [
  | inl e ↦ ground (
    arith,
    v.counted iv,
    v.counted k.interval,
    text_beq_iff k.interval iv,
    lookup-insert k.interval iv (get_int k.interval g.by_interv + 1) g.by_interv,
    count_keys-insert_new (of_interval iv) k (get_int k g.keys + 1) g.keys,
  )
  | inr (n, e) ↦ ground (
    arith,
    v.counted iv,
    v.positive k n e,
    count_keys-insert_old (of_interval iv) k (get_int k g.keys + 1) g.keys {w = n} e,
  )
]

hold_key-positive :
    (k j : Key) (n : ℕ) (g : Gate) → Inv g → lookup j (hold_key k g).keys ≡ some n → 0 < n
unfolding hold_key
hold_key-positive k j n g v h =
    ground (arith, v.positive j n, lookup-insert k j (get_int k g.keys + 1) g.keys)

pub hold_key-Inv : (k : Key) (g : Gate) → Inv g → Inv (hold_key k g)
unfolding hold_key
hold_key-Inv k g v = record {
  distinct = insert-Distinct k (get_int k g.keys + 1) g.keys v.distinct;
  positive = λ j n h. hold_key-positive k j n g v h;
  counted = λ iv. hold_key-counted k g iv v;
}

release_key-counted :
    (k : Key) (g : Gate) (iv : Text)
    → Inv g
    → get_int iv (release_key k g).by_interv ≡ count_keys (of_interval iv) (release_key k g).keys
unfolding release_key get_int
release_key-counted k g iv v = elim (Option-cases (lookup k g.keys)) [
  | inl e ↦ ground (arith, v.counted iv)
  | inr (n, e) ↦ ground (
    arith,
    v.counted iv,
    v.counted k.interval,
    text_beq_iff k.interval iv,
    beq_refl k.interval,
    lookup-insert k.interval iv (get_int k.interval g.by_interv - 1) g.by_interv,
    lookup-delete k.interval iv g.by_interv,
    count_keys-delete (of_interval iv) k g.keys {w = n} v.distinct e,
    count_keys-delete (of_interval k.interval) k g.keys {w = n} v.distinct e,
    count_keys-insert_old (of_interval iv) k (n - 1) g.keys {w = n} e,
  )
]

release_key-positive :
    (k j : Key) (n : ℕ) (g : Gate) → Inv g → lookup j (release_key k g).keys ≡ some n → 0 < n
unfolding release_key get_int
release_key-positive k j n g v h = ground (
  arith,
  v.positive j n,
  lookup-insert k j (get_int k g.keys - 1) g.keys,
  lookup-delete k j g.keys,
)

release_key-Distinct : (k : Key) (g : Gate) → Inv g → Distinct (release_key k g).keys
unfolding release_key
release_key-Distinct k g v = ground (
  arith,
  v.distinct,
  insert-Distinct k (get_int k g.keys - 1) g.keys v.distinct,
  delete-Distinct k g.keys v.distinct,
)

pub release_key-Inv : (k : Key) (g : Gate) → Inv g → Inv (release_key k g)
release_key-Inv k g v = record {
  distinct = release_key-Distinct k g v;
  positive = λ j n h. release_key-positive k j n g v h;
  counted = λ iv. release_key-counted k g iv v;
}

pub hold-Inv : (ks : List Key) (g : Gate) → Inv g → Inv (hold ks g)
unfolding hold
hold-Inv [] g v = v
hold-Inv (raw ∷ ks) g v = hold-Inv ks (hold_key (norm raw) g) (hold_key-Inv (norm raw) g v)

pub release-Inv : (ks : List Key) (g : Gate) → Inv g → Inv (release ks g)
unfolding release
release-Inv [] g v = v
release-Inv (raw ∷ ks) g v =
    release-Inv ks (release_key (norm raw) g) (release_key-Inv (norm raw) g v)

-- Any history of calls of the two methods.
pub data Call : Type 0 where
  holds releases : List Key → Call

unfoldable pub run : List Call → Gate → Gate
run [] g = g
run (holds ks ∷ cs) g = run cs (hold ks g)
run (releases ks ∷ cs) g = run cs (release ks g)

-- Along every history of Hold and Release the gate keeps its invariant: no key is stored twice,
-- every stored count is positive, and the interval map counts the stored keys of each interval.
pub run-Inv : (cs : List Call) (g : Gate) → Inv g → Inv (run cs g)
unfolding run
run-Inv [] g v = v
run-Inv (holds ks ∷ cs) g v = run-Inv cs (hold ks g) (hold-Inv ks g v)
run-Inv (releases ks ∷ cs) g v = run-Inv cs (release ks g) (release-Inv ks g v)

-- A key stands in the map with a test on it, where the count is positive.
count_keys-find :
    (p : Key → Bool) (m : Map Key ℕ)
    → Distinct m
    → 0 < count_keys p m
    → (k : Key) × (n : ℕ) × (lookup k m ≡ some n) × (p k ≡ true)
unfolding count_keys lookup
count_keys-find p [] d h = absurd (omega arith)
count_keys-find p ((k, n) ∷ m) d h = elim (Bool-cases (p k)) [
  | inl e ↦ (k, n, ground (arith, key_beq_iff k k), e)
  | inr e ↦
      let (j, i, found, q) = count_keys-find p m d.1 (ground arith) in
      (j, i, ground (arith, key_beq_iff k j), q)
]

held_interval-find :
    (g : Gate) (iv : Text)
    → Inv g
    → held_interval g iv ≡ true
    → (k : Key) × (0 < get_int k g.keys) × (k.interval ≡ iv)
unfolding held_interval get_int
held_interval-find g iv v h =
    let (k, n, found, q) =
      count_keys-find (of_interval iv) g.keys v.distinct (ground (arith, v.counted iv)) in
    (k, ground (arith, v.positive k n found), (text_beq_iff k.interval iv).0 q)

pub held_interval-of_key :
    (g : Gate) (k : Key) (iv : Text)
    → Inv g
    → 0 < get_int k g.keys
    → k.interval ≡ iv
    → held_interval g iv ≡ true
unfolding held_interval get_int
held_interval-of_key g k iv v h e = elim (Option-cases (lookup k g.keys)) [
  | inl a ↦ ground arith
  | inr (n, a) ↦ ground (
    arith,
    v.counted iv,
    text_beq_iff k.interval iv,
    count_keys_pos (of_interval iv) k g.keys {w = n} a,
  )
]

-- After any history from an empty gate, `HeldInterval` answers true for an interval exactly when
-- some stored key of that interval is held.
pub held_interval_iff :
    (cs : List Call) (iv : Text)
    → (held_interval (run cs new) iv ≡ true)
      ↔ ∥ ((k : Key) × (0 < get_int k (run cs new).keys) × (k.interval ≡ iv)) ∥₁
held_interval_iff cs iv = (
  λ h. ∣ held_interval-find (run cs new) iv (run-Inv cs new new-Inv) h ∣₁,
  λ t.
      ∥∥₁_elim t (Bool-set _ _)
        λ w. held_interval-of_key (run cs new) w.0 iv (run-Inv cs new new-Inv) w.1 w.2,
)
