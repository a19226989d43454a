-- ===== src/WindowGate/Counts.antt =====
-- internal/windowgate/gate.go: the reference counts of Hold and Release, against a count of holds.
use chomo_syncer_go.Base.{
  if◌then◌else◌, ◌==◌, nat_eq, text_eq, lookup-insert, lookup-delete, ℕ, suc, ◌+◌, ◌-◌, ◌≡◌, List,
  [], ◌∷◌, arith,
}
use chomo_syncer_go.WindowGate.{
  Key, key_eq, key_beq_iff, norm, Gate, get_int, hold_key, hold, release_key, release,
}

-- What a client sees of the gate: how many holds each normalised key has.
abbrev pub refs : Gate → Key → ℕ
refs g k = get_int k g.keys

-- How often a key is named, after normalisation.
unfoldable pub occurs : Key → List Key → ℕ
occurs k [] = 0
occurs k (raw ∷ ks) = let rest = occurs k ks in if norm raw == k then suc rest else rest

refs-hold_key :
    (k j : Key) (g : Gate) → refs (hold_key k g) j ≡ refs g j + (if k == j then 1 else 0)
unfolding hold_key get_int
refs-hold_key k j g =
    ground (arith, key_beq_iff k j, lookup-insert k j (get_int k g.keys + 1) g.keys)

refs-release_key :
    (k j : Key) (g : Gate) → refs (release_key k g) j ≡ refs g j - (if k == j then 1 else 0)
unfolding release_key get_int
refs-release_key k j g = ground (
  arith,
  key_beq_iff k j,
  lookup-insert k j (get_int k g.keys - 1) g.keys,
  lookup-delete k j g.keys,
)

-- `Hold` adds to each key the number of times it is named, and touches no other key.
pub refs-hold : (ks : List Key) (j : Key) (g : Gate) → refs (hold ks g) j ≡ refs g j + occurs j ks
unfolding hold occurs
refs-hold [] j g = omega arith
refs-hold (raw ∷ ks) j g =
    ground (arith, refs-hold ks j (hold_key (norm raw) g), refs-hold_key (norm raw) j g)

-- `Release` takes off each key the number of times it is named, down to 0, and touches no other.
pub refs-release :
    (ks : List Key) (j : Key) (g : Gate) → refs (release ks g) j ≡ refs g j - occurs j ks
unfolding release occurs
refs-release [] j g = omega arith
refs-release (raw ∷ ks) j g =
    ground (arith, refs-release ks j (release_key (norm raw) g), refs-release_key (norm raw) j g)

-- Two callers that hold and release the same or overlapping keys compose: after both have held and
-- the first has released, exactly the second's holds are added, for every key.
pub release-hold_overlap :
    (ks ls : List Key) (j : Key) (g : Gate)
    → refs (release ks (hold ls (hold ks g))) j ≡ refs g j + occurs j ls
release-hold_overlap ks ls j g =
    omega
      (arith, refs-release ks j (hold ls (hold ks g)), refs-hold ls j (hold ks g), refs-hold ks j g)
