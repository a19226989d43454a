-- ===== src/Base/Dict.antt =====
-- Go maps as association lists. A lookup takes the first entry, `insert` overwrites in place or
-- adds at the end, `delete` removes every entry of the key.
use Prim.Native.Nat.{ℕ, suc, ◌+◌, ◌<◌}
use mathlib.Core.Path.{◌≡◌, refl}
use mathlib.Core.Bool.{Bool, true}
use mathlib.Core.Option.{Option, none, some}
use mathlib.Core.List.{List, [], ◌∷◌}
use native.Mathlib.Omega.{arith}
use chomo_syncer_go.Base.Tests.{if◌then◌else◌, HasEq, ◌==◌}

abbrev pub Map {ℓ κ} : Type ℓ → Type κ → Type (ℓ ⊔ κ)
Map K V = List (K × V)

pub beq_refl {ℓ} : {K : Type ℓ} ⦃e : HasEq K⦄ (k : K) → (k == k) ≡ true
beq_refl ⦃e⦄ k = (e.same_iff k k).1 refl

module _ {ℓ κ} {K : Type ℓ} {V : Type κ} ⦃e : HasEq K⦄ where
  unfoldable pub lookup : K → Map K V → Option V
  lookup k [] = none
  lookup k ((i, w) ∷ rest) = if i == k then some w else lookup k rest

  unfoldable pub insert : K → V → Map K V → Map K V
  insert k v [] = (k, v) ∷ []
  insert k v ((i, w) ∷ rest) = if i == k then (k, v) ∷ rest else (i, w) ∷ insert k v rest

  unfoldable pub delete : K → Map K V → Map K V
  delete k [] = []
  delete k ((j, w) ∷ m) = let rest = delete k m in if j == k then rest else (j, w) ∷ rest

  -- No key has two entries, as in a Go map.
  abbrev pub Distinct : Map K V → Type κ
  Distinct [] = Unit
  Distinct ((k, v) ∷ m) = (lookup k m ≡ none) × Distinct m

  pub lookup-insert :
      (put got : K) (v : V) (m : Map K V)
      → lookup got (insert put v m) ≡ (if put == got then some v else lookup got m)
  unfolding lookup insert
  lookup-insert put got v [] = refl
  lookup-insert put got v ((i, w) ∷ m) =
      ground
        (arith, e.same_iff put got, e.same_iff i put, e.same_iff i got, lookup-insert put got v m)

  pub lookup-delete :
      (k j : K) (m : Map K V) → lookup j (delete k m) ≡ (if k == j then none else lookup j m)
  unfolding lookup delete
  lookup-delete k j [] = ground arith
  lookup-delete k j ((i, w) ∷ m) =
      ground (arith, e.same_iff k j, e.same_iff i k, e.same_iff i j, lookup-delete k j m)

  pub insert-Distinct : (k : K) (v : V) (m : Map K V) → Distinct m → Distinct (insert k v m)
  unfolding lookup insert
  insert-Distinct k v [] h = ground arith
  insert-Distinct k v ((i, w) ∷ m) h =
      ground
        (arith, e.same_iff i k, e.same_iff k i, insert-Distinct k v m h.1, lookup-insert k i v m)

  pub delete-Distinct : (k : K) (m : Map K V) → Distinct m → Distinct (delete k m)
  unfolding lookup delete
  delete-Distinct k [] h = tt
  delete-Distinct k ((i, w) ∷ m) h =
      ground (arith, e.same_iff i k, e.same_iff k i, delete-Distinct k m h.1, lookup-delete k i m)

  pub delete_absent : (k : K) (m : Map K V) → lookup k m ≡ none → delete k m ≡ m
  unfolding lookup delete
  delete_absent k [] h = refl
  delete_absent k ((i, w) ∷ m) h = ground (arith, delete_absent k m)

  -- How many entries have a key that meets a test.
  unfoldable pub count_keys : (K → Bool) → Map K V → ℕ
  count_keys p [] = 0
  count_keys p ((k, v) ∷ m) = let rest = count_keys p m in if p k then suc rest else rest

  pub count_keys-insert_new :
      (p : K → Bool) (k : K) (v : V) (m : Map K V)
      → lookup k m ≡ none
      → count_keys p (insert k v m) ≡ count_keys p m + (if p k then 1 else 0)
  unfolding lookup insert count_keys
  count_keys-insert_new p k v [] h = ground arith
  count_keys-insert_new p k v ((i, w) ∷ m) h = ground (arith, count_keys-insert_new p k v m)

  pub count_keys-insert_old :
      (p : K → Bool) (k : K) (v : V) (m : Map K V) {w : V}
      → lookup k m ≡ some w
      → count_keys p (insert k v m) ≡ count_keys p m
  unfolding lookup insert count_keys
  count_keys-insert_old p k v [] h = ground arith
  count_keys-insert_old p k v ((i, u) ∷ m) {w} h =
      ground (arith, e.same_iff i k, count_keys-insert_old p k v m {w = w})

  pub count_keys-delete :
      (p : K → Bool) (k : K) (m : Map K V) {w : V}
      → Distinct m
      → lookup k m ≡ some w
      → count_keys p (delete k m) + (if p k then 1 else 0) ≡ count_keys p m
  unfolding lookup delete count_keys
  count_keys-delete p k [] d h = ground arith
  count_keys-delete p k ((i, u) ∷ m) {w} d h =
      ground (arith, e.same_iff i k, count_keys-delete p k m {w = w} d.1, delete_absent k m)

  pub count_keys_pos :
      (p : K → Bool) (k : K) (m : Map K V) {w : V}
      → lookup k m ≡ some w
      → p k ≡ true
      → 0 < count_keys p m
  unfolding lookup count_keys
  count_keys_pos p k [] h q = ground arith
  count_keys_pos p k ((i, u) ∷ m) {w} h q =
      ground (arith, e.same_iff i k, count_keys_pos p k m {w = w})
