-- ===== src/Backfill/Requests/Holds.antt =====
-- The window gate as the backfiller uses it: an interface, and internal/windowgate behind the
-- adapter of internal/app/app.go.
use chomo_syncer_go.Base.{
  ltb, if◌then◌else◌, ◌==◌, nat_eq, text_eq, ℕ, ◌+◌, ◌-◌, ◌≡◌, refl, Bool, [], ◌∷◌, arith,
}
use chomo_syncer_go.Backfill.{Key, key_eq, fold_key}
use chomo_syncer_go.WindowGate
use chomo_syncer_go.WindowGate.{Gate, get_int, norm, held_window}
use chomo_syncer_go.WindowGate.Counts.{refs, occurs, refs-hold, refs-release}

-- What `Hold` and `Release` promise: a key has a count, which a hold of it raises by one and a
-- release lowers by one, down to 0, and it is held while its count is not 0.
pub record Holds (G : Type 0) : Type 0 where
  pub hold : Key → G → G
  pub release : Key → G → G
  pub is_held : G → Key → Bool
  pub count : G → Key → ℕ
  pub count-hold :
      (k j : Key) (g : G) → count (hold k g) j ≡ count g j + (if fold_key k == j then 1 else 0)
  pub count-release :
      (k j : Key) (g : G) → count (release k g) j ≡ count g j - (if fold_key k == j then 1 else 0)
  pub is_held_iff : (g : G) (k : Key) → is_held g k ≡ ltb 0 (count g (fold_key k))

-- `gateAdapter`
unfoldable pub gate_key : Key → WindowGate.Key
gate_key k = record { symbol = k.symbol; interval = k.interval }

unfoldable pub hold : Key → Gate → Gate
unfolding WindowGate.hold gate_key
hold k g = WindowGate.hold (gate_key k ∷ []) g

unfoldable pub release : Key → Gate → Gate
unfolding WindowGate.release gate_key
release k g = WindowGate.release (gate_key k ∷ []) g

occurs_one :
    (k j : Key) → occurs (gate_key j) (gate_key k ∷ []) ≡ (if fold_key k == j then 1 else 0)
unfolding occurs gate_key norm fold_key
occurs_one k j = refl

pub count-hold_one :
    (k j : Key) (g : Gate)
    → refs (hold k g) (gate_key j) ≡ refs g (gate_key j) + (if fold_key k == j then 1 else 0)
unfolding hold
count-hold_one k j g = omega (arith, refs-hold (gate_key k ∷ []) (gate_key j) g, occurs_one k j)

pub count-release_one :
    (k j : Key) (g : Gate)
    → refs (release k g) (gate_key j) ≡ refs g (gate_key j) - (if fold_key k == j then 1 else 0)
unfolding release
count-release_one k j g =
    omega (arith, refs-release (gate_key k ∷ []) (gate_key j) g, occurs_one k j)

pub is_held_iff_count :
    (g : Gate) (k : Key)
    → held_window g k.symbol k.interval ≡ ltb 0 (refs g (gate_key (fold_key k)))
unfolding held_window gate_key norm fold_key
is_held_iff_count g k = refl

-- The window gate keeps the promise.
abbrev pub window_holds : Holds Gate
window_holds = record {
  hold = hold;
  release = release;
  is_held = λ g k. held_window g k.symbol k.interval;
  count = λ g k. refs g (gate_key k);
  count-hold = count-hold_one;
  count-release = count-release_one;
  is_held_iff = is_held_iff_count;
}
