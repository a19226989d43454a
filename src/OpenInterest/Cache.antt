-- ===== src/OpenInterest/Cache.antt =====
-- internal/openinterest/livecache.go: the last live values of each symbol. A Go map is an
-- association list; a start is nanoseconds where the code has Unix seconds, which tells bars apart
-- as well.
pub mod Bound
mod Tests
use chomo_syncer_go.Base.{
  ltb, if◌then◌else◌, nat_eq, length, Text, text_eq, Map, lookup, insert, delete, ℤ, or_default, ℕ,
  zero, suc, Option, none, some, [], ◌∷◌, map, arith,
}

pub record LiveCache (V : Type 0) : Type 0 where
  pub keep : ℕ
  pub per : Map Text (Map ℕ V)

module _ {V : Type 0} where
  -- `newLiveCache`
  unfoldable pub new_cache : ℤ → LiveCache V
  unfolding or_default
  new_cache keep = record { keep = or_default keep 24; per = [] }

  unfoldable pub oldest_of : ℕ → Map ℕ V → ℕ
  oldest_of oldest [] = oldest
  oldest_of oldest ((k, v) ∷ m) = oldest_of (if ltb k oldest then k else oldest) m

  -- The loop that drops the oldest; a round removes one of the entries that are too many.
  unfoldable pub trim : ℕ → ℕ → Map ℕ V → Map ℕ V
  unfolding oldest_of
  trim zero keep m = m
  trim (suc n) keep [] = []
  trim (suc n) keep ((k, v) ∷ m) =
      let rest = trim n keep (delete (oldest_of k m) ((k, v) ∷ m)) in
      if ltb keep (length ((k, v) ∷ m)) then rest else (k, v) ∷ m

  values_or_new : Option (Map ℕ V) → Map ℕ V
  values_or_new none = []
  values_or_new (some m) = m

  unfoldable pub put_value : ℕ → ℕ → V → Map ℕ V → Map ℕ V
  unfolding trim
  put_value keep start v m = trim (length (insert start v m)) keep (insert start v m)

  -- `put`
  unfoldable pub put : Text → ℕ → V → LiveCache V → LiveCache V
  unfolding put_value values_or_new
  put symbol start v c = record c {
    per = insert symbol (put_value c.keep start v (values_or_new (lookup symbol c.per))) c.per;
  }

  value_in : ℕ → Option (Map ℕ V) → Option V
  value_in start none = none
  value_in start (some m) = lookup start m

  -- `get`
  unfoldable pub get : Text → ℕ → LiveCache V → Option V
  unfolding value_in
  get symbol start c = value_in start (lookup symbol c.per)
