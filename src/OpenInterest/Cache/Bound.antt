-- ===== src/OpenInterest/Cache/Bound.antt =====
-- internal/openinterest/livecache.go: the cache holds no more than it should.
use chomo_syncer_go.Base.{
  ltb, if◌then◌else◌, ltb_false→le, Bool-cases, ◌==◌, nat_eq, length, Text, text_eq, Map, lookup,
  insert, delete, Distinct, lookup-insert, insert-Distinct, delete-Distinct, delete_absent, ℤ, ℕ,
  zero, suc, ◌+◌, ◌≤◌, ◌≡◌, refl, sym, ap, subst, ◌∙◌, inl, inr, Bool, true, false, Option, none,
  some, List, [], ◌∷◌, arith,
}
use chomo_syncer_go.OpenInterest.Cache.{
  LiveCache, new_cache, oldest_of, trim, values_or_new, put_value, put,
}

abbrev there {ℓ} : {A : Type ℓ} → Option A → Bool
there none = false
there (some a) = true

module _ {V : Type 0} where
  lookup_head : (k : ℕ) (v : V) → lookup k ((k, v) ∷ []) ≡ some v
  unfolding lookup
  lookup_head k v = ground arith

  either-there :
      (b : Bool) (k j : ℕ) (v w : V) (m : Map ℕ V)
      → there (lookup (oldest_of k m) ((k, v) ∷ m)) ≡ true
      → there (lookup (oldest_of j m) ((j, w) ∷ m)) ≡ true
      → there (lookup (oldest_of (if b then j else k) m) ((k, v) ∷ (j, w) ∷ m)) ≡ true
  unfolding lookup
  either-there true k j v w m h g = ground (arith, g)
  either-there false k j v w m h g = ground (arith, h)

  -- The least start of a map is one of its starts.
  oldest_of-there :
      (k : ℕ) (v : V) (m : Map ℕ V) → there (lookup (oldest_of k m) ((k, v) ∷ m)) ≡ true
  unfolding oldest_of
  oldest_of-there k v [] = ap there (lookup_head k v)
  oldest_of-there k v ((j, w) ∷ m) =
      either-there (ltb j k) k j v w m (oldest_of-there k v m) (oldest_of-there j w m)

  length-delete :
      (k : ℕ) (m : Map ℕ V)
      → Distinct m
      → there (lookup k m) ≡ true
      → length (delete k m) + 1 ≡ length m
  unfolding delete lookup
  length-delete k [] d e = absurd (cc e)
  length-delete k ((j, x) ∷ m) (n, d) e = elim (Bool-cases (j == k)) [
    | inl y ↦ rw y (
        omega (
          arith,
          ap length (
              delete_absent k m
                (subst (λ (i : ℕ). lookup i m ≡ none) ((nat_eq.same_iff j k).0 y) n)),
        ))
    | inr f ↦ rw f (omega (arith, length-delete k m d (ground (arith, e, f))))
  ]

  trim_bound :
      (n keep : ℕ) (m : Map ℕ V)
      → Distinct m
      → length m ≤ n + keep
      → Distinct (trim n keep m) × (length (trim n keep m) ≤ keep)
  unfolding trim
  trim_bound zero keep m d h = (d, omega (arith, h))
  trim_bound (suc n) keep [] d h = (tt, omega arith)
  trim_bound (suc n) keep ((k, v) ∷ m) d h = elim (Bool-cases (ltb keep (length ((k, v) ∷ m)))) [
    | inl y ↦ rw y (
        trim_bound n keep (delete (oldest_of k m) ((k, v) ∷ m))
          (delete-Distinct (oldest_of k m) ((k, v) ∷ m) d)
          (omega (arith, h, length-delete (oldest_of k m) ((k, v) ∷ m) d (oldest_of-there k v m))))
    | inr f ↦ rw f (d, ltb_false→le _ _ f)
  ]

  -- The values of a symbol: one for each start, and no more than the cache keeps.
  abbrev pub Small : ℕ → Map ℕ V → Type 0
  Small keep m = Distinct m × (length m ≤ keep)

  put_value-Small :
      (keep start : ℕ) (v : V) (m : Map ℕ V) → Small keep m → Small keep (put_value keep start v m)
  unfolding put_value
  put_value-Small keep start v m (d, h) =
      trim_bound (length (insert start v m)) keep (insert start v m) (insert-Distinct start v m d)
        (omega arith)

  abbrev pub IsSmall : LiveCache V → Type 0
  IsSmall c = (symbol : Text) (m : Map ℕ V) → lookup symbol c.per ≡ some m → Small c.keep m

  values_or_new-Small :
      (keep : ℕ) (o : Option (Map ℕ V))
      → ((m : Map ℕ V) → o ≡ some m → Small keep m)
      → Small keep (values_or_new o)
  unfolding values_or_new
  values_or_new-Small keep none h = (tt, omega arith)
  values_or_new-Small keep (some m) h = h m refl

  if-Small :
      (keep : ℕ) (b : Bool) (new : Map ℕ V) (o : Option (Map ℕ V)) (m : Map ℕ V)
      → Small keep new
      → ((m : Map ℕ V) → o ≡ some m → Small keep m)
      → (if b then some new else o) ≡ some m
      → Small keep m
  if-Small keep true new o m small h e = subst (Small keep) (cc e) small
  if-Small keep false new o m small h e = h m e

  put-IsSmall :
      (symbol : Text) (start : ℕ) (v : V) (c : LiveCache V)
      → IsSmall c
      → IsSmall (put symbol start v c)
  unfolding put
  put-IsSmall symbol start v c small s m e =
      let values : Map ℕ V = put_value c.keep start v (values_or_new (lookup symbol c.per)) in
      if-Small c.keep (symbol == s) values (lookup s c.per) m
        (put_value-Small c.keep start v (values_or_new (lookup symbol c.per))
          (values_or_new-Small c.keep (lookup symbol c.per) (small symbol)))
        (small s) (sym (lookup-insert symbol s values c.per) ∙ e)

  abbrev pub puts : List (Text × ℕ × V) → LiveCache V → LiveCache V
  puts [] c = c
  puts ((symbol, start, v) ∷ rest) c = puts rest (put symbol start v c)

  -- The memory of the cache is bounded: after any puts into a new cache, no symbol has more values
  -- than it keeps, and none has two for one bar.
  pub puts-IsSmall :
      (keep : ℤ) (entries : List (Text × ℕ × V)) → IsSmall (puts entries (new_cache keep))
  unfolding new_cache lookup
  puts-IsSmall keep entries = puts_from entries _ (λ s m e. absurd (no_values s m e))
    where
      puts_from : (es : List (Text × ℕ × V)) (c : LiveCache V) → IsSmall c → IsSmall (puts es c)
      puts_from [] c small = small
      puts_from ((symbol, start, v) ∷ rest) c small =
          puts_from rest (put symbol start v c) (put-IsSmall symbol start v c small)

      no_values : (s : Text) (m : Map ℕ V) → lookup s [] ≡ some m → ⊥
      no_values s m e = cc e
