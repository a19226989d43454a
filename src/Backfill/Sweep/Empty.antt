-- ===== src/Backfill/Sweep/Empty.antt =====
-- internal/backfill/sweep.go: ranges without bars are left alone until their time is over.
use chomo_syncer_go.Base.{
  ltb, Bool-cases, nat_eq, Text, text_eq, Map, beq_refl, lookup, insert, Distinct, lookup-insert,
  insert-Distinct, millisecond, ℕ, ◌+◌, ◌/◌, ◌≤◌, ◌≡◌, refl, ap, subst, ◌∙◌, inl, inr, false, none,
  some, [], ◌∷◌, arith,
}
use chomo_syncer_go.Backfill.Sweep.{
  EmptyKey, empty_key_eq, empty_key_beq, empty_key_beq_iff, is_unexpired, is_empty, mark_empty,
  prune_empty,
}

lookup-prune_empty :
    (k : EmptyKey) (t : ℕ) (m : Map EmptyKey ℕ)
    → Distinct m
    → (later : ℕ) → t ≤ later
    → is_unexpired later (lookup k (prune_empty t m)) ≡ is_unexpired later (lookup k m)
unfolding prune_empty lookup is_unexpired
lookup-prune_empty k t [] d later h = refl
lookup-prune_empty k t ((j, exp) ∷ m) d later h =
    let rest = lookup-prune_empty k t m d.1 later h in
    elim (Bool-cases (empty_key_beq j k)) [
      | inl y ↦
          let no_other : lookup k m ≡ none =
            subst (λ i. lookup i m ≡ none) ((empty_key_beq_iff j k).0 y) d.0 in
          let gone : is_unexpired later (lookup k m) ≡ false = ap (is_unexpired later) no_other in
          elim (Bool-cases (ltb t exp)) [
            | inl kept ↦ rw (kept, y) refl
            | inr pruned ↦ rw (pruned, y) (rest ∙ gone ∙ ground (arith, pruned, h))
          ]
      | inr n ↦ elim (Bool-cases (ltb t exp)) [
        | inl kept ↦ rw (kept, n) rest
        | inr pruned ↦ rw (pruned, n) rest
      ]
    ]

-- A range without bars is left alone exactly until its time is over: where the memory of the
-- sweeper holds no range twice, after a range is marked at `start` and the memory is pruned at any
-- time `t`, the range counts as empty at a time `later`, not before `t`, if and only if `later` is
-- before `start` plus the time to live.
pub is_empty-prune_empty :
    (ttl : ℕ) (symbol : Text) (from start t later : ℕ) (m : Map EmptyKey ℕ)
    → Distinct m
    → t ≤ later
    → is_empty symbol from later (prune_empty t (mark_empty ttl symbol from start m))
      ≡ ltb later (start + ttl)
unfolding is_empty mark_empty is_unexpired
is_empty-prune_empty ttl symbol from start t later m d h =
    let k : EmptyKey = record { sym = symbol; from = from / millisecond } in
    lookup-prune_empty k t (insert k (start + ttl) m) (insert-Distinct k (start + ttl) m d) later h
    ∙ ap (is_unexpired later) {y = some (start + ttl)}
        (rw (lookup-insert k k (start + ttl) m, beq_refl k) refl)
