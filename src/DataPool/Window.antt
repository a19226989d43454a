-- ===== src/DataPool/Window.antt =====
-- internal/openinterest/limiter.go: no more requests than the cap in any window.
use chomo_syncer_go.Base.{
  leb, if◌then◌else◌, leb→le, Bool-cases, if-elim, ◌==◌, nat_eq, All, length, text_eq, ℤ, ℕ, zero,
  suc, ◌+◌, ◌-◌, ◌≤◌, ◌<◌, ◌≡◌, refl, sym, ap, subst, ◌∙◌, inl, inr, Option, none, some, List, [],
  ◌∷◌, ◌++◌, arith, pos, negsuc,
}
use chomo_syncer_go.DataPool.{Pool, Config, new, prune, window_wait, count_at, used, pause_for}

-- The element at a position.
unfoldable pub get_elem? : ℕ → List ℕ → Option ℕ
get_elem? n [] = none
get_elem? zero (x ∷ xs) = some x
get_elem? (suc n) (x ∷ xs) = get_elem? n xs

-- In a list of instants, newest first: of any `most + 1` consecutive ones, the newest is at least
-- `window` after the oldest.
abbrev pub IsSpaced : ℕ → ℕ → List ℕ → Type 0
IsSpaced window most [] = Unit {0}
IsSpaced window most (t ∷ ts) =
    ((u : ℕ) → get_elem? (most - 1) ts ≡ some u → u + window ≤ t) × IsSpaced window most ts

-- The instants, newest first, in front of older ones.
unfoldable pub newest_first : List ℕ → List ℕ → List ℕ
newest_first [] old = old
newest_first (t ∷ ts) old = newest_first ts (t ∷ old)

newest_first-snoc :
    (t : ℕ) (ts old : List ℕ) → newest_first (ts ++ t ∷ []) old ≡ t ∷ newest_first ts old
unfolding newest_first
newest_first-snoc t [] old = refl
newest_first-snoc t (u ∷ ts) old = newest_first-snoc t ts (u ∷ old)

get_elem-newest_first :
    (m n : ℕ) (ts old : List ℕ)
    → length ts + n ≡ m
    → get_elem? m (newest_first ts old) ≡ get_elem? n old
unfolding newest_first get_elem?
get_elem-newest_first m n [] old e = ap (λ i. get_elem? i old) (omega (arith, e))
get_elem-newest_first m n (t ∷ ts) old e =
    get_elem-newest_first m (suc n) ts (t ∷ old) (omega (arith, e))

All-get_elem :
    (window now n u : ℕ) (ts : List ℕ)
    → All (λ t. t + window ≤ now) ts
    → get_elem? n ts ≡ some u
    → u + window ≤ now
unfolding get_elem?
All-get_elem window now n u [] a h = cc
All-get_elem window now zero u (t ∷ ts) (l, a) h = ground (arith, l)
All-get_elem window now (suc n) u (t ∷ ts) (l, a) h = All-get_elem window now n u ts a h

All-later :
    (window clock now : ℕ) (ts : List ℕ)
    → clock ≤ now
    → All (λ t. t + window ≤ clock) ts
    → All (λ t. t + window ≤ now) ts
All-later window clock now [] h a = tt
All-later window clock now (t ∷ ts) h (l, a) = (omega arith, All-later window clock now ts h a)

-- The operations of callers, each at its instant.
pub data Op : Type 0 where
  waits counts uses : ℕ → Op
  pauses : ℤ → ℕ → Op

abbrev pub instant : Op → ℕ
instant (waits now) = now
instant (counts now) = now
instant (uses now) = now
instant (pauses d now) = now

-- The pool, and the instants of all requests that it counted, newest first.
unfoldable pub apply : Op → Pool × List ℕ → Pool × List ℕ
apply (waits now) (p, log) = ((window_wait now p).1, log)
apply (counts now) (p, log) = let r = count_at now p in (r.1, if r.0 then now ∷ log else log)
apply (uses now) (p, log) = ((used now p).1, log)
apply (pauses d now) (p, log) = (pause_for d now p, log)

unfoldable pub run : List Op → Pool × List ℕ → Pool × List ℕ
run [] s = s
run (op ∷ ops) s = run ops (apply op s)

-- The clock does not run backwards from one operation to the next.
abbrev pub IsForward : ℕ → List Op → Type 0
IsForward clock [] = Unit {0}
IsForward clock (op ∷ ops) = (clock ≤ instant op) × IsForward (instant op) ops

-- The instants of the pool are the newest of the log, and the others are out of the window.
abbrev IsSplit : ℕ → ℕ → List ℕ → List ℕ → Type 0
IsSplit window now ts log =
    (old : List ℕ) × All (λ t. t + window ≤ now) old × (log ≡ newest_first ts old)

prune-IsSplit :
    (window now : ℕ) (ts log : List ℕ)
    → IsSplit window now ts log
    → IsSplit window now (prune window now ts) log
unfolding prune newest_first
prune-IsSplit window now [] log s = s
prune-IsSplit window now (t ∷ ts) log (old, a, e) = elim (Bool-cases (leb (t + window) now)) [
  | inl out ↦ rw out (prune-IsSplit window now ts log (t ∷ old, (leb→le _ _ out, a), e))
  | inr new ↦ rw new (old, a, e)
]

count-IsSpaced :
    (window most now : ℕ) (ts log : List ℕ)
    → length ts < most
    → IsSplit window now ts log
    → IsSpaced window most log
    → IsSpaced window most (now ∷ log)
count-IsSpaced window most now ts log h (old, a, e) s = (
  λ u g. All-get_elem window now (most - 1 - length ts) u old a (
      sym (get_elem-newest_first (most - 1) (most - 1 - length ts) ts old (omega arith))
      ∙ ap (get_elem? (most - 1)) (sym e)
      ∙ g),
  s,
)

abbrev Inv : ℕ → ℕ → ℕ → Pool × List ℕ → Type 0
Inv window most clock (p, log) =
    (p.window ≡ window)
    × (p.most ≡ most)
    × IsSplit window clock p.times log
    × IsSpaced window most log

pruned :
    (window most clock now : ℕ) (p : Pool) (log : List ℕ)
    → clock ≤ now
    → Inv window most clock (p, log)
    → IsSplit window now (prune p.window now p.times) log
pruned window most clock now p log h (w, m, (old, a, e), s) =
    subst (λ x. IsSplit window now (prune x now p.times) log) (sym w)
      (prune-IsSplit window now p.times log (old, All-later window clock now old h a, e))

apply-Inv :
    (window most clock : ℕ) (op : Op) (p : Pool) (log : List ℕ)
    → clock ≤ instant op
    → Inv window most clock (p, log)
    → Inv window most (instant op) (apply op (p, log))
unfolding apply window_wait count_at used pause_for
apply-Inv window most clock (waits now) p log h (w, m, i, s) =
    (w, m, pruned window most clock now p log h (w, m, i, s), s)
apply-Inv window most clock (uses now) p log h (w, m, i, s) =
    (w, m, pruned window most clock now p log h (w, m, i, s), s)
apply-Inv window most clock (pauses (negsuc d) now) p log h (w, m, (old, a, e), s) =
    (w, m, (old, All-later window clock now old h a, e), s)
apply-Inv window most clock (pauses (pos d) now) p log h (w, m, (old, a, e), s) =
    let v : Inv window most now (p, log) =
      (w, m, (old, All-later window clock now old h a, e), s) in
    if-elim (λ (q : Pool). Inv window most now (q, log)) (d == 0) v
      (if-elim (λ (q : Pool). Inv window most now (q, log)) (leb (now + d) p.paused_ns) v v)
apply-Inv window most clock (counts now) p log h (w, m, i, s) =
    let ts : List ℕ = prune p.window now p.times in
    let (old, a, e) = pruned window most clock now p log h (w, m, i, s) in
    elim (Bool-cases (leb p.most (length ts))) [
      | inl full ↦ rw full (w, m, (old, a, e), s)
      | inr room ↦
          let short : length ts < most = ground (arith, m, room) in
          rw room (
            w,
            m,
            (old, a, ap (◌∷◌ now) e ∙ sym (newest_first-snoc now ts old)),
            count-IsSpaced window most now ts log short (old, a, e) s,
          )
    ]

run-Inv :
    (window most clock : ℕ) (ops : List Op) (p : Pool) (log : List ℕ)
    → IsForward clock ops
    → Inv window most clock (p, log)
    → IsSpaced window most (run ops (p, log)).1
unfolding run
run-Inv window most clock [] p log f (w, m, i, s) = s
run-Inv window most clock (op ∷ ops) p log (l, f) v =
    run-Inv window most (instant op) ops _ _ f (apply-Inv window most clock op p log l v)

-- Whatever callers do with a new pool, on a clock that does not run backwards from one operation to
-- the next: of any `WindowCap + 1` consecutive requests that it counts, the last is at least
-- `Window` after the first.
pub run-IsSpaced :
    (c : Config) (ops : List Op)
    → IsForward 0 ops
    → IsSpaced (new c).window (new c).most (run ops (new c, [])).1
unfolding new newest_first
run-IsSpaced c ops f =
    run-Inv (new c).window (new c).most 0 ops (new c) [] f (refl, refl, ([], tt, refl), tt)
