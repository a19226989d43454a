-- ===== src/BatchWriter/Retry.antt =====
-- internal/chwriter/writer.go: flushWithRetry.
use chomo_syncer_go.Base.{
  if-elim, nat_eq, All, length, text_eq, ℕ, zero, suc, ◌+◌, ◌/◌, ◌≤◌, ◌<◌, ◌≡◌, refl, subst, false,
  not, List, arith,
}
use native.Mathlib.Nat.{mod-lt}
use chomo_syncer_go.BatchWriter.{
  Config, ResolvedConfig, resolve, Attempt, stored, Flushed, flush_loop, flush_with_retry,
  next_backoff, sleep_time,
}

flush_loop-calls :
    (attempts : ℕ → Attempt) (top backoff n left : ℕ)
    → let f = flush_loop attempts top backoff n left in
      (f.calls ≡ length f.waits + 1) × (f.calls ≤ left + 1)
unfolding flush_loop
flush_loop-calls attempts top backoff n zero = (omega arith, omega arith)
flush_loop-calls attempts top backoff n (suc left) =
    let h = flush_loop-calls attempts top (next_backoff top backoff) (suc n) left in
    (ground (arith, h), ground (arith, h))

-- An attempt that the loop goes on from if its flush fails.
abbrev pub GoesOn : Attempt → Type 0
GoesOn a = (a.ctx_err ≡ false) × (a.sleep_err ≡ false)

flush_loop-stored :
    (attempts : ℕ → Attempt) (top backoff n left k : ℕ)
    → k ≤ left
    → (attempts (n + k)).flush_err ≡ false
    → ((j : ℕ) → j < k → GoesOn (attempts (n + j)))
    → (flush_loop attempts top backoff n left).result ≡ stored
unfolding flush_loop
flush_loop-stored attempts top backoff n zero zero l e g =
    let here : n + 0 ≡ n = omega arith in
    let good : (attempts n).flush_err ≡ false =
      subst (λ i. (attempts i).flush_err ≡ false) here e in
    rw good refl
flush_loop-stored attempts top backoff n zero (suc k) l e g = absurd (omega arith)
flush_loop-stored attempts top backoff n (suc left) zero l e g =
    let here : n + 0 ≡ n = omega arith in
    let good : (attempts n).flush_err ≡ false =
      subst (λ i. (attempts i).flush_err ≡ false) here e in
    rw good refl
flush_loop-stored attempts top backoff n (suc left) (suc k) l e g =
    let here : n + 0 ≡ n = omega arith in
    let goes : GoesOn (attempts n) = subst (λ i. GoesOn (attempts i)) here (g 0 (omega arith)) in
    let rest : (flush_loop attempts top (next_backoff top backoff) (suc n) left).result ≡ stored =
      flush_loop-stored attempts top (next_backoff top backoff) (suc n) left k (omega arith)
        (subst (λ i. (attempts i).flush_err ≡ false) (shift k) e)
        (λ j h. subst (λ i. GoesOn (attempts i)) (shift j) (g (suc j) (omega arith))) in
    ground (arith, goes, rest)
  where
    shift : (j : ℕ) → n + suc j ≡ suc n + j
    shift j = omega arith

-- Each backoff slept is at least the initial one and at most the largest with its jitter.
abbrev pub Waits : ℕ → ℕ → List ℕ → Type 0
Waits low top = All (λ s. (low ≤ s) × (s ≤ top + top / 2))

jitter_bounds :
    (low top backoff random : ℕ)
    → low ≤ backoff
    → backoff ≤ top
    → (low ≤ sleep_time backoff random) × (sleep_time backoff random ≤ top + top / 2)
jitter_bounds low top backoff random l u =
    (omega arith, omega (arith, mod-lt random {m = backoff / 2 + 1} (omega arith)))

flush_loop-waits :
    (attempts : ℕ → Attempt) (low top backoff n left : ℕ)
    → low ≤ backoff
    → backoff ≤ top
    → Waits low top (flush_loop attempts top backoff n left).waits
unfolding flush_loop
flush_loop-waits attempts low top backoff n zero l u = tt
flush_loop-waits attempts low top backoff n (suc left) l u =
    let rest : Waits low top
        (flush_loop attempts top (next_backoff top backoff) (suc n) left).waits =
      flush_loop-waits attempts low top (next_backoff top backoff) (suc n) left (ground arith)
        (ground arith) in
    if-elim (λ (f : Flushed). Waits low top f.waits) (not (attempts n).flush_err) tt
      (if-elim (λ (f : Flushed). Waits low top f.waits) (attempts n).ctx_err tt
        (if-elim (λ (f : Flushed). Waits low top f.waits) (attempts n).sleep_err tt
          (jitter_bounds low top backoff (attempts n).random l u, rest)))

resolve-backoff : (c : Config) → (resolve c).backoff ≤ (resolve c).max_backoff
unfolding resolve
resolve-backoff c = ground arith

-- With resolved settings, flushWithRetry calls Flush at least once and at most one time more often
-- than MaxRetries, and sleeps between each two calls, at least the initial backoff and at most one
-- and a half times the largest.
pub flush_with_retry-bounds :
    (c : Config) (attempts : ℕ → Attempt)
    → let f = flush_with_retry (resolve c) attempts in
      (f.calls ≡ length f.waits + 1)
      × (f.calls ≤ (resolve c).retries + 1)
      × Waits (resolve c).backoff (resolve c).max_backoff f.waits
unfolding flush_with_retry
flush_with_retry-bounds c attempts =
    let (n, m) =
      flush_loop-calls attempts (resolve c).max_backoff (resolve c).backoff 0 (resolve c).retries in
    (
      n,
      m,
      flush_loop-waits attempts (resolve c).backoff (resolve c).max_backoff (resolve c).backoff 0
          (resolve c).retries (omega arith) (resolve-backoff c),
    )

-- A batch is stored if an attempt within the retries succeeds and the context has not ended after
-- an earlier attempt or in its backoff.
pub flush_with_retry_stores :
    (cfg : ResolvedConfig) (attempts : ℕ → Attempt) (k : ℕ)
    → k ≤ cfg.retries
    → (attempts k).flush_err ≡ false
    → ((j : ℕ) → j < k → GoesOn (attempts j))
    → (flush_with_retry cfg attempts).result ≡ stored
unfolding flush_with_retry
flush_with_retry_stores cfg attempts k l e g =
    flush_loop-stored attempts cfg.max_backoff cfg.backoff 0 cfg.retries k l
      (subst (λ i. (attempts i).flush_err ≡ false) (zero_left k) e)
      (λ j h. subst (λ i. GoesOn (attempts i)) (zero_left j) (g j h))
  where
    zero_left : (j : ℕ) → j ≡ 0 + j
    zero_left j = omega arith
