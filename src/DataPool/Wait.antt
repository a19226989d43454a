-- ===== src/DataPool/Wait.antt =====
-- internal/openinterest/limiter.go: the loop of DataPool.Wait. Other callers change the pool and
-- the token bucket (golang.org/x/time/rate, a library) between its reads, so each iteration takes
-- what it sees from a `Round`; the list of rounds is any interleaving.
use chomo_syncer_go.Base.{
  ltb, if◌then◌else◌, nat_eq, length, text_eq, ℕ, ◌+◌, ◌-◌, ◌≤◌, ◌<◌, ◌≡◌, refl, Bool, true, not,
  ◌&&◌, List, [], ◌∷◌, ◌++◌, arith,
}
use chomo_syncer_go.DataPool.{Pool, prune, window_wait, oldest_wait, count_at, pause_remaining}

pub record Round : Type 0 where
  -- ctx.Err() at the top of the iteration
  pub ctx_err : Bool
  pub now : ℕ
  -- the pool as pauseRemaining and then windowWait read it
  pub at_pause : Pool
  pub at_window : Pool
  -- whether the iteration's sleep, if it has one, is cut short by ctx
  pub sleep_err : Bool
  -- the delay until the token is there
  pub delay : ℕ
  -- the clock after it, and the pool as pauseRemaining and then record read it
  pub after : ℕ
  pub at_recheck : Pool
  pub at_record : Pool

pub data Outcome : Type 0 where
  again interrupted admitted : Outcome

pub data Effect : Type 0 where
  reserve cancel counted : Effect

abbrev slept : Bool → Outcome
slept err = if err then interrupted else again

-- The iteration from the reservation on.
unfoldable pub take_token : Round → Outcome × List Effect
take_token r =
    if ltb 0 r.delay && r.sleep_err
    then (interrupted, reserve ∷ cancel ∷ [])
    else if ltb 0 (pause_remaining r.at_recheck r.after)
    then (again, reserve ∷ cancel ∷ [])
    else if not (count_at r.after r.at_record).0
    then (again, reserve ∷ cancel ∷ [])
    else (admitted, reserve ∷ counted ∷ [])

unfoldable pub wait_round : Round → Outcome × List Effect
unfolding take_token
wait_round r =
    if r.ctx_err
    then (interrupted, [])
    else if ltb 0 (pause_remaining r.at_pause r.now)
    then (slept r.sleep_err, [])
    else if ltb 0 (window_wait r.now r.at_window).0
    then (slept r.sleep_err, [])
    else take_token r

-- `Wait` over an interleaving; `again` if it is still waiting when the rounds end.
unfoldable pub wait : List Round → Outcome × List Effect
wait [] = (again, [])
wait (r ∷ rs) =
    let rest = wait rs in
    elim (wait_round r).0 [
      | again ↦ (rest.0, (wait_round r).1 ++ rest.1)
      | v ↦ (v, (wait_round r).1)
    ]

-- The reservations that effects make and do not cancel, and the requests they count in the window.
unfoldable pub reserved : ℕ → List Effect → ℕ
reserved n [] = n
reserved n (reserve ∷ es) = reserved (n + 1) es
reserved n (cancel ∷ es) = reserved (n - 1) es
reserved n (counted ∷ es) = reserved n es

unfoldable pub requests : ℕ → List Effect → ℕ
requests n [] = n
requests n (counted ∷ es) = requests (n + 1) es
requests n (reserve ∷ es) = requests n es
requests n (cancel ∷ es) = requests n es

abbrev pub admissions : Outcome → ℕ
admissions admitted = 1
admissions _ = 0

reserved-append :
    (n : ℕ) (es fs : List Effect) → reserved n (es ++ fs) ≡ reserved (reserved n es) fs
unfolding reserved
reserved-append n [] fs = refl
reserved-append n (reserve ∷ es) fs = reserved-append (n + 1) es fs
reserved-append n (cancel ∷ es) fs = reserved-append (n - 1) es fs
reserved-append n (counted ∷ es) fs = reserved-append n es fs

requests-append :
    (n : ℕ) (es fs : List Effect) → requests n (es ++ fs) ≡ requests (requests n es) fs
unfolding requests
requests-append n [] fs = refl
requests-append n (reserve ∷ es) fs = requests-append n es fs
requests-append n (cancel ∷ es) fs = requests-append n es fs
requests-append n (counted ∷ es) fs = requests-append (n + 1) es fs

reserved-wait_round :
    (n : ℕ) (r : Round) → reserved n (wait_round r).1 ≡ n + admissions (wait_round r).0
unfolding wait_round reserved
reserved-wait_round n r = ground arith

requests-wait_round :
    (n : ℕ) (r : Round) → requests n (wait_round r).1 ≡ n + admissions (wait_round r).0
unfolding wait_round requests
requests-wait_round n r = ground arith

-- Under any interleaving `Wait` leaves one reservation standing and counts one request exactly when
-- it admits; every error and every round of waiting cancels its reservation and counts nothing.
pub wait_settles :
    (n m : ℕ) (rs : List Round)
    → (reserved n (wait rs).1 ≡ n + admissions (wait rs).0)
      × (requests m (wait rs).1 ≡ m + admissions (wait rs).0)
unfolding wait reserved requests
wait_settles n m [] = (omega arith, omega arith)
wait_settles n m (r ∷ rs) =
    let h = wait_settles (reserved n (wait_round r).1) (requests m (wait_round r).1) rs in
    (
      ground (arith, h, reserved-wait_round n r, reserved-append n (wait_round r).1 (wait rs).1),
      ground (arith, h, requests-wait_round m r, requests-append m (wait_round r).1 (wait rs).1),
    )

length-prune : (window now : ℕ) (ts : List ℕ) → length (prune window now ts) ≤ length ts
unfolding prune
length-prune window now [] = omega arith
length-prune window now (t ∷ ts) = ground (arith, length-prune window now ts)

prune-oldest_wait :
    (window now : ℕ) (ts : List ℕ)
    → 0 < length ts
    → length (prune window (now + oldest_wait window now ts) ts) < length ts
unfolding prune
prune-oldest_wait window now [] h = absurd (omega arith)
prune-oldest_wait window now (t ∷ ts) h =
    ground (arith, length-prune window (now + oldest_wait window now (t ∷ ts)) ts)

-- The wait is long enough: in a pool with a positive cap that holds no more instants than the cap,
-- a caller that sleeps what `windowWait` returned is counted, unless others were in the meantime.
pub window_wait_enough :
    (now : ℕ) (p : Pool)
    → 0 < p.most
    → length p.times ≤ p.most
    → (count_at (now + (window_wait now p).0) (window_wait now p).1).0 ≡ true
unfolding window_wait count_at
window_wait_enough now p h l =
    let ts : List ℕ = prune p.window now p.times in
    ground (
      arith,
      length-prune p.window now p.times,
      length-prune p.window (now + 0) ts,
      prune-oldest_wait p.window now ts,
    )
