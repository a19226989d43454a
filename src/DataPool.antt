-- ===== src/DataPool.antt =====
-- internal/openinterest/limiter.go: the sliding window of requests to /futures/data. `times` holds
-- the instants of the counted requests, oldest first, in nanoseconds; each function below is one
-- critical section of the mutex.
pub mod Window
pub mod Wait
mod Tests
use chomo_syncer_go.Base.{
  ltb, leb, if◌then◌else◌, ◌==◌, nat_eq, length, text_eq, ℤ, or_default, millisecond, minute, ℕ,
  ◌+◌, ◌-◌, ◌*◌, Bool, true, false, not, List, [], ◌∷◌, ◌++◌, arith, pos, negsuc,
}

-- RPS and Burst are for golang.org/x/time/rate.
pub record Config : Type 0 where
  pub window_cap : ℤ
  pub window : ℤ

pub record Pool : Type 0 where
  pub window : ℕ
  pub most : ℕ
  -- 0 = not paused
  pub paused_ns : ℕ
  pub times : List ℕ

-- The part of `NewDataPool` that sets the window.
unfoldable pub new : Config → Pool
new c = record {
  window = or_default c.window (5 * minute);
  most = or_default c.window_cap 900;
  paused_ns = 0;
  times = [];
}

-- `prune`, with `now` for `cutoff + window`: the leading instants that are not after the cutoff go.
unfoldable pub prune : ℕ → ℕ → List ℕ → List ℕ
prune window now [] = []
prune window now (t ∷ ts) =
    let rest = prune window now ts in if leb (t + window) now then rest else t ∷ ts

abbrev at_least : ℕ → ℕ → ℕ
at_least low n = if ltb n low then low else n

-- The wait of a full window, by its oldest instant; an empty window is never full.
abbrev pub oldest_wait : ℕ → ℕ → List ℕ → ℕ
oldest_wait window now [] = millisecond
oldest_wait window now (t ∷ ts) = at_least millisecond (t + window - now)

-- `windowWait`: the wait, and the pool without the pruned instants.
unfoldable pub window_wait : ℕ → Pool → ℕ × Pool
unfolding prune
window_wait now p =
    let ts = prune p.window now p.times in
    (if ltb (length ts) p.most then 0 else oldest_wait p.window now ts, record p { times = ts })

-- `record`: whether the request is counted.
unfoldable pub count_at : ℕ → Pool → Bool × Pool
unfolding prune
count_at now p =
    let ts = prune p.window now p.times in
    if leb p.most (length ts)
    then (false, record p { times = ts })
    else (true, record p { times = ts ++ now ∷ [] })

-- `Used`
unfoldable pub used : ℕ → Pool → ℕ × Pool
unfolding prune
used now p = let ts = prune p.window now p.times in (length ts, record p { times = ts })

-- `PauseFor`, at the instant `now`; a shorter pause never shortens one in force.
unfoldable pub pause_for : ℤ → ℕ → Pool → Pool
pause_for (negsuc d) now p = p
pause_for (pos d) now p =
    if d == 0 then p else if leb (now + d) p.paused_ns then p else record p { paused_ns = now + d }

-- `pauseRemaining`, where a negative duration is 0: its callers test `> 0`.
unfoldable pub pause_remaining : Pool → ℕ → ℕ
pause_remaining p now = p.paused_ns - now
