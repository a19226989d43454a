-- ===== src/RedisWin/Live.antt =====
-- internal/rediswin/livebar_writer.go: the writer of live bars. Callers and workers take their
-- steps in any order; a caller passes the check of `closed` and then sends on the channel. Sonic's
-- encoding of a bar is a parameter, and a write is the pipeline that is handed to Redis, whatever
-- Redis answers.
pub mod Writes
pub mod Drain
mod Tests
use chomo_syncer_go.Base.{
  ltb, if◌then◌else◌, nat_eq, length, take, Text, codes, text_eq, to_upper, without, pick, ℤ,
  or_default, wrap64, millisecond, second, ℕ, zero, suc, ◌+◌, ◌-◌, ◌*◌, ◌%◌, ◌^◌, Bool, true, false,
  Option, none, some, List, [], ◌∷◌, ◌++◌, arith, pos, negsuc,
}
use chomo_syncer_go.Bars.{LiveBar}
use chomo_syncer_go.Interval.{parse_interval_atoi}

pub record LiveBarConfig : Type 0 where
  pub key_prefix : Text
  pub workers : ℤ
  pub channel_size : ℤ
  pub write_timeout : ℤ
  pub ttl_multiple : ℤ
  pub default_ttl : ℤ
  pub publish : Bool
  pub channel_prefix : Text

pub record ResolvedLiveConfig : Type 0 where
  pub key_prefix : Text
  pub workers : ℕ
  pub channel_size : ℕ
  pub write_timeout : ℕ
  pub ttl_multiple : ℕ
  pub default_ttl : ℕ
  pub publish : Bool
  pub channel_prefix : Text

unfoldable pub or_prefix : Text → Text → Text
or_prefix [] def = def
or_prefix (c ∷ cs) def = c ∷ cs

unfoldable pub resolve : LiveBarConfig → ResolvedLiveConfig
unfolding or_default or_prefix
resolve c =
    let prefix = or_prefix c.key_prefix (codes "livebar") in
    record {
      key_prefix = prefix;
      workers = or_default c.workers 2;
      channel_size = or_default c.channel_size 8192;
      write_timeout = or_default c.write_timeout (200 * millisecond);
      ttl_multiple = or_default c.ttl_multiple 2;
      default_ttl = or_default c.default_ttl (7200 * second);
      publish = c.publish;
      channel_prefix = or_prefix c.channel_prefix prefix;
    }

unfoldable pub live_key : ResolvedLiveConfig → Text → Text → Text
live_key cfg symbol interval =
    cfg.key_prefix ++ (codes ":" ++ (to_upper symbol ++ (codes ":" ++ interval)))

-- `liveJob`; the hash fields are those of the bar.
pub record LiveJob (F : Type 0) : Type 0 where
  pub job_key : Text
  pub interval : Text
  pub bar : LiveBar F
  pub payload : Option Text

pub data LiveError : Type 0 where
  is_closed buffer_full not_encoded : LiveError

unfoldable pub job_of :
    {F : Type 0} → ResolvedLiveConfig → Text → Text → LiveBar F → Option Text → LiveJob F
unfolding live_key
job_of cfg symbol interval bar payload = record {
  job_key = live_key cfg symbol interval;
  interval = interval;
  bar = bar;
  payload = payload;
}

-- `newJob`
unfoldable pub new_job :
    {F : Type 0}
    → (LiveBar F → Option Text)
    → ResolvedLiveConfig
    → Text
    → Text
    → LiveBar F
    → Option (LiveJob F)
unfolding job_of
new_job marshal cfg symbol interval bar =
    let published : Option (LiveJob _) = elim (marshal bar) [
      | none ↦ none
      | some p ↦ some (job_of cfg symbol interval bar (some p))
    ] in
    if cfg.publish then published else some (job_of cfg symbol interval bar none)

-- `time.Duration(n) * d`, as an int64
unfoldable pub times : ℕ → ℤ → ℤ
unfolding wrap64
times m (pos n) = wrap64 (m * n)
times m (negsuc n) = wrap64 (2 ^ 64 - m * (n + 1) % 2 ^ 64)

-- `ttlFor`
unfoldable pub ttl_for : ResolvedLiveConfig → Text → ℤ
unfolding times
ttl_for cfg interval = elim (parse_interval_atoi interval) [
  | none ↦ pos cfg.default_ttl
  | some d ↦ times cfg.ttl_multiple d
]

-- What `write` hands to Redis in one pipeline.
pub data Command (F : Type 0) : Type 0 where
  hset : Text → LiveBar F → Command F
  pexpire : Text → ℤ → Command F
  publishes : Text → Text → Command F

unfoldable pub publish_command : {F : Type 0} → Text → Option Text → List (Command F)
publish_command channel none = []
publish_command channel (some p) = publishes channel p ∷ []

-- `write`
unfoldable pub pipeline : {F : Type 0} → ResolvedLiveConfig → LiveJob F → List (Command F)
unfolding ttl_for publish_command
pipeline cfg j =
    hset j.job_key j.bar
    ∷ pexpire j.job_key (ttl_for cfg j.interval)
    ∷ publish_command (cfg.channel_prefix ++ (codes "." ++ j.interval)) j.payload

-- A worker at its select, in `drain`, or gone.
pub data Worker : Type 0 where
  working draining gone : Worker

pub record LiveWriter (F : Type 0) : Type 0 where
  pub cfg : ResolvedLiveConfig
  pub closed : Bool
  pub stopped : Bool
  -- the jobs of callers past their check of `closed` and before their send
  pub entered : List (LiveJob F)
  pub input : List (LiveJob F)
  pub workers : List Worker
  -- the jobs that `write` was called for, and those whose send succeeded, in order
  pub written : List (LiveJob F)
  pub accepted : List (LiveJob F)

start_workers : ℕ → List Worker
start_workers zero = []
start_workers (suc n) = working ∷ start_workers n

module _ {F : Type 0} where
  -- `NewLiveBarWriter`
  unfoldable pub new : ResolvedLiveConfig → LiveWriter F
  unfolding start_workers
  new cfg = record {
    cfg = cfg;
    closed = false;
    stopped = false;
    entered = [];
    input = [];
    workers = start_workers cfg.workers;
    written = [];
    accepted = [];
  }

  unfoldable pub enter_job : Option (LiveJob F) → LiveWriter F → LiveWriter F × Option LiveError
  enter_job none w = (w, some not_encoded)
  enter_job (some job) w = (record w { entered = job ∷ w.entered }, none)

  -- The head of `TryEnqueue` and `Enqueue`.
  unfoldable pub enter :
      (LiveBar F → Option Text)
      → Text
      → Text
      → LiveBar F
      → LiveWriter F
      → LiveWriter F × Option LiveError
  unfolding new_job enter_job
  enter marshal symbol interval bar w =
      if w.closed
      then (w, some is_closed)
      else enter_job (new_job marshal w.cfg symbol interval bar) w

  unfoldable pub accept : LiveJob F → List (LiveJob F) → LiveWriter F → LiveWriter F
  accept job others w = record w {
    entered = others;
    input = w.input ++ job ∷ [];
    accepted = w.accepted ++ job ∷ [];
  }

  -- The selects of `TryEnqueue` and of `Enqueue`: without room the one drops the job, the other
  -- waits.
  unfoldable pub try_enqueue :
      LiveJob F → List (LiveJob F) → LiveWriter F → LiveWriter F × Option LiveError
  unfolding accept
  try_enqueue job others w =
      if ltb (length w.input) w.cfg.channel_size
      then (accept job others w, none)
      else (record w { entered = others }, some buffer_full)

  unfoldable pub enqueue : LiveJob F → List (LiveJob F) → LiveWriter F → LiveWriter F
  unfolding accept
  enqueue job others w = if ltb (length w.input) w.cfg.channel_size then accept job others w else w

  -- A receive of a worker, which writes the job.
  unfoldable pub take_job : Worker → List Worker → List (LiveJob F) → LiveWriter F → LiveWriter F
  take_job working others [] w = w
  take_job draining others [] w = record w { workers = gone ∷ others }
  take_job gone others [] w = w
  take_job gone others (job ∷ rest) w = w
  take_job working others (job ∷ rest) w = record w {
    workers = working ∷ others;
    input = rest;
    written = w.written ++ job ∷ [];
  }
  take_job draining others (job ∷ rest) w = record w {
    workers = draining ∷ others;
    input = rest;
    written = w.written ++ job ∷ [];
  }

  -- The cases `<-ctx.Done()`, and `<-w.stopCh` once it is closed.
  unfoldable pub cancel : Worker → List Worker → LiveWriter F → LiveWriter F
  cancel working others w = record w { workers = draining ∷ others; closed = true }
  cancel _ others w = w

  unfoldable pub see_stop : Worker → List Worker → LiveWriter F → LiveWriter F
  see_stop working others w = if w.stopped then record w { workers = draining ∷ others } else w
  see_stop _ others w = w

  -- `Close`, up to its wait for the workers
  unfoldable pub close : LiveWriter F → LiveWriter F
  close w = record w { closed = true; stopped = true }

pub data Action (F : Type 0) : Type 0 where
  enters : Text → Text → LiveBar F → Action F
  try_enqueues enqueues leaves : ℕ → Action F
  takes cancels sees_stop : ℕ → Action F
  closes : Action F

abbrev picked {ℓ} : {A : Type ℓ} {B : Type 0} → Option (A × List A) → B → (A → List A → B) → B
picked none b f = b
picked (some (x, others)) b f = f x others

module _ {F : Type 0} (marshal : LiveBar F → Option Text) where
  unfoldable pub act : Action F → LiveWriter F → LiveWriter F
  unfolding pick enter try_enqueue enqueue take_job cancel see_stop close
  act (enters symbol interval bar) w = (enter marshal symbol interval bar w).0
  act (try_enqueues n) w = picked (pick n w.entered) w (λ job others. (try_enqueue job others w).0)
  act (enqueues n) w = picked (pick n w.entered) w (λ job others. enqueue job others w)
  act (leaves n) w = picked (pick n w.entered) w (λ job others. record w { entered = others })
  act (takes n) w = picked (pick n w.workers) w (λ k others. take_job k others w.input w)
  act (cancels n) w = picked (pick n w.workers) w (λ k others. cancel k others w)
  act (sees_stop n) w = picked (pick n w.workers) w (λ k others. see_stop k others w)
  act closes w = close w

  unfoldable pub run : List (Action F) → LiveWriter F → LiveWriter F
  run [] w = w
  run (a ∷ rest) w = run rest (act a w)
