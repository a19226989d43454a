-- ===== src/Backfill/Requests.antt =====
-- internal/backfill/backfill.go: requests from Submit to the release of their keys. Each goroutine
-- in Submit and the runner take their steps in any order; a step ends where another goroutine can
-- come between: at the mutex, at a call of the gate, at the queue.
pub mod Settings
pub mod Holds
pub mod Rule
pub mod Reach
pub mod Balance
pub mod Marks
pub mod Answers
mod Tests
use chomo_syncer_go.Base.{
  ltb, if◌then◌else◌, HasEq, ◌==◌, nat_eq, length, take, Text, text_eq, Map, lookup, insert,
  contains, add_elem, without, pick, ℕ, zero, ◌+◌, ◌-◌, ◌≡◌, ◌↔◌, Bool, true, false, not, ◌&&◌,
  ◌||◌, Option, none, some, List, [], ◌∷◌, ◌++◌, map, arith,
}
use chomo_syncer_go.Backfill.{Key, key_beq, key_beq_iff, key_eq, fold_key, gap_keys}
use chomo_syncer_go.Backfill.Requests.Settings.{ResolvedConfig}

pub data Reason : Type 0 where
  cold_start shard_reconnect universe_add reconcile sweep : Reason

abbrev is_cold : Reason → Bool
is_cold cold_start = true
is_cold _ = false

-- A range of bar open times, the end not included.
pub record Range : Type 0 where
  pub from : ℕ
  pub to : ℕ

pub record RangeOutcome : Type 0 where
  pub key : Key
  pub range : Range
  pub fetched : ℕ
  pub failed : Bool

pub record RepairResult : Type 0 where
  pub outcomes : List RangeOutcome
  pub skipped_keys : ℕ

-- A channel of results and the size of its buffer; who waits for it reads it after the run.
pub record Channel : Type 0 where
  pub id : ℕ
  pub size : ℕ

abbrev pub channel_beq : Channel → Channel → Bool
channel_beq a b = (a.id == b.id) && (a.size == b.size)

pub channel_beq_iff : (a b : Channel) → (channel_beq a b ≡ true) ↔ (a ≡ b)
channel_beq_iff a b = ground (arith, nat_eq.same_iff a.id b.id, nat_eq.same_iff a.size b.size)

instance abbrev pub channel_eq : HasEq Channel
channel_eq = record { same = channel_beq; same_iff = channel_beq_iff }

-- How many answers stand in a channel.
unfoldable pub answered : Channel → List (Channel × RepairResult) → ℕ
answered c [] = 0
answered c ((d, res) ∷ rest) = (if d == c then 1 else 0) + answered c rest

-- A time is `none` if it is zero. `result` is the channel of the answer.
pub record Request : Type 0 where
  pub keys : List Key
  pub since : Option ℕ
  pub until : Option ℕ
  pub reason : Reason
  pub ranges : Option (Map Key (List Range))
  pub result : Option Channel
  pub skipped : ℕ

-- A call of `Submit`: past its check of `closed`; in the loop of `Hold`, with the fresh keys that
-- are held and those that are not yet; at the full queue; in the loop of `Release`, with the keys
-- left.
pub data Caller : Type 0 where
  entered : Request → Caller
  holding : Request → List Key → List Key → Caller
  refused : Request → Caller
  freeing : Request → List Key → Caller

-- The goroutine `run`: at its select, in `process`, at the end of it and in its releases; `drained`
-- and `releasing true` are those of `drainRelease`.
pub data Runner : Type 0 where
  idle draining gone : Runner
  serving served drained : Request → Runner
  releasing : Bool → Request → List Key → Runner

pub record Backfiller (G : Type 0) : Type 0 where
  pub cfg : ResolvedConfig
  pub closed : Bool
  pub cold_start_submitted : Bool
  pub cold_start_done : Bool
  pub inflight : List Key
  pub gap_seen : Map Text ℕ
  pub gate : G
  pub callers : List Caller
  pub queue : List Request
  pub runner : Runner
  -- what was sent on the channels of results, and the requests given to `Submit`, the last first
  pub answers : List (Channel × RepairResult)
  pub received : List Request

unfoldable pub new : {G : Type 0} → ResolvedConfig → G → Backfiller G
new cfg g = record {
  cfg = cfg;
  closed = false;
  cold_start_submitted = false;
  cold_start_done = false;
  inflight = [];
  gap_seen = [];
  gate = g;
  callers = [];
  queue = [];
  runner = idle;
  answers = [];
  received = [];
}

-- The locked loop of `Submit`: the fresh keys, and `inflight` with them.
unfoldable pub mark_keys : List Key → List Key → List Key × List Key
mark_keys [] inflight = ([], inflight)
mark_keys (k ∷ ks) inflight =
    let nk = fold_key k in
    let rest = mark_keys ks inflight in
    let more = mark_keys ks (add_elem nk inflight) in
    if length nk.symbol == 0 || length nk.interval == 0
    then rest
    else if contains inflight nk
    then rest
    else (nk ∷ more.0, more.1)

-- The locked loop of `releaseKeys`.
unfoldable pub unmark_keys : List Key → List Key → List Key
unmark_keys [] inflight = inflight
unmark_keys (k ∷ ks) inflight = unmark_keys ks (without k inflight)

-- `nr`: the range map with its keys upper-cased.
unfoldable pub fold_ranges : Map Key (List Range) → Map Key (List Range)
fold_ranges [] = []
fold_ranges ((k, rs) ∷ m) = insert (fold_key k) rs (fold_ranges m)

abbrev pub is_given : Option (Map Key (List Range)) → Bool
is_given none = false
is_given (some m) = true

-- `req.Ranges != nil`
abbrev pub repairs : Request → Bool
repairs req = is_given req.ranges

-- The select of `deliver`: where the buffer of the channel is full, the answer is dropped.
unfoldable pub sent :
    Option Channel → RepairResult → List (Channel × RepairResult) → List (Channel × RepairResult)
unfolding answered
sent none res answers = answers
sent (some c) res answers = if ltb (answered c answers) c.size then (c, res) ∷ answers else answers

unfoldable fold_option : Option (Map Key (List Range)) → Option (Map Key (List Range))
unfolding fold_ranges
fold_option none = none
fold_option (some m) = some (fold_ranges m)

-- Whether the last gap of a shard is within the debounce.
unfoldable is_recent : ℕ → ℕ → Option ℕ → Bool
is_recent now debounce none = false
is_recent now debounce (some last) = ltb now (last + debounce)

unfoldable pub cold_request : List Key → Request
cold_request keys = record {
  keys = keys;
  since = none;
  until = none;
  reason = cold_start;
  ranges = none;
  result = none;
  skipped = 0;
}

unfoldable pub gap_request : List Key → Option ℕ → Option ℕ → ℕ → Request
gap_request keys last_msg_at reconnect_at now = record {
  keys = keys;
  since = last_msg_at;
  until = elim reconnect_at [ none ↦ some now | some t ↦ some t ];
  reason = shard_reconnect;
  ranges = none;
  result = none;
  skipped = 0;
}

module _ {G : Type 0} where
  -- `deliver`
  unfoldable pub deliver : Option Channel → RepairResult → Backfiller G → Backfiller G
  deliver c res b = record b { answers = sent c res b.answers }

  -- `b.coldStartDone.Store(true)`, for a cold start.
  unfoldable pub finish_cold : Request → Backfiller G → Backfiller G
  finish_cold req b = record b { cold_start_done = is_cold req.reason || b.cold_start_done }

  -- The head of `Submit`.
  unfoldable pub submit : Request → Backfiller G → Backfiller G
  unfolding deliver
  submit req b =
      let b' = record b { received = req ∷ b.received } in
      if b.closed
      then deliver req.result (record { outcomes = []; skipped_keys = length req.keys }) b'
      else record b' { callers = entered req ∷ b.callers }

  unfoldable pub submit_cold_start : List Key → Backfiller G → Backfiller G
  unfolding submit
  submit_cold_start [] b = record b { cold_start_submitted = true; cold_start_done = true }
  submit_cold_start (k ∷ ks) b =
      submit (cold_request (k ∷ ks)) (record b { cold_start_submitted = true })

  unfoldable pub ready : Backfiller G → Bool
  ready b = not b.cold_start_submitted || b.cold_start_done

  -- `Submit` after its locked loop, by the fresh keys.
  unfoldable pub after_marks : Request → List Key → List Caller → Backfiller G → Backfiller G
  unfolding deliver finish_cold fold_option
  after_marks req [] others b =
      deliver req.result (record { outcomes = []; skipped_keys = length req.keys })
        (finish_cold req (record b { callers = others }))
  after_marks req (k ∷ fresh) others b =
      let req' = record req {
        ranges = fold_option req.ranges;
        skipped = length req.keys - length (k ∷ fresh);
      } in
      record b { callers = holding req' [] (k ∷ fresh) ∷ others }

  -- The send on the queue.
  unfoldable pub send : Request → List Caller → Backfiller G → Backfiller G
  send req others b =
      if ltb (length b.queue) b.cfg.queue_size
      then record b { callers = others; queue = b.queue ++ req ∷ [] }
      else record b { callers = refused req ∷ others }

  -- `HandleGap`, at the time `now`; `ReconnectAt` is `none` if it is zero.
  unfoldable pub handle_gap :
      Text → List Text → Option ℕ → Option ℕ → ℕ → Backfiller G → Backfiller G
  unfolding submit is_recent
  handle_gap shard streams last_msg_at reconnect_at now b =
      let keys = gap_keys streams in
      let b' = record b { gap_seen = insert shard now b.gap_seen } in
      if b.closed || is_recent now b.cfg.gap_debounce (lookup shard b.gap_seen)
      then b
      else if length keys == 0
      then b'
      else submit (gap_request keys last_msg_at reconnect_at now) b'

  -- The runner's receive.
  unfoldable pub receive : List Request → Backfiller G → Backfiller G
  receive [] b = b
  receive (req ∷ rest) b = record b { queue = rest; runner = serving req }

  -- One round of `drainRelease`.
  unfoldable pub drain : List Request → Backfiller G → Backfiller G
  drain [] b = record b { runner = gone }
  drain (req ∷ rest) b = record b { queue = rest; runner = drained req }

  -- The deferred calls of `process` before `releaseKeys`.
  unfoldable pub finish : Request → List RangeOutcome → Backfiller G → Backfiller G
  unfolding deliver finish_cold
  finish req outs b =
      let b' = finish_cold req (record b { runner = served req }) in
      if repairs req
      then deliver req.result (record { outcomes = outs; skipped_keys = req.skipped }) b'
      else b'

  -- The end of a release loop of the runner.
  unfoldable pub released : Bool → Request → Backfiller G → Backfiller G
  unfolding deliver
  released false req b = record b { runner = idle }
  released true req b =
      deliver req.result (record { outcomes = []; skipped_keys = length req.keys + req.skipped })
        (record b { runner = draining })

-- The calls of the gate.
module _ {G : Type 0} (hold release : Key → G → G) where
  -- The next step of a call of `Submit`.
  unfoldable pub caller_step : Caller → List Caller → Backfiller G → Backfiller G
  unfolding mark_keys after_marks send unmark_keys deliver finish_cold
  caller_step (entered req) others b =
      let r = mark_keys req.keys b.inflight in
      after_marks req r.0 others (record b { inflight = r.1 })
  caller_step (holding req held (k ∷ todo)) others b = record b {
    gate = hold k b.gate;
    callers = holding req (held ++ k ∷ []) todo ∷ others;
  }
  caller_step (holding req held []) others b = send (record req { keys = held }) others b
  caller_step (refused req) others b = record b {
    inflight = unmark_keys req.keys b.inflight;
    callers = freeing req req.keys ∷ others;
  }
  caller_step (freeing req (k ∷ todo)) others b = record b {
    gate = release k b.gate;
    callers = freeing req todo ∷ others;
  }
  caller_step (freeing req []) others b =
      deliver req.result (record { outcomes = []; skipped_keys = req.skipped + length req.keys })
        (finish_cold req (record b { callers = others }))

  -- The next step of the runner, where it does not wait.
  unfoldable pub runner_step : Runner → Backfiller G → Backfiller G
  unfolding receive drain unmark_keys released
  runner_step idle b = receive b.queue b
  runner_step draining b = drain b.queue b
  runner_step (served req) b = record b {
    inflight = unmark_keys req.keys b.inflight;
    runner = releasing false req req.keys;
  }
  runner_step (drained req) b = record b {
    inflight = unmark_keys req.keys b.inflight;
    runner = releasing true req req.keys;
  }
  runner_step (releasing d req (k ∷ todo)) b = record b {
    gate = release k b.gate;
    runner = releasing d req todo;
  }
  runner_step (releasing d req []) b = released d req b
  runner_step (serving req) b = b
  runner_step gone b = b

unfoldable pub finish_step : {G : Type 0} → Runner → List RangeOutcome → Backfiller G → Backfiller G
unfolding finish
finish_step (serving req) outs b = finish req outs b
finish_step _ outs b = b

-- The cases `<-ctx.Done()` and `<-b.stopCh` of the select.
unfoldable pub stop_step : {G : Type 0} → Runner → Backfiller G → Backfiller G
stop_step idle b = record b { runner = draining }
stop_step _ b = b

pub data Action : Type 0 where
  submits : Request → Action
  cold_starts : List Key → Action
  gaps : Text → List Text → Option ℕ → Option ℕ → ℕ → Action
  -- the next step of a call of `Submit`, by position
  goes : ℕ → Action
  works : Action
  -- the end of the fetches of `process`, with the outcomes that were recorded
  finishes : List RangeOutcome → Action
  closes stops : Action

abbrev caller_at :
    {G : Type 0}
    → Option (Caller × List Caller)
    → Backfiller G
    → (Caller → List Caller → Backfiller G)
    → Backfiller G
caller_at none b f = b
caller_at (some (c, others)) b f = f c others

module _ {G : Type 0} (hold release : Key → G → G) where
  unfoldable pub act : Action → Backfiller G → Backfiller G
  unfolding pick submit submit_cold_start handle_gap caller_step runner_step finish_step stop_step
  act (submits req) b = submit req b
  act (cold_starts keys) b = submit_cold_start keys b
  act (gaps shard streams last_msg_at reconnect_at now) b =
      handle_gap shard streams last_msg_at reconnect_at now b
  act (goes n) b = caller_at (pick n b.callers) b (λ c others. caller_step hold release c others b)
  act works b = runner_step hold release b.runner b
  act (finishes outs) b = finish_step b.runner outs b
  act closes b = record b { closed = true }
  act stops b = stop_step b.runner b

  unfoldable pub run : List Action → Backfiller G → Backfiller G
  run [] b = b
  run (a ∷ rest) b = run rest (act a b)
