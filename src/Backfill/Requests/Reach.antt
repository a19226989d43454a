-- ===== src/Backfill/Requests/Reach.antt =====
-- internal/backfill/backfill.go: every step of a request keeps an invariant that follows the rule.
use chomo_syncer_go.Base.{
  Bool-cases, if-elim, nat_eq, length, Text, text_eq, insert, pick, sum_by, sum_by-append, Splits,
  pick-Splits, ℕ, ◌+◌, ◌-◌, ◌≡◌, refl, ap, subst, inl, inr, true, false, Option, none, some, List,
  [], ◌∷◌, arith,
}
use chomo_syncer_go.Backfill.{Key, gap_keys}
use chomo_syncer_go.Backfill.Requests.{
  Request, RangeOutcome, Caller, entered, holding, refused, freeing, Runner, idle, draining, gone,
  serving, served, drained, releasing, Backfiller, deliver, finish_cold, submit, submit_cold_start,
  after_marks, send, repairs, handle_gap, receive, drain, finish, released, caller_step,
  runner_step, finish_step, stop_step, mark_keys, cold_request, gap_request, unmark_keys, Action,
  submits, cold_starts, gaps, goes, works, finishes, closes, stops, caller_at, act, run,
}
use chomo_syncer_go.Backfill.Requests.Rule.{Log, Weights, load, IsKept}

module _ {ℓ} {G : Type 0} (hold release : Key → G → G) (w : Weights)
    (Q : G → List Key → ℕ → Log → List Request → Type ℓ) (kept : IsKept hold release w Q) where
  abbrev P : Backfiller G → Type ℓ
  P b = Q b.gate b.inflight (load w b) b.answers b.received

  -- The same with the load `n` in another form.
  abbrev At : ℕ → Backfiller G → Type ℓ
  At n b = Q b.gate b.inflight n b.answers b.received

  At-eq : (b : Backfiller G) (m n : ℕ) → m ≡ n → At m b → At n b
  At-eq b m n e h = subst (λ l. At l b) e h

  submit-P : (req : Request) (b : Backfiller G) → P b → P (submit req b)
  unfolding submit deliver load sum_by
  submit-P req b h = if-elim P b.closed (kept.rejects req _ _ _ _ _ _ h) (
      At-eq (record b { received = req ∷ b.received }) _ _ (omega arith)
        (kept.enters req _ _ _ _ _ h))

  submit_cold_start-P : (keys : List Key) (b : Backfiller G) → P b → P (submit_cold_start keys b)
  unfolding submit_cold_start load
  submit_cold_start-P [] b h = h
  submit_cold_start-P (k ∷ ks) b h =
      submit-P (cold_request (k ∷ ks)) (record b { cold_start_submitted = true }) h

  handle_gap-P :
      (shard : Text) (streams : List Text) (last_msg_at reconnect_at : Option ℕ) (now : ℕ)
      (b : Backfiller G)
      → P b
      → P (handle_gap shard streams last_msg_at reconnect_at now b)
  unfolding handle_gap load
  handle_gap-P shard streams last_msg_at reconnect_at now b h =
      let b' : Backfiller G = record b { gap_seen = insert shard now b.gap_seen } in
      if-elim P _ {x = b} h (
        if-elim P _ {x = b'} h
          (submit-P (gap_request (gap_keys streams) last_msg_at reconnect_at now) b' h))

  -- The others of a caller, of the queue's head, of the runner.
  abbrev rest_of : List Caller → Backfiller G → ℕ
  rest_of others b =
      sum_by w.of_caller others + (sum_by w.of_request b.queue + w.of_runner b.runner)

  send-P :
      (req : Request) (held : List Key) (others : List Caller) (b : Backfiller G)
      → At (w.of_caller (holding req held []) + rest_of others b) b
      → P (send (record req { keys = held }) others b)
  unfolding send load sum_by
  send-P req held others b h =
      let sent_or_not = kept.sends req held _ _ _ _ _ h in
      if-elim P _
        (At-eq b _ _
          (omega (arith, sum_by-append w.of_request b.queue (record req { keys = held } ∷ [])))
          sent_or_not.0)
        (At-eq b _ _ (omega arith) sent_or_not.1)

  after_marks-P :
      (req : Request) (fresh i' : List Key) (others : List Caller) (b : Backfiller G)
      → mark_keys req.keys b.inflight ≡ (fresh, i')
      → At (w.of_caller (entered req) + rest_of others b) b
      → P (after_marks req fresh others (record b { inflight = i' }))
  unfolding after_marks finish_cold deliver load sum_by
  after_marks-P req [] i' others b e h =
      At-eq (deliver req.result _ (record b { inflight = i' })) _ _ (omega arith)
        (kept.none_fresh req _ i' b.gate b.inflight _ b.answers b.received e h)
  after_marks-P req (k ∷ fresh) i' others b e h =
      At-eq (record b { inflight = i' }) _ _ (omega arith)
        (kept.marks req (length req.keys - length (k ∷ fresh)) k fresh i' b.gate b.inflight _
          b.answers b.received e h)

  caller_step-P :
      (c : Caller) (others : List Caller) (b : Backfiller G)
      → At (w.of_caller c + rest_of others b) b
      → P (caller_step hold release c others b)
  unfolding caller_step finish_cold deliver load sum_by
  caller_step-P (entered req) others b h =
      after_marks-P req (mark_keys req.keys b.inflight).0 (mark_keys req.keys b.inflight).1 others b
        refl h
  caller_step-P (holding req held (k ∷ todo)) others b h =
      At-eq (record b { gate = hold k b.gate }) _ _ (omega arith)
        (kept.holds req held k todo _ _ _ _ _ h)
  caller_step-P (holding req held []) others b h = send-P req held others b h
  caller_step-P (refused req) others b h =
      At-eq (record b { inflight = unmark_keys req.keys b.inflight }) _ _ (omega arith)
        (kept.unmarks req _ _ _ _ _ h)
  caller_step-P (freeing req (k ∷ todo)) others b h =
      At-eq (record b { gate = release k b.gate }) _ _ (omega arith)
        (kept.frees req k todo _ _ _ _ _ h)
  caller_step-P (freeing req []) others b h =
      At-eq (deliver req.result _ b) _ _ (omega arith) (kept.refuses req _ _ _ _ _ _ h)

  caller_at-P :
      (b : Backfiller G) (o : Option (Caller × List Caller))
      → Splits w.of_caller b.callers o
      → P b
      → P (caller_at o b (λ c others. caller_step hold release c others b))
  unfolding load
  caller_at-P b none e h = h
  caller_at-P b (some (c, others)) e h = caller_step-P c others b (At-eq b _ _ (omega (arith, e)) h)

  abbrev behind : List Request → Backfiller G → ℕ
  behind rest b = sum_by w.of_caller b.callers + sum_by w.of_request rest

  receive-P :
      (q : List Request) (b : Backfiller G)
      → At (sum_by w.of_request q + sum_by w.of_caller b.callers) b
      → P b
      → P (receive q b)
  unfolding receive load sum_by
  receive-P [] b h p = p
  receive-P (req ∷ rest) b h p =
      At-eq b _ _ (omega arith)
        (kept.receives req _ _ (behind rest b) _ _ (At-eq b _ _ (omega arith) h)).0

  drain-P :
      (q : List Request) (b : Backfiller G)
      → b.queue ≡ q
      → At (sum_by w.of_request q + sum_by w.of_caller b.callers) b
      → P (drain q b)
  unfolding drain load sum_by
  drain-P [] b e h = At-eq b _ _ (omega (arith, kept.waits, ap (sum_by w.of_request) e)) h
  drain-P (req ∷ rest) b e h =
      At-eq b _ _ (omega arith)
        (kept.receives req _ _ (behind rest b) _ _ (At-eq b _ _ (omega arith) h)).1

  -- The runner's step, from the runner that it has.
  runner_step-P :
      (r : Runner) (b : Backfiller G)
      → At (w.of_runner r + (sum_by w.of_caller b.callers + sum_by w.of_request b.queue)) b
      → P b
      → P (runner_step hold release r b)
  unfolding runner_step released deliver load sum_by
  runner_step-P idle b h p = receive-P b.queue b (At-eq b _ _ (omega (arith, kept.waits)) h) p
  runner_step-P draining b h p = drain-P b.queue b refl (At-eq b _ _ (omega (arith, kept.waits)) h)
  runner_step-P (served req) b h p =
      At-eq (record b { inflight = unmark_keys req.keys b.inflight }) _ _ (omega arith)
        (kept.unmarks_served req _ _ _ _ _ h)
  runner_step-P (drained req) b h p =
      At-eq (record b { inflight = unmark_keys req.keys b.inflight }) _ _ (omega arith)
        (kept.unmarks_drained req _ _ _ _ _ h)
  runner_step-P (releasing d req (k ∷ todo)) b h p =
      At-eq (record b { gate = release k b.gate }) _ _ (omega arith)
        (kept.releases d req k todo _ _ _ _ _ h)
  runner_step-P (releasing false req []) b h p =
      At-eq b _ _ (omega (arith, kept.waits)) (kept.resumes req _ _ _ _ _ h)
  runner_step-P (releasing true req []) b h p =
      At-eq (deliver req.result _ b) _ _ (omega (arith, kept.waits)) (kept.drains req _ _ _ _ _ _ h)
  runner_step-P (serving req) b h p = p
  runner_step-P gone b h p = p

  finish-P :
      (req : Request) (outs : List RangeOutcome) (b : Backfiller G)
      → At
          (w.of_runner (serving req) + (sum_by w.of_caller b.callers + sum_by w.of_request b.queue))
          b
      → P (finish req outs b)
  unfolding finish finish_cold deliver load
  finish-P req outs b h = elim (Bool-cases (repairs req)) [
    | inl y ↦
        rw y (At-eq (deliver req.result _ b) _ _ (omega arith) (kept.answers req _ _ _ _ _ _ y h))
    | inr n ↦ rw n (At-eq b _ _ (omega arith) (kept.serves req _ _ _ _ _ n h))
  ]

  finish_step-P :
      (r : Runner) (outs : List RangeOutcome) (b : Backfiller G)
      → At (w.of_runner r + (sum_by w.of_caller b.callers + sum_by w.of_request b.queue)) b
      → P b
      → P (finish_step r outs b)
  unfolding finish_step
  finish_step-P (serving req) outs b h p = finish-P req outs b h
  finish_step-P idle outs b h p = p
  finish_step-P draining outs b h p = p
  finish_step-P gone outs b h p = p
  finish_step-P (served req) outs b h p = p
  finish_step-P (drained req) outs b h p = p
  finish_step-P (releasing d req todo) outs b h p = p

  stop_step-P :
      (r : Runner) (b : Backfiller G)
      → At (w.of_runner r + (sum_by w.of_caller b.callers + sum_by w.of_request b.queue)) b
      → P b
      → P (stop_step r b)
  unfolding stop_step load
  stop_step-P idle b h p = At-eq b _ _ (omega (arith, kept.waits)) h
  stop_step-P draining b h p = p
  stop_step-P gone b h p = p
  stop_step-P (serving req) b h p = p
  stop_step-P (served req) b h p = p
  stop_step-P (drained req) b h p = p
  stop_step-P (releasing d req todo) b h p = p

  act-P : (a : Action) (b : Backfiller G) → P b → P (act hold release a b)
  unfolding act load
  act-P (submits req) b p = submit-P req b p
  act-P (cold_starts keys) b p = submit_cold_start-P keys b p
  act-P (gaps shard streams last_msg_at reconnect_at now) b p =
      handle_gap-P shard streams last_msg_at reconnect_at now b p
  act-P (goes n) b p = caller_at-P b (pick n b.callers) (pick-Splits w.of_caller n b.callers) p
  act-P works b p = runner_step-P b.runner b (At-eq b _ _ (omega arith) p) p
  act-P (finishes outs) b p = finish_step-P b.runner outs b (At-eq b _ _ (omega arith) p) p
  act-P closes b p = p
  act-P stops b p = stop_step-P b.runner b (At-eq b _ _ (omega arith) p) p

  -- What every step keeps holds in every state that is reached.
  pub run-P : (acts : List Action) (b : Backfiller G) → P b → P (run hold release acts b)
  unfolding run
  run-P [] b p = p
  run-P (a ∷ rest) b p = run-P rest (act hold release a b) (act-P a b p)
