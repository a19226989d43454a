-- ===== src/Dispatcher/Guard.antt =====
-- internal/dispatcher/dispatcher.go: the closed path sees each key's bars in strictly rising order.
use mathlib.Core.List.{append_assoc, append-nil}
use chomo_syncer_go.Base.{
  ltb, if◌then◌else◌, Bool-cases, if-elim, ◌==◌, nat_eq, length, Text, text_beq_iff, text_eq, Map,
  lookup, lookup-insert, ℕ, suc, ◌≤◌, ◌≡◌, refl, sym, ap, subst, ◌∙◌, inl, inr, Bool, true, false,
  Option, none, some, List, [], ◌∷◌, ◌++◌, arith,
}
use chomo_syncer_go.Bars.{
  Result, ok, err, CompactBar, LiveBar, KlineEvent, to_compact_bar, to_live_bar,
}
use chomo_syncer_go.Dispatcher.{
  ClosedJob, Dispatcher, HandleError, Action, event, works, closes, guard_key, accept_closed,
  enqueue, hand_off, guarded, snapshot, handle_kline_event, take_job, work, new, act, run, live_bar,
}

module _ {F : Type 0} where
  -- The jobs handed to the workers so far, taken or still queued, in order.
  abbrev pub history : Dispatcher F → List (ClosedJob F)
  history d = d.taken ++ d.queue

  -- The open times of a key's jobs.
  unfoldable pub times : Text → List (ClosedJob F) → List ℕ
  times k [] = []
  times k (j ∷ js) =
      let rest = times k js in
      if guard_key j.symbol j.interval == k then j.open_time ∷ rest else rest

  times-append :
      (k : Text) (js ls : List (ClosedJob F)) → times k (js ++ ls) ≡ times k js ++ times k ls
  unfolding times
  times-append k [] ls = refl
  times-append k (j ∷ js) ls = ground (arith, times-append k js ls)

-- Strictly rising from `lo` on, and below `hi`.
abbrev pub Rising : ℕ → List ℕ → ℕ → Type 0
Rising lo [] hi = lo ≤ hi
Rising lo (t ∷ ts) hi = (lo ≤ t) × Rising (suc t) ts hi

Rising-mono : (lo hi hi' : ℕ) (ts : List ℕ) → hi ≤ hi' → Rising lo ts hi → Rising lo ts hi'
Rising-mono lo hi hi' [] h r = omega arith
Rising-mono lo hi hi' (t ∷ ts) h (l, r) = (l, Rising-mono (suc t) hi hi' ts h r)

Rising-snoc :
    (lo hi t : ℕ) (ts : List ℕ) → hi ≤ t → Rising lo ts hi → Rising lo (ts ++ t ∷ []) (suc t)
Rising-snoc lo hi t [] h r = omega arith
Rising-snoc lo hi t (u ∷ ts) h (l, r) = (l, Rising-snoc (suc u) hi t ts h r)

snoc-Rising :
    (lo hi t : ℕ) (ts : List ℕ) (own : Bool)
    → Rising 0 ts lo
    → lo ≤ hi
    → (own ≡ true → lo ≤ t)
    → (own ≡ true → hi ≡ suc t)
    → Rising 0 (ts ++ (if own then t ∷ [] else [])) hi
snoc-Rising lo hi t ts true r h l b = rw (b refl) (Rising-snoc 0 lo t ts (l refl) r)
snoc-Rising lo hi t ts false r h l b = rw append-nil (Rising-mono 0 lo hi ts h r)

-- One past the last open time that the guard let through for a key.
abbrev pub bound : Text → Map Text ℕ → ℕ
bound k m = elim (lookup k m) [ none ↦ 0 | some prev ↦ suc prev ]

accept_closed-bound :
    (k j : Text) (t : ℕ) (m : Map Text ℕ)
    → (accept_closed k t m).0 ≡ true
    → (bound k m ≤ t) × (bound j (accept_closed k t m).1 ≡ (if k == j then suc t else bound j m))
unfolding accept_closed
accept_closed-bound k j t m h = ground (arith, lookup-insert k j t m)

module _ {F : Type 0} (k : Text) where
  -- The history of the key rises strictly, and stays below the guard's bound.
  abbrev pub IsOrdered : Dispatcher F → Type 0
  IsOrdered d = Rising 0 (times k (history d)) (bound k d.last_closed)

  work-history : (d : Dispatcher F) → history (work d) ≡ history d
  unfolding work
  work-history d = go d.queue refl
    where
      go : (js : List (ClosedJob F)) → d.queue ≡ js → history (take_job js d) ≡ history d
      go [] e = refl
      go (j ∷ js) e = append_assoc d.taken (j ∷ []) js ∙ ap (◌++◌ d.taken) (sym e)

  work-last_closed : (d : Dispatcher F) → (work d).last_closed ≡ d.last_closed
  unfolding work
  work-last_closed d = go d.queue
    where
      go : (js : List (ClosedJob F)) → (take_job js d).last_closed ≡ d.last_closed
      go [] = refl
      go (j ∷ js) = refl

  times-snoc :
      (d : Dispatcher F) (job : ClosedJob F)
      → times k (d.taken ++ (d.queue ++ job ∷ []))
        ≡ times k (history d)
          ++ (if guard_key job.symbol job.interval == k then job.open_time ∷ [] else [])
  unfolding times
  times-snoc d job =
      ap (times k) (sym (append_assoc d.taken d.queue (job ∷ [])))
      ∙ times-append k (history d) (job ∷ [])

  enqueue-IsOrdered :
      (d : Dispatcher F) (job : ClosedJob F) (lo : ℕ)
      → Rising 0 (times k (history d)) lo
      → lo ≤ bound k d.last_closed
      → ((guard_key job.symbol job.interval == k) ≡ true → lo ≤ job.open_time)
      → ((guard_key job.symbol job.interval == k) ≡ true
          → bound k d.last_closed ≡ suc job.open_time)
      → IsOrdered (enqueue job d).0
  unfolding enqueue
  enqueue-IsOrdered d job lo r h l b = elim (Bool-cases (ltb (length d.queue) d.capacity)) [
    | inl room ↦
        rw (room, enqueue)
          (rw (times-snoc d job)
            (snoc-Rising lo (bound k d.last_closed) job.open_time (times k (history d)) _ r h l b))
    | inr full ↦ rw (full, enqueue) (Rising-mono 0 lo _ (times k (history d)) h r)
  ]

module _ {F : Type 0} (parse_float : Text → Option F) (k : Text) where
  hand_off-IsOrdered :
      (e : KlineEvent) (d : Dispatcher F) (lo : ℕ)
      → Rising 0 (times k (history d)) lo
      → lo ≤ bound k d.last_closed
      → ((guard_key e.symbol e.interval == k) ≡ true → lo ≤ e.open_time)
      → ((guard_key e.symbol e.interval == k) ≡ true → bound k d.last_closed ≡ suc e.open_time)
      → IsOrdered k (hand_off parse_float e d).0
  unfolding hand_off
  hand_off-IsOrdered e d lo r h l b = go (to_compact_bar parse_float e) refl
    where
      go :
          (c : Result (CompactBar F))
          → to_compact_bar parse_float e ≡ c
          → IsOrdered k (hand_off parse_float e d).0
      go (ok cb) q = rw (q, hand_off) (enqueue-IsOrdered k d _ lo r h l b)
      go (err name) q = rw (q, hand_off) (Rising-mono 0 lo _ (times k (history d)) h r)

  guarded-IsOrdered :
      (e : KlineEvent) (d : Dispatcher F) → IsOrdered k d → IsOrdered k (guarded parse_float e d).0
  unfolding guarded
  guarded-IsOrdered e d r = elim (Bool-cases (accept_closed gk e.open_time d.last_closed).0) [
    | inl y ↦
        let own = accept_closed-bound gk gk e.open_time d.last_closed y in
        let all = accept_closed-bound gk k e.open_time d.last_closed y in
        rw (y, guarded)
          (hand_off-IsOrdered e
            (record d { last_closed = (accept_closed gk e.open_time d.last_closed).1 })
            (bound k d.last_closed) r (ground (arith, own, all, text_beq_iff gk k))
            (λ h. ground (arith, own, all, text_beq_iff gk k)) (λ h. ground (arith, all)))
    | inr n ↦ rw (n, guarded) r
  ]
    where
      gk : Text
      gk = guard_key e.symbol e.interval

  snapshot-IsOrdered :
      (e : KlineEvent) (lb : Result (LiveBar F)) (d : Dispatcher F)
      → IsOrdered k d
      → IsOrdered k (snapshot parse_float e lb d).0
  unfolding snapshot
  snapshot-IsOrdered e (err name) d r = r
  snapshot-IsOrdered e (ok lb) d r =
      let d' = record d { calls = d.calls ++ live_bar e.symbol e.interval lb ∷ [] } in
      if-elim (λ (s : Dispatcher F × Option HandleError). IsOrdered k s.0) e.is_final
        (guarded-IsOrdered e d' r) r

  event-IsOrdered :
      (e : KlineEvent) (d : Dispatcher F)
      → IsOrdered k d
      → IsOrdered k (handle_kline_event parse_float e d).0
  unfolding handle_kline_event
  event-IsOrdered e d r =
      if-elim (λ (s : Dispatcher F × Option HandleError). IsOrdered k s.0) d.closed r
        (snapshot-IsOrdered e (to_live_bar parse_float e) d r)

  act-IsOrdered :
      (a : Action) (d : Dispatcher F) → IsOrdered k d → IsOrdered k (act parse_float a d)
  unfolding act
  act-IsOrdered (event e) d r = event-IsOrdered e d r
  act-IsOrdered works d r =
      subst (λ js. Rising 0 (times k js) (bound k (work d).last_closed)) (sym (work-history k d))
        (rw (work-last_closed k d) r)
  act-IsOrdered closes d r = r

  run-IsOrdered :
      (acts : List Action) (d : Dispatcher F) → IsOrdered k d → IsOrdered k (run parse_float acts d)
  unfolding run
  run-IsOrdered [] d r = r
  run-IsOrdered (a ∷ acts) d r = run-IsOrdered acts (act parse_float a d) (act-IsOrdered a d r)

  new-IsOrdered : (capacity : ℕ) → IsOrdered k (new {F = F} capacity)
  unfolding new times lookup
  new-IsOrdered capacity = omega arith

  -- Under every interleaving of events, each handled to its end, workers and the shutdown, from a
  -- new dispatcher, the jobs of one symbol and interval reach the workers with strictly rising open
  -- times: no replayed and no reordered bar is handed on.
  pub run-Rising :
      (acts : List Action) (capacity : ℕ)
      → let d = run parse_float acts (new capacity) in
        Rising 0 (times k (d.taken ++ d.queue)) (bound k d.last_closed)
  run-Rising acts capacity = run-IsOrdered acts (new capacity) (new-IsOrdered capacity)
