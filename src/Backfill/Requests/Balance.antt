-- ===== src/Backfill/Requests/Balance.antt =====
-- internal/backfill/backfill.go: the gate is held once for each key of each request under way, and
-- for nothing else.
use chomo_syncer_go.Base.{
  if◌then◌else◌, lt→ltb, le→ltb_false, ◌==◌, nat_eq, Text, text_eq, lookup, contains, pick, sum_by,
  sum_by-append, pick-le, ℕ, ◌+◌, ◌≤◌, ◌<◌, ◌≡◌, refl, sym, ap, ◌∙◌, ◌⊎◌, inl, inr, true, false,
  some, List, [], ◌∷◌, ◌++◌, arith,
}
use chomo_syncer_go.Backfill.{Key, key_beq_iff, key_eq, fold_key}
use chomo_syncer_go.Backfill.Requests.Settings.{ResolvedConfig}
use chomo_syncer_go.Backfill.Requests.{
  Request, Caller, entered, holding, refused, freeing, Runner, idle, gone, serving, served, drained,
  releasing, Backfiller, new, Action, run,
}
use chomo_syncer_go.Backfill.Requests.Holds.{
  Holds, window_holds, is_held_iff_count, gate_key, hold, release,
}
use chomo_syncer_go.Backfill.Requests.Rule.{Log, Weights, load, IsKept}
use chomo_syncer_go.Backfill.Requests.Reach.{run-P}
use chomo_syncer_go.WindowGate
use chomo_syncer_go.WindowGate.{Gate, held_window, held_interval, gated_push, gated_publish}
use chomo_syncer_go.WindowGate.Intervals.{Inv, new-Inv, hold-Inv, release-Inv, held_interval-of_key}
use chomo_syncer_go.WindowGate.Counts.{refs}

-- How often a key is named, after upper-casing.
unfoldable pub named : Key → List Key → ℕ
named j ks = sum_by (λ k. if fold_key k == j then 1 else 0) ks

-- How often a goroutine or a queued request holds a key.
unfoldable pub caller_holds : Key → Caller → ℕ
unfolding named
caller_holds j (entered req) = 0
caller_holds j (holding req held todo) = named j held
caller_holds j (refused req) = named j req.keys
caller_holds j (freeing req todo) = named j todo

unfoldable pub runner_holds : Key → Runner → ℕ
unfolding named
runner_holds j (serving req) = named j req.keys
runner_holds j (served req) = named j req.keys
runner_holds j (drained req) = named j req.keys
runner_holds j (releasing d req todo) = named j todo
runner_holds j _ = 0

unfoldable pub holders : Key → Weights
unfolding caller_holds named runner_holds
holders j = record {
  of_caller = caller_holds j;
  of_request = λ req. named j req.keys;
  of_runner = runner_holds j;
}

module _ {G : Type 0} (gate : Holds G) (j : Key) where
  abbrev Counted : G → List Key → ℕ → Log → List Request → Type 0
  Counted g i n a s = gate.count g j ≡ n

  holds_kept :
      (held : List Key) (k : Key) (g : G) (n : ℕ)
      → gate.count g j ≡ named j held + n
      → gate.count (gate.hold k g) j ≡ named j (held ++ k ∷ []) + n
  unfolding named sum_by
  holds_kept held k g n h = omega (
    arith,
    h,
    gate.count-hold k j g,
    sum_by-append (λ l. if fold_key l == j then 1 else 0) held (k ∷ []),
  )

  frees_kept :
      (k : Key) (todo : List Key) (g : G) (n : ℕ)
      → gate.count g j ≡ named j (k ∷ todo) + n
      → gate.count (gate.release k g) j ≡ named j todo + n
  unfolding named sum_by
  frees_kept k todo g n h = omega (arith, h, gate.count-release k j g)

  Counted-IsKept : IsKept gate.hold gate.release (holders j) Counted
  unfolding holders named sum_by
  Counted-IsKept = record {
    waits = (refl, refl, refl);
    rejects = λ req res g i n a s h. h;
    enters = λ req g i n a s h. omega (arith, h);
    none_fresh = λ req res i' g i n a s e h. omega (arith, h);
    marks = λ req m k fresh i' g i n a s e h. h;
    holds = λ req held k todo g i n a s h. holds_kept held k g n h;
    sends = λ req held g i n a s h. (h, h);
    unmarks = λ req g i n a s h. h;
    frees = λ req k todo g i n a s h. frees_kept k todo g n h;
    refuses = λ req res g i n a s h. omega (arith, h);
    receives = λ req g i n a s h. (h, h);
    serves = λ req g i n a s e h. h;
    answers = λ req res g i n a s e h. h;
    unmarks_served = λ req g i n a s h. h;
    unmarks_drained = λ req g i n a s h. h;
    releases = λ d req k todo g i n a s h. frees_kept k todo g n h;
    resumes = λ req g i n a s h. omega (arith, h);
    drains = λ req res g i n a s h. omega (arith, h);
  }

  run-Counted :
      (cfg : ResolvedConfig) (g : G) (acts : List Action)
      → gate.count g j ≡ 0
      → gate.count (run gate.hold gate.release acts (new cfg g)).gate j
        ≡ load (holders j) (run gate.hold gate.release acts (new cfg g))
  unfolding new load sum_by holders runner_holds
  run-Counted cfg g acts h =
      run-P gate.hold gate.release (holders j) Counted Counted-IsKept acts (new cfg g) h

-- An invariant of the gate that `Hold` and `Release` keep holds throughout.
module _ {G : Type 0} (hold_one release_one : Key → G → G) (Inv_of : G → Type 0)
    (holds : (k : Key) (g : G) → Inv_of g → Inv_of (hold_one k g))
    (frees : (k : Key) (g : G) → Inv_of g → Inv_of (release_one k g)) where
  abbrev Always : G → List Key → ℕ → Log → List Request → Type 0
  Always g i n a s = Inv_of g

  abbrev weightless : Weights
  weightless = record { of_caller = λ c. 0; of_request = λ r. 0; of_runner = λ r. 0 }

  Always-IsKept : IsKept hold_one release_one weightless Always
  Always-IsKept = record {
    waits = (refl, refl, refl);
    rejects = λ req res g i n a s h. h;
    enters = λ req g i n a s h. h;
    none_fresh = λ req res i' g i n a s e h. h;
    marks = λ req m k fresh i' g i n a s e h. h;
    holds = λ req held k todo g i n a s h. holds k g h;
    sends = λ req held g i n a s h. (h, h);
    unmarks = λ req g i n a s h. h;
    frees = λ req k todo g i n a s h. frees k g h;
    refuses = λ req res g i n a s h. h;
    receives = λ req g i n a s h. (h, h);
    serves = λ req g i n a s e h. h;
    answers = λ req res g i n a s e h. h;
    unmarks_served = λ req g i n a s h. h;
    unmarks_drained = λ req g i n a s h. h;
    releases = λ d req k todo g i n a s h. frees k g h;
    resumes = λ req g i n a s h. h;
    drains = λ req res g i n a s h. h;
  }

  run-Always :
      (cfg : ResolvedConfig) (g : G) (acts : List Action)
      → Inv_of g
      → Inv_of (run hold_one release_one acts (new cfg g)).gate
  unfolding new
  run-Always cfg g acts h =
      run-P hold_one release_one weightless Always Always-IsKept acts (new cfg g) h

hold_one-Inv : (k : Key) (g : Gate) → Inv g → Inv (hold k g)
unfolding hold
hold_one-Inv k g v = hold-Inv (gate_key k ∷ []) g v

release_one-Inv : (k : Key) (g : Gate) → Inv g → Inv (release k g)
unfolding release
release_one-Inv k g v = release-Inv (gate_key k ∷ []) g v

-- A run of the backfiller from its construction, on an empty window gate.
abbrev pub backfill : ResolvedConfig → List Action → Backfiller Gate
backfill cfg acts = run hold release acts (new cfg WindowGate.new)

-- The reference counts are exact: whatever the order in which calls of Submit, cold starts, gap
-- events, the runner and the shutdown take their steps, the window gate counts for each key the
-- requests that hold it: those in Submit past their Hold of it, those queued, the one in process,
-- and those that have not released it yet.
pub backfill_balance :
    (cfg : ResolvedConfig) (acts : List Action) (j : Key)
    → refs (backfill cfg acts).gate (gate_key j) ≡ load (holders j) (backfill cfg acts)
unfolding WindowGate.new WindowGate.get_int lookup
backfill_balance cfg acts j = run-Counted window_holds j cfg WindowGate.new acts refl

fold_eq : (l k : Key) → l ≡ k → fold_key l ≡ fold_key k
fold_eq l k e = ap fold_key e

contains-named : (k : Key) (ks : List Key) → contains ks k ≡ true → 0 < named (fold_key k) ks
unfolding contains named sum_by
contains-named k [] h = absurd (ground (arith, h))
contains-named k (l ∷ ks) h = ground (
  arith,
  key_beq_iff l k,
  key_beq_iff (fold_key l) (fold_key k),
  contains-named k ks,
  fold_eq l k,
)

-- A request that is in process, or queued.
abbrev pub IsUnderWay : {G : Type 0} → Request → Backfiller G → Type 0
IsUnderWay req b =
    (b.runner ≡ serving req)
    ⊎ ((n : ℕ) × (rest : List Request) × (pick n b.queue ≡ some (req, rest)))

pub under_way-load :
    {G : Type 0} (w : Weights) (req : Request) (b : Backfiller G)
    → IsUnderWay req b
    → (w.of_request req ≤ load w b) ⊎ (w.of_runner (serving req) ≤ load w b)
unfolding load
under_way-load w req b (inl e) = inr (omega (arith, ap w.of_runner e))
under_way-load w req b (inr (n, rest, e)) =
    inl (omega (arith, pick-le w.of_request n b.queue req rest e))

-- While a request is queued or in process, the window gate holds each of its keys: neither a push
-- to the window of the key nor a kline_ready event of its interval reaches the wrapped sinks.
pub backfill_holds :
    {Bar Event R : Type 0} (cfg : ResolvedConfig) (acts : List Action) (req : Request) (k : Key)
    (push : Text → Text → Bar → R) (publish : Event → R) (r : R) (interval_of : Event → Text)
    (bar : Bar) (evt : Event)
    → IsUnderWay req (backfill cfg acts)
    → contains req.keys k ≡ true
    → interval_of evt ≡ k.interval
    → (gated_push (backfill cfg acts).gate push r k.symbol k.interval bar ≡ r)
      × (gated_publish (backfill cfg acts).gate interval_of publish r evt ≡ r)
unfolding holders runner_holds gated_push gated_publish gate_key fold_key
backfill_holds cfg acts req k push publish r interval_of bar evt u c e =
    let b : Backfiller Gate = backfill cfg acts in
    let some_held : 0 < refs b.gate (gate_key (fold_key k)) =
      elim (under_way-load (holders (fold_key k)) req b u) [
        | inl q ↦
            omega (arith, q, contains-named k req.keys c, backfill_balance cfg acts (fold_key k))
        | inr r ↦
            omega (arith, r, contains-named k req.keys c, backfill_balance cfg acts (fold_key k))
      ] in
    let inv : Inv b.gate =
      run-Always hold release Inv hold_one-Inv release_one-Inv cfg WindowGate.new acts new-Inv in
    let window : held_window b.gate k.symbol k.interval ≡ true =
      is_held_iff_count b.gate k ∙ lt→ltb _ _ some_held in
    let interval : held_interval b.gate (interval_of evt) ≡ true =
      held_interval-of_key b.gate (gate_key (fold_key k)) (interval_of evt) inv some_held (sym e) in
    (rw window refl, rw interval refl)

-- No call of Submit is under way, nothing is queued and the runner waits or is gone.
abbrev pub IsQuiet : {G : Type 0} → Backfiller G → Type 0
IsQuiet b = (b.callers ≡ []) × (b.queue ≡ []) × ((b.runner ≡ idle) ⊎ (b.runner ≡ gone))

pub load_quiet :
    {G : Type 0} (w : Weights) (b : Backfiller G)
    → w.of_runner idle ≡ 0
    → w.of_runner gone ≡ 0
    → IsQuiet b
    → load w b ≡ 0
unfolding load sum_by
load_quiet w b i g (c, q, inl e) =
    omega (arith, i, ap (sum_by w.of_caller) c, ap (sum_by w.of_request) q, ap w.of_runner e)
load_quiet w b i g (c, q, inr e) =
    omega (arith, g, ap (sum_by w.of_caller) c, ap (sum_by w.of_request) q, ap w.of_runner e)

-- No key stays suppressed: when no call of Submit is under way, nothing is queued and the runner
-- waits or is gone, the window gate holds no key at all.
pub backfill_frees :
    (cfg : ResolvedConfig) (acts : List Action) (k : Key)
    → IsQuiet (backfill cfg acts)
    → held_window (backfill cfg acts).gate k.symbol k.interval ≡ false
unfolding holders runner_holds
backfill_frees cfg acts k q =
    let b : Backfiller Gate = backfill cfg acts in
    let none_held : load (holders (fold_key k)) b ≡ 0 =
      load_quiet (holders (fold_key k)) b refl refl q in
    is_held_iff_count b.gate k
    ∙ le→ltb_false 0 (refs b.gate (gate_key (fold_key k)))
        (omega (arith, none_held, backfill_balance cfg acts (fold_key k)))
