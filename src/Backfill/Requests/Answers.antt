-- ===== src/Backfill/Requests/Answers.antt =====
-- internal/backfill/backfill.go: who waits for a result is answered, and once.
use chomo_syncer_go.Base.{
  if◌then◌else◌, Bool-cases, ◌==◌, nat_eq, text_eq, Map, sum_by, ℕ, ◌+◌, ◌≤◌, min, ◌≡◌, refl, ap,
  inl, inr, Bool, false, ◌&&◌, Option, none, some, List, arith,
}
use chomo_syncer_go.Backfill.{Key}
use chomo_syncer_go.Backfill.Requests.Settings.{ResolvedConfig}
use chomo_syncer_go.Backfill.Requests.{
  Request, RepairResult, Caller, entered, holding, refused, freeing, Runner, serving, drained,
  releasing, new, repairs, sent, Channel, channel_eq, answered, fold_option, is_given, Range,
  Action, run,
}
use chomo_syncer_go.Backfill.Requests.Rule.{Log, Weights, load, IsKept}
use chomo_syncer_go.Backfill.Requests.Reach.{run-P}
use chomo_syncer_go.Backfill.Requests.Balance.{IsQuiet, load_quiet}

abbrev is_channel : Channel → Option Channel → Bool
is_channel c none = false
is_channel c (some d) = d == c

-- How many requests came with a channel, of all and of those that name ranges to repair.
unfoldable pub asked : Channel → List Request → ℕ
asked c s = sum_by (λ req. if is_channel c req.result then 1 else 0) s

abbrev is_repair_for : Channel → Request → Bool
is_repair_for c req = is_channel c req.result && repairs req

unfoldable pub asked_repairs : Channel → List Request → ℕ
asked_repairs c s = sum_by (λ req. if is_repair_for c req then 1 else 0) s

-- A send adds an answer to its channel, where the buffer has room for it, and to no other.
answered-sent :
    (c : Channel) (o : Option Channel) (res : RepairResult) (a : Log)
    → (min c.size ((if is_channel c o then 1 else 0) + answered c a) ≤ answered c (sent o res a))
      × (answered c (sent o res a) ≤ (if is_channel c o then 1 else 0) + answered c a)
unfolding answered sent
answered-sent c none res a = (ground arith, omega arith)
answered-sent c (some d) res a = elim (Bool-cases (d == c)) [
  | inl y ↦
      let same : d ≡ c = (channel_eq.same_iff d c).0 y in
      let room : d.size ≡ c.size = ap (λ x. x.size) same in
      let held : answered d a ≡ answered c a = ap (λ x. answered x a) same in
      (ground (arith, y, room, held), ground (arith, y, room, held))
  | inr n ↦ (ground (arith, n), ground (arith, n))
]

is_given-fold_option : (o : Option (Map Key (List Range))) → is_given (fold_option o) ≡ is_given o
unfolding fold_option
is_given-fold_option none = refl
is_given-fold_option (some m) = refl

-- What is still to be answered, where `owes` says which requests count.
module _ (owes : Request → Bool) where
  abbrev one : Request → ℕ
  one req = if owes req then 1 else 0

  unfoldable pub caller_owes : Caller → ℕ
  caller_owes (entered req) = one req
  caller_owes (holding req held todo) = one req
  caller_owes (refused req) = one req
  caller_owes (freeing req todo) = one req

  unfoldable pub runner_owes : Runner → ℕ
  runner_owes (serving req) = one req
  runner_owes (drained req) = one req
  runner_owes (releasing d req todo) = if d then one req else 0
  runner_owes _ = 0

  unfoldable pub owed : Weights
  unfolding caller_owes runner_owes
  owed = record { of_caller = caller_owes; of_request = one; of_runner = runner_owes }

module _ {G : Type 0} (hold release : Key → G → G) (c : Channel) where
  abbrev wants : Request → Bool
  wants req = is_channel c req.result

  abbrev AtMost : G → List Key → ℕ → Log → List Request → Type 0
  AtMost g i n a s = answered c a + n ≤ asked c s

  AtMost-IsKept : IsKept hold release (owed wants) AtMost
  unfolding owed caller_owes runner_owes asked sum_by
  AtMost-IsKept = record {
    waits = (refl, refl, refl);
    rejects = λ req res g i n a s h. omega (arith, h, answered-sent c req.result res a);
    enters = λ req g i n a s h. omega (arith, h);
    none_fresh = λ req res i' g i n a s e h. omega (arith, h, answered-sent c req.result res a);
    marks = λ req m k fresh i' g i n a s e h. h;
    holds = λ req held k todo g i n a s h. h;
    sends = λ req held g i n a s h. (h, h);
    unmarks = λ req g i n a s h. h;
    frees = λ req k todo g i n a s h. h;
    refuses = λ req res g i n a s h. omega (arith, h, answered-sent c req.result res a);
    receives = λ req g i n a s h. (h, h);
    serves = λ req g i n a s e h. omega (arith, h);
    answers = λ req res g i n a s e h. omega (arith, h, answered-sent c req.result res a);
    unmarks_served = λ req g i n a s h. h;
    unmarks_drained = λ req g i n a s h. h;
    releases = λ d req k todo g i n a s h. h;
    resumes = λ req g i n a s h. omega (arith, h);
    drains = λ req res g i n a s h. omega (arith, h, answered-sent c req.result res a);
  }

  AtLeast : G → List Key → ℕ → Log → List Request → Type 0
  AtLeast g i n a s = min c.size (asked_repairs c s) ≤ answered c a + n

  folds :
      (req : Request) (m : ℕ)
      → is_repair_for c (record req { ranges = fold_option req.ranges; skipped = m })
        ≡ is_repair_for c req
  folds req m = rw (is_given-fold_option req.ranges) refl

  AtLeast-IsKept : IsKept hold release (owed (is_repair_for c)) AtLeast
  unfolding AtLeast owed caller_owes runner_owes asked_repairs sum_by
  AtLeast-IsKept = record {
    waits = (refl, refl, refl);
    rejects = λ req res g i n a s h. ground (arith, h, answered-sent c req.result res a);
    enters = λ req g i n a s h. omega (arith, h);
    none_fresh = λ req res i' g i n a s e h. ground (arith, h, answered-sent c req.result res a);
    marks = λ req m k fresh i' g i n a s e h. ground (arith, h, folds req m);
    holds = λ req held k todo g i n a s h. h;
    sends = λ req held g i n a s h. (h, h);
    unmarks = λ req g i n a s h. h;
    frees = λ req k todo g i n a s h. h;
    refuses = λ req res g i n a s h. ground (arith, h, answered-sent c req.result res a);
    receives = λ req g i n a s h. (h, h);
    serves = λ req g i n a s e h. ground (arith, e, h);
    answers = λ req res g i n a s e h. ground (arith, h, answered-sent c req.result res a);
    unmarks_served = λ req g i n a s h. h;
    unmarks_drained = λ req g i n a s h. h;
    releases = λ d req k todo g i n a s h. h;
    resumes = λ req g i n a s h. omega (arith, h);
    drains = λ req res g i n a s h. ground (arith, h, answered-sent c req.result res a);
  }

  -- Who waits for a repair is answered: when no call of Submit is under way, nothing is queued and
  -- the runner waits or is gone, a channel of results that is read only afterwards holds an answer
  -- for every request that came with it and names ranges to repair, be it refused, dropped at the
  -- full queue, drained at the shutdown or carried out, or else as many as its buffer has room for;
  -- and it holds no more answers than it came with requests.
  pub run-answered :
      (cfg : ResolvedConfig) (g : G) (acts : List Action)
      → IsQuiet (run hold release acts (new cfg g))
      → let b = run hold release acts (new cfg g) in
        (min c.size (asked_repairs c b.received) ≤ answered c b.answers)
        × (answered c b.answers ≤ asked c b.received)
  unfolding AtLeast new load sum_by owed runner_owes asked asked_repairs answered
  run-answered cfg g acts q =
      let most =
        run-P hold release (owed wants) AtMost AtMost-IsKept acts (new cfg g) (omega arith) in
      let least =
        run-P hold release (owed (is_repair_for c)) AtLeast AtLeast-IsKept acts (new cfg g)
          (omega arith) in
      (
        omega (
          arith,
          least,
          load_quiet (owed (is_repair_for c)) (run hold release acts (new cfg g)) refl refl q,
        ),
        omega (arith, most),
      )
