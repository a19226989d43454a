-- ===== src/Backfill/Requests/Marks.antt =====
-- internal/backfill/backfill.go: no two requests under way have a key in common.
use chomo_syncer_go.Base.{
  if◌then◌else◌, ◌==◌, nat_eq, text_eq, contains, add_elem, contains-add_elem, without,
  contains-without, sum_by, sum_by-append, ℕ, ◌+◌, ◌≡◌, refl, ap, subst, ◌∙◌, Bool, List, [], ◌∷◌,
  ◌++◌, arith,
}
use chomo_syncer_go.Backfill.{Key, key_beq_iff, key_eq, fold_key}
use chomo_syncer_go.Backfill.Requests.Settings.{ResolvedConfig}
use chomo_syncer_go.Backfill.Requests.{
  Request, Caller, holding, refused, Runner, serving, served, drained, new, mark_keys, unmark_keys,
  Action, run,
}
use chomo_syncer_go.Backfill.Requests.Rule.{Log, Weights, load, IsKept}
use chomo_syncer_go.Backfill.Requests.Reach.{run-P}

-- How often a key is counted.
unfoldable pub counted : Key → List Key → ℕ
counted j ks = sum_by (λ k. if k == j then 1 else 0) ks

-- How often a goroutine marks a key as in flight.
unfoldable pub caller_marks : Key → Caller → ℕ
unfolding counted
caller_marks j (holding req held todo) = counted j held + counted j todo
caller_marks j (refused req) = counted j req.keys
caller_marks j _ = 0

unfoldable pub runner_marks : Key → Runner → ℕ
unfolding counted
runner_marks j (serving req) = counted j req.keys
runner_marks j (served req) = counted j req.keys
runner_marks j (drained req) = counted j req.keys
runner_marks j _ = 0

unfoldable pub marks : Key → Weights
unfolding caller_marks counted runner_marks
marks j = record {
  of_caller = caller_marks j;
  of_request = λ req. counted j req.keys;
  of_runner = runner_marks j;
}

abbrev one_if : Bool → ℕ
one_if b = if b then 1 else 0

-- The fresh keys are those that the loop adds to the ones in flight.
mark_keys-counted :
    (j : Key) (ks i : List Key)
    → one_if (contains (mark_keys ks i).1 j) ≡ counted j (mark_keys ks i).0 + one_if (contains i j)
unfolding mark_keys counted sum_by contains
mark_keys-counted j [] i = omega arith
mark_keys-counted j (k ∷ ks) i = ground (
  arith,
  mark_keys-counted j ks i,
  mark_keys-counted j ks (add_elem (fold_key k) i),
  contains-add_elem (fold_key k) j i,
  key_beq_iff (fold_key k) j,
)

-- Of a key in flight at most once, the loop of `releaseKeys` takes off the counted.
unmark_keys-counted :
    (j : Key) (ks i : List Key) (n : ℕ)
    → one_if (contains i j) ≡ counted j ks + n
    → one_if (contains (unmark_keys ks i) j) ≡ n
unfolding unmark_keys counted sum_by
unmark_keys-counted j [] i n h = omega (arith, h)
unmark_keys-counted j (k ∷ ks) i n h =
    unmark_keys-counted j ks (without k i) n
      (ground (arith, h, contains-without k j i, key_beq_iff k j))

module _ {G : Type 0} (hold release : Key → G → G) (j : Key) where
  abbrev Marked : G → List Key → ℕ → Log → List Request → Type 0
  Marked g i n a s = one_if (contains i j) ≡ n

  none_fresh_kept :
      (ks i i' : List Key) (n : ℕ)
      → mark_keys ks i ≡ ([], i')
      → one_if (contains i j) ≡ n
      → one_if (contains i' j) ≡ n
  unfolding counted sum_by
  none_fresh_kept ks i i' n e h =
      let added : one_if (contains i' j) ≡ 0 + one_if (contains i j) =
        subst (λ r. one_if (contains r.1 j) ≡ counted j r.0 + one_if (contains i j)) e
          (mark_keys-counted j ks i) in
      omega (arith, h, added)

  marks_kept :
      (ks fresh i i' : List Key) (n : ℕ)
      → mark_keys ks i ≡ (fresh, i')
      → one_if (contains i j) ≡ n
      → one_if (contains i' j) ≡ counted j fresh + n
  marks_kept ks fresh i i' n e h =
      subst (λ r. one_if (contains r.1 j) ≡ counted j r.0 + one_if (contains i j)) e
        (mark_keys-counted j ks i)
      ∙ ap (λ m. counted j fresh + m) h

  holds_kept :
      (held : List Key) (k : Key) (todo : List Key) (m n : ℕ)
      → m ≡ counted j held + counted j (k ∷ todo) + n
      → m ≡ counted j (held ++ k ∷ []) + counted j todo + n
  unfolding counted sum_by
  holds_kept held k todo m n h =
      omega (arith, h, sum_by-append (λ l. if l == j then 1 else 0) held (k ∷ []))

  Marked-IsKept : IsKept hold release (marks j) Marked
  unfolding marks counted sum_by
  Marked-IsKept = record {
    waits = (refl, refl, refl);
    rejects = λ req res g i n a s h. h;
    enters = λ req g i n a s h. omega (arith, h);
    none_fresh = λ req res i' g i n a s e h. none_fresh_kept req.keys i i' n e (omega (arith, h));
    marks = λ req m k fresh i' g i n a s e h.
        omega (arith, marks_kept req.keys (k ∷ fresh) i i' n e (omega (arith, h)));
    holds = λ req held k todo g i n a s h. holds_kept held k todo _ n h;
    sends = λ req held g i n a s h. (omega (arith, h), omega (arith, h));
    unmarks = λ req g i n a s h. unmark_keys-counted j req.keys i n h ∙ omega arith;
    frees = λ req k todo g i n a s h. h;
    refuses = λ req res g i n a s h. omega (arith, h);
    receives = λ req g i n a s h. (h, h);
    serves = λ req g i n a s e h. h;
    answers = λ req res g i n a s e h. h;
    unmarks_served = λ req g i n a s h. unmark_keys-counted j req.keys i n h ∙ omega arith;
    unmarks_drained = λ req g i n a s h. unmark_keys-counted j req.keys i n h ∙ omega arith;
    releases = λ d req k todo g i n a s h. h;
    resumes = λ req g i n a s h. omega (arith, h);
    drains = λ req res g i n a s h. omega (arith, h);
  }

  -- A key is in flight while it is a key of exactly one request that is past its mark in Submit and
  -- whose keys are not yet unmarked, and otherwise it is a key of none: whatever the order of the
  -- steps, no two requests repair one key at the same time.
  pub run-marks :
      (cfg : ResolvedConfig) (g : G) (acts : List Action)
      → (if contains (run hold release acts (new cfg g)).inflight j then 1 else 0)
        ≡ load (marks j) (run hold release acts (new cfg g))
  unfolding new load sum_by marks runner_marks contains
  run-marks cfg g acts = run-P hold release (marks j) Marked Marked-IsKept acts (new cfg g) refl
