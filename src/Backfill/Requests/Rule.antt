-- ===== src/Backfill/Requests/Rule.antt =====
-- internal/backfill/backfill.go: a rule for invariants that speak of the requests under way through
-- a sum.
use chomo_syncer_go.Base.{
  nat_eq, text_eq, sum_by, ℕ, ◌+◌, ◌≡◌, Bool, true, false, List, [], ◌∷◌, ◌++◌,
}
use chomo_syncer_go.Backfill.{Key}
use chomo_syncer_go.Backfill.Requests.{
  Channel, Request, RepairResult, Caller, entered, holding, refused, freeing, Runner, idle,
  draining, gone, serving, served, drained, releasing, Backfiller, sent, repairs, mark_keys,
  unmark_keys, fold_option,
}

abbrev pub Log : Type 0
Log = List (Channel × RepairResult)

-- How much each goroutine and each queued request counts for.
pub record Weights : Type 0 where
  pub of_caller : Caller → ℕ
  pub of_request : Request → ℕ
  pub of_runner : Runner → ℕ

unfoldable pub load : {G : Type 0} → Weights → Backfiller G → ℕ
unfolding sum_by
load w b = sum_by w.of_caller b.callers + sum_by w.of_request b.queue + w.of_runner b.runner

-- A relation of the gate, the keys in flight, the load, the answers and the requests received that
-- each step keeps; `n` is the load of the others.
pub record IsKept {ℓ} {G : Type 0} (hold release : Key → G → G) (w : Weights)
    (Q : G → List Key → ℕ → Log → List Request → Type ℓ) : Type ℓ where
  pub waits : (w.of_runner idle ≡ 0) × (w.of_runner draining ≡ 0) × (w.of_runner gone ≡ 0)
  pub rejects :
      (req : Request) (res : RepairResult) (g : G) (i : List Key) (n : ℕ) (a : Log)
      (s : List Request)
      → Q g i n a s
      → Q g i n (sent req.result res a) (req ∷ s)
  pub enters :
      (req : Request) (g : G) (i : List Key) (n : ℕ) (a : Log) (s : List Request)
      → Q g i n a s
      → Q g i (w.of_caller (entered req) + n) a (req ∷ s)
  pub none_fresh :
      (req : Request) (res : RepairResult) (i' : List Key) (g : G) (i : List Key) (n : ℕ) (a : Log)
      (s : List Request)
      → mark_keys req.keys i ≡ ([], i')
      → Q g i (w.of_caller (entered req) + n) a s
      → Q g i' n (sent req.result res a) s
  pub marks :
      (req : Request) (m : ℕ) (k : Key) (fresh i' : List Key) (g : G) (i : List Key) (n : ℕ)
      (a : Log) (s : List Request)
      → mark_keys req.keys i ≡ (k ∷ fresh, i')
      → Q g i (w.of_caller (entered req) + n) a s
      → Q g i'
          (w.of_caller
              (holding (record req { ranges = fold_option req.ranges; skipped = m }) [] (k ∷ fresh))
            + n)
          a
          s
  pub holds :
      (req : Request) (held : List Key) (k : Key) (todo : List Key) (g : G) (i : List Key) (n : ℕ)
      (a : Log) (s : List Request)
      → Q g i (w.of_caller (holding req held (k ∷ todo)) + n) a s
      → Q (hold k g) i (w.of_caller (holding req (held ++ k ∷ []) todo) + n) a s
  pub sends :
      (req : Request) (held : List Key) (g : G) (i : List Key) (n : ℕ) (a : Log) (s : List Request)
      → Q g i (w.of_caller (holding req held []) + n) a s
      → Q g i (w.of_request (record req { keys = held }) + n) a s
        × Q g i (w.of_caller (refused (record req { keys = held })) + n) a s
  pub unmarks :
      (req : Request) (g : G) (i : List Key) (n : ℕ) (a : Log) (s : List Request)
      → Q g i (w.of_caller (refused req) + n) a s
      → Q g (unmark_keys req.keys i) (w.of_caller (freeing req req.keys) + n) a s
  pub frees :
      (req : Request) (k : Key) (todo : List Key) (g : G) (i : List Key) (n : ℕ) (a : Log)
      (s : List Request)
      → Q g i (w.of_caller (freeing req (k ∷ todo)) + n) a s
      → Q (release k g) i (w.of_caller (freeing req todo) + n) a s
  pub refuses :
      (req : Request) (res : RepairResult) (g : G) (i : List Key) (n : ℕ) (a : Log)
      (s : List Request)
      → Q g i (w.of_caller (freeing req []) + n) a s
      → Q g i n (sent req.result res a) s
  pub receives :
      (req : Request) (g : G) (i : List Key) (n : ℕ) (a : Log) (s : List Request)
      → Q g i (w.of_request req + n) a s
      → Q g i (w.of_runner (serving req) + n) a s × Q g i (w.of_runner (drained req) + n) a s
  pub serves :
      (req : Request) (g : G) (i : List Key) (n : ℕ) (a : Log) (s : List Request)
      → repairs req ≡ false
      → Q g i (w.of_runner (serving req) + n) a s
      → Q g i (w.of_runner (served req) + n) a s
  pub answers :
      (req : Request) (res : RepairResult) (g : G) (i : List Key) (n : ℕ) (a : Log)
      (s : List Request)
      → repairs req ≡ true
      → Q g i (w.of_runner (serving req) + n) a s
      → Q g i (w.of_runner (served req) + n) (sent req.result res a) s
  pub unmarks_served :
      (req : Request) (g : G) (i : List Key) (n : ℕ) (a : Log) (s : List Request)
      → Q g i (w.of_runner (served req) + n) a s
      → Q g (unmark_keys req.keys i) (w.of_runner (releasing false req req.keys) + n) a s
  pub unmarks_drained :
      (req : Request) (g : G) (i : List Key) (n : ℕ) (a : Log) (s : List Request)
      → Q g i (w.of_runner (drained req) + n) a s
      → Q g (unmark_keys req.keys i) (w.of_runner (releasing true req req.keys) + n) a s
  pub releases :
      (d : Bool) (req : Request) (k : Key) (todo : List Key) (g : G) (i : List Key) (n : ℕ)
      (a : Log) (s : List Request)
      → Q g i (w.of_runner (releasing d req (k ∷ todo)) + n) a s
      → Q (release k g) i (w.of_runner (releasing d req todo) + n) a s
  pub resumes :
      (req : Request) (g : G) (i : List Key) (n : ℕ) (a : Log) (s : List Request)
      → Q g i (w.of_runner (releasing false req []) + n) a s
      → Q g i n a s
  pub drains :
      (req : Request) (res : RepairResult) (g : G) (i : List Key) (n : ℕ) (a : Log)
      (s : List Request)
      → Q g i (w.of_runner (releasing true req []) + n) a s
      → Q g i n (sent req.result res a) s
