-- ===== src/OpenInterest/Plan/Windows.antt =====
-- internal/openinterest/hist.go: the window of every job of a pass.
use chomo_syncer_go.Base.{
  ltb, if◌then◌else◌, ltb_false→le, Bool-cases, if-elim, ◌==◌, nat_eq, All, length, Text, text_eq,
  Map, lookup, sum_by, second, ℕ, suc, ◌+◌, ◌-◌, ◌*◌, ◌/◌, ◌≤◌, ◌<◌, max, ◌≡◌, refl, inl, inr, Bool,
  Option, none, some, List, [], ◌∷◌, arith,
}
use chomo_syncer_go.OpenInterest.Settings.{Hist}
use chomo_syncer_go.OpenInterest.Pages.{HistJob}
use chomo_syncer_go.OpenInterest.Plan.{
  PassStats, Moments, moments, since_of, widen, cut, job_of, is_none, keep_job, counted, plan_since,
  plan_all, insert_job, sort_jobs, no_stats, sorted, plan_jobs,
}

-- What holds of each job: its window has at least one bar and is counted right, it does not reach
-- past the cap, and it begins at the last calibrated bar of the symbol, or earlier, unless that
-- lies past the cap.
pub record Sound (cfg : Hist) (m : Moments) (last : Map Text ℕ) (j : HistJob) : Type 0 where
  pub some_needed : 0 < j.needed
  pub counts : j.needed ≡ (m.floor_now - j.since) / (300 * second)
  pub capped : m.cap_start ≤ j.since
  pub no_hole : (lh : ℕ) → lookup j.symbol last ≡ some lh → j.since ≤ max lh m.cap_start
  pub cold :
      lookup j.symbol last ≡ none → j.since ≤ max (m.floor_now - cfg.cold_start_window) m.cap_start

-- Jobs come with the biggest gaps first.
abbrev pub Falls : List HistJob → Type 0
Falls [] = Unit {0}
Falls (j ∷ js) = All (λ k. k.needed ≤ j.needed) js × Falls js

module _ (P : HistJob → Type 0) where
  All-insert_job : (j : HistJob) (js : List HistJob) → P j → All P js → All P (insert_job j js)
  unfolding insert_job
  All-insert_job j [] h a = (h, tt)
  All-insert_job j (k ∷ ks) h (p, a) =
      if-elim (All P) (ltb j.needed k.needed) {x = k ∷ insert_job j ks} {y = j ∷ k ∷ ks}
        (p, All-insert_job j ks h a) (h, (p, a))

  All-sort_jobs : (js : List HistJob) → All P js → All P (sort_jobs js)
  unfolding sort_jobs
  All-sort_jobs [] a = tt
  All-sort_jobs (j ∷ js) (p, a) = All-insert_job j (sort_jobs js) p (All-sort_jobs js a)

All-le :
    (a b : ℕ) (js : List HistJob) → a ≤ b → All (λ k. k.needed ≤ a) js → All (λ k. k.needed ≤ b) js
All-le a b [] h r = tt
All-le a b (j ∷ js) h (p, r) = (omega arith, All-le a b js h r)

insert_job-Falls : (j : HistJob) (js : List HistJob) → Falls js → Falls (insert_job j js)
unfolding insert_job
insert_job-Falls j [] f = (tt, tt)
insert_job-Falls j (k ∷ ks) (a, f) = elim (Bool-cases (ltb j.needed k.needed)) [
  | inl y ↦ rw y (
    All-insert_job (λ x. x.needed ≤ k.needed) j ks (ground (arith, y)) a,
    insert_job-Falls j ks f,
  )
  | inr n ↦ rw n ((ltb_false→le _ _ n, All-le k.needed j.needed ks (ltb_false→le _ _ n) a), (a, f))
]

sort_jobs-Falls : (js : List HistJob) → Falls (sort_jobs js)
unfolding sort_jobs
sort_jobs-Falls [] = tt
sort_jobs-Falls (j ∷ js) = insert_job-Falls j (sort_jobs js) (sort_jobs-Falls js)

length-insert_job : (j : HistJob) (js : List HistJob) → length (insert_job j js) ≡ suc (length js)
unfolding insert_job
length-insert_job j [] = refl
length-insert_job j (k ∷ ks) = ground (arith, length-insert_job j ks)

length-sort_jobs : (js : List HistJob) → length (sort_jobs js) ≡ length js
unfolding sort_jobs
length-sort_jobs [] = refl
length-sort_jobs (j ∷ js) = omega (arith, length-insert_job j (sort_jobs js), length-sort_jobs js)

-- How many jobs are for a symbol, and how often a symbol is named.
unfoldable pub jobs_for : Text → List HistJob → ℕ
jobs_for s js = sum_by (λ j. if j.symbol == s then 1 else 0) js

unfoldable pub times : Text → List Text → ℕ
times s ss = sum_by (λ t. if t == s then 1 else 0) ss

jobs_for-insert_job :
    (s : Text) (j : HistJob) (js : List HistJob)
    → jobs_for s (insert_job j js) ≡ jobs_for s (j ∷ js)
unfolding jobs_for insert_job sum_by
jobs_for-insert_job s j [] = refl
jobs_for-insert_job s j (k ∷ ks) = ground (arith, jobs_for-insert_job s j ks)

jobs_for-sort_jobs : (s : Text) (js : List HistJob) → jobs_for s (sort_jobs js) ≡ jobs_for s js
unfolding jobs_for sort_jobs sum_by
jobs_for-sort_jobs s [] = refl
jobs_for-sort_jobs s (j ∷ js) =
    omega (arith, jobs_for-insert_job s j (sort_jobs js), jobs_for-sort_jobs s js)

-- As many symbols are skipped or get a job as there are.
abbrev Accounts : ℕ → List HistJob × PassStats → Type 0
Accounts n (jobs, st) = length jobs + st.skipped ≡ n

module _ (cfg : Hist) (full : Bool) (m : Moments) (last : Map Text ℕ) where
  since_of-le :
      (s : Text) (o : Option ℕ) (since : ℕ)
      → since_of cfg full m o ≡ some since
      → ((lh : ℕ) → o ≡ some lh → since ≤ lh)
        × (o ≡ none → since ≤ m.floor_now - cfg.cold_start_window)
  unfolding since_of
  since_of-le s none since e = ((λ lh f. absurd (cc f)), λ f. ground (arith, e))
  since_of-le s (some lh) since e = ((λ lh' f. ground (arith, e, f)), λ f. absurd (cc f))

  job_of-Sound :
      (s : Text) (since : ℕ)
      → since_of cfg full m (lookup s last) ≡ some since
      → 0 < (job_of full m s (is_none (lookup s last)) since).needed
      → Sound cfg m last (job_of full m s (is_none (lookup s last)) since)
  unfolding job_of widen cut
  job_of-Sound s since e h =
      let (known, cold) = since_of-le s (lookup s last) since e in
      record {
        some_needed = h;
        counts = refl;
        capped = ground arith;
        no_hole = λ lh f. ground (arith, known lh f);
        cold = λ f. ground (arith, cold f);
      }

  keep_job-Sound :
      (j : HistJob) (r : List HistJob × PassStats)
      → (0 < j.needed → Sound cfg m last j)
      → All (Sound cfg m last) r.0
      → All (Sound cfg m last) (keep_job j r).0
  unfolding keep_job
  keep_job-Sound j (jobs, st) h a = elim (Bool-cases (ltb j.needed 1)) [
    | inl y ↦ rw y a
    | inr n ↦ rw n (h (ground (arith, n)), a)
  ]

  plan_since-Sound :
      (s : Text) (o : Option ℕ) (r : List HistJob × PassStats)
      → since_of cfg full m (lookup s last) ≡ o
      → All (Sound cfg m last) r.0
      → All (Sound cfg m last) (plan_since full m s (is_none (lookup s last)) o r).0
  unfolding plan_since counted
  plan_since-Sound s none (jobs, st) e a = a
  plan_since-Sound s (some since) (jobs, st) e a =
      keep_job-Sound (job_of full m s (is_none (lookup s last)) since) _ (job_of-Sound s since e) a

  plan_all-Sound :
      (syms : List Text) (r : List HistJob × PassStats)
      → All (Sound cfg m last) r.0
      → All (Sound cfg m last) (plan_all cfg full m last syms r).0
  unfolding plan_all
  plan_all-Sound [] r a = a
  plan_all-Sound (s ∷ syms) r a =
      plan_since-Sound s (since_of cfg full m (lookup s last)) (plan_all cfg full m last syms r)
        refl (plan_all-Sound syms r a)

  plan_since-Accounts :
      (s : Text) (fresh : Bool) (o : Option ℕ) (n : ℕ) (r : List HistJob × PassStats)
      → Accounts n r
      → Accounts (suc n) (plan_since full m s fresh o r)
  unfolding plan_since counted keep_job
  plan_since-Accounts s fresh none n (jobs, st) h = omega (arith, h)
  plan_since-Accounts s fresh (some since) n (jobs, st) h =
      elim (Bool-cases (ltb (job_of full m s fresh since).needed 1)) [
        | inl y ↦ rw y (omega (arith, h))
        | inr k ↦ rw k (omega (arith, h))
      ]

  plan_all-Accounts :
      (syms : List Text) (r : List HistJob × PassStats)
      → Accounts 0 r
      → Accounts (length syms) (plan_all cfg full m last syms r)
  unfolding plan_all
  plan_all-Accounts [] r h = h
  plan_all-Accounts (s ∷ syms) r h =
      plan_since-Accounts s _ (since_of cfg full m (lookup s last)) (length syms)
        (plan_all cfg full m last syms r) (plan_all-Accounts syms r h)

  plan_since-jobs_for :
      (x : Text) (fresh : Bool) (o : Option ℕ) (r : List HistJob × PassStats) (s : Text)
      → jobs_for s (plan_since full m x fresh o r).0 ≤ (if x == s then 1 else 0) + jobs_for s r.0
  unfolding plan_since counted keep_job job_of jobs_for sum_by
  plan_since-jobs_for x fresh none (jobs, st) s = omega arith
  plan_since-jobs_for x fresh (some since) (jobs, st) s =
      elim (Bool-cases (ltb (job_of full m x fresh since).needed 1)) [
        | inl y ↦ rw y (omega arith)
        | inr k ↦ rw k (omega arith)
      ]

  plan_all-jobs_for :
      (syms : List Text) (st : PassStats) (s : Text)
      → jobs_for s (plan_all cfg full m last syms ([], st)).0 ≤ times s syms
  unfolding plan_all jobs_for times sum_by
  plan_all-jobs_for [] st s = omega arith
  plan_all-jobs_for (x ∷ syms) st s = omega (
    arith,
    plan_since-jobs_for x (is_none (lookup x last)) (since_of cfg full m (lookup x last))
        (plan_all cfg full m last syms ([], st)) s,
    plan_all-jobs_for syms st s,
  )

sorted-jobs : (r : List HistJob × PassStats) → (sorted r).0 ≡ sort_jobs r.0
unfolding sorted
sorted-jobs (jobs, st) = refl

sorted-skipped : (r : List HistJob × PassStats) → (sorted r).1.skipped ≡ r.1.skipped
unfolding sorted
sorted-skipped (jobs, st) = refl

Accounts-lem : (n : ℕ) (r : List HistJob × PassStats) → Accounts n r → length r.0 + r.1.skipped ≡ n
Accounts-lem n (jobs, st) h = h

-- The plan of a pass is sound: for any symbols, calibrated bars and time, each job has at least one
-- bar to fetch and counts them right, reaches no further back than the cap, and begins no later
-- than the last calibrated bar of its symbol, or than the cold-start window where there is none,
-- unless that lies past the cap; the biggest gaps come first; no symbol has more jobs than it has places
-- in the list of symbols, and as many places are skipped or get a job as there are, so each is
-- either skipped or gets one job.
pub plan_jobs-Sound :
    (cfg : Hist) (syms : List Text) (last : Map Text ℕ) (now : ℕ) (full : Bool)
    → All (Sound cfg (moments cfg now) last) (plan_jobs cfg syms last now full).0
      × Falls (plan_jobs cfg syms last now full).0
      × ((s : Text) → jobs_for s (plan_jobs cfg syms last now full).0 ≤ times s syms)
      × (length (plan_jobs cfg syms last now full).0 + (plan_jobs cfg syms last now full).1.skipped
          ≡ length syms)
unfolding plan_jobs
plan_jobs-Sound cfg syms last now full =
    let r : List HistJob × PassStats =
      plan_all cfg full (moments cfg now) last syms ([], no_stats (length syms)) in
    let sound : All (Sound cfg (moments cfg now) last) r.0 =
      plan_all-Sound cfg full (moments cfg now) last syms _ tt in
    let counts : length r.0 + r.1.skipped ≡ length syms = Accounts-lem (length syms) r (
      plan_all-Accounts cfg full (moments cfg now) last syms ([], no_stats (length syms))
        (omega arith)) in
    rw sorted-jobs (
      All-sort_jobs (Sound cfg (moments cfg now) last) r.0 sound,
      sort_jobs-Falls r.0,
      λ s. omega (
        arith,
        jobs_for-sort_jobs s r.0,
        plan_all-jobs_for cfg full (moments cfg now) last syms (no_stats (length syms)) s,
      ),
      omega (arith, counts, length-sort_jobs r.0, sorted-skipped r),
    )
