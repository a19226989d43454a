-- ===== src/Backfill/Fetch/Archive.antt =====
-- internal/backfill/backfill.go: fetchAndArchive pushes what it fetches.
use mathlib.Core.List.{append_assoc, append-nil}
use chomo_syncer_go.Base.{
  ltb, leb, Bool-cases, ◌==◌, nat_eq, length, length-append, Text, text_eq, ℕ, zero, suc, ◌+◌, ◌-◌,
  ◌≡◌, refl, sym, ap, subst, ◌∙◌, ◌≢◌, inl, inr, Bool, true, false, ◌||◌, Option, none, some, List,
  [], ◌∷◌, ◌++◌,
}
use chomo_syncer_go.Bars.{Row}
use chomo_syncer_go.Backfill.Fetch.{
  RawKline, Reply, page_limit_for, Ended, callback_failed, batch_of, call_on, after_batch, on_page,
  fetch_loop, fetch_stream, collect, Archived, push_rows, archive_batch,
}

-- Two runs of the loop, one of them with the callback of `Fetch`: what every batch that is accepted
-- keeps of the two holds when the loops end, unless a batch was refused.
module _ {ℓ κ} {F : Type 0} {S : Type ℓ} (parse_float : Text → Option F) (symbol : Text) (lim : ℕ)
    (interval : Text) (since until closed_before : ℕ) (reply : ℕ → ℕ → ℕ → Reply)
    (on_batch : S → List (Row F) → S × Bool) (P : S → List (Row F) → Type κ)
    (keep : (s : S) (out batch : List (Row F))
      → P s out
      → (on_batch s batch).1 ≡ false
      → P (on_batch s batch).0 (out ++ batch)) where
  Keeps : S × Ended → List (Row F) × Ended → Type κ
  Keeps r c = r.1 ≢ callback_failed → P r.0 c.0 × (r.1 ≡ c.1)

  after_batch-Keeps :
      (cursor limit : ℕ) (rows : List RawKline) (last : ℕ) (r : S × Bool) (out : List (Row F))
      (go : S → S × Ended) (collects : List (Row F) → List (Row F) × Ended)
      → (r.1 ≡ false → P r.0 out)
      → ((s : S) → P s out → Keeps (go s) (collects out))
      → Keeps
          (after_batch cursor limit rows last r go)
          (after_batch cursor limit rows last (out, false) collects)
  unfolding after_batch Keeps
  after_batch-Keeps cursor limit rows last (s, true) out go collects h g = λ n. absurd (n refl)
  after_batch-Keeps cursor limit rows last (s, false) out go collects h g =
      elim (Bool-cases (length rows == 0 || ltb last cursor)) [
        | inl y ↦ rw y (λ n. (h refl, refl))
        | inr m ↦ rw m (elim (Bool-cases (leb (last + 1) cursor)) [
          | inl y ↦ rw y (λ n. (h refl, refl))
          | inr m' ↦ rw m' (elim (Bool-cases (ltb (length rows) limit)) [
            | inl y ↦ rw y (λ n. (h refl, refl))
            | inr m2 ↦ rw m2 (g s (h refl))
          ])
        ])
      ]

  call_on-keep :
      (s : S) (out batch : List (Row F))
      → P s out
      → (call_on on_batch s batch).1 ≡ false
      → P (call_on on_batch s batch).0 (out ++ batch)
  call_on-keep s out [] p e = subst (P s) (sym (append-nil out)) p
  call_on-keep s out (r ∷ rs) p e = keep s out (r ∷ rs) p e

  call_on-collect : (out batch : List (Row F)) → call_on collect out batch ≡ (out ++ batch, false)
  unfolding collect
  call_on-collect out [] = ap (λ (o : List (Row F)). (o, false)) (sym (append-nil out))
  call_on-collect out (r ∷ rs) = refl

  on_page-Keeps :
      (cursor limit : ℕ) (s : S) (out : List (Row F)) (o : Option (List RawKline × ℕ))
      (go : ℕ → S → S × Ended) (collects : ℕ → List (Row F) → List (Row F) × Ended)
      → P s out
      → ((last : ℕ) (s' : S) (out' : List (Row F))
          → P s' out'
          → Keeps (go last s') (collects last out'))
      → Keeps
          (on_page parse_float symbol since until closed_before on_batch cursor limit s o go)
          (on_page parse_float symbol since until closed_before collect cursor limit out o collects)
  unfolding on_page Keeps
  on_page-Keeps cursor limit s out none go collects p g = λ n. (p, refl)
  on_page-Keeps cursor limit s out (some (rows, last)) go collects p g =
      let batch : List (Row F) = batch_of parse_float symbol since until closed_before rows in
      rw (call_on-collect out batch) (
        after_batch-Keeps cursor limit rows last _ (out ++ batch) (go last) (collects last)
          (call_on-keep s out batch p) (λ s' q. g last s' (out ++ batch) q))

  fetch_loop-Keeps :
      (fuel n cursor : ℕ) (s : S) (out : List (Row F))
      → P s out
      → Keeps
          (fetch_loop parse_float symbol lim interval since until closed_before reply on_batch fuel
            n cursor s)
          (fetch_loop parse_float symbol lim interval since until closed_before reply collect fuel n
            cursor out)
  unfolding fetch_loop Keeps
  fetch_loop-Keeps zero n cursor s out p = λ e. (p, refl)
  fetch_loop-Keeps (suc fuel) n cursor s out p = elim (Bool-cases (ltb cursor until)) [
    | inl y ↦ rw y (
        on_page-Keeps cursor (page_limit_for lim interval cursor until) s out _ _ _ p
          (λ last s' out' q. fetch_loop-Keeps fuel (suc n) (last + 1) s' out' q))
    | inr m ↦ rw m (λ e. (p, refl))
  ]

push_rows-written :
    {R : Type 0} (push_err : ℕ → Bool) (rows : List R) (a : Archived R)
    → (push_rows push_err rows a).1 ≡ false
    → ((push_rows push_err rows a).0.written ≡ a.written ++ rows)
      × ((push_rows push_err rows a).0.fetched ≡ a.fetched)
unfolding push_rows
push_rows-written push_err [] a = λ e. (sym (append-nil a.written), refl)
push_rows-written push_err (r ∷ rs) a = elim (Bool-cases (push_err (length a.written))) [
  | inl bad ↦ rw bad (λ e. cc)
  | inr good ↦ rw good (λ e.
      let next = push_rows-written push_err rs (record a { written = a.written ++ r ∷ [] }) e in
      (next.0 ∙ append_assoc a.written (r ∷ []) rs, next.1))
]

-- What was pushed is what was fetched, and counted.
abbrev Balanced : {R : Type 0} → Archived R → List R → Type 0
Balanced a out = (a.written ≡ out) × (a.fetched ≡ length out)

archive_batch-Balanced :
    {R : Type 0} (push_err : ℕ → Bool) (a : Archived R) (out batch : List R)
    → Balanced a out
    → (archive_batch (some push_err) a batch).1 ≡ false
    → Balanced (archive_batch (some push_err) a batch).0 (out ++ batch)
unfolding archive_batch
archive_batch-Balanced push_err a out batch (w, n) e =
    let pushed =
      push_rows-written push_err batch (record a { fetched = a.fetched + length batch }) e in
    (
      pushed.0 ∙ ap (λ ws. ws ++ batch) w,
      pushed.1 ∙ ap (λ k. k + length batch) n ∙ sym (length-append out batch),
    )

-- Nothing that was fetched is left out of the archive: where `fetchAndArchive` has an archive
-- writer, and `FetchStream` returns, without an error or because a page failed, but not because a
-- push failed, the rows pushed are those that `Fetch` returns for the same answers of the exchange,
-- in order and each once, their number is the one reported, and it ends as `Fetch` does; for any
-- answers of the exchange.
pub fetch_stream-archive :
    {F : Type 0} (parse_float : Text → Option F) (symbol : Text) (lim : ℕ) (interval : Text)
    (since until closed_before : ℕ) (reply : ℕ → ℕ → ℕ → Reply) (push_err : ℕ → Bool)
    → let r =
        fetch_stream parse_float symbol lim interval since until closed_before reply
          (archive_batch (some push_err))
          (record { fetched = 0; written = [] }) in
      let f =
        fetch_stream parse_float symbol lim interval since until closed_before reply collect [] in
      r.1 ≢ callback_failed → ((r.0.written ≡ f.0) × (r.0.fetched ≡ length f.0)) × (r.1 ≡ f.1)
unfolding fetch_stream Keeps
fetch_stream-archive parse_float symbol lim interval since until closed_before reply push_err =
    fetch_loop-Keeps parse_float symbol lim interval since until closed_before reply
      (archive_batch (some push_err)) Balanced (archive_batch-Balanced push_err)
      (suc (until - since)) 0 since _ [] (refl, refl)
