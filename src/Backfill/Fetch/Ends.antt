-- ===== src/Backfill/Fetch/Ends.antt =====
-- internal/backfill/rest.go: FetchStream terminates.
use chomo_syncer_go.Base.{
  ltb, Bool-cases, nat_eq, Text, text_eq, ℕ, zero, suc, ◌+◌, ◌-◌, ◌≤◌, ◌<◌, ◌≢◌, inl, inr, Bool,
  true, false, Option, none, some, List, arith,
}
use chomo_syncer_go.Bars.{Row}
use chomo_syncer_go.Backfill.Fetch.{
  RawKline, Reply, page_limit_for, Ended, out_of_fuel, after_batch, on_page, fetch_loop,
  fetch_stream,
}

after_batch-ends {ℓ} :
    {S : Type ℓ} (cursor limit : ℕ) (rows : List RawKline) (last : ℕ) (r : S × Bool)
    (go : S → S × Ended)
    → (cursor ≤ last → (s : S) → (go s).1 ≢ out_of_fuel)
    → (after_batch cursor limit rows last r go).1 ≢ out_of_fuel
unfolding after_batch
after_batch-ends cursor limit rows last (s, true) go h e = cc
after_batch-ends cursor limit rows last (s, false) go h e = elim (Bool-cases (ltb last cursor)) [
  | inl back ↦ ground (arith, back, e)
  | inr on ↦ ground (arith, h (ground (arith, on)) s, e)
]

module _ {ℓ} {F : Type 0} {S : Type ℓ} (parse_float : Text → Option F) (symbol : Text) (lim : ℕ)
    (interval : Text) (since until closed_before : ℕ) (reply : ℕ → ℕ → ℕ → Reply)
    (on_batch : S → List (Row F) → S × Bool) where
  on_page-ends :
      (cursor limit : ℕ) (s : S) (o : Option (List RawKline × ℕ)) (go : ℕ → S → S × Ended)
      → ((last : ℕ) → cursor ≤ last → (s' : S) → (go last s').1 ≢ out_of_fuel)
      → (on_page parse_float symbol since until closed_before on_batch cursor limit s o go).1
        ≢ out_of_fuel
  unfolding on_page
  on_page-ends cursor limit s none go h = λ e. cc
  on_page-ends cursor limit s (some (rows, last)) go h =
      after_batch-ends cursor limit rows last _ (go last) (h last)

  fetch_loop-ends :
      (fuel n cursor : ℕ) (s : S)
      → until - cursor < fuel
      → (fetch_loop parse_float symbol lim interval since until closed_before reply on_batch fuel n
          cursor s).1
        ≢ out_of_fuel
  unfolding fetch_loop
  fetch_loop-ends zero n cursor s h = absurd (omega arith)
  fetch_loop-ends (suc fuel) n cursor s h = elim (Bool-cases (ltb cursor until)) [
    | inl more ↦ rw more (
        on_page-ends cursor (page_limit_for lim interval cursor until) s _ _
          (λ last l s'. fetch_loop-ends fuel (suc n) (last + 1) s' (ground (arith, more, l))))
    | inr done ↦ rw done (λ e. cc)
  ]

  -- FetchStream ends: for any answers of the exchange and any callback, it returns because the
  -- range is exhausted, a page failed or the callback failed, after at most one request for each
  -- millisecond of the range and one more.
  pub fetch_stream-ends :
      (s : S)
      → (fetch_stream parse_float symbol lim interval since until closed_before reply on_batch s).1
        ≢ out_of_fuel
  unfolding fetch_stream
  fetch_stream-ends s = fetch_loop-ends (suc (until - since)) 0 since s (omega arith)
