-- ===== src/Backfill/Fetch/Complete.antt =====
-- internal/backfill/rest.go: Fetch returns every closed bar of the range.
use mathlib.Core.List.{append_assoc, append-nil}
use chomo_syncer_go.Base.{
  ltb, leb, if◌then◌else◌, ltb→lt, le→leb, lt→leb_false, ltb_false→le, Bool-cases, if-elim, nat_eq,
  All, length, take, drop, length-take, take_all, take-append-drop, Text, text_eq, ℤ, ℕ, zero, suc,
  ◌+◌, ◌-◌, ◌≤◌, ◌<◌, ◌≡◌, refl, sym, ap, subst, ◌∙◌, ◌≢◌, inl, inr, false, ◌&&◌, Option, some,
  List, [], ◌∷◌, ◌++◌, arith,
}
use chomo_syncer_go.Bars.{Row}
use chomo_syncer_go.Backfill.Fetch.{
  RawKline, Reply, page, last_open, page_limit_for, Ended, finished, batch_of, call_on, collect,
  after_batch, on_page, fetch_loop, fetch_stream, page_span,
}
use chomo_syncer_go.Backfill.Fetch.Bounds.{page_limit_for_bounds}

-- Open times rise strictly, from `lo` on.
abbrev pub Rises : ℕ → List RawKline → Type 0
Rises lo [] = Unit {0}
Rises lo (k ∷ ks) = (lo ≤ k.open_ms) × Rises (suc k.open_ms) ks

-- The bars that open from `c` up to `u`, both included, as the exchange takes the range.
unfoldable pub between : ℕ → ℕ → List RawKline → List RawKline
between c u [] = []
between c u (k ∷ ks) =
    let rest = between c u ks in if leb c k.open_ms && leb k.open_ms u then k ∷ rest else rest

Rises-mono : (lo lo' : ℕ) (ks : List RawKline) → lo' ≤ lo → Rises lo ks → Rises lo' ks
Rises-mono lo lo' [] h r = tt
Rises-mono lo lo' (k ∷ ks) h (l, r) = (omega arith, r)

between-Rises : (lo c u : ℕ) (ks : List RawKline) → Rises lo ks → Rises lo (between c u ks)
unfolding between
between-Rises lo c u [] r = tt
between-Rises lo c u (k ∷ ks) (l, r) =
    let rest : Rises (suc k.open_ms) (between c u ks) = between-Rises (suc k.open_ms) c u ks r in
    if-elim (Rises lo) (leb c k.open_ms && leb k.open_ms u) (l, rest)
      (Rises-mono (suc k.open_ms) lo (between c u ks) (omega arith) rest)

-- The bars between start at the lower end, and stop at the upper.
between-Rises_from : (lo c u : ℕ) (ks : List RawKline) → Rises lo ks → Rises c (between c u ks)
unfolding between
between-Rises_from lo c u [] r = tt
between-Rises_from lo c u (k ∷ ks) (l, r) = elim (Bool-cases (leb c k.open_ms && leb k.open_ms u)) [
  | inl y ↦ rw y (ground (arith, y), between-Rises (suc k.open_ms) c u ks r)
  | inr n ↦ rw n (between-Rises_from (suc k.open_ms) c u ks r)
]

between-le : (c u : ℕ) (ks : List RawKline) → All (λ k. k.open_ms ≤ u) (between c u ks)
unfolding between
between-le c u [] = tt
between-le c u (k ∷ ks) = elim (Bool-cases (leb c k.open_ms && leb k.open_ms u)) [
  | inl y ↦ rw y (ground (arith, y), between-le c u ks)
  | inr n ↦ rw n (between-le c u ks)
]

between-All :
    (lo u : ℕ) (ks : List RawKline)
    → Rises lo ks
    → All (λ k. k.open_ms ≤ u) ks
    → between lo u ks ≡ ks
unfolding between
between-All lo u [] r a = refl
between-All lo u (k ∷ ks) (l, r) (b, a) =
    rw (le→leb lo k.open_ms l, le→leb k.open_ms u b)
      (ap (◌∷◌ k) (between-All lo u ks (Rises-mono (suc k.open_ms) lo ks (omega arith) r) a))

between-between :
    (c d u : ℕ) (ks : List RawKline) → c ≤ d → between d u (between c u ks) ≡ between d u ks
unfolding between
between-between c d u [] h = refl
between-between c d u (k ∷ ks) h = ground (arith, between-between c d u ks)

last_open-ge : (m n : ℕ) (ks : List RawKline) → Rises (suc m) ks → m ≤ last_open m (take n ks)
unfolding last_open
last_open-ge m zero ks r = omega arith
last_open-ge m (suc n) [] r = omega arith
last_open-ge m (suc n) (k ∷ ks) (l, r) = omega (arith, l, last_open-ge k.open_ms n ks r)

-- The bars after a page are those that open after its last.
between-last_open :
    (m n u : ℕ) (ks : List RawKline)
    → Rises (suc m) ks
    → All (λ k. k.open_ms ≤ u) ks
    → between (last_open m (take n ks) + 1) u ks ≡ drop n ks
unfolding last_open between
between-last_open m zero u ks r a =
    subst (λ c. between c u ks ≡ ks) (omega arith) (between-All (suc m) u ks r a)
between-last_open m (suc n) u [] r a = refl
between-last_open m (suc n) u (k ∷ ks) (l, r) (b, a) =
    let le : k.open_ms ≤ last_open k.open_ms (take n ks) = last_open-ge k.open_ms n ks r in
    rw (lt→leb_false (last_open k.open_ms (take n ks) + 1) k.open_ms (omega arith))
      (between-last_open k.open_ms n u ks r a)

-- The bars of the next request are those that this page has left.
between-next :
    (c l u : ℕ) (ks : List RawKline)
    → 0 < l
    → length ks ≢ 0
    → Rises c ks
    → All (λ k. k.open_ms ≤ u) ks
    → (c ≤ last_open 0 (take l ks)) × (between (last_open 0 (take l ks) + 1) u ks ≡ drop l ks)
unfolding last_open between
between-next c zero u ks h n r a = absurd (omega arith)
between-next c (suc l) u [] h n r a = absurd (n refl)
between-next c (suc l) u (k ∷ ks) h n (m, r) (b, a) =
    let le : k.open_ms ≤ last_open k.open_ms (take l ks) = last_open-ge k.open_ms l ks r in
    (
      omega arith,
      rw (lt→leb_false (last_open k.open_ms (take l ks) + 1) k.open_ms (omega arith))
          (between-last_open k.open_ms l u ks r a),
    )

module _ {F : Type 0} (parse_float : Text → Option F) (symbol : Text)
    (since until closed_before : ℕ) where
  -- The rows of the bars that open in the range, are closed and are well formed.
  abbrev pub rows_in : List RawKline → List (Row F)
  rows_in ks = batch_of parse_float symbol since until closed_before ks

  rows_in-append : (ks ls : List RawKline) → rows_in (ks ++ ls) ≡ rows_in ks ++ rows_in ls
  unfolding batch_of
  rows_in-append [] ls = refl
  rows_in-append (k ∷ ks) ls = ground (arith, rows_in-append ks ls)

  rows_in-past : (c : ℕ) (ks : List RawKline) → until ≤ c → Rises c ks → rows_in ks ≡ []
  unfolding batch_of
  rows_in-past c [] h r = refl
  rows_in-past c (k ∷ ks) h (l, r) = ground (arith, rows_in-past (suc k.open_ms) ks (omega arith) r)

  rows_in-between :
      (c u : ℕ) (ks : List RawKline) → c ≤ since → until ≤ u → rows_in (between c u ks) ≡ rows_in ks
  unfolding batch_of between
  rows_in-between c u [] h l = refl
  rows_in-between c u (k ∷ ks) h l = ground (arith, rows_in-between c u ks)

  call_on-collect : (out batch : List (Row F)) → call_on collect out batch ≡ (out ++ batch, false)
  unfolding collect
  call_on-collect out [] = rw append-nil refl
  call_on-collect out (r ∷ rs) = refl

  after_batch-short :
      (c n last : ℕ) (rows : List RawKline) (s : List (Row F))
      (go : List (Row F) → List (Row F) × Ended)
      → length rows < n
      → after_batch c n rows last (s, false) go ≡ (s, finished)
  unfolding after_batch
  after_batch-short c n last rows s go h = ground arith

  after_batch-full :
      (c n last : ℕ) (k : RawKline) (rows : List RawKline) (s : List (Row F))
      (go : List (Row F) → List (Row F) × Ended)
      → c ≤ last
      → n ≤ length (k ∷ rows)
      → after_batch c n (k ∷ rows) last (s, false) go ≡ go s
  unfolding after_batch
  after_batch-full c n last k rows s go h l = ground arith

  -- One page of an honest exchange, where `go` yields the rows of the bars after it.
  on_page-collect :
      (c n : ℕ) (out : List (Row F)) (ks : List RawKline)
      (go : ℕ → List (Row F) → List (Row F) × Ended)
      → 0 < n
      → Rises c ks
      → (length ks ≢ 0
          → (s : List (Row F))
          → go (last_open 0 (take n ks)) s ≡ (s ++ rows_in (drop n ks), finished))
      → on_page parse_float symbol since until closed_before collect c n out
          (some (take n ks, last_open 0 (take n ks)))
          go
        ≡ (out ++ rows_in ks, finished)
  unfolding on_page last_open
  on_page-collect c zero out ks go h r g = absurd (omega arith)
  on_page-collect c (suc n) out [] go h r g =
      rw (call_on-collect out (rows_in []))
        (after_batch-short c (suc n) 0 [] (out ++ rows_in []) (go 0) (omega arith))
  on_page-collect c (suc n) out (k ∷ ks) go h (l, r) g =
      let rows : List RawKline = take (suc n) (k ∷ ks) in
      let last : ℕ = last_open k.open_ms (take n ks) in
      rw (call_on-collect out (rows_in (k ∷ take n ks)))
        (elim (Bool-cases (ltb (length rows) (suc n))) [
          | inl short ↦
              let whole : rows ≡ k ∷ ks =
                take_all (suc n) (k ∷ ks) (ground (arith, short, length-take (suc n) (k ∷ ks))) in
              after_batch-short c (suc n) last rows (out ++ rows_in rows) (go last)
                (ltb→lt _ _ short)
              ∙ ap (λ ls. (out ++ rows_in ls, finished)) whole
          | inr full ↦
              after_batch-full c (suc n) last k (take n ks) (out ++ rows_in rows) (go last)
                (omega (arith, l, last_open-ge k.open_ms n ks r)) (ltb_false→le _ _ full)
              ∙ g (λ e. absurd (omega (arith, e))) (out ++ rows_in rows)
              ∙ ap (λ ls. (ls, finished))
                  (append_assoc out (rows_in rows) (rows_in (drop n ks))
                    ∙ ap (◌++◌ out) (sym (rows_in-append rows (drop n ks)))
                    ∙ ap (λ ls. out ++ rows_in ls) (take-append-drop (suc n) (k ∷ ks)))
        ])

module _ {F : Type 0} (parse_float : Text → Option F) (symbol : Text) (lim : ℕ) (interval : Text)
    (since until closed_before : ℕ) (reply : ℕ → ℕ → ℕ → Reply) (history : List RawKline)
    (positive : (c : ℕ) → 0 < page_limit_for lim interval c until) (rising : Rises 0 history)
    (honest : (n c l : ℕ)
      → page (reply n c l)
        ≡ some (
          take l (between c until history),
          last_open 0 (take l (between c until history)),
        )) where
  loop-collect :
      (fuel n c : ℕ) (out : List (Row F))
      → until - c < fuel
      → fetch_loop parse_float symbol lim interval since until closed_before reply collect fuel n c
          out
        ≡ (
          out ++ rows_in parse_float symbol since until closed_before (between c until history),
          finished,
        )
  unfolding fetch_loop
  loop-collect zero n c out h = absurd (omega arith)
  loop-collect (suc fuel) n c out h = elim (Bool-cases (ltb c until)) [
    | inl more ↦
        rw (more, honest n c (page_limit_for lim interval c until))
          (on_page-collect parse_float symbol since until closed_before c
            (page_limit_for lim interval c until) out left
            (λ last s.
              fetch_loop parse_float symbol lim interval since until closed_before reply collect
                fuel (suc n) (last + 1) s)
            (positive c) (between-Rises_from 0 c until history rising)
            (λ some_left s.
              let (le, next) =
                between-next c (page_limit_for lim interval c until) until left (positive c)
                  some_left (between-Rises_from 0 c until history rising)
                  (between-le c until history) in
              let last : ℕ = last_open 0 (take (page_limit_for lim interval c until) left) in
              loop-collect fuel (suc n) (last + 1) s (ground (arith, le, more))
              ∙ ap (λ ks. (s ++ batch_of parse_float symbol since until closed_before ks, finished))
                  (sym (between-between c (last + 1) until history (omega (arith, le))) ∙ next)))
    | inr done ↦ rw done (
        ap (λ rows. (rows, finished))
          (sym (append-nil out)
            ∙ ap (◌++◌ out) (
                sym (
                  rows_in-past parse_float symbol since until closed_before c left
                    (ltb_false→le _ _ done) (between-Rises_from 0 c until history rising)))))
  ]
    where
      left : List RawKline
      left = between c until history

-- `Fetch` is complete: against an exchange whose pages are the first bars of a rising history that
-- open from the cursor up to the end of the range, it returns without an error, and what it returns
-- are the rows of all bars of that history that open in the range, are closed and are well formed,
-- in order and each once, for any configured page span and any interval.
pub fetch_stream-collect :
    {F : Type 0} (parse_float : Text → Option F) (symbol : Text) (span : ℤ) (interval : Text)
    (since until closed_before : ℕ) (reply : ℕ → ℕ → ℕ → Reply) (history : List RawKline)
    → Rises 0 history
    → ((n c l : ℕ)
        → page (reply n c l)
          ≡ some (take l (between c until history), last_open 0 (take l (between c until history))))
    → fetch_stream parse_float symbol
        (page_span span)
        interval
        since
        until
        closed_before
        reply
        collect
        []
      ≡ (batch_of parse_float symbol since until closed_before history, finished)
unfolding fetch_stream
fetch_stream-collect parse_float symbol span interval since until closed_before reply history r h =
    loop-collect parse_float symbol (page_span span) interval since until closed_before reply
      history (λ c. (page_limit_for_bounds span interval c until).0) r h (suc (until - since)) 0
      since [] (omega arith)
    ∙ ap (λ rows. (rows, finished))
        (rows_in-between parse_float symbol since until closed_before since until history
          (omega arith) (omega arith))
