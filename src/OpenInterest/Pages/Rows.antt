-- ===== src/OpenInterest/Pages/Rows.antt =====
-- internal/openinterest/hist.go: fetchSymbol pushes the row of every published bar of the gap.
use mathlib.Core.List.{append_assoc, append-nil}
use chomo_syncer_go.Base.{
  ltb, if◌then◌else◌, Bool-cases, nat_eq, length, length-append, Text, text_eq, sum_by,
  sum_by-append, second, ℕ, ◌+◌, ◌-◌, ◌*◌, ◌/◌, ◌≤◌, ◌<◌, max, ◌≡◌, refl, sym, ap, subst, ◌∙◌, inl,
  inr, Bool, true, false, Option, none, some, List, [], ◌∷◌, ◌++◌, arith,
}
use chomo_syncer_go.OpenInterest.{hist_bar_start, Row}
use chomo_syncer_go.OpenInterest.Pages.{
  Point, Reply, points, finished, Limits, HistJob, start_label, Emitted, LiveView, row_of, emit_row,
  emit_at, emit_point, and_then, emit, nothing_emitted, fetch_symbol,
}
use chomo_syncer_go.OpenInterest.Pages.Window.{Spaced, between, last_n}
use chomo_syncer_go.OpenInterest.Pages.Complete.{page_back-Done}

row_at : {F : Type 0} → Text → Point F → Option ℕ → List (Row F)
row_at symbol p none = []
row_at symbol p (some start) = row_of symbol start p ∷ []

-- The row of a point, if its label is not after now and on a boundary.
unfoldable pub point_rows : {F : Type 0} → Text → ℕ → Point F → List (Row F)
unfolding row_at
point_rows symbol now p = if ltb now p.label then [] else row_at symbol p (hist_bar_start p.label)

unfoldable pub rows_of : {F : Type 0} → Text → ℕ → List (Point F) → List (Row F)
rows_of symbol now [] = []
rows_of symbol now (p ∷ ps) = point_rows symbol now p ++ rows_of symbol now ps

unfoldable pub newest_of : {F : Type 0} → List (Row F) → ℕ
newest_of [] = 0
newest_of (r ∷ rs) = max r.start_time (newest_of rs)

newest_of-append :
    {F : Type 0} (rs ts : List (Row F)) → newest_of (rs ++ ts) ≡ max (newest_of rs) (newest_of ts)
unfolding newest_of
newest_of-append [] ts = omega arith
newest_of-append (r ∷ rs) ts = omega (arith, newest_of-append rs ts)

rows_of-append :
    {F : Type 0} (symbol : Text) (now : ℕ) (ps qs : List (Point F))
    → rows_of symbol now (ps ++ qs) ≡ rows_of symbol now ps ++ rows_of symbol now qs
unfolding rows_of
rows_of-append symbol now [] qs = refl
rows_of-append symbol now (p ∷ ps) qs =
    ap (λ rs. point_rows symbol now p ++ rs) (rows_of-append symbol now ps qs)
    ∙ sym (append_assoc (point_rows symbol now p) (rows_of symbol now ps) (rows_of symbol now qs))

-- What a run of `emit` adds.
abbrev Adds : {F : Type 0} → Emitted F → Emitted F × Bool → List (Row F) → Type 0
Adds e r rs =
    (r.1 ≡ false)
    × (r.0.pushed ≡ e.pushed ++ rs)
    × (r.0.newest ≡ max e.newest (newest_of rs))
    × (r.0.rows ≡ e.rows + length rs)

module _ {F : Type 0} (push_err : Row F → Bool) (live : Option LiveView) (symbol : Text) (now : ℕ)
    (accepts : (r : Row F) → push_err r ≡ false) where
  emit_at-Adds :
      (p : Point F) (o : Option ℕ) (e : Emitted F)
      → Adds e (emit_at push_err live symbol now p o e) (row_at symbol p o)
  unfolding emit_at emit_row row_of row_at newest_of
  emit_at-Adds p none e = (refl, sym (append-nil e.pushed), omega arith, omega arith)
  emit_at-Adds p (some start) e =
      rw (accepts (row_of symbol start p)) (refl, refl, ground arith, omega arith)

  emit_point-Adds :
      (p : Point F) (e : Emitted F)
      → Adds e (emit_point push_err live symbol now p e) (point_rows symbol now p)
  unfolding emit_point point_rows newest_of
  emit_point-Adds p e = elim (Bool-cases (ltb now p.label)) [
    | inl y ↦ rw y (refl, sym (append-nil e.pushed), omega arith, omega arith)
    | inr n ↦ rw n (emit_at-Adds p (hist_bar_start p.label) e)
  ]

  and_then-Adds :
      (e : Emitted F) (r : Emitted F × Bool) (next : Emitted F → Emitted F × Bool)
      (rs ts : List (Row F))
      → Adds e r rs
      → Adds r.0 (next r.0) ts
      → Adds e (and_then push_err live symbol now next r) (rs ++ ts)
  unfolding and_then
  and_then-Adds e (e', true) next rs ts (ok, f, n, c) g = absurd (cc ok)
  and_then-Adds e (e', false) next rs ts (ok, f, n, c) (ok', f', n', c') = (
    ok',
    f' ∙ ap (λ us. us ++ ts) f ∙ append_assoc e.pushed rs ts,
    omega (arith, n, n', newest_of-append rs ts),
    omega (arith, c, c', length-append rs ts),
  )

  emit-Adds :
      (ps : List (Point F)) (e : Emitted F)
      → Adds e (emit push_err live symbol now e ps) (rows_of symbol now ps)
  unfolding emit rows_of newest_of
  emit-Adds [] e = (refl, sym (append-nil e.pushed), omega arith, omega arith)
  emit-Adds (p ∷ ps) e =
      and_then-Adds e (emit_point push_err live symbol now p e)
        (λ e'. emit push_err live symbol now e' ps) (point_rows symbol now p)
        (rows_of symbol now ps) (emit_point-Adds p e)
        (emit-Adds ps (emit_point push_err live symbol now p e).0)

-- The rows are those of the points, each as often, and the newest start is that of the rows.
abbrev pub HasRows : {F : Type 0} → Emitted F → List (Row F) → Type 0
HasRows {F} e rs =
    ((q : Row F → ℕ) → sum_by q e.pushed ≡ sum_by q rs)
    × (e.newest ≡ newest_of rs)
    × (e.rows ≡ length rs)

module _ {F : Type 0} (push_err : Row F → Bool) (live : Option LiveView) (symbol : Text) (now : ℕ)
    (accepts : (r : Row F) → push_err r ≡ false) where
  emit-HasRows :
      (e : Emitted F) (out page : List (Point F))
      → HasRows e (rows_of symbol now out)
      → ((emit push_err live symbol now e page).1 ≡ false)
        × HasRows (emit push_err live symbol now e page).0 (rows_of symbol now (page ++ out))
  emit-HasRows e out page (same, newest, count) =
      let (ok, f, n, c) = emit-Adds push_err live symbol now accepts page e in
      let split : rows_of symbol now (page ++ out)
          ≡ rows_of symbol now page ++ rows_of symbol now out =
        rows_of-append symbol now page out in
      (
        ok,
        subst (HasRows (emit push_err live symbol now e page).0) (sym split) (
          (λ q.
              ap (sum_by q) f
              ∙ sum_by-append q e.pushed (rows_of symbol now page)
              ∙ omega (
                arith,
                same q,
                sum_by-append q (rows_of symbol now page) (rows_of symbol now out),
              )),
          omega (
            arith,
            n,
            newest,
            newest_of-append (rows_of symbol now page) (rows_of symbol now out),
          ),
          omega (arith, c, count, length-append (rows_of symbol now page) (rows_of symbol now out)),
        ),
      )

-- A gap is filled whole: whatever bars an exchange that answers with the newest points of the
-- requested window holds, where their labels rise by at least a bar, whatever the settings, where
-- no more bars have closed since the plan of the job than a page holds, and where the sink takes
-- every row, `fetchSymbol` ends without an error within its pages; the rows pushed are those of the
-- published bars from the first one wanted up to now, each as often as it is published, and the
-- newest bar it reports is the newest of them.
pub fetch_symbol-rows :
    {F : Type 0} (l : Limits) (j : HistJob) (now : ℕ) (history : List (Point F))
    (reply : ℕ → ℕ → ℕ → ℕ → Reply F) (push_err : Row F → Bool) (live : Option LiveView)
    → 0 < l.max_limit
    → 0 < l.margin
    → Spaced 0 history
    → (now - j.since) / (300 * second) ≤ j.needed + l.max_limit
    → ((n end limit : ℕ)
        → reply n (start_label j) end limit
          ≡ points (last_n limit (between (start_label j) end history)))
    → ((r : Row F) → push_err r ≡ false)
    → ((fetch_symbol l reply push_err live j now).1 ≡ finished)
      × HasRows
          (fetch_symbol l reply push_err live j now).0
          (rows_of j.symbol now (between (start_label j) now history))
unfolding fetch_symbol nothing_emitted start_label rows_of newest_of sum_by
fetch_symbol-rows l j now history reply push_err live positive margin spaced enough honest accepts =
    page_back-Done l (start_label j) history reply (emit push_err live j.symbol now)
      (λ e out. HasRows e (rows_of j.symbol now out)) positive margin (omega arith) spaced honest
      (emit-HasRows push_err live j.symbol now accepts) j now nothing_emitted refl enough
      ((λ q. refl), refl, refl)
