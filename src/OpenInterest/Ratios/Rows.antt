-- ===== src/OpenInterest/Ratios/Rows.antt =====
-- internal/openinterest/lsratio_hist.go: the merged rows, each of its bar and closed by the limit.
use chomo_syncer_go.Base.{
  ltb, if-elim, ◌==◌, nat_eq, All, Text, text_eq, Map, lookup, insert, second, ℕ, ◌-◌, ◌*◌, ◌≤◌,
  ◌≡◌, refl, Option, none, some, List, [], ◌∷◌, arith,
}
use chomo_syncer_go.OpenInterest.{hist_bar_start}
use chomo_syncer_go.OpenInterest.Pages.{Point}
use chomo_syncer_go.OpenInterest.Ratios.{
  RatioKind, top_account, top_position, global_account, LsRow, new_ls_row, set_ratio, Series,
  row_or_new, put_ratio, bar_of, put_series, merge, insert_row, by_start,
}

-- A row of a map: of the symbol and of its bar, which ends no later than the limit.
abbrev pub RightRow : {F : Type 0} → Text → ℕ → ℕ → LsRow F → Type 0
RightRow symbol limit start r =
    (r.start_time ≡ start) × (r.symbol ≡ symbol) × (start ≤ limit - 300 * second)

abbrev pub AllRight : {F : Type 0} → Text → ℕ → Map ℕ (LsRow F) → Type 0
AllRight symbol limit rows = All (λ e. RightRow symbol limit e.0 e.1) rows

module _ {F : Type 0} (symbol : Text) (limit : ℕ) where
  insert-AllRight :
      (start : ℕ) (r : LsRow F) (rows : Map ℕ (LsRow F))
      → RightRow symbol limit start r
      → AllRight symbol limit rows
      → AllRight symbol limit (insert start r rows)
  unfolding insert
  insert-AllRight start r [] h a = (h, tt)
  insert-AllRight start r ((s, x) ∷ rows) h (p, a) =
      if-elim (AllRight symbol limit) (s == start) {x = (start, r) ∷ rows}
        {y = (s, x) ∷ insert start r rows} (h, a) (p, insert-AllRight start r rows h a)

  lookup-RightRow :
      (start : ℕ) (rows : Map ℕ (LsRow F)) (r : LsRow F)
      → AllRight symbol limit rows
      → lookup start rows ≡ some r
      → (r.start_time ≡ start) × (r.symbol ≡ symbol)
  unfolding lookup
  lookup-RightRow start [] r a e = absurd (cc e)
  lookup-RightRow start ((s, x) ∷ rows) r (p, a) e =
      ground (arith, p, e, nat_eq.same_iff s start, lookup-RightRow start rows r a)

  row_or_new-Right :
      (start : ℕ) (o : Option (LsRow F))
      → ((r : LsRow F) → o ≡ some r → (r.start_time ≡ start) × (r.symbol ≡ symbol))
      → ((row_or_new symbol start o).start_time ≡ start)
        × ((row_or_new symbol start o).symbol ≡ symbol)
  unfolding row_or_new new_ls_row
  row_or_new-Right start none h = (refl, refl)
  row_or_new-Right start (some r) h = h r refl

  set_ratio-Right :
      (k : RatioKind) (v : F) (start : ℕ) (r : LsRow F)
      → (r.start_time ≡ start) × (r.symbol ≡ symbol)
      → ((set_ratio k v r).start_time ≡ start) × ((set_ratio k v r).symbol ≡ symbol)
  unfolding set_ratio
  set_ratio-Right top_account v start r h = h
  set_ratio-Right top_position v start r h = h
  set_ratio-Right global_account v start r h = h

  bar_of-le : (p : Point F) (start : ℕ) → bar_of limit p ≡ some start → start ≤ limit - 300 * second
  unfolding bar_of hist_bar_start
  bar_of-le p start e = ground (arith, e)

  put_ratio-AllRight :
      (k : RatioKind) (v : F) (o : Option ℕ) (rows : Map ℕ (LsRow F))
      → ((start : ℕ) → o ≡ some start → start ≤ limit - 300 * second)
      → AllRight symbol limit rows
      → AllRight symbol limit (put_ratio k symbol v o rows)
  unfolding put_ratio
  put_ratio-AllRight k v none rows h a = a
  put_ratio-AllRight k v (some start) rows h a =
      let (at, of) =
        set_ratio-Right k v start (row_or_new symbol start (lookup start rows))
          (row_or_new-Right start (lookup start rows) (λ r e. lookup-RightRow start rows r a e)) in
      insert-AllRight start (set_ratio k v (row_or_new symbol start (lookup start rows))) rows
        (at, of, h start refl) a

  put_series-AllRight :
      (k : RatioKind) (ps : List (Point F)) (rows : Map ℕ (LsRow F))
      → AllRight symbol limit rows
      → AllRight symbol limit (put_series k symbol limit ps rows)
  unfolding put_series
  put_series-AllRight k [] rows a = a
  put_series-AllRight k (p ∷ ps) rows a =
      put_series-AllRight k ps (put_ratio k symbol p.value (bar_of limit p) rows)
        (put_ratio-AllRight k p.value (bar_of limit p) rows (bar_of-le p) a)

  pub merge-AllRight : (s : Series F) → AllRight symbol limit (merge symbol limit s)
  unfolding merge
  merge-AllRight s = put_series-AllRight global_account s.everyone _ (
      put_series-AllRight top_position s.position _
        (put_series-AllRight top_account s.account [] tt))

  -- A row that may be written.
  abbrev pub MayPush : LsRow F → Type 0
  MayPush r = (r.symbol ≡ symbol) × (r.start_time ≤ limit - 300 * second)

  insert_row-MayPush :
      (r : LsRow F) (rs : List (LsRow F))
      → MayPush r
      → All MayPush rs
      → All MayPush (insert_row r rs)
  unfolding insert_row
  insert_row-MayPush r [] h a = (h, tt)
  insert_row-MayPush r (x ∷ xs) h (p, a) =
      if-elim (All MayPush) (ltb x.start_time r.start_time) {x = x ∷ insert_row r xs}
        {y = r ∷ x ∷ xs} (p, insert_row-MayPush r xs h a) (h, (p, a))

  pub by_start-MayPush :
      (rows : Map ℕ (LsRow F)) → AllRight symbol limit rows → All MayPush (by_start rows)
  unfolding by_start
  by_start-MayPush [] a = tt
  by_start-MayPush ((s, r) ∷ rows) ((at, of, le), a) =
      insert_row-MayPush r (by_start rows) (of, omega (arith, at, le)) (by_start-MayPush rows a)
