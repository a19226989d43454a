-- ===== src/OpenInterest/Ratios/HeldBack.antt =====
-- internal/openinterest/lsratio_hist.go: what emit writes, and what it holds back.
use mathlib.Core.List.{append_assoc, append-nil}
use chomo_syncer_go.Base.{
  ltb, if◌then◌else◌, if-elim, ◌==◌, nat_eq, All, Text, text_eq, Map, sum_by, second, ℕ, ◌+◌, ◌-◌,
  ◌*◌, ◌≤◌, ◌<◌, min, ◌≡◌, refl, sym, ap, subst, ◌∙◌, Bool, true, false, ◌||◌, some, List, [], ◌∷◌,
  ◌++◌, arith,
}
use chomo_syncer_go.OpenInterest.Pages.{Point}
use chomo_syncer_go.OpenInterest.Pass.{Fetched}
use chomo_syncer_go.OpenInterest.Ratios.{
  RatioKind, top_account, top_position, global_account, LsRow, Series, series_of, last_label, meet,
  common_label, merge, insert_row, by_start, push_ls, nothing_fetched, is_empty, emit_ratios,
}
use chomo_syncer_go.OpenInterest.Ratios.Rows.{MayPush, merge-AllRight, by_start-MayPush}

-- The rows of a map, each as often as it stands there.
unfoldable pub sum_rows : {F : Type 0} → (LsRow F → ℕ) → Map ℕ (LsRow F) → ℕ
sum_rows q [] = 0
sum_rows q ((s, r) ∷ rows) = q r + sum_rows q rows

module _ {F : Type 0} (q : LsRow F → ℕ) where
  sum_by-insert_row :
      (r : LsRow F) (rs : List (LsRow F)) → sum_by q (insert_row r rs) ≡ q r + sum_by q rs
  unfolding insert_row sum_by
  sum_by-insert_row r [] = refl
  sum_by-insert_row r (x ∷ xs) = ground (arith, sum_by-insert_row r xs)

  sum_by-by_start : (rows : Map ℕ (LsRow F)) → sum_by q (by_start rows) ≡ sum_rows q rows
  unfolding by_start sum_rows sum_by
  sum_by-by_start [] = refl
  sum_by-by_start ((s, r) ∷ rows) =
      omega (arith, sum_by-insert_row r (by_start rows), sum_by-by_start rows)

module _ {F : Type 0} (push_err : LsRow F → Bool)
    (accepts : (r : LsRow F) → push_err r ≡ false) where
  push_ls-all :
      (rs : List (LsRow F)) (f : Fetched (LsRow F))
      → ((push_ls push_err rs f).pushed ≡ f.pushed ++ rs)
        × ((push_ls push_err rs f).failed ≡ f.failed)
  unfolding push_ls
  push_ls-all [] f = (sym (append-nil f.pushed), refl)
  push_ls-all (r ∷ rs) f = rw (accepts r) (
      let (all, same) = push_ls-all rs (record f {
        pushed = f.pushed ++ r ∷ [];
        rows = f.rows + 1;
        newest = if ltb f.newest r.start_time then r.start_time else f.newest;
      }) in
      (all ∙ append_assoc f.pushed (r ∷ []) rs, same))

  push_ls-newest :
      (bound : ℕ) (rs : List (LsRow F)) (f : Fetched (LsRow F))
      → All (λ r. r.start_time ≤ bound) rs
      → f.newest ≤ bound
      → (push_ls push_err rs f).newest ≤ bound
  unfolding push_ls
  push_ls-newest bound [] f a h = h
  push_ls-newest bound (r ∷ rs) f (p, a) h =
      rw (accepts r) (
        push_ls-newest bound rs _ a
          (if-elim (λ (n : ℕ). n ≤ bound) (ltb f.newest r.start_time) p h))

All-start :
    {F : Type 0} (symbol : Text) (limit : ℕ) (rs : List (LsRow F))
    → All (MayPush symbol limit) rs
    → All (λ r. r.start_time ≤ limit - 300 * second) rs
All-start symbol limit [] a = tt
All-start symbol limit (r ∷ rs) ((of, le), a) = (le, All-start symbol limit rs a)

if_true {ℓ} : {A : Type ℓ} (b : Bool) (x y : A) → b ≡ true → (if b then x else y) ≡ x
if_true true x y e = refl
if_true false x y e = absurd (cc e)

if_false {ℓ} : {A : Type ℓ} (b : Bool) (x y : A) → b ≡ false → (if b then x else y) ≡ y
if_false true x y e = absurd (cc e)
if_false false x y e = refl

is_empty-nil : {F : Type 0} (ps : List (Point F)) → ps ≡ [] → is_empty ps ≡ true
unfolding is_empty
is_empty-nil ps e = ap is_empty e

some_empty :
    {F : Type 0} (k : RatioKind) (s : Series F)
    → series_of k s ≡ []
    → (is_empty s.account || (is_empty s.position || is_empty s.everyone)) ≡ true
unfolding series_of
some_empty top_account s e = ground (arith, is_empty-nil s.account e)
some_empty top_position s e = ground (arith, is_empty-nil s.position e)
some_empty global_account s e = ground (arith, is_empty-nil s.everyone e)

-- A symbol is held back where an endpoint returned nothing: no row is written, and no bar is
-- reported.
pub emit_ratios-held :
    {F : Type 0} (push_err : LsRow F → Bool) (symbol : Text) (now : ℕ) (s : Series F)
    (k : RatioKind)
    → series_of k s ≡ []
    → emit_ratios push_err symbol now s ≡ nothing_fetched false
unfolding emit_ratios
emit_ratios-held push_err symbol now s k e =
    if-elim (λ f. f ≡ nothing_fetched false) (common_label s == 0) refl
      (if_true (is_empty s.account || (is_empty s.position || is_empty s.everyone))
        (nothing_fetched false) _ (some_empty k s e))

not_empty :
    {F : Type 0} (ps : List (Point F)) (n : ℕ) → last_label ps ≡ some n → is_empty ps ≡ false
unfolding last_label is_empty
not_empty [] n e = absurd (cc e)
not_empty (p ∷ ps) n e = refl

common_label-min :
    {F : Type 0} (s : Series F) (a b c : ℕ)
    → last_label s.account ≡ some a
    → last_label s.position ≡ some b
    → last_label s.everyone ≡ some c
    → 0 < a
    → 0 < b
    → 0 < c
    → common_label s ≡ min a (min b c)
unfolding common_label meet
common_label-min s a b c ea eb ec ha hb hc = ground (arith, ea, eb, ec)

-- What the limit is where every endpoint returned points.
limit-min :
    (now common a b c : ℕ)
    → common ≡ min a (min b c)
    → (if ltb now common then now else common) ≡ min now (min a (min b c))
limit-min now common a b c e = ground (arith, e)

emit_ratios-push :
    {F : Type 0} (push_err : LsRow F → Bool) (symbol : Text) (now limit : ℕ) (s : Series F)
    → (common_label s == 0) ≡ false
    → (is_empty s.account || (is_empty s.position || is_empty s.everyone)) ≡ false
    → (if ltb now (common_label s) then now else common_label s) ≡ limit
    → emit_ratios push_err symbol now s
      ≡ push_ls push_err (by_start (merge symbol limit s)) (nothing_fetched false)
unfolding emit_ratios
emit_ratios-push push_err symbol now limit s some_label some_points e =
    if_false (common_label s == 0) _ _ some_label
    ∙ if_false (is_empty s.account || (is_empty s.position || is_empty s.everyone)) _ _ some_points
    ∙ ap (λ (n : ℕ). push_ls push_err (by_start (merge symbol n s)) (nothing_fetched false)) e

-- What a symbol's ratios write: where every endpoint returned points, and the sink takes every row,
-- the rows pushed are those merged up to the newest label that all endpoints have reached, and now,
-- each once; each of them, and the newest bar reported, closed by then, so no row is written before
-- its slowest ratio.
pub emit_ratios-rows :
    {F : Type 0} (push_err : LsRow F → Bool) (symbol : Text) (now : ℕ) (s : Series F) (a b c : ℕ)
    → ((r : LsRow F) → push_err r ≡ false)
    → last_label s.account ≡ some a
    → last_label s.position ≡ some b
    → last_label s.everyone ≡ some c
    → 0 < a
    → 0 < b
    → 0 < c
    → ((q : LsRow F → ℕ)
        → sum_by q (emit_ratios push_err symbol now s).pushed
          ≡ sum_rows q (merge symbol (min now (min a (min b c))) s))
      × All (MayPush symbol (min now (min a (min b c)))) (emit_ratios push_err symbol now s).pushed
      × ((emit_ratios push_err symbol now s).newest ≤ min now (min a (min b c)) - 300 * second)
      × ((emit_ratios push_err symbol now s).failed ≡ false)
unfolding nothing_fetched
emit_ratios-rows push_err symbol now s a b c accepts ea eb ec ha hb hc =
    let limit : ℕ = min now (min a (min b c)) in
    let common : common_label s ≡ min a (min b c) = common_label-min s a b c ea eb ec ha hb hc in
    let rows : List (LsRow _) = by_start (merge symbol limit s) in
    let may : All (MayPush symbol limit) rows =
      by_start-MayPush symbol limit (merge symbol limit s) (merge-AllRight symbol limit s) in
    let (pushed, good) = push_ls-all push_err accepts rows (nothing_fetched false) in
    rw
      (emit_ratios-push push_err symbol now limit s (ground (arith, common))
        (ground
          (arith, not_empty s.account a ea, not_empty s.position b eb, not_empty s.everyone c ec))
        (limit-min now (common_label s) a b c common))
      (
        (λ q. ap (sum_by q) pushed ∙ sum_by-by_start q (merge symbol limit s)),
        subst (All (MayPush symbol limit)) (sym pushed) may,
        push_ls-newest push_err accepts (limit - 300 * second) rows (nothing_fetched false)
            (All-start symbol limit rows may) (omega arith),
        good,
      )
