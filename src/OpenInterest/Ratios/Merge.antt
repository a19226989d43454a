-- ===== src/OpenInterest/Ratios/Merge.antt =====
-- internal/openinterest/lsratio_hist.go: each ratio of a merged row is what its own endpoint
-- returned.
use chomo_syncer_go.Base.{
  if◌then◌else◌, ◌==◌, nat_eq, Text, text_eq, Map, lookup, lookup-insert, ℕ, ◌≡◌, refl, ap, ◌∙◌,
  Bool, true, false, Option, none, some, List, [], ◌∷◌, arith,
}
use chomo_syncer_go.OpenInterest.Pages.{Point}
use chomo_syncer_go.OpenInterest.Ratios.{
  RatioKind, top_account, top_position, global_account, same_kind, LsRow, new_ls_row, ratio,
  set_ratio, Series, series_of, row_or_new, put_ratio, bar_of, put_series, merge,
}

or_else : {A : Type 0} → Option A → Option A → Option A
or_else none b = b
or_else (some a) b = some a

or_else_assoc : {A : Type 0} (a b c : Option A) → or_else (or_else a b) c ≡ or_else a (or_else b c)
unfolding or_else
or_else_assoc none b c = refl
or_else_assoc (some a) b c = refl

or_else-none : {A : Type 0} (a : Option A) → or_else a none ≡ a
unfolding or_else
or_else-none none = refl
or_else-none (some a) = refl

-- What an endpoint returned for a bar, the last where there are several.
module _ {F : Type 0} where
  unfoldable pub value_for : Option ℕ → ℕ → F → Option F
  value_for none start v = none
  value_for (some bar) start v = if bar == start then some v else none

  unfoldable pub value_at : ℕ → ℕ → List (Point F) → Option F
  unfolding value_for or_else
  value_at common start [] = none
  value_at common start (p ∷ ps) =
      or_else (value_at common start ps) (value_for (bar_of common p) start p.value)

  unfoldable pub row_ratio : RatioKind → Option (LsRow F) → Option F
  row_ratio k none = none
  row_ratio k (some r) = ratio k r

  ratio-set_ratio :
      (k j : RatioKind) (v : F) (r : LsRow F)
      → ratio j (set_ratio k v r) ≡ (if same_kind k j then some v else ratio j r)
  unfolding ratio set_ratio same_kind
  ratio-set_ratio top_account top_account v r = refl
  ratio-set_ratio top_account top_position v r = refl
  ratio-set_ratio top_account global_account v r = refl
  ratio-set_ratio top_position top_account v r = refl
  ratio-set_ratio top_position top_position v r = refl
  ratio-set_ratio top_position global_account v r = refl
  ratio-set_ratio global_account top_account v r = refl
  ratio-set_ratio global_account top_position v r = refl
  ratio-set_ratio global_account global_account v r = refl

  ratio-row_or_new :
      (k : RatioKind) (symbol : Text) (start : ℕ) (o : Option (LsRow F))
      → ratio k (row_or_new symbol start o) ≡ row_ratio k o
  unfolding ratio row_or_new row_ratio new_ls_row
  ratio-row_or_new top_account symbol start none = refl
  ratio-row_or_new top_position symbol start none = refl
  ratio-row_or_new global_account symbol start none = refl
  ratio-row_or_new k symbol start (some r) = refl

  row_ratio-if :
      (j : RatioKind) (b : Bool) (r : LsRow F) (o : Option (LsRow F))
      → row_ratio j (if b then some r else o) ≡ (if b then ratio j r else row_ratio j o)
  unfolding row_ratio
  row_ratio-if j true r o = refl
  row_ratio-if j false r o = refl

  row_ratio-put_ratio :
      (k j : RatioKind) (symbol : Text) (v : F) (o : Option ℕ) (start : ℕ) (rows : Map ℕ (LsRow F))
      → row_ratio j (lookup start (put_ratio k symbol v o rows)) ≡ (
          if same_kind k j
          then or_else (value_for o start v) (row_ratio j (lookup start rows))
          else row_ratio j (lookup start rows))
  unfolding put_ratio value_for or_else
  row_ratio-put_ratio k j symbol v none start rows = ground arith
  row_ratio-put_ratio k j symbol v (some bar) start rows =
      ap (row_ratio j)
        (lookup-insert bar start (set_ratio k v (row_or_new symbol bar (lookup bar rows))) rows)
      ∙ row_ratio-if j (bar == start) (set_ratio k v (row_or_new symbol bar (lookup bar rows)))
          (lookup start rows)
      ∙ ground (
        arith,
        ratio-set_ratio k j v (row_or_new symbol bar (lookup bar rows)),
        ratio-row_or_new j symbol bar (lookup bar rows),
        nat_eq.same_iff bar start,
      )

  row_ratio-put_series :
      (k j : RatioKind) (symbol : Text) (common start : ℕ) (ps : List (Point F))
      (rows : Map ℕ (LsRow F))
      → row_ratio j (lookup start (put_series k symbol common ps rows)) ≡ (
          if same_kind k j
          then or_else (value_at common start ps) (row_ratio j (lookup start rows))
          else row_ratio j (lookup start rows))
  unfolding put_series value_at or_else
  row_ratio-put_series k j symbol common start [] rows = ground arith
  row_ratio-put_series k j symbol common start (p ∷ ps) rows = ground (
    arith,
    row_ratio-put_series k j symbol common start ps
        (put_ratio k symbol p.value (bar_of common p) rows),
    row_ratio-put_ratio k j symbol p.value (bar_of common p) start rows,
    or_else_assoc (value_at common start ps) (value_for (bar_of common p) start p.value)
        (row_ratio j (lookup start rows)),
  )

first : {F : Type 0} → Text → ℕ → Series F → Map ℕ (LsRow F)
first symbol common s = put_series top_account symbol common s.account []

second : {F : Type 0} → Text → ℕ → Series F → Map ℕ (LsRow F)
unfolding first
second symbol common s = put_series top_position symbol common s.position (first symbol common s)

-- Each ratio of a merged row is what its own endpoint returned for that bar, and missing exactly
-- where that endpoint returned nothing for it, up to the common label.
pub row_ratio-merge :
    {F : Type 0} (k : RatioKind) (symbol : Text) (common start : ℕ) (s : Series F)
    → row_ratio k (lookup start (merge symbol common s)) ≡ value_at common start (series_of k s)
unfolding merge first second series_of same_kind lookup row_ratio or_else
row_ratio-merge top_account symbol common start s =
    row_ratio-put_series global_account top_account symbol common start s.everyone
      (second symbol common s)
    ∙ row_ratio-put_series top_position top_account symbol common start s.position
        (first symbol common s)
    ∙ row_ratio-put_series top_account top_account symbol common start s.account []
    ∙ or_else-none (value_at common start s.account)
row_ratio-merge top_position symbol common start s =
    row_ratio-put_series global_account top_position symbol common start s.everyone
      (second symbol common s)
    ∙ row_ratio-put_series top_position top_position symbol common start s.position
        (first symbol common s)
    ∙ ap (or_else (value_at common start s.position))
        (row_ratio-put_series top_account top_position symbol common start s.account [])
    ∙ or_else-none (value_at common start s.position)
row_ratio-merge global_account symbol common start s =
    row_ratio-put_series global_account global_account symbol common start s.everyone
      (second symbol common s)
    ∙ ap (or_else (value_at common start s.everyone)) (
        row_ratio-put_series top_position global_account symbol common start s.position
          (first symbol common s)
        ∙ row_ratio-put_series top_account global_account symbol common start s.account [])
    ∙ or_else-none (value_at common start s.everyone)
