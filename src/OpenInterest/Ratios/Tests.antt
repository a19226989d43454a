-- ===== src/OpenInterest/Ratios/Tests.antt =====
-- Runs of internal/openinterest/lsratio_hist.go: three endpoints, one of them a bar behind and with
-- a hole.
use chomo_syncer_go.Base.{
  nat_eq, All, codes, text_eq, lookup, insert, sum_by, second, ℕ, ◌-◌, ◌*◌, ◌≤◌, min, ◌≡◌, refl,
  false, none, some, [], ◌∷◌, arith,
}
use chomo_syncer_go.OpenInterest.{hist_bar_start}
use chomo_syncer_go.OpenInterest.Pages.{Point}
use chomo_syncer_go.OpenInterest.Ratios.{
  global_account, LsRow, Series, series_of, last_label, bar_of, merge, emit_ratios,
}
use chomo_syncer_go.OpenInterest.Ratios.Merge.{row_ratio, value_at, row_ratio-merge}
use chomo_syncer_go.OpenInterest.Ratios.Rows.{MayPush}
use chomo_syncer_go.OpenInterest.Ratios.HeldBack.{sum_rows, emit_ratios-rows}

abbrev point : ℕ → Point ℕ
point n = record { label = n * (300 * second); value = n }

abbrev series : Series ℕ
series = record {
  account = point 1 ∷ point 2 ∷ point 3 ∷ [];
  position = point 1 ∷ point 2 ∷ point 3 ∷ point 4 ∷ [];
  everyone = point 1 ∷ point 3 ∷ [];
}

three_rows : (emit_ratios (λ r. false) (codes "BTC") (1300 * second) series).rows ≡ 3
unfolding emit_ratios hist_bar_start lookup insert
three_rows = refl

a_hole : value_at (900 * second) (300 * second) series.everyone ≡ none
unfolding value_at hist_bar_start bar_of
a_hole = refl

row_ratio-merge_example :
    row_ratio global_account (lookup (300 * second) (merge (codes "BTC") (900 * second) series))
    ≡ value_at (900 * second) (300 * second) (series_of global_account series)
row_ratio-merge_example =
    row_ratio-merge global_account (codes "BTC") (900 * second) (300 * second) series

account_to_3 : last_label series.account ≡ some (900 * second)
unfolding last_label
account_to_3 = refl

position_to_4 : last_label series.position ≡ some (1200 * second)
unfolding last_label
position_to_4 = refl

everyone_to_3 : last_label series.everyone ≡ some (900 * second)
unfolding last_label
everyone_to_3 = refl

emit_ratios-rows_example :
    ((q : LsRow ℕ → ℕ)
      → sum_by q (emit_ratios (λ r. false) (codes "BTC") (1300 * second) series).pushed
        ≡ sum_rows q (
            merge
              (codes "BTC")
              (min (1300 * second) (min (900 * second) (min (1200 * second) (900 * second))))
              series))
    × All
        (MayPush
          (codes "BTC")
          (min (1300 * second) (min (900 * second) (min (1200 * second) (900 * second)))))
        (emit_ratios (λ r. false) (codes "BTC") (1300 * second) series).pushed
    × ((emit_ratios (λ r. false) (codes "BTC") (1300 * second) series).newest
        ≤ min (1300 * second) (min (900 * second) (min (1200 * second) (900 * second)))
          - 300 * second)
    × ((emit_ratios (λ r. false) (codes "BTC") (1300 * second) series).failed ≡ false)
emit_ratios-rows_example =
    emit_ratios-rows (λ r. false) (codes "BTC") (1300 * second) series (900 * second)
      (1200 * second) (900 * second) (λ r. refl) account_to_3 position_to_4 everyone_to_3
      (omega arith) (omega arith) (omega arith)
