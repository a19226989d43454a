-- ===== src/Bars/Tests.antt =====
-- The three readings of one event, with whole numbers for prices, and the theorems on them.
use chomo_syncer_go.Base.{nat_eq, codes, text_eq, parse_uint, ◌≡◌, refl}
use chomo_syncer_go.Bars.{err, to_live_bar}
use chomo_syncer_go.Bars.Samples.{sample}

sample_bad : to_live_bar parse_uint (sample (codes "11x")) ≡ err (codes "close")
unfolding to_live_bar parse_uint
sample_bad = refl
