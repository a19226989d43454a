-- ===== src/Interval/Tests.antt =====
-- Runs of the copies of parseIntervalDuration, and the theorems on them there.
use chomo_syncer_go.Base.{
  nat_eq, codes, text_eq, wrap64, second, is_digit, parse_uint, atoi, ◌*◌, ◌≡◌, refl, none, some,
  arith, pos,
}
use chomo_syncer_go.Interval.{
  unit_seconds, split_last, scale, digit_loop, parse_interval_duration, parse_interval_atoi,
}
use chomo_syncer_go.Interval.Grammar.{parse_interval_plus}

five_minutes : parse_interval_duration (codes "5m") ≡ some (pos 300_000_000_000)
unfolding parse_interval_duration split_last digit_loop scale unit_seconds wrap64 is_digit
five_minutes = refl

no_unit : parse_interval_atoi (codes "5y") ≡ none
unfolding parse_interval_atoi split_last scale unit_seconds atoi
no_unit = refl

parse_interval_plus_example :
    (parse_interval_duration (codes "+5m") ≡ none)
    × (parse_interval_atoi (codes "+5m") ≡ some (wrap64 (5 * (60 * second))))
unfolding split_last parse_uint unit_seconds
parse_interval_plus_example =
    parse_interval_plus (codes "+5m") (codes "5") b'm' 5 60 refl refl (omega arith) (omega arith)
      refl
