-- ===== src/RedisWin/Tests.antt =====
-- Runs of internal/rediswin/writer.go on three payloads, and the theorems on it there.
use chomo_syncer_go.Base.{
  nat_eq, Text, codes, text_eq, to_upper, ℤ, atoi, parse_int, ◌≡◌, refl, some, List, [], ◌∷◌, arith,
  pos, negsuc,
}
use chomo_syncer_go.RedisWin.{
  Config, resolve, key, head_time, start_time_of, leading_int, leading_digits, ltrim, push_script,
}
use chomo_syncer_go.RedisWin.Window.{
  IsWindow, Descending, Write, pushed, rebuilt, apply_writes, apply_writes-IsWindow, pushes,
  log_pushes, pushes-log,
}

abbrev first : Text
first = codes "[60000,1.5]"

abbrev second : Text
second = codes "[120000,1.6]"

abbrev third : Text
third = codes "[180000,1.7]"

abbrev settings : Config
settings = record {
  key_prefix = [];
  window_size = negsuc 0;
  stream_key = [];
  stream_max_len = pos 0;
}

settings_key : key (resolve settings) (codes "btcusdt") (codes "1m") ≡ codes "kline:BTCUSDT:1m"
unfolding key resolve to_upper
settings_key = refl

first_time : head_time first ≡ some (pos 60_000)
unfolding head_time leading_int leading_digits parse_int
first_time = refl

second_time : head_time second ≡ some (pos 120_000)
unfolding head_time leading_int leading_digits parse_int
second_time = refl

third_time : head_time third ≡ some (pos 180_000)
unfolding head_time leading_int leading_digits parse_int
third_time = refl

second_start_time : start_time_of second ≡ some (pos 120_000)
unfolding start_time_of leading_int leading_digits atoi
second_start_time = refl

stale_push : push_script first (pos 60_000) 1 (second ∷ []) ≡ (second ∷ [], 0)
unfolding push_script head_time leading_int leading_digits parse_int
stale_push = refl

abbrev bars : List (Text × ℤ)
bars = (first, pos 60_000) ∷ (third, pos 180_000) ∷ (second, pos 120_000) ∷ []

pushes-log_example :
    pushes 1 bars (ltrim 1 (second ∷ first ∷ [])) ≡ ltrim 1 (log_pushes bars (second ∷ first ∷ []))
pushes-log_example = pushes-log 1 bars (second ∷ first ∷ [])

falling : Descending (second ∷ first ∷ [])
falling = (pos 120_000, second_time, (pos 60_000, first_time, omega arith, tt))

abbrev writes : List Write
writes =
    pushed first (pos 60_000) first_time
    ∷ rebuilt (second ∷ first ∷ []) falling
    ∷ pushed third (pos 180_000) third_time
    ∷ []

empty-IsWindow : IsWindow 1 []
empty-IsWindow = record { descending = tt; bounded = omega arith }

apply_writes-IsWindow_example : IsWindow 1 (apply_writes 1 writes [])
apply_writes-IsWindow_example = apply_writes-IsWindow 1 writes [] empty-IsWindow
