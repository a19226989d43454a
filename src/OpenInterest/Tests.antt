-- ===== src/OpenInterest/Tests.antt =====
-- Runs of internal/openinterest/align.go: a label, and the newest kline at a time of day.
use chomo_syncer_go.Base.{nat_eq, text_eq, second, ◌*◌, ◌≡◌, refl, none, some}
use chomo_syncer_go.OpenInterest.{floor_bar, hist_bar_start, newest_published_start}

not_whole : hist_bar_start (601 * second) ≡ none
unfolding hist_bar_start floor_bar
not_whole = refl

on_boundary : hist_bar_start (600 * second) ≡ some (300 * second)
unfolding hist_bar_start floor_bar
on_boundary = refl

newest_at_2000 : newest_published_start (2000 * second) (240 * second) ≡ 1200 * second
unfolding newest_published_start floor_bar
newest_at_2000 = refl
