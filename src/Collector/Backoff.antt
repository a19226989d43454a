-- ===== src/Collector/Backoff.antt =====
-- internal/collector/{collector,shard}.go: the delay before a reconnect.
use chomo_syncer_go.Base.{
  ltb, if◌then◌else◌, if-elim, ◌==◌, nat_eq, All, length, Text, text_eq, ℕ, ◌+◌, ◌*◌, ◌/◌, ◌%◌, ◌≤◌,
  ◌≡◌, refl, Option, none, some, List, [], ◌∷◌, ◌++◌, arith,
}
use chomo_syncer_go.Sharding.{diff_sets}
use chomo_syncer_go.Collector.{
  Config, ResolvedConfig, resolve, jitter, Phase, down, ended, up, Shard, new, set_desired,
  report_gap, connect, retry, drop_at, Applied, refused, added, changed, apply_delta, check_stale,
  tick, connect_step, fail_step, drop_step, silent_step, Event, wants, connects, fails, drops,
  silents, ticks, stops, handle, run, advance,
}

resolve_order : (c : Config) → (resolve c).reconnect_base ≤ (resolve c).reconnect_max
unfolding resolve
resolve_order c = ground arith

-- A delay is at least half of `low` and at most `high`, whatever is drawn for it.
abbrev pub IsBetween : ℕ → ℕ → (ℕ → ℕ) → Type 0
IsBetween low high f = (draw : ℕ) → (low / 2 ≤ f draw) × (f draw ≤ high)

-- A delay is at least half of each one slept before it, whatever is drawn for the two, but for
-- the rounding of an odd one.
abbrev pub Keeps : List (ℕ → ℕ) → Type 0
Keeps [] = Unit {0}
Keeps (f ∷ fs) = All (λ g. (draw other : ℕ) → g other ≤ f draw * 2 + 1) fs × Keeps fs

mod_half : (d draw : ℕ) → draw % (d / 2 + 1) ≤ d / 2
mod_half d draw = omega arith

jitter-IsBetween : (d : ℕ) → IsBetween d d (jitter d)
unfolding jitter
jitter-IsBetween d draw = ground (arith, mod_half d draw)

All-raise :
    (low a b : ℕ) (fs : List (ℕ → ℕ)) → a ≤ b → All (IsBetween low a) fs → All (IsBetween low b) fs
All-raise low a b [] h all = tt
All-raise low a b (f ∷ fs) h (p, all) =
    ((λ draw. ((p draw).0, omega (arith, (p draw).1, h))), All-raise low a b fs h all)

All-keeps :
    (low high : ℕ) (f : ℕ → ℕ) (fs : List (ℕ → ℕ))
    → IsBetween high high f
    → All (IsBetween low high) fs
    → All (λ g. (draw other : ℕ) → g other ≤ f draw * 2 + 1) fs
All-keeps low high f [] h all = tt
All-keeps low high f (g ∷ fs) h (p, all) =
    ((λ draw other. omega (arith, (h draw).0, (p other).1)), All-keeps low high f fs h all)

-- The backoff is at least `low` and within the settings, and the delays slept are within the
-- settings up to it.
abbrev Within : ℕ → ResolvedConfig → Shard → Type 0
Within low cfg s =
    (s.cfg ≡ cfg)
    × (low ≤ s.backoff)
    × (s.backoff ≤ cfg.reconnect_max)
    × (cfg.reconnect_base ≤ s.backoff)
    × All (IsBetween cfg.reconnect_base s.backoff) s.delays
    × Keeps s.delays

module _ (low : ℕ) (cfg : ResolvedConfig) where
  retry-Within : (d : Option ℕ) (s : Shard) → Within low cfg s → Within low cfg (retry d s)
  unfolding retry
  retry-Within d s (c, l, h, b, all, keeps) =
      let rises : s.backoff ≤ (retry d s).backoff = ground (arith, c, h) in
      (
        c,
        omega (arith, l, rises),
        ground (arith, c, h),
        omega (arith, b, rises),
        (
          λ draw. (
            omega (arith, b, (jitter-IsBetween s.backoff draw).0),
            omega (arith, rises, (jitter-IsBetween s.backoff draw).1),
          ),
          All-raise cfg.reconnect_base s.backoff (retry d s).backoff s.delays rises all,
        ),
        (
          All-keeps cfg.reconnect_base s.backoff (jitter s.backoff) s.delays
              (jitter-IsBetween s.backoff) all,
          keeps,
        ),
      )

  drop_at-Within : (at last : ℕ) (s : Shard) → Within low cfg s → Within low cfg (drop_at at last s)
  unfolding drop_at
  drop_at-Within at last s w = retry-Within (some last) s w

  report_gap-Within :
      (d : Option ℕ) (now : ℕ) (streams : List Text) (s : Shard)
      → Within low cfg s
      → Within low cfg (report_gap d now streams s)
  unfolding report_gap
  report_gap-Within none now streams s w = w
  report_gap-Within (some t) now streams s w = if-elim (Within low cfg) (ltb t now) {y = s} w w

  apply_delta-Within :
      (at : ℕ) (subscribed : List Text) (r : Applied) (last : ℕ) (s : Shard)
      → Within low cfg s
      → Within low cfg (apply_delta at subscribed r last s)
  unfolding apply_delta advance
  apply_delta-Within at subscribed refused last s w =
      if-elim (Within low cfg) (length (diff_sets subscribed s.desired).0 == 0)
        {x = advance at (s.client ++ (diff_sets subscribed s.desired).0) s} {y = drop_at at last s}
        w (drop_at-Within at last s w)
  apply_delta-Within at subscribed added last s w = w
  apply_delta-Within at subscribed changed last s w = w

  check_stale-Within :
      (now last : ℕ) (p : Phase) (s : Shard)
      → Within low cfg s
      → Within low cfg (check_stale now last p s)
  unfolding check_stale
  check_stale-Within now last (up at subscribed v) s w =
      if-elim (Within low cfg) (ltb (last + s.cfg.stale_timeout) now) {x = drop_at at last s}
        {y = s} (drop_at-Within at last s w) w
  check_stale-Within now last down s w = w
  check_stale-Within now last ended s w = w

  tick-Within :
      (now last : ℕ) (r : Applied) (p : Phase) (s : Shard)
      → Within low cfg s
      → Within low cfg (tick now last r p s)
  unfolding tick
  tick-Within now last r down s w = w
  tick-Within now last r ended s w = w
  tick-Within now last r (up at subscribed v) s w =
      let s' : Shard = if s.version == v then s else apply_delta at subscribed r last s in
      check_stale-Within now last s'.phase s' (
        if-elim (Within low cfg) (s.version == v) {x = s} w
          (apply_delta-Within at subscribed r last s w))

  connect_step-Within :
      (now : ℕ) (p : Phase) (s : Shard) → Within low cfg s → Within low cfg (connect_step now p s)
  unfolding connect_step connect
  connect_step-Within now down s w =
      report_gap-Within s.down_at now s.desired
        (record s { phase = up now s.desired s.version; client = s.desired }) w
  connect_step-Within now ended s w = w
  connect_step-Within now (up at subscribed v) s w = w

  fail_step-Within : (p : Phase) (s : Shard) → Within low cfg s → Within low cfg (fail_step p s)
  unfolding fail_step
  fail_step-Within down s w = retry-Within s.down_at s w
  fail_step-Within ended s w = w
  fail_step-Within (up at subscribed v) s w = w

  drop_step-Within :
      (last : ℕ) (p : Phase) (s : Shard) → Within low cfg s → Within low cfg (drop_step last p s)
  unfolding drop_step
  drop_step-Within last (up at subscribed v) s w = drop_at-Within at last s w
  drop_step-Within last ended s w = w
  drop_step-Within last down s w = w

  silent_step-Within :
      (last back : ℕ) (p : Phase) (s : Shard)
      → Within low cfg s
      → Within low cfg (silent_step last back p s)
  unfolding silent_step
  silent_step-Within last back (up at subscribed v) s w =
      report_gap-Within (some last) back subscribed s w
  silent_step-Within last back ended s w = w
  silent_step-Within last back down s w = w

  handle-Within : (e : Event) (s : Shard) → Within low cfg s → Within low cfg (handle e s)
  unfolding handle set_desired
  handle-Within (wants streams) s w = w
  handle-Within (connects now) s w = connect_step-Within now s.phase s w
  handle-Within fails s w = fail_step-Within s.phase s w
  handle-Within (drops last) s w = drop_step-Within last s.phase s w
  handle-Within (silents last back) s w = silent_step-Within last back s.phase s w
  handle-Within (ticks now last r) s w = tick-Within now last r s.phase s w
  handle-Within stops s w = w

  run-Within : (es : List Event) (s : Shard) → Within low cfg s → Within low cfg (run es s)
  unfolding run
  run-Within [] s w = w
  run-Within (e ∷ es) s w = run-Within es (handle e s) (handle-Within e s w)

-- The first delay is within the settings, whatever they are.
new-Within :
    (c : Config) (streams : List Text)
    → Within (resolve c).reconnect_base (resolve c) (new (resolve c) streams)
unfolding new
new-Within c streams = (refl, omega arith, resolve_order c, omega arith, tt, tt)

-- The delays before the reconnects never recover: for any settings and any events, whatever is drawn
-- for the jitter, each delay slept is between half of the first backoff and the longest, and at
-- least half of every delay slept before it, but for the rounding of an odd one; and the backoff
-- that a delay is drawn from never becomes smaller, also not by a connection that succeeds and
-- lasts.
pub run-backoff :
    (c : Config) (streams : List Text) (es later : List Event)
    → let before = run es (new (resolve c) streams) in
      let after = run later before in
      All (IsBetween (resolve c).reconnect_base (resolve c).reconnect_max) after.delays
      × Keeps after.delays
      × (before.backoff ≤ after.backoff)
run-backoff c streams es later =
    let before : Shard = run es (new (resolve c) streams) in
    let w =
      run-Within (resolve c).reconnect_base (resolve c) es (new (resolve c) streams)
        (new-Within c streams) in
    let v =
      run-Within before.backoff (resolve c) later before (w.0, omega arith, w.2, w.3, w.4, w.5) in
    (
      All-raise (resolve c).reconnect_base (run later before).backoff (resolve c).reconnect_max
          (run later before).delays v.2 v.4,
      v.5,
      v.1,
    )
