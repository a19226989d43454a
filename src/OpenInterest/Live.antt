-- ===== src/OpenInterest/Live.antt =====
-- internal/openinterest/live.go: the rounds of live snapshots. The token bucket, the client and the
-- contexts are the environment's: what they do to a symbol is its `Attempt`.
pub mod Rounds
mod Tests
use chomo_syncer_go.Base.{
  ltb, leb, if◌then◌else◌, nat_eq, Text, text_eq, second, ℕ, ◌+◌, ◌-◌, ◌*◌, Bool, true, false, ◌||◌,
  Option, none, some, List, [], ◌∷◌, ◌++◌, arith,
}
use chomo_syncer_go.OpenInterest.{floor_bar, Row}
use chomo_syncer_go.OpenInterest.Settings.{LiveSettings}
use chomo_syncer_go.OpenInterest.Cache.{LiveCache, put}

-- `nextRound`: the boundary of the next round, and when it starts.
unfoldable pub next_boundary : LiveSettings → ℕ → ℕ → ℕ
unfolding floor_bar
next_boundary cfg last now =
    let soon = floor_bar now + 300 * second in
    let boundary = if ltb (soon - now) cfg.min_remaining then soon + 300 * second else soon in
    if leb boundary last then last + 300 * second else boundary

unfoldable pub next_round : LiveSettings → ℕ → ℕ → ℕ × ℕ
unfolding next_boundary
next_round cfg last now =
    let boundary = next_boundary cfg last now in
    let start = boundary - cfg.lead in (boundary, if ltb start now then now else start)

-- `missedBoundary`
unfoldable pub missed_boundary : LiveSettings → ℕ → ℕ → Option ℕ
unfolding floor_bar
missed_boundary cfg last now =
    if ltb cfg.catch_up (now - floor_bar now) || leb (floor_bar now) last
    then none
    else some (floor_bar now)

-- What a symbol meets in `one`: its turn, the answer of the client with its time, and the sink.
pub data Attempt (F : Type 0) : Type 0 where
  no_turn no_snapshot : Attempt F
  snapshot : F → ℕ → Bool → Attempt F

-- What a round has pushed and cached, and its counts.
pub record Round (F : Type 0) : Type 0 where
  pub pushed : List (Row F)
  pub cache : Option (LiveCache F)
  pub succeeded : ℕ
  pub errors : ℕ

unfoldable pub live_row : {F : Type 0} → Text → ℕ → F → ℕ → Row F
live_row symbol start value snap_time = record {
  symbol = symbol;
  start_time = start;
  sum_open_interest = value;
  snap_time = snap_time;
  src_rank = 1;
}

module _ {F : Type 0} where
  unfoldable pub cached : Text → ℕ → F → Option (LiveCache F) → Option (LiveCache F)
  cached symbol start v none = none
  cached symbol start v (some c) = some (put symbol start v c)

  -- `one`
  unfoldable pub one : Text → ℕ → Attempt F → Round F → Round F
  unfolding live_row cached
  one symbol start no_turn r = record r { errors = r.errors + 1 }
  one symbol start no_snapshot r = record r { errors = r.errors + 1 }
  one symbol start (snapshot v time true) r = record r { errors = r.errors + 1 }
  one symbol start (snapshot v time false) r = record r {
    pushed = r.pushed ++ live_row symbol start v time ∷ [];
    cache = cached symbol start v r.cache;
    succeeded = r.succeeded + 1;
  }

  -- The symbols that the feed reached, in the order in which their turns end.
  unfoldable pub snapshots : ℕ → List (Text × Attempt F) → Round F → Round F
  unfolding one
  snapshots start [] r = r
  snapshots start ((s, a) ∷ rest) r = snapshots start rest (one s start a r)

  -- `cycle` for so many symbols: those that were never reached count as errors.
  unfoldable pub cycle : ℕ → ℕ → List (Text × Attempt F) → Option (LiveCache F) → Round F
  unfolding snapshots
  cycle symbols boundary reached cache =
      let r =
        snapshots (boundary - 300 * second) reached
          (record { pushed = []; cache = cache; succeeded = 0; errors = 0 }) in
      record r { errors = r.errors + (symbols - r.succeeded - r.errors) }

-- The life of `Run`, by the moments at which it looks for the next round: the boundaries of its
-- rounds.
unfoldable pub rounds : LiveSettings → ℕ → List ℕ → List ℕ
unfolding next_round
rounds cfg last [] = []
rounds cfg last (now ∷ later) =
    (next_round cfg last now).0 ∷ rounds cfg (next_round cfg last now).0 later

catch_up_first : LiveSettings → Option ℕ → List ℕ → List ℕ
unfolding rounds
catch_up_first cfg none later = rounds cfg 0 later
catch_up_first cfg (some b) later = b ∷ rounds cfg b later

unfoldable pub run_live : LiveSettings → ℕ → List ℕ → List ℕ
unfolding missed_boundary catch_up_first
run_live cfg begin later = catch_up_first cfg (missed_boundary cfg 0 begin) later
