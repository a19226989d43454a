-- ===== src/OpenInterest/Live/Rounds.antt =====
-- internal/openinterest/live.go: which boundaries are snapshotted, and what a round accounts for.
use chomo_syncer_go.Base.{
  nat_eq, All, length, length-append, All-append, Text, text_eq, second, ℕ, ◌+◌, ◌-◌, ◌*◌, ◌%◌, ◌≤◌,
  ◌<◌, ◌≡◌, refl, true, false, Option, none, some, List, [], ◌∷◌, arith,
}
use chomo_syncer_go.OpenInterest.{floor_bar, Row}
use chomo_syncer_go.OpenInterest.Settings.{LiveSettings}
use chomo_syncer_go.OpenInterest.Cache.{LiveCache}
use chomo_syncer_go.OpenInterest.Live.{
  next_boundary, next_round, missed_boundary, Attempt, no_turn, no_snapshot, snapshot, Round,
  live_row, one, snapshots, cycle, rounds, catch_up_first, run_live,
}

-- Each boundary is a whole bar later than the one before, or more, from `last` on.
abbrev pub Later : ℕ → List ℕ → Type 0
Later last [] = Unit {0}
Later last (b ∷ bs) = (last < b) × (b % (300 * second) ≡ 0) × Later b bs

next_boundary_lem :
    (cfg : LiveSettings) (last now : ℕ)
    → last % (300 * second) ≡ 0
    → (last < next_boundary cfg last now) × (next_boundary cfg last now % (300 * second) ≡ 0)
unfolding next_boundary floor_bar
next_boundary_lem cfg last now h = (ground arith, ground (arith, h))

rounds-Later :
    (cfg : LiveSettings) (last : ℕ) (nows : List ℕ)
    → last % (300 * second) ≡ 0
    → Later last (rounds cfg last nows)
unfolding rounds next_round
rounds-Later cfg last [] h = tt
rounds-Later cfg last (now ∷ nows) h =
    let (later, even) = next_boundary_lem cfg last now h in
    (later, even, rounds-Later cfg (next_boundary cfg last now) nows even)

missed_boundary_lem :
    (cfg : LiveSettings) (now b : ℕ)
    → missed_boundary cfg 0 now ≡ some b
    → (0 < b) × (b % (300 * second) ≡ 0)
unfolding missed_boundary floor_bar
missed_boundary_lem cfg now b h = (ground (arith, h), ground (arith, h))

catch_up-Later :
    (cfg : LiveSettings) (o : Option ℕ) (nows : List ℕ)
    → ((b : ℕ) → o ≡ some b → (0 < b) × (b % (300 * second) ≡ 0))
    → Later 0 (catch_up_first cfg o nows)
unfolding catch_up_first
catch_up-Later cfg none nows h = rounds-Later cfg 0 nows (omega arith)
catch_up-Later cfg (some b) nows h = let (p, e) = h b refl in (p, e, rounds-Later cfg b nows e)

-- No bar is snapshotted twice: whatever the clock says when Run looks for its next round, the
-- boundaries of its rounds, the one that it catches up at its start included, lie on bars and each
-- is later than the one before.
pub run_live-Later :
    (cfg : LiveSettings) (begin : ℕ) (nows : List ℕ) → Later 0 (run_live cfg begin nows)
unfolding run_live
run_live-Later cfg begin nows =
    catch_up-Later cfg (missed_boundary cfg 0 begin) nows (missed_boundary_lem cfg begin)

next_boundary_follows :
    (cfg : LiveSettings) (last now : ℕ)
    → last % (300 * second) ≡ 0
    → 0 < cfg.min_remaining
    → now + cfg.min_remaining ≤ last + 300 * second
    → next_boundary cfg last now ≡ last + 300 * second
unfolding next_boundary floor_bar
next_boundary_follows cfg last now even least h = ground (arith, even)

-- No bar is missed: where Run looks for its next round while the least time is left before the
-- boundary after its last one, that boundary is the one of the next round, which starts no earlier
-- than now and at most the lead before it.
pub next_round_follows :
    (cfg : LiveSettings) (last now : ℕ)
    → last % (300 * second) ≡ 0
    → 0 < cfg.min_remaining
    → now + cfg.min_remaining ≤ last + 300 * second
    → ((next_round cfg last now).0 ≡ last + 300 * second)
      × (now ≤ (next_round cfg last now).1)
      × (last + 300 * second ≤ (next_round cfg last now).1 + cfg.lead)
unfolding next_round
next_round_follows cfg last now even least h =
    let next : next_boundary cfg last now ≡ last + 300 * second =
      next_boundary_follows cfg last now even least h in
    (next, ground arith, ground (arith, next))

-- How a symbol is counted, and the row that it pushes.
module _ {F : Type 0} (start : ℕ) where
  -- What a round adds: a row of its bar and a value of the cache for each success, an error for any
  -- other symbol.
  abbrev Adds : Round F → List (Text × Attempt F) → Round F → Type 0
  Adds before reached r =
      (r.succeeded + r.errors ≡ before.succeeded + before.errors + length reached)
      × (length r.pushed + before.succeeded ≡ length before.pushed + r.succeeded)
      × (All (λ (row : Row F). row.start_time ≡ start) before.pushed
          → All (λ (row : Row F). row.start_time ≡ start) r.pushed)

  one-Adds : (s : Text) (a : Attempt F) (r : Round F) → Adds r ((s, a) ∷ []) (one s start a r)
  unfolding one live_row
  one-Adds s no_turn r = (omega arith, omega arith, λ h. h)
  one-Adds s no_snapshot r = (omega arith, omega arith, λ h. h)
  one-Adds s (snapshot v time true) r = (omega arith, omega arith, λ h. h)
  one-Adds s (snapshot v time false) r = (
    omega arith,
    omega (arith, length-append r.pushed (live_row s start v time ∷ [])),
    λ h.
        All-append (λ (row : Row F). row.start_time ≡ start) r.pushed (live_row s start v time ∷ [])
          h (refl, tt),
  )

  snapshots-Adds :
      (reached : List (Text × Attempt F)) (r : Round F) → Adds r reached (snapshots start reached r)
  unfolding snapshots
  snapshots-Adds [] r = (omega arith, omega arith, λ h. h)
  snapshots-Adds ((s, a) ∷ rest) r =
      let (n, m, rows) = one-Adds s a r in
      let (n', m', rows') = snapshots-Adds rest (one s start a r) in
      (omega (arith, n, n'), omega (arith, m, m'), λ h. rows' (rows h))

-- A round accounts for every symbol and writes one bar: where no more symbols are reached than
-- there are, its successes and errors add up to the symbols, it pushes one row for each success,
-- and every row belongs to the bar that closes at the boundary.
pub cycle_accounts :
    {F : Type 0} (symbols boundary : ℕ) (reached : List (Text × Attempt F))
    (cache : Option (LiveCache F))
    → length reached ≤ symbols
    → ((cycle symbols boundary reached cache).succeeded
          + (cycle symbols boundary reached cache).errors
        ≡ symbols)
      × (length (cycle symbols boundary reached cache).pushed
          ≡ (cycle symbols boundary reached cache).succeeded)
      × All
          (λ (row : Row F). row.start_time ≡ boundary - 300 * second)
          (cycle symbols boundary reached cache).pushed
unfolding cycle
cycle_accounts symbols boundary reached cache h =
    let (n, m, rows) =
      snapshots-Adds (boundary - 300 * second) reached
        (record { pushed = []; cache = cache; succeeded = 0; errors = 0 }) in
    (omega (arith, n, h), omega (arith, m), rows tt)
