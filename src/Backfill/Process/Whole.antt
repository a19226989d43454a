-- ===== src/Backfill/Process/Whole.antt =====
-- internal/backfill/backfill.go: the outcomes of a whole request are as many as its ranges.
use chomo_syncer_go.Base.{
  if◌then◌else◌, Bool-cases, ◌==◌, nat_eq, length, length-append, Text, text_beq, text_beq_iff,
  text_eq, Map, lookup, insert, lookup-insert, contains, sum_by, sum_by-append, ℕ, ◌+◌, ◌≡◌, refl,
  sym, ap, subst, ◌∙◌, inl, inr, Bool, true, false, Option, some, List, [], ◌∷◌, ◌++◌, map, arith,
}
use chomo_syncer_go.Backfill.{Key, key_eq}
use chomo_syncer_go.Backfill.Requests.Settings.{ResolvedConfig}
use chomo_syncer_go.Backfill.Requests.{Range, RangeOutcome, Request}
use chomo_syncer_go.Backfill.Process.{
  FetchJob, ranges_of, Exchange, process_interval, symbols_in, by_interval, key_ranges, repair_of,
  repair_option, process_intervals, process,
}
use chomo_syncer_go.Backfill.Process.Repair.{
  report, reports, process_interval-reports, process_interval-cancelled,
}

abbrev keyed_as : Text → Text → Key
keyed_as iv symbol = record { symbol = symbol; interval = iv }

-- How many ranges a key has.
abbrev pub size : Map Key (List Range) → Key → ℕ
size ranges k = length (key_ranges k ranges)

-- How many the symbols of an interval have.
abbrev group_size : Map Key (List Range) → Text × List Text → ℕ
group_size ranges e = sum_by (λ symbol. size ranges (keyed_as e.0 symbol)) e.1

length-map {ℓ κ} :
    {A : Type ℓ} {B : Type κ} (f : A → B) (xs : List A) → length (map f xs) ≡ length xs
length-map f [] = refl
length-map f (x ∷ xs) = omega (arith, length-map f xs)

symbols_in-cons_eq :
    (iv i : Text) (w : List Text) (m : Map Text (List Text))
    → text_beq i iv ≡ true
    → symbols_in iv ((i, w) ∷ m) ≡ w
unfolding symbols_in lookup
symbols_in-cons_eq iv i w m y = rw (y, symbols_in) refl

symbols_in-cons_ne :
    (iv i : Text) (w : List Text) (m : Map Text (List Text))
    → text_beq i iv ≡ false
    → symbols_in iv ((i, w) ∷ m) ≡ symbols_in iv m
unfolding symbols_in lookup
symbols_in-cons_ne iv i w m n = rw (n, symbols_in) refl

group_size-snoc :
    (ranges : Map Key (List Range)) (iv : Text) (w : List Text) (symbol : Text)
    → group_size ranges (iv, w ++ symbol ∷ [])
      ≡ group_size ranges (iv, w) + size ranges (keyed_as iv symbol)
unfolding sum_by
group_size-snoc ranges iv w symbol =
    omega (arith, sum_by-append (λ s. size ranges (keyed_as iv s)) w (symbol ∷ []))

sum-insert :
    (ranges : Map Key (List Range)) (iv symbol : Text) (m : Map Text (List Text)) (old : List Text)
    → symbols_in iv m ≡ old
    → sum_by (group_size ranges) (insert iv (old ++ symbol ∷ []) m)
      ≡ sum_by (group_size ranges) m + size ranges (keyed_as iv symbol)
unfolding insert sum_by symbols_in lookup
sum-insert ranges iv symbol [] old e =
    subst (λ w. group_size ranges (iv, w ++ symbol ∷ []) + 0 ≡ 0 + size ranges (keyed_as iv symbol))
      e (omega arith)
sum-insert ranges iv symbol ((i, w) ∷ m) old e = elim (Bool-cases (text_beq i iv)) [
  | inl y ↦
      let w_old : w ≡ old = sym (symbols_in-cons_eq iv i w m y) ∙ e in
      let before : group_size ranges (i, w) ≡ group_size ranges (iv, old) =
        ap (λ r. group_size ranges (r, w)) ((text_beq_iff i iv).0 y)
        ∙ ap (λ v. group_size ranges (iv, v)) w_old in
      rw y (omega (arith, before, group_size-snoc ranges iv old symbol))
  | inr n ↦
      let rest = sum-insert ranges iv symbol m old (sym (symbols_in-cons_ne iv i w m n) ∙ e) in
      rw n (omega (arith, rest))
]

sum-by_interval :
    (ranges : Map Key (List Range)) (ks : List Key) (m : Map Text (List Text))
    → sum_by (group_size ranges) (by_interval ks m)
      ≡ sum_by (group_size ranges) m + sum_by (size ranges) ks
unfolding by_interval sum_by
sum-by_interval ranges [] m = omega arith
sum-by_interval ranges (k ∷ ks) m = omega (
  arith,
  sum-by_interval ranges ks (insert k.interval (symbols_in k.interval m ++ k.symbol ∷ []) m),
  sum-insert ranges k.interval k.symbol m (symbols_in k.interval m) refl,
)

ranges_of-insert :
    (put got : Text) (rs : List Range) (m : Map Text (List Range))
    → ranges_of got (insert put rs m) ≡ (if put == got then rs else ranges_of got m)
unfolding ranges_of
ranges_of-insert put got rs m = ground (arith, lookup-insert put got rs m)

ranges_of-repair_of :
    (iv symbol : Text) (ranges : Map Key (List Range)) (symbols : List Text)
    → contains symbols symbol ≡ true
    → ranges_of symbol (repair_of iv ranges symbols) ≡ key_ranges (keyed_as iv symbol) ranges
unfolding repair_of contains
ranges_of-repair_of iv symbol ranges [] h = absurd (ground (arith, h))
ranges_of-repair_of iv symbol ranges (s ∷ symbols) h =
    ranges_of-insert s symbol (key_ranges (keyed_as iv s) ranges) (repair_of iv ranges symbols)
    ∙ elim (Bool-cases (text_beq s symbol)) [
      | inl y ↦ rw y (ap (λ t. key_ranges (keyed_as iv t) ranges) ((text_beq_iff s symbol).0 y))
      | inr n ↦ rw n (ranges_of-repair_of iv symbol ranges symbols (ground (arith, h, n)))
    ]

-- The reports of an interval are as many as the ranges of its symbols.
length-reports :
    (fetched : FetchJob → ℕ × Bool) (iv : Text) (ranges : Map Key (List Range))
    (all symbols : List Text)
    → ((symbol : Text) → contains symbols symbol ≡ true → contains all symbol ≡ true)
    → length (reports fetched iv (repair_of iv ranges all) symbols)
      ≡ group_size ranges (iv, symbols)
unfolding reports sum_by contains
length-reports fetched iv ranges all [] h = refl
length-reports fetched iv ranges all (symbol ∷ symbols) h =
    let mine : List Range = ranges_of symbol (repair_of iv ranges all) in
    omega (
      arith,
      length-append (map (report fetched iv symbol) mine)
          (reports fetched iv (repair_of iv ranges all) symbols),
      length-map (report fetched iv symbol) mine,
      ap length (
          ranges_of-repair_of iv symbol ranges all
            (h symbol (ground (arith, text_beq_iff symbol symbol)))),
      length-reports fetched iv ranges all symbols (λ s c. h s (ground (arith, c))),
    )

module _ {F : Type 0} (cfg : ResolvedConfig) (ex : Text → Exchange F) (dur : Text → ℕ)
    (never : (iv : Text) (n : ℕ) → (ex iv).cancelled n ≡ false) where
  length-process_intervals :
      (since : Option ℕ) (until : ℕ) (ranges : Map Key (List Range)) (groups : Map Text (List Text))
      → length (process_intervals cfg ex dur since until (some ranges) groups).0
        ≡ sum_by (group_size ranges) groups
  unfolding process_intervals repair_option sum_by
  length-process_intervals since until ranges [] = refl
  length-process_intervals since until ranges ((iv, symbols) ∷ groups) =
      let here : List RangeOutcome =
        (process_interval cfg (ex iv) (dur iv) iv symbols since until
          (some (repair_of iv ranges symbols))).0 in
      omega (
        arith,
        length-append here (process_intervals cfg ex dur since until (some ranges) groups).0,
        ap length (
            process_interval-reports cfg (ex iv) (dur iv) iv symbols since until
              (repair_of iv ranges symbols) (never iv)),
        length-reports (ex iv).fetched iv ranges symbols symbols (λ s c. c),
        length-process_intervals since until ranges groups,
      )

  -- A repair whose context does not end reports as many outcomes as its keys have ranges, whatever
  -- the intervals of the keys.
  pub length-process :
      (req : Request) (ranges : Map Key (List Range)) (now : ℕ)
      → req.ranges ≡ some ranges
      → length (process cfg ex dur req now).0 ≡ sum_by (size ranges) req.keys
  unfolding process sum_by
  length-process req ranges now e = rw e (
      length-process_intervals req.since _ ranges (by_interval req.keys [])
      ∙ omega (arith, sum-by_interval ranges req.keys []))

process_intervals-cancelled :
    {F : Type 0} (cfg : ResolvedConfig) (ex : Text → Exchange F) (dur : Text → ℕ) (since : Option ℕ)
    (until : ℕ) (ranges : Map Key (List Range)) (groups : Map Text (List Text))
    → ((iv : Text) → (ex iv).cancelled 0 ≡ true)
    → (process_intervals cfg ex dur since until (some ranges) groups).0 ≡ []
unfolding process_intervals repair_option
process_intervals-cancelled cfg ex dur since until ranges [] h = refl
process_intervals-cancelled cfg ex dur since until ranges ((iv, symbols) ∷ groups) h =
    rw
      (process_interval-cancelled cfg (ex iv) (dur iv) iv symbols since until
        (repair_of iv ranges symbols) (h iv))
      (process_intervals-cancelled cfg ex dur since until ranges groups h)

-- A repair whose context has ended before its first fetches reports nothing.
pub process-cancelled :
    {F : Type 0} (cfg : ResolvedConfig) (ex : Text → Exchange F) (dur : Text → ℕ) (req : Request)
    (ranges : Map Key (List Range)) (now : ℕ)
    → req.ranges ≡ some ranges
    → ((iv : Text) → (ex iv).cancelled 0 ≡ true)
    → (process cfg ex dur req now).0 ≡ []
unfolding process
process-cancelled cfg ex dur req ranges now e h =
    rw e (process_intervals-cancelled cfg ex dur req.since _ ranges (by_interval req.keys []) h)
