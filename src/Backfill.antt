-- ===== src/Backfill.antt =====
-- internal/backfill/backfill.go: the names of streams that a gap event lists.
pub mod Streams
pub mod Fetch
pub mod Requests
pub mod Process
pub mod Sweep
mod Tests
use chomo_syncer_go.Base.{
  if◌then◌else◌, HasEq, ◌==◌, nat_eq, Text, codes, text_beq, text_beq_iff, text_eq, to_upper, ◌≡◌,
  ◌↔◌, Bool, true, ◌&&◌, Option, none, some, List, [], ◌∷◌, arith,
}

pub record Key : Type 0 where
  pub symbol : Text
  pub interval : Text

abbrev pub key_beq : Key → Key → Bool
key_beq a b = text_beq a.symbol b.symbol && text_beq a.interval b.interval

pub key_beq_iff : (a b : Key) → (key_beq a b ≡ true) ↔ (a ≡ b)
key_beq_iff a b = ground (arith, text_beq_iff a.symbol b.symbol, text_beq_iff a.interval b.interval)

instance abbrev pub key_eq : HasEq Key
key_eq = record { same = key_beq; same_iff = key_beq_iff }

-- A key with its symbol upper-cased.
unfoldable pub fold_key : Key → Key
fold_key k = record { symbol = to_upper k.symbol; interval = k.interval }

-- The text before the first '@' and the text after it, as IndexByte finds it.
unfoldable pub split_at_sign : Text → Option (Text × Text)
split_at_sign [] = none
split_at_sign (c ∷ cs) =
    let rest = split_at_sign cs in
    if c == b'@' then some ([], cs) else elim rest [ none ↦ none | some (s, t) ↦ some (c ∷ s, t) ]

-- `strings.CutPrefix`
unfoldable pub cut_prefix : Text → Text → Option Text
cut_prefix [] s = some s
cut_prefix (p ∷ ps) [] = none
cut_prefix (p ∷ ps) (c ∷ cs) = let rest = cut_prefix ps cs in if p == c then rest else none

unfoldable pub keyed : Text → Option Text → Option Key
keyed symbol none = none
keyed symbol (some []) = none
keyed symbol (some (c ∷ cs)) = some (record { symbol = to_upper symbol; interval = c ∷ cs })

unfoldable pub keyed_parts : Option (Text × Text) → Option Key
unfolding cut_prefix keyed
keyed_parts none = none
keyed_parts (some ([], rest)) = none
keyed_parts (some (c ∷ cs, rest)) = keyed (c ∷ cs) (cut_prefix (codes "kline_") rest)

-- `parseStream`
unfoldable pub parse_stream : Text → Option Key
unfolding split_at_sign keyed_parts
parse_stream s = keyed_parts (split_at_sign s)

-- The keys of `HandleGap`: the streams that are no kline streams are left out.
unfoldable pub gap_keys : List Text → List Key
unfolding parse_stream
gap_keys [] = []
gap_keys (s ∷ streams) =
    let rest = gap_keys streams in elim (parse_stream s) [ none ↦ rest | some k ↦ k ∷ rest ]
