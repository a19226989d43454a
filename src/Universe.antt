-- ===== src/Universe.antt =====
-- internal/universe/monitor.go: which contracts are collected, the snapshot, and the daily
-- schedule. The answer of exchangeInfo is an argument, `none` if the request fails; instants are
-- nanoseconds since 1970.
pub mod Members
pub mod Schedule
mod Tests
use chomo_syncer_go.Base.{
  ltb, leb, if◌then◌else◌, ◌==◌, nat_eq, length, Text, codes, text_eq, contains, add_elem, ℤ,
  or_default, minute, hour, ℕ, zero, ◌+◌, ◌-◌, ◌*◌, ◌%◌, Bool, true, false, ◌&&◌, ◌||◌, Option,
  none, some, List, [], ◌∷◌, arith, pos, negsuc,
}
use chomo_syncer_go.Aggregator

abbrev pub day : ℕ
day = 24 * hour

pub record Config : Type 0 where
  pub refresh_interval : ℤ
  pub refresh_offset : ℤ
  pub quote_assets : List Text
  pub contract_type : Text
  pub status : Text

pub record ResolvedConfig : Type 0 where
  pub refresh : ℕ
  pub offset : ℕ
  pub quote_assets : List Text
  pub contract_type : Text
  pub status : Text

-- A negative offset is none, zero stands for the default.
resolve_offset : ℤ → ℕ
resolve_offset (negsuc n) = 0
resolve_offset (pos n) = if n == 0 then 2 * minute else n

add_quote : Text → List Text → List Text
add_quote [] qs = qs
add_quote (c ∷ cs) qs = add_elem (c ∷ cs) qs

quote_map : List Text → List Text
quote_map [] = []
quote_map (q ∷ qs) = add_quote q (quote_map qs)

or_usdt : List Text → List Text
or_usdt [] = codes "USDT" ∷ []
or_usdt (q ∷ qs) = q ∷ qs

or_text : Text → Text → Text
or_text [] def = def
or_text (c ∷ cs) def = c ∷ cs

-- The settings part of `New`.
unfoldable pub resolve : Config → ResolvedConfig
unfolding resolve_offset add_quote quote_map or_usdt or_text
resolve c = record {
  refresh = or_default c.refresh_interval (24 * hour);
  offset = resolve_offset c.refresh_offset;
  quote_assets = or_usdt (quote_map c.quote_assets);
  contract_type = or_text c.contract_type (codes "PERPETUAL");
  status = or_text c.status (codes "TRADING");
}

-- An entry of `exchangeInfoResp`
pub record Contract : Type 0 where
  pub symbol : Text
  pub contract_type : Text
  pub status : Text
  pub quote_asset : Text

pub record Monitor : Type 0 where
  pub cfg : ResolvedConfig
  pub symbols : List Text
  pub set : List Text

unfoldable pub new : Config → Monitor
new c = record { cfg = resolve c; symbols = []; set = [] }

abbrev is_empty : Text → Bool
is_empty [] = true
is_empty (c ∷ cs) = false

-- The condition of the loop in `fetch`.
unfoldable pub accepts : ResolvedConfig → Contract → Bool
accepts cfg c =
    contains cfg.quote_assets c.quote_asset
    && ((is_empty cfg.contract_type || c.contract_type == cfg.contract_type)
        && (is_empty cfg.status || c.status == cfg.status))

unfoldable pub accepted : ResolvedConfig → List Contract → List Text
accepted cfg [] = []
accepted cfg (c ∷ cs) =
    let rest = accepted cfg cs in if accepts cfg c then c.symbol ∷ rest else rest

-- Go's order of strings, and `sort.Strings` as an insertion sort.
unfoldable pub text_leb : Text → Text → Bool
text_leb [] t = true
text_leb (x ∷ s) [] = false
text_leb (x ∷ s) (y ∷ t) = let rest = text_leb s t in if x == y then rest else ltb x y

unfoldable pub insert_text : Text → List Text → List Text
unfolding text_leb
insert_text s [] = s ∷ []
insert_text s (t ∷ ts) =
    let rest = insert_text s ts in if text_leb s t then s ∷ t ∷ ts else t ∷ rest

unfoldable pub sort : List Text → List Text
unfolding insert_text
sort [] = []
sort (s ∷ ss) = insert_text s (sort ss)

-- `fetch`
unfoldable pub fetch : ResolvedConfig → Option (List Contract) → Option (List Text)
fetch cfg none = none
fetch cfg (some info) = some (sort (accepted cfg info))

unfoldable pub to_set : List Text → List Text
to_set [] = []
to_set (s ∷ ss) = add_elem s (to_set ss)

store : Option (List Text) → Monitor → Monitor × Option (List Text)
store none m = (m, none)
store (some symbols) m = (record m { symbols = symbols; set = to_set symbols }, some symbols)

-- `Refresh`: the monitor, and the snapshot that the subscribers are given.
unfoldable pub refresh : Option (List Contract) → Monitor → Monitor × Option (List Text)
unfolding store
refresh info m = store (fetch m.cfg info) m

-- `Size` and `Has`, as the dispatcher's UniverseProvider.
unfoldable pub provider : Monitor → Aggregator.Universe
provider m = record { size = length m.set; has = contains m.set }

-- `nextDelay`
unfoldable pub next_delay : ResolvedConfig → ℕ → ℕ
next_delay cfg now =
    let target = now - now % day + cfg.offset in
    if ltb cfg.refresh hour
    then cfg.refresh
    else if leb target now
    then target + day - now
    else target - now
