-- ===== src/Universe/Tests.antt =====
-- Runs of internal/universe/monitor.go on four contracts, and the theorems on it there.
use chomo_syncer_go.Base.{
  nat_eq, Text, codes, text_eq, contains, ◌≡◌, refl, some, List, [], ◌∷◌, pos,
}
use chomo_syncer_go.Universe.{
  Config, resolve, Contract, new, accepts, accepted, text_leb, insert_text, sort, fetch, refresh,
}

abbrev settings : Config
settings = record {
  refresh_interval = pos 0;
  refresh_offset = pos 0;
  quote_assets = [];
  contract_type = [];
  status = [];
}

abbrev contract : Text → Text → Text → Contract
contract symbol status quote = record {
  symbol = symbol;
  contract_type = codes "PERPETUAL";
  status = status;
  quote_asset = quote;
}

abbrev info : List Contract
info =
    contract (codes "ETHUSDT") (codes "TRADING") (codes "USDT")
    ∷ contract (codes "BTCUSDT") (codes "TRADING") (codes "USDT")
    ∷ contract (codes "BTCUSDC") (codes "TRADING") (codes "USDC")
    ∷ contract (codes "OLDUSDT") (codes "SETTLING") (codes "USDT")
    ∷ []

two_members : (refresh (some info) (new settings)).1 ≡ some (codes "BTCUSDT" ∷ codes "ETHUSDT" ∷ [])
unfolding refresh fetch sort insert_text text_leb accepted accepts new resolve contains
two_members = refl
