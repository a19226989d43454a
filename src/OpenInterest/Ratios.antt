-- ===== src/OpenInterest/Ratios.antt =====
-- internal/openinterest/{lsratio,lsratio_hist}.go: the three long/short ratios of a symbol, merged
-- into one row for each bar. A ratio that is not there (NaN in the code) is `none`.
pub mod Merge
pub mod Rows
pub mod HeldBack
mod Tests
use chomo_syncer_go.Base.{
  ltb, if◌then◌else◌, ◌==◌, nat_eq, Text, text_eq, Map, lookup, insert, second, ℕ, ◌+◌, ◌*◌, Bool,
  true, false, not, ◌&&◌, ◌||◌, Option, none, some, List, [], ◌∷◌, ◌++◌, arith,
}
use chomo_syncer_go.OpenInterest.{hist_bar_start, floor_bar}
use chomo_syncer_go.OpenInterest.Pages.{
  Point, Reply, Limits, HistJob, Ended, finished, delisted, request_failed, push_failed,
  unterminated, ratio_series,
}
use chomo_syncer_go.OpenInterest.Settings.{Hist}
use chomo_syncer_go.OpenInterest.Pass.{Fetched, Passed, World, pass}

pub data RatioKind : Type 0 where
  top_account top_position global_account : RatioKind

unfoldable pub same_kind : RatioKind → RatioKind → Bool
same_kind top_account top_account = true
same_kind top_position top_position = true
same_kind global_account global_account = true
same_kind _ _ = false

pub record LsRow (F : Type 0) : Type 0 where
  pub symbol : Text
  pub start_time : ℕ
  pub account : Option F
  pub position : Option F
  pub everyone : Option F
  pub snap_time : ℕ
  pub src_rank : ℕ

module _ {F : Type 0} where
  -- `newLSRow` with the rank of the history
  unfoldable pub new_ls_row : Text → ℕ → LsRow F
  new_ls_row symbol start = record {
    symbol = symbol;
    start_time = start;
    account = none;
    position = none;
    everyone = none;
    snap_time = start + 300 * second;
    src_rank = 2;
  }

  -- `Ratios[k]`
  unfoldable pub ratio : RatioKind → LsRow F → Option F
  ratio top_account r = r.account
  ratio top_position r = r.position
  ratio global_account r = r.everyone

  unfoldable pub set_ratio : RatioKind → F → LsRow F → LsRow F
  set_ratio top_account v r = record r { account = some v }
  set_ratio top_position v r = record r { position = some v }
  set_ratio global_account v r = record r { everyone = some v }

pub data LsRowError : Type 0 where
  empty_symbol off_boundary bad_rank bad_ratio no_ratio : LsRowError

abbrev is_bad_ratio {ℓ} : {F : Type ℓ} → (F → Bool) → Option F → Bool
is_bad_ratio is_bad none = false
is_bad_ratio is_bad (some v) = is_bad v

abbrev pub is_there {ℓ} : {A : Type ℓ} → Option A → Bool
is_there none = false
is_there (some v) = true

-- `validate`; whether a float is infinite or negative is a parameter.
unfoldable pub validate_ls : {F : Type 0} → (F → Bool) → LsRow F → Option LsRowError
unfolding floor_bar
validate_ls is_bad r =
    if r.symbol == []
    then some empty_symbol
    else if r.start_time == 0 || not (r.start_time == floor_bar r.start_time)
    then some off_boundary
    else if not (r.src_rank == 2) && not (r.src_rank == 3)
    then some bad_rank
    else if is_bad_ratio is_bad r.account
        || (is_bad_ratio is_bad r.position || is_bad_ratio is_bad r.everyone)
    then some bad_ratio
    else if not (is_there r.account) && (not (is_there r.position) && not (is_there r.everyone))
    then some no_ratio
    else none

-- The points of the three endpoints, indexed by their kind.
pub record Series (F : Type 0) : Type 0 where
  pub account : List (Point F)
  pub position : List (Point F)
  pub everyone : List (Point F)

-- The newest label that all series share; 0 while there is none.
unfoldable pub meet : Option ℕ → ℕ → ℕ
meet none common = common
meet (some newest) common = if common == 0 || ltb newest common then newest else common

module _ {F : Type 0} where
  unfoldable pub series_of : RatioKind → Series F → List (Point F)
  series_of top_account s = s.account
  series_of top_position s = s.position
  series_of global_account s = s.everyone

  -- The label of the last point, none for an empty series.
  unfoldable pub last_label : List (Point F) → Option ℕ
  last_label [] = none
  last_label (p ∷ []) = some p.label
  last_label (p ∷ q ∷ ps) = last_label (q ∷ ps)

  unfoldable pub common_label : Series F → ℕ
  unfolding last_label meet
  common_label s =
      meet (last_label s.everyone) (meet (last_label s.position) (meet (last_label s.account) 0))

  row_or_new : Text → ℕ → Option (LsRow F) → LsRow F
  unfolding new_ls_row
  row_or_new symbol start none = new_ls_row symbol start
  row_or_new symbol start (some r) = r

  unfoldable pub put_ratio : RatioKind → Text → F → Option ℕ → Map ℕ (LsRow F) → Map ℕ (LsRow F)
  unfolding set_ratio row_or_new
  put_ratio k symbol v none rows = rows
  put_ratio k symbol v (some start) rows =
      insert start (set_ratio k v (row_or_new symbol start (lookup start rows))) rows

  -- The bar of a point that is not newer than the common label.
  unfoldable pub bar_of : ℕ → Point F → Option ℕ
  unfolding hist_bar_start
  bar_of common p = if ltb common p.label then none else hist_bar_start p.label

  unfoldable pub put_series :
      RatioKind → Text → ℕ → List (Point F) → Map ℕ (LsRow F) → Map ℕ (LsRow F)
  unfolding put_ratio bar_of
  put_series k symbol common [] rows = rows
  put_series k symbol common (p ∷ ps) rows =
      put_series k symbol common ps (put_ratio k symbol p.value (bar_of common p) rows)

  unfoldable pub merge : Text → ℕ → Series F → Map ℕ (LsRow F)
  unfolding put_series
  merge symbol common s = put_series global_account symbol common s.everyone (
      put_series top_position symbol common s.position
        (put_series top_account symbol common s.account []))

  -- The rows by their starts.
  unfoldable pub insert_row : LsRow F → List (LsRow F) → List (LsRow F)
  insert_row r [] = r ∷ []
  insert_row r (x ∷ xs) =
      let rest = insert_row r xs in if ltb x.start_time r.start_time then x ∷ rest else r ∷ x ∷ xs

  unfoldable pub by_start : Map ℕ (LsRow F) → List (LsRow F)
  unfolding insert_row
  by_start [] = []
  by_start ((s, r) ∷ rows) = insert_row r (by_start rows)

  unfoldable pub push_ls : (LsRow F → Bool) → List (LsRow F) → Fetched (LsRow F) → Fetched (LsRow F)
  push_ls push_err [] f = f
  push_ls push_err (r ∷ rs) f =
      let rest = push_ls push_err rs (record f {
        pushed = f.pushed ++ r ∷ [];
        rows = f.rows + 1;
        newest = if ltb f.newest r.start_time then r.start_time else f.newest;
      }) in
      if push_err r then record f { failed = true } else rest

  unfoldable pub nothing_fetched : Bool → Fetched (LsRow F)
  nothing_fetched failed = record { pushed = []; rows = 0; newest = 0; gaps = 0; failed = failed }

  is_empty : List (Point F) → Bool
  is_empty [] = true
  is_empty (p ∷ ps) = false

  -- `emit`
  unfoldable pub emit_ratios : (LsRow F → Bool) → Text → ℕ → Series F → Fetched (LsRow F)
  unfolding common_label merge by_start push_ls nothing_fetched is_empty
  emit_ratios push_err symbol now s =
      let common = common_label s in
      let limit = if ltb now common then now else common in
      if common == 0
      then nothing_fetched false
      else if is_empty s.account || (is_empty s.position || is_empty s.everyone)
      then nothing_fetched false
      else push_ls push_err (by_start (merge symbol limit s)) (nothing_fetched false)

  -- What a series that was paged back leaves to do: `none` goes on.
  after_series : Ended → Option (Fetched (LsRow F))
  unfolding nothing_fetched
  after_series finished = none
  after_series delisted = some (nothing_fetched false)
  after_series request_failed = some (nothing_fetched true)
  after_series push_failed = some (nothing_fetched true)
  after_series unterminated = some (nothing_fetched true)

  or_go : Option (Fetched (LsRow F)) → Fetched (LsRow F) → Fetched (LsRow F)
  or_go none go = go
  or_go (some f) go = f

  -- `fetchSymbol` of `LSReconciler`: nothing is written before all three series are there.
  unfoldable pub fetch_ratios :
      Limits
      → (RatioKind → ℕ → ℕ → ℕ → ℕ → Reply F)
      → (LsRow F → Bool)
      → HistJob
      → ℕ
      → Fetched (LsRow F)
  unfolding ratio_series emit_ratios after_series or_go
  fetch_ratios l reply push_err j now =
      let account = ratio_series l (reply top_account) j now in
      let position = ratio_series l (reply top_position) j now in
      let everyone = ratio_series l (reply global_account) j now in
      or_go (after_series account.1) (
        or_go (after_series position.1) (
          or_go (after_series everyone.1) (
            emit_ratios push_err j.symbol now
              (record { account = account.0; position = position.0; everyone = everyone.0 }))))

-- `pass` of `LSReconciler`: the pass of the open interest with another fetch.
unfoldable pub ls_pass :
    {F : Type 0}
    → (ℕ → Text → RatioKind → ℕ → ℕ → ℕ → ℕ → Reply F)
    → (LsRow F → Bool)
    → (ℕ → HistJob → ℕ)
    → Bool
    → Bool
    → Option Bool
    → Hist
    → List Text
    → Map Text ℕ
    → ℕ
    → Bool
    → Passed (LsRow F)
unfolding pass fetch_ratios
ls_pass reply push_err clock ended_early ended flush_failed cfg syms last now full =
    pass
      (record {
        fetch = λ attempt j.
            fetch_ratios (record { margin = cfg.limit_margin; max_limit = cfg.max_limit })
              (reply attempt j.symbol) push_err j (clock attempt j);
        ended_early = ended_early;
        ended = ended;
        flush_failed = flush_failed;
      })
      cfg syms last now full
