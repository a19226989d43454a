-- ===== src/OpenInterest/Syncer.antt =====
-- internal/openinterest/syncer.go: Build with its clean-up, Start and Close. Constructors of the
-- ClickHouse clients are parameters that succeed or fail.
pub mod Life
mod Tests
use chomo_syncer_go.Base.{
  if◌then◌else◌, nat_eq, text_eq, ℕ, ◌+◌, Bool, true, false, not, ◌&&◌, Option, none, some, List,
  [], ◌∷◌, ◌++◌, arith,
}
use chomo_syncer_go.OpenInterest.Settings.{
  SyncConfig, Sync, sync_defaults, oi_enabled, enabled, SyncError, validate_sync, Given, NewError,
  new_error,
}

-- The two blocks of `Build`, and what each of them makes. A writer owns its flusher.
pub data Block : Type 0 where
  oi ls : Block

pub data Part : Type 0 where
  flusher store writer : Block → Part

-- Which constructors succeed.
pub record Opening : Type 0 where
  pub oi_flusher : Bool
  pub oi_store : Bool
  pub ls_flusher : Bool
  pub ls_store : Bool

pub data BuildError : Type 0 where
  bad_config : SyncError → BuildError
  no_client : BuildError
  not_built : NewError → BuildError

-- What `Build` returns: nothing, an error, or a syncer.
pub data Outcome : Type 0 where
  disabled built : Outcome
  refused : BuildError → Outcome

-- What was made so far, and `d.Closers`.
pub record Site : Type 0 where
  pub opened : List Part
  pub closers : List Part

unfoldable pub empty : Site
empty = record { opened = []; closers = [] }

-- A constructor succeeds.
unfoldable pub make : Part → Site → Site
make p s = record s { opened = s.opened ++ p ∷ [] }

-- `append(d.Closers, …)`
unfoldable pub register : List Part → Site → Site
register ps s = record s { closers = s.closers ++ ps }

-- What was made and what was closed again; the closers of a syncer that is returned.
pub record Built : Type 0 where
  pub outcome : Outcome
  pub opened : List Part
  pub closers : List Part
  pub closed : List Part

-- `Close`: that of a writer closes its flusher too.
unfoldable pub close_part : Part → List Part
close_part (writer b) = writer b ∷ flusher b ∷ []
close_part (flusher b) = flusher b ∷ []
close_part (store b) = store b ∷ []

unfoldable pub close_parts : List Part → List Part
unfolding close_part
close_parts [] = []
close_parts (p ∷ ps) = close_part p ++ close_parts ps

-- An error that is returned as it is.
unfoldable pub fail : BuildError → Site → Built
fail e s = record { outcome = refused e; opened = s.opened; closers = []; closed = [] }

-- An error that is returned after `closeAll`.
unfoldable pub give_up : BuildError → Site → Built
unfolding close_parts
give_up e s = record {
  outcome = refused e;
  opened = s.opened;
  closers = [];
  closed = close_parts s.closers;
}

-- What the two blocks give to `New`.
given : Sync → Given
unfolding oi_enabled
given c = record {
  symbols = true;
  snapshots = oi_enabled c;
  history = oi_enabled c;
  store = oi_enabled c;
  sink = oi_enabled c;
  ratios = c.ls_ratio_enabled;
  ls_store = c.ls_ratio_enabled;
  ls_sink = c.ls_ratio_enabled;
}

construct : Option NewError → Site → Built
unfolding give_up
construct none s = record { outcome = built; opened = s.opened; closers = s.closers; closed = [] }
construct (some e) s = give_up (not_built e) s

-- A block after its flusher and its store: the writer is made, and registered before the store.
unfoldable pub equip : Block → Site → Site
unfolding make register
equip b s = register (writer b ∷ store b ∷ []) (make (writer b) s)

unfoldable pub open_ls : SyncConfig → Opening → Site → Built
unfolding give_up construct given new_error sync_defaults make equip
open_ls c o s =
    let one = make (flusher ls) s in
    let two = make (store ls) one in
    if not (sync_defaults c).ls_ratio_enabled
    then construct (new_error c (given (sync_defaults c))) s
    else if not o.ls_flusher
    then give_up no_client s
    else if not o.ls_store
    then give_up no_client one
    else construct (new_error c (given (sync_defaults c))) (equip ls two)

unfoldable pub open_oi : SyncConfig → Opening → Built
unfolding open_ls oi_enabled sync_defaults fail empty make equip
open_oi c o =
    let one = make (flusher oi) empty in
    let two = make (store oi) one in
    if not (oi_enabled (sync_defaults c))
    then open_ls c o empty
    else if not o.oi_flusher
    then fail no_client empty
    else if not o.oi_store
    then fail no_client one
    else open_ls c o (equip oi two)

checked : Option SyncError → Built → Built
unfolding fail empty
checked none b = b
checked (some e) b = fail (bad_config e) empty

-- `Build`
unfoldable pub build : SyncConfig → Opening → Built
unfolding open_oi enabled sync_defaults validate_sync checked
build c o =
    if not (enabled (sync_defaults c))
    then record { outcome = disabled; opened = []; closers = []; closed = [] }
    else checked (validate_sync (sync_defaults c)) (open_oi c o)

pub data Loop : Type 0 where
  live_loop hist_loop ls_loop : Loop

pub record Syncer : Type 0 where
  pub cfg : Sync
  pub started : Bool
  pub closed : Bool
  pub running : List Loop
  -- whether the reconciler was told since when live snapshots run, and how often the closers were
  -- closed
  pub live_since : Bool
  pub closings : ℕ

unfoldable pub new : Sync → Syncer
new cfg = record {
  cfg = cfg;
  started = false;
  closed = false;
  running = [];
  live_since = false;
  closings = 0;
}

unfoldable pub loops_of : Sync → List Loop
loops_of c =
    (if c.live_enabled then live_loop ∷ [] else [])
    ++ ((if c.hist_enabled then hist_loop ∷ [] else [])
        ++ (if c.ls_ratio_enabled then ls_loop ∷ [] else []))

pub data StartError : Type 0 where
  is_closed already_started : StartError

-- `Start`
unfoldable pub start : Syncer → Syncer × Option StartError
unfolding loops_of
start s =
    if s.closed then (s, some is_closed) else if s.started then (s, some already_started) else (
      record s {
        started = true;
        running = loops_of s.cfg;
        live_since = s.cfg.live_enabled && s.cfg.hist_enabled;
      },
      none,
    )

-- `Close`: the loops end by their context before the closers are closed.
unfoldable pub close : Syncer → Syncer
close s =
    if s.closed then s else record s { closed = true; running = []; closings = s.closings + 1 }

pub data Call : Type 0 where
  starts closes : Call

unfoldable pub call : Call → Syncer → Syncer
unfolding start close
call starts s = (start s).0
call closes s = close s

unfoldable pub calls : List Call → Syncer → Syncer
unfolding call
calls [] s = s
calls (c ∷ cs) s = calls cs (call c s)
