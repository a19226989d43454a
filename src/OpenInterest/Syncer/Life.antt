-- ===== src/OpenInterest/Syncer/Life.antt =====
-- internal/openinterest/syncer.go: what is made is closed again, and nothing runs or closes twice.
use mathlib.Core.List.{append-nil}
use chomo_syncer_go.Base.{
  if◌then◌else◌, if-elim, nat_eq, text_eq, ℕ, ◌+◌, ◌-◌, ◌≤◌, ◌≡◌, refl, ap, Bool, true, false, not,
  ◌&&◌, Option, none, some, List, [], ◌∷◌, ◌++◌, arith,
}
use chomo_syncer_go.OpenInterest.Settings.{
  SyncConfig, Sync, sync_defaults, oi_enabled, enabled, SyncError, validate_sync, NewError,
  new_error,
}
use chomo_syncer_go.OpenInterest.Syncer.{
  Block, oi, ls, Part, flusher, store, writer, Opening, BuildError, no_client, bad_config,
  not_built, disabled, built, refused, Site, empty, make, register, Built, close_parts, fail,
  give_up, given, construct, equip, open_ls, open_oi, checked, build, Syncer, new, loops_of, start,
  close, Call, starts, closes, call, calls,
}

same_block : Block → Block → Bool
same_block oi oi = true
same_block ls ls = true
same_block _ _ = false

unfoldable pub same_part : Part → Part → Bool
unfolding same_block
same_part (flusher a) (flusher b) = same_block a b
same_part (store a) (store b) = same_block a b
same_part (writer a) (writer b) = same_block a b
same_part _ _ = false

-- How often a part stands in a list.
unfoldable pub count_part : Part → List Part → ℕ
unfolding same_part
count_part p [] = 0
count_part p (q ∷ qs) = (if same_part p q then 1 else 0) + count_part p qs

-- A flusher that was made for a block without a store, and so got no writer; it has not connected.
unfoldable pub stray : Part → List Part → ℕ
unfolding count_part
stray (flusher b) opened = count_part (flusher b) opened - count_part (store b) opened
stray _ opened = 0

-- What is closed in the end: at once, or with the syncer.
abbrev pub released : Built → List Part
released b = b.closed ++ close_parts b.closers

-- Each part is made at most once and is closed as often as it was made, but for a stray flusher; a
-- syncer that is returned has all of its parts open and none stray.
abbrev pub Clean : Built → Type 0
Clean b =
    ((p : Part)
      → (count_part p b.opened ≡ count_part p (released b) + stray p b.opened)
        × (count_part p b.opened ≤ 1))
    × (elim b.outcome [
      | built ↦ (b.closed ≡ []) × ((p : Part) → stray p b.opened ≡ 0)
      | disabled ↦ b.opened ≡ []
      | refused e ↦ b.closers ≡ []
    ])

every_part {ℓ} :
    (P : Part → Type ℓ)
    → ((b : Block) → P (flusher b) × P (store b) × P (writer b))
    → (p : Part) → P p
every_part P h (flusher b) = (h b).0
every_part P h (store b) = (h b).1
every_part P h (writer b) = (h b).2

-- Between the blocks: what was made is registered, and nothing is stray.
abbrev IsWhole : Site → Type 0
IsWhole s =
    (p : Part)
    → (count_part p s.opened ≡ count_part p (close_parts s.closers))
      × (count_part p s.opened ≤ 1)
      × (stray p s.opened ≡ 0)

-- The sites that `Build` comes to: without and with the first block, and then with the second.
with_oi : Bool → Site
unfolding empty make equip
with_oi false = empty
with_oi true = equip oi (make (store oi) (make (flusher oi) empty))

with_oi-IsWhole : (b : Bool) → IsWhole (with_oi b)
unfolding with_oi empty make register equip count_part stray close_parts
with_oi-IsWhole false = every_part _ (λ b. ground arith)
with_oi-IsWhole true = every_part _ (λ b. ground arith)

with_ls-IsWhole : (b : Bool) → IsWhole (equip ls (make (store ls) (make (flusher ls) (with_oi b))))
unfolding with_oi empty make register equip count_part stray close_parts
with_ls-IsWhole false = every_part _ (λ b. ground arith)
with_ls-IsWhole true = every_part _ (λ b. ground arith)

give_up-Clean :
    (e : BuildError) (s : Site)
    → ((p : Part)
        → (count_part p s.opened ≡ count_part p (close_parts s.closers) + stray p s.opened)
          × (count_part p s.opened ≤ 1))
    → Clean (give_up e s)
unfolding give_up close_parts
give_up-Clean e s h = (λ p. rw (append-nil (close_parts s.closers)) (h p), refl)

whole_stray :
    (s : Site)
    → IsWhole s
    → (p : Part)
    → (count_part p s.opened ≡ count_part p (close_parts s.closers) + stray p s.opened)
      × (count_part p s.opened ≤ 1)
whole_stray s h p = let (same, once, none_stray) = h p in (omega (arith, same, none_stray), once)

construct-Clean : (o : Option NewError) (s : Site) → IsWhole s → Clean (construct o s)
unfolding construct
construct-Clean none s h = (whole_stray s h, (refl, λ p. (h p).2))
construct-Clean (some e) s h = give_up-Clean (not_built e) s (whole_stray s h)

-- A flusher without a store, in the second block.
no_store-Clean : (b : Bool) (e : BuildError) → Clean (give_up e (make (flusher ls) (with_oi b)))
unfolding with_oi empty make register equip count_part stray close_parts
no_store-Clean false e = give_up-Clean e _ (every_part _ (λ b. ground arith))
no_store-Clean true e = give_up-Clean e _ (every_part _ (λ b. ground arith))

open_ls-Clean : (c : SyncConfig) (o : Opening) (b : Bool) → Clean (open_ls c o (with_oi b))
unfolding open_ls
open_ls-Clean c o b =
    if-elim Clean (not (sync_defaults c).ls_ratio_enabled)
      (construct-Clean (new_error c (given (sync_defaults c))) (with_oi b) (with_oi-IsWhole b))
      (if-elim Clean (not o.ls_flusher)
        (give_up-Clean no_client (with_oi b) (whole_stray (with_oi b) (with_oi-IsWhole b)))
        (if-elim Clean (not o.ls_store) (no_store-Clean b no_client)
          (construct-Clean (new_error c (given (sync_defaults c))) _ (with_ls-IsWhole b))))

fail-Clean : (e : BuildError) → Clean (fail e empty) × Clean (fail e (make (flusher oi) empty))
unfolding fail empty make count_part stray close_parts
fail-Clean e = ((every_part _ (λ b. ground arith), refl), (every_part _ (λ b. ground arith), refl))

open_oi-Clean : (c : SyncConfig) (o : Opening) → Clean (open_oi c o)
unfolding open_oi with_oi
open_oi-Clean c o = if-elim Clean (not (oi_enabled (sync_defaults c))) (open_ls-Clean c o false) (
    if-elim Clean (not o.oi_flusher) (fail-Clean no_client).0
      (if-elim Clean (not o.oi_store) (fail-Clean no_client).1 (open_ls-Clean c o true)))

checked-Clean : (o : Option SyncError) (b : Built) → Clean b → Clean (checked o b)
unfolding checked
checked-Clean none b h = h
checked-Clean (some e) b h = (fail-Clean (bad_config e)).0

-- Build closes what it made: whichever constructor or check fails, each part
-- that it made, once each, is closed again, once each, but for the flusher of a block whose store
-- could not be made; a syncer that it returns has all parts open, none is such a flusher, and its
-- closers close each part once.
pub build-Clean : (c : SyncConfig) (o : Opening) → Clean (build c o)
unfolding build count_part stray close_parts
build-Clean c o =
    if-elim Clean (not (enabled (sync_defaults c))) (every_part _ (λ b. ground arith), refl)
      (checked-Clean (validate_sync (sync_defaults c)) (open_oi c o) (open_oi-Clean c o))

-- What runs and what has been closed, by the two flags.
abbrev pub IsOrderly : Sync → Syncer → Type 0
IsOrderly cfg s =
    (s.cfg ≡ cfg)
    × (s.running ≡ (if s.started && not s.closed then loops_of cfg else []))
    × (s.closings ≡ (if s.closed then 1 else 0))

start-IsOrderly : (cfg : Sync) (s : Syncer) → IsOrderly cfg s → IsOrderly cfg (start s).0
unfolding start
start-IsOrderly cfg s (c, r, n) =
    (ground (arith, c), ground (arith, r, ap loops_of c), ground (arith, n))

close-IsOrderly : (cfg : Sync) (s : Syncer) → IsOrderly cfg s → IsOrderly cfg (close s)
unfolding close
close-IsOrderly cfg s (c, r, n) = (ground (arith, c), ground (arith, r), ground (arith, n))

calls-keep :
    (cfg : Sync) (cs : List Call) (s : Syncer) → IsOrderly cfg s → IsOrderly cfg (calls cs s)
unfolding calls call
calls-keep cfg [] s h = h
calls-keep cfg (starts ∷ cs) s h = calls-keep cfg cs (start s).0 (start-IsOrderly cfg s h)
calls-keep cfg (closes ∷ cs) s h = calls-keep cfg cs (close s) (close-IsOrderly cfg s h)

-- Whatever calls of Start and Close are made, the loops that run are those that are enabled, each
-- once, while the syncer is started and not closed, and none otherwise; and the closers are closed
-- once if it is closed, and not before.
pub calls-IsOrderly : (cfg : Sync) (cs : List Call) → IsOrderly cfg (calls cs (new cfg))
unfolding new
calls-IsOrderly cfg cs = calls-keep cfg cs (new cfg) (refl, refl, refl)
