-- ===== src/Collector/Gaps.antt =====
-- internal/collector/shard.go: every stretch without a connection is reported.
use chomo_syncer_go.Base.{
  ltb, if◌then◌else◌, ltb_false→le, Bool-cases, if-elim, ◌==◌, nat_eq, length, Text, text_eq, ℕ,
  ◌≤◌, ◌≡◌, refl, subst, ◌⊎◌, inl, inr, Bool, true, false, ◌&&◌, ◌||◌, Option, none, some, List, [],
  ◌∷◌, ◌++◌, arith,
}
use chomo_syncer_go.Sharding.{diff_sets}
use chomo_syncer_go.Collector.{
  ResolvedConfig, GapEvent, Phase, down, ended, up, Shard, new, set_desired, report_gap, connect,
  retry, drop_at, Applied, refused, added, changed, apply_delta, check_stale, tick, connect_step,
  fail_step, drop_step, silent_step, Event, wants, connects, fails, drops, silents, ticks, stops,
  handle, run, advance,
}

-- Whether a gap between two times is among those reported.
unfoldable pub reported : ℕ → ℕ → List GapEvent → Bool
reported last back [] = false
reported last back (g ∷ gs) =
    (g.last_msg_at == last && g.reconnect_at == back) || reported last back gs

-- A connection that was made at a time comes after the others: the gap since the last frame of the
-- one before is reported, where there is a gap.
abbrev pub Follows : ℕ → List (ℕ × ℕ) → List GapEvent → Type 0
Follows at [] gaps = Unit {0}
Follows at ((before, last) ∷ rest) gaps = (at ≤ last) ⊎ (reported last at gaps ≡ true)

-- Each connection follows those before it.
abbrev pub AllFollow : List (ℕ × ℕ) → List GapEvent → Type 0
AllFollow [] gaps = Unit {0}
AllFollow ((at, last) ∷ rest) gaps = Follows at rest gaps × AllFollow rest gaps

-- The last frame before now.
unfoldable pub last_frame : List (ℕ × ℕ) → Option ℕ
last_frame [] = none
last_frame ((at, last) ∷ rest) = some last

-- The phase agrees with the connections that ended.
abbrev pub Agrees : Phase → Option ℕ → List (ℕ × ℕ) → List GapEvent → Type 0
Agrees down down_at sessions gaps = down_at ≡ last_frame sessions
Agrees ended down_at sessions gaps = Unit {0}
Agrees (up at subscribed v) down_at sessions gaps = Follows at sessions gaps

abbrev pub Inv : Shard → Type 0
Inv s = AllFollow s.sessions s.gaps × Agrees s.phase s.down_at s.sessions s.gaps

Follows-more :
    (at : ℕ) (sessions : List (ℕ × ℕ)) (g : GapEvent) (gaps : List GapEvent)
    → Follows at sessions gaps
    → Follows at sessions (g ∷ gaps)
unfolding reported
Follows-more at [] g gaps f = tt
Follows-more at ((before, last) ∷ rest) g gaps f = ground (arith, f)

AllFollow-more :
    (sessions : List (ℕ × ℕ)) (g : GapEvent) (gaps : List GapEvent)
    → AllFollow sessions gaps
    → AllFollow sessions (g ∷ gaps)
AllFollow-more [] g gaps a = tt
AllFollow-more ((at, last) ∷ rest) g gaps (f, a) =
    (Follows-more at rest g gaps f, AllFollow-more rest g gaps a)

connect-Inv :
    (now : ℕ) (sessions : List (ℕ × ℕ)) (s : Shard)
    → AllFollow sessions s.gaps
    → s.down_at ≡ last_frame sessions
    → Inv (connect now (record s { sessions = sessions }))
unfolding connect last_frame report_gap reported
connect-Inv now [] s a d = rw d (tt, tt)
connect-Inv now ((at, last) ∷ rest) s a d = elim (Bool-cases (ltb last now)) [
  | inl gap ↦ rw (d, gap) (AllFollow-more ((at, last) ∷ rest) _ s.gaps a, inr (ground arith))
  | inr no_gap ↦ rw (d, no_gap) (a, inl (ltb_false→le _ _ no_gap))
]

drop_at-Inv :
    (at last : ℕ) (s : Shard)
    → AllFollow s.sessions s.gaps
    → Follows at s.sessions s.gaps
    → Inv (drop_at at last s)
unfolding drop_at retry last_frame
drop_at-Inv at last s a f = ((f, a), refl)

apply_delta-Inv :
    (at : ℕ) (subscribed : List Text) (r : Applied) (last : ℕ) (s : Shard)
    → AllFollow s.sessions s.gaps
    → Follows at s.sessions s.gaps
    → Inv (apply_delta at subscribed r last s)
unfolding apply_delta advance
apply_delta-Inv at subscribed refused last s a f =
    if-elim Inv (length (diff_sets subscribed s.desired).0 == 0)
      {x = advance at (s.client ++ (diff_sets subscribed s.desired).0) s} {y = drop_at at last s}
      (a, f) (drop_at-Inv at last s a f)
apply_delta-Inv at subscribed added last s a f = (a, f)
apply_delta-Inv at subscribed changed last s a f = (a, f)

check_stale-Inv :
    (now last : ℕ) (p : Phase) (s : Shard) → s.phase ≡ p → Inv s → Inv (check_stale now last p s)
unfolding check_stale
check_stale-Inv now last down s e i = i
check_stale-Inv now last ended s e i = i
check_stale-Inv now last (up at subscribed v) s e (a, g) =
    if-elim Inv _ {x = drop_at at last s}
      (drop_at-Inv at last s a (subst (λ q. Agrees q s.down_at s.sessions s.gaps) e g)) (a, g)

tick-Inv :
    (now last : ℕ) (r : Applied) (p : Phase) (s : Shard)
    → s.phase ≡ p
    → Inv s
    → Inv (tick now last r p s)
unfolding tick
tick-Inv now last r down s e i = i
tick-Inv now last r ended s e i = i
tick-Inv now last r (up at subscribed v) s e (a, g) =
    let f : Follows at s.sessions s.gaps = subst (λ q. Agrees q s.down_at s.sessions s.gaps) e g in
    let s' : Shard = if s.version == v then s else apply_delta at subscribed r last s in
    check_stale-Inv now last s'.phase s' refl
      (if-elim Inv (s.version == v) {x = s} (a, g) (apply_delta-Inv at subscribed r last s a f))

-- The steps that read the phase, from the phase that there is.
connect_step-Inv :
    (now : ℕ) (p : Phase) (s : Shard) → s.phase ≡ p → Inv s → Inv (connect_step now p s)
unfolding connect_step
connect_step-Inv now down s e (a, g) =
    connect-Inv now s.sessions s a (subst (λ q. Agrees q s.down_at s.sessions s.gaps) e g)
connect_step-Inv now ended s e i = i
connect_step-Inv now (up at subscribed v) s e i = i

fail_step-Inv : (p : Phase) (s : Shard) → s.phase ≡ p → Inv s → Inv (fail_step p s)
unfolding fail_step retry
fail_step-Inv down s e (a, g) = (a, subst (λ q. Agrees q s.down_at s.sessions s.gaps) e g)
fail_step-Inv ended s e i = i
fail_step-Inv (up at subscribed v) s e i = i

drop_step-Inv : (last : ℕ) (p : Phase) (s : Shard) → s.phase ≡ p → Inv s → Inv (drop_step last p s)
unfolding drop_step
drop_step-Inv last (up at subscribed v) s e (a, g) =
    drop_at-Inv at last s a (subst (λ q. Agrees q s.down_at s.sessions s.gaps) e g)
drop_step-Inv last ended s e i = i
drop_step-Inv last down s e i = i

Agrees-more :
    (p : Phase) (down_at : Option ℕ) (sessions : List (ℕ × ℕ)) (g : GapEvent) (gaps : List GapEvent)
    → Agrees p down_at sessions gaps
    → Agrees p down_at sessions (g ∷ gaps)
Agrees-more down down_at sessions g gaps h = h
Agrees-more ended down_at sessions g gaps h = tt
Agrees-more (up at subscribed v) down_at sessions g gaps h = Follows-more at sessions g gaps h

silent_step-Inv :
    (last reconnected : ℕ) (p : Phase) (s : Shard) → Inv s → Inv (silent_step last reconnected p s)
unfolding silent_step report_gap
silent_step-Inv last reconnected (up at subscribed v) s (a, g) =
    if-elim Inv (ltb last reconnected) {y = s}
      (AllFollow-more s.sessions _ s.gaps a, Agrees-more s.phase s.down_at s.sessions _ s.gaps g)
      (a, g)
silent_step-Inv last reconnected ended s i = i
silent_step-Inv last reconnected down s i = i

handle-Inv : (e : Event) (s : Shard) → Inv s → Inv (handle e s)
unfolding handle set_desired
handle-Inv (wants streams) s i = i
handle-Inv (connects now) s i = connect_step-Inv now s.phase s refl i
handle-Inv fails s i = fail_step-Inv s.phase s refl i
handle-Inv (drops last) s i = drop_step-Inv last s.phase s refl i
handle-Inv (silents last reconnected) s i = silent_step-Inv last reconnected s.phase s i
handle-Inv (ticks now last r) s i = tick-Inv now last r s.phase s refl i
handle-Inv stops s (a, g) = (a, tt)

run-keep : (es : List Event) (s : Shard) → Inv s → Inv (run es s)
unfolding run
run-keep [] s i = i
run-keep (e ∷ es) s i = run-keep es (handle e s) (handle-Inv e s i)

-- No stretch without a connection goes unreported: whatever a shard goes through, failed attempts
-- to connect, errors, stale connections, changes of its streams, each connection that it made and
-- that is over, and the one that it has, were reported as a gap since the last frame of the
-- connection before, unless they were made at that time or earlier; and while it is down, it still
-- has the time of the last frame at hand.
pub run-AllFollow :
    (cfg : ResolvedConfig) (streams : List Text) (es : List Event) → Inv (run es (new cfg streams))
unfolding new last_frame
run-AllFollow cfg streams es = run-keep es (new cfg streams) (tt, refl)
