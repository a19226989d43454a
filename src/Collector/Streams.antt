-- ===== src/Collector/Streams.antt =====
-- internal/collector/shard.go: a connection that is up to date carries every wanted stream.
use chomo_syncer_go.Base.{
  ltb, if◌then◌else◌, if-elim, ◌==◌, nat_eq, length, Text, text_eq, contains, Subset, without,
  contains-without, contains-append, ℕ, ◌+◌, ◌≤◌, ◌<◌, ◌≡◌, refl, ap, subst, ◌∙◌, ◌⊎◌, inl, inr,
  true, not, ◌&&◌, Option, none, some, List, [], ◌∷◌, ◌++◌, arith,
}
use chomo_syncer_go.Sharding.{diff_sets}
use chomo_syncer_go.Sharding.Plan.{diff_sets-apply}
use chomo_syncer_go.Collector.{
  ResolvedConfig, Phase, down, ended, up, Shard, new, set_desired, report_gap, connect, retry,
  drop_at, Applied, refused, added, changed, apply_delta, check_stale, tick, connect_step,
  fail_step, drop_step, silent_step, Event, wants, connects, fails, drops, silents, ticks, stops,
  handle, run, removed_from, advance,
}

-- What a connection knows: its streams are those wanted now, or the wanted ones changed since; and
-- it carries them all.
abbrev pub Carries : Phase → List Text → ℕ → List Text → Type 0
Carries (up at subscribed v) desired version client =
    ((v < version) ⊎ (subscribed ≡ desired)) × (v ≤ version) × Subset subscribed client
Carries _ desired version client = Unit {0}

abbrev pub Inv : Shard → Type 0
Inv s = Carries s.phase s.desired s.version s.client

contains-removed_from :
    (xs client : List Text) (a : Text)
    → contains (removed_from xs client) a ≡ (contains client a && not (contains xs a))
unfolding removed_from contains
contains-removed_from [] client a = ground arith
contains-removed_from (x ∷ xs) client a =
    ground (arith, contains-removed_from xs (without x client) a, contains-without x a client)

-- After the added streams are subscribed, and after the others are unsubscribed, all wanted are
-- carried.
added_all :
    (subscribed desired client : List Text)
    → Subset subscribed client
    → Subset desired (client ++ (diff_sets subscribed desired).0)
added_all subscribed desired client h a c = ground (
  arith,
  c,
  h a,
  diff_sets-apply subscribed desired a,
  contains-append client (diff_sets subscribed desired).0 a,
)

changed_all :
    (subscribed desired client : List Text)
    → Subset subscribed client
    → Subset desired
        (removed_from (diff_sets subscribed desired).1 (client ++ (diff_sets subscribed desired).0))
changed_all subscribed desired client h a c = ground (
  arith,
  c,
  added_all subscribed desired client h a,
  diff_sets-apply subscribed desired a,
  contains-removed_from (diff_sets subscribed desired).1
      (client ++ (diff_sets subscribed desired).0) a,
)

apply_delta-Inv :
    (at : ℕ) (subscribed : List Text) (r : Applied) (last : ℕ) (s : Shard)
    → Subset subscribed s.client
    → Inv (apply_delta at subscribed r last s)
unfolding apply_delta advance drop_at retry
apply_delta-Inv at subscribed refused last s h =
    if-elim Inv (length (diff_sets subscribed s.desired).0 == 0)
      {x = advance at (s.client ++ (diff_sets subscribed s.desired).0) s} {y = drop_at at last s}
      (inr refl, omega arith, added_all subscribed s.desired s.client h) tt
apply_delta-Inv at subscribed added last s h =
    (inr refl, omega arith, added_all subscribed s.desired s.client h)
apply_delta-Inv at subscribed changed last s h =
    (inr refl, omega arith, changed_all subscribed s.desired s.client h)

check_stale-Inv : (now last : ℕ) (p : Phase) (s : Shard) → Inv s → Inv (check_stale now last p s)
unfolding check_stale drop_at retry
check_stale-Inv now last (up at subscribed v) s i =
    if-elim Inv (ltb (last + s.cfg.stale_timeout) now) {x = drop_at at last s} {y = s} tt i
check_stale-Inv now last down s i = i
check_stale-Inv now last ended s i = i

tick-Inv :
    (now last : ℕ) (r : Applied) (p : Phase) (s : Shard)
    → s.phase ≡ p
    → Inv s
    → Inv (tick now last r p s)
unfolding tick
tick-Inv now last r down s e i = i
tick-Inv now last r ended s e i = i
tick-Inv now last r (up at subscribed v) s e i =
    let (know, le, h) = subst (λ q. Carries q s.desired s.version s.client) e i in
    let s' : Shard = if s.version == v then s else apply_delta at subscribed r last s in
    check_stale-Inv now last s'.phase s'
      (if-elim Inv (s.version == v) {x = s} i (apply_delta-Inv at subscribed r last s h))

-- A report changes nothing of it.
report_gap-Inv :
    (d : Option ℕ) (now : ℕ) (streams : List Text) (s : Shard)
    → Inv s
    → Inv (report_gap d now streams s)
unfolding report_gap
report_gap-Inv none now streams s i = i
report_gap-Inv (some t) now streams s i = if-elim Inv (ltb t now) {y = s} i i

connect_step-Inv : (now : ℕ) (p : Phase) (s : Shard) → Inv s → Inv (connect_step now p s)
unfolding connect_step connect
connect_step-Inv now down s i =
    report_gap-Inv s.down_at now s.desired
      (record s { phase = up now s.desired s.version; client = s.desired })
      (inr refl, omega arith, λ a c. c)
connect_step-Inv now ended s i = i
connect_step-Inv now (up at subscribed v) s i = i

fail_step-Inv : (p : Phase) (s : Shard) → Inv s → Inv (fail_step p s)
unfolding fail_step retry
fail_step-Inv down s i = tt
fail_step-Inv ended s i = i
fail_step-Inv (up at subscribed v) s i = i

drop_step-Inv : (last : ℕ) (p : Phase) (s : Shard) → Inv s → Inv (drop_step last p s)
unfolding drop_step drop_at retry
drop_step-Inv last (up at subscribed v) s i = tt
drop_step-Inv last ended s i = i
drop_step-Inv last down s i = i

silent_step-Inv :
    (last reconnected : ℕ) (p : Phase) (s : Shard) → Inv s → Inv (silent_step last reconnected p s)
unfolding silent_step
silent_step-Inv last reconnected (up at subscribed v) s i =
    report_gap-Inv (some last) reconnected subscribed s i
silent_step-Inv last reconnected ended s i = i
silent_step-Inv last reconnected down s i = i

set_desired-Carries :
    (streams : List Text) (p : Phase) (s : Shard)
    → Carries p s.desired s.version s.client
    → Carries p streams (s.version + 1) s.client
set_desired-Carries streams down s i = tt
set_desired-Carries streams ended s i = tt
set_desired-Carries streams (up at subscribed v) s (know, le, h) =
    (inl (omega (arith, le)), omega (arith, le), h)

handle-Inv : (e : Event) (s : Shard) → Inv s → Inv (handle e s)
unfolding handle set_desired
handle-Inv (wants streams) s i = set_desired-Carries streams s.phase s i
handle-Inv (connects now) s i = connect_step-Inv now s.phase s i
handle-Inv fails s i = fail_step-Inv s.phase s i
handle-Inv (drops last) s i = drop_step-Inv last s.phase s i
handle-Inv (silents last reconnected) s i = silent_step-Inv last reconnected s.phase s i
handle-Inv (ticks now last r) s i = tick-Inv now last r s.phase s refl i
handle-Inv stops s i = tt

run-keep : (es : List Event) (s : Shard) → Inv s → Inv (run es s)
unfolding run
run-keep [] s i = i
run-keep (e ∷ es) s i = run-keep es (handle e s) (handle-Inv e s i)

-- No wanted stream is missing: whatever a shard goes through, a connection that has applied the
-- version of the wanted streams that is current is subscribed to each of them at the exchange, also
-- where streams could not be unsubscribed.
pub run-carries :
    (cfg : ResolvedConfig) (streams : List Text) (es : List Event) (at : ℕ) (subscribed : List Text)
    (s : Text)
    → (run es (new cfg streams)).phase ≡ up at subscribed (run es (new cfg streams)).version
    → contains (run es (new cfg streams)).desired s ≡ true
    → contains (run es (new cfg streams)).client s ≡ true
unfolding new
run-carries cfg streams es at subscribed s e c =
    let r : Shard = run es (new cfg streams) in
    let (know, le, h) =
      subst (λ p. Carries p r.desired r.version r.client) e (run-keep es (new cfg streams) tt) in
    elim know [
      | inl less ↦ absurd (omega (arith, less))
      | inr same_streams ↦ h s (ap (λ l. contains l s) same_streams ∙ c)
    ]
