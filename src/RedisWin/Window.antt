-- ===== src/RedisWin/Window.antt =====
-- internal/rediswin/writer.go: the rolling window under pushes, replays and rebuilds.
use chomo_syncer_go.Base.{
  if◌then◌else◌, Bool-cases, Option-cases, nat_eq, length, take, length-take, take-take, Text,
  text_eq, ℤ, leb_ℤ, ◌<ℤ◌, ℕ, zero, suc, ◌+◌, ◌≤◌, ◌≡◌, refl, sym, ap, subst, inl, inr, true, none,
  some, List, [], ◌∷◌, arith,
}
use chomo_syncer_go.RedisWin.{head_time, ltrim, push_script, rebuild_script}

-- Every payload carries a timestamp, and they fall strictly along the list, below `t`.
abbrev pub Below : ℤ → List Text → Type 0
Below t [] = Unit {0}
Below t (p ∷ ps) = (u : ℤ) × (head_time p ≡ some u) × (u <ℤ t) × Below u ps

abbrev pub Descending : List Text → Type 0
Descending [] = Unit {0}
Descending (p ∷ ps) = (t : ℤ) × (head_time p ≡ some t) × Below t ps

-- What every window satisfies: newest first, no timestamp twice, at most `stop + 1` bars.
pub record IsWindow (stop : ℕ) (ps : List Text) : Type 0 where
  pub descending : Descending ps
  pub bounded : length ps ≤ stop + 1

Below-take : (n : ℕ) (t : ℤ) (ps : List Text) → Below t ps → Below t (take n ps)
Below-take zero t ps h = tt
Below-take (suc n) t [] h = tt
Below-take (suc n) t (p ∷ ps) (u, e, l, b) = (u, e, l, Below-take n u ps b)

Descending-take : (n : ℕ) (ps : List Text) → Descending ps → Descending (take n ps)
Descending-take zero ps h = tt
Descending-take (suc n) [] h = tt
Descending-take (suc n) (p ∷ ps) (t, e, b) = (t, e, Below-take n t ps b)

ltrim-IsWindow : (stop : ℕ) (ps : List Text) → Descending ps → IsWindow stop (ltrim stop ps)
unfolding ltrim
ltrim-IsWindow stop ps h = record {
  descending = Descending-take (suc stop) ps h;
  bounded = omega (arith, length-take (suc stop) ps);
}

Descending-cons :
    (p : Text) (t u : ℤ) (head : Text) (ps : List Text)
    → head_time p ≡ some t
    → head_time head ≡ some u
    → u <ℤ t
    → Descending (head ∷ ps)
    → Descending (p ∷ head ∷ ps)
Descending-cons p t u head ps e f l (v, g, b) =
    let same : u ≡ v = cc in (t, e, (u, f, l, subst (λ x. Below x ps) (sym same) b))

-- A push of a payload under its own timestamp keeps the window a window.
pub push_script-IsWindow :
    (payload : Text) (ts : ℤ) (stop : ℕ) (ps : List Text)
    → head_time payload ≡ some ts
    → IsWindow stop ps
    → IsWindow stop (push_script payload ts stop ps).0
unfolding push_script
push_script-IsWindow payload ts stop [] e w = ltrim-IsWindow stop (payload ∷ []) (ts, e, tt)
push_script-IsWindow payload ts stop (head ∷ ps) e w =
    let (u, f, b) = w.descending in
    rw (f, push_script)
      (elim (Bool-cases (leb_ℤ ts u)) [
        | inl stale ↦ rw stale w
        | inr fresh ↦ rw fresh (
            ltrim-IsWindow stop (payload ∷ head ∷ ps)
              (Descending-cons payload ts u head ps e f (ground arith) w.descending))
      ])

-- A rebuild from bars that fall in time gives a window.
pub rebuild_script-IsWindow :
    (stop : ℕ) (ps : List Text) → Descending ps → IsWindow stop (rebuild_script stop ps)
unfolding rebuild_script
rebuild_script-IsWindow stop ps h = ltrim-IsWindow stop ps h

-- A bar that is not newer than the newest of the window changes nothing.
push_script_stale :
    (payload : Text) (ts u : ℤ) (stop : ℕ) (head : Text) (ps : List Text)
    → head_time head ≡ some u
    → leb_ℤ ts u ≡ true
    → push_script payload ts stop (head ∷ ps) ≡ (head ∷ ps, 0)
unfolding push_script
push_script_stale payload ts u stop head ps f h = rw (f, push_script) (rw h)

leb_ℤ_refl : (t : ℤ) → leb_ℤ t t ≡ true
leb_ℤ_refl t = ground arith

-- Replaying a bar is a no-op: the push of a payload under its own timestamp leaves a window that
-- the same push does not change again.
pub push_script_idem :
    (payload : Text) (ts : ℤ) (stop : ℕ) (ps : List Text)
    → head_time payload ≡ some ts
    → push_script payload ts stop (push_script payload ts stop ps).0
      ≡ ((push_script payload ts stop ps).0, 0)
unfolding push_script ltrim
push_script_idem payload ts stop [] e =
    push_script_stale payload ts ts stop payload (take stop []) e (leb_ℤ_refl ts)
push_script_idem payload ts stop (head ∷ ps) e = elim (Option-cases (head_time head)) [
  | inl f ↦
      rw (f, push_script)
        (push_script_stale payload ts ts stop payload (take stop (head ∷ ps)) e (leb_ℤ_refl ts))
  | inr (u, f) ↦ elim (Bool-cases (leb_ℤ ts u)) [
    | inl stale ↦
        rw (push_script_stale payload ts u stop head ps f stale)
          (push_script_stale payload ts u stop head ps f stale)
    | inr fresh ↦
        rw (f, push_script)
          (rw fresh (
            push_script_stale payload ts ts stop payload (take stop (head ∷ ps)) e (leb_ℤ_refl ts)))
  ]
]

-- After a rebuild whose newest bar carries the timestamp `u`, a push with a timestamp up to `u` is
-- skipped and changes nothing.
pub push_after_rebuild :
    (payload : Text) (ts u : ℤ) (stop : ℕ) (head : Text) (ps : List Text)
    → head_time head ≡ some u
    → leb_ℤ ts u ≡ true
    → push_script payload ts stop (rebuild_script stop (head ∷ ps))
      ≡ (rebuild_script stop (head ∷ ps), 0)
unfolding rebuild_script ltrim
push_after_rebuild payload ts u stop head ps f h =
    push_script_stale payload ts u stop head (take stop ps) f h

-- The specification of a window: the log of every accepted bar, with no trimming at all.
unfoldable pub log_push : Text → ℤ → List Text → List Text
log_push payload ts [] = payload ∷ []
log_push payload ts (head ∷ ps) = elim (head_time head) [
  | none ↦ payload ∷ head ∷ ps
  | some ht ↦ if leb_ℤ ts ht then head ∷ ps else payload ∷ head ∷ ps
]

unfoldable pub log_pushes : List (Text × ℤ) → List Text → List Text
log_pushes [] ps = ps
log_pushes ((payload, ts) ∷ bars) ps = log_pushes bars (log_push payload ts ps)

unfoldable pub pushes : ℕ → List (Text × ℤ) → List Text → List Text
pushes stop [] ps = ps
pushes stop ((payload, ts) ∷ bars) ps = pushes stop bars (push_script payload ts stop ps).0

take-cons_take : (n : ℕ) (p : Text) (ps : List Text) → take n (p ∷ take n ps) ≡ take n (p ∷ ps)
take-cons_take zero p ps = refl
take-cons_take (suc n) p ps = ap (◌∷◌ p) (take-take n (suc n) ps (omega arith))

push_script-log :
    (payload : Text) (ts : ℤ) (stop : ℕ) (ps : List Text)
    → (push_script payload ts stop (ltrim stop ps)).0 ≡ ltrim stop (log_push payload ts ps)
unfolding push_script ltrim log_push
push_script-log payload ts stop [] = refl
push_script-log payload ts stop (head ∷ ps) = ground (arith, take-cons_take stop head ps)

-- Trimming at every push loses nothing: after any sequence of pushes the window is the newest
-- `stop + 1` bars of the untrimmed log of the same pushes.
pub pushes-log :
    (stop : ℕ) (bars : List (Text × ℤ)) (ps : List Text)
    → pushes stop bars (ltrim stop ps) ≡ ltrim stop (log_pushes bars ps)
unfolding pushes log_pushes
pushes-log stop [] ps = refl
pushes-log stop ((payload, ts) ∷ bars) ps =
    rw (push_script-log payload ts stop ps) (pushes-log stop bars (log_push payload ts ps))

-- A write to a window: a push, or a rebuild from bars newest first.
pub data Write : Type 0 where
  pushed : (payload : Text) (ts : ℤ) → head_time payload ≡ some ts → Write
  rebuilt : (ps : List Text) → Descending ps → Write

unfoldable pub apply_write : ℕ → Write → List Text → List Text
apply_write stop (pushed payload ts e) ps = (push_script payload ts stop ps).0
apply_write stop (rebuilt new h) ps = rebuild_script stop new

unfoldable pub apply_writes : ℕ → List Write → List Text → List Text
apply_writes stop [] ps = ps
apply_writes stop (w ∷ ws) ps = apply_writes stop ws (apply_write stop w ps)

-- Every window that pushes under the payload's own timestamp and rebuilds from bars newest first
-- lead to, from a window, is newest first, holds no timestamp twice and has at most `stop + 1`
-- bars.
pub apply_writes-IsWindow :
    (stop : ℕ) (ws : List Write) (ps : List Text)
    → IsWindow stop ps
    → IsWindow stop (apply_writes stop ws ps)
unfolding apply_writes apply_write
apply_writes-IsWindow stop [] ps v = v
apply_writes-IsWindow stop (pushed payload ts e ∷ ws) ps v =
    apply_writes-IsWindow stop ws _ (push_script-IsWindow payload ts stop ps e v)
apply_writes-IsWindow stop (rebuilt new h ∷ ws) ps v =
    apply_writes-IsWindow stop ws _ (rebuild_script-IsWindow stop new h)
