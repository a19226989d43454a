-- ===== src/OpenInterest/Pages/Window.antt =====
-- internal/openinterest/{hist,lsratio_hist}.go: the window of a request, and what a page leaves of
-- it.
use chomo_syncer_go.Base.{
  leb, if◌then◌else◌, le→leb, Bool-cases, if-elim, nat_eq, All, length, take, drop,
  take-append-drop, text_eq, millisecond, second, ℕ, zero, suc, ◌+◌, ◌-◌, ◌*◌, ◌/◌, ◌≤◌, ◌<◌, min,
  ◌≡◌, refl, sym, ap, subst, ◌∙◌, inl, inr, ◌&&◌, List, [], ◌∷◌, ◌++◌, arith,
}
use chomo_syncer_go.OpenInterest.Pages.{Point}

-- Labels rise by at least one bar, from `lo` on.
abbrev pub Spaced : {F : Type 0} → ℕ → List (Point F) → Type 0
Spaced lo [] = Unit {0}
Spaced lo (p ∷ ps) = (lo ≤ p.label) × Spaced (p.label + 300 * second) ps

-- The points from `a` up to `b`, both included.
unfoldable pub between : {F : Type 0} → ℕ → ℕ → List (Point F) → List (Point F)
between a b [] = []
between a b (p ∷ ps) =
    let rest = between a b ps in if leb a p.label && leb p.label b then p ∷ rest else rest

-- The last `n`, as the exchange answers a request with that limit.
abbrev pub last_n {ℓ} : {A : Type ℓ} → ℕ → List A → List A
last_n n xs = drop (length xs - n) xs

module _ {F : Type 0} where
  Spaced-mono : (lo lo' : ℕ) (ps : List (Point F)) → lo' ≤ lo → Spaced lo ps → Spaced lo' ps
  Spaced-mono lo lo' [] h r = tt
  Spaced-mono lo lo' (p ∷ ps) h (l, r) = (omega arith, r)

  between-Spaced : (lo a b : ℕ) (ps : List (Point F)) → Spaced lo ps → Spaced lo (between a b ps)
  unfolding between
  between-Spaced lo a b [] r = tt
  between-Spaced lo a b (p ∷ ps) (l, r) =
      let rest : Spaced (p.label + 300 * second) (between a b ps) =
        between-Spaced (p.label + 300 * second) a b ps r in
      if-elim (Spaced lo) (leb a p.label && leb p.label b) (l, rest)
        (Spaced-mono (p.label + 300 * second) lo (between a b ps) (omega arith) rest)

  pub between-Spaced_from :
      (lo a b : ℕ) (ps : List (Point F)) → Spaced lo ps → Spaced a (between a b ps)
  unfolding between
  between-Spaced_from lo a b [] r = tt
  between-Spaced_from lo a b (p ∷ ps) (l, r) = elim (Bool-cases (leb a p.label && leb p.label b)) [
    | inl y ↦ rw y (ground (arith, y), between-Spaced (p.label + 300 * second) a b ps r)
    | inr n ↦ rw n (between-Spaced_from (p.label + 300 * second) a b ps r)
  ]

  pub between-le : (a b : ℕ) (ps : List (Point F)) → All (λ p. p.label ≤ b) (between a b ps)
  unfolding between
  between-le a b [] = tt
  between-le a b (p ∷ ps) = elim (Bool-cases (leb a p.label && leb p.label b)) [
    | inl y ↦ rw y (ground (arith, y), between-le a b ps)
    | inr n ↦ rw n (between-le a b ps)
  ]

  between-between :
      (a b c : ℕ) (ps : List (Point F)) → c ≤ b → between a c (between a b ps) ≡ between a c ps
  unfolding between
  between-between a b c [] h = refl
  between-between a b c (p ∷ ps) h = ground (arith, between-between a b c ps)

  pub between_none : (a b : ℕ) (ps : List (Point F)) → b < a → between a b ps ≡ []
  unfolding between
  between_none a b [] h = refl
  between_none a b (p ∷ ps) h = ground (arith, between_none a b ps)

  between_above : (lo a b : ℕ) (ps : List (Point F)) → b < lo → Spaced lo ps → between a b ps ≡ []
  unfolding between
  between_above lo a b [] h r = refl
  between_above lo a b (p ∷ ps) h (l, r) =
      ground (arith, between_above (p.label + 300 * second) a b ps (omega arith) r)

  -- How many points a window has room for.
  pub length-le-window :
      (a b : ℕ) (ps : List (Point F))
      → Spaced a ps
      → All (λ p. p.label ≤ b) ps
      → length ps ≤ (b + 300 * second - a) / (300 * second)
  length-le-window a b [] r h = omega arith
  length-le-window a b (p ∷ ps) (l, r) (u, h) =
      omega (arith, l, u, length-le-window (p.label + 300 * second) b ps r h)

  same-label : (p q : Point F) → p ≡ q → p.label ≡ q.label
  same-label p q e = ap (λ (x : Point F). x.label) e

  drop-ge :
      (lo m : ℕ) (ps : List (Point F)) (p : Point F) (qs : List (Point F))
      → Spaced lo ps
      → drop m ps ≡ p ∷ qs
      → lo ≤ p.label
  drop-ge lo zero [] p qs r e = absurd (cc e)
  drop-ge lo zero (x ∷ ps) p qs (l, r) e = omega (arith, l, same-label x p (cc e))
  drop-ge lo (suc m) [] p qs r e = absurd (cc e)
  drop-ge lo (suc m) (x ∷ ps) p qs (l, r) e =
      omega (arith, l, drop-ge (x.label + 300 * second) m ps p qs r e)

  -- The points before the oldest of a page are those that the page has left.
  between-take :
      (lo a m : ℕ) (ps : List (Point F)) (p : Point F) (qs : List (Point F))
      → 0 < a
      → a ≤ lo
      → Spaced lo ps
      → drop m ps ≡ p ∷ qs
      → between a (p.label - millisecond) ps ≡ take m ps
  unfolding between
  between-take lo a zero [] p qs k h r e = refl
  between-take lo a zero (x ∷ ps) p qs k h (l, r) e =
      let same : x ≡ p = cc e in
      let le : a ≤ p.label = omega (arith, h, l, ap (λ (x : Point F). x.label) same) in
      between_above p.label a (p.label - millisecond) (x ∷ ps) (omega (arith, k, le))
        (omega (arith, ap (λ (x : Point F). x.label) same), r)
  between-take lo a (suc m) [] p qs k h r e = refl
  between-take lo a (suc m) (x ∷ ps) p qs k h (l, r) e =
      let past : x.label + 300 * second ≤ p.label =
        drop-ge (x.label + 300 * second) m ps p qs r e in
      rw
        (
          le→leb a x.label (omega (arith, h, l)),
          le→leb x.label (p.label - millisecond) (omega (arith, past)),
        )
        (ap (◌∷◌ x) (between-take (x.label + 300 * second) a m ps p qs k (omega (arith, h, l)) r e))

pub length-drop {ℓ} : {A : Type ℓ} (m : ℕ) (xs : List A) → length (drop m xs) ≡ length xs - m
length-drop zero xs = omega arith
length-drop (suc m) [] = omega arith
length-drop (suc m) (x ∷ xs) = omega (arith, length-drop m xs)

drop_none {ℓ} : {A : Type ℓ} (m : ℕ) (xs : List A) → drop m xs ≡ [] → take m xs ≡ xs
drop_none zero xs e = sym e
drop_none (suc m) [] e = refl
drop_none (suc m) (x ∷ xs) e = ap (◌∷◌ x) (drop_none m xs e)

pub nil_of_length {ℓ} : {A : Type ℓ} (xs : List A) → length xs ≡ 0 → xs ≡ []
nil_of_length [] h = refl
nil_of_length (x ∷ xs) h = absurd (omega (arith, h))

All-drop {ℓ κ} : {A : Type ℓ} (P : A → Type κ) (m : ℕ) (xs : List A) → All P xs → All P (drop m xs)
All-drop P zero xs h = h
All-drop P (suc m) [] h = tt
All-drop P (suc m) (x ∷ xs) h = All-drop P m xs h.1

-- A page that is not empty: the points of its window are those before its oldest, and then the
-- page.
pub window_parts :
    {F : Type 0} (start end limit : ℕ) (history : List (Point F)) (p : Point F)
    (qs : List (Point F))
    → 0 < start
    → Spaced 0 history
    → last_n limit (between start end history) ≡ p ∷ qs
    → (start ≤ p.label)
      × (p.label ≤ end)
      × (between start end history ≡ between start (p.label - millisecond) history ++ p ∷ qs)
      × (length (p ∷ qs) ≡ min limit (length (between start end history)))
window_parts {F = F} start end limit history p qs pos_start spaced e =
    let left : List (Point F) = between start end history in
    let m : ℕ = length left - limit in
    let from_start : Spaced start left = between-Spaced_from 0 start end history spaced in
    let within : All (λ p. p.label ≤ end) (p ∷ qs) =
      subst (All (λ p. p.label ≤ end)) e
        (All-drop (λ p. p.label ≤ end) m left (between-le start end history)) in
    let before : between start (p.label - millisecond) history ≡ take m left =
      sym (between-between start end (p.label - millisecond) history (omega (arith, within.0)))
      ∙ between-take start start m left p qs pos_start (omega arith) from_start e in
    (
      drop-ge start m left p qs from_start e,
      within.0,
      sym (take-append-drop m left)
          ∙ ap (λ ps. take m left ++ ps) e
          ∙ ap (λ ps. ps ++ p ∷ qs) (sym before),
      omega (arith, ap length e, length-drop m left),
    )
