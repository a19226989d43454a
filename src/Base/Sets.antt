-- ===== src/Base/Sets.antt =====
-- Go sets of strings (`map[string]struct{}`) as lists with no element twice.
use Prim.Native.Nat.{suc, ◌≤◌}
use mathlib.Core.Path.{◌≡◌, refl}
use mathlib.Core.Bool.{Bool, true, false, not, ◌&&◌, ◌||◌}
use mathlib.Core.List.{List, [], ◌∷◌, ◌++◌}
use native.Mathlib.Omega.{arith}
use chomo_syncer_go.Base.Tests.{if◌then◌else◌, HasEq, ◌==◌}
use chomo_syncer_go.Base.Lists.{length}

module _ {ℓ} {A : Type ℓ} ⦃e : HasEq A⦄ where
  unfoldable pub contains : List A → A → Bool
  contains [] s = false
  contains (x ∷ xs) s = x == s || contains xs s

  -- `m[s] = struct{}{}`
  unfoldable pub add_elem : A → List A → List A
  unfolding contains
  add_elem s xs = if contains xs s then xs else s ∷ xs

  abbrev pub Uniq : List A → Type 0
  Uniq [] = Unit {0}
  Uniq (x ∷ xs) = (contains xs x ≡ false) × Uniq xs

  abbrev pub Subset : List A → List A → Type ℓ
  Subset xs ys = (a : A) → contains xs a ≡ true → contains ys a ≡ true

  pub contains-add_elem :
      (s a : A) (xs : List A) → contains (add_elem s xs) a ≡ (s == a || contains xs a)
  unfolding add_elem
  contains-add_elem s a xs = ground (arith, e.same_iff s a)

  pub add_elem-Uniq : (s : A) (xs : List A) → Uniq xs → Uniq (add_elem s xs)
  unfolding add_elem
  add_elem-Uniq s xs u = ground arith

  unfoldable pub without : A → List A → List A
  without s [] = []
  without s (x ∷ xs) = let rest = without s xs in if x == s then rest else x ∷ rest

  pub contains-without :
      (s a : A) (xs : List A) → contains (without s xs) a ≡ (contains xs a && not (s == a))
  unfolding contains without
  contains-without s a [] = refl
  contains-without s a (x ∷ xs) =
      ground (arith, e.same_iff x s, e.same_iff x a, e.same_iff s a, contains-without s a xs)

  length-without-le : (s : A) (xs : List A) → length (without s xs) ≤ length xs
  unfolding without
  length-without-le s [] = ground arith
  length-without-le s (x ∷ xs) = ground (arith, length-without-le s xs)

  length-without :
      (s : A) (xs : List A) → contains xs s ≡ true → suc (length (without s xs)) ≤ length xs
  unfolding contains without
  length-without s [] h = ground arith
  length-without s (x ∷ xs) h = ground (arith, length-without-le s xs, length-without s xs)

  Subset-without :
      (x : A) (xs us : List A) → Uniq (x ∷ xs) → Subset (x ∷ xs) us → Subset xs (without x us)
  unfolding contains
  Subset-without x xs us u h a c = ground (arith, contains-without x a us, e.same_iff x a, h a)

  pub contains-append :
      (xs ys : List A) (a : A) → contains (xs ++ ys) a ≡ (contains xs a || contains ys a)
  unfolding contains
  contains-append [] ys a = refl
  contains-append (x ∷ xs) ys a = ground (arith, contains-append xs ys a)

  pub contains-snoc :
      (xs : List A) (s a : A) → contains (xs ++ s ∷ []) a ≡ (contains xs a || s == a)
  unfolding contains
  contains-snoc [] s a = ground arith
  contains-snoc (x ∷ xs) s a = ground (arith, contains-snoc xs s a)

  pub snoc-Uniq : (xs : List A) (s : A) → Uniq xs → contains xs s ≡ false → Uniq (xs ++ s ∷ [])
  unfolding contains
  snoc-Uniq [] s u h = ground arith
  snoc-Uniq (x ∷ xs) s u h =
      ground (arith, e.same_iff x s, e.same_iff s x, contains-snoc xs s x, snoc-Uniq xs s u.1)

  -- A set is no larger than one that includes it.
  pub length-le_of_Subset : (xs us : List A) → Uniq xs → Subset xs us → length xs ≤ length us
  unfolding contains
  length-le_of_Subset [] us u h = ground arith
  length-le_of_Subset (x ∷ xs) us u h = ground (
    arith,
    h x,
    e.same_iff x x,
    length-without x us,
    length-le_of_Subset xs (without x us) u.1 (Subset-without x xs us u h),
  )

  -- A part that is as large as the whole is the whole.
  pub Subset_of_length :
      (xs us : List A) → Uniq xs → Subset xs us → length us ≤ length xs → Subset us xs
  unfolding contains
  Subset_of_length [] [] u h k a c = c
  Subset_of_length [] (y ∷ us) u h k a c = absurd (omega arith)
  Subset_of_length (x ∷ xs) us u h k a c =
      let fits : length (without x us) ≤ length xs =
        ground (arith, h x, e.same_iff x x, length-without x us) in
      ground (
        arith,
        e.same_iff x a,
        contains-without x a us,
        Subset_of_length xs (without x us) u.1 (Subset-without x xs us u h) fits a,
      )
