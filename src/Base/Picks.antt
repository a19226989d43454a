-- ===== src/Base/Picks.antt =====
-- Which of the goroutines that are under way takes the next step, and sums over lists of them.
use Prim.Native.Nat.{ℕ, zero, suc, ◌+◌, ◌≤◌}
use mathlib.Core.Path.{◌≡◌, refl, subst}
use mathlib.Core.List.{List, [], ◌∷◌, ◌++◌}
use mathlib.Core.Option.{Option, none, some}
use native.Mathlib.Omega.{arith}

-- The element at a position, and the others.
unfoldable pub pick {ℓ} : {A : Type ℓ} → ℕ → List A → Option (A × List A)
pick n [] = none
pick zero (x ∷ xs) = some (x, xs)
pick (suc n) (x ∷ xs) = elim (pick n xs) [ none ↦ none | some (y, ys) ↦ some (y, x ∷ ys) ]

module _ {ℓ} {A : Type ℓ} (f : A → ℕ) where
  unfoldable pub sum_by : List A → ℕ
  sum_by [] = 0
  sum_by (x ∷ xs) = f x + sum_by xs

  pub sum_by-append : (xs ys : List A) → sum_by (xs ++ ys) ≡ sum_by xs + sum_by ys
  unfolding sum_by
  sum_by-append [] ys = omega arith
  sum_by-append (x ∷ xs) ys = omega (arith, sum_by-append xs ys)

  -- The sum over a list is what the picked element adds to that over the others.
  abbrev pub Splits : List A → Option (A × List A) → Type 0
  Splits xs none = Unit {0}
  Splits xs (some (x, others)) = sum_by xs ≡ f x + sum_by others

  Splits-cons :
      (x : A) (xs : List A) (o : Option (A × List A))
      → Splits xs o
      → Splits (x ∷ xs) (elim o [ none ↦ none | some (y, ys) ↦ some (y, x ∷ ys) ])
  unfolding sum_by
  Splits-cons x xs none h = tt
  Splits-cons x xs (some (y, ys)) h = omega (arith, h)

  pub pick-Splits : (n : ℕ) (xs : List A) → Splits xs (pick n xs)
  unfolding pick sum_by
  pick-Splits n [] = tt
  pick-Splits zero (x ∷ xs) = refl
  pick-Splits (suc n) (x ∷ xs) = Splits-cons x xs (pick n xs) (pick-Splits n xs)

  pub pick-le :
      (n : ℕ) (xs : List A) (x : A) (others : List A)
      → pick n xs ≡ some (x, others)
      → f x ≤ sum_by xs
  pick-le n xs x others e =
      let h : Splits xs (some (x, others)) = subst (Splits xs) e (pick-Splits n xs) in
      omega (arith, h)
