-- ===== src/OpenInterest/RowWriter/Attempts.antt =====
-- internal/openinterest/writer.go: the attempts of a flush.
use chomo_syncer_go.Base.{
  Bool-cases, nat_eq, text_eq, ℕ, zero, suc, ◌+◌, ◌-◌, ◌≤◌, ◌<◌, ◌≡◌, refl, ◌⊎◌, inl, inr, Bool,
  true, false, not, arith,
}
use chomo_syncer_go.OpenInterest.RowWriter.{Flusher, attempts}

-- From the n-th attempt, with so many retries left: how many attempts `r` may count, and what its
-- verdict says.
abbrev pub Fair : Flusher → ℕ → ℕ → ℕ × Bool → Type 0
Fair f left n r =
    (n < r.0)
    × (r.0 ≤ n + left + 1)
    × (r.1 ≡ not (f.fails (r.0 - 1)))
    × (r.1 ≡ false → (r.0 ≡ n + left + 1) ⊎ (f.ended (r.0 - 1) ≡ true))

Fair-later :
    (f : Flusher) (left n : ℕ) (r : ℕ × Bool) → Fair f left (n + 1) r → Fair f (suc left) n r
Fair-later f left n r (a, b, c, d) = (
  omega (arith, a),
  omega (arith, b),
  c,
  λ e. elim (d e) [ inl x ↦ inl (omega (arith, x)) | inr y ↦ inr y ],
)

pred-add : (n : ℕ) → n + 1 - 1 ≡ n
pred-add n = omega arith

-- A flush ends: it makes at least one attempt and at most one more than its retries, it succeeds
-- exactly if its last attempt does, and it gives up before its retries are used only if its context
-- has ended.
pub attempts-Fair : (f : Flusher) (left n : ℕ) → Fair f left n (attempts f left n)
unfolding attempts
attempts-Fair f zero n = (omega arith, omega arith, rw pred-add refl, λ e. inl (omega arith))
attempts-Fair f (suc left) n = elim (Bool-cases (f.fails n)) [
  | inl bad ↦ rw bad (elim (Bool-cases (f.ended n)) [
    | inl over ↦
        rw over (omega arith, omega arith, rw (pred-add, bad) refl, λ e. inr (rw pred-add over))
    | inr on ↦ rw on (Fair-later f left n (attempts f left (n + 1)) (attempts-Fair f left (n + 1)))
  ])
  | inr good ↦ rw good (omega arith, omega arith, rw (pred-add, good) refl, λ e. absurd (cc e))
]
