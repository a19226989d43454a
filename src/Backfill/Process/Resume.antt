-- ===== src/Backfill/Process/Resume.antt =====
-- internal/backfill/backfill.go: a request that resumes leaves no gap after the archive.
use chomo_syncer_go.Base.{
  ltb, leb, Bool-cases, ◌==◌, nat_eq, Text, text_beq, text_beq_iff, text_eq, Map, lookup, contains,
  ℕ, ◌+◌, ◌≤◌, ◌<◌, ◌≡◌, refl, ap, inl, inr, Bool, true, false, ◌&&◌, ◌||◌, Option, some, List, [],
  ◌∷◌, arith,
}
use chomo_syncer_go.Backfill.Requests.Settings.{ResolvedConfig}
use chomo_syncer_go.Backfill.Process.{FetchJob, since_for, resume_jobs}

-- Whether a job fetches the bar of a symbol that opens at `t`.
unfoldable pub covers : Text → ℕ → List FetchJob → Bool
covers symbol t [] = false
covers symbol t (j ∷ js) =
    (j.sym == symbol && (leb j.since t && ltb t j.until)) || covers symbol t js

module _ (cfg : ResolvedConfig) (dur : ℕ) (since : Option ℕ) (until : ℕ)
    (ch_max : Map Text (Option ℕ)) (symbol : Text) where
  abbrev start : ℕ
  start = since_for cfg dur since until (lookup symbol ch_max)

  abbrev wants : ℕ → Bool
  wants t = leb (start + dur) until && (leb start t && ltb t until)

  start_eq :
      (other : Text)
      → (other == symbol) ≡ true
      → since_for cfg dur since until (lookup other ch_max) ≡ start
  start_eq other e =
      ap (λ s. since_for cfg dur since until (lookup s ch_max)) ((text_beq_iff other symbol).0 e)

  covers-resume_jobs :
      (t : ℕ) (symbols : List Text)
      → covers symbol t (resume_jobs cfg dur since until ch_max symbols)
        ≡ (contains symbols symbol && wants t)
  unfolding covers resume_jobs contains
  covers-resume_jobs t [] = refl
  covers-resume_jobs t (other ∷ symbols) = elim (Bool-cases (text_beq other symbol)) [
    | inl y ↦ ground (arith, y, start_eq other y, covers-resume_jobs t symbols)
    | inr n ↦ ground (arith, n, covers-resume_jobs t symbols)
  ]

-- A resumed symbol is fetched without a gap and without overlap: where the last bar of a symbol in
-- the archive opens at `last`, and the symbol is one of the request, every bar that opens one
-- interval later or more and closes by the end of the range is in a planned fetch, and no bar that
-- opens up to `last` is.
pub resume_jobs-covers :
    (cfg : ResolvedConfig) (dur : ℕ) (since : Option ℕ) (until : ℕ) (ch_max : Map Text (Option ℕ))
    (symbols : List Text) (symbol : Text) (last later t : ℕ)
    → 0 < dur
    → contains symbols symbol ≡ true
    → lookup symbol ch_max ≡ some (some last)
    → last + dur ≤ later
    → later + dur ≤ until
    → t ≤ last
    → (covers symbol later (resume_jobs cfg dur since until ch_max symbols) ≡ true)
      × (covers symbol t (resume_jobs cfg dur since until ch_max symbols) ≡ false)
unfolding since_for
resume_jobs-covers cfg dur since until ch_max symbols symbol last later t p c e f l h = (
  rw (covers-resume_jobs cfg dur since until ch_max symbol later symbols, c, e)
      (ground (arith, p, f, l)),
  rw (covers-resume_jobs cfg dur since until ch_max symbol t symbols, c, e) (ground (arith, p, h)),
)
