-- ===== src/Universe/Members.antt =====
-- internal/universe/monitor.go: the members of the universe after a refresh.
use chomo_syncer_go.Base.{
  if◌then◌else◌, Bool-cases, ◌==◌, nat_eq, Text, text_eq, contains, Uniq, contains-add_elem,
  add_elem-Uniq, ◌≡◌, refl, subst, ◌∙◌, ◌⊎◌, inl, inr, Bool, true, false, ◌&&◌, ◌||◌, Option, none,
  some, List, [], ◌∷◌, arith,
}
use chomo_syncer_go.Aggregator.Completion.{listed}
use chomo_syncer_go.Universe.{
  ResolvedConfig, Contract, Monitor, accepts, accepted, text_leb, insert_text, sort, fetch, to_set,
  refresh, provider,
}

-- Whether a contract of that symbol passes the filter.
unfoldable pub is_tradable : ResolvedConfig → List Contract → Text → Bool
is_tradable cfg [] s = false
is_tradable cfg (c ∷ cs) s = (accepts cfg c && c.symbol == s) || is_tradable cfg cs s

contains-accepted :
    (cfg : ResolvedConfig) (info : List Contract) (s : Text)
    → contains (accepted cfg info) s ≡ is_tradable cfg info s
unfolding contains accepted is_tradable
contains-accepted cfg [] s = refl
contains-accepted cfg (c ∷ cs) s = ground (arith, contains-accepted cfg cs s)

contains-insert_text :
    (s t : Text) (ts : List Text) → contains (insert_text s ts) t ≡ (s == t || contains ts t)
unfolding contains insert_text
contains-insert_text s t [] = refl
contains-insert_text s t (u ∷ ts) = ground (arith, contains-insert_text s t ts)

pub contains-sort : (ts : List Text) (t : Text) → contains (sort ts) t ≡ contains ts t
unfolding contains sort
contains-sort [] t = refl
contains-sort (s ∷ ss) t = ground (arith, contains-sort ss t, contains-insert_text s t (sort ss))

contains-to_set : (ts : List Text) (t : Text) → contains (to_set ts) t ≡ contains ts t
unfolding contains to_set
contains-to_set [] t = refl
contains-to_set (s ∷ ss) t = ground (arith, contains-to_set ss t, contains-add_elem s t (to_set ss))

to_set-Uniq : (ts : List Text) → Uniq (to_set ts)
unfolding to_set
to_set-Uniq [] = tt
to_set-Uniq (s ∷ ss) = add_elem-Uniq s (to_set ss) (to_set-Uniq ss)

-- After a refresh that succeeds, a symbol is in the universe exactly if some contract of that
-- symbol passes the filter, and the universe that the dispatcher is given is one of distinct
-- symbols, its size their number.
pub refresh-is_tradable :
    (info : List Contract) (m : Monitor)
    → let n = (refresh (some info) m).0 in
      ((s : Text) → (provider n).has s ≡ is_tradable m.cfg info s)
      × Uniq n.set
      × (provider n ≡ listed n.set)
unfolding refresh fetch provider listed
refresh-is_tradable info m = (
  λ s.
      contains-to_set (sort (accepted m.cfg info)) s
      ∙ contains-sort (accepted m.cfg info) s
      ∙ contains-accepted m.cfg info s,
  to_set-Uniq (sort (accepted m.cfg info)),
  refl,
)

-- Each symbol is not after the next.
abbrev pub IsSorted : List Text → Type 0
IsSorted [] = Unit {0}
IsSorted (s ∷ []) = Unit {0}
IsSorted (s ∷ t ∷ ts) = (text_leb s t ≡ true) × IsSorted (t ∷ ts)

text_leb_total : (s t : Text) → text_leb s t ≡ false → text_leb t s ≡ true
unfolding text_leb
text_leb_total [] t h = cc
text_leb_total (x ∷ s) [] h = refl
text_leb_total (x ∷ s) (y ∷ t) h = ground (arith, text_leb_total s t)

insert_text-IsSorted : (s : Text) (ts : List Text) → IsSorted ts → IsSorted (insert_text s ts)
unfolding insert_text
insert_text-IsSorted s [] h = tt
insert_text-IsSorted s (t ∷ []) h = elim (Bool-cases (text_leb s t)) [
  | inl before ↦ rw before (before, tt)
  | inr after ↦ rw after (text_leb_total s t after, tt)
]
insert_text-IsSorted s (t ∷ u ∷ ts) (o, h) =
    let rest : IsSorted (insert_text s (u ∷ ts)) = insert_text-IsSorted s (u ∷ ts) h in
    elim (Bool-cases (text_leb s t)) [
      | inl before ↦ rw before (before, (o, h))
      | inr after ↦ elim (Bool-cases (text_leb s u)) [
        | inl next ↦ rw (after, next) (text_leb_total s t after, (next, h))
        | inr later ↦
            let tail : IsSorted (u ∷ insert_text s ts) =
              subst (λ b. IsSorted (if b then s ∷ u ∷ ts else u ∷ insert_text s ts)) later rest in
            rw (after, later) (o, tail)
      ]
    ]

sort-IsSorted : (ts : List Text) → IsSorted (sort ts)
unfolding sort
sort-IsSorted [] = tt
sort-IsSorted (s ∷ ss) = insert_text-IsSorted s (sort ss) (sort-IsSorted ss)

-- A refresh that succeeds publishes the symbols that it stores, sorted; one that fails changes
-- nothing and publishes nothing.
pub refresh-IsSorted :
    (info : Option (List Contract)) (m : Monitor)
    → ((refresh info m ≡ (m, none)) × (info ≡ none))
      ⊎ (((refresh info m).1 ≡ some (refresh info m).0.symbols)
          × IsSorted (refresh info m).0.symbols)
unfolding refresh fetch
refresh-IsSorted none m = inl (refl, refl)
refresh-IsSorted (some info) m = inr (refl, sort-IsSorted (accepted m.cfg info))
