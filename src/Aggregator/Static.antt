-- ===== src/Aggregator/Static.antt =====
-- internal/dispatcher/universe.go: the static universe, which folds the case of its symbols.
use chomo_syncer_go.Base.{
  nat_eq, length, Text, text_eq, to_upper, contains, add_elem, ◌≡◌, refl, some, List, [], ◌∷◌,
}
use chomo_syncer_go.Aggregator.{SectionKey, Aggregator, Universe, mark_section, mark}
use chomo_syncer_go.Aggregator.Completion.{listed}

-- `NewStaticUniverse`: its set, in upper case
unfoldable pub upper_set : List Text → List Text
upper_set [] = []
upper_set (s ∷ ss) = add_elem (to_upper s) (upper_set ss)

unfoldable pub static_universe : List Text → Universe
unfolding upper_set
static_universe ss = record {
  size = length (upper_set ss);
  has = λ s. contains (upper_set ss) (to_upper s);
}

-- For a symbol that is spelled in upper case, a static universe counts as the set of its symbols in
-- upper case does.
pub mark-static_universe :
    (ss : List Text) (symbol : Text) (k : SectionKey) (a : Aggregator)
    → to_upper symbol ≡ symbol
    → mark (some (static_universe ss)) symbol k a ≡ mark (some (listed (upper_set ss))) symbol k a
unfolding mark mark_section listed static_universe
mark-static_universe ss symbol k a e = rw e refl
