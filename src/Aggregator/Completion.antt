-- ===== src/Aggregator/Completion.antt =====
-- internal/dispatcher/aggregator.go: when a section is complete.
use chomo_syncer_go.Base.{
  leb, if◌then◌else◌, leb→le, le→leb, nat_eq, length, Text, text_beq_iff, text_eq, lookup-insert,
  contains, add_elem, Uniq, Subset, contains-add_elem, add_elem-Uniq, length-le_of_Subset,
  Subset_of_length, ◌<◌, ◌≡◌, ◌↔◌, true, false, Option, none, some, List, [], ◌∷◌, arith,
}
use chomo_syncer_go.Aggregator.{
  SectionKey, section_key_eq, section_key_beq_iff, SectionState, Aggregator, Universe, Pending,
  complete, get_section, mark,
}

-- The universe that the monitor of internal/universe holds: a set of symbols, which it looks up as
-- they are spelled.
unfoldable pub listed : List Text → Universe
listed us = record { size = length us; has = contains us }

-- The reported symbols of a section are distinct and belong to the universe.
pub record IsCounted (us : List Text) (st : SectionState) : Type 0 where
  pub uniq : Uniq st.symbols
  pub inside : Subset st.symbols us

-- Every symbol of the universe has reported.
abbrev pub IsComplete : List Text → SectionState → Type 0
IsComplete us st = Subset us st.symbols

nonempty_of_contains : (us : List Text) (symbol : Text) → contains us symbol ≡ true → 0 < length us
unfolding contains
nonempty_of_contains [] symbol h = cc
nonempty_of_contains (x ∷ us) symbol h = omega arith

module _ (us : List Text) (symbol : Text) (k : SectionKey) (a : Aggregator)
    (member : contains us symbol ≡ true)
    (unpublished : (get_section k a.sections).published ≡ false) where
  -- The symbols reported once the mark is counted, and what the mark leaves.
  abbrev reported : List Text
  reported = add_elem symbol (get_section k a.sections).symbols

  abbrev marked : Aggregator × Option Pending
  marked = mark (some (listed us)) symbol k a

  marked-symbols : (get_section k marked.0.sections).symbols ≡ reported
  unfolding mark listed
  marked-symbols = ground (
    arith,
    section_key_beq_iff k k,
    lookup-insert k k
        (record {
          symbols = reported;
          published = true;
          retained = (get_section k a.sections).retained;
        })
        a.sections,
    lookup-insert k k
        (record {
          symbols = reported;
          published = false;
          retained = (get_section k a.sections).retained;
        })
        a.sections,
  )

  marked-published : (get_section k marked.0.sections).published ≡ leb (length us) (length reported)
  unfolding mark listed
  marked-published = ground (
    arith,
    nonempty_of_contains us symbol member,
    section_key_beq_iff k k,
    lookup-insert k k
        (record {
          symbols = reported;
          published = true;
          retained = (get_section k a.sections).retained;
        })
        a.sections,
    lookup-insert k k
        (record {
          symbols = reported;
          published = false;
          retained = (get_section k a.sections).retained;
        })
        a.sections,
  )

  marked-pending : marked.1 ≡ (
      if leb (length us) (length reported)
      then some (record { key = k; n = length reported; reason = complete })
      else none)
  unfolding mark listed
  marked-pending = ground (arith, nonempty_of_contains us symbol member)

  reported-Subset : IsCounted us (get_section k a.sections) → Subset reported us
  reported-Subset v x c = ground (
    arith,
    contains-add_elem symbol x (get_section k a.sections).symbols,
    text_beq_iff symbol x,
    v.inside x,
  )

  -- For a universe of distinct symbols, as the monitor holds it: the mark of a universe symbol in a section that is not
  -- published publishes it exactly if every universe symbol has then reported; the event is for
  -- this section, complete, and counts the whole universe; otherwise nothing is published. The
  -- reported symbols stay distinct universe symbols.
  pub mark_complete :
      Uniq us
      → IsCounted us (get_section k a.sections)
      → ((get_section k marked.0.sections).published ≡ true
          ↔ IsComplete us (get_section k marked.0.sections))
        × IsCounted us (get_section k marked.0.sections)
        × (marked.1 ≡ (
            if (get_section k marked.0.sections).published
            then some (record { key = k; n = length us; reason = complete })
            else none))
  mark_complete d v =
      let uniq : Uniq reported = add_elem-Uniq symbol (get_section k a.sections).symbols v.uniq in
      let inside : Subset reported us = reported-Subset v in
      rw (marked-published, marked-pending, marked-symbols)
        (
          (
            λ h. Subset_of_length reported us uniq inside (leb→le _ _ h),
            λ c. le→leb _ _ (length-le_of_Subset us reported d c),
          ),
          record { uniq = rw marked-symbols uniq; inside = rw marked-symbols inside },
          ground (arith, length-le_of_Subset reported us uniq inside),
        )
