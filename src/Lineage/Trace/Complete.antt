-- ===== src/Lineage/Trace/Complete.antt =====
-- What a complete coverage says of a transition.
use repotraverse.Prelude.{
  ◌≡◌, refl, ◌≢◌, inl, inr, Bool, true, false, none, List, [], ◌∷◌, arith, Bool-cases, Option-cases,
  Bytes, codes, text_eq, text_eq_iff, All, All-append,
}
use repotraverse.Ir.{
  ElementSnapshot, EvidenceBundle, LineageAssertion, TransitionFact, with_gap, Coverage,
}
use repotraverse.Lineage.Match.{find_match, coverage_for}
use repotraverse.Lineage.Trace.{
  Progress, trace_facts, trace_element, trace_elements, conclude, added_facts, start, matched_fact,
  added_fact,
}

-- The fact names an element of the later snapshot.
abbrev pub HasSuccessor : TransitionFact → Type 0
HasSuccessor f = f.after_location ≢ none

-- The snapshots can be compared: each is complete, and of one configuration.
abbrev pub IsComparable : EvidenceBundle → EvidenceBundle → Type 0
IsComparable before after =
    (before.coverage.status ≡ codes "complete")
    × (after.coverage.status ≡ codes "complete")
    × (before.configuration ≡ after.configuration)

with_gap_partial : (c : Coverage) (gap : Bytes) → (with_gap c gap).status ≢ codes "complete"
unfolding with_gap
with_gap_partial c gap = λ e. cc

module _ (stable_hash : Bytes → Bytes) (unit : Bytes) (before after : EvidenceBundle) where
  Settled : Progress → Type 0
  Settled p =
      p.coverage.status ≡ codes "complete"
      → IsComparable before after × All HasSuccessor p.facts × (p.candidates ≡ [])

  coverage_for_complete :
      (coverage_for before after).status ≡ codes "complete"
      → (before.coverage.status ≡ codes "complete") × (after.coverage.status ≡ codes "complete")
  unfolding coverage_for
  coverage_for_complete e = ground (
    arith,
    text_eq_iff before.coverage.status (codes "complete"),
    text_eq_iff after.coverage.status (codes "complete"),
  )

  start-Settled : Settled (start stable_hash unit before after)
  unfolding Settled start
  start-Settled = elim (Bool-cases (text_eq before.configuration after.configuration)) [
    | inl same ↦
        rw same (λ e.
          let (a, b) = coverage_for_complete e in ((a, b, (text_eq_iff _ _).0 same), tt, refl))
    | inr other ↦ rw other (λ e. absurd (with_gap_partial _ _ e))
  ]

  module _ (assertions : List LineageAssertion) where
    round-Settled :
        (old : ElementSnapshot) (p : Progress)
        → Settled p
        → Settled (trace_element stable_hash unit before after assertions old p)
    unfolding Settled trace_element conclude matched_fact
    round-Settled old p s = elim (Option-cases (find_match assertions after.elements p.used old)) [
      | inl e ↦ rw (e, conclude) (λ c. absurd (with_gap_partial _ _ c))
      | inr (m, e) ↦
          rw (e, conclude)
            (λ c.
              let (a, b, d) = s c in (a, All-append HasSuccessor p.facts _ b ((λ n. cc), tt), d))
    ]

    rounds-Settled :
        (olds : List ElementSnapshot) (p : Progress)
        → Settled p
        → Settled (trace_elements stable_hash unit before after assertions olds p)
    unfolding trace_elements
    rounds-Settled [] p s = s
    rounds-Settled (old ∷ rest) p s = rounds-Settled rest _ (round-Settled old p s)

  added-HasSuccessor :
      (used : List Bool) (es : List ElementSnapshot)
      → All HasSuccessor (added_facts stable_hash unit before after used es)
  unfolding added_facts added_fact
  added-HasSuccessor [] es = tt
  added-HasSuccessor (u ∷ us) [] = tt
  added-HasSuccessor (true ∷ us) (e ∷ es) = added-HasSuccessor us es
  added-HasSuccessor (false ∷ us) (e ∷ es) = ((λ n. cc), added-HasSuccessor us es)

  -- If the coverage of a transition is complete, then both snapshots are complete and of one
  -- configuration, every fact names an element of the later one, and nothing is left to review.
  pub trace_facts_complete :
      (assertions : List LineageAssertion)
      → (trace_facts stable_hash unit before after assertions).coverage.status ≡ codes "complete"
      → IsComparable before after
        × All HasSuccessor (trace_facts stable_hash unit before after assertions).facts
        × ((trace_facts stable_hash unit before after assertions).candidates ≡ [])
  unfolding trace_facts Settled
  trace_facts_complete assertions c =
      let (a, b, d) = rounds-Settled assertions before.elements _ start-Settled c in
      (a, All-append HasSuccessor _ _ b (added-HasSuccessor _ after.elements), d)
