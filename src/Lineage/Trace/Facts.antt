-- ===== src/Lineage/Trace/Facts.antt =====
-- An induction principle for the facts of a transition, and why two elements are joined.
use repotraverse.Prelude.{
  suc, ◌≡◌, refl, ◌⊎◌, inl, inr, Bool, true, false, none, List, [], ◌∷◌, Option-cases, Bytes, All,
  All-append, Listed,
}
use repotraverse.Ir.{ElementSnapshot, EvidenceBundle, LineageAssertion, TransitionFact}
use repotraverse.Lineage.Match.{Match, find_match}
use repotraverse.Lineage.Match.Found.{Justified, find_match_lem}
use repotraverse.Lineage.Trace.{
  Progress, trace_facts, trace_element, trace_elements, added_facts, start, matched_fact,
  removed_fact, added_fact,
}
use repotraverse.Lineage.Trace.Partition.{unmatched_round, matched_round}

module _ (stable_hash : Bytes → Bytes) (unit : Bytes) (before after : EvidenceBundle)
    (assertions : List LineageAssertion) (P : TransitionFact → Type 0)
    (matched : (old : ElementSnapshot) (m : Match)
      → Listed old before.elements
      → Listed m.slot.element after.elements
      → Justified assertions m.resolution old.compiler_id m.slot.element.compiler_id
      → P (matched_fact stable_hash unit before after old m))
    (removed : (old : ElementSnapshot)
      → Listed old before.elements
      → P (removed_fact stable_hash unit before after old))
    (added : (new : ElementSnapshot)
      → Listed new after.elements
      → P (added_fact stable_hash unit before after new)) where
  round_All :
      (old : ElementSnapshot) (p : Progress)
      → Listed old before.elements
      → All P p.facts
      → All P (trace_element stable_hash unit before after assertions old p).facts
  round_All old p l h = elim (Option-cases (find_match assertions after.elements p.used old)) [
    | inl e ↦
        rw ((unmatched_round stable_hash unit before after assertions old p e).0)
          (All-append P p.facts _ h (removed old l, tt))
    | inr (m, e) ↦
        let (_, holds, why) = find_match_lem assertions after.elements p.used old e in
        rw ((matched_round stable_hash unit before after assertions old p e).0)
          (All-append P p.facts _ h (matched old m l (m.slot.index, holds) why, tt))
  ]

  rounds_All :
      (olds : List ElementSnapshot) (p : Progress)
      → ((old : ElementSnapshot) → Listed old olds → Listed old before.elements)
      → All P p.facts
      → All P (trace_elements stable_hash unit before after assertions olds p).facts
  unfolding trace_elements
  rounds_All [] p sub h = h
  rounds_All (old ∷ rest) p sub h =
      rounds_All rest _ (λ x (i, e). sub x (suc i, e)) (round_All old p (sub old (0, refl)) h)

  added_All :
      (used : List Bool) (es : List ElementSnapshot)
      → ((new : ElementSnapshot) → Listed new es → Listed new after.elements)
      → All P (added_facts stable_hash unit before after used es)
  unfolding added_facts
  added_All [] es sub = tt
  added_All (u ∷ us) [] sub = tt
  added_All (true ∷ us) (e ∷ es) sub = added_All us es (λ x (i, k). sub x (suc i, k))
  added_All (false ∷ us) (e ∷ es) sub =
      (added e (sub e (0, refl)), added_All us es (λ x (i, k). sub x (suc i, k)))

  -- A predicate of the three kinds of facts holds of every fact.
  pub trace_facts-All : All P (trace_facts stable_hash unit before after assertions).facts
  unfolding trace_facts
  trace_facts-All =
      let start_All : All P (start stable_hash unit before after).facts = unfold start in tt in
      All-append P _ _ (rounds_All before.elements _ (λ x l. l) start_All)
        (added_All _ after.elements (λ x l. l))

-- A fact joins two elements only for a recorded reason: an automatic one for the same identity, a
-- reviewed one for an accepted assertion that the two are the same element.
abbrev pub IsConservative : List LineageAssertion → TransitionFact → Type 0
IsConservative assertions f =
    (f.before_location ≡ none)
    ⊎ (f.after_location ≡ none)
    ⊎ Justified assertions f.resolution f.before_element f.after_element

-- Every fact that joins an earlier element to a later one has a recorded reason.
pub trace_facts-IsConservative :
    (stable_hash : Bytes → Bytes) (unit : Bytes) (before after : EvidenceBundle)
    (assertions : List LineageAssertion)
    → All (IsConservative assertions) (trace_facts stable_hash unit before after assertions).facts
unfolding matched_fact removed_fact added_fact
trace_facts-IsConservative stable_hash unit before after assertions =
    trace_facts-All stable_hash unit before after assertions (IsConservative assertions)
      (λ old m l k why. inr (inr why)) (λ old l. inr (inl refl)) (λ new l. inl refl)
