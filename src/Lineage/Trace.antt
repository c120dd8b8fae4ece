-- ===== src/Lineage/Trace.antt =====
-- src/lineage.cpp: the facts and candidates of `trace_transition`, one loop over the elements of the
-- earlier snapshot and one over those of the later. `stable_hash` is the XXH128 digest of a text.
pub mod Partition
pub mod Facts
pub mod Complete
pub mod Identity
mod Examples
use repotraverse.Prelude.{
  ℕ, zero, suc, ◌+◌, ◌-◌, ◌*◌, ◌/◌, ◌%◌, ◌^◌, ◌≤◌, ◌<◌, ◌≡◌, refl, sym, ap, ◌∙◌, subst, ◌≢◌, ◌↔◌,
  ◌⊎◌, inl, inr, Bool, true, false, ◌&&◌, ◌||◌, not, Option, none, some, List, [], ◌∷◌, ◌++◌, map,
  append_assoc, append-nil, arith, ltb, leb, ◌==◌, within, if◌then◌else◌, ltb→lt, lt→ltb, leb→le,
  ==_iff, Bool-cases, Option-cases, Bytes, codes, text_eq, text_eq_iff, length, take, drop,
  length-append, take-append, drop-append, All, All-append,
}
use repotraverse.Ir.{
  SourceAnchor, Coverage, ElementSnapshot, EvidenceBundle, EvidenceReference, OriginEvidence,
  LineageCandidate, LineageAssertion, TransitionFact, lines, with_gap,
}
use repotraverse.Lineage.Match.{
  Slot, Match, continuity, content_change, find_match, shape_candidates, mark, coverage_for,
}

pub record Progress : Type 0 where
  pub used : List Bool
  pub coverage : Coverage
  pub candidates : List LineageCandidate
  pub facts : List TransitionFact

abbrev no_coverage : Coverage
no_coverage = record { status = codes "complete"; capabilities = []; gaps = [] }

-- The gap that opens every `unattributed_semantic_change`.
abbrev not_joined : Coverage
not_joined = record {
  status = codes "partial";
  capabilities = [];
  gaps = codes "Git and dependency evidence has not been joined" ∷ [];
}

module _ (stable_hash : Bytes → Bytes) where
  pub history_id : Bytes → Bytes
  history_id compiler_id = codes "history-" ++ stable_hash compiler_id

  candidate_of : ElementSnapshot → Bytes → List Bytes → Slot → LineageCandidate
  candidate_of old confidence basis s = record {
    candidate_id = codes "candidate-" ++ stable_hash (old.compiler_id ++ s.element.compiler_id);
    before_element = old.compiler_id;
    after_element = s.element.compiler_id;
    proposed_continuity = continuity old s.element;
    confidence = confidence;
    match_basis = basis;
    automatically_resolved = false;
  }

  abbrev exact_shape : List Bytes
  exact_shape =
      codes "interface_shape_equal"
      ∷ codes "implementation_shape_equal"
      ∷ codes "dependency_shape_equal"
      ∷ []

  -- What becomes of the candidates of an element without a match.
  pub propose : ElementSnapshot → List Slot → Progress → Progress
  propose old [] p = p
  propose old (s ∷ []) p = record p {
    candidates = p.candidates ++ candidate_of old (codes "high") exact_shape s ∷ [];
    coverage = with_gap p.coverage (codes "unreviewed lineage candidate for " ++ old.compiler_id);
  }
  propose old (s ∷ t ∷ rest) p = record p {
    candidates =
        p.candidates
        ++ map (candidate_of old (codes "ambiguous") (codes "multiple_exact_shape_matches" ∷ []))
            (s ∷ t ∷ rest);
    coverage = with_gap p.coverage (codes "ambiguous lineage for " ++ old.compiler_id);
  }

  module _ (unit : Bytes) (before after : EvidenceBundle) where
    pub transition_id : Bytes → Bytes → Bytes
    transition_id before_element after_element = stable_hash (
        lines (
          unit ∷ before.source_revision ∷ after.source_revision ∷ before.configuration
          ∷ before.context_fingerprint ∷ after.context_fingerprint ∷ before_element ∷ after_element
          ∷ []))

    abbrev semantic_change : OriginEvidence
    semantic_change = record {
      kind = codes "unattributed_semantic_change";
      evidence = [];
      causes = [];
      dependency_depth = 0;
      confidence = codes "unattributed";
      coverage = not_joined;
    }

    context_change : OriginEvidence
    context_change = record {
      kind = codes "build_context_change";
      evidence =
          record {
            kind = codes "compile_context";
            id = before.context_fingerprint;
            revision = before.source_revision;
            path = [];
          }
          ∷ record {
            kind = codes "compile_context";
            id = after.context_fingerprint;
            revision = after.source_revision;
            path = [];
          }
          ∷ [];
      causes = [];
      dependency_depth = 0;
      confidence = codes "exact";
      coverage = no_coverage;
    }

    pub origin_of : Bytes → List OriginEvidence
    origin_of change =
        (if not (text_eq change (codes "none")) && not (text_eq change (codes "unverified"))
          then semantic_change ∷ []
          else [])
        ++ (if not (text_eq before.context_fingerprint after.context_fingerprint)
            then context_change ∷ []
            else [])

    unfoldable pub matched_fact : ElementSnapshot → Match → TransitionFact
    matched_fact old m = record {
      historical_element_id = history_id old.compiler_id;
      before_element = old.compiler_id;
      after_element = m.slot.element.compiler_id;
      before_revision = before.source_revision;
      after_revision = after.source_revision;
      continuity = continuity old m.slot.element;
      content_change = content_change old m.slot.element;
      dependencies_changed =
          not (text_eq old.dependency_fingerprint m.slot.element.dependency_fingerprint);
      before_location = some old.location;
      after_location = some m.slot.element.location;
      resolution = m.resolution;
      confidence = m.confidence;
      transition_id = transition_id old.compiler_id m.slot.element.compiler_id;
      origin_evidence = origin_of (content_change old m.slot.element);
    }

    unfoldable pub removed_fact : ElementSnapshot → TransitionFact
    removed_fact old = record {
      historical_element_id = history_id old.compiler_id;
      before_element = old.compiler_id;
      after_element = [];
      before_revision = before.source_revision;
      after_revision = after.source_revision;
      continuity = codes "deleted_or_unresolved";
      content_change = codes "unverified";
      dependencies_changed = false;
      before_location = some old.location;
      after_location = none;
      resolution = codes "automatic";
      confidence = codes "ambiguous";
      transition_id = transition_id old.compiler_id [];
      origin_evidence = origin_of (codes "unverified");
    }

    unfoldable pub added_fact : ElementSnapshot → TransitionFact
    added_fact new = record {
      historical_element_id = history_id new.compiler_id;
      before_element = [];
      after_element = new.compiler_id;
      before_revision = before.source_revision;
      after_revision = after.source_revision;
      continuity = codes "added_or_unresolved";
      content_change = codes "unverified";
      dependencies_changed = false;
      before_location = none;
      after_location = some new.location;
      resolution = codes "automatic";
      confidence = codes "ambiguous";
      transition_id = transition_id [] new.compiler_id;
      origin_evidence = [];
    }

    -- The rest of a round, once the match and the candidates are known.
    pub conclude : ElementSnapshot → Option Match → List Slot → Progress → Progress
    conclude old (some m) slots p = record p {
      used = mark p.used m.slot.index;
      facts = p.facts ++ matched_fact old m ∷ [];
    }
    conclude old none slots p =
        let q = propose old slots p in
        record q {
          coverage = with_gap q.coverage (codes "unresolved successor for " ++ old.compiler_id);
          facts = q.facts ++ removed_fact old ∷ [];
        }

    module _ (assertions : List LineageAssertion) where
      pub trace_element : ElementSnapshot → Progress → Progress
      trace_element old p =
          conclude old (find_match assertions after.elements p.used old)
            (shape_candidates assertions after.elements p.used old) p

      pub trace_elements : List ElementSnapshot → Progress → Progress
      trace_elements [] p = p
      trace_elements (old ∷ rest) p = trace_elements rest (trace_element old p)

    -- The loop over the elements of the later snapshot that are not used.
    pub added_facts : List Bool → List ElementSnapshot → List TransitionFact
    added_facts [] es = []
    added_facts (u ∷ us) [] = []
    added_facts (u ∷ us) (e ∷ es) =
        let rest = added_facts us es in if u then rest else added_fact e ∷ rest

    abbrev unused : List ElementSnapshot → List Bool
    unused [] = []
    unused (e ∷ es) = false ∷ unused es

    pub start : Progress
    start = record {
      used = unused after.elements;
      coverage =
          if text_eq before.configuration after.configuration
          then coverage_for before after
          else with_gap (coverage_for before after) (codes "configuration mismatch");
      candidates = [];
      facts = [];
    }

    -- The state behind both loops; the facts are not sorted yet.
    pub trace_facts : List LineageAssertion → Progress
    trace_facts assertions =
        let p = trace_elements assertions before.elements start in
        record p { facts = p.facts ++ added_facts p.used after.elements }
