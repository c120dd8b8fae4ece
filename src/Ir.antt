-- ===== src/Ir.antt =====
-- include/history/ir.hpp and include/history/lineage.hpp: the records of snapshots, evidence and
-- transitions. Texts are byte lists; `double confidence` of a relation is kept in tenths.
pub mod Manifest
use repotraverse.Prelude.{
  ℕ, zero, suc, ◌+◌, ◌-◌, ◌*◌, ◌/◌, ◌%◌, ◌^◌, ◌≤◌, ◌<◌, ◌≡◌, refl, sym, ap, ◌∙◌, subst, ◌≢◌, ◌↔◌,
  ◌⊎◌, inl, inr, Bool, true, false, ◌&&◌, ◌||◌, not, Option, none, some, List, [], ◌∷◌, ◌++◌, map,
  append_assoc, append-nil, arith, ltb, leb, ◌==◌, within, if◌then◌else◌, ltb→lt, lt→ltb, leb→le,
  ==_iff, Bool-cases, Option-cases, Bytes, codes, text_eq, text_eq_iff, is_empty, contains, length,
  take, drop, length-append, take-append, drop-append, All, All-append, All-mono, get_elem?,
  All-get_elem?, Listed,
}

pub record SourceAnchor : Type 0 where
  pub path : Bytes
  pub begin_line : ℕ
  pub begin_column : ℕ
  pub end_line : ℕ
  pub end_column : ℕ
  pub role : Bytes

pub record Coverage : Type 0 where
  pub status : Bytes
  pub capabilities : List Bytes
  pub gaps : List Bytes

pub record ElementSnapshot : Type 0 where
  pub compiler_id : Bytes
  pub parent_element_id : Bytes
  pub kind : Bytes
  pub qualified_name : Bytes
  pub linkage : Bytes
  pub interface_fingerprint : Bytes
  pub implementation_fingerprint : Bytes
  pub dependency_fingerprint : Bytes
  pub location : SourceAnchor
  pub referenced_compiler_ids : List Bytes

pub record ProducerIdentity : Type 0 where
  pub tool_version : Bytes
  pub llvm_version : Bytes
  pub clang_version : Bytes
  pub build_mode : Bytes
  pub host_architecture : Bytes

pub record EvidenceBundle : Type 0 where
  pub schema_version : ℕ
  pub source_revision : Bytes
  pub configuration : Bytes
  pub context_fingerprint : Bytes
  pub extractor_fingerprint : Bytes
  pub producer : ProducerIdentity
  pub coverage : Coverage
  pub elements : List ElementSnapshot

pub record EvidenceReference : Type 0 where
  pub kind : Bytes
  pub id : Bytes
  pub revision : Bytes
  pub path : Bytes

pub record OriginEvidence : Type 0 where
  pub kind : Bytes
  pub evidence : List EvidenceReference
  pub causes : List Bytes
  pub dependency_depth : ℕ
  pub confidence : Bytes
  pub coverage : Coverage

pub record LineageRelation : Type 0 where
  pub relation_id : Bytes
  pub repository_id : Bytes
  pub kind : Bytes
  pub source_element_ids : List Bytes
  pub target_element_ids : List Bytes
  pub evidence : List Bytes
  pub confidence_tenths : ℕ
  pub review_state : Bytes
  pub author : Bytes
  pub reviewer : Bytes

pub record LineageCandidate : Type 0 where
  pub candidate_id : Bytes
  pub before_element : Bytes
  pub after_element : Bytes
  pub proposed_continuity : Bytes
  pub confidence : Bytes
  pub match_basis : List Bytes
  pub automatically_resolved : Bool

pub record LineageAssertion : Type 0 where
  pub assertion_id : Bytes
  pub before_element : Bytes
  pub after_element : Bytes
  pub relation : Bytes
  pub status : Bytes
  pub created_by : Bytes
  pub reviewed_by : Bytes

pub record TransitionFact : Type 0 where
  pub historical_element_id : Bytes
  pub before_element : Bytes
  pub after_element : Bytes
  pub before_revision : Bytes
  pub after_revision : Bytes
  pub continuity : Bytes
  pub content_change : Bytes
  pub dependencies_changed : Bool
  pub before_location : Option SourceAnchor
  pub after_location : Option SourceAnchor
  pub resolution : Bytes
  pub confidence : Bytes
  pub transition_id : Bytes
  pub origin_evidence : List OriginEvidence

pub record TransitionResult : Type 0 where
  pub before_revision : Bytes
  pub after_revision : Bytes
  pub configuration : Bytes
  pub coverage : Coverage
  pub candidates : List LineageCandidate
  pub relation_candidates : List LineageRelation
  pub reviewed_relations : List LineageRelation
  pub facts : List TransitionFact

-- `a + "\n" + b + ...`.
abbrev pub lines : List Bytes → Bytes
lines [] = []
lines (s ∷ []) = s
lines (s ∷ t ∷ rest) = s ++ b'\n' ∷ lines (t ∷ rest)

-- A coverage that a gap makes partial.
unfoldable pub with_gap : Coverage → Bytes → Coverage
with_gap c gap = record c { status = codes "partial"; gaps = c.gaps ++ gap ∷ [] }
