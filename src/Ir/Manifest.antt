-- ===== src/Ir/Manifest.antt =====
-- src/ir.cpp: validate_tu_manifest, and the records of a manifest of include/history/ir.hpp.
pub mod Ids
pub mod Valid
pub mod Decides
mod Examples
use repotraverse.Prelude.{
  ℕ, Bool, true, ◌&&◌, ◌||◌, not, Option, none, some, List, [], ◌∷◌, ◌++◌, ◌==◌, if◌then◌else◌,
  Bytes, codes, text_eq, is_empty, contains,
}
use repotraverse.Ir.{SourceAnchor, Coverage, ProducerIdentity, lines}

pub record BuildVariant : Type 0 where
  pub variant_id : Bytes
  pub product : Bytes
  pub target : Bytes
  pub configuration : Bytes

pub record LogicalElement : Type 0 where
  pub element_id : Bytes
  pub repository_id : Bytes
  pub compiler_id : Bytes
  pub kind : Bytes
  pub qualified_name : Bytes
  pub linkage : Bytes
  pub owner_file : Bytes
  pub parent_element_id : Bytes

pub record SemanticVariant : Type 0 where
  pub variant_id : Bytes
  pub element_id : Bytes
  pub interface_fingerprint : Bytes
  pub implementation_fingerprint : Bytes
  pub dependency_fingerprint : Bytes
  pub referenced_element_ids : List Bytes

pub record ElementObservation : Type 0 where
  pub element_id : Bytes
  pub variant_id : Bytes
  pub location : SourceAnchor
  pub observation_id : Bytes

pub record MacroExpansion : Type 0 where
  pub macro_element_id : Bytes
  pub containing_element_id : Bytes
  pub location : SourceAnchor

pub record TuManifest : Type 0 where
  pub schema_version : ℕ
  pub manifest_id : Bytes
  pub repository_id : Bytes
  pub source_revision : Bytes
  pub translation_unit : Bytes
  pub source_blob : Bytes
  pub context_id : Bytes
  pub configuration : Bytes
  pub extractor_fingerprint : Bytes
  pub producer : ProducerIdentity
  pub build_variant : BuildVariant
  pub coverage : Coverage
  pub elements : List LogicalElement
  pub variants : List SemanticVariant
  pub observations : List ElementObservation
  pub macro_expansions : List MacroExpansion

-- What the digest of a manifest is made of.
pub record ManifestIdentity : Type 0 where
  pub repository : Bytes
  pub revision : Bytes
  pub configuration : Bytes
  pub build_variant : BuildVariant
  pub tu : Bytes
  pub blob : Bytes
  pub context : Bytes
  pub observations : List ElementObservation
  pub macro_expansions : List MacroExpansion

abbrev pub identity_of : TuManifest → ManifestIdentity
identity_of m = record {
  repository = m.repository_id;
  revision = m.source_revision;
  configuration = m.configuration;
  build_variant = m.build_variant;
  tu = m.translation_unit;
  blob = m.source_blob;
  context = m.context_id;
  observations = m.observations;
  macro_expansions = m.macro_expansions;
}

-- A loop that returns at the first item that fails.
unfoldable pub all_pass {ℓ} : {A : Type ℓ} → (A → Bool) → List A → Bool
all_pass test [] = true
all_pass test (x ∷ xs) = test x && all_pass test xs

-- The ids that a loop has inserted into its set, or the error of the item that ended it.
pub data Checked : Type 0 where
  refused : Bytes → Checked
  passed : List Bytes → Checked

abbrev pub is_identified : TuManifest → Bool
is_identified m =
    (m.schema_version == 1)
    && not (is_empty m.repository_id)
    && not (is_empty m.source_revision)
    && not (is_empty m.translation_unit)
    && not (is_empty m.context_id)
    && not (is_empty m.configuration)
    && not (is_empty m.extractor_fingerprint)

-- `stable_hash` is a digest, and `dump` the JSON text of an identity.
module _ (stable_hash : Bytes → Bytes) (dump : ManifestIdentity → Bytes) where
  -- An element of internal linkage is one of its translation unit.
  abbrev pub expected_element_id : TuManifest → LogicalElement → Bytes
  expected_element_id m e = stable_hash (
      lines (
        m.repository_id
        ∷ e.linkage
        ∷ (if text_eq e.linkage (codes "internal") then m.translation_unit else [])
        ∷ e.compiler_id
        ∷ []))

  abbrev pub is_element : TuManifest → LogicalElement → Bool
  is_element m e =
      text_eq e.repository_id m.repository_id
      && text_eq e.element_id (expected_element_id m e)
      && not (is_empty e.kind)

  unfoldable pub check_elements : TuManifest → List Bytes → List LogicalElement → Checked
  check_elements m ids [] = passed ids
  check_elements m ids (e ∷ es) =
      let rest = check_elements m (ids ++ e.element_id ∷ []) es in
      if not (is_element m e)
      then refused (codes "manifest contains an invalid logical element")
      else if contains ids e.element_id
      then refused (codes "manifest contains a duplicate logical element id")
      else rest

  abbrev pub has_parent : List Bytes → LogicalElement → Bool
  has_parent ids e = is_empty e.parent_element_id || contains ids e.parent_element_id

  abbrev pub expected_variant_id : SemanticVariant → Bytes
  expected_variant_id v = stable_hash (
      lines (
        v.element_id ∷ v.interface_fingerprint ∷ v.implementation_fingerprint
        ∷ v.dependency_fingerprint ∷ []))

  abbrev pub is_variant : List Bytes → SemanticVariant → Bool
  is_variant elements v =
      contains elements v.element_id && text_eq v.variant_id (expected_variant_id v)

  unfoldable pub check_variants : List Bytes → List Bytes → List SemanticVariant → Checked
  check_variants elements ids [] = passed ids
  check_variants elements ids (v ∷ vs) =
      let rest = check_variants elements (ids ++ v.variant_id ∷ []) vs in
      if not (is_variant elements v) || contains ids v.variant_id
      then refused (codes "manifest contains an invalid semantic variant")
      else rest

  abbrev pub is_observation : List Bytes → List Bytes → ElementObservation → Bool
  is_observation elements variants o =
      contains elements o.element_id
      && contains variants o.variant_id
      && not (is_empty o.location.path)

  abbrev pub is_expansion : List Bytes → MacroExpansion → Bool
  is_expansion elements x =
      contains elements x.macro_element_id
      && (is_empty x.containing_element_id || contains elements x.containing_element_id)
      && not (is_empty x.location.path)

  -- The loops over observations and expansions, and the digest.
  unfoldable pub check_uses : TuManifest → List Bytes → Checked → Option Bytes
  check_uses m elements (refused error) = some error
  check_uses m elements (passed variants) =
      if not (all_pass (is_observation elements variants) m.observations)
      then some (codes "manifest contains an invalid observation")
      else if not (all_pass (is_expansion elements) m.macro_expansions)
      then some (codes "manifest contains an invalid macro expansion")
      else if not (text_eq m.manifest_id (stable_hash (dump (identity_of m))))
      then some (codes "manifest identifier does not match its contents")
      else none

  unfoldable pub check_contents : TuManifest → Checked → Option Bytes
  check_contents m (refused error) = some error
  check_contents m (passed elements) =
      if not (all_pass (has_parent elements) m.elements)
      then some (codes "manifest element parent is missing")
      else check_uses m elements (check_variants elements [] m.variants)

  -- The error, or `none` where the source returns true.
  unfoldable pub validate_tu_manifest : TuManifest → Option Bytes
  validate_tu_manifest m =
      if not (is_identified m)
      then some (codes "manifest identity fields are incomplete")
      else check_contents m (check_elements m [] m.elements)
