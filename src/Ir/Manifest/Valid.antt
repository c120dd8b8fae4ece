-- ===== src/Ir/Manifest/Valid.antt =====
-- src/ir.cpp: what validate_tu_manifest admits.
use repotraverse.Prelude.{
  ◌≡◌, ◌≢◌, ◌↔◌, ◌⊎◌, inl, inr, true, ◌||◌, List, [], arith, Bool-cases, Bytes, text_eq_iff,
  is_empty, contains, All,
}
use repotraverse.Ir.Manifest.{
  LogicalElement, SemanticVariant, ElementObservation, MacroExpansion, TuManifest, ManifestIdentity,
  identity_of, expected_element_id, is_element, expected_variant_id, is_variant, is_observation,
  is_expansion,
}
use repotraverse.Ir.Manifest.Ids.{
  OneOf, AreDistinct, contains_iff, empty_iff, not_empty_iff, element_ids, variant_ids,
}

module _ (stable_hash : Bytes → Bytes) (dump : ManifestIdentity → Bytes) where
  -- The elements of a manifest, by their ids.
  abbrev pub IsElement : TuManifest → LogicalElement → Type 0
  IsElement m e =
      (e.repository_id ≡ m.repository_id)
      × ((e.element_id ≡ expected_element_id stable_hash dump m e) × (e.kind ≢ []))

  abbrev pub HasParent : TuManifest → LogicalElement → Type 0
  HasParent m e = (e.parent_element_id ≡ []) ⊎ OneOf e.parent_element_id (element_ids m.elements)

  abbrev pub IsVariant : TuManifest → SemanticVariant → Type 0
  IsVariant m v =
      OneOf v.element_id (element_ids m.elements)
      × (v.variant_id ≡ expected_variant_id stable_hash dump v)

  abbrev pub IsObservation : TuManifest → ElementObservation → Type 0
  IsObservation m o =
      OneOf o.element_id (element_ids m.elements)
      × (OneOf o.variant_id (variant_ids m.variants) × (o.location.path ≢ []))

  abbrev pub IsExpansion : TuManifest → MacroExpansion → Type 0
  IsExpansion m x =
      OneOf x.macro_element_id (element_ids m.elements)
      × (((x.containing_element_id ≡ []) ⊎ OneOf x.containing_element_id (element_ids m.elements))
          × (x.location.path ≢ []))

  -- A manifest whose parts refer to one another, and whose ids are the digests of what they name.
  pub record IsManifest (m : TuManifest) : Type 0 where
    pub version : m.schema_version ≡ 1
    pub in_repository : m.repository_id ≢ []
    pub at_revision : m.source_revision ≢ []
    pub of_unit : m.translation_unit ≢ []
    pub in_context : m.context_id ≢ []
    pub configured : m.configuration ≢ []
    pub extracted : m.extractor_fingerprint ≢ []
    pub elements_named : All (IsElement m) m.elements
    pub elements_distinct : AreDistinct (element_ids m.elements)
    pub parents_known : All (HasParent m) m.elements
    pub variants_named : All (IsVariant m) m.variants
    pub variants_distinct : AreDistinct (variant_ids m.variants)
    pub observed : All (IsObservation m) m.observations
    pub expanded : All (IsExpansion m) m.macro_expansions
    pub digested : m.manifest_id ≡ stable_hash (dump (identity_of m))

  pub is_element_iff :
      (m : TuManifest) (e : LogicalElement)
      → (is_element stable_hash dump m e ≡ true) ↔ IsElement m e
  is_element_iff m e =
      let (a, b) = text_eq_iff e.repository_id m.repository_id in
      let (c, d) = text_eq_iff e.element_id (expected_element_id stable_hash dump m e) in
      let (f, g) = not_empty_iff e.kind in
      (
        (λ h. (a (ground arith), (c (ground arith), f (ground arith)))),
        (λ (h, (i, j)). let k = b h in let l = d i in let n = g j in ground arith),
      )

  pub or_OneOf :
      (s : Bytes) (ts : List Bytes)
      → ((is_empty s || contains ts s) ≡ true) ↔ ((s ≡ []) ⊎ OneOf s ts)
  or_OneOf s ts =
      let (a, b) = empty_iff s in
      let (c, d) = contains_iff ts s in
      (
        (λ h. elim (Bool-cases (is_empty s)) [
          | inl e ↦ inl (a e)
          | inr e ↦ inr (c (ground arith))
        ]),
        (λ h. elim h [ inl e ↦ let k = b e in ground arith | inr o ↦ let k = d o in ground arith ]),
      )

  pub is_variant_iff :
      (m : TuManifest) (v : SemanticVariant)
      → (is_variant stable_hash dump (element_ids m.elements) v ≡ true) ↔ IsVariant m v
  is_variant_iff m v =
      let (a, b) = contains_iff (element_ids m.elements) v.element_id in
      let (c, d) = text_eq_iff v.variant_id (expected_variant_id stable_hash dump v) in
      (
        (λ h. (a (ground arith), c (ground arith))),
        (λ (h, i). let k = b h in let l = d i in ground arith),
      )

  pub is_observation_iff :
      (m : TuManifest) (o : ElementObservation)
      → (is_observation stable_hash dump (element_ids m.elements) (variant_ids m.variants) o ≡ true)
        ↔ IsObservation m o
  is_observation_iff m o =
      let (a, b) = contains_iff (element_ids m.elements) o.element_id in
      let (c, d) = contains_iff (variant_ids m.variants) o.variant_id in
      let (f, g) = not_empty_iff o.location.path in
      (
        (λ h. (a (ground arith), (c (ground arith), f (ground arith)))),
        (λ (h, (i, j)). let k = b h in let l = d i in let n = g j in ground arith),
      )

  pub is_expansion_iff :
      (m : TuManifest) (x : MacroExpansion)
      → (is_expansion stable_hash dump (element_ids m.elements) x ≡ true) ↔ IsExpansion m x
  is_expansion_iff m x =
      let (a, b) = contains_iff (element_ids m.elements) x.macro_element_id in
      let (c, d) = or_OneOf x.containing_element_id (element_ids m.elements) in
      let (f, g) = not_empty_iff x.location.path in
      (
        (λ h. (a (ground arith), (c (ground arith), f (ground arith)))),
        (λ (h, (i, j)). let k = b h in let l = d i in let n = g j in ground arith),
      )
