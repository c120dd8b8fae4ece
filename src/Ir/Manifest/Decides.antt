-- ===== src/Ir/Manifest/Decides.antt =====
-- src/ir.cpp: validate_tu_manifest decides whether the parts of a manifest belong together.
use repotraverse.Prelude.{
  ◌≡◌, refl, ap, ◌∙◌, ◌↔◌, inl, inr, true, none, List, [], arith, Bool-cases, Bytes, text_eq,
  text_eq_iff,
}
use repotraverse.Ir.Manifest.{
  TuManifest, ManifestIdentity, identity_of, all_pass, refused, passed, is_identified,
  check_elements, has_parent, check_variants, is_observation, is_expansion, check_uses,
  check_contents, validate_tu_manifest,
}
use repotraverse.Ir.Manifest.Ids.{
  AreFresh-iff, all_pass_iff, All-iff, not_empty_iff, element_ids, variant_ids, Checked-cases,
  check_elements-Admits, Admits-check_elements, check_variants-Admits, Admits-check_variants,
}
use repotraverse.Ir.Manifest.Valid.{
  IsElement, HasParent, IsVariant, IsObservation, IsExpansion, IsManifest, is_element_iff, or_OneOf,
  is_variant_iff, is_observation_iff, is_expansion_iff,
}

module _ (stable_hash : Bytes → Bytes) (dump : ManifestIdentity → Bytes) where
  -- What the loops have found, on the way to the answer.
  record Passes (m : TuManifest) : Type 0 where
    identified : is_identified m ≡ true
    elements : check_elements stable_hash dump m [] m.elements ≡ passed (element_ids m.elements)
    parents : all_pass (has_parent stable_hash dump (element_ids m.elements)) m.elements ≡ true
    variants :
        check_variants stable_hash dump (element_ids m.elements) [] m.variants
        ≡ passed (variant_ids m.variants)
    observations :
        all_pass
          (is_observation stable_hash dump (element_ids m.elements) (variant_ids m.variants))
          m.observations
        ≡ true
    expansions :
        all_pass (is_expansion stable_hash dump (element_ids m.elements)) m.macro_expansions ≡ true
    digest : text_eq m.manifest_id (stable_hash (dump (identity_of m))) ≡ true

  Passes-validate : (m : TuManifest) → Passes m → validate_tu_manifest stable_hash dump m ≡ none
  unfolding validate_tu_manifest check_contents check_uses
  Passes-validate m p =
      rw (p.identified, p.elements, p.parents, p.variants, p.observations, p.expansions, p.digest)
        refl

  refused_contents :
      (m : TuManifest) (s : Bytes) → check_contents stable_hash dump m (refused s) ≡ none → ⊥
  unfolding check_contents
  refused_contents m s h = cc

  refused_uses :
      (m : TuManifest) (ids : List Bytes) (s : Bytes)
      → check_uses stable_hash dump m ids (refused s) ≡ none
      → ⊥
  unfolding check_uses
  refused_uses m ids s h = cc

  -- The last loops, and the digest.
  record Ends (m : TuManifest) (elements variants : List Bytes) : Type 0 where
    observations :
        all_pass (is_observation stable_hash dump elements variants) m.observations ≡ true
    expansions : all_pass (is_expansion stable_hash dump elements) m.macro_expansions ≡ true
    digest : text_eq m.manifest_id (stable_hash (dump (identity_of m))) ≡ true

  check_uses-Ends :
      (m : TuManifest) (elements variants : List Bytes)
      → check_uses stable_hash dump m elements (passed variants) ≡ none
      → Ends m elements variants
  unfolding check_uses
  check_uses-Ends m elements variants h = record {
    observations = ground arith;
    expansions = ground arith;
    digest = ground arith;
  }

  check_contents-parents :
      (m : TuManifest) (elements : List Bytes)
      → check_contents stable_hash dump m (passed elements) ≡ none
      → (all_pass (has_parent stable_hash dump elements) m.elements ≡ true)
        × (check_uses stable_hash dump m elements
              (check_variants stable_hash dump elements [] m.variants)
            ≡ none)
  unfolding check_contents
  check_contents-parents m elements h =
      elim (Bool-cases (all_pass (has_parent stable_hash dump elements) m.elements)) [
        | inl e ↦ (e, rw e at h)
        | inr e ↦ absurd (ground arith)
      ]

  check_contents-Passes :
      (m : TuManifest)
      → is_identified m ≡ true
      → check_elements stable_hash dump m [] m.elements ≡ passed (element_ids m.elements)
      → check_contents stable_hash dump m (passed (element_ids m.elements)) ≡ none
      → Passes m
  check_contents-Passes m good e h =
      let (parents, uses) = check_contents-parents m (element_ids m.elements) h in
      elim (Checked-cases
        (check_variants stable_hash dump (element_ids m.elements) [] m.variants)) [
          | inl (s, v) ↦ absurd (refused_uses m (element_ids m.elements) s (rw v at uses))
          | inr (ids, v) ↦
              let same =
                (check_variants-Admits stable_hash dump (element_ids m.elements) [] ids m.variants
                  v).gathered in
              let ends =
                check_uses-Ends m (element_ids m.elements) (variant_ids m.variants)
                  (rw (v, same) at uses) in
              record {
                identified = good;
                elements = e;
                parents = parents;
                variants = v ∙ ap passed same;
                observations = ends.observations;
                expansions = ends.expansions;
                digest = ends.digest;
              }
        ]

  validate-Passes : (m : TuManifest) → validate_tu_manifest stable_hash dump m ≡ none → Passes m
  unfolding validate_tu_manifest
  validate-Passes m h = elim (Bool-cases (is_identified m)) [
    | inr bad ↦ absurd (ground arith)
    | inl good ↦ elim (Checked-cases (check_elements stable_hash dump m [] m.elements)) [
      | inl (s, e) ↦ absurd (refused_contents m s (rw (good, e) at h))
      | inr (ids, e) ↦
          let same = (check_elements-Admits stable_hash dump m [] ids m.elements e).gathered in
          let inner : check_contents stable_hash dump m (passed (element_ids m.elements)) ≡ none =
            rw (good, e, same) at h in
          check_contents-Passes m good (e ∙ ap passed same) inner
    ]
  ]

  Passes-IsManifest : (m : TuManifest) → Passes m → IsManifest stable_hash dump m
  Passes-IsManifest m p =
      let good = p.identified in
      let es =
        check_elements-Admits stable_hash dump m [] (element_ids m.elements) m.elements
          p.elements in
      let vs =
        check_variants-Admits stable_hash dump (element_ids m.elements) [] (variant_ids m.variants)
          m.variants p.variants in
      record {
        version = ground arith;
        in_repository = (not_empty_iff m.repository_id).0 (ground arith);
        at_revision = (not_empty_iff m.source_revision).0 (ground arith);
        of_unit = (not_empty_iff m.translation_unit).0 (ground arith);
        in_context = (not_empty_iff m.context_id).0 (ground arith);
        configured = (not_empty_iff m.configuration).0 (ground arith);
        extracted = (not_empty_iff m.extractor_fingerprint).0 (ground arith);
        elements_named =
            (All-iff _ (IsElement stable_hash dump m) m.elements
                (is_element_iff stable_hash dump m)).0
              es.each;
        elements_distinct = (AreFresh-iff (element_ids m.elements)).0 es.fresh;
        parents_known =
            (All-iff _ (HasParent stable_hash dump m) m.elements
                (λ e. or_OneOf stable_hash dump e.parent_element_id (element_ids m.elements))).0
              ((all_pass_iff (has_parent stable_hash dump (element_ids m.elements)) m.elements).0
                p.parents);
        variants_named =
            (All-iff _ (IsVariant stable_hash dump m) m.variants
                (is_variant_iff stable_hash dump m)).0
              vs.each;
        variants_distinct = (AreFresh-iff (variant_ids m.variants)).0 vs.fresh;
        observed =
            (All-iff _ (IsObservation stable_hash dump m) m.observations
                (is_observation_iff stable_hash dump m)).0
              ((all_pass_iff _ m.observations).0 p.observations);
        expanded =
            (All-iff _ (IsExpansion stable_hash dump m) m.macro_expansions
                (is_expansion_iff stable_hash dump m)).0
              ((all_pass_iff _ m.macro_expansions).0 p.expansions);
        digested = (text_eq_iff m.manifest_id (stable_hash (dump (identity_of m)))).0 p.digest;
      }

  IsManifest-Passes : (m : TuManifest) → IsManifest stable_hash dump m → Passes m
  IsManifest-Passes m v =
      let a = v.version in
      let b = (not_empty_iff m.repository_id).1 v.in_repository in
      let c = (not_empty_iff m.source_revision).1 v.at_revision in
      let d = (not_empty_iff m.translation_unit).1 v.of_unit in
      let e = (not_empty_iff m.context_id).1 v.in_context in
      let f = (not_empty_iff m.configuration).1 v.configured in
      let g = (not_empty_iff m.extractor_fingerprint).1 v.extracted in
      record {
        identified = rw (a, b, c, d, e, f, g) refl;
        elements =
            Admits-check_elements stable_hash dump m [] m.elements
              ((All-iff _ (IsElement stable_hash dump m) m.elements
                  (is_element_iff stable_hash dump m)).1
                v.elements_named)
              ((AreFresh-iff (element_ids m.elements)).1 v.elements_distinct);
        parents =
            (all_pass_iff (has_parent stable_hash dump (element_ids m.elements)) m.elements).1 (
              (All-iff _ (HasParent stable_hash dump m) m.elements
                  (λ x. or_OneOf stable_hash dump x.parent_element_id (element_ids m.elements))).1
                v.parents_known);
        variants =
            Admits-check_variants stable_hash dump (element_ids m.elements) [] m.variants
              ((All-iff _ (IsVariant stable_hash dump m) m.variants
                  (is_variant_iff stable_hash dump m)).1
                v.variants_named)
              ((AreFresh-iff (variant_ids m.variants)).1 v.variants_distinct);
        observations = (all_pass_iff _ m.observations).1 (
            (All-iff _ (IsObservation stable_hash dump m) m.observations
                (is_observation_iff stable_hash dump m)).1
              v.observed);
        expansions = (all_pass_iff _ m.macro_expansions).1 (
            (All-iff _ (IsExpansion stable_hash dump m) m.macro_expansions
                (is_expansion_iff stable_hash dump m)).1
              v.expanded);
        digest = (text_eq_iff m.manifest_id (stable_hash (dump (identity_of m)))).1 v.digested;
      }

  -- validate_tu_manifest reports no error exactly for a manifest of version 1 whose identity fields are
  -- not empty, whose elements and variants carry the digests of what they name, each once, whose
  -- parents, variants, observations and macro expansions refer to elements and variants that it has,
  -- with a path, and whose identifier is the digest of its contents.
  pub validate_tu_manifest_iff :
      (m : TuManifest)
      → (validate_tu_manifest stable_hash dump m ≡ none) ↔ IsManifest stable_hash dump m
  validate_tu_manifest_iff m = (
    (λ h. Passes-IsManifest m (validate-Passes m h)),
    (λ v. Passes-validate m (IsManifest-Passes m v)),
  )
