-- ===== src/Ir/Manifest/Examples.antt =====
-- A manifest of one element with one variant and one observation; a digest is the text itself.
use repotraverse.Prelude.{
  ◌≡◌, refl, ◌↔◌, none, some, List, [], ◌∷◌, Bytes, codes, text_eq, is_empty,
}
use repotraverse.Ir.{SourceAnchor, lines}
use repotraverse.Ir.Manifest.{
  LogicalElement, SemanticVariant, TuManifest, ManifestIdentity, all_pass, check_elements,
  check_variants, check_uses, check_contents, validate_tu_manifest,
}
use repotraverse.Ir.Manifest.Valid.{IsManifest}
use repotraverse.Ir.Manifest.Decides.{validate_tu_manifest_iff}

abbrev no_digest : Bytes → Bytes
no_digest s = s

abbrev names_of : ManifestIdentity → Bytes
names_of i = lines (i.repository ∷ i.revision ∷ i.tu ∷ [])

abbrev spot : SourceAnchor
spot = record {
  path = codes "a.c";
  begin_line = 1;
  begin_column = 1;
  end_line = 2;
  end_column = 1;
  role = codes "definition";
}

abbrev element : LogicalElement
element = record {
  element_id = lines (codes "p" ∷ codes "external" ∷ [] ∷ codes "f" ∷ []);
  repository_id = codes "p";
  compiler_id = codes "f";
  kind = codes "function";
  qualified_name = codes "f";
  linkage = codes "external";
  owner_file = codes "a.c";
  parent_element_id = [];
}

abbrev variant : SemanticVariant
variant = record {
  variant_id = lines (element.element_id ∷ codes "i" ∷ codes "b" ∷ codes "d" ∷ []);
  element_id = element.element_id;
  interface_fingerprint = codes "i";
  implementation_fingerprint = codes "b";
  dependency_fingerprint = codes "d";
  referenced_element_ids = [];
}

abbrev manifest : List LogicalElement → TuManifest
manifest elements = record {
  schema_version = 1;
  manifest_id = lines (codes "p" ∷ codes "r" ∷ codes "a.c" ∷ []);
  repository_id = codes "p";
  source_revision = codes "r";
  translation_unit = codes "a.c";
  source_blob = codes "0";
  context_id = codes "x";
  configuration = codes "debug";
  extractor_fingerprint = codes "e";
  producer = record {
    tool_version = [];
    llvm_version = [];
    clang_version = [];
    build_mode = [];
    host_architecture = [];
  };
  build_variant = record { variant_id = []; product = []; target = []; configuration = [] };
  coverage = record { status = codes "complete"; capabilities = []; gaps = [] };
  elements = elements;
  variants = variant ∷ [];
  observations =
      record {
        element_id = element.element_id;
        variant_id = variant.variant_id;
        location = spot;
        observation_id = [];
      }
      ∷ [];
  macro_expansions = [];
}

is_accepted : validate_tu_manifest no_digest names_of (manifest (element ∷ [])) ≡ none
unfolding validate_tu_manifest check_contents check_uses check_elements check_variants all_pass
    text_eq is_empty
is_accepted = refl

is_refused_twice :
    validate_tu_manifest no_digest names_of (manifest (element ∷ element ∷ []))
    ≡ some (codes "manifest contains a duplicate logical element id")
unfolding validate_tu_manifest check_contents check_uses check_elements check_variants all_pass
    text_eq is_empty
is_refused_twice = refl

validate_tu_manifest_iff_example :
    (validate_tu_manifest no_digest names_of (manifest (element ∷ [])) ≡ none)
    ↔ IsManifest no_digest names_of (manifest (element ∷ []))
validate_tu_manifest_iff_example =
    validate_tu_manifest_iff no_digest names_of (manifest (element ∷ []))
