-- ===== src/Lineage/Samples.antt =====
-- Snapshots for the tests: functions of one shape, told apart by identity and path.
use repotraverse.Prelude.{List, [], ◌∷◌, Bytes, codes}
use repotraverse.Ir.{ElementSnapshot, EvidenceBundle, LineageAssertion}

abbrev pub element : Bytes → Bytes → ElementSnapshot
element id path = record {
  compiler_id = id;
  parent_element_id = [];
  kind = codes "function";
  qualified_name = codes "f";
  linkage = codes "external";
  interface_fingerprint = codes "i";
  implementation_fingerprint = id;
  dependency_fingerprint = codes "d";
  location = record {
    path = path;
    begin_line = 10;
    begin_column = 1;
    end_line = 20;
    end_column = 1;
    role = codes "spelling";
  };
  referenced_compiler_ids = [];
}

abbrev pub bundle : Bytes → List ElementSnapshot → EvidenceBundle
bundle revision elements = record {
  schema_version = 1;
  source_revision = revision;
  configuration = codes "arm";
  context_fingerprint = codes "c";
  extractor_fingerprint = [];
  producer = record {
    tool_version = [];
    llvm_version = [];
    clang_version = [];
    build_mode = [];
    host_architecture = [];
  };
  coverage = record { status = codes "complete"; capabilities = []; gaps = [] };
  elements = elements;
}

-- `a` moves to another file, `b` goes and `c` comes.
abbrev pub earlier : EvidenceBundle
earlier =
    bundle (codes "1")
      (element (codes "a") (codes "x.cpp") ∷ element (codes "b") (codes "x.cpp") ∷ [])

abbrev pub later : EvidenceBundle
later =
    bundle (codes "2")
      (element (codes "c") (codes "x.cpp") ∷ element (codes "a") (codes "y.cpp") ∷ [])

-- `b` is said to be `c` now.
abbrev pub accepted : LineageAssertion
accepted = record {
  assertion_id = codes "1";
  before_element = codes "b";
  after_element = codes "c";
  relation = codes "same_element";
  status = codes "accepted";
  created_by = [];
  reviewed_by = [];
}
