-- ===== src/HistoryPlan/Paths.antt =====
-- src/history_plan.cpp: which paths are sources and which belong to the build. `filename` and
-- `extension` are those of `std::filesystem::path`.
use repotraverse.Prelude.{
  ℕ, ◌+◌, Bool, true, false, ◌&&◌, ◌||◌, List, [], ◌∷◌, map, ◌==◌, within, if◌then◌else◌, Bytes,
  codes, text_eq, contains,
}
use repotraverse.HistoryPlan.Records.{ChangedPath}

-- `std::tolower` in the C locale.
to_lower : ℕ → ℕ
to_lower c = if within b'A' b'Z' c then c + 32 else c

starts_with : Bytes → Bytes → Bool
starts_with s [] = true
starts_with [] (p ∷ ps) = false
starts_with (c ∷ s) (p ∷ ps) = c == p && starts_with s ps

abbrev extensions : List Bytes
extensions =
    codes ".asm"
    ∷ codes ".c"
    ∷ codes ".cc"
    ∷ codes ".cpp"
    ∷ codes ".cxx"
    ∷ codes ".h"
    ∷ codes ".hh"
    ∷ codes ".hpp"
    ∷ codes ".hxx"
    ∷ codes ".inc"
    ∷ codes ".inl"
    ∷ codes ".ipp"
    ∷ codes ".s"
    ∷ codes ".tpp"
    ∷ []

abbrev build_extensions : List Bytes
build_extensions =
    codes ".cmake"
    ∷ codes ".mk"
    ∷ codes ".mak"
    ∷ codes ".sln"
    ∷ codes ".vcxproj"
    ∷ codes ".props"
    ∷ codes ".targets"
    ∷ []

module _ (filename extension : Bytes → Bytes) where
  pub source_path : Bytes → Bool
  source_path path = contains extensions (extension (map to_lower path))

  pub build_path : Bytes → Bool
  build_path path =
      let lower = map to_lower path in
      starts_with (filename lower) (codes "makefile")
      || text_eq (filename lower) (codes "gnumakefile")
      || text_eq (filename lower) (codes "cmakelists.txt")
      || contains build_extensions (extension lower)

-- The loops that set `has_source` and `has_build`: some change has such a path, new or old.
pub any_path : (Bytes → Bool) → List ChangedPath → Bool
any_path test [] = false
any_path test (c ∷ cs) = test c.path || test c.old_path || any_path test cs
