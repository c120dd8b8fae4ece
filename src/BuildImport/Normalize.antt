-- ===== src/BuildImport/Normalize.antt =====
-- src/build_import.cpp: the frontend arguments that are kept of a captured command.
use repotraverse.Prelude.{
  Bool, true, false, ◌&&◌, ◌||◌, not, Option, none, some, List, [], ◌∷◌, ◌++◌, ltb, if◌then◌else◌,
  Bytes, codes, text_eq, is_empty, contains, has_prefix, length, drop,
}
use repotraverse.Ir.{Coverage}
use repotraverse.BuildImport.{tokenize_response}

unfoldable pub gap : Coverage → Bytes → Coverage
gap c message = record c {
  status = codes "partial";
  gaps = if contains c.gaps message then c.gaps else c.gaps ++ message ∷ [];
}

-- Paths, and the text of a file below the repository; `none` is an error or an exception.
pub record Files : Type 0 where
  pub extension : Bytes → Bytes
  pub lexically_normal : Bytes → Bytes
  pub is_absolute : Bytes → Bool
  pub first_part : Bytes → Bytes
  pub join : Bytes → Bytes → Bytes
  pub relative : Bytes → Bytes → Option Bytes
  pub read_small_file : Bytes → Option Bytes

abbrev pub Kept : Type 0
Kept = Option (List Bytes × Coverage)

unfoldable pub push_front : List Bytes → Kept → Kept
push_front ws none = none
push_front ws (some (out, c)) = some (ws ++ out, c)

-- What becomes of one argument; `next` in a name is the argument behind it, which is consumed.
pub data Action : Type 0 where
  drops : Action
  drops_next : Action
  emits : List Bytes → Action
  emits_next : Bytes → Action
  pair_next : Bytes → Action
  path_next : Bytes → Action
  path_glued : Bytes → Action
  reports : Bytes → Action

abbrev pub output_options : List Bytes
output_options =
    codes "-o"
    ∷ codes "--output"
    ∷ codes "--depend"
    ∷ codes "--depend_dir"
    ∷ codes "--list"
    ∷ codes "--list_dir"
    ∷ []

unfoldable pub is_irrelevant : Bytes → Bool
is_irrelevant a =
    text_eq a (codes "-c")
    || text_eq a (codes "-E")
    || text_eq a (codes "-S")
    || has_prefix a (codes "-W")
    || has_prefix a (codes "-O")
    || has_prefix a (codes "-g")
    || has_prefix a (codes "--diag_")
    || has_prefix a (codes "--remarks")
    || has_prefix a (codes "--depend=")
    || has_prefix a (codes "--list=")
    || has_prefix a (codes "--output=")
    || (has_prefix a (codes "-o") && ltb 2 (length a))

abbrev pub translations : List (Bytes × Bytes)
translations =
    (codes "--signed_chars", codes "-fsigned-char")
    ∷ (codes "--unsigned_chars", codes "-funsigned-char")
    ∷ (codes "--enum_is_int", codes "-fno-short-enums")
    ∷ (codes "--wchar32", codes "-fno-short-wchar")
    ∷ (codes "--exceptions", codes "-fexceptions")
    ∷ (codes "--no_exceptions", codes "-fno-exceptions")
    ∷ (codes "--rtti", codes "-frtti")
    ∷ (codes "--no_rtti", codes "-fno-rtti")
    ∷ []

-- `find` of a map.
unfoldable pub find_text : Bytes → List (Bytes × Bytes) → Option Bytes
find_text key [] = none
find_text key ((k, v) ∷ kvs) = if text_eq k key then some v else find_text key kvs

unfoldable pub translated_or : Action → Option Bytes → Action
translated_or other none = other
translated_or other (some word) = emits (word ∷ [])

unfoldable pub is_kept : Bytes → Bool
is_kept a =
    has_prefix a (codes "-D")
    || has_prefix a (codes "-U")
    || has_prefix a (codes "-std=")
    || has_prefix a (codes "--target=")
    || text_eq a (codes "-mthumb")
    || text_eq a (codes "-marm")
    || text_eq a (codes "-mbig-endian")
    || text_eq a (codes "-mlittle-endian")
    || has_prefix a (codes "-mcpu=")
    || has_prefix a (codes "-mfpu=")
    || has_prefix a (codes "-mfloat-abi=")

abbrev pub missing_value : Bytes → Bytes
missing_value a = codes "missing value for semantic option: " ++ a

module _ (files : Files) (embedded : List (Bytes × Bytes))
    (working_directory repository : Bytes) where
  abbrev pub source_extensions : List Bytes
  source_extensions =
      codes ".c"
      ∷ codes ".cc"
      ∷ codes ".cpp"
      ∷ codes ".cxx"
      ∷ codes ".C"
      ∷ codes ".s"
      ∷ codes ".S"
      ∷ []

  abbrev pub source_argument : Bytes → Bool
  source_argument a = contains source_extensions (files.extension a)

  unfoldable pub safe_relative : Bytes → Option Bytes
  safe_relative path =
      let normal = files.lexically_normal path in
      if is_empty normal
      then some (codes ".")
      else if files.is_absolute normal || text_eq (files.first_part normal) (codes "..")
      then none
      else some normal

  unfoldable pub with_coverage : Coverage → Option Bytes → Option (Bytes × Coverage)
  with_coverage c none = none
  with_coverage c (some path) = some (path, c)

  unfoldable pub semantic_path : Bytes → Coverage → Option (Bytes × Coverage)
  semantic_path value c =
      if not (files.is_absolute value)
      then with_coverage c (safe_relative (files.join working_directory value))
      else if is_empty repository
      then some (value, gap c (codes "absolute semantic path cannot be made portable: " ++ value))
      else elim (files.relative value repository) [
        | none ↦ some (value, gap c (codes "semantic path is outside the repository: " ++ value))
        | some path ↦
            if is_empty path || text_eq (files.first_part path) (codes "..")
            then some (value, gap c (codes "semantic path is outside the repository: " ++ value))
            else with_coverage c (safe_relative path)
      ]

  -- The words of a response file that is embedded or in the repository, without nested ones.
  unfoldable pub no_nested : Option (List Bytes) → Option (List Bytes)
  no_nested none = none
  no_nested (some []) = some []
  no_nested (some (w ∷ ws)) =
      let rest = no_nested (some ws) in
      if has_prefix w (codes "@") then none else elim rest [ none ↦ none | some vs ↦ some (w ∷ vs) ]

  unfoldable pub response_content : Bytes → Bytes → Option Bytes
  response_content name path = elim (find_text name embedded) [
    | some content ↦ some content
    | none ↦ files.read_small_file (files.join repository path)
  ]

  unfoldable pub response_words : Bytes → Option (List Bytes)
  response_words name = elim (safe_relative (files.join working_directory name)) [
    | none ↦ none
    | some path ↦ elim (response_content name path) [
      | none ↦ none
      | some content ↦ no_nested (tokenize_response content)
    ]
  ]

  abbrev pub is_embedded : Bytes → Bool
  is_embedded name = elim (find_text name embedded) [ none ↦ false | some content ↦ true ]

  unfoldable pub expand_response_files : List Bytes → Coverage → Kept
  expand_response_files [] c = some ([], c)
  expand_response_files (a ∷ rest) c =
      let kept = push_front (a ∷ []) (expand_response_files rest c) in
      let without =
        expand_response_files rest
          (gap c (codes "response file requires repository path: " ++ a)) in
      let expanded =
        expand_response_files rest
          (record c { capabilities = c.capabilities ++ codes "response_files_expanded" ∷ [] }) in
      if not (has_prefix a (codes "@"))
      then kept
      else if is_empty repository && not (is_embedded (drop 1 a))
      then without
      else elim (response_words (drop 1 a)) [ none ↦ none | some ws ↦ push_front ws expanded ]

  -- The tests of `normalize` on options of the frontend; the flag says that another argument follows.
  unfoldable pub classify_frontend : Bool → Bytes → Action
  classify_frontend has_next a =
      if has_prefix a (codes "--apcs")
      then reports (codes "unsupported armcc APCS option: " ++ a)
      else if text_eq a (codes "-I") || text_eq a (codes "-isystem") || text_eq a (codes "-include")
      then (if has_next then path_next a else reports (missing_value a))
      else if text_eq a (codes "-D") || text_eq a (codes "-U") || text_eq a (codes "-x")
      then (if has_next then pair_next a else reports (missing_value a))
      else if text_eq a (codes "--target")
      then (if has_next then emits_next (codes "--target=") else reports (missing_value a))
      else if text_eq a (codes "--sysroot")
      then (if has_next then path_next (codes "--sysroot") else reports (missing_value a))
      else if has_prefix a (codes "-I") && ltb 2 (length a)
      then path_glued (drop 2 a)
      else if is_kept a
      then emits (a ∷ [])
      else if has_prefix a (codes "-")
      then reports (codes "untranslated frontend option: " ++ a)
      else if source_argument a
      then drops
      else reports (codes "unclassified compiler input: " ++ a)

  -- The tests of `normalize`, those of armcc before them.
  unfoldable pub classify : Bool → Bytes → Action
  classify has_next a =
      if contains output_options a
      then (if has_next then drops_next else drops)
      else if is_irrelevant a
      then drops
      else if (text_eq a (codes "--cpu") || text_eq a (codes "--fpu")) && has_next
      then emits_next (if text_eq a (codes "--cpu") then codes "-mcpu=" else codes "-mfpu=")
      else if has_prefix a (codes "--cpu=")
      then emits ((codes "-mcpu=" ++ drop 6 a) ∷ [])
      else if has_prefix a (codes "--fpu=")
      then emits ((codes "-mfpu=" ++ drop 6 a) ∷ [])
      else if text_eq a (codes "--cpp")
      then emits (codes "-x" ∷ codes "c++" ∷ [])
      else if text_eq a (codes "--c99")
      then emits (codes "-std=c99" ∷ [])
      else if text_eq a (codes "--preinclude") && has_next
      then path_next (codes "-include")
      else translated_or (classify_frontend has_next a) (find_text a translations)

  unfoldable pub perform : Action → Bytes → (Coverage → Kept) → (Coverage → Kept) → Coverage → Kept
  perform drops v one two c = one c
  perform drops_next v one two c = two c
  perform (emits ws) v one two c = push_front ws (one c)
  perform (emits_next prefix) v one two c = push_front ((prefix ++ v) ∷ []) (two c)
  perform (pair_next option) v one two c = push_front (option ∷ v ∷ []) (two c)
  perform (path_next option) v one two c = elim (semantic_path v c) [
    | none ↦ none
    | some (path, d) ↦ push_front (option ∷ path ∷ []) (two d)
  ]
  perform (path_glued value) v one two c = elim (semantic_path value c) [
    | none ↦ none
    | some (path, d) ↦ push_front ((codes "-I" ++ path) ∷ []) (one d)
  ]
  perform (reports message) v one two c = one (gap c message)

  unfoldable pub normalize_loop : List Bytes → Coverage → Kept
  normalize_loop [] c = some ([], c)
  normalize_loop (a ∷ []) c =
      perform (classify false a) [] (λ d. some ([], d)) (λ d. some ([], d)) c
  normalize_loop (a ∷ v ∷ rest) c =
      perform (classify true a) v (λ d. normalize_loop (v ∷ rest) d) (λ d. normalize_loop rest d) c

  unfoldable pub normalize : List Bytes → Coverage → Kept
  normalize captured c = elim (expand_response_files captured c) [
    | none ↦ none
    | some (input, d) ↦ normalize_loop input d
  ]
