-- ===== src/BuildImport/Examples.antt =====
-- A response file of two words, one with a space and a quotation mark in it.
use repotraverse.Prelude.{
  ◌≡◌, refl, false, none, some, List, [], ◌∷◌, ◌++◌, arith, if◌then◌else◌, Bytes, codes, text_eq,
  is_empty, has_prefix,
}
use repotraverse.BuildImport.{tokenize_response}
use repotraverse.BuildImport.RoundTrip.{quoted, tokenize_response-quoted}
use repotraverse.Ir.{Coverage}
use repotraverse.BuildImport.Normalize.{
  Files, normalize, expand_response_files, push_front, normalize_loop, perform, classify,
  classify_frontend, is_irrelevant, is_kept, translated_or, find_text, semantic_path, safe_relative,
  with_coverage, gap,
}
use repotraverse.BuildImport.Allowed.{IsFrontend}
use repotraverse.BuildImport.Frontend.{normalize-IsFrontend}

abbrev words : List Bytes
words = codes "-c" ∷ (b'a' ∷ b' ' ∷ b'"' ∷ []) ∷ []

tokenize_response-quoted_example : tokenize_response (quoted words) ≡ some words
tokenize_response-quoted_example =
    tokenize_response-quoted words ((λ e. ground arith), ((λ e. ground arith), tt))

-- Paths are texts here, and a file is not there.
abbrev plain_files : Files
plain_files = record {
  extension = λ s. if text_eq s (codes "a.c") then codes ".c" else [];
  lexically_normal = λ s. s;
  is_absolute = λ s. false;
  first_part = λ s. s;
  join = λ s t. s ++ b'/' ∷ t;
  relative = λ s t. none;
  read_small_file = λ s. none;
}

abbrev captured : List Bytes
captured =
    codes "--c99" ∷ codes "-I" ∷ codes "inc" ∷ codes "-fplugin=x" ∷ codes "-DX" ∷ codes "a.c" ∷ []

abbrev no_gaps : Coverage
no_gaps = record { status = codes "complete"; capabilities = []; gaps = [] }

kept :
    (out : List Bytes) × (d : Coverage) × (normalize plain_files [] (codes "w") [] captured no_gaps
      ≡ some (out, d))
unfolding normalize expand_response_files push_front normalize_loop perform classify
    classify_frontend is_irrelevant is_kept translated_or find_text semantic_path safe_relative
    with_coverage gap has_prefix text_eq is_empty
kept = (_, _, refl)

kept_words : kept.0 ≡ (codes "-std=c99" ∷ codes "-I" ∷ codes "w/inc" ∷ codes "-DX" ∷ [])
unfolding kept normalize expand_response_files push_front normalize_loop perform classify
    classify_frontend is_irrelevant is_kept translated_or find_text semantic_path safe_relative
    with_coverage gap has_prefix text_eq is_empty
kept_words = refl

normalize-IsFrontend_example : IsFrontend kept.0
normalize-IsFrontend_example =
    normalize-IsFrontend plain_files [] (codes "w") [] captured kept.0 no_gaps kept.1 kept.2
