-- ===== src/BuildImport.antt =====
-- src/build_import.cpp: the words of a response file, and below it the arguments that are kept.
pub mod RoundTrip
pub mod Normalize
pub mod Allowed
pub mod Frontend
mod Examples
use repotraverse.Prelude.{
  ℕ, zero, suc, ◌+◌, ◌-◌, ◌*◌, ◌/◌, ◌%◌, ◌^◌, ◌≤◌, ◌<◌, ◌≡◌, refl, sym, ap, ◌∙◌, subst, ◌≢◌, ◌↔◌,
  ◌⊎◌, inl, inr, Bool, true, false, ◌&&◌, ◌||◌, not, Option, none, some, List, [], ◌∷◌, ◌++◌, map,
  append_assoc, append-nil, arith, ltb, leb, ◌==◌, within, if◌then◌else◌, ltb→lt, lt→ltb, leb→le,
  ==_iff, Bool-cases, Option-cases, Bytes, codes, text_eq, text_eq_iff, is_empty, contains,
  has_prefix, length, take, drop, length-append, take-append, drop-append, All, All-append,
  All-mono, get_elem?, All-get_elem?, Listed,
}

-- The end of a word: nothing is pushed for an empty one.
pub push_word : Bytes → List Bytes → List Bytes
push_word [] result = result
push_word (c ∷ current) result = result ++ (c ∷ current) ∷ []

is_space : ℕ → Bool
is_space c = c == b' ' || c == b'\t' || c == b'\r' || c == b'\n'

-- The loop over the input with `escaped`, `quote`, `current` and `result`; `none` where it throws.
response_loop : Bool → ℕ → Bytes → List Bytes → Bytes → Option (List Bytes)
response_loop escaped quote current result [] =
    if escaped || not (quote == 0) then none else some (push_word current result)
response_loop escaped quote current result (c ∷ input) =
    let pushed = response_loop false quote (current ++ c ∷ []) result input in
    let escape = response_loop true quote current result input in
    let closed = response_loop false 0 current result input in
    let opened = response_loop false c current result input in
    let ended = response_loop false quote [] (push_word current result) input in
    if escaped
    then pushed
    else if c == b'\\' && not (quote == b'\'')
    then escape
    else if not (quote == 0)
    then (if c == quote then closed else pushed)
    else if c == b'\'' || c == b'"'
    then opened
    else if is_space c
    then ended
    else pushed

pub tokenize_response : Bytes → Option (List Bytes)
tokenize_response input = response_loop false 0 [] [] input
