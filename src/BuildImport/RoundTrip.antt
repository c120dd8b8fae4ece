-- ===== src/BuildImport/RoundTrip.antt =====
-- Words that are quoted are read back.
use repotraverse.Prelude.{
  ℕ, ◌≡◌, refl, ap, ◌∙◌, ◌≢◌, inl, inr, false, ◌||◌, some, List, [], ◌∷◌, ◌++◌, append_assoc,
  append-nil, ◌==◌, if◌then◌else◌, Bool-cases, Bytes, All,
}
use repotraverse.BuildImport.{push_word, is_space, response_loop, tokenize_response}

-- A backslash and a quotation mark are written behind a backslash.
abbrev pub escaped : Bytes → Bytes
escaped [] = []
escaped (c ∷ s) = if c == b'\\' || c == b'"' then b'\\' ∷ c ∷ escaped s else c ∷ escaped s

-- Every word between quotation marks, and a space behind it.
abbrev pub quoted : List Bytes → Bytes
quoted [] = []
quoted (w ∷ ws) = b'"' ∷ (escaped w ++ b'"' ∷ b' ' ∷ quoted ws)

plain_step :
    (c : ℕ) (current : Bytes) (result : List Bytes) (input : Bytes)
    → (c == b'\\') ≡ false
    → (c == b'"') ≡ false
    → response_loop false b'"' current result (c ∷ input)
      ≡ response_loop false b'"' (current ++ c ∷ []) result input
unfolding response_loop
plain_step c current result input e f = rw (e, f) refl

open_step :
    (result : List Bytes) (input : Bytes)
    → response_loop false 0 [] result (b'"' ∷ input) ≡ response_loop false b'"' [] result input
unfolding response_loop is_space
open_step result input = refl

space_step :
    (current : Bytes) (result : List Bytes) (input : Bytes)
    → response_loop false 0 current result (b' ' ∷ input)
      ≡ response_loop false 0 [] (push_word current result) input
unfolding response_loop is_space
space_step current result input = refl

loop-escaped :
    (w current : Bytes) (result : List Bytes) (rest : Bytes)
    → response_loop false b'"' current result (escaped w ++ b'"' ∷ rest)
      ≡ response_loop false 0 (current ++ w) result rest
unfolding response_loop
loop-escaped [] current result rest = rw (append-nil current)
loop-escaped (c ∷ w) current result rest =
    let ih : response_loop false b'"' (current ++ c ∷ []) result (escaped w ++ b'"' ∷ rest)
        ≡ response_loop false 0 (current ++ c ∷ w) result rest =
      loop-escaped w (current ++ c ∷ []) result rest
      ∙ ap (λ x. response_loop false 0 x result rest) (append_assoc current (c ∷ []) w) in
    elim (Bool-cases (c == b'\\')) [
      | inl e ↦ rw e ih
      | inr e ↦ elim (Bool-cases (c == b'"')) [
        | inl f ↦ rw (e, f) ih
        | inr f ↦ rw (e, f) (plain_step c current result (escaped w ++ b'"' ∷ rest) e f ∙ ih)
      ]
    ]

push_word-word : (w : Bytes) (result : List Bytes) → w ≢ [] → push_word w result ≡ result ++ w ∷ []
unfolding push_word
push_word-word [] result h = absurd (h refl)
push_word-word (c ∷ w) result h = refl

loop-quoted :
    (ws result : List Bytes)
    → All (λ w. w ≢ []) ws
    → response_loop false 0 [] result (quoted ws) ≡ some (result ++ ws)
loop-quoted [] result h = unfold response_loop push_word in rw (append-nil result)
loop-quoted (w ∷ ws) result (h, hs) =
    open_step result _
    ∙ loop-escaped w [] result (b' ' ∷ quoted ws)
    ∙ space_step w result (quoted ws)
    ∙ ap (λ r. response_loop false 0 [] r (quoted ws)) (push_word-word w result h)
    ∙ loop-quoted ws (result ++ w ∷ []) hs
    ∙ ap some (append_assoc result (w ∷ []) ws)

-- Words that are not empty, written between quotation marks with a backslash before each backslash
-- and quotation mark, are read back.
pub tokenize_response-quoted :
    (ws : List Bytes) → All (λ w. w ≢ []) ws → tokenize_response (quoted ws) ≡ some ws
unfolding tokenize_response
tokenize_response-quoted ws h = loop-quoted ws [] h
