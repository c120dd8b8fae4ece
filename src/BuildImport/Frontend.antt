-- ===== src/BuildImport/Frontend.antt =====
-- src/build_import.cpp: the arguments that normalize keeps.
use repotraverse.Prelude.{
  ◌≡◌, refl, sym, ap, subst, inl, inr, Bool, true, false, ◌&&◌, ◌||◌, none, some, List, [], ◌∷◌,
  ◌++◌, arith, ltb, Bool-cases, Option-cases, Bytes, codes, text_eq, is_empty, contains, has_prefix,
  length, drop,
}
use repotraverse.Worker.{safe_frontend_argument, all_safe}
use repotraverse.BuildImport.Normalize.{
  Files, Action, emits, emits_next, pair_next, path_next, is_kept, classify_frontend,
  source_extensions, output_options, is_irrelevant, classify, push_front, Kept, perform,
  semantic_path, normalize_loop, normalize, expand_response_files, gap, drops, drops_next,
  path_glued, reports,
}
use repotraverse.Ir.{Coverage}
use repotraverse.BuildImport.Allowed.{
  IsFrontend, safe_I, safe_m, is_sound, is_kept-safe, either_option, translated_or-is_sound,
  joined_safe, ends, word, option,
}

module _ (files : Files) (embedded : List (Bytes × Bytes))
    (working_directory repository : Bytes) where
  classify_frontend-is_sound :
      (has_next : Bool) (a : Bytes)
      → is_sound (classify_frontend files embedded working_directory repository has_next a) ≡ true
  unfolding classify_frontend all_safe
  classify_frontend-is_sound has_next a = elim (Bool-cases (has_prefix a (codes "--apcs"))) [
    | inl e ↦ rw e (refl)
    | inr e ↦
        rw e
          (elim (Bool-cases (
            text_eq a (codes "-I")
            || text_eq a (codes "-isystem")
            || text_eq a (codes "-include"))) [
              | inl e ↦ rw e (elim (Bool-cases has_next) [
                | inl n ↦ rw n (
                    either_option a (codes "-I") (codes "-isystem") (codes "-include")
                      (unfold text_eq in refl) (unfold text_eq in refl) (unfold text_eq in refl) e)
                | inr n ↦ rw n refl
              ])
              | inr e ↦
                  rw e
                    (elim (Bool-cases (
                      text_eq a (codes "-D") || text_eq a (codes "-U") || text_eq a (codes "-x"))) [
                        | inl e ↦ rw e (elim (Bool-cases has_next) [
                          | inl n ↦ rw n (
                              either_option a (codes "-D") (codes "-U") (codes "-x")
                                (unfold text_eq in refl) (unfold text_eq in refl)
                                (unfold text_eq in refl) e)
                          | inr n ↦ rw n refl
                        ])
                        | inr e ↦ rw e (elim (Bool-cases (text_eq a (codes "--target"))) [
                          | inl e ↦ rw e (elim (Bool-cases has_next) [
                            | inl n ↦ rw n (unfold text_eq in refl)
                            | inr n ↦ rw n refl
                          ])
                          | inr e ↦ rw e (elim (Bool-cases (text_eq a (codes "--sysroot"))) [
                            | inl e ↦ rw e (elim (Bool-cases has_next) [
                              | inl n ↦ rw n (unfold text_eq in refl)
                              | inr n ↦ rw n refl
                            ])
                            | inr e ↦
                                rw e
                                  (elim (Bool-cases
                                    (has_prefix a (codes "-I") && ltb 2 (length a))) [
                                      | inl e ↦ rw e (refl)
                                      | inr e ↦ rw e (elim (Bool-cases (is_kept a)) [
                                        | inl e ↦ rw e (let safe = is_kept-safe a e in rw safe refl)
                                        | inr e ↦
                                            rw e (elim (Bool-cases (has_prefix a (codes "-"))) [
                                              | inl e ↦ rw e (refl)
                                              | inr e ↦
                                                  rw e
                                                    (elim (Bool-cases (
                                                      contains
                                                        (source_extensions files embedded
                                                          working_directory repository)
                                                        (files.extension a))) [
                                                          | inl e ↦ rw e (refl)
                                                          | inr e ↦ rw e (refl)
                                                        ])
                                            ])
                                      ])
                                    ])
                          ])
                        ])
                      ])
            ])
  ]

  classify-is_sound :
      (has_next : Bool) (a : Bytes)
      → is_sound (classify files embedded working_directory repository has_next a) ≡ true
  unfolding classify all_safe
  classify-is_sound has_next a = elim (Bool-cases (contains output_options a)) [
    | inl e ↦ rw e (elim (Bool-cases has_next) [ inl n ↦ rw n refl | inr n ↦ rw n refl ])
    | inr e ↦ rw e (elim (Bool-cases (is_irrelevant a)) [
      | inl e ↦ rw e (refl)
      | inr e ↦
          rw e
            (elim (Bool-cases
              ((text_eq a (codes "--cpu") || text_eq a (codes "--fpu")) && has_next)) [
                | inl e ↦ rw e (elim (Bool-cases (text_eq a (codes "--cpu"))) [
                  | inl k ↦ rw k (unfold text_eq in refl)
                  | inr k ↦ rw k (unfold text_eq in refl)
                ])
                | inr e ↦ rw e (elim (Bool-cases (has_prefix a (codes "--cpu="))) [
                  | inl e ↦ rw e (let s = safe_m (codes "cpu=" ++ drop 6 a) in rw s refl)
                  | inr e ↦ rw e (elim (Bool-cases (has_prefix a (codes "--fpu="))) [
                    | inl e ↦ rw e (let s = safe_m (codes "fpu=" ++ drop 6 a) in rw s refl)
                    | inr e ↦ rw e (elim (Bool-cases (text_eq a (codes "--cpp"))) [
                      | inl e ↦
                          rw e (unfold safe_frontend_argument text_eq has_prefix is_empty in refl)
                      | inr e ↦ rw e (elim (Bool-cases (text_eq a (codes "--c99"))) [
                        | inl e ↦
                            rw e (unfold safe_frontend_argument text_eq has_prefix is_empty in refl)
                        | inr e ↦
                            rw e (elim (Bool-cases (text_eq a (codes "--preinclude") && has_next)) [
                              | inl e ↦ rw e (unfold text_eq in refl)
                              | inr e ↦ rw e (
                                  translated_or-is_sound a _
                                    (classify_frontend-is_sound has_next a))
                            ])
                      ])
                    ])
                  ])
                ])
              ])
    ])
  ]

  push_front-inv :
      (ws out : List Bytes) (k : Kept) (d : Coverage)
      → push_front ws k ≡ some (out, d)
      → (o : List Bytes) × (k ≡ some (o, d)) × (out ≡ ws ++ o)
  unfolding push_front
  push_front-inv ws out none d h = absurd (ground arith)
  push_front-inv ws out (some (o, c)) d h = (
    o,
    (let same : c ≡ d = ground arith in ap (λ x. some (o, x)) same),
    (let same : ws ++ o ≡ out = ground arith in sym same),
  )

  all_safe-IsFrontend :
      (ws o : List Bytes) → all_safe ws ≡ true → IsFrontend o → IsFrontend (ws ++ o)
  unfolding all_safe
  all_safe-IsFrontend [] o h f = f
  all_safe-IsFrontend (w ∷ ws) o h f =
      word (ground arith) (all_safe-IsFrontend ws o (ground arith) f)

  -- What a continuation gives is a command line of the frontend.
  abbrev Gives : (Coverage → Kept) → Type 0
  Gives k = (c d : Coverage) (out : List Bytes) → k c ≡ some (out, d) → IsFrontend out

  push_front-IsFrontend :
      (ws out : List Bytes) (k : Coverage → Kept) (c d : Coverage)
      → Gives k
      → ((o : List Bytes) → IsFrontend o → IsFrontend (ws ++ o))
      → push_front ws (k c) ≡ some (out, d)
      → IsFrontend out
  push_front-IsFrontend ws out k c d g front h =
      let (o, e, same) = push_front-inv ws out (k c) d h in rw same (front o (g c d o e))

  perform-IsFrontend :
      (act : Action) (v : Bytes) (out : List Bytes) (one two : Coverage → Kept) (c d : Coverage)
      → is_sound act ≡ true
      → Gives one
      → Gives two
      → perform files embedded working_directory repository act v one two c ≡ some (out, d)
      → IsFrontend out
  unfolding perform
  perform-IsFrontend drops v out one two c d s g k h = g c d out h
  perform-IsFrontend drops_next v out one two c d s g k h = k c d out h
  perform-IsFrontend (emits ws) v out one two c d s g k h =
      push_front-IsFrontend ws out one c d g (λ o f. all_safe-IsFrontend ws o s f) h
  perform-IsFrontend (emits_next p) v out one two c d s g k h =
      push_front-IsFrontend ((p ++ v) ∷ []) out two c d k (λ o f. word (joined_safe p v s) f) h
  perform-IsFrontend (pair_next o) v out one two c d s g k h =
      push_front-IsFrontend (o ∷ v ∷ []) out two c d k (λ r f. option s f) h
  perform-IsFrontend (path_next o) v out one two c d s g k h =
      elim (Option-cases (semantic_path files embedded working_directory repository v c)) [
        | inl e ↦ let bad : none ≡ some (out, d) = rw (perform, e) at h in cc
        | inr ((path, b), e) ↦
            push_front-IsFrontend (o ∷ path ∷ []) out two b d k (λ r f. option s f)
              (rw (perform, e) at h)
      ]
  perform-IsFrontend (path_glued value) v out one two c d s g k h =
      elim (Option-cases (semantic_path files embedded working_directory repository value c)) [
        | inl e ↦ let bad : none ≡ some (out, d) = rw (perform, e) at h in cc
        | inr ((path, b), e) ↦
            push_front-IsFrontend ((codes "-I" ++ path) ∷ []) out one b d g
              (λ r f. word (safe_I path) f) (rw (perform, e) at h)
      ]
  perform-IsFrontend (reports message) v out one two c d s g k h = g (gap c message) d out h

  nothing_left : Gives (λ d. some ([], d))
  nothing_left c d out h = let same : [] ≡ out = ground arith in subst IsFrontend same ends

  normalize_loop-IsFrontend :
      (input : List Bytes)
      → Gives (normalize_loop files embedded working_directory repository input)
  unfolding normalize_loop
  normalize_loop-IsFrontend [] c d out h = nothing_left c d out h
  normalize_loop-IsFrontend (a ∷ []) c d out h =
      perform-IsFrontend (classify files embedded working_directory repository false a) [] out _ _ c
        d (classify-is_sound false a) nothing_left nothing_left h
  normalize_loop-IsFrontend (a ∷ v ∷ rest) c d out h =
      perform-IsFrontend (classify files embedded working_directory repository true a) v out _ _ c d
        (classify-is_sound true a) (normalize_loop-IsFrontend (v ∷ rest))
        (normalize_loop-IsFrontend rest) h

  -- The arguments that normalize keeps of a captured command, whatever it contains, are words that
  -- safe_frontend_argument of the worker admits, and options of a value each with any value.
  pub normalize-IsFrontend :
      (captured out : List Bytes) (c d : Coverage)
      → normalize files embedded working_directory repository captured c ≡ some (out, d)
      → IsFrontend out
  unfolding normalize
  normalize-IsFrontend captured out c d h =
      elim (Option-cases
        (expand_response_files files embedded working_directory repository captured c)) [
          | inl e ↦ let bad : none ≡ some (out, d) = rw (normalize, e) at h in cc
          | inr ((input, b), e) ↦ normalize_loop-IsFrontend input b d out (rw (normalize, e) at h)
        ]
