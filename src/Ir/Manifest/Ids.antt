-- ===== src/Ir/Manifest/Ids.antt =====
-- src/ir.cpp: the sets of ids that validate_tu_manifest gathers.
use repotraverse.Prelude.{
  ◌≡◌, refl, sym, ap, ◌∙◌, ◌≢◌, ◌↔◌, ◌⊎◌, inl, inr, Bool, true, false, ◌||◌, List, [], ◌∷◌, ◌++◌,
  append_assoc, append-nil, arith, Bool-cases, Bytes, text_eq, text_eq_iff, is_empty, contains, All,
  All-mono,
}
use repotraverse.Ir.Manifest.{
  all_pass, ManifestIdentity, SemanticVariant, LogicalElement, Checked, check_variants,
  check_elements, refused, is_variant, passed, TuManifest, is_element,
}

-- The text is one of the list.
abbrev pub OneOf : Bytes → List Bytes → Type 0
OneOf s [] = ⊥
OneOf s (t ∷ ts) = (t ≡ s) ⊎ OneOf s ts

-- No text stands twice in the list.
abbrev pub AreDistinct : List Bytes → Type 0
AreDistinct [] = Unit
AreDistinct (s ∷ ss) = ¬ OneOf s ss × AreDistinct ss

pub contains_iff : (ts : List Bytes) (s : Bytes) → (contains ts s ≡ true) ↔ OneOf s ts
contains_iff [] s = ((λ h. ground arith), (λ h. absurd h))
contains_iff (t ∷ ts) s =
    let (to, from) = contains_iff ts s in
    let (same, eq) = text_eq_iff t s in
    (
      (λ h. elim (Bool-cases (text_eq t s)) [
        | inl e ↦ inl (same e)
        | inr e ↦ inr (to (ground arith))
      ]),
      (λ h. elim h [
        | inl e ↦ let k = eq e in ground arith
        | inr o ↦ let k = from o in ground arith
      ]),
    )

contains_append :
    (ts us : List Bytes) (s : Bytes) → contains (ts ++ us) s ≡ (contains ts s || contains us s)
contains_append [] us s = refl
contains_append (t ∷ ts) us s = let ih = contains_append ts us s in ground arith

-- Each text is new to those before it and to the set.
abbrev pub AreFresh : List Bytes → List Bytes → Type 0
AreFresh ids [] = Unit
AreFresh ids (s ∷ ss) = (contains ids s ≡ false) × AreFresh (ids ++ s ∷ []) ss

AreFresh-AreDistinct :
    (ids ss : List Bytes) → AreFresh ids ss → AreDistinct ss × All (λ s. contains ids s ≡ false) ss
AreFresh-AreDistinct ids [] h = (tt, tt)
AreFresh-AreDistinct ids (s ∷ ss) (h, hs) =
    let (d, a) = AreFresh-AreDistinct (ids ++ s ∷ []) ss hs in
    let (apart, old) = split ss a in ((apart, d), (h, old))
  where
    split :
        (us : List Bytes)
        → All (λ u. contains (ids ++ s ∷ []) u ≡ false) us
        → ¬ OneOf s us × All (λ u. contains ids u ≡ false) us
    split [] k = ((λ o. o), tt)
    split (u ∷ us) (k, ks) =
        let (apart, old) = split us ks in
        let e = contains_append ids (s ∷ []) u in
        let own = (text_eq_iff s u).1 in
        (
          (λ o. elim o [
            | inl same ↦ let yes = own (sym same) in ground arith
            | inr far ↦ apart far
          ]),
          (ground arith, old),
        )

AreDistinct-AreFresh :
    (ids ss : List Bytes) → AreDistinct ss → All (λ s. contains ids s ≡ false) ss → AreFresh ids ss
AreDistinct-AreFresh ids [] d a = tt
AreDistinct-AreFresh ids (s ∷ ss) (n, d) (h, hs) =
    (h, AreDistinct-AreFresh (ids ++ s ∷ []) ss d (join ss n hs))
  where
    join :
        (us : List Bytes)
        → ¬ OneOf s us
        → All (λ u. contains ids u ≡ false) us
        → All (λ u. contains (ids ++ s ∷ []) u ≡ false) us
    join [] n k = tt
    join (u ∷ us) n (k, ks) = (
      (elim (Bool-cases (text_eq s u)) [
        | inl e ↦ absurd (n (inl (sym ((text_eq_iff s u).0 e))))
        | inr e ↦ let f = contains_append ids (s ∷ []) u in ground arith
      ]),
      join us (λ o. n (inr o)) ks,
    )

pub AreFresh-iff : (ss : List Bytes) → AreFresh [] ss ↔ AreDistinct ss
AreFresh-iff ss =
    ((λ h. (AreFresh-AreDistinct [] ss h).0), (λ d. AreDistinct-AreFresh [] ss d (nothing ss)))
  where
    nothing : (us : List Bytes) → All (λ u. contains [] u ≡ false) us
    nothing [] = tt
    nothing (u ∷ us) = (refl, nothing us)

pub all_pass_iff {ℓ} :
    {A : Type ℓ} (test : A → Bool) (xs : List A)
    → (all_pass test xs ≡ true) ↔ All (λ x. test x ≡ true) xs
unfolding all_pass
all_pass_iff test [] = ((λ _. tt), (λ _. refl))
all_pass_iff test (x ∷ xs) =
    let (to, from) = all_pass_iff test xs in
    ((λ h. (ground arith, to (ground arith))), (λ (h, hs). let k = from hs in ground arith))

pub All-iff {ℓ} :
    {A : Type ℓ} (P Q : A → Type 0) (xs : List A) → ((x : A) → P x ↔ Q x) → All P xs ↔ All Q xs
All-iff P Q xs f = (All-mono P Q xs (λ x. (f x).0), All-mono Q P xs (λ x. (f x).1))

pub empty_iff : (s : Bytes) → (is_empty s ≡ true) ↔ (s ≡ [])
unfolding is_empty
empty_iff [] = ((λ _. refl), (λ _. refl))
empty_iff (c ∷ s) = ((λ h. ground arith), (λ h. ground arith))

pub not_empty_iff : (s : Bytes) → (is_empty s ≡ false) ↔ (s ≢ [])
not_empty_iff s =
    let (to, from) = empty_iff s in
    (
      (λ h e. let k = from e in ground arith),
      (λ h. elim (Bool-cases (is_empty s)) [ inl e ↦ absurd (h (to e)) | inr e ↦ e ]),
    )

abbrev pub element_ids : List LogicalElement → List Bytes
element_ids [] = []
element_ids (e ∷ es) = e.element_id ∷ element_ids es

abbrev pub variant_ids : List SemanticVariant → List Bytes
variant_ids [] = []
variant_ids (v ∷ vs) = v.variant_id ∷ variant_ids vs

pub Checked-cases :
    (c : Checked) → ((s : Bytes) × (c ≡ refused s)) ⊎ ((ids : List Bytes) × (c ≡ passed ids))
Checked-cases (refused s) = inl (s, refl)
Checked-cases (passed ids) = inr (ids, refl)

-- The set of ids and the texts of a loop that ended well.
pub record Admits {ℓ} (A : Type ℓ) (P : A → Type 0) (ids_of : List A → List Bytes)
    (ids r : List Bytes) (xs : List A) : Type ℓ where
  pub each : All P xs
  pub fresh : AreFresh ids (ids_of xs)
  pub gathered : r ≡ ids ++ ids_of xs

module _ (stable_hash : Bytes → Bytes) (dump : ManifestIdentity → Bytes) where
  pub check_elements-Admits :
      (m : TuManifest) (ids r : List Bytes) (es : List LogicalElement)
      → check_elements stable_hash dump m ids es ≡ passed r
      → Admits LogicalElement (λ e. is_element stable_hash dump m e ≡ true) element_ids ids r es
  unfolding check_elements
  check_elements-Admits m ids r [] h = record {
    each = tt;
    fresh = tt;
    gathered = let same : ids ≡ r = ground arith in sym same ∙ sym (append-nil ids);
  }
  check_elements-Admits m ids r (e ∷ es) h = elim (Bool-cases (is_element stable_hash dump m e)) [
    | inr bad ↦ absurd (ground arith)
    | inl good ↦ elim (Bool-cases (contains ids e.element_id)) [
      | inl twice ↦ absurd (ground arith)
      | inr new ↦
          let rest = check_elements-Admits m (ids ++ e.element_id ∷ []) r es (ground arith) in
          record {
            each = (good, rest.each);
            fresh = (new, rest.fresh);
            gathered = rest.gathered ∙ append_assoc ids (e.element_id ∷ []) (element_ids es);
          }
    ]
  ]

  pub Admits-check_elements :
      (m : TuManifest) (ids : List Bytes) (es : List LogicalElement)
      → All (λ e. is_element stable_hash dump m e ≡ true) es
      → AreFresh ids (element_ids es)
      → check_elements stable_hash dump m ids es ≡ passed (ids ++ element_ids es)
  unfolding check_elements
  Admits-check_elements m ids [] a f = ap passed (sym (append-nil ids))
  Admits-check_elements m ids (e ∷ es) (a, aa) (f, fs) =
      let rest = Admits-check_elements m (ids ++ e.element_id ∷ []) es aa fs in
      rw (a, f) (rest ∙ ap passed (append_assoc ids (e.element_id ∷ []) (element_ids es)))

  pub check_variants-Admits :
      (elements ids r : List Bytes) (vs : List SemanticVariant)
      → check_variants stable_hash dump elements ids vs ≡ passed r
      → Admits SemanticVariant
          (λ v. is_variant stable_hash dump elements v ≡ true)
          variant_ids
          ids
          r
          vs
  unfolding check_variants
  check_variants-Admits elements ids r [] h = record {
    each = tt;
    fresh = tt;
    gathered = let same : ids ≡ r = ground arith in sym same ∙ sym (append-nil ids);
  }
  check_variants-Admits elements ids r (v ∷ vs) h =
      elim (Bool-cases (is_variant stable_hash dump elements v)) [
        | inr bad ↦ absurd (ground arith)
        | inl good ↦ elim (Bool-cases (contains ids v.variant_id)) [
          | inl twice ↦ absurd (ground arith)
          | inr new ↦
              let rest =
                check_variants-Admits elements (ids ++ v.variant_id ∷ []) r vs (ground arith) in
              record {
                each = (good, rest.each);
                fresh = (new, rest.fresh);
                gathered = rest.gathered ∙ append_assoc ids (v.variant_id ∷ []) (variant_ids vs);
              }
        ]
      ]

  pub Admits-check_variants :
      (elements ids : List Bytes) (vs : List SemanticVariant)
      → All (λ v. is_variant stable_hash dump elements v ≡ true) vs
      → AreFresh ids (variant_ids vs)
      → check_variants stable_hash dump elements ids vs ≡ passed (ids ++ variant_ids vs)
  unfolding check_variants
  Admits-check_variants elements ids [] a f = ap passed (sym (append-nil ids))
  Admits-check_variants elements ids (v ∷ vs) (a, aa) (f, fs) =
      let rest = Admits-check_variants elements (ids ++ v.variant_id ∷ []) vs aa fs in
      rw (a, f) (rest ∙ ap passed (append_assoc ids (v.variant_id ∷ []) (variant_ids vs)))
