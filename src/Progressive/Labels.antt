-- ===== src/Progressive/Labels.antt =====
-- When a list of patterns matches, and when labels are in conflict.
use repotraverse.Prelude.{
  ℕ, zero, suc, ◌≡◌, refl, sym, subst, ◌↔◌, inl, inr, Bool, true, false, Option, none, some, List,
  [], ◌∷◌, arith, Bool-cases, Bytes, codes, get_elem?, Listed,
}
use repotraverse.Progressive.{wildcard, matches, Partition, developer_label, label_of}
use repotraverse.Progressive.Wildcard.{Matches, wildcard_iff}

-- Some pattern of the list matches the path.
abbrev pub AnyMatches : Option (List Bytes) → Bytes → Type 0
AnyMatches none path = ⊥
AnyMatches (some ps) path = (p : Bytes) × Listed p ps × Matches p path

matches_sound :
    (ps : List Bytes) (path : Bytes) → matches (some ps) path ≡ true → AnyMatches (some ps) path
unfolding matches
matches_sound [] path h = absurd (ground arith)
matches_sound (p ∷ ps) path h = elim (Bool-cases (wildcard p path)) [
  | inl e ↦ (p, (0, refl), (wildcard_iff p path).0 e)
  | inr e ↦ let (q, (i, k), m) = matches_sound ps path (ground arith) in (q, (suc i, k), m)
]

matches_complete :
    (ps : List Bytes) (path p : Bytes) (i : ℕ)
    → get_elem? ps i ≡ some p
    → Matches p path
    → matches (some ps) path ≡ true
unfolding matches
matches_complete [] path p i e m = cc
matches_complete (q ∷ ps) path p zero e m =
    let k : q ≡ p = cc in
    let yes : wildcard q path ≡ true =
      (wildcard_iff q path).1 (subst (λ x. Matches x path) (sym k) m) in
    rw yes
matches_complete (q ∷ ps) path p (suc i) e m =
    let ih = matches_complete ps path p i e m in ground arith

matches_iff :
    (ps : Option (List Bytes)) (path : Bytes) → (matches ps path ≡ true) ↔ AnyMatches ps path
matches_iff none path = ((λ h. unfold matches in ground arith), (λ h. absurd h))
matches_iff (some ps) path =
    ((λ h. matches_sound ps path h), (λ (p, (i, k), m). matches_complete ps path p i k m))

label_of_conflict :
    (x c v : Bool) → label_of x c v ≡ codes "conflict" → (x ≡ false) × (c ≡ true) × (v ≡ true)
unfolding label_of
label_of_conflict true c v h = absurd (ground arith)
label_of_conflict false true true h = (refl, refl, refl)
label_of_conflict false true false h = absurd (ground arith)
label_of_conflict false false true h = absurd (ground arith)
label_of_conflict false false false h = absurd (ground arith)

-- The label `conflict` is given exactly to a path that no pattern of `exclude`, but a pattern of both
-- `stable` and `variable` matches.
pub developer_label_conflict :
    (p : Partition) (path : Bytes)
    → (developer_label p path ≡ codes "conflict")
      ↔ (¬ AnyMatches p.exclude path × AnyMatches p.stable path × AnyMatches p.variable path)
unfolding developer_label
developer_label_conflict p path = (
  (λ h.
      let (x, c, v) =
        label_of_conflict (matches p.exclude path) (matches p.stable path) (matches p.variable path)
          h in
      (
        (λ a. let yes = (matches_iff p.exclude path).1 a in cc),
        (matches_iff p.stable path).0 c,
        (matches_iff p.variable path).0 v,
      )),
  (λ (free, s, v). elim (Bool-cases (matches p.exclude path)) [
    | inl e ↦ absurd (free ((matches_iff p.exclude path).0 e))
    | inr e ↦
        let both = (matches_iff p.stable path).1 s in
        let too = (matches_iff p.variable path).1 v in rw (e, both, too) (unfold label_of in refl)
  ]),
)
