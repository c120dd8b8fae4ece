-- ===== src/Lineage/Relate/Total.antt =====
-- `trace_transition` never throws: every `.at` finds its element. Its facts are those of the trace.
use repotraverse.Prelude.{
  zero, suc, ◌≡◌, refl, ◌⊎◌, inl, inr, Bool, true, false, ◌&&◌, ◌||◌, not, Option, none, some, List,
  [], ◌∷◌, arith, Bool-cases, Bytes, text_eq, text_eq_iff, is_empty, All, Listed,
}
use mathlib.Core.List.{Perm}
use mathlib.Core.List.Perm
use repotraverse.Ir.{
  ElementSnapshot, EvidenceBundle, LineageAssertion, TransitionFact, TransitionResult,
}
use repotraverse.Lineage.Trace.{trace_facts, matched_fact, removed_fact, added_fact}
use repotraverse.Lineage.Trace.Facts.{trace_facts-All}
use repotraverse.Lineage.Relate.{
  element_at, collect_added, collect_removed, relate, sort, insert_sorted, trace_transition, ◌>>=◌,
  result_of,
}

-- There is a result.
abbrev pub Returns {ℓ} : {A : Type ℓ} → Option A → Type ℓ
Returns {A = A} o = (a : A) × (o ≡ some a)

Returns->>= :
    {A B : Type 0} (m : Option A) (f : A → Option B)
    → Returns m
    → ((a : A) → Returns (f a))
    → Returns (m >>= f)
Returns->>= none f (a, e) h = absurd (cc)
Returns->>= (some a) f r h = h a

element_at-Returns :
    (id : Bytes) (es : List ElementSnapshot) (e : ElementSnapshot)
    → Listed e es
    → e.compiler_id ≡ id
    → Returns (element_at id es)
unfolding element_at
element_at-Returns id [] e (i, k) h = absurd (cc)
element_at-Returns id (x ∷ es) e (zero, k) h = (x, ground (arith, text_eq_iff x.compiler_id id))
element_at-Returns id (x ∷ es) e (suc i, k) h = elim (Bool-cases (text_eq x.compiler_id id)) [
  | inl p ↦ (x, rw p)
  | inr p ↦ rw p (element_at-Returns id es e (i, k) h)
]

not_empty : {A : Type 0} {b : Bool} {o : Option A} → b ≡ false → (b ≡ true) ⊎ Returns o → Returns o
not_empty h (inl e) = absurd (cc)
not_empty h (inr r) = r

module _ (before after : List ElementSnapshot) where
  -- The identities of a fact are found in the maps of the two snapshots.
  abbrev Known : TransitionFact → Type 0
  Known f =
      ((is_empty f.before_element ≡ true) ⊎ Returns (element_at f.before_element before))
      × ((is_empty f.after_element ≡ true) ⊎ Returns (element_at f.after_element after))

  collect_added-Returns :
      (fs : List TransitionFact) → All Known fs → Returns (collect_added after fs)
  unfolding collect_added
  collect_added-Returns [] k = ([], refl)
  collect_added-Returns (f ∷ fs) (k, ks) =
      let ih = collect_added-Returns fs ks in
      elim (Bool-cases (is_empty f.before_element && not (is_empty f.after_element))) [
        | inl p ↦ rw p (
            Returns->>= _ _ (not_empty (ground arith) k.1)
              (λ e. Returns->>= _ _ ih (λ es. (e ∷ es, refl))))
        | inr p ↦ rw p ih
      ]

  collect_removed-Returns :
      (fs : List TransitionFact) → All Known fs → Returns (collect_removed before fs)
  unfolding collect_removed
  collect_removed-Returns [] k = ([], refl)
  collect_removed-Returns (f ∷ fs) (k, ks) =
      let ih = collect_removed-Returns fs ks in
      elim (Bool-cases (not (is_empty f.before_element) && is_empty f.after_element)) [
        | inl p ↦ rw p (
            Returns->>= _ _ (not_empty (ground arith) k.0)
              (λ e. Returns->>= _ _ ih (λ es. (e ∷ es, refl))))
        | inr p ↦ rw p ih
      ]

  relate-Returns :
      (stable_hash : Bytes → Bytes) (dump : List Bytes → Bytes)
      (added removed : List ElementSnapshot) (fs : List TransitionFact)
      → All Known fs
      → Returns (relate stable_hash dump before after added removed fs)
  unfolding relate
  relate-Returns stable_hash dump added removed [] k = ([], refl)
  relate-Returns stable_hash dump added removed (f ∷ fs) (k, ks) =
      let ih = relate-Returns stable_hash dump added removed fs ks in
      elim (Bool-cases (is_empty f.before_element || is_empty f.after_element)) [
        | inl p ↦ rw p ih
        | inr p ↦ rw p (
            Returns->>= _ _ (not_empty (ground arith) k.0) (λ old.
              Returns->>= _ _ (not_empty (ground arith) k.1)
                (λ new. Returns->>= _ _ ih (λ rest. (_, refl)))))
      ]

Perm-insert_sorted :
    {A : Type 0} (less : A → A → Bool) (x : A) (xs : List A)
    → Perm (insert_sorted less x xs) (x ∷ xs)
unfolding insert_sorted
Perm-insert_sorted less x [] = Perm.refl _
Perm-insert_sorted less x (y ∷ ys) = elim (Bool-cases (less y x)) [
  | inl p ↦ rw p (Perm.trans (Perm.cons y (Perm-insert_sorted less x ys)) (Perm.swap x y ys))
  | inr p ↦ rw p (Perm.refl _)
]

Perm-sort : {A : Type 0} (less : A → A → Bool) (xs : List A) → Perm (sort less xs) xs
unfolding sort
Perm-sort less [] = Perm.refl _
Perm-sort less (x ∷ xs) =
    Perm.trans (Perm-insert_sorted less x (sort less xs)) (Perm.cons x (Perm-sort less xs))

module _ (stable_hash : Bytes → Bytes) (dump : List Bytes → Bytes) (before after : EvidenceBundle)
    (assertions : List LineageAssertion) (unit : Bytes) where
  trace_facts-Known :
      All
        (Known before.elements after.elements)
        (trace_facts stable_hash unit before after assertions).facts
  unfolding matched_fact removed_fact added_fact is_empty
  trace_facts-Known =
      trace_facts-All stable_hash unit before after assertions
        (Known before.elements after.elements)
        (λ old m l k why. (
          inr (element_at-Returns _ before.elements old l refl),
          inr (element_at-Returns _ after.elements m.slot.element k refl),
        ))
        (λ old l. (inr (element_at-Returns _ before.elements old l refl), inl refl))
        (λ new l. (inl refl, inr (element_at-Returns _ after.elements new l refl)))

  -- `trace_transition` returns for every input; no look-up by identity fails. What it returns are the
  -- facts, candidates and coverage of the trace, the facts in another order.
  pub trace_transition_total :
      (r : TransitionResult) × (trace_transition stable_hash dump before after assertions unit
        ≡ some r)
      × Perm r.facts (trace_facts stable_hash unit before after assertions).facts
      × (r.candidates ≡ (trace_facts stable_hash unit before after assertions).candidates)
      × (r.coverage ≡ (trace_facts stable_hash unit before after assertions).coverage)
  unfolding trace_transition result_of
  trace_transition_total =
      let facts = (trace_facts stable_hash unit before after assertions).facts in
      let (added, a) =
        collect_added-Returns before.elements after.elements facts trace_facts-Known in
      let (removed, b) =
        collect_removed-Returns before.elements after.elements facts trace_facts-Known in
      let (relations, c) =
        relate-Returns before.elements after.elements stable_hash dump added removed facts
          trace_facts-Known in
      (
        result_of stable_hash dump before after
            (trace_facts stable_hash unit before after assertions) relations,
        rw (a, b, c),
        Perm-sort _ facts,
        refl,
        refl,
      )
