-- ===== src/Lineage/Trace/Identity.antt =====
-- Without assertions, an element whose identity is in both snapshots is joined to itself.
use repotraverse.Prelude.{
  ℕ, zero, suc, ◌+◌, ◌≡◌, refl, sym, ap, ◌∙◌, ◌≢◌, inl, inr, Bool, true, false, none, some, List,
  [], ◌∷◌, arith, Bool-cases, Option-cases, Bytes, text_eq, text_eq_iff, All, All-append, get_elem?,
}
use repotraverse.Ir.{ElementSnapshot, EvidenceBundle, TransitionFact}
use repotraverse.Lineage.Match.{
  Slot, Match, find_match, asserted_slot, last_accepted, if_free, is_free, mark, slot_of_id,
}
use repotraverse.Lineage.Match.Found.{Holds, slot_found, slot_of_id_lem}
use repotraverse.Lineage.Trace.{
  Progress, trace_facts, trace_elements, added_facts, start, unused, matched_fact, removed_fact,
  added_fact,
}
use repotraverse.Lineage.Trace.Partition.{unmatched_round, matched_round}

-- No text stands twice in the list.
abbrev pub Distinct : List ElementSnapshot → Type 0
Distinct [] = Unit
Distinct (e ∷ es) = All (λ x. x.compiler_id ≢ e.compiler_id) es × Distinct es

slot_of_id_found :
    (id : Bytes) (i j : ℕ) (es : List ElementSnapshot) (e : ElementSnapshot)
    → get_elem? es j ≡ some e
    → e.compiler_id ≡ id
    → (s : Slot) × (slot_of_id id i es ≡ some s)
unfolding slot_of_id
slot_of_id_found id i j [] e h k = absurd (cc)
slot_of_id_found id i zero (x ∷ es) e h k =
    (record { index = i; element = x }, ground (arith, text_eq_iff x.compiler_id id))
slot_of_id_found id i (suc j) (x ∷ es) e h k = elim (Bool-cases (text_eq x.compiler_id id)) [
  | inl p ↦ (record { index = i; element = x }, rw p)
  | inr p ↦ rw p (slot_of_id_found id (i + 1) j es e h k)
]

is_free-mark_ne : (used : List Bool) (i j : ℕ) → i ≢ j → is_free (mark used i) j ≡ is_free used j
unfolding is_free mark
is_free-mark_ne [] i j h = refl
is_free-mark_ne (u ∷ us) zero zero h = absurd (h refl)
is_free-mark_ne (u ∷ us) zero (suc j) h = refl
is_free-mark_ne (u ∷ us) (suc i) zero h = refl
is_free-mark_ne (u ∷ us) (suc i) (suc j) h = is_free-mark_ne us i j (λ e. h (ap suc e))

module _ (after : List ElementSnapshot) where
  -- The elements of the identity are free.
  Open : List Bool → Bytes → Type 0
  Open used id =
      (i : ℕ) (e : ElementSnapshot)
      → get_elem? after i ≡ some e
      → e.compiler_id ≡ id
      → is_free used i ≡ true

  identity_match :
      (used : List Bool) (old : ElementSnapshot) {m : Match}
      → find_match [] after used old ≡ some m
      → (is_free used m.slot.index ≡ true)
        × Holds after m.slot
        × (m.slot.element.compiler_id ≡ old.compiler_id)
  unfolding find_match asserted_slot last_accepted
  identity_match used old {m} e =
      slot_found [] after used old.compiler_id {s = m.slot} (ground arith)

  identity_found :
      (used : List Bool) (old : ElementSnapshot) (i : ℕ) (e : ElementSnapshot)
      → Open used old.compiler_id
      → get_elem? after i ≡ some e
      → e.compiler_id ≡ old.compiler_id
      → find_match [] after used old ≢ none
  unfolding find_match asserted_slot last_accepted if_free Open
  identity_found used old i e free at same =
      let (s, f) = slot_of_id_found old.compiler_id 0 i after e at same in
      let (k, at', holds, id) = slot_of_id_lem old.compiler_id 0 after f in
      let ix : k ≡ s.index = omega arith in
      let ok : is_free used s.index ≡ true = rw (← ix) (free k s.element holds id) in
      let g : if_free used (slot_of_id old.compiler_id 0 after) ≡ some s =
        rw (f, if_free) (rw ok) in
      λ c. ground arith

  mark-Open :
      (used : List Bool) (s : Slot) (id : Bytes)
      → Holds after s
      → s.element.compiler_id ≢ id
      → Open used id
      → Open (mark used s.index) id
  unfolding Open
  mark-Open used s id holds ne free i e at same =
      let ne' : s.index ≢ i = λ (c : s.index ≡ i).
        ne (let q : s.element ≡ e = cc in ap (λ (x : ElementSnapshot). x.compiler_id) q ∙ same) in
      is_free-mark_ne used s.index i ne' ∙ free i e at same

module _ (stable_hash : Bytes → Bytes) (unit : Bytes) (before after : EvidenceBundle) where
  -- An element that the later snapshot has too, by identity, is not reported as removed.
  abbrev pub IsKept : TransitionFact → Type 0
  IsKept f =
      (i : ℕ) (e : ElementSnapshot)
      → get_elem? after.elements i ≡ some e
      → e.compiler_id ≡ f.before_element
      → f.before_location ≢ none
      → f.after_element ≡ f.before_element

  abbrev AllOpen : List Bool → List ElementSnapshot → Type 0
  AllOpen used = All λ old. Open after.elements used old.compiler_id

  mark-AllOpen :
      (used : List Bool) (s : Slot) (id : Bytes) (olds : List ElementSnapshot)
      → Holds after.elements s
      → s.element.compiler_id ≡ id
      → All (λ (x : ElementSnapshot). x.compiler_id ≢ id) olds
      → AllOpen used olds
      → AllOpen (mark used s.index) olds
  mark-AllOpen used s id [] holds e ne free = tt
  mark-AllOpen used s id (x ∷ olds) holds e ne free = (
    mark-Open after.elements used s x.compiler_id holds (λ c. ne.0 (sym c ∙ e)) free.0,
    mark-AllOpen used s id olds holds e ne.1 free.1,
  )

  rounds-IsKept :
      (olds : List ElementSnapshot) (p : Progress)
      → Distinct olds
      → AllOpen p.used olds
      → All IsKept p.facts
      → All IsKept (trace_elements stable_hash unit before after [] olds p).facts
  unfolding trace_elements
  rounds-IsKept [] p d free kept = kept
  rounds-IsKept (old ∷ rest) p d free kept =
      elim (Option-cases (find_match [] after.elements p.used old)) [
        | inl none_found ↦
            let (f, u) = unmatched_round stable_hash unit before after [] old p none_found in
            let never : IsKept (removed_fact stable_hash unit before after old) =
              unfold removed_fact in
              λ i e at same located.
                absurd (identity_found after.elements p.used old i e free.0 at same none_found) in
            rounds-IsKept rest _ d.1 (rw u free.1)
              (rw f (All-append IsKept p.facts _ kept (never, tt)))
        | inr (m, found) ↦
            let (f, u) = matched_round stable_hash unit before after [] old p found in
            let (_, holds, same_id) = identity_match after.elements p.used old found in
            let joined : IsKept (matched_fact stable_hash unit before after old m) =
              unfold matched_fact in λ i e at same located. same_id in
            rounds-IsKept rest _ d.1
              (rw u (mark-AllOpen p.used m.slot old.compiler_id rest holds same_id d.0 free.1))
              (rw f (All-append IsKept p.facts _ kept (joined, tt)))
      ]

  added-IsKept :
      (used : List Bool) (es : List ElementSnapshot)
      → All IsKept (added_facts stable_hash unit before after used es)
  unfolding added_facts added_fact
  added-IsKept [] es = tt
  added-IsKept (u ∷ us) [] = tt
  added-IsKept (true ∷ us) (e ∷ es) = added-IsKept us es
  added-IsKept (false ∷ us) (e ∷ es) =
      ((λ i x at same located. absurd (located refl)), added-IsKept us es)

  is_free-unused :
      (es : List ElementSnapshot) (i : ℕ) {e : ElementSnapshot}
      → get_elem? es i ≡ some e
      → is_free (unused stable_hash unit before after es) i ≡ true
  unfolding is_free
  is_free-unused [] i h = cc
  is_free-unused (x ∷ es) zero h = refl
  is_free-unused (x ∷ es) (suc i) h = is_free-unused es i h

  start-AllOpen :
      (olds : List ElementSnapshot) → AllOpen (start stable_hash unit before after).used olds
  unfolding start Open
  start-AllOpen [] = tt
  start-AllOpen (x ∷ olds) =
      ((λ i e at same. is_free-unused after.elements i at), start-AllOpen olds)

  -- If no identity stands twice in the earlier snapshot and nothing is asserted, an element of it
  -- whose identity the later snapshot has is joined to that identity, and is never reported removed.
  pub trace_facts-IsKept :
      Distinct before.elements → All IsKept (trace_facts stable_hash unit before after []).facts
  unfolding trace_facts
  trace_facts-IsKept d =
      let start_kept : All IsKept (start stable_hash unit before after).facts =
        unfold start in tt in
      All-append IsKept _ _
        (rounds-IsKept before.elements _ d (start-AllOpen before.elements) start_kept)
        (added-IsKept _ after.elements)
