-- ===== src/Lineage/Trace/Partition.antt =====
-- Every element of the two snapshots stands in one fact.
use repotraverse.Prelude.{
  ℕ, zero, suc, ◌≡◌, refl, sym, ap, ◌∙◌, ◌≢◌, inl, inr, Bool, true, false, none, some, List, [],
  ◌∷◌, ◌++◌, map, append_assoc, append-nil, arith, Option-cases, Bytes, All, get_elem?,
  All-get_elem?,
}
use mathlib.Core.List.{Perm, map-append}
use mathlib.Core.List.Perm
use repotraverse.Ir.{ElementSnapshot, TransitionFact, LineageAssertion, EvidenceBundle}
use repotraverse.Lineage.Match.{Slot, mark, is_free, find_match, Match, shape_candidates}
use repotraverse.Lineage.Trace.{
  Progress, trace_facts, trace_element, trace_elements, conclude, propose, added_facts, start,
  unused, matched_fact, removed_fact, added_fact,
}
use repotraverse.Lineage.Match.Found.{find_match_lem}

abbrev pub before_ids : List TransitionFact → List Bytes
before_ids = map λ f. f.before_element

abbrev pub after_ids : List TransitionFact → List Bytes
after_ids = map λ f. f.after_element

abbrev pub ids : List ElementSnapshot → List Bytes
ids = map λ e. e.compiler_id

-- The texts that are not empty.
abbrev pub nonempty : List Bytes → List Bytes
nonempty [] = []
nonempty ([] ∷ rest) = nonempty rest
nonempty ((c ∷ s) ∷ rest) = (c ∷ s) ∷ nonempty rest

-- Every element has a compiler identity.
abbrev pub Named : List ElementSnapshot → Type 0
Named = All λ e. e.compiler_id ≢ []

nonempty-append : (xs ys : List Bytes) → nonempty (xs ++ ys) ≡ nonempty xs ++ nonempty ys
nonempty-append [] ys = refl
nonempty-append ([] ∷ rest) ys = nonempty-append rest ys
nonempty-append ((c ∷ s) ∷ rest) ys = ap (λ r. (c ∷ s) ∷ r) (nonempty-append rest ys)

nonempty_one : (id : Bytes) → id ≢ [] → nonempty (id ∷ []) ≡ id ∷ []
nonempty_one [] h = absurd (h refl)
nonempty_one (c ∷ s) h = refl

nonempty-ids : (es : List ElementSnapshot) → Named es → nonempty (ids es) ≡ ids es
nonempty-ids [] h = refl
nonempty-ids (e ∷ es) h =
    nonempty-append (e.compiler_id ∷ []) (ids es)
    ∙ rw (nonempty_one e.compiler_id h.0) (ap (λ r. e.compiler_id ∷ r) (nonempty-ids es h.1))

-- The identities of the elements that are not used.
abbrev free_ids : List Bool → List ElementSnapshot → List Bytes
free_ids [] es = []
free_ids (u ∷ us) [] = []
free_ids (true ∷ us) (e ∷ es) = free_ids us es
free_ids (false ∷ us) (e ∷ es) = e.compiler_id ∷ free_ids us es

free_ids-mark :
    (used : List Bool) (es : List ElementSnapshot) (i : ℕ) (e : ElementSnapshot)
    → is_free used i ≡ true
    → get_elem? es i ≡ some e
    → Perm (free_ids used es) (e.compiler_id ∷ free_ids (mark used i) es)
unfolding is_free mark
free_ids-mark [] es i e h k = cc
free_ids-mark (u ∷ us) [] i e h k = cc
free_ids-mark (true ∷ us) (x ∷ es) zero e h k = cc
free_ids-mark (false ∷ us) (x ∷ es) zero e h k = Perm.cons' (ground arith) (Perm.refl _)
free_ids-mark (true ∷ us) (x ∷ es) (suc i) e h k = free_ids-mark us es i e h k
free_ids-mark (false ∷ us) (x ∷ es) (suc i) e h k =
    Perm.trans (Perm.cons x.compiler_id (free_ids-mark us es i e h k))
      (Perm.swap e.compiler_id x.compiler_id _)

module _ (stable_hash : Bytes → Bytes) (unit : Bytes) (before after : EvidenceBundle) where
  -- The facts and the elements that are not used make up the later snapshot.
  Balance : Progress → Type 0
  Balance p =
      Perm (nonempty (after_ids p.facts) ++ free_ids p.used after.elements) (ids after.elements)

  propose_facts :
      (old : ElementSnapshot) (slots : List Slot) (p : Progress)
      → ((propose stable_hash old slots p).facts ≡ p.facts)
        × ((propose stable_hash old slots p).used ≡ p.used)
  unfolding propose
  propose_facts old [] p = (refl, refl)
  propose_facts old (s ∷ []) p = (refl, refl)
  propose_facts old (s ∷ t ∷ rest) p = (refl, refl)

  nonempty_after_snoc :
      (fs : List TransitionFact) (f : TransitionFact)
      → nonempty (after_ids (fs ++ f ∷ []))
        ≡ nonempty (after_ids fs) ++ nonempty (f.after_element ∷ [])
  nonempty_after_snoc fs f =
      ap nonempty (map-append (λ g. g.after_element) fs (f ∷ []))
      ∙ nonempty-append (after_ids fs) (f.after_element ∷ [])

  module _ (assertions : List LineageAssertion) where
    abbrev pub round : ElementSnapshot → Progress → Progress
    round = trace_element stable_hash unit before after assertions

    -- A round without a match.
    pub unmatched_round :
        (old : ElementSnapshot) (p : Progress)
        → find_match assertions after.elements p.used old ≡ none
        → ((round old p).facts ≡ p.facts ++ removed_fact stable_hash unit before after old ∷ [])
          × ((round old p).used ≡ p.used)
    unfolding trace_element conclude
    unmatched_round old p e =
        rw (e, conclude)
          (let (f, u) =
              propose_facts old (shape_candidates assertions after.elements p.used old) p in
            (ap (λ fs. fs ++ removed_fact stable_hash unit before after old ∷ []) f, u))

    -- A round with a match.
    pub matched_round :
        (old : ElementSnapshot) (p : Progress) {m : Match}
        → find_match assertions after.elements p.used old ≡ some m
        → ((round old p).facts ≡ p.facts ++ matched_fact stable_hash unit before after old m ∷ [])
          × ((round old p).used ≡ mark p.used m.slot.index)
    unfolding trace_element conclude
    matched_round old p e = rw (e, conclude) (refl, refl)

    round-Balance :
        (old : ElementSnapshot) (p : Progress)
        → Named after.elements
        → Balance p
        → Balance (round old p)
    unfolding Balance matched_fact removed_fact
    round-Balance old p named b =
        elim (Option-cases (find_match assertions after.elements p.used old)) [
          | inl e ↦
              let (f, u) = unmatched_round old p e in rw (f, u, nonempty_after_snoc, append-nil) b
          | inr (m, e) ↦
              let (f, u) = matched_round old p e in
              let (free, holds, _) = find_match_lem assertions after.elements p.used old e in
              let id = m.slot.element.compiler_id in
              let name : id ≢ [] =
                All-get_elem? (λ (x : ElementSnapshot). x.compiler_id ≢ []) after.elements
                  m.slot.index named holds in
              rw (f, u, nonempty_after_snoc, nonempty_one id name, append_assoc)
                (Perm.trans
                  (Perm.append_left _ (
                    Perm.symm
                      (free_ids-mark p.used after.elements m.slot.index m.slot.element free holds)))
                  b)
        ]

    rounds-Balance :
        (olds : List ElementSnapshot) (p : Progress)
        → Named after.elements
        → Balance p
        → Balance (trace_elements stable_hash unit before after assertions olds p)
    unfolding trace_elements
    rounds-Balance [] p named b = b
    rounds-Balance (old ∷ rest) p named b =
        rounds-Balance rest _ named (round-Balance old p named b)

    round-before_ids :
        (old : ElementSnapshot) (p : Progress)
        → before_ids (round old p).facts ≡ before_ids p.facts ++ old.compiler_id ∷ []
    unfolding matched_fact removed_fact
    round-before_ids old p = elim (Option-cases (find_match assertions after.elements p.used old)) [
      | inl e ↦ rw ((unmatched_round old p e).0) (map-append (λ g. g.before_element) p.facts _)
      | inr (m, e) ↦ rw ((matched_round old p e).0) (map-append (λ g. g.before_element) p.facts _)
    ]

    rounds-before_ids :
        (olds : List ElementSnapshot) (p : Progress)
        → before_ids (trace_elements stable_hash unit before after assertions olds p).facts
          ≡ before_ids p.facts ++ ids olds
    unfolding trace_elements
    rounds-before_ids [] p = sym (append-nil _)
    rounds-before_ids (old ∷ rest) p =
        rounds-before_ids rest (round old p)
        ∙ rw (round-before_ids old p)
            (append_assoc (before_ids p.facts) (old.compiler_id ∷ []) (ids rest))

  added_after_ids :
      (used : List Bool) (es : List ElementSnapshot)
      → Named es
      → nonempty (after_ids (added_facts stable_hash unit before after used es)) ≡ free_ids used es
  unfolding added_facts added_fact
  added_after_ids [] es h = refl
  added_after_ids (u ∷ us) [] h = refl
  added_after_ids (true ∷ us) (e ∷ es) h = added_after_ids us es h.1
  added_after_ids (false ∷ us) (e ∷ es) h =
      nonempty-append (e.compiler_id ∷ [])
        (after_ids (added_facts stable_hash unit before after us es))
      ∙ rw (nonempty_one e.compiler_id h.0)
          (ap (λ r. e.compiler_id ∷ r) (added_after_ids us es h.1))

  added_before_ids :
      (used : List Bool) (es : List ElementSnapshot)
      → nonempty (before_ids (added_facts stable_hash unit before after used es)) ≡ []
  unfolding added_facts added_fact
  added_before_ids [] es = refl
  added_before_ids (u ∷ us) [] = refl
  added_before_ids (true ∷ us) (e ∷ es) = added_before_ids us es
  added_before_ids (false ∷ us) (e ∷ es) = added_before_ids us es

  free_ids-unused :
      (es : List ElementSnapshot) → free_ids (unused stable_hash unit before after es) es ≡ ids es
  free_ids-unused [] = refl
  free_ids-unused (e ∷ es) = ap (λ r. e.compiler_id ∷ r) (free_ids-unused es)

  start-Balance : Balance (start stable_hash unit before after)
  unfolding Balance start
  start-Balance = rw (free_ids-unused after.elements) (Perm.refl _)

  module _ (assertions : List LineageAssertion) where
    -- If every element has an identity, each element of the earlier snapshot stands in exactly one
    -- fact as the one before, and each of the later in exactly one as the one after.
    pub trace_facts_partition :
        Named before.elements
        → Named after.elements
        → let facts = (trace_facts stable_hash unit before after assertions).facts in
          (nonempty (before_ids facts) ≡ ids before.elements)
          × Perm (nonempty (after_ids facts)) (ids after.elements)
    unfolding trace_facts start Balance
    trace_facts_partition old_named new_named =
        let p =
          trace_elements stable_hash unit before after assertions before.elements
            (start stable_hash unit before after) in
        let added = added_facts stable_hash unit before after p.used after.elements in
        (
          rw
              (
                map-append,
                nonempty-append,
                added_before_ids,
                append-nil,
                rounds-before_ids assertions before.elements _,
              )
              (nonempty-ids before.elements old_named),
          rw (map-append, nonempty-append, added_after_ids p.used after.elements new_named)
              (rounds-Balance assertions before.elements _ new_named start-Balance),
        )
