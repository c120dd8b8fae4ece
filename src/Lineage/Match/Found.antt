-- ===== src/Lineage/Match/Found.antt =====
-- What `find_match` of lineage.cpp finds: an element that is free, and a reason to join it.
use repotraverse.Prelude.{
  ℕ, suc, ◌+◌, ◌≡◌, sym, ◌⊎◌, inl, inr, Bool, true, Option, none, some, List, [], ◌∷◌, arith,
  Bool-cases, Option-cases, Bytes, codes, text_eq, text_eq_iff, get_elem?,
}
use repotraverse.Ir.{ElementSnapshot, LineageAssertion}
use repotraverse.Lineage.Match.{
  Slot, Match, find_match, is_free, if_free, slot_of_id, asserted_slot, last_accepted,
}

-- A slot holds the element that stands at its index.
abbrev pub Holds : List ElementSnapshot → Slot → Type 0
Holds es s = get_elem? es s.index ≡ some s.element

pub slot_of_id_lem :
    (id : Bytes) (i : ℕ) (es : List ElementSnapshot) {s : Slot}
    → slot_of_id id i es ≡ some s
    → (k : ℕ) × (s.index ≡ i + k) × (get_elem? es k ≡ some s.element) × (s.element.compiler_id ≡ id)
unfolding slot_of_id
slot_of_id_lem id i [] h = cc
slot_of_id_lem id i (e ∷ es) {s} h = elim (Bool-cases (text_eq e.compiler_id id)) [
  | inl p ↦ (0, ground arith, ground arith, ground (arith, text_eq_iff e.compiler_id id))
  | inr p ↦
      let (k, a, b, c) = slot_of_id_lem id (i + 1) es {s = s} (ground arith) in
      (suc k, omega arith, b, c)
]

if_free_lem :
    (used : List Bool) (o : Option Slot) {s : Slot}
    → if_free used o ≡ some s
    → (o ≡ some s) × (is_free used s.index ≡ true)
unfolding if_free
if_free_lem used none h = cc
if_free_lem used (some t) {s} h = elim (Bool-cases (is_free used t.index)) [
  | inl p ↦ ground arith
  | inr p ↦ ground arith
]

-- An accepted assertion that the two are the same element.
abbrev pub IsAccepted : LineageAssertion → Bytes → Bytes → Type 0
IsAccepted a before after =
    (a.status ≡ codes "accepted")
    × (a.relation ≡ codes "same_element")
    × (a.before_element ≡ before)
    × (a.after_element ≡ after)

-- One of the assertions accepts the pair.
abbrev pub Accepted : List LineageAssertion → Bytes → Bytes → Type 0
Accepted assertions before after =
    (i : ℕ) × (a : LineageAssertion) × (get_elem? assertions i ≡ some a) × IsAccepted a before after

last_accepted_lem :
    (id : Bytes) (assertions : List LineageAssertion) {a : LineageAssertion}
    → last_accepted id assertions ≡ some a
    → (i : ℕ) × (get_elem? assertions i ≡ some a) × IsAccepted a id a.after_element
unfolding last_accepted
last_accepted_lem id [] h = cc
last_accepted_lem id (x ∷ rest) {a} h = elim (Option-cases (last_accepted id rest)) [
  | inl e ↦ (
    0,
    ground arith,
    ground (
      arith,
      text_eq_iff x.status (codes "accepted"),
      text_eq_iff x.relation (codes "same_element"),
      text_eq_iff x.before_element id,
    ),
  )
  | inr (b, e) ↦
      let (i, k, acc) = last_accepted_lem id rest {a = a} (ground arith) in (suc i, k, acc)
]

-- Why two elements are joined, by the resolution that is recorded: their identity, or an accepted
-- assertion.
abbrev pub Justified : List LineageAssertion → Bytes → Bytes → Bytes → Type 0
Justified assertions resolution before after =
    ((resolution ≡ codes "automatic") × (before ≡ after))
    ⊎ ((resolution ≡ codes "reviewed_assertion") × Accepted assertions before after)

module _ (assertions : List LineageAssertion) (after : List ElementSnapshot) where
  pub slot_found :
      (used : List Bool) (id : Bytes) {s : Slot}
      → if_free used (slot_of_id id 0 after) ≡ some s
      → (is_free used s.index ≡ true) × Holds after s × (s.element.compiler_id ≡ id)
  slot_found used id {s} h =
      let (found, free) = if_free_lem used (slot_of_id id 0 after) h in
      let (k, at, holds, same) = slot_of_id_lem id 0 after found in
      let at' : s.index ≡ k = omega arith in (free, rw at' holds, same)

  asserted_slot_lem :
      (used : List Bool) (old : ElementSnapshot) {s : Slot}
      → asserted_slot assertions after used old ≡ some s
      → (is_free used s.index ≡ true)
        × Holds after s
        × Accepted assertions old.compiler_id s.element.compiler_id
  unfolding asserted_slot
  asserted_slot_lem used old {s} h =
      elim (Option-cases (last_accepted old.compiler_id assertions)) [
        | inl e ↦ absurd (ground arith)
        | inr (a, e) ↦
            let (i, at, (status, relation, from, _)) =
              last_accepted_lem old.compiler_id assertions e in
            let (free, holds, same) = slot_found used a.after_element {s = s} (ground arith) in
            (free, holds, (i, a, at, (status, relation, from, sym same)))
      ]

  -- Where a match comes from.
  pub find_match_cases :
      (used : List Bool) (old : ElementSnapshot) {m : Match}
      → find_match assertions after used old ≡ some m
      → ((asserted_slot assertions after used old ≡ some m.slot)
          × (m.resolution ≡ codes "reviewed_assertion"))
        ⊎ ((if_free used (slot_of_id old.compiler_id 0 after) ≡ some m.slot)
            × (m.resolution ≡ codes "automatic"))
  unfolding find_match
  find_match_cases used old h = ground arith

  -- A match is an element that is not used, and has the same identity or an assertion behind it.
  pub find_match_lem :
      (used : List Bool) (old : ElementSnapshot) {m : Match}
      → find_match assertions after used old ≡ some m
      → (is_free used m.slot.index ≡ true)
        × Holds after m.slot
        × Justified assertions m.resolution old.compiler_id m.slot.element.compiler_id
  find_match_lem used old {m} h = elim (find_match_cases used old h) [
    | inl (e, r) ↦
        let (free, holds, acc) = asserted_slot_lem used old e in (free, holds, inr (r, acc))
    | inr (e, r) ↦
        let (free, holds, same) = slot_found used old.compiler_id e in
        (free, holds, inl (r, sym same))
  ]
