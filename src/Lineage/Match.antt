-- ===== src/Lineage/Match.antt =====
-- src/lineage.cpp: how an element is compared and matched. The maps of `trace_transition` over the
-- elements of the later snapshot are searches of that list, since `emplace` keeps the first entry of
-- a key and `equal_range` keeps the order of insertion. What is found is the index with its element.
pub mod Found
use repotraverse.Prelude.{
  ℕ, zero, suc, ◌+◌, Bool, true, false, ◌&&◌, ◌||◌, not, Option, none, some, List, [], ◌∷◌, ◌++◌,
  map, if◌then◌else◌, Bytes, codes, text_eq,
}
use repotraverse.Ir.{ElementSnapshot, EvidenceBundle, Coverage, LineageAssertion, lines}

unfoldable pub continuity : ElementSnapshot → ElementSnapshot → Bytes
continuity before after =
    let renamed = not (text_eq before.qualified_name after.qualified_name) in
    let moved = not (text_eq before.location.path after.location.path) in
    if renamed && moved
    then codes "moved_and_renamed"
    else if renamed
    then codes "renamed"
    else if moved
    then codes "moved"
    else codes "same"

unfoldable pub content_change : ElementSnapshot → ElementSnapshot → Bytes
content_change before after =
    let interface = not (text_eq before.interface_fingerprint after.interface_fingerprint) in
    let implementation =
      not (text_eq before.implementation_fingerprint after.implementation_fingerprint) in
    if interface && implementation
    then codes "both"
    else if interface
    then codes "interface"
    else if implementation
    then codes "implementation"
    else codes "none"

unfoldable pub shape_key : ElementSnapshot → Bytes
shape_key e = lines (
    e.kind ∷ e.interface_fingerprint ∷ e.implementation_fingerprint ∷ e.dependency_fingerprint ∷ [])

unfoldable pub coverage_for : EvidenceBundle → EvidenceBundle → Coverage
coverage_for before after = record {
  status =
      if text_eq before.coverage.status (codes "complete")
        && text_eq after.coverage.status (codes "complete")
      then codes "complete"
      else codes "partial";
  capabilities =
      codes "element_lineage"
      ∷ codes "interface_fingerprint"
      ∷ codes "implementation_fingerprint"
      ∷ codes "dependency_fingerprint"
      ∷ [];
  gaps =
      map (λ gap. codes "before: " ++ gap) before.coverage.gaps
      ++ map (λ gap. codes "after: " ++ gap) after.coverage.gaps;
}

-- `accepted[assertion.before_element] = &assertion`: the last one stays.
unfoldable pub last_accepted : Bytes → List LineageAssertion → Option LineageAssertion
last_accepted id [] = none
last_accepted id (a ∷ rest) = elim (last_accepted id rest) [
  | some b ↦ some b
  | none ↦
      if text_eq a.status (codes "accepted")
        && text_eq a.relation (codes "same_element")
        && text_eq a.before_element id
      then some a
      else none
]

-- `rejected.contains(key)`.
unfoldable pub is_rejected : Bytes → Bytes → List LineageAssertion → Bool
is_rejected before after [] = false
is_rejected before after (a ∷ rest) =
    (text_eq a.status (codes "accepted")
      && text_eq a.relation (codes "not_same_element")
      && text_eq (lines (a.before_element ∷ a.after_element ∷ [])) (lines (before ∷ after ∷ [])))
    || is_rejected before after rest

-- An element of the later snapshot, and where it stands.
pub record Slot : Type 0 where
  pub index : ℕ
  pub element : ElementSnapshot

-- The first element of the id, counted from `i`: `after_by_id.find(id)`.
unfoldable pub slot_of_id : Bytes → ℕ → List ElementSnapshot → Option Slot
slot_of_id id i [] = none
slot_of_id id i (e ∷ es) =
    if text_eq e.compiler_id id
    then some (record { index = i; element = e })
    else slot_of_id id (i + 1) es

-- `after_by_shape.equal_range(key)`.
unfoldable pub slots_of_shape : Bytes → ℕ → List ElementSnapshot → List Slot
slots_of_shape key i [] = []
slots_of_shape key i (e ∷ es) =
    let rest = slots_of_shape key (i + 1) es in
    if text_eq (shape_key e) key then record { index = i; element = e } ∷ rest else rest

-- `!used[i]`; the indices that are asked for are those of elements.
unfoldable pub is_free : List Bool → ℕ → Bool
is_free [] i = false
is_free (u ∷ us) zero = not u
is_free (u ∷ us) (suc i) = is_free us i

-- `used[i] = true`.
unfoldable pub mark : List Bool → ℕ → List Bool
mark [] i = []
mark (u ∷ us) zero = true ∷ us
mark (u ∷ us) (suc i) = u ∷ mark us i

unfoldable pub if_free : List Bool → Option Slot → Option Slot
if_free used none = none
if_free used (some s) = if is_free used s.index then some s else none

pub record Match : Type 0 where
  pub slot : Slot
  pub resolution : Bytes
  pub confidence : Bytes

module _ (assertions : List LineageAssertion) (after : List ElementSnapshot) where
  unfoldable pub asserted_slot : List Bool → ElementSnapshot → Option Slot
  asserted_slot used old = elim (last_accepted old.compiler_id assertions) [
    | none ↦ none
    | some a ↦ if_free used (slot_of_id a.after_element 0 after)
  ]

  unfoldable pub find_match : List Bool → ElementSnapshot → Option Match
  find_match used old = elim (asserted_slot used old) [
    | some s ↦ some (record {
      slot = s;
      resolution = codes "reviewed_assertion";
      confidence = codes "reviewed";
    })
    | none ↦ elim (if_free used (slot_of_id old.compiler_id 0 after)) [
      | some s ↦
          some (record { slot = s; resolution = codes "automatic"; confidence = codes "exact" })
      | none ↦ none
    ]
  ]

  open_slots : List Bool → ElementSnapshot → List Slot → List Slot
  open_slots used old [] = []
  open_slots used old (s ∷ ss) =
      let rest = open_slots used old ss in
      if is_free used s.index && not (is_rejected old.compiler_id s.element.compiler_id assertions)
      then s ∷ rest
      else rest

  -- The `candidates` of an element that has no match.
  unfoldable pub shape_candidates : List Bool → ElementSnapshot → List Slot
  unfolding open_slots
  shape_candidates used old = open_slots used old (slots_of_shape (shape_key old) 0 after)
