-- ===== src/Catalog/Next/Ready.antt =====
-- What the conditions and the order of the query for runnable work say of the rows.
use repotraverse.Prelude.{
  ℕ, ◌≤◌, ◌≡◌, refl, sym, ◌∙◌, ◌↔◌, ◌⊎◌, inl, inr, true, false, ◌&&◌, List, [], ◌∷◌, arith,
  Bool-cases, Bytes, text_eq, text_eq_iff, All,
}
use repotraverse.Catalog.Tables.{
  WorkItem, Queue, is_waiting, is_completed, not_completed, any_item, has_id, depends_on,
  is_runnable,
}
use repotraverse.Catalog.Runner.{precedes}

-- The rows of the id are completed.
abbrev CompletedAt : Bytes → List WorkItem → Type 0
CompletedAt id = All λ (p : WorkItem). p.work_id ≡ id → is_completed p.state ≡ true

-- Everything that the work depends on is completed.
abbrev DependsOnCompleted : List WorkItem → List (Bytes × Bytes) → Bytes → Type 0
DependsOnCompleted items deps id =
    All (λ (d : Bytes × Bytes). d.0 ≡ id → CompletedAt d.1 items) deps

-- The item waits, is due, is not cancelled, and all that it depends on is completed.
pub record IsReady (now : ℕ) (q : Queue) (w : WorkItem) : Type 0 where
  pub waits : is_waiting w.state ≡ true
  pub due : w.next_attempt_at ≤ now
  pub wanted : w.cancellation_requested ≡ false
  pub unblocked : DependsOnCompleted q.items q.dependencies w.work_id

not_completed_iff :
    (id : Bytes) (ws : List WorkItem)
    → (any_item (λ p. has_id id p && not_completed p) ws ≡ false) ↔ CompletedAt id ws
unfolding any_item
not_completed_iff id [] = ((λ _. tt), (λ _. refl))
not_completed_iff id (w ∷ ws) =
    let (to, from) = not_completed_iff id ws in
    let (same, eq) = text_eq_iff w.work_id id in
    (
      (λ h. ((λ e. let k = eq e in ground arith), to (ground arith))),
      (λ (h, hs).
          let rest = from hs in
          elim (Bool-cases (text_eq w.work_id id)) [
            | inl e ↦ let k = h (same e) in ground arith
            | inr e ↦ ground arith
          ]),
    )

depends_on_iff :
    (items : List WorkItem) (deps : List (Bytes × Bytes)) (id : Bytes)
    → (depends_on not_completed items deps id ≡ false) ↔ DependsOnCompleted items deps id
unfolding depends_on
depends_on_iff items [] id = ((λ _. tt), (λ _. refl))
depends_on_iff items ((w, d) ∷ deps) id =
    let (to, from) = depends_on_iff items deps id in
    let (down, up) = not_completed_iff d items in
    let (same, eq) = text_eq_iff w id in
    (
      (λ h. ((λ e. let k = eq e in down (ground arith)), to (ground arith))),
      (λ (h, hs).
          let rest = from hs in
          elim (Bool-cases (text_eq w id)) [
            | inl e ↦ let k = up (h (same e)) in ground arith
            | inr e ↦ ground arith
          ]),
    )

pub is_runnable-IsReady :
    (now : ℕ) (q : Queue) (w : WorkItem) → is_runnable now q w ≡ true → IsReady now q w
unfolding is_runnable
is_runnable-IsReady now q w h =
    let (down, _) = depends_on_iff q.items q.dependencies w.work_id in
    record {
      waits = ground arith;
      due = ground arith;
      wanted = ground arith;
      unblocked = down (ground arith);
    }

pub IsReady-is_runnable :
    (now : ℕ) (q : Queue) (w : WorkItem) → IsReady now q w → is_runnable now q w ≡ true
unfolding is_runnable
IsReady-is_runnable now q w r =
    let (_, up) = depends_on_iff q.items q.dependencies w.work_id in
    let a = r.waits in let b = r.due in let c = r.wanted in let d = up r.unblocked in ground arith

-- Maintenance work stands behind all other work, and each of the two in the order of its sequence.
abbrev pub StandsBefore : WorkItem → WorkItem → Type 0
StandsBefore w v =
    ((w.maintenance ≡ false) × (v.maintenance ≡ true))
    ⊎ ((w.maintenance ≡ v.maintenance) × (w.fifo_sequence ≤ v.fifo_sequence))

pub precedes-StandsBefore : (w v : WorkItem) → precedes w v ≡ true → StandsBefore w v
unfolding precedes
precedes-StandsBefore w v h = elim (Bool-cases w.maintenance) [
  | inl a ↦ elim (Bool-cases v.maintenance) [
    | inl b ↦ inr (a ∙ sym b, ground arith)
    | inr b ↦ absurd (ground arith)
  ]
  | inr a ↦ elim (Bool-cases v.maintenance) [
    | inl b ↦ inl (a, b)
    | inr b ↦ inr (a ∙ sym b, ground arith)
  ]
]
