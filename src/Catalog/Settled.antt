-- ===== src/Catalog/Settled.antt =====
-- src/catalog.cpp: what an invocation waits for.
use repotraverse.Prelude.{
  ◌+◌, ◌≡◌, refl, ◌↔◌, ◌⊎◌, inl, inr, true, List, [], ◌∷◌, arith, ==_iff, Bool-cases, Bytes,
  text_eq, text_eq_iff, All,
}
use repotraverse.Catalog.Tables.{
  State, pending, running, waiting_for_credential, retry_wait, completed, failed, cancelled,
  WorkItem, Queue, is_settled,
}
use repotraverse.Catalog.Work.{count_unsettled, unsettled_links, invocation_settled}

-- The work is over, whatever came of it.
abbrev pub IsOver : WorkItem → Type 0
IsOver w = (w.state ≡ completed) ⊎ ((w.state ≡ failed) ⊎ (w.state ≡ cancelled))

-- Every work that is linked to the invocation is over.
abbrev pub AllSettled : Bytes → Queue → Type 0
AllSettled invocation q =
    All
      (λ (p : Bytes × Bytes).
        p.1 ≡ invocation → All (λ (w : WorkItem). w.work_id ≡ p.0 → IsOver w) q.items)
      q.invocations

settled-IsOver : (w : WorkItem) → is_settled w.state ≡ true → IsOver w
settled-IsOver w h = state_over w.state h
  where
    state_over :
        (s : State) → is_settled s ≡ true → (s ≡ completed) ⊎ ((s ≡ failed) ⊎ (s ≡ cancelled))
    state_over pending h = absurd (ground arith)
    state_over running h = absurd (ground arith)
    state_over waiting_for_credential h = absurd (ground arith)
    state_over retry_wait h = absurd (ground arith)
    state_over completed h = inl refl
    state_over failed h = inr (inl refl)
    state_over cancelled h = inr (inr refl)

IsOver-settled : (w : WorkItem) → IsOver w → is_settled w.state ≡ true
IsOver-settled w h = elim h [
  | inl e ↦ rw e refl
  | inr k ↦ elim k [ inl e ↦ rw e refl | inr e ↦ rw e refl ]
]

count_unsettled_iff :
    (id : Bytes) (ws : List WorkItem)
    → (count_unsettled id ws ≡ 0) ↔ All (λ (w : WorkItem). w.work_id ≡ id → IsOver w) ws
unfolding count_unsettled
count_unsettled_iff id [] = ((λ _. tt), (λ _. refl))
count_unsettled_iff id (w ∷ ws) =
    let (to, from) = count_unsettled_iff id ws in
    let (same, eq) = text_eq_iff w.work_id id in
    (
      (λ h. (
        (λ e.
            let k = eq e in
            settled-IsOver w (elim (Bool-cases (is_settled w.state)) [
              | inl s ↦ s
              | inr s ↦
                  let bad : 1 + count_unsettled id ws ≡ 0 = rw (k, s) at h in
                  absurd (omega (arith, bad))
            ])),
        to (omega (arith, h)),
      )),
      (λ (h, hs).
          let rest = from hs in
          elim (Bool-cases (text_eq w.work_id id)) [
            | inl e ↦ let k = IsOver-settled w (h (same e)) in rw (e, k) (omega (arith, rest))
            | inr e ↦ rw e (omega (arith, rest))
          ]),
    )

unsettled_links_iff :
    (invocation : Bytes) (items : List WorkItem) (ps : List (Bytes × Bytes))
    → (unsettled_links invocation items ps ≡ 0)
      ↔ All
          (λ (p : Bytes × Bytes).
            p.1 ≡ invocation → All (λ (w : WorkItem). w.work_id ≡ p.0 → IsOver w) items)
          ps
unfolding unsettled_links
unsettled_links_iff invocation items [] = ((λ _. tt), (λ _. refl))
unsettled_links_iff invocation items ((w, i) ∷ ps) =
    let (to, from) = unsettled_links_iff invocation items ps in
    let (down, up) = count_unsettled_iff w items in
    let (same, eq) = text_eq_iff i invocation in
    (
      (λ h. (
        (λ e.
            let k = eq e in
            let both : count_unsettled w items + unsettled_links invocation items ps ≡ 0 =
              rw k at h in
            down (omega (arith, both))),
        to (omega (arith, h)),
      )),
      (λ (h, hs).
          let rest = from hs in
          elim (Bool-cases (text_eq i invocation)) [
            | inl e ↦ let k = up (h (same e)) in rw (e, k) (omega (arith, rest))
            | inr e ↦ rw e (omega (arith, rest))
          ]),
    )

-- invocation_settled answers true exactly if all work that is linked to the invocation is completed,
-- failed or cancelled.
pub invocation_settled_iff :
    (invocation : Bytes) (q : Queue)
    → (invocation_settled invocation q ≡ true) ↔ AllSettled invocation q
unfolding invocation_settled
invocation_settled_iff invocation q =
    let (to, from) = unsettled_links_iff invocation q.items q.invocations in
    let (is, eq) = ==_iff (unsettled_links invocation q.items q.invocations) 0 in
    ((λ h. to (is h)), (λ h. eq (from h)))
