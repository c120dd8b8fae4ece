-- ===== src/Catalog/WellFormed/Claims.antt =====
-- Taking the next item.
use repotraverse.Prelude.{
  ℕ, ◌≡◌, refl, subst, inl, inr, Option, none, some, List, [], ◌∷◌, arith, Bool-cases, Option-cases,
  Bytes,
}
use repotraverse.Catalog.Tables.{WorkItem, Queue, update_where, has_id, one_running}
use repotraverse.Catalog.Runner.{
  doomed, propagate, passed_over, mark_passed, taken_item, claim_item, take_next, claim_next_work,
  runnable_rows, is_runner, scan,
}
use repotraverse.Catalog.WellFormed.{
  IsWellFormed, KeepsTables, KeepsTables-IsWellFormed, update_kept, tables_kept, KeepsTables-trans,
  admitted_rows, Sets,
}

pub propagate-KeepsTables : (now : ℕ) (failure : Bytes) → Sets (propagate now failure)
unfolding propagate
propagate-KeepsTables now failure q =
    update_kept q _ _ q.lease (λ v. unfold doomed in refl) (λ v t r. unfold doomed in ground arith)

mark_passed-KeepsTables :
    (now : ℕ) (ids : List Bytes) → Sets (λ q. record q { items = mark_passed now ids q.items })
unfolding mark_passed
mark_passed-KeepsTables now [] q w = tables_kept q w
mark_passed-KeepsTables now (id ∷ ids) q w =
    let marked : Queue = record q { items = update_where (has_id id) (passed_over now) q.items } in
    let kept : KeepsTables q marked =
      update_kept q _ _ q.lease (λ v. unfold passed_over in refl)
        (λ v t r. unfold passed_over in ground arith) w in
    KeepsTables-trans q marked _ kept
      (mark_passed-KeepsTables now ids marked (KeepsTables-IsWellFormed q marked kept w))

abbrev Taken : Type 0
Taken = Queue × Option WorkItem

claim_item-KeepsTables :
    (now : ℕ) (owner : Bytes) (taken : Option WorkItem) (q : Queue) (x : Taken)
    → IsWellFormed q
    → claim_item now owner q taken ≡ some x
    → KeepsTables q x.0
unfolding claim_item
claim_item-KeepsTables now owner none q x w h =
    let same : (q, none) ≡ x = cc in subst (λ (y : Taken). KeepsTables q y.0) same (tables_kept q w)
claim_item-KeepsTables now owner (some v) q x w h =
    elim (Option-cases
      (one_running (update_where (has_id v.work_id) (taken_item now owner) q.items))) [
        | inl e ↦ absurd (ground arith)
        | inr (items, e) ↦
            let same : (record q { items = items }, some v) ≡ x = ground arith in
            subst (λ (y : Taken). KeepsTables q y.0) same
              (admitted_rows q (has_id v.work_id) (taken_item now owner) items
                (λ u. unfold taken_item in refl) e)
      ]

take_next-KeepsTables :
    (now : ℕ) (owner : Bytes) (capabilities : List Bytes) (q : Queue) (x : Taken)
    → IsWellFormed q
    → take_next now owner capabilities q ≡ some x
    → KeepsTables q x.0
unfolding take_next
take_next-KeepsTables now owner capabilities q x w h =
    let (passed, taken) = scan capabilities (runnable_rows now q) in
    let marked : Queue = record q { items = mark_passed now passed q.items } in
    let kept : KeepsTables q marked = mark_passed-KeepsTables now passed q w in
    KeepsTables-trans q marked x.0 kept
      (claim_item-KeepsTables now owner taken marked x (KeepsTables-IsWellFormed q marked kept w) h)

pub claim_next_work-KeepsTables :
    (now : ℕ) (failure owner : Bytes) (capabilities : List Bytes) (q : Queue) (x : Taken)
    → IsWellFormed q
    → claim_next_work now failure owner capabilities q ≡ some x
    → KeepsTables q x.0
unfolding claim_next_work
claim_next_work-KeepsTables now failure owner capabilities q x w h =
    let fresh : Queue = propagate now failure q in
    let kept : KeepsTables q fresh = propagate-KeepsTables now failure q w in
    elim (Bool-cases (is_runner owner (propagate now failure q).lease)) [
      | inl e ↦
          let got : take_next now owner capabilities fresh ≡ some x = rw e at h in
          KeepsTables-trans q fresh x.0 kept (
            take_next-KeepsTables now owner capabilities fresh x
              (KeepsTables-IsWellFormed q fresh kept w) got)
      | inr e ↦
          let got : some (fresh, none) ≡ some x = rw e at h in
          let same : (fresh, none) ≡ x = cc in subst (λ (y : Taken). KeepsTables q y.0) same kept
    ]
