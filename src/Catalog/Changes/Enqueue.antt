-- ===== src/Catalog/Changes/Enqueue.antt =====
-- New work, row by row.
use repotraverse.Prelude.{
  ℕ, ◌≡◌, refl, inl, inr, Bool, ◌&&◌, ◌||◌, Option, none, some, List, arith, Bool-cases,
  Option-cases, Bytes, is_empty,
}
use repotraverse.Catalog.Tables.{WorkItem, Queue, is_dropped, any_item, has_id}
use repotraverse.Catalog.Work.{
  rerun, add_item, launch, can_launch, WorkRequest, Enqueued, link_row, enqueue_row, enqueue_work,
  add_task, schedule_task,
}
use repotraverse.Catalog.Steps.{enqueues, schedules, or_same}
use repotraverse.Catalog.Changes.{
  reruns, Follows, Grows, Grows-refl, Grows-append, update_where-Grows, All-of,
}

module _ (now : ℕ) (q : Queue) where
  add_item-Grows :
      (token : Bytes) (r : WorkRequest) (id kind parameters credential : Bytes) (maintenance : Bool)
      → Grows
          (Follows now q (enqueues token r))
          q.items
          (add_item now id kind parameters credential maintenance q.items)
  unfolding add_item
  add_item-Grows token r id kind parameters credential maintenance =
      elim (Bool-cases (any_item (has_id id) q.items)) [
        | inl e ↦ rw e (
            update_where-Grows now q (enqueues token r) (λ w. has_id id w && is_dropped w.state)
              (rerun now) q.items (λ w. unfold rerun in refl)
              (All-of _ q.items (λ w t. reruns w (ground arith))))
        | inr e ↦ rw e (Grows-append now q (enqueues token r) q.items _)
      ]

  link_row-items :
      (token : Bytes) (r : WorkRequest) (items : List WorkItem)
      (deps : Option (List (Bytes × Bytes))) (x : Queue × Enqueued)
      → link_row now token r q items deps ≡ some x
      → x.0.items ≡ items
  unfolding link_row launch
  link_row-items token r items none x h = cc
  link_row-items token r items (some deps) x h =
      elim (Bool-cases (can_launch r.credential_reference q)) [
        | inl k ↦ ground arith
        | inr k ↦ ground arith
      ]

  pub enqueue_work-items :
      (token : Bytes) (r : WorkRequest) (x : Queue × Enqueued)
      → enqueue_work now token r q ≡ some x
      → x.0.items
        ≡ add_item now r.work_id r.kind r.parameters r.credential_reference r.maintenance q.items
  unfolding enqueue_work enqueue_row
  enqueue_work-items token r x e = elim (Bool-cases (is_empty r.kind || r.has_secret)) [
    | inl k ↦ let bad : none ≡ some x = rw k at e in cc
    | inr k ↦ link_row-items token r _ _ x (rw k at e)
  ]

  pub enqueue_work-Grows :
      (token : Bytes) (r : WorkRequest)
      → Grows
          (Follows now q (enqueues token r))
          q.items
          (or_same q (λ x. x.0) (enqueue_work now token r q)).items
  unfolding or_same
  enqueue_work-Grows token r = elim (Option-cases (enqueue_work now token r q)) [
    | inl e ↦ rw (e, or_same) (Grows-refl now q (enqueues token r) q.items)
    | inr (x, e) ↦
        let same = enqueue_work-items token r x e in
        rw (e, or_same, same)
          (add_item-Grows token r r.work_id r.kind r.parameters r.credential_reference
            r.maintenance)
  ]

  pub schedule_task-Grows :
      (token id task request : Bytes)
      → Grows
          (Follows now q (schedules token id task request))
          q.items
          (schedule_task now token id task request q).items
  unfolding schedule_task launch add_task
  schedule_task-Grows token id task request = elim (Bool-cases (any_item (has_id id) q.items)) [
    | inl e ↦ elim (Bool-cases (is_empty q.launch_executable_identity)) [
      | inl k ↦ rw (e, k) (Grows-refl now q _ q.items)
      | inr k ↦ rw (e, k) (Grows-refl now q _ q.items)
    ]
    | inr e ↦ elim (Bool-cases (is_empty q.launch_executable_identity)) [
      | inl k ↦ rw (e, k) (Grows-append now q _ q.items _)
      | inr k ↦ rw (e, k) (Grows-append now q _ q.items _)
    ]
  ]
