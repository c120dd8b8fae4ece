-- ===== src/Worker/Freed.antt =====
-- src/worker.cpp and app/main.cpp: the turn of the runner frees the queue for the next item.
use repotraverse.Prelude.{
  ℕ, ◌+◌, ◌≤◌, ◌≡◌, refl, sym, ◌∙◌, subst, inl, inr, true, false, some, List, [], ◌∷◌, arith,
  Bool-cases, Bytes, text_eq, text_eq_iff, All, All-mono,
}
use repotraverse.Catalog.Tables.{
  WorkItem, Queue, is_running, has_id, find_item, count_running, any_item,
}
use repotraverse.Catalog.Rows.{keys, IsQueued}
use repotraverse.Catalog.WellFormed.{IsWellFormed}
use repotraverse.Catalog.Life.{RunsFor}
use repotraverse.Catalog.Next.Taken.{find_item-row}
use repotraverse.Worker.{Task, WorkerOptions, World, run_task, extraction_turn}
use repotraverse.Worker.Imports.{IsHeld, IsThere, BringsNone}
use repotraverse.Worker.Turn.{run_task-IsDone, end_work-ends}

none_running :
    (id : Bytes) (ws : List WorkItem)
    → count_running ws ≡ 0
    → All (λ w. is_running w.state ≡ true → has_id id w ≡ true) ws
unfolding count_running
none_running id [] h = tt
none_running id (w ∷ ws) h = elim (Bool-cases (is_running w.state)) [
  | inl e ↦ let more : count_running ws + 1 ≡ 0 = rw e at h in absurd (omega (arith, more))
  | inr e ↦ ((λ k. let bad : true ≡ false = sym k ∙ e in cc), none_running id ws (rw e at h))
]

found_running :
    (id : Bytes) (ws : List WorkItem) (v : WorkItem)
    → find_item id ws ≡ some v
    → is_running v.state ≡ true
    → 1 ≤ count_running ws
unfolding find_item count_running
found_running id [] v f r = cc
found_running id (w ∷ ws) v f r = elim (Bool-cases (text_eq w.work_id id)) [
  | inl e ↦
      let same : w ≡ v = ground arith in
      let runs : is_running w.state ≡ true = rw same r in rw runs (omega arith)
  | inr e ↦
      let rest = found_running id ws v (ground arith) r in
      elim (Bool-cases (is_running w.state)) [
        | inl k ↦ rw k (omega (arith, rest))
        | inr k ↦ rw k rest
      ]
]

-- Only the row that runs, of those of other ids none.
alone_running :
    (id : Bytes) (ws : List WorkItem) (v : WorkItem)
    → count_running ws ≤ 1
    → find_item id ws ≡ some v
    → is_running v.state ≡ true
    → All (λ w. is_running w.state ≡ true → has_id id w ≡ true) ws
unfolding find_item count_running
alone_running id [] v one f r = cc
alone_running id (w ∷ ws) v one f r = elim (Bool-cases (text_eq w.work_id id)) [
  | inl e ↦
      let same : w ≡ v = ground arith in
      let runs : is_running w.state ≡ true = rw same r in
      let less : count_running ws + 1 ≤ 1 = rw runs at one in
      ((λ _. e), none_running id ws (omega (arith, less)))
  | inr e ↦
      let at : find_item id ws ≡ some v = ground arith in
      let some_runs = found_running id ws v at r in
      elim (Bool-cases (is_running w.state)) [
        | inl k ↦
            let more : count_running ws + 1 ≤ 1 = rw k at one in
            absurd (omega (arith, more, some_runs))
        | inr k ↦ (
          (λ yes. let bad : true ≡ false = sym yes ∙ k in cc),
          alone_running id ws v (rw k at one) at r,
        )
      ]
]

owned_rows :
    (id owner : Bytes) (ws : List WorkItem) (v : WorkItem)
    → IsQueued (keys ws)
    → find_item id ws ≡ some v
    → v.owner ≡ owner
    → All (λ w. has_id id w ≡ true → w.owner ≡ owner) ws
owned_rows id owner ws v k f o =
    All-mono (λ w. find_item w.work_id ws ≡ some w) _ ws
      (λ w row h.
        let named : w.work_id ≡ id = (text_eq_iff w.work_id id).0 h in
        let at : find_item id ws ≡ some w = subst (λ i. find_item i ws ≡ some w) named row in
        let same : v ≡ w = ground arith in subst (λ x. x.owner ≡ owner) same o)
      (find_item-row ws k)

found-IsThere :
    (id : Bytes) (ws : List WorkItem) (v : WorkItem) → find_item id ws ≡ some v → IsThere id ws
unfolding find_item any_item
found-IsThere id [] v f = cc
found-IsThere id (w ∷ ws) v f = elim (Bool-cases (text_eq w.work_id id)) [
  | inl e ↦ rw e refl
  | inr e ↦ let rest = found-IsThere id ws v (ground arith) in rw e rest
]

both {ℓ} :
    {A : Type ℓ} (P Q : A → Type 0) (xs : List A) → All P xs → All Q xs → All (λ x. P x × Q x) xs
both P Q [] h k = tt
both P Q (x ∷ xs) (h, hs) (k, ks) = ((h, k), both P Q xs hs ks)

-- Whatever the platform and the extractor answer or throw, whatever tasks and facts the coordinator brings
-- into the catalog (but no fact of this very task while the claim is acquired), and whatever state the
-- task ends in, if no other program writes there meanwhile: once the runner has made its turn with an
-- extraction that ran for it, no item runs.
pub extraction_turn-frees :
    (world : World) (options : WorkerOptions) (now : ℕ) (owner : Bytes) (task : Task)
    (progress diagnostic : Bytes) (q : Queue) (v : WorkItem)
    → All (BringsNone task.task_id) (world.acquire_claim task).0
    → IsWellFormed q
    → find_item task.task_id q.items ≡ some v
    → RunsFor owner v
    → count_running (extraction_turn world options now owner task progress diagnostic q).items ≡ 0
unfolding extraction_turn
extraction_turn-frees world options now owner task progress diagnostic q v brings well f r =
    let held : IsHeld task.task_id owner q.items =
      both (λ w. is_running w.state ≡ true → has_id task.task_id w ≡ true)
        (λ w. has_id task.task_id w ≡ true → w.owner ≡ owner) q.items
        (alone_running task.task_id q.items v well.one_runs f r.runs)
        (owned_rows task.task_id owner q.items v well.queued f r.owned) in
    end_work-ends world options now owner task diagnostic progress
      (run_task world options now task diagnostic q).0
      (run_task world options now task diagnostic q).1
      (run_task-IsDone world options now owner task diagnostic q brings
        (found-IsThere task.task_id q.items v f) held)
