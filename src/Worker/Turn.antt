-- ===== src/Worker/Turn.antt =====
-- src/worker.cpp and app/main.cpp: after its turn, no work runs.
use repotraverse.Prelude.{
  ℕ, ◌≡◌, refl, ◌∙◌, subst, ◌⊎◌, inl, inr, Bool, false, ◌&&◌, not, Option, none, some, List, [],
  ◌∷◌, arith, if◌then◌else◌, Bool-cases, Option-cases, Bytes, codes, text_eq, text_eq_iff, All,
}
use repotraverse.Catalog.Tables.{
  State, WorkItem, Queue, is_running, update_where, any_item, has_id, count_running, one_running,
  pending, completed, waiting_for_credential,
}
use repotraverse.Catalog.Work.{
  owns, queue_state, with_state, put_state, set_task_state, failed_state, failed_task, fail_task,
  completed_item, complete_work, failed_item, fail_work,
}
use repotraverse.Catalog.Rows.{one_running_lem, count_running-update_where}
use repotraverse.Worker.{
  Task, WorkerOptions, World, Ending, threw, was_cancelled, concluded, Reply, answers, fails,
  nothing, conclude_output, run_extractor, catch_failure, set_or_catch, finish_task, process_task,
  run_claimed, run_task, end_work, import_all,
}
use repotraverse.Worker.Imports.{
  OnlyRuns, IsHeld, IsThere, BringsNone, IsHeld-OnlyRuns, import_all-OnlyRuns, import_all-IsHeld,
}

-- A change of the rows of the id that keeps their ids and owners.
update_where-IsHeld :
    (id owner : Bytes) (change : WorkItem → WorkItem) (ws : List WorkItem)
    → ((w : WorkItem) → (change w).work_id ≡ w.work_id)
    → ((w : WorkItem) → (change w).owner ≡ w.owner)
    → IsHeld id owner ws
    → IsHeld id owner (update_where (has_id id) change ws)
unfolding update_where
update_where-IsHeld id owner change [] same kept h = tt
update_where-IsHeld id owner change (w ∷ ws) same kept ((h, k), hs) =
    let rest = update_where-IsHeld id owner change ws same kept hs in
    elim (Bool-cases (has_id id w)) [
      | inl e ↦ rw e (((λ _. rw (same w) e), (λ _. kept w ∙ k e)), rest)
      | inr e ↦ rw e ((h, k), rest)
    ]

-- The end of what the owner runs leaves nothing that runs.
update_where-ends :
    (id owner : Bytes) (change : WorkItem → WorkItem) (ws : List WorkItem)
    → ((w : WorkItem) → is_running (change w).state ≡ false)
    → IsHeld id owner ws
    → count_running (update_where (owns id owner) change ws) ≡ 0
unfolding update_where count_running
update_where-ends id owner change [] still h = refl
update_where-ends id owner change (w ∷ ws) still ((h, k), hs) =
    let rest = update_where-ends id owner change ws still hs in
    elim (Bool-cases (owns id owner w)) [
      | inl e ↦ rw (e, still w) rest
      | inr e ↦ elim (Bool-cases (is_running w.state)) [
        | inl r ↦
            let named = h r in
            let own = (text_eq_iff w.owner owner).1 (k named) in absurd (ground arith)
        | inr r ↦ rw (e, r) rest
      ]
    ]

-- A change of the rows of the id that sets none running leaves nothing that runs.
update_where-stops :
    (id : Bytes) (change : WorkItem → WorkItem) (ws : List WorkItem)
    → ((w : WorkItem) → is_running (change w).state ≡ false)
    → OnlyRuns id ws
    → count_running (update_where (has_id id) change ws) ≡ 0
unfolding update_where count_running
update_where-stops id change [] still h = refl
update_where-stops id change (w ∷ ws) still (h, hs) =
    let rest = update_where-stops id change ws still hs in
    elim (Bool-cases (has_id id w)) [
      | inl e ↦ rw (e, still w) rest
      | inr e ↦ elim (Bool-cases (is_running w.state)) [
        | inl r ↦ let named = h r in absurd (ground arith)
        | inr r ↦ rw (e, r) rest
      ]
    ]

-- What does not run stays so.
update_where-stopped :
    (test : WorkItem → Bool) (change : WorkItem → WorkItem) (ws : List WorkItem)
    → ((w : WorkItem) → is_running (change w).state ≡ false)
    → count_running ws ≡ 0
    → count_running (update_where test change ws) ≡ 0
update_where-stopped test change ws still h =
    let less =
      count_running-update_where test change ws
        (λ w t r. let no = still w in absurd (ground arith)) in
    omega arith

put_state-stops :
    (now : ℕ) (id : Bytes) (s : State) (q t : Queue)
    → is_running s ≡ false
    → OnlyRuns id q.items
    → put_state now id s q ≡ some t
    → count_running t.items ≡ 0
unfolding put_state
put_state-stops now id s q t still h e =
    elim (Option-cases (one_running (update_where (has_id id) (with_state now s) q.items))) [
      | inl n ↦ absurd (ground arith)
      | inr (items, n) ↦
          let (equal, _) = one_running_lem _ items n in
          let same : items ≡ t.items = ground arith in
          subst (λ ws. count_running ws ≡ 0) (equal ∙ same)
            (update_where-stops id (with_state now s) q.items (λ w. unfold with_state in still) h)
    ]

put_state-IsHeld :
    (now : ℕ) (id owner : Bytes) (s : State) (q t : Queue)
    → IsHeld id owner q.items
    → put_state now id s q ≡ some t
    → IsHeld id owner t.items
unfolding put_state
put_state-IsHeld now id owner s q t h e =
    elim (Option-cases (one_running (update_where (has_id id) (with_state now s) q.items))) [
      | inl n ↦ absurd (ground arith)
      | inr (items, n) ↦
          let (equal, _) = one_running_lem _ items n in
          let same : items ≡ t.items = ground arith in
          subst (IsHeld id owner) (equal ∙ same) (
            update_where-IsHeld id owner (with_state now s) q.items (λ w. unfold with_state in refl)
              (λ w. unfold with_state in refl) h)
    ]

set_task_state-IsHeld :
    (now : ℕ) (id owner state : Bytes) (q t : Queue)
    → IsHeld id owner q.items
    → set_task_state now id state q ≡ some t
    → IsHeld id owner t.items
unfolding set_task_state
set_task_state-IsHeld now id owner state q t h e = elim (Option-cases (queue_state state)) [
  | inr (s, n) ↦ put_state-IsHeld now id owner s q t h (rw (set_task_state, n) at e)
  | inl n ↦
      let got : (if any_item (has_id id) q.items then none else some q) ≡ some t =
        rw (set_task_state, n) at e in
      elim (Bool-cases (any_item (has_id id) q.items)) [
        | inl k ↦ absurd (ground arith)
        | inr k ↦
            let same : q ≡ t = ground arith in subst (λ (x : Queue). IsHeld id owner x.items) same h
      ]
]

module _ (world : World) (options : WorkerOptions) (now : ℕ) (owner : Bytes) (task : Task)
    (diagnostic : Bytes) where
  -- Nothing runs, or what runs is the owner's.
  abbrev IsDone : Queue → Type 0
  IsDone q = (count_running q.items ≡ 0) ⊎ IsHeld task.task_id owner q.items

  catch_failure-stops :
      (q : Queue)
      → OnlyRuns task.task_id q.items
      → count_running (catch_failure world options now task diagnostic q).0.items ≡ 0
  unfolding catch_failure fail_task
  catch_failure-stops q h =
      update_where-stops task.task_id (failed_task now diagnostic options.max_attempts) q.items
        (λ w. unfold failed_task failed_state in ground arith) h

  set_or_catch-stops :
      (state answer : Bytes) (s : State) (q : Queue)
      → queue_state state ≡ some s
      → is_running s ≡ false
      → OnlyRuns task.task_id q.items
      → count_running (set_or_catch world options now task diagnostic state answer q).0.items ≡ 0
  unfolding set_or_catch set_task_state
  set_or_catch-stops state answer s q is still h =
      elim (Option-cases (put_state now task.task_id s q)) [
        | inl e ↦ rw (set_or_catch, set_task_state, is, e) (catch_failure-stops q h)
        | inr (t, e) ↦
            rw (set_or_catch, set_task_state, is, e)
              (put_state-stops now task.task_id s q t still h e)
      ]

  concluded-stops :
      (state : Bytes) (q : Queue)
      → OnlyRuns task.task_id q.items
      → count_running
          (set_or_catch world options now task diagnostic
            (if text_eq state (codes "completed") then codes "completed" else codes "pending")
            state
            q).0.items
        ≡ 0
  unfolding queue_state text_eq
  concluded-stops state q h = elim (Bool-cases (text_eq state (codes "completed"))) [
    | inl e ↦ rw e (set_or_catch-stops (codes "completed") state completed q refl refl h)
    | inr e ↦ rw e (set_or_catch-stops (codes "pending") state pending q refl refl h)
  ]

  finish_task-IsDone :
      (q : Queue) (ending : Ending world options)
      → IsHeld task.task_id owner q.items
      → IsDone (finish_task world options now task diagnostic q ending).0
  unfolding finish_task
  finish_task-IsDone q (threw imports) h = inl (
      catch_failure-stops (import_all now imports q) (
        import_all-OnlyRuns task.task_id now imports q
          (IsHeld-OnlyRuns task.task_id owner q.items h)))
  finish_task-IsDone q was_cancelled h = inr h
  finish_task-IsDone q (concluded imports state) h = inl (
      concluded-stops state (import_all now imports q) (
        import_all-OnlyRuns task.task_id now imports q
          (IsHeld-OnlyRuns task.task_id owner q.items h)))

  process_task-IsDone :
      (q : Queue)
      → IsHeld task.task_id owner q.items
      → IsDone (process_task world options now task diagnostic q).0
  unfolding process_task
  process_task-IsDone q h =
      elim (Option-cases (set_task_state now task.task_id (codes "processing") q)) [
        | inl e ↦
            rw (process_task, e)
              (inl (catch_failure-stops q (IsHeld-OnlyRuns task.task_id owner q.items h)))
        | inr (t, e) ↦
            rw (process_task, e)
              (finish_task-IsDone t
                (conclude_output world options task (run_extractor world options task))
                (set_task_state-IsHeld now task.task_id owner (codes "processing") q t h e))
      ]

  run_claimed-IsDone :
      (q : Queue) (claim : Option Bytes)
      → IsHeld task.task_id owner q.items
      → IsDone (run_claimed world options now task diagnostic q claim).0
  unfolding run_claimed
  run_claimed-IsDone q none h =
      inl (catch_failure-stops q (IsHeld-OnlyRuns task.task_id owner q.items h))
  run_claimed-IsDone q (some state) h =
      let only = IsHeld-OnlyRuns task.task_id owner q.items h in
      elim (Bool-cases (text_eq state (codes "completed"))) [
        | inl e ↦ rw e (
            inl (
              set_or_catch-stops (codes "completed") state completed q
                (unfold queue_state text_eq in refl) refl only))
        | inr e ↦
            elim (Bool-cases (
              not (text_eq state (codes "processing"))
              && not (text_eq state (codes "processing_local")))) [
                | inl k ↦
                    rw (e, k)
                      (inl (
                        set_or_catch-stops (codes "waiting") state pending q
                          (unfold queue_state text_eq in refl) refl only))
                | inr k ↦ rw (e, k) (process_task-IsDone q h)
              ]
      ]

  pub run_task-IsDone :
      (q : Queue)
      → All (BringsNone task.task_id) (world.acquire_claim task).0
      → IsThere task.task_id q.items
      → IsHeld task.task_id owner q.items
      → IsDone (run_task world options now task diagnostic q).0
  unfolding run_task
  run_task-IsDone q brings there h =
      elim (Bool-cases (text_eq task.extractor_identity options.extractor_identity)) [
        | inl e ↦ rw e (
            run_claimed-IsDone (import_all now (world.acquire_claim task).0 q) _ (
              import_all-IsHeld task.task_id now owner (world.acquire_claim task).0 q brings there
                h))
        | inr e ↦ rw e (
            inl (
              set_or_catch-stops (codes "incompatible_worker") _ waiting_for_credential q
                (unfold queue_state text_eq in refl) refl
                (IsHeld-OnlyRuns task.task_id owner q.items h)))
      ]

  completes-ends :
      (progress : Bytes) (q : Queue)
      → IsDone q
      → count_running (complete_work now task.task_id owner progress q).items ≡ 0
  unfolding complete_work
  completes-ends progress q (inl h) =
      update_where-stopped _ (completed_item now progress) q.items
        (λ w. unfold completed_item in ground arith) h
  completes-ends progress q (inr h) =
      update_where-ends task.task_id owner (completed_item now progress) q.items
        (λ w. unfold completed_item in ground arith) h

  fails-ends :
      (q : Queue)
      → IsDone q
      → count_running (fail_work now task.task_id owner diagnostic options.max_attempts q).0.items
        ≡ 0
  unfolding fail_work
  fails-ends q (inl h) =
      update_where-stopped _ (failed_item now diagnostic options.max_attempts) q.items
        (λ w. unfold failed_item failed_state in ground arith) h
  fails-ends q (inr h) =
      update_where-ends task.task_id owner (failed_item now diagnostic options.max_attempts) q.items
        (λ w. unfold failed_item failed_state in ground arith) h

  pub end_work-ends :
      (progress : Bytes) (q : Queue) (reply : Reply world options)
      → IsDone q
      → count_running
          (end_work world options now task.task_id owner progress diagnostic (q, reply)).items
        ≡ 0
  unfolding end_work
  end_work-ends progress q nothing h = fails-ends q h
  end_work-ends progress q (answers state) h = completes-ends progress q h
  end_work-ends progress q (fails state) h = completes-ends progress q h
