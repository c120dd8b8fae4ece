-- ===== src/Catalog/Changes/Steps.antt =====
-- Every call of the queue, row by row.
use repotraverse.Prelude.{
  ℕ, ◌≡◌, refl, subst, inl, inr, Bool, true, false, Option, none, some, List, arith, Bool-cases,
  Option-cases, Bytes, All, All-mono,
}
use repotraverse.Catalog.Tables.{
  WorkItem, RunnerLease, Queue, is_running, State, has_id, any_item, one_running, is_waiting,
}
use repotraverse.Catalog.Work.{
  owns, completed_item, complete_work, failed_item, fail_work, can_cancel, cancelled_item,
  cancel_work, put_state, set_task_state, queue_state, with_state, fail_task, failed_task,
}
use repotraverse.Catalog.Runner.{
  no_fresh_lease, recovered, recover, held_back, lacks_credential, any_compatible, runnable_rows,
  try_launch, claim_runner_launch, configure_launch, clear_lease, clear_failed_launch, Process,
  adopt_lease, adopt_runner, heartbeat_runner, claim_next_work, release_runner_if_empty,
}
use repotraverse.Catalog.Steps.{
  Op, enqueues, schedules, configures, launches, clears, adopts, beats, claims, completes, fails,
  cancels, releases, sets_state, fails_task, step, or_same, stores, reads_fact, publishes, picks,
}
use repotraverse.Catalog.WellFormed.{IsWellFormed}
use repotraverse.Catalog.Changes.{
  recovers, holds_back, ends, fails_once, is_cancelled, Follows, Grows, Grows-refl, Grows-trans,
  update_where-Grows, All-of, Change, is_set, fails_anyhow, gets_fact, loses_fact, is_picked,
  update_where,
}
use repotraverse.Catalog.Changes.Enqueue.{enqueue_work-Grows, schedule_task-Grows}
use repotraverse.Catalog.Changes.Claims.{claim_next_work-Grows}
use repotraverse.Catalog.Facts.{
  CacheLimits, stored_item, lacks_fact, rescheduled, store_fact, stored_rows, fact_for_task,
  first_fact, first_due, next_pending_task, pick_row, picked_item, mark_task_published,
}
use repotraverse.Catalog.Rows.{one_running_lem}
use repotraverse.Catalog.Changes.Waiting.{WaitingAt, first_due-WaitingAt}

module _ (now : ℕ) (q : Queue) where
  recover-Grows :
      (token : Bytes) (capabilities : List Bytes) (executable config : Bytes)
      → Grows
          (Follows now q (launches token capabilities executable config))
          q.items
          (recover now q).items
  unfolding recover
  recover-Grows token capabilities executable config =
      elim (Bool-cases (no_fresh_lease now q.lease)) [
        | inl e ↦ rw e (
            update_where-Grows now q (launches token capabilities executable config)
              (λ w. is_running w.state) (recovered now) q.items (λ w. unfold recovered in refl)
              (All-of _ q.items (λ w t. recovers w e t)))
        | inr e ↦ rw e (Grows-refl now q _ q.items)
      ]

  try_launch-Grows :
      (token : Bytes) (capabilities : List Bytes) (executable config : Bytes) (t : Queue)
      (l : Option RunnerLease)
      → Grows
          (Follows now q (launches token capabilities executable config))
          t.items
          (try_launch now token capabilities executable config t l).0.items
  unfolding try_launch
  try_launch-Grows token capabilities executable config t (some l) = Grows-refl now q _ t.items
  try_launch-Grows token capabilities executable config t none =
      elim (Bool-cases (any_compatible capabilities (runnable_rows now t))) [
        | inl e ↦ rw e (Grows-refl now q _ t.items)
        | inr e ↦ rw e (
            update_where-Grows now q (launches token capabilities executable config)
              lacks_credential held_back t.items (λ w. unfold held_back in refl)
              (All-of _ t.items (λ w t. holds_back w (ground arith))))
      ]

  launch-Grows :
      (token : Bytes) (capabilities : List Bytes) (executable config : Bytes)
      → Grows
          (Follows now q (launches token capabilities executable config))
          q.items
          (claim_runner_launch now token capabilities executable config q).0.items
  unfolding claim_runner_launch
  launch-Grows token capabilities executable config =
      Grows-trans now q (launches token capabilities executable config) q.items
        (recover now q).items _ (recover-Grows token capabilities executable config)
        (try_launch-Grows token capabilities executable config (recover now q)
          (recover now q).lease)

  clear_lease-items :
      (token : Bytes) (l : Option RunnerLease) → (clear_lease token q l).0.items ≡ q.items
  unfolding clear_lease
  clear_lease-items token none = refl
  clear_lease-items token (some l) = ground arith

  adopt_lease-items :
      (token : Bytes) (p : Process) (l : Option RunnerLease)
      → (adopt_lease now token p q l).0.items ≡ q.items
  unfolding adopt_lease
  adopt_lease-items token p none = refl
  adopt_lease-items token p (some l) = ground arith

  heartbeat_runner-items : (owner : Bytes) → (heartbeat_runner now owner q).0.items ≡ q.items
  unfolding heartbeat_runner
  heartbeat_runner-items owner = ground arith

  release-items : (owner : Bytes) → (release_runner_if_empty now owner q).0.items ≡ q.items
  unfolding release_runner_if_empty
  release-items owner = ground arith

  same_items : (op : Op) (ws : List WorkItem) → ws ≡ q.items → Grows (Follows now q op) q.items ws
  same_items op ws e = rw e (Grows-refl now q op q.items)

  admitted-Grows :
      (op : Op) (test : WorkItem → Bool) (change : WorkItem → WorkItem) (items : List WorkItem)
      → ((w : WorkItem) → (change w).work_id ≡ w.work_id)
      → All (λ w. test w ≡ true → Change now q op w (change w)) q.items
      → one_running (update_where test change q.items) ≡ some items
      → Grows (Follows now q op) q.items items
  admitted-Grows op test change items same h e =
      let (equal, _) = one_running_lem _ items e in
      subst (Grows (Follows now q op) q.items) equal
        (update_where-Grows now q op test change q.items same h)

  put_state-Grows :
      (id state : Bytes) (s : State)
      → Grows
          (Follows now q (sets_state id state))
          q.items
          (or_same q (λ x. x) (put_state now id s q)).items
  unfolding put_state or_same
  put_state-Grows id state s =
      elim (Option-cases (one_running (update_where (has_id id) (with_state now s) q.items))) [
        | inl e ↦ rw (e, put_state, or_same) (Grows-refl now q _ q.items)
        | inr (items, e) ↦
            rw (e, put_state, or_same)
              (admitted-Grows (sets_state id state) (has_id id) (with_state now s) items
                (λ v. unfold with_state in refl) (All-of _ q.items (λ v t. is_set v s t)) e)
      ]

  set_task_state-Grows :
      (id state : Bytes)
      → Grows
          (Follows now q (sets_state id state))
          q.items
          (or_same q (λ x. x) (set_task_state now id state q)).items
  unfolding set_task_state or_same
  set_task_state-Grows id state = elim (Option-cases (queue_state state)) [
    | inr (s, e) ↦ rw (e, set_task_state, or_same) (put_state-Grows id state s)
    | inl e ↦ elim (Bool-cases (any_item (has_id id) q.items)) [
      | inl k ↦ rw (e, set_task_state, or_same, k) (Grows-refl now q _ q.items)
      | inr k ↦ rw (e, set_task_state, or_same, k) (Grows-refl now q _ q.items)
    ]
  ]

  store_fact-Grows :
      (limits : CacheLimits) (id task : Bytes) (size : ℕ) (readable : Bool)
      → Grows
          (Follows now q (stores limits id task size readable))
          q.items
          (step now (stores limits id task size readable) q).items
  unfolding step store_fact or_same stored_rows
  store_fact-Grows limits id task size false = Grows-refl now q _ q.items
  store_fact-Grows limits id task size true =
      let op : Op = stores limits id task size true in
      let first : List WorkItem = update_where (has_id task) (stored_item now) q.items in
      Grows-trans now q op q.items first _
        (update_where-Grows now q op (has_id task) (stored_item now) q.items
          (λ w. unfold stored_item in refl) (All-of _ q.items (λ w t. gets_fact w t)))
        (update_where-Grows now q op (lacks_fact _) rescheduled first
          (λ w. unfold rescheduled in refl)
          (All-of _ first (λ w t. loses_fact w (ground arith) (ground arith))))

  pub fact_for_task-items : (task : Bytes) → (fact_for_task now task q).0.items ≡ q.items
  unfolding fact_for_task
  fact_for_task-items task = elim (Option-cases (first_fact task q.facts)) [
    | inl e ↦ rw (fact_for_task, e) refl
    | inr (f, e) ↦ rw (fact_for_task, e) refl
  ]

  pick_row-Grows :
      (row : Option WorkItem)
      → ((w : WorkItem) → row ≡ some w → WaitingAt q.items w.work_id)
      → Grows (Follows now q picks) q.items (pick_row q row).0.items
  unfolding pick_row
  pick_row-Grows none waits = Grows-refl now q _ q.items
  pick_row-Grows (some w) waits =
      elim (Option-cases (one_running (update_where (has_id w.work_id) picked_item q.items))) [
        | inl e ↦ rw (pick_row, e) (Grows-refl now q _ q.items)
        | inr (items, e) ↦
            rw (pick_row, e)
              (admitted-Grows picks (has_id w.work_id) picked_item items
                (λ v. unfold picked_item in refl)
                (All-mono (λ v. has_id w.work_id v ≡ true → is_waiting v.state ≡ true) _ q.items
                  (λ v f t. is_picked v (f t)) (waits w refl))
                e)
      ]

  next_pending_task-Grows :
      IsWellFormed q → Grows (Follows now q picks) q.items (next_pending_task now q).0.items
  unfolding next_pending_task
  next_pending_task-Grows k =
      pick_row-Grows (first_due now q.published q.items)
        (λ w e. first_due-WaitingAt now q.published q.items w k.queued e)

  -- A call keeps every row in its place, changed as the call may.
  pub step-Grows :
      (op : Op) → IsWellFormed q → Grows (Follows now q op) q.items (step now op q).items
  unfolding step
  step-Grows (enqueues token r) w = enqueue_work-Grows now q token r
  step-Grows (schedules token id task request) w = schedule_task-Grows now q token id task request
  step-Grows (configures capabilities executable config) w =
      unfold configure_launch in Grows-refl now q _ q.items
  step-Grows (launches token capabilities executable config) w =
      launch-Grows token capabilities executable config
  step-Grows (clears token) w =
      same_items (clears token) _ (unfold clear_failed_launch in clear_lease-items token q.lease)
  step-Grows (adopts token p) w =
      same_items (adopts token p) _ (unfold adopt_runner in adopt_lease-items token p q.lease)
  step-Grows (beats owner) w = same_items (beats owner) _ (heartbeat_runner-items owner)
  step-Grows (claims failure owner capabilities) w =
      elim (Option-cases (claim_next_work now failure owner capabilities q)) [
        | inl e ↦ rw (e, or_same) (Grows-refl now q _ q.items)
        | inr (x, e) ↦
            rw (e, or_same) (claim_next_work-Grows now q failure owner capabilities x w e)
      ]
  step-Grows (completes id owner progress) w =
      unfold complete_work in
      update_where-Grows now q (completes id owner progress) (owns id owner)
        (completed_item now progress) q.items (λ v. unfold completed_item in refl)
        (All-of _ q.items (λ v t. ends v t))
  step-Grows (fails id owner fingerprint maximum) w =
      unfold fail_work in
      update_where-Grows now q (fails id owner fingerprint maximum) (owns id owner)
        (failed_item now fingerprint maximum) q.items (λ v. unfold failed_item in refl)
        (All-of _ q.items (λ v t. fails_once v t))
  step-Grows (cancels id) w =
      unfold cancel_work in
      update_where-Grows now q (cancels id) (can_cancel id) (cancelled_item now) q.items
        (λ v. unfold cancelled_item in refl)
        (All-of _ q.items (λ v t. is_cancelled v (ground arith)))
  step-Grows (releases owner) w = same_items (releases owner) _ (release-items owner)
  step-Grows (sets_state id state) w = set_task_state-Grows id state
  step-Grows (fails_task id diagnostic maximum) w =
      unfold fail_task in
      update_where-Grows now q (fails_task id diagnostic maximum) (has_id id)
        (failed_task now diagnostic maximum) q.items (λ v. unfold failed_task in refl)
        (All-of _ q.items (λ v t. fails_anyhow v t))
  step-Grows (stores limits id task size readable) w = store_fact-Grows limits id task size readable
  step-Grows (reads_fact task) w = same_items (reads_fact task) _ (fact_for_task-items task)
  step-Grows (publishes id) w = unfold mark_task_published in Grows-refl now q _ q.items
  step-Grows picks w = next_pending_task-Grows w
