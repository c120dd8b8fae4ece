-- ===== src/Catalog/WellFormed/Updates.antt =====
-- The calls that change rows where they stand, or the lease.
use repotraverse.Prelude.{
  ℕ, refl, inl, inr, Bool, true, false, ◌&&◌, Option, none, some, List, arith, Bool-cases,
  Option-cases, Bytes, text_eq,
}
use repotraverse.Catalog.Tables.{
  State, RunnerLease, update_where, any_item, has_id, one_running, drop_stale, Fact, WorkItem,
  Queue,
}
use repotraverse.Catalog.Work.{
  completed_item, complete_work, failed_state, failed_item, fail_work, failed_task, fail_task,
  queue_state, with_state, put_state, set_task_state, cancelled_item, cancel_work,
}
use repotraverse.Catalog.Runner.{
  recovered, recover, held_back, try_launch, claim_runner_launch, Process, heartbeat_runner,
  release_runner_if_empty, no_fresh_lease, any_compatible, runnable_rows, is_launching, may_adopt,
  is_runner, is_ready, clear_lease, adopt_lease,
}
use repotraverse.Catalog.Steps.{or_same}
use repotraverse.Catalog.WellFormed.{
  KeepsTables-IsWellFormed, update_kept, lease_kept_tables, tables_kept, KeepsTables-trans,
  admitted_rows, Sets, IsWellFormed, KeepsTables,
}
use repotraverse.Catalog.Facts.{
  CacheLimits, store_fact, stored_rows, stored_item, lacks_fact, rescheduled, fact_for_task,
  first_fact, pick_row, picked_item, next_pending_task, first_due,
}

pub complete_work-KeepsTables :
    (now : ℕ) (id owner progress : Bytes) → Sets (complete_work now id owner progress)
unfolding complete_work
complete_work-KeepsTables now id owner progress q =
    update_kept q _ _ q.lease (λ w. unfold completed_item in refl) (λ w t r. ground arith)

pub fail_work-KeepsTables :
    (now : ℕ) (id owner fingerprint : Bytes) (maximum : ℕ)
    → Sets (λ q. (fail_work now id owner fingerprint maximum q).0)
unfolding fail_work
fail_work-KeepsTables now id owner fingerprint maximum q =
    update_kept q _ _ q.lease (λ w. unfold failed_item in refl) (λ w t r. ground arith)

pub cancel_work-KeepsTables : (now : ℕ) (id : Bytes) → Sets (λ q. (cancel_work now id q).0)
unfolding cancel_work
cancel_work-KeepsTables now id q =
    update_kept q _ _ q.lease (λ w. unfold cancelled_item in refl)
      (λ w t r. unfold cancelled_item in ground arith)

pub fail_task-KeepsTables :
    (now : ℕ) (id diagnostic : Bytes) (maximum : ℕ)
    → Sets (λ q. (fail_task now id diagnostic maximum q).0)
unfolding fail_task
fail_task-KeepsTables now id diagnostic maximum q =
    update_kept q _ _ q.lease (λ w. unfold failed_task in refl)
      (λ w t r. unfold failed_task failed_state in ground arith)

put_state-KeepsTables :
    (now : ℕ) (id : Bytes) (state : State)
    → Sets (λ q. or_same q (λ x. x) (put_state now id state q))
unfolding put_state or_same
put_state-KeepsTables now id state q w =
    elim (Option-cases (one_running (update_where (has_id id) (with_state now state) q.items))) [
      | inl e ↦ rw (e, put_state, or_same) (tables_kept q w)
      | inr (items, e) ↦
          rw (e, put_state, or_same)
            (admitted_rows q (has_id id) (with_state now state) items
              (λ v. unfold with_state in refl) e)
    ]

pub set_task_state-KeepsTables :
    (now : ℕ) (id state : Bytes) → Sets (λ q. or_same q (λ x. x) (set_task_state now id state q))
unfolding set_task_state or_same
set_task_state-KeepsTables now id state q w = elim (Option-cases (queue_state state)) [
  | inr (s, e) ↦ rw (e, set_task_state, or_same) (put_state-KeepsTables now id s q w)
  | inl e ↦ elim (Bool-cases (any_item (has_id id) q.items)) [
    | inl k ↦ rw (e, set_task_state, or_same, k) (tables_kept q w)
    | inr k ↦ rw (e, set_task_state, or_same, k) (tables_kept q w)
  ]
]

recover-KeepsTables : (now : ℕ) → Sets (recover now)
unfolding recover
recover-KeepsTables now q w = elim (Bool-cases (no_fresh_lease now q.lease)) [
  | inl e ↦ rw e (
      update_kept q _ _ (drop_stale now q.lease) (λ v. unfold recovered in refl)
        (λ v t r. unfold recovered in ground arith) w)
  | inr e ↦ rw e (lease_kept_tables q (drop_stale now q.lease) w)
]

try_launch-KeepsTables :
    (now : ℕ) (token : Bytes) (capabilities : List Bytes) (executable config : Bytes)
    (l : Option RunnerLease)
    → Sets (λ q. (try_launch now token capabilities executable config q l).0)
unfolding try_launch
try_launch-KeepsTables now token capabilities executable config (some l) q w = tables_kept q w
try_launch-KeepsTables now token capabilities executable config none q w =
    elim (Bool-cases (any_compatible capabilities (runnable_rows now q))) [
      | inl e ↦ rw e (lease_kept_tables q _ w)
      | inr e ↦ rw e (
          update_kept q _ _ q.lease (λ v. unfold held_back in refl)
            (λ v t r. unfold held_back in ground arith) w)
    ]

pub claim_runner_launch-KeepsTables :
    (now : ℕ) (token : Bytes) (capabilities : List Bytes) (executable config : Bytes)
    → Sets (λ q. (claim_runner_launch now token capabilities executable config q).0)
unfolding claim_runner_launch
claim_runner_launch-KeepsTables now token capabilities executable config q w =
    let kept = recover-KeepsTables now q w in
    KeepsTables-trans q (recover now q) _ kept (
      try_launch-KeepsTables now token capabilities executable config (recover now q).lease
        (recover now q) (KeepsTables-IsWellFormed q (recover now q) kept w))

pub clear_lease-KeepsTables :
    (token : Bytes) (l : Option RunnerLease) → Sets (λ q. (clear_lease token q l).0)
unfolding clear_lease
clear_lease-KeepsTables token none q w = tables_kept q w
clear_lease-KeepsTables token (some l) q w =
    elim (Bool-cases (is_launching l && text_eq l.adoption_token token)) [
      | inl e ↦ rw e (lease_kept_tables q none w)
      | inr e ↦ rw e (tables_kept q w)
    ]

pub adopt_lease-KeepsTables :
    (now : ℕ) (token : Bytes) (p : Process) (l : Option RunnerLease)
    → Sets (λ q. (adopt_lease now token p q l).0)
unfolding adopt_lease
adopt_lease-KeepsTables now token p none q w = tables_kept q w
adopt_lease-KeepsTables now token p (some l) q w = elim (Bool-cases (may_adopt token p l)) [
  | inl e ↦ rw e (lease_kept_tables q _ w)
  | inr e ↦ rw e (tables_kept q w)
]

pub heartbeat_runner-KeepsTables :
    (now : ℕ) (owner : Bytes) → Sets (λ q. (heartbeat_runner now owner q).0)
unfolding heartbeat_runner
heartbeat_runner-KeepsTables now owner q w = elim (Bool-cases (is_runner owner q.lease)) [
  | inl e ↦ rw e (lease_kept_tables q _ w)
  | inr e ↦ rw e (tables_kept q w)
]

pub release-KeepsTables :
    (now : ℕ) (owner : Bytes) → Sets (λ q. (release_runner_if_empty now owner q).0)
unfolding release_runner_if_empty
release-KeepsTables now owner q w = elim (Bool-cases (any_item (is_ready now q) q.items)) [
  | inl e ↦ rw e (tables_kept q w)
  | inr e ↦ elim (Bool-cases (is_runner owner q.lease)) [
    | inl k ↦ rw (e, k) (lease_kept_tables q none w)
    | inr k ↦ rw (e, k) (tables_kept q w)
  ]
]

pub store_fact-KeepsTables :
    (now : ℕ) (limits : CacheLimits) (id task : Bytes) (size : ℕ) (readable : Bool)
    → Sets (λ q. or_same q (λ x. x) (store_fact now limits id task size readable q))
unfolding store_fact or_same stored_rows
store_fact-KeepsTables now limits id task size false q w = tables_kept q w
store_fact-KeepsTables now limits id task size true q w =
    let first : Queue = record q {
      items = update_where (has_id task) (stored_item now) q.items;
      lease = q.lease;
    } in
    let one =
      update_kept q (has_id task) (stored_item now) q.lease (λ v. unfold stored_item in refl)
        (λ v t r. unfold stored_item in ground arith) w in
    let two =
      update_kept first (lacks_fact _) rescheduled q.lease (λ v. unfold rescheduled in refl)
        (λ v t r. unfold rescheduled in ground arith) (KeepsTables-IsWellFormed q first one w) in
    let all = KeepsTables-trans q first _ one two in
    record {
      same_keys = all.same_keys;
      not_more = all.not_more;
      same_dependencies = refl;
      same_invocations = refl;
    }

-- The calls that change the facts alone, or what is published.
pub rest_kept :
    (q : Queue) (facts : List Fact) (published : List Bytes)
    → IsWellFormed q
    → KeepsTables q (record q { facts = facts; published = published })
rest_kept q facts published w = record {
  same_keys = refl;
  not_more = w.one_runs;
  same_dependencies = refl;
  same_invocations = refl;
}

pub fact_for_task-KeepsTables : (now : ℕ) (task : Bytes) → Sets (λ q. (fact_for_task now task q).0)
unfolding fact_for_task
fact_for_task-KeepsTables now task q w = elim (Option-cases (first_fact task q.facts)) [
  | inl e ↦ rw (fact_for_task, e) (tables_kept q w)
  | inr (f, e) ↦ rw (fact_for_task, e) (rest_kept q _ q.published w)
]

pick_row-KeepsTables : (row : Option WorkItem) → Sets (λ q. (pick_row q row).0)
unfolding pick_row
pick_row-KeepsTables none q w = tables_kept q w
pick_row-KeepsTables (some v) q w =
    elim (Option-cases (one_running (update_where (has_id v.work_id) picked_item q.items))) [
      | inl e ↦ rw (pick_row, e) (tables_kept q w)
      | inr (items, e) ↦
          rw (pick_row, e)
            (admitted_rows q (has_id v.work_id) picked_item items (λ u. unfold picked_item in refl)
              e)
    ]

pub next_pending_task-KeepsTables : (now : ℕ) → Sets (λ q. (next_pending_task now q).0)
unfolding next_pending_task
next_pending_task-KeepsTables now q = pick_row-KeepsTables (first_due now q.published q.items) q
