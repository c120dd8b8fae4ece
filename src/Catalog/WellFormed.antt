-- ===== src/Catalog/WellFormed.antt =====
-- The tables of the queue stay well-formed.
pub mod Updates
pub mod Claims
pub mod Runs
use repotraverse.Prelude.{
  ℕ, zero, suc, ◌+◌, ◌-◌, ◌*◌, ◌/◌, ◌%◌, ◌^◌, ◌≤◌, ◌<◌, ◌≡◌, refl, sym, ap, ◌∙◌, subst, ◌≢◌, ◌↔◌,
  ◌⊎◌, inl, inr, Bool, true, false, ◌&&◌, ◌||◌, not, Option, none, some, List, [], ◌∷◌, ◌++◌, map,
  append_assoc, append-nil, arith, ltb, leb, ◌==◌, within, if◌then◌else◌, ltb→lt, lt→ltb, leb→le,
  ==_iff, Bool-cases, Option-cases, Bytes, codes, text_eq, text_eq_iff, is_empty, contains, length,
  take, drop, length-append, take-append, drop-append, All, All-append, All-mono, get_elem?,
  All-get_elem?, Listed,
}
use repotraverse.Catalog.Tables.{
  State, WorkItem, RunnerLease, Queue, is_running, is_dropped, update_where, any_item, has_id,
  find_item, count_running, one_running, max_sequence, drop_stale, insert_pair, has_pair,
}
use repotraverse.Catalog.Work.{
  new_item, rerun, add_item, link, add_dependencies, launch, can_launch, WorkRequest, enqueue_row,
  enqueue_work, schedule_task, owns, completed_item, complete_work, failed_state, failed_item,
  fail_work, failed_task, fail_task, queue_state, with_state, put_state, set_task_state, can_cancel,
  cancelled_item, cancel_work,
}
use repotraverse.Catalog.Runner.{
  recovered, recover, held_back, try_launch, claim_runner_launch, clear_failed_launch, Process,
  adopt_runner, heartbeat_runner, doomed, propagate, is_doomed, passed_over, mark_passed,
  taken_item, claim_item, take_next, claim_next_work, release_runner_if_empty, no_fresh_lease,
  any_compatible, runnable_rows, is_launching, may_adopt, is_runner, scan, configure_launch,
  is_ready, clear_lease, adopt_lease, adopted,
}
use repotraverse.Catalog.Steps.{Op, step, run, or_same, empty_queue}
use repotraverse.Catalog.Rows.{
  keys, key, has_key, any_item-has_id, keys-update_where, count_running-update_where,
  one_running_lem, IsQueued, IsQueued-append, keys-append, has_key-append, count_running-append,
}

-- Both items of a dependency are there.
abbrev pub BothExist : List (Bytes × ℕ) → Bytes × Bytes → Type 0
BothExist ks p = (has_key p.0 ks ≡ true) × (has_key p.1 ks ≡ true)

abbrev pub ItemExists : List (Bytes × ℕ) → Bytes × Bytes → Type 0
ItemExists ks p = has_key p.0 ks ≡ true

-- Ids are distinct, rows stand in the order of their sequence, at most one item runs, and what a
-- dependency or an invocation names is there.
pub record IsWellFormed (q : Queue) : Type 0 where
  pub queued : IsQueued (keys q.items)
  pub one_runs : count_running q.items ≤ 1
  pub dependencies_exist : All (BothExist (keys q.items)) q.dependencies
  pub links_exist : All (ItemExists (keys q.items)) q.invocations

-- The rows keep their keys, and the other tables stay.
pub record KeepsTables (q t : Queue) : Type 0 where
  pub same_keys : keys t.items ≡ keys q.items
  pub not_more : count_running t.items ≤ 1
  pub same_dependencies : t.dependencies ≡ q.dependencies
  pub same_invocations : t.invocations ≡ q.invocations

pub KeepsTables-IsWellFormed : (q t : Queue) → KeepsTables q t → IsWellFormed q → IsWellFormed t
KeepsTables-IsWellFormed q t k w = record {
  queued = rw k.same_keys w.queued;
  one_runs = k.not_more;
  dependencies_exist = rw (k.same_keys, k.same_dependencies) w.dependencies_exist;
  links_exist = rw (k.same_keys, k.same_invocations) w.links_exist;
}

-- An update that keeps keys and sets nothing running.
pub update_kept :
    (q : Queue) (test : WorkItem → Bool) (change : WorkItem → WorkItem) (l : Option RunnerLease)
    → ((w : WorkItem) → key (change w) ≡ key w)
    → ((w : WorkItem)
        → test w ≡ true
        → is_running (change w).state ≡ true
        → is_running w.state ≡ true)
    → IsWellFormed q
    → KeepsTables q (record q { items = update_where test change q.items; lease = l })
update_kept q test change l same stays w = record {
  same_keys = keys-update_where test change q.items same;
  not_more =
      let less = count_running-update_where test change q.items stays in
      let one = w.one_runs in omega arith;
  same_dependencies = refl;
  same_invocations = refl;
}

pub lease_kept_tables :
    (q : Queue) (l : Option RunnerLease) → IsWellFormed q → KeepsTables q (record q { lease = l })
lease_kept_tables q l w = record {
  same_keys = refl;
  not_more = w.one_runs;
  same_dependencies = refl;
  same_invocations = refl;
}

pub tables_kept : (q : Queue) → IsWellFormed q → KeepsTables q q
tables_kept q w = lease_kept_tables q q.lease w

pub KeepsTables-trans : (q t u : Queue) → KeepsTables q t → KeepsTables t u → KeepsTables q u
KeepsTables-trans q t u h k = record {
  same_keys = k.same_keys ∙ h.same_keys;
  not_more = k.not_more;
  same_dependencies = k.same_dependencies ∙ h.same_dependencies;
  same_invocations = k.same_invocations ∙ h.same_invocations;
}

-- The rows that the unique index admits after an update that may set a row running.
pub admitted_rows :
    (q : Queue) (test : WorkItem → Bool) (change : WorkItem → WorkItem) (items : List WorkItem)
    → ((w : WorkItem) → key (change w) ≡ key w)
    → one_running (update_where test change q.items) ≡ some items
    → KeepsTables q (record q { items = items })
admitted_rows q test change items same h =
    let (equal, one) = one_running_lem _ items h in
    record {
      same_keys = ap keys (sym equal) ∙ keys-update_where test change q.items same;
      not_more = one;
      same_dependencies = refl;
      same_invocations = refl;
    }

abbrev pub Sets : (Queue → Queue) → Type 0
Sets f = (q : Queue) → IsWellFormed q → KeepsTables q (f q)
