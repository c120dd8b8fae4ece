-- ===== src/Catalog/WellFormed/Runs.antt =====
-- New work, and every sequence of calls.
use repotraverse.Prelude.{
  ℕ, ◌+◌, ◌≡◌, refl, sym, ap, ◌∙◌, subst, inl, inr, Bool, true, false, ◌&&◌, ◌||◌, Option, none,
  some, List, [], ◌∷◌, ◌++◌, arith, if◌then◌else◌, Bool-cases, Bytes, codes, text_eq, text_eq_iff,
  is_empty, All, All-append, All-mono,
}
use repotraverse.Catalog.Tables.{
  WorkItem, Queue, is_dropped, any_item, has_id, count_running, insert_pair, has_pair, max_sequence,
}
use repotraverse.Catalog.Work.{
  new_item, rerun, add_item, link, add_dependencies, launch, can_launch, WorkRequest, Enqueued,
  enqueue_row, enqueue_work, schedule_task, link_row, add_task,
}
use repotraverse.Catalog.Runner.{
  claim_next_work, configure_launch, clear_failed_launch, adopt_runner,
}
use repotraverse.Catalog.Steps.{
  Op, enqueues, schedules, configures, launches, clears, adopts, beats, claims, completes, fails,
  cancels, releases, sets_state, fails_task, step, run, or_same, empty_queue, stores, reads_fact,
  publishes, picks,
}
use repotraverse.Catalog.Rows.{
  keys, has_key, any_item-has_id, keys-update_where, IsQueued-append, keys-append, has_key-append,
  count_running-append,
}
use repotraverse.Catalog.WellFormed.{
  BothExist, ItemExists, IsWellFormed, KeepsTables-IsWellFormed, update_kept,
}
use repotraverse.Catalog.WellFormed.Updates
use repotraverse.Catalog.WellFormed.Updates
use repotraverse.Catalog.WellFormed.Claims.{claim_next_work-KeepsTables}
use repotraverse.Catalog.Facts.{mark_task_published}

-- The keys that are there stay there when one is put behind them.
stays_there :
    (id : Bytes) (ks js : List (Bytes × ℕ)) → has_key id ks ≡ true → has_key id (ks ++ js) ≡ true
stays_there id ks js h = let both = has_key-append id ks js in ground arith

-- A row of a new key is put behind the others.
appended-IsWellFormed :
    (now : ℕ) (id kind parameters credential : Bytes) (maintenance : Bool) (q : Queue)
    → any_item (has_id id) q.items ≡ false
    → IsWellFormed q
    → IsWellFormed (record q {
      items = q.items ++ new_item now id kind parameters credential maintenance q.items ∷ [];
    })
unfolding new_item
appended-IsWellFormed now id kind parameters credential maintenance q absent w =
    let new : WorkItem = new_item now id kind parameters credential maintenance q.items in
    let same : keys (q.items ++ new ∷ []) ≡ keys q.items ++ (id, max_sequence q.items + 1) ∷ [] =
      keys-append q.items (new ∷ []) in
    let free : has_key id (keys q.items) ≡ false = sym (any_item-has_id id q.items) ∙ absent in
    record {
      queued = rw same (IsQueued-append q.items id w.queued free);
      one_runs =
          let one = w.one_runs in
          let count : count_running (q.items ++ new ∷ []) ≡ count_running q.items + 0 =
            count_running-append q.items (new ∷ []) ∙ (unfold count_running in refl) in
          omega arith;
      dependencies_exist = rw same (
          All-mono (BothExist (keys q.items)) _ q.dependencies
            (λ p h. (stays_there p.0 (keys q.items) _ h.0, stays_there p.1 (keys q.items) _ h.1))
            w.dependencies_exist);
      links_exist = rw same (
          All-mono (ItemExists (keys q.items)) _ q.invocations
            (λ p h. stays_there p.0 (keys q.items) _ h) w.links_exist);
    }

add_item-IsWellFormed :
    (now : ℕ) (id kind parameters credential : Bytes) (maintenance : Bool) (q : Queue)
    → IsWellFormed q
    → IsWellFormed
        (record q { items = add_item now id kind parameters credential maintenance q.items })
unfolding add_item
add_item-IsWellFormed now id kind parameters credential maintenance q w =
    elim (Bool-cases (any_item (has_id id) q.items)) [
      | inl e ↦ rw e (
          KeepsTables-IsWellFormed q _
            (update_kept q (λ v. has_id id v && is_dropped v.state) (rerun now) q.lease
              (λ v. unfold rerun in refl) (λ v t r. unfold rerun in ground arith) w)
            w)
      | inr e ↦ rw e (appended-IsWellFormed now id kind parameters credential maintenance q e w)
    ]

appended-has_key :
    (now : ℕ) (id kind parameters credential : Bytes) (maintenance : Bool) (items : List WorkItem)
    → has_key id (keys (items ++ new_item now id kind parameters credential maintenance items ∷ []))
      ≡ true
unfolding new_item
appended-has_key now id kind parameters credential maintenance items =
    ap (has_key id) (keys-append items _)
    ∙ has_key-append id (keys items) _
    ∙ (let self : text_eq id id ≡ true = (text_eq_iff id id).1 refl in ground arith)

add_item-has_key :
    (now : ℕ) (id kind parameters credential : Bytes) (maintenance : Bool) (items : List WorkItem)
    → has_key id (keys (add_item now id kind parameters credential maintenance items)) ≡ true
unfolding add_item
add_item-has_key now id kind parameters credential maintenance items =
    elim (Bool-cases (any_item (has_id id) items)) [
      | inl e ↦ rw e (
          ap (has_key id) (
            keys-update_where (λ v. has_id id v && is_dropped v.state) (rerun now) items
              (λ v. unfold rerun in refl))
          ∙ sym (any_item-has_id id items)
          ∙ e)
      | inr e ↦ rw e (appended-has_key now id kind parameters credential maintenance items)
    ]

add_task-IsWellFormed :
    (now : ℕ) (id task : Bytes) (q : Queue)
    → IsWellFormed q
    → IsWellFormed (record q { items = add_task now id task q.items })
unfolding add_task
add_task-IsWellFormed now id task q w = elim (Bool-cases (any_item (has_id id) q.items)) [
  | inl e ↦ rw e w
  | inr e ↦ rw e (appended-IsWellFormed now id (codes "extraction") task [] false q e w)
]

add_task-has_key :
    (now : ℕ) (id task : Bytes) (items : List WorkItem)
    → has_key id (keys (add_task now id task items)) ≡ true
unfolding add_task
add_task-has_key now id task items = elim (Bool-cases (any_item (has_id id) items)) [
  | inl e ↦ rw e (sym (any_item-has_id id items) ∙ e)
  | inr e ↦ rw e (appended-has_key now id (codes "extraction") task [] false items)
]

insert_pair-All {κ} :
    (P : Bytes × Bytes → Type κ) (a b : Bytes) (ps : List (Bytes × Bytes))
    → All P ps
    → P (a, b)
    → All P (insert_pair a b ps)
unfolding insert_pair
insert_pair-All P a b ps h new = elim (Bool-cases (has_pair a b ps)) [
  | inl e ↦ rw e h
  | inr e ↦ rw e (All-append P ps _ h (new, tt))
]

link-All {κ} :
    (P : Bytes × Bytes → Type κ) (id invocation : Bytes) (ps : List (Bytes × Bytes))
    → All P ps
    → P (id, invocation)
    → All P (link id invocation ps)
unfolding link
link-All P id invocation ps h new = elim (Bool-cases (is_empty invocation)) [
  | inl e ↦ rw e h
  | inr e ↦ rw e (insert_pair-All P id invocation ps h new)
]

add_dependencies-All :
    (id : Bytes) (ds : List Bytes) (items : List WorkItem) (deps out : List (Bytes × Bytes))
    → has_key id (keys items) ≡ true
    → All (BothExist (keys items)) deps
    → add_dependencies id ds items deps ≡ some out
    → All (BothExist (keys items)) out
unfolding add_dependencies
add_dependencies-All id [] items deps out own h e =
    let same : deps ≡ out = cc in subst (All (BothExist (keys items))) same h
add_dependencies-All id (d ∷ ds) items deps out own h e =
    elim (Bool-cases (any_item (has_id d) items)) [
      | inr k ↦ absurd (ground arith)
      | inl k ↦
          let there : has_key d (keys items) ≡ true = sym (any_item-has_id d items) ∙ k in
          add_dependencies-All id ds items (insert_pair id d deps) out own
            (insert_pair-All (BothExist (keys items)) id d deps h (own, there)) (ground arith)
    ]

launched-IsWellFormed :
    (now : ℕ) (token : Bytes) (q : Queue) → IsWellFormed q → IsWellFormed (launch now token q)
unfolding launch
launched-IsWellFormed now token q w = record {
  queued = w.queued;
  one_runs = w.one_runs;
  dependencies_exist = w.dependencies_exist;
  links_exist = w.links_exist;
}

link_row-IsWellFormed :
    (now : ℕ) (token : Bytes) (r : WorkRequest) (q : Queue) (items : List WorkItem)
    (deps : Option (List (Bytes × Bytes))) (x : Queue × Enqueued)
    → IsWellFormed (record q { items = items })
    → has_key r.work_id (keys items) ≡ true
    → add_dependencies r.work_id r.dependencies items q.dependencies ≡ deps
    → link_row now token r q items deps ≡ some x
    → IsWellFormed x.0
unfolding link_row
link_row-IsWellFormed now token r q items none x w own e h = cc
link_row-IsWellFormed now token r q items (some deps) x w own e h =
    let linked : Queue = record q {
      items = items;
      dependencies = deps;
      invocations = link r.work_id r.invocation_id q.invocations;
    } in
    let good : IsWellFormed linked = record {
      queued = w.queued;
      one_runs = w.one_runs;
      dependencies_exist =
          add_dependencies-All r.work_id r.dependencies items q.dependencies deps own
            w.dependencies_exist e;
      links_exist =
          link-All (ItemExists (keys items)) r.work_id r.invocation_id q.invocations w.links_exist
            own;
    } in
    let same : (if can_launch r.credential_reference q then launch now token linked else linked)
        ≡ x.0 =
      cc in
    subst IsWellFormed same (elim (Bool-cases (can_launch r.credential_reference q)) [
      | inl k ↦ rw k (launched-IsWellFormed now token linked good)
      | inr k ↦ rw k good
    ])

enqueue_work-IsWellFormed :
    (now : ℕ) (token : Bytes) (r : WorkRequest) (q : Queue) (x : Queue × Enqueued)
    → IsWellFormed q
    → enqueue_work now token r q ≡ some x
    → IsWellFormed x.0
unfolding enqueue_work enqueue_row
enqueue_work-IsWellFormed now token r q x w h =
    elim (Bool-cases (is_empty r.kind || r.has_secret)) [
      | inl e ↦ let bad : none ≡ some x = rw e at h in cc
      | inr e ↦
          link_row-IsWellFormed now token r q
            (add_item now r.work_id r.kind r.parameters r.credential_reference r.maintenance
              q.items)
            _ x
            (add_item-IsWellFormed now r.work_id r.kind r.parameters r.credential_reference
              r.maintenance q w)
            (add_item-has_key now r.work_id r.kind r.parameters r.credential_reference r.maintenance
              q.items)
            refl (rw e at h)
    ]

schedule_task-IsWellFormed :
    (now : ℕ) (token id task request : Bytes) (q : Queue)
    → IsWellFormed q
    → IsWellFormed (schedule_task now token id task request q)
unfolding schedule_task
schedule_task-IsWellFormed now token id task request q w =
    let tasks : IsWellFormed (record q { items = add_task now id task q.items }) =
      add_task-IsWellFormed now id task q w in
    let good : IsWellFormed (record q {
      items = add_task now id task q.items;
      invocations = link id request q.invocations;
    }) =
      record {
        queued = tasks.queued;
        one_runs = tasks.one_runs;
        dependencies_exist = tasks.dependencies_exist;
        links_exist =
            link-All (ItemExists (keys (add_task now id task q.items))) id request q.invocations
              tasks.links_exist (add_task-has_key now id task q.items);
      } in
    elim (Bool-cases (is_empty q.launch_executable_identity)) [
      | inl e ↦ rw e good
      | inr e ↦ rw e (launched-IsWellFormed now token _ good)
    ]

or_same-IsWellFormed {ℓ} :
    {A : Type ℓ} (q : Queue) (f : A → Queue) (x : Option A)
    → IsWellFormed q
    → ((a : A) → x ≡ some a → IsWellFormed (f a))
    → IsWellFormed (or_same q f x)
unfolding or_same
or_same-IsWellFormed q f none w h = w
or_same-IsWellFormed q f (some a) w h = h a refl

pub step-IsWellFormed :
    (now : ℕ) (op : Op) (q : Queue) → IsWellFormed q → IsWellFormed (step now op q)
unfolding step
step-IsWellFormed now (enqueues token r) q w =
    or_same-IsWellFormed q (λ x. x.0) (enqueue_work now token r q) w
      (λ x h. enqueue_work-IsWellFormed now token r q x w h)
step-IsWellFormed now (schedules token id task request) q w =
    schedule_task-IsWellFormed now token id task request q w
step-IsWellFormed now (configures capabilities executable config) q w =
    unfold configure_launch in
    record {
      queued = w.queued;
      one_runs = w.one_runs;
      dependencies_exist = w.dependencies_exist;
      links_exist = w.links_exist;
    }
step-IsWellFormed now (launches token capabilities executable config) q w =
    KeepsTables-IsWellFormed q _
      (Updates.claim_runner_launch-KeepsTables now token capabilities executable config q w) w
step-IsWellFormed now (clears token) q w =
    unfold clear_failed_launch in
    KeepsTables-IsWellFormed q _ (Updates.clear_lease-KeepsTables token q.lease q w) w
step-IsWellFormed now (adopts token p) q w =
    unfold adopt_runner in
    KeepsTables-IsWellFormed q _ (Updates.adopt_lease-KeepsTables now token p q.lease q w) w
step-IsWellFormed now (beats owner) q w =
    KeepsTables-IsWellFormed q _ (Updates.heartbeat_runner-KeepsTables now owner q w) w
step-IsWellFormed now (claims failure owner capabilities) q w =
    or_same-IsWellFormed q (λ x. x.0) (claim_next_work now failure owner capabilities q) w
      (λ x h.
        KeepsTables-IsWellFormed q x.0
          (claim_next_work-KeepsTables now failure owner capabilities q x w h) w)
step-IsWellFormed now (completes id owner progress) q w =
    KeepsTables-IsWellFormed q _ (Updates.complete_work-KeepsTables now id owner progress q w) w
step-IsWellFormed now (fails id owner fingerprint maximum) q w =
    KeepsTables-IsWellFormed q _
      (Updates.fail_work-KeepsTables now id owner fingerprint maximum q w) w
step-IsWellFormed now (cancels id) q w =
    KeepsTables-IsWellFormed q _ (Updates.cancel_work-KeepsTables now id q w) w
step-IsWellFormed now (releases owner) q w =
    KeepsTables-IsWellFormed q _ (Updates.release-KeepsTables now owner q w) w
step-IsWellFormed now (sets_state id state) q w =
    KeepsTables-IsWellFormed q _ (Updates.set_task_state-KeepsTables now id state q w) w
step-IsWellFormed now (fails_task id diagnostic maximum) q w =
    KeepsTables-IsWellFormed q _ (Updates.fail_task-KeepsTables now id diagnostic maximum q w) w
step-IsWellFormed now (stores limits id task size readable) q w =
    KeepsTables-IsWellFormed q _
      (Updates.store_fact-KeepsTables now limits id task size readable q w) w
step-IsWellFormed now (reads_fact task) q w =
    KeepsTables-IsWellFormed q _ (Updates.fact_for_task-KeepsTables now task q w) w
step-IsWellFormed now (publishes id) q w =
    unfold mark_task_published in KeepsTables-IsWellFormed q _ (Updates.rest_kept q q.facts _ w) w
step-IsWellFormed now picks q w =
    KeepsTables-IsWellFormed q _ (Updates.next_pending_task-KeepsTables now q w) w

run_from-IsWellFormed :
    (ops : List (ℕ × Op)) (q : Queue) → IsWellFormed q → IsWellFormed (run ops q)
unfolding run
run_from-IsWellFormed [] q w = w
run_from-IsWellFormed ((now, op) ∷ ops) q w =
    run_from-IsWellFormed ops (step now op q) (step-IsWellFormed now op q w)

-- After any calls on a new catalog, ids are distinct, rows stand in the order of their sequence, at
-- most one item runs, and the items that dependencies and invocations name are there.
pub run-IsWellFormed : (ops : List (ℕ × Op)) → IsWellFormed (run ops empty_queue)
run-IsWellFormed ops = run_from-IsWellFormed ops empty_queue (record {
  queued = tt;
  one_runs = unfold count_running in omega arith;
  dependencies_exist = tt;
  links_exist = tt;
})
