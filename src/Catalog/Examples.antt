-- ===== src/Catalog/Examples.antt =====
-- A queue of two items, the second of which depends on the first.
use repotraverse.Prelude.{
  ℕ, ◌<◌, ◌≡◌, refl, ◌≢◌, ◌↔◌, true, false, none, some, List, [], ◌∷◌, ◌++◌, arith, Bytes, codes,
  text_eq, is_empty,
}
use repotraverse.Catalog.Tables.{
  WorkItem, Queue, is_completed, find_item, count_running, any_item, is_runnable, drop_stale,
  max_sequence, insert_pair, has_pair, update_where, depends_on, one_running,
}
use repotraverse.Catalog.Work.{
  WorkRequest, Enqueued, enqueue_work, enqueue_row, link_row, add_item, add_dependencies, launch,
  launch_lease, insert_lease, new_item, link, can_launch, fail_work, invocation_settled,
  complete_work, completed_item,
}
use repotraverse.Catalog.Runner.{
  Process, no_fresh_lease, pending_launch_token, adopt_runner, adopt_lease, adopted, is_runner,
  runnable_rows, any_compatible, propagate, claim_next_work, configure_launch, take_next, scan,
  ordered, select_runnable, insert_ordered, precedes, mark_passed, claim_item, taken_item, doomed,
}
use repotraverse.Catalog.Steps.{
  Op, enqueues, configures, adopts, beats, claims, completes, fails, cancels, step, run,
  empty_queue, or_same, stores, sets_state,
}
use repotraverse.Catalog.WellFormed.{IsWellFormed}
use repotraverse.Catalog.WellFormed.Runs.{run-IsWellFormed}
use repotraverse.Catalog.Life.{HoldsAt, completed_kept, RunsFor, running_kept}
use repotraverse.Catalog.Next.Taken.{IsNext, claim_next_work-IsNext}
use repotraverse.Catalog.Next.Refused.{claim_next_work-refused}
use repotraverse.Catalog.Launch.{enqueue_work-launches, enqueue_work-strands}
use repotraverse.Catalog.Retries.{IsCounted, fail_work-IsCounted}
use repotraverse.Catalog.Settled.{AllSettled, invocation_settled_iff}
use repotraverse.Catalog.Facts.{CacheLimits}

abbrev work : Bytes → List Bytes → WorkRequest
work id dependencies = record {
  kind = codes "connector_sync";
  parameters = codes "{}";
  has_secret = false;
  work_id = id;
  invocation_id = codes "i";
  credential_reference = [];
  maintenance = false;
  dependencies = dependencies;
}

abbrev runner : Process
runner = record {
  owner = codes "r";
  pid = 7;
  start_identity = codes "s";
  executable_identity = codes "x";
  config_identity = codes "c";
  credential_capabilities = [];
}

abbrev two_items : List (ℕ × Op)
two_items =
    (100, configures [] (codes "x") (codes "c"))
    ∷ (100, enqueues (codes "t") (work (codes "a") []))
    ∷ (101, enqueues (codes "u") (work (codes "b") (codes "a" ∷ [])))
    ∷ (102, adopts (codes "t") runner)
    ∷ []

abbrev first_claimed : List (ℕ × Op)
first_claimed = two_items ++ (103, claims (codes "d") (codes "r") []) ∷ []

abbrev first_done : List (ℕ × Op)
first_done = first_claimed ++ (104, completes (codes "a") (codes "r") (codes "{}")) ∷ []

abbrev second_failed : List (ℕ × Op)
second_failed =
    (105, claims (codes "d") (codes "r") [])
    ∷ (106, fails (codes "b") (codes "r") (codes "e") 3)
    ∷ (107, cancels (codes "a"))
    ∷ (108, sets_state (codes "b") (codes "failed"))
    ∷ []

run-IsWellFormed_example : IsWellFormed (run first_done empty_queue)
run-IsWellFormed_example = run-IsWellFormed first_done

first_completed :
    HoldsAt (λ w. is_completed w.state ≡ true) (codes "a") (run first_done empty_queue)
unfolding run step or_same enqueue_work enqueue_row link_row add_item add_dependencies launch
    launch_lease insert_lease drop_stale new_item max_sequence link insert_pair has_pair any_item
    update_where configure_launch adopt_runner adopt_lease adopted claim_next_work propagate
    take_next scan runnable_rows ordered select_runnable insert_ordered precedes is_runnable
    depends_on is_runner mark_passed claim_item one_running count_running taken_item doomed
    complete_work completed_item find_item any_compatible no_fresh_lease text_eq is_empty
first_completed = (_, refl, refl)

b_differs : codes "b" ≢ codes "a"
b_differs e = ground arith

completed_kept_example :
    HoldsAt
      (λ w. is_completed w.state ≡ true)
      (codes "a")
      (run second_failed (run first_done empty_queue))
completed_kept_example =
    completed_kept (codes "a") first_done second_failed (tt, (tt, (tt, (b_differs, tt))))
      first_completed

abbrev cache_limits : CacheLimits
cache_limits = record { maximum_cached_facts = 10000; maximum_cached_fact_bytes = 4096 }

abbrev beaten : List (ℕ × Op)
beaten =
    (110, beats (codes "r"))
    ∷ (111, completes (codes "a") (codes "z") (codes "{}"))
    ∷ (112, stores cache_limits (codes "f") (codes "b") 4 true)
    ∷ (113, enqueues (codes "v") (work (codes "n") []))
    ∷ []

first_runs : HoldsAt (RunsFor (codes "r")) (codes "a") (run first_claimed empty_queue)
unfolding run step or_same enqueue_work enqueue_row link_row add_item add_dependencies launch
    launch_lease insert_lease drop_stale new_item max_sequence link insert_pair has_pair any_item
    update_where configure_launch adopt_runner adopt_lease adopted claim_next_work propagate
    take_next scan runnable_rows ordered select_runnable insert_ordered precedes is_runnable
    depends_on is_runner mark_passed claim_item one_running count_running taken_item doomed
    complete_work completed_item find_item any_compatible no_fresh_lease text_eq is_empty
first_runs = (_, refl, record { runs = refl; owned = refl })

others_differ : codes "z" ≢ codes "r"
others_differ e = ground arith

running_kept_example :
    HoldsAt (RunsFor (codes "r")) (codes "a") (run beaten (run first_claimed empty_queue))
running_kept_example =
    running_kept (codes "a") (codes "r") first_claimed beaten
      (tt, (others_differ, (b_differs, (tt, tt)))) first_runs

abbrev queue_of_two : Queue
queue_of_two = run two_items empty_queue

fail_work-IsCounted_example :
    (w : WorkItem) × ((fail_work 120
        (codes "a")
        (codes "r")
        (codes "e")
        3
        (run first_claimed empty_queue)).1
      ≡ some w)
    × (find_item
          (codes "a")
          (fail_work 120
            (codes "a")
            (codes "r")
            (codes "e")
            3
            (run first_claimed empty_queue)).0.items
        ≡ some w)
    × IsCounted 120 3 first_runs.0 w
fail_work-IsCounted_example =
    fail_work-IsCounted 120 (codes "a") (codes "r") (codes "e") 3 (run first_claimed empty_queue)
      first_runs.0 first_runs.1 first_runs.2

invocation_settled_iff_example :
    (invocation_settled (codes "i") (run first_done empty_queue) ≡ true)
    ↔ AllSettled (codes "i") (run first_done empty_queue)
invocation_settled_iff_example = invocation_settled_iff (codes "i") (run first_done empty_queue)

first_claim :
    (t : Queue) × (w : WorkItem) × (claim_next_work 103 (codes "d") (codes "r") [] queue_of_two
      ≡ some (t, some w))
unfolding run step or_same enqueue_work enqueue_row link_row add_item add_dependencies launch
    launch_lease insert_lease drop_stale new_item max_sequence link insert_pair has_pair any_item
    update_where configure_launch adopt_runner adopt_lease adopted claim_next_work propagate
    take_next scan runnable_rows ordered select_runnable insert_ordered precedes is_runnable
    depends_on is_runner mark_passed claim_item one_running count_running taken_item doomed
    complete_work completed_item find_item any_compatible no_fresh_lease text_eq is_empty
first_claim = (_, _, refl)

claim_next_work-IsNext_example :
    IsNext 103 (codes "r") [] (propagate 103 (codes "d") queue_of_two) first_claim.0 first_claim.1
claim_next_work-IsNext_example =
    claim_next_work-IsNext 103 (codes "d") (codes "r") [] queue_of_two first_claim.0 first_claim.1
      (run-IsWellFormed two_items) first_claim.2

abbrev queue_that_runs : Queue
queue_that_runs = run first_claimed empty_queue

one_item_runs : 0 < count_running queue_that_runs.items
unfolding run step or_same enqueue_work enqueue_row link_row add_item add_dependencies launch
    launch_lease insert_lease drop_stale new_item max_sequence link insert_pair has_pair any_item
    update_where configure_launch adopt_runner adopt_lease adopted claim_next_work propagate
    take_next scan runnable_rows ordered select_runnable insert_ordered precedes is_runnable
    depends_on is_runner mark_passed claim_item one_running count_running taken_item doomed
    complete_work completed_item find_item any_compatible no_fresh_lease text_eq is_empty
one_item_runs = omega arith

-- The lease of the runner is stale at 200; new work is launched with a token of its own.
stranding :
    (t : Queue) × (e : Enqueued) × (enqueue_work 200
        (codes "v")
        (work (codes "n") [])
        queue_that_runs
      ≡ some (t, e))
unfolding run step or_same enqueue_work enqueue_row link_row add_item add_dependencies launch
    launch_lease insert_lease drop_stale new_item max_sequence link insert_pair has_pair any_item
    update_where configure_launch adopt_runner adopt_lease adopted claim_next_work propagate
    take_next scan runnable_rows ordered select_runnable insert_ordered precedes is_runnable
    depends_on is_runner mark_passed claim_item one_running count_running taken_item doomed
    complete_work completed_item find_item any_compatible no_fresh_lease text_eq is_empty
stranding = (_, _, refl)

new_runner :
    (u : Queue) × (adopt_runner 201 (codes "v") runner stranding.0 ≡ (u, true))
    × (any_compatible [] (runnable_rows 201 (propagate 201 (codes "d") u)) ≡ true)
unfolding run step or_same enqueue_work enqueue_row link_row add_item add_dependencies launch
    launch_lease insert_lease drop_stale new_item max_sequence link insert_pair has_pair any_item
    update_where configure_launch adopt_runner adopt_lease adopted claim_next_work propagate
    take_next scan runnable_rows ordered select_runnable insert_ordered precedes is_runnable
    depends_on is_runner mark_passed claim_item one_running count_running taken_item doomed
    complete_work completed_item find_item any_compatible no_fresh_lease text_eq is_empty stranding
new_runner = (_, refl, refl)

enqueue_work-strands_example :
    (0 < count_running new_runner.0.items)
    × (claim_next_work 201 (codes "d") (codes "r") [] new_runner.0 ≡ none)
enqueue_work-strands_example =
    enqueue_work-strands 200 201 (codes "v") (codes "d") (work (codes "n") []) runner []
      queue_that_runs stranding.0 new_runner.0 stranding.1 (run-IsWellFormed first_claimed)
      one_item_runs stranding.2 new_runner.1 new_runner.2

launched_example_stale : no_fresh_lease 200 queue_that_runs.lease ≡ true
unfolding run step or_same enqueue_work enqueue_row link_row add_item add_dependencies launch
    launch_lease insert_lease drop_stale new_item max_sequence link insert_pair has_pair any_item
    update_where configure_launch adopt_runner adopt_lease adopted claim_next_work propagate
    take_next scan runnable_rows ordered select_runnable insert_ordered precedes is_runnable
    depends_on is_runner mark_passed claim_item one_running count_running taken_item doomed
    complete_work completed_item find_item any_compatible no_fresh_lease text_eq is_empty
launched_example_stale = refl

can_launch_example : can_launch [] queue_that_runs ≡ true
unfolding run step or_same enqueue_work enqueue_row link_row add_item add_dependencies launch
    launch_lease insert_lease drop_stale new_item max_sequence link insert_pair has_pair any_item
    update_where configure_launch adopt_runner adopt_lease adopted claim_next_work propagate
    take_next scan runnable_rows ordered select_runnable insert_ordered precedes is_runnable
    depends_on is_runner mark_passed claim_item one_running count_running taken_item doomed
    complete_work completed_item find_item any_compatible no_fresh_lease text_eq is_empty
can_launch_example = refl

same_executable : runner.executable_identity ≡ queue_that_runs.launch_executable_identity
unfolding run step or_same enqueue_work enqueue_row link_row add_item add_dependencies launch
    launch_lease insert_lease drop_stale new_item max_sequence link insert_pair has_pair any_item
    update_where configure_launch adopt_runner adopt_lease adopted claim_next_work propagate
    take_next scan runnable_rows ordered select_runnable insert_ordered precedes is_runnable
    depends_on is_runner mark_passed claim_item one_running count_running taken_item doomed
    complete_work completed_item find_item any_compatible no_fresh_lease text_eq is_empty
same_executable = refl

same_config : runner.config_identity ≡ queue_that_runs.launch_config_identity
unfolding run step or_same enqueue_work enqueue_row link_row add_item add_dependencies launch
    launch_lease insert_lease drop_stale new_item max_sequence link insert_pair has_pair any_item
    update_where configure_launch adopt_runner adopt_lease adopted claim_next_work propagate
    take_next scan runnable_rows ordered select_runnable insert_ordered precedes is_runnable
    depends_on is_runner mark_passed claim_item one_running count_running taken_item doomed
    complete_work completed_item find_item any_compatible no_fresh_lease text_eq is_empty
same_config = refl

enqueue_work-launches_example :
    (pending_launch_token stranding.0 ≡ some (codes "v"))
    × ((adopt_runner 300 (codes "v") runner stranding.0).1 ≡ true)
    × (is_runner (codes "r") (adopt_runner 300 (codes "v") runner stranding.0).0.lease ≡ true)
enqueue_work-launches_example =
    enqueue_work-launches 200 300 (codes "v") (work (codes "n") []) runner queue_that_runs
      stranding.0 stranding.1 launched_example_stale can_launch_example stranding.2 same_executable
      same_config

-- A second claim while the first item runs, with an item beside it that could run.
abbrev busy : List (ℕ × Op)
busy = first_claimed ++ (110, enqueues (codes "v") (work (codes "n") [])) ∷ []

busy_runner : is_runner (codes "r") (run busy empty_queue).lease ≡ true
unfolding run step or_same enqueue_work enqueue_row link_row add_item add_dependencies launch
    launch_lease insert_lease drop_stale new_item max_sequence link insert_pair has_pair any_item
    update_where configure_launch adopt_runner adopt_lease adopted claim_next_work propagate
    take_next scan runnable_rows ordered select_runnable insert_ordered precedes is_runnable
    depends_on is_runner mark_passed claim_item one_running count_running taken_item doomed
    complete_work completed_item find_item any_compatible no_fresh_lease text_eq is_empty
busy_runner = refl

busy_runs : 0 < count_running (run busy empty_queue).items
unfolding run step or_same enqueue_work enqueue_row link_row add_item add_dependencies launch
    launch_lease insert_lease drop_stale new_item max_sequence link insert_pair has_pair any_item
    update_where configure_launch adopt_runner adopt_lease adopted claim_next_work propagate
    take_next scan runnable_rows ordered select_runnable insert_ordered precedes is_runnable
    depends_on is_runner mark_passed claim_item one_running count_running taken_item doomed
    complete_work completed_item find_item any_compatible no_fresh_lease text_eq is_empty
busy_runs = omega arith

busy_can :
    any_compatible [] (runnable_rows 111 (propagate 111 (codes "d") (run busy empty_queue))) ≡ true
unfolding run step or_same enqueue_work enqueue_row link_row add_item add_dependencies launch
    launch_lease insert_lease drop_stale new_item max_sequence link insert_pair has_pair any_item
    update_where configure_launch adopt_runner adopt_lease adopted claim_next_work propagate
    take_next scan runnable_rows ordered select_runnable insert_ordered precedes is_runnable
    depends_on is_runner mark_passed claim_item one_running count_running taken_item doomed
    complete_work completed_item find_item any_compatible no_fresh_lease text_eq is_empty
busy_can = refl

claim_next_work-refused_example :
    claim_next_work 111 (codes "d") (codes "r") [] (run busy empty_queue) ≡ none
claim_next_work-refused_example =
    claim_next_work-refused 111 (codes "d") (codes "r") [] (run busy empty_queue)
      (run-IsWellFormed busy) busy_runner busy_runs busy_can
