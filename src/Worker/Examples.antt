-- ===== src/Worker/Examples.antt =====
-- A platform on which the extractor times out.
use repotraverse.Prelude.{
  ◌≡◌, refl, ◌≢◌, true, false, none, some, List, [], ◌∷◌, ◌++◌, arith, codes, text_eq, is_empty,
  contains, has_prefix,
}
use repotraverse.Catalog.Tables.{
  WorkItem, Queue, running, count_running, find_item, one_running, update_where, any_item,
}
use repotraverse.Catalog.WellFormed.{IsWellFormed}
use repotraverse.Worker.{
  Task, WorkerOptions, World, extraction_turn, ProcessOutput, tu_manifest, product_of,
  accept_manifest, Import, task_comes, fact_comes, run_task, import_all, import_one, run_claimed,
  process_task, conclude_output, run_extractor, is_acceptable, with_unit, command_of, all_safe,
  safe_frontend_argument, finish_task, end_work,
}
use repotraverse.Worker.Freed.{extraction_turn-frees}
use repotraverse.Worker.Accepted.{IsAnswer, product_of-IsAnswer}
use repotraverse.Ir.Manifest.{
  check_contents, check_uses, check_elements, check_variants, all_pass, validate_tu_manifest,
  TuManifest,
}
use repotraverse.Catalog.Facts.{
  store_fact, stored_facts, insert_fact, has_fact_id, evict, delete_oldest, is_oldest, count_older,
  is_older, text_before, total_size, stored_rows, stored_item, rescheduled, has_fact,
}
use repotraverse.Catalog.Steps.{or_same}
use repotraverse.Catalog.Work.{
  set_task_state, put_state, queue_state, with_state, complete_work, completed_item,
}

-- Another producer's task and its fact.
abbrev imports : List Import
imports =
    task_comes (codes "t") (codes "b") (codes "{}") []
    ∷ fact_comes (record { maximum_cached_facts = 10; maximum_cached_fact_bytes = 4096 })
        (codes "f") (codes "b") 4 true
    ∷ []

other_task : codes "b" ≢ codes "a"
other_task e = ground arith

abbrev slow_world : World
slow_world = record {
  lexically_normal = λ s. s;
  is_absolute = λ s. false;
  first_part = λ s. s;
  join = λ s t. s ++ b'/' ∷ t;
  acquire_workspace = λ repository revision closure full. some (codes "w");
  blob_at = λ repository revision path. some (some (codes "0"));
  run_process = λ command. some (record {
    exit_code = 0;
    output = [];
    error = [];
    timed_out = true;
    cancelled = false;
    output_truncated = false;
    cpu_time_ms = 0;
  });
  parse_manifest = λ s. none;
  stable_hash = λ s. s;
  dump = λ i. i.repository;
  acquire_claim = λ task. (imports, some (codes "processing"));
  complete_claim = λ id product. ([], some (codes "completed"));
}

abbrev options : WorkerOptions
options = record {
  source_repository = [];
  repository_id = [];
  extractor = codes "x";
  extractor_identity = codes "i";
  max_attempts = 3;
}

abbrev task : Task
task = record {
  task_id = codes "a";
  extractor_identity = codes "i";
  repository = codes "/r";
  source_commit = codes "c";
  repository_id = none;
  translation_unit = codes "a.c";
  materialization = none;
  configurations = codes "[]";
  build_variant = codes "{}";
  context_id = codes "k";
  frontend_arguments = codes "-DX" ∷ [];
}

abbrev item : WorkItem
item = record {
  work_id = codes "a";
  kind = codes "extraction";
  parameters = codes "{}";
  credential_reference = [];
  fifo_sequence = 1;
  state = running;
  owner = codes "r";
  attempt_count = 0;
  next_attempt_at = 0;
  cancellation_requested = false;
  maintenance = false;
  progress = codes "{}";
  error_fingerprint = [];
  created_at = 100;
  updated_at = 100;
}

abbrev queue : Queue
queue = record {
  items = item ∷ [];
  dependencies = [];
  invocations = [];
  lease = none;
  facts = [];
  published = [];
  launch_capabilities = [];
  launch_executable_identity = [];
  launch_config_identity = [];
}

queue-IsWellFormed : IsWellFormed queue
queue-IsWellFormed = record {
  queued = (tt, tt);
  one_runs = unfold count_running in omega arith;
  dependencies_exist = tt;
  links_exist = tt;
}

item_found : find_item (codes "a") queue.items ≡ some item
unfolding find_item text_eq
item_found = refl

extraction_turn-frees_example :
    count_running
      (extraction_turn slow_world options 200 (codes "r") task (codes "{}") (codes "d") queue).items
    ≡ 0
extraction_turn-frees_example =
    extraction_turn-frees slow_world options 200 (codes "r") task (codes "{}") (codes "d") queue
      item (tt, (other_task, tt)) queue-IsWellFormed item_found
      (record { runs = refl; owned = refl })

-- The coordinator brings a fact of this very task that the cache cannot hold, and the extractor is
-- cancelled: the item keeps running without an owner.
abbrev cancelled_world : World
cancelled_world = record slow_world {
  acquire_claim = λ task. (
    fact_comes (record { maximum_cached_facts = 10; maximum_cached_fact_bytes = 1 }) (codes "f")
          (codes "a") 4 true
        ∷ [],
    some (codes "processing"),
  );
  run_process = λ command. some (record {
    exit_code = 0;
    output = [];
    error = [];
    timed_out = false;
    cancelled = true;
    output_truncated = false;
    cpu_time_ms = 0;
  });
}

still_runs :
    count_running
      (extraction_turn cancelled_world options 200
        (codes "r")
        task
        (codes "{}")
        (codes "d")
        queue).items
    ≡ 1
unfolding extraction_turn run_task import_all import_one store_fact stored_facts insert_fact
    has_fact_id evict delete_oldest is_oldest count_older is_older text_before total_size
    stored_rows stored_item rescheduled has_fact or_same run_claimed process_task set_task_state
    put_state queue_state with_state one_running update_where count_running any_item conclude_output
    run_extractor is_acceptable with_unit command_of all_safe safe_frontend_argument finish_task
    end_work complete_work completed_item text_eq is_empty has_prefix contains
still_runs = refl

-- A manifest of a unit without elements, and the output that it is read from.
abbrev empty_manifest : TuManifest
empty_manifest = record {
  schema_version = 1;
  manifest_id = codes "p";
  repository_id = codes "p";
  source_revision = codes "c";
  translation_unit = codes "a.c";
  source_blob = codes "0";
  context_id = codes "k";
  configuration = codes "debug";
  extractor_fingerprint = codes "e";
  producer = record {
    tool_version = [];
    llvm_version = [];
    clang_version = [];
    build_mode = [];
    host_architecture = [];
  };
  build_variant = record { variant_id = []; product = []; target = []; configuration = [] };
  coverage = record { status = codes "complete"; capabilities = []; gaps = [] };
  elements = [];
  variants = [];
  observations = [];
  macro_expansions = [];
}

abbrev reading_world : World
reading_world = record slow_world {
  parse_manifest = λ s. some (codes "tu_manifest", empty_manifest);
}

abbrev good_output : ProcessOutput
good_output = record {
  exit_code = 0;
  output = codes "{}";
  error = [];
  timed_out = false;
  cancelled = false;
  output_truncated = false;
  cpu_time_ms = 0;
}

is_given : product_of reading_world options task good_output ≡ some (tu_manifest empty_manifest)
unfolding product_of accept_manifest validate_tu_manifest check_contents check_uses check_elements
    check_variants all_pass text_eq is_empty
is_given = refl

product_of-IsAnswer_example : IsAnswer reading_world options task empty_manifest
product_of-IsAnswer_example =
    product_of-IsAnswer reading_world options task good_output empty_manifest is_given
