-- ===== src/Worker.antt =====
-- src/worker.cpp: the task of an extraction, and how the runner of app/main.cpp ends it. The counters of
-- telemetry and the thread that renews the lease meanwhile are left out.
pub mod Imports
pub mod Turn
pub mod Freed
pub mod Accepted
mod Examples
use repotraverse.Prelude.{
  ℕ, zero, suc, ◌+◌, ◌-◌, ◌*◌, ◌/◌, ◌%◌, ◌^◌, ◌≤◌, ◌<◌, ◌≡◌, refl, sym, ap, ◌∙◌, subst, ◌≢◌, ◌↔◌,
  ◌⊎◌, inl, inr, Bool, true, false, ◌&&◌, ◌||◌, not, Option, none, some, List, [], ◌∷◌, ◌++◌, map,
  append_assoc, append-nil, arith, ltb, leb, ◌==◌, within, if◌then◌else◌, ltb→lt, lt→ltb, leb→le,
  ==_iff, Bool-cases, Option-cases, Bytes, codes, text_eq, text_eq_iff, is_empty, contains,
  has_prefix, length, take, drop, length-append, take-append, drop-append, All, All-append,
  All-mono, get_elem?, All-get_elem?, Listed,
}
use repotraverse.Ir.Manifest.{TuManifest, ManifestIdentity, validate_tu_manifest}
use repotraverse.Catalog.Tables.{State, Queue}
use repotraverse.Catalog.Steps.{or_same}
use repotraverse.Catalog.Facts.{CacheLimits, store_fact, fact_for_task, mark_task_published}
use repotraverse.Catalog.Work.{schedule_task, set_task_state, fail_task, complete_work, fail_work}

pub record Materialization : Type 0 where
  pub files : List Bytes
  pub closure_complete : Bool
  pub gaps : List Bytes

-- A task with the values that `at` and `value` read from it.
pub record Task : Type 0 where
  pub task_id : Bytes
  pub extractor_identity : Bytes
  pub repository : Bytes
  pub source_commit : Bytes
  pub repository_id : Option Bytes
  pub translation_unit : Bytes
  pub materialization : Option Materialization
  pub configurations : Bytes
  pub build_variant : Bytes
  pub context_id : Bytes
  pub frontend_arguments : List Bytes

-- The options that `run_task` reads, and the member `extractor_identity_`.
pub record WorkerOptions : Type 0 where
  pub source_repository : Bytes
  pub repository_id : Bytes
  pub extractor : Bytes
  pub extractor_identity : Bytes
  pub max_attempts : ℕ

-- Of the exit code, only whether it is 0 is read.
pub record ProcessOutput : Type 0 where
  pub exit_code : ℕ
  pub output : Bytes
  pub error : Bytes
  pub timed_out : Bool
  pub cancelled : Bool
  pub output_truncated : Bool
  pub cpu_time_ms : ℕ

-- What the coordinator is given as the result of a task.
pub data Product : Type 0 where
  tu_manifest : TuManifest → Product
  tu_failure : Bytes → Bytes → Bytes → Bytes → Product

-- What the coordinator does to the catalog while it synchronizes or publishes: a task that comes from
-- another producer, a fact, or a look at a fact.
pub data Import : Type 0 where
  task_comes : Bytes → Bytes → Bytes → Bytes → Import
  fact_comes : CacheLimits → Bytes → Bytes → ℕ → Bool → Import
  fact_is_read : Bytes → Import

unfoldable pub import_one : ℕ → Import → Queue → Queue
import_one now (task_comes token id task request) q =
    mark_task_published id (schedule_task now token id task request q)
import_one now (fact_comes limits id task size readable) q =
    or_same q (λ x. x) (store_fact now limits id task size readable q)
import_one now (fact_is_read task) q = (fact_for_task now task q).0

unfoldable pub import_all : ℕ → List Import → Queue → Queue
import_all now [] q = q
import_all now (i ∷ is) q = import_all now is (import_one now i q)

-- Paths, workspaces, processes, JSON and digests, and the coordinator; `none` is an exception. What the
-- coordinator has done to the catalog stays done when it throws.
pub record World : Type 0 where
  pub lexically_normal : Bytes → Bytes
  pub is_absolute : Bytes → Bool
  pub first_part : Bytes → Bytes
  pub join : Bytes → Bytes → Bytes
  pub acquire_workspace : Bytes → Bytes → Materialization → Bool → Option Bytes
  pub blob_at : Bytes → Bytes → Bytes → Option (Option Bytes)
  pub run_process : List Bytes → Option ProcessOutput
  pub parse_manifest : Bytes → Option (Bytes × TuManifest)
  pub stable_hash : Bytes → Bytes
  pub dump : ManifestIdentity → Bytes
  pub acquire_claim : Task → List Import × Option Bytes
  pub complete_claim : Bytes → Product → List Import × Option Bytes

abbrev pub allowed_arguments : List Bytes
allowed_arguments =
    codes "-D"
    ∷ codes "-U"
    ∷ codes "-I"
    ∷ codes "-include"
    ∷ codes "-isystem"
    ∷ codes "-x"
    ∷ codes "--sysroot"
    ∷ codes "-fsigned-char"
    ∷ codes "-funsigned-char"
    ∷ codes "-fno-short-enums"
    ∷ codes "-fno-short-wchar"
    ∷ codes "-fexceptions"
    ∷ codes "-fno-exceptions"
    ∷ codes "-frtti"
    ∷ codes "-fno-rtti"
    ∷ []

unfoldable pub safe_frontend_argument : Bytes → Bool
safe_frontend_argument a =
    if is_empty a
      || has_prefix a (codes "@")
      || text_eq a (codes "-Xclang")
      || text_eq a (codes "-load")
      || text_eq a (codes "-plugin")
      || has_prefix a (codes "-fplugin")
      || has_prefix a (codes "-MJ")
    then false
    else contains allowed_arguments a
      || has_prefix a (codes "-D")
      || has_prefix a (codes "-U")
      || has_prefix a (codes "-I")
      || has_prefix a (codes "-std=")
      || has_prefix a (codes "--target=")
      || has_prefix a (codes "-m")
      || not (has_prefix a (codes "-"))

unfoldable pub all_safe : List Bytes → Bool
all_safe [] = true
all_safe (a ∷ as_given) = safe_frontend_argument a && all_safe as_given

-- The closure of a task that names none, and the translation unit in every closure.
unfoldable pub with_unit : Bytes → Option Materialization → Materialization
with_unit relative none = record {
  files = relative ∷ [];
  closure_complete = false;
  gaps = codes "legacy task has no dependency closure" ∷ [];
}
with_unit relative (some m) =
    if contains m.files relative then m else record m { files = m.files ++ relative ∷ [] }

-- `task["repository_id"]`, or that of the options.
abbrev pub named_or : Bytes → Option Bytes → Bytes
named_or s none = s
named_or s (some t) = t

module _ (world : World) (options : WorkerOptions) where
  unfoldable pub is_acceptable : Task → Bool
  is_acceptable task =
      let relative = world.lexically_normal task.translation_unit in
      not (is_empty task.source_commit)
      && not (has_prefix task.source_commit (codes "-"))
      && (is_empty options.repository_id
          || text_eq (named_or options.repository_id task.repository_id) options.repository_id)
      && not (world.is_absolute relative)
      && not (is_empty relative)
      && not (text_eq (world.first_part relative) (codes ".."))

  abbrev pub repository_of : Task → Bytes
  repository_of task =
      if is_empty options.source_repository then task.repository else options.source_repository

  unfoldable pub command_of : Task → Bytes → Bytes → List Bytes
  command_of task worktree blob =
      options.extractor
      ∷ codes "--source-revision"
      ∷ task.source_commit
      ∷ codes "--configuration"
      ∷ task.configurations
      ∷ codes "--build-variant"
      ∷ task.build_variant
      ∷ codes "--context-fingerprint"
      ∷ task.context_id
      ∷ codes "--source-blob"
      ∷ blob
      ∷ codes "--project-root"
      ∷ worktree
      ∷ codes "--repository-id"
      ∷ options.repository_id
      ∷ world.join worktree (world.lexically_normal task.translation_unit)
      ∷ codes "--"
      ∷ task.frontend_arguments

  -- The manifest is of this task.
  abbrev pub is_of_task : Task → TuManifest → Bool
  is_of_task task m =
      text_eq m.source_revision task.source_commit
      && text_eq m.translation_unit (world.lexically_normal task.translation_unit)
      && text_eq m.context_id task.context_id
      && (is_empty options.repository_id || text_eq m.repository_id options.repository_id)

  unfoldable pub accept_manifest : Task → Option (Bytes × TuManifest) → Option Product
  accept_manifest task none = none
  accept_manifest task (some (record_type, m)) =
      if not (text_eq record_type (codes "tu_manifest"))
      then none
      else elim (validate_tu_manifest world.stable_hash world.dump m) [
        | some error ↦ none
        | none ↦ if is_of_task task m then some (tu_manifest m) else none
      ]

  -- What an extractor that was not cancelled made.
  unfoldable pub product_of : Task → ProcessOutput → Option Product
  product_of task p =
      if p.exit_code == 0 && not p.timed_out && not p.output_truncated
      then accept_manifest task (world.parse_manifest p.output)
      else if p.timed_out || p.output_truncated
      then none
      else some (
          tu_failure task.source_commit task.translation_unit task.context_id
            (codes "extractor failed; diagnostics fingerprint: " ++ world.stable_hash p.error))

  -- The output of the extractor, once everything it needs is there.
  unfoldable pub run_extractor : Task → Option ProcessOutput
  run_extractor task =
      let relative = world.lexically_normal task.translation_unit in
      let closure = with_unit relative task.materialization in
      if not (is_acceptable task)
      then none
      else elim (world.acquire_workspace (repository_of task) task.source_commit closure
          (not closure.closure_complete)) [
            | none ↦ none
            | some worktree ↦
                elim (world.blob_at (repository_of task) task.source_commit relative) [
                  | none ↦ none
                  | some found ↦ elim found [
                    | none ↦ none
                    | some blob ↦
                        if all_safe task.frontend_arguments
                        then world.run_process (command_of task worktree blob)
                        else none
                  ]
                ]
          ]

  -- How `run_task` ends, before its last change to the queue, with what the coordinator has imported.
  pub data Ending : Type 0 where
    threw : List Import → Ending
    was_cancelled : Ending
    concluded : List Import → Bytes → Ending

  unfoldable pub conclude_product : Task → Option Product → Ending
  conclude_product task none = threw []
  conclude_product task (some product) =
      let (imports, answer) = world.complete_claim task.task_id product in
      elim answer [ none ↦ threw imports | some state ↦ concluded imports state ]

  unfoldable pub conclude_output : Task → Option ProcessOutput → Ending
  conclude_output task none = threw []
  conclude_output task (some p) =
      if p.cancelled then was_cancelled else conclude_product task (product_of task p)

  -- The answer of `run_task`: a state, or the state that `fail_task` gave; nothing is an exception.
  pub data Reply : Type 0 where
    answers : Bytes → Reply
    fails : State → Reply
    nothing : Reply

  unfoldable pub catch_failure : ℕ → Task → Bytes → Queue → Queue × Reply
  catch_failure now task diagnostic q =
      let (t, row) = fail_task now task.task_id diagnostic options.max_attempts q in
      (t, elim row [ none ↦ nothing | some w ↦ fails w.state ])

  -- A state is set; an exception of that is caught as well.
  unfoldable pub set_or_catch : ℕ → Task → Bytes → Bytes → Bytes → Queue → Queue × Reply
  set_or_catch now task diagnostic state answer q = elim (set_task_state now task.task_id state q) [
    | none ↦ catch_failure now task diagnostic q
    | some t ↦ (t, answers answer)
  ]

  unfoldable pub finish_task : ℕ → Task → Bytes → Queue → Ending → Queue × Reply
  finish_task now task diagnostic q (threw imports) =
      catch_failure now task diagnostic (import_all now imports q)
  finish_task now task diagnostic q was_cancelled = (q, answers (codes "cancelled"))
  finish_task now task diagnostic q (concluded imports state) =
      set_or_catch now task diagnostic
        (if text_eq state (codes "completed") then codes "completed" else codes "pending") state
        (import_all now imports q)

  unfoldable pub process_task : ℕ → Task → Bytes → Queue → Queue × Reply
  process_task now task diagnostic q =
      elim (set_task_state now task.task_id (codes "processing") q) [
        | none ↦ catch_failure now task diagnostic q
        | some t ↦ finish_task now task diagnostic t (conclude_output task (run_extractor task))
      ]

  unfoldable pub run_claimed : ℕ → Task → Bytes → Queue → Option Bytes → Queue × Reply
  run_claimed now task diagnostic q none = catch_failure now task diagnostic q
  run_claimed now task diagnostic q (some state) =
      if text_eq state (codes "completed")
      then set_or_catch now task diagnostic (codes "completed") state q
      else if not (text_eq state (codes "processing"))
          && not (text_eq state (codes "processing_local"))
      then set_or_catch now task diagnostic (codes "waiting") state q
      else process_task now task diagnostic q

  -- `diagnostic` is the digest of the text of the exception, if there is one.
  unfoldable pub run_task : ℕ → Task → Bytes → Queue → Queue × Reply
  run_task now task diagnostic q =
      if not (text_eq task.extractor_identity options.extractor_identity)
      then set_or_catch now task diagnostic (codes "incompatible_worker")
          (codes "incompatible_worker") q
      else let (imports, claim) = world.acquire_claim task in
        run_claimed now task diagnostic (import_all now imports q) claim

  -- The runner's part: an answer completes the work, an exception fails it.
  unfoldable pub end_work : ℕ → Bytes → Bytes → Bytes → Bytes → Queue × Reply → Queue
  end_work now id owner progress fingerprint (q, nothing) =
      (fail_work now id owner fingerprint options.max_attempts q).0
  end_work now id owner progress fingerprint (q, _) = complete_work now id owner progress q

  unfoldable pub extraction_turn : ℕ → Bytes → Task → Bytes → Bytes → Queue → Queue
  extraction_turn now owner task progress diagnostic q =
      end_work now task.task_id owner progress diagnostic (run_task now task diagnostic q)
