-- ===== src/Worker/Accepted.antt =====
-- src/worker.cpp: what the coordinator may be given as a manifest.
use repotraverse.Prelude.{
  ◌≡◌, subst, ◌⊎◌, inl, inr, true, ◌&&◌, not, Option, none, some, [], arith, ◌==◌, Bool-cases,
  Option-cases, Bytes, codes, text_eq, text_eq_iff, is_empty,
}
use repotraverse.Ir.Manifest.{TuManifest, validate_tu_manifest}
use repotraverse.Ir.Manifest.Ids.{empty_iff}
use repotraverse.Ir.Manifest.Valid.{IsManifest}
use repotraverse.Ir.Manifest.Decides.{validate_tu_manifest_iff}
use repotraverse.Worker.{
  Task, WorkerOptions, ProcessOutput, tu_manifest, World, is_of_task, accept_manifest, product_of,
}

-- A manifest that is in order, of the revision, the unit and the context of the task.
pub record IsAnswer (world : World) (options : WorkerOptions) (task : Task) (m : TuManifest)
    : Type 0 where
  pub in_order : IsManifest world.stable_hash world.dump m
  pub of_revision : m.source_revision ≡ task.source_commit
  pub of_unit : m.translation_unit ≡ world.lexically_normal task.translation_unit
  pub of_context : m.context_id ≡ task.context_id
  pub of_repository : (options.repository_id ≡ []) ⊎ (m.repository_id ≡ options.repository_id)

is_of_task-IsAnswer :
    (world : World) (options : WorkerOptions) (task : Task) (m : TuManifest)
    → validate_tu_manifest world.stable_hash world.dump m ≡ none
    → is_of_task world options task m ≡ true
    → IsAnswer world options task m
is_of_task-IsAnswer world options task m valid own = record {
  in_order = (validate_tu_manifest_iff world.stable_hash world.dump m).0 valid;
  of_revision = (text_eq_iff m.source_revision task.source_commit).0 (ground arith);
  of_unit =
      (text_eq_iff m.translation_unit (world.lexically_normal task.translation_unit)).0
        (ground arith);
  of_context = (text_eq_iff m.context_id task.context_id).0 (ground arith);
  of_repository = elim (Bool-cases (is_empty options.repository_id)) [
    | inl e ↦ inl ((empty_iff options.repository_id).0 e)
    | inr e ↦ inr ((text_eq_iff m.repository_id options.repository_id).0 (ground arith))
  ];
}

accept_manifest-IsAnswer :
    (world : World) (options : WorkerOptions) (task : Task) (parsed : Option (Bytes × TuManifest))
    (m : TuManifest)
    → accept_manifest world options task parsed ≡ some (tu_manifest m)
    → IsAnswer world options task m
unfolding accept_manifest
accept_manifest-IsAnswer world options task none m h = absurd (ground arith)
accept_manifest-IsAnswer world options task (some (kind, n)) m h =
    elim (Bool-cases (text_eq kind (codes "tu_manifest"))) [
      | inr e ↦ absurd (ground arith)
      | inl e ↦ elim (Option-cases (validate_tu_manifest world.stable_hash world.dump n)) [
        | inr (error, v) ↦ absurd (ground arith)
        | inl v ↦ elim (Bool-cases (is_of_task world options task n)) [
          | inr k ↦ absurd (ground arith)
          | inl k ↦
              let same : n ≡ m = ground arith in
              subst (IsAnswer world options task) same
                (is_of_task-IsAnswer world options task n v k)
        ]
      ]
    ]

-- A manifest that run_task gives to the coordinator passes validate_tu_manifest in all that this demands,
-- and is of the revision, the translation unit and the context of the task, and of the repository that
-- the options name, if they name one.
pub product_of-IsAnswer :
    (world : World) (options : WorkerOptions) (task : Task) (p : ProcessOutput) (m : TuManifest)
    → product_of world options task p ≡ some (tu_manifest m)
    → IsAnswer world options task m
unfolding product_of
product_of-IsAnswer world options task p m h =
    elim (Bool-cases (p.exit_code == 0 && not p.timed_out && not p.output_truncated)) [
      | inl e ↦
          accept_manifest-IsAnswer world options task (world.parse_manifest p.output) m (rw e at h)
      | inr e ↦ absurd (ground arith)
    ]
