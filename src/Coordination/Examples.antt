-- ===== src/Coordination/Examples.antt =====
-- A remote of Git where a commit is the list of the records behind it, latest first; two producers.
use repotraverse.Prelude.{
  ◌*◌, ◌≤◌, ◌≡◌, refl, ap, subst, inl, inr, Bool, true, false, ◌&&◌, Option, none, some, List, [],
  ◌∷◌, arith, ◌==◌, if◌then◌else◌, ==_iff, Bool-cases, Option-cases, Bytes, codes, text_eq,
  text_eq_iff, All,
}
use repotraverse.Coordination.Claims.{
  Lease, Refs, Git, CoordinationOptions, claim_ref, heartbeat_interval, all_hex, is_hex, find_claim,
}
use repotraverse.Coordination.Claims.Laws.{Moved, Lawful}
use repotraverse.Coordination.Claims.Names.{claim_ref_injective, heartbeat_interval_bounds}
use repotraverse.Coordination.Sync.{Producer, sync, prune_claims, keep_observed, import_claims}
use repotraverse.Coordination.Sync.Keeps.{Holds}
use repotraverse.Coordination.Leases.{
  Outcome, acquire, new_lease, acquire_synced, with_fact, decide, contend, settle, publish,
  publish_at, pushed,
}
use repotraverse.Coordination.Run.{
  acquires, Turn, start, run, take_turn, call_store, lease_kept, producer_of,
}

-- Records are compared field by field, commits record by record.
lease_eq : Lease → Lease → Bool
lease_eq a b =
    a.schema_version == b.schema_version
    && text_eq a.task_id b.task_id
    && text_eq a.task b.task
    && text_eq a.producer_id b.producer_id
    && text_eq a.state b.state
    && a.acquired_at == b.acquired_at
    && a.expires_at == b.expires_at
    && a.heartbeat_sequence == b.heartbeat_sequence
    && text_eq a.result_id b.result_id
    && a.completed_at == b.completed_at

and_true : (a b : Bool) → (a && b) ≡ true → (a ≡ true) × (b ≡ true)
and_true true b h = (refl, h)
and_true false b h = absurd (ground arith)

lease_eq_lem : (a b : Lease) → lease_eq a b ≡ true → a ≡ b
unfolding lease_eq
lease_eq_lem a b h =
    let (r9, h9) = and_true _ (a.completed_at == b.completed_at) h in
    let (r8, h8) = and_true _ (text_eq a.result_id b.result_id) r9 in
    let (r7, h7) = and_true _ (a.heartbeat_sequence == b.heartbeat_sequence) r8 in
    let (r6, h6) = and_true _ (a.expires_at == b.expires_at) r7 in
    let (r5, h5) = and_true _ (a.acquired_at == b.acquired_at) r6 in
    let (r4, h4) = and_true _ (text_eq a.state b.state) r5 in
    let (r3, h3) = and_true _ (text_eq a.producer_id b.producer_id) r4 in
    let (r2, h2) = and_true _ (text_eq a.task b.task) r3 in
    let (r1, h1) = and_true _ (text_eq a.task_id b.task_id) r2 in
    λ i. record {
      schema_version = (==_iff a.schema_version b.schema_version).0 r1 i;
      task_id = (text_eq_iff a.task_id b.task_id).0 h1 i;
      task = (text_eq_iff a.task b.task).0 h2 i;
      producer_id = (text_eq_iff a.producer_id b.producer_id).0 h3 i;
      state = (text_eq_iff a.state b.state).0 h4 i;
      acquired_at = (==_iff a.acquired_at b.acquired_at).0 h5 i;
      expires_at = (==_iff a.expires_at b.expires_at).0 h6 i;
      heartbeat_sequence = (==_iff a.heartbeat_sequence b.heartbeat_sequence).0 h7 i;
      result_id = (text_eq_iff a.result_id b.result_id).0 h8 i;
      completed_at = (==_iff a.completed_at b.completed_at).0 h9 i;
    }

same_oid : List Lease → List Lease → Bool
unfolding lease_eq
same_oid [] [] = true
same_oid [] (b ∷ bs) = false
same_oid (a ∷ as_) [] = false
same_oid (a ∷ as_) (b ∷ bs) = lease_eq a b && same_oid as_ bs

same_oid_lem : (x y : List Lease) → same_oid x y ≡ true → x ≡ y
unfolding same_oid
same_oid_lem [] [] h = refl
same_oid_lem [] (b ∷ bs) h = absurd (ground arith)
same_oid_lem (a ∷ as_) [] h = absurd (ground arith)
same_oid_lem (a ∷ as_) (b ∷ bs) h =
    let (k, ks) = and_true (lease_eq a b) _ h in
    let heads = lease_eq_lem a b k in let tails = same_oid_lem as_ bs ks in λ i. heads i ∷ tails i

set_ref : Refs (List Lease) → Bytes → Option (List Lease) → Refs (List Lease)
set_ref refs ref x other = if text_eq other ref then x else refs other

if_expected : Bool → Refs (List Lease) → Option (Refs (List Lease))
if_expected true new = some new
if_expected false new = none

-- The ref is what is expected.
is_tip : Option (List Lease) → List Lease → Bool
is_tip none e = false
is_tip (some x) e = same_oid x e

push_to : Refs (List Lease) → Bytes → List Lease → Option (List Lease) → Option (Refs (List Lease))
push_to refs ref oid none = elim (refs ref) [
  | none ↦ some (set_ref refs ref (some oid))
  | some x ↦ none
]
push_to refs ref oid (some e) = if_expected (is_tip (refs ref) e) (set_ref refs ref (some oid))

delete_from : Refs (List Lease) → Bytes → List Lease → Option (Refs (List Lease))
delete_from refs ref e = if_expected (is_tip (refs ref) e) (set_ref refs ref none)

last_record : List Lease → Option Lease
last_record [] = none
last_record (l ∷ ls) = some l

commit_on : Lease → Option (List Lease) → List Lease
commit_on l none = l ∷ []
commit_on l (some parent) = l ∷ parent

abbrev remote_git : Git (List Lease)
remote_git = record {
  message = last_record;
  commit = commit_on;
  push = push_to;
  push_delete = delete_from;
}

set_ref-Moved :
    (refs : Refs (List Lease)) (ref : Bytes) (x : Option (List Lease))
    → Moved refs (set_ref refs ref x) ref x
unfolding set_ref
set_ref-Moved refs ref x = record {
  there = let yes = (text_eq_iff ref ref).1 refl in rw yes;
  elsewhere = λ other differ. elim (Bool-cases (text_eq other ref)) [
    | inl e ↦ absurd (differ ((text_eq_iff other ref).0 e))
    | inr e ↦ rw e
  ];
}

is_tip_lem : (x : Option (List Lease)) (e : List Lease) → is_tip x e ≡ true → x ≡ some e
unfolding is_tip
is_tip_lem none e h = absurd (ground arith)
is_tip_lem (some x) e h = ap some (same_oid_lem x e h)

if_expected_lem :
    (b : Bool) (set new : Refs (List Lease))
    → if_expected b set ≡ some new
    → (b ≡ true) × (set ≡ new)
unfolding if_expected
if_expected_lem true set new h = (refl, cc)
if_expected_lem false set new h = cc

expected_lem :
    (refs new : Refs (List Lease)) (ref : Bytes) (e : List Lease) (x : Option (List Lease))
    → if_expected (is_tip (refs ref) e) (set_ref refs ref x) ≡ some new
    → (refs ref ≡ some e) × Moved refs new ref x
expected_lem refs new ref e x h =
    let (k, same) = if_expected_lem (is_tip (refs ref) e) (set_ref refs ref x) new h in
    (is_tip_lem (refs ref) e k, subst (λ n. Moved refs n ref x) same (set_ref-Moved refs ref x))

remote_git-Lawful : Lawful remote_git
unfolding last_record commit_on push_to delete_from
remote_git-Lawful = record {
  message_commit = λ l parent. elim (Option-cases parent) [ inl e ↦ rw e | inr (x, e) ↦ rw e ];
  push_over = λ refs new ref oid e h. expected_lem refs new ref e (some oid) h;
  push_first = λ refs new ref l h. elim (Option-cases (refs ref)) [
    | inl e ↦
        let same : set_ref refs ref (some (l ∷ [])) ≡ new = ground arith in
        (
          inl e,
          subst (λ n. Moved refs n ref (some (l ∷ []))) same
              (set_ref-Moved refs ref (some (l ∷ []))),
        )
    | inr (x, e) ↦ absurd (ground arith)
  ];
  delete_over = λ refs new ref e h. expected_lem refs new ref e none h;
}

-- A task, and its ref.
abbrev task_id : Bytes
task_id = codes "0123456789abcdef0123456789abcdef"

abbrev task_ref : Bytes
task_ref =
    codes "refs/heads/repotraverse/v1/coordination/claims/01/0123456789abcdef0123456789abcdef"

abbrev defaults : CoordinationOptions
defaults = record {
  lease_seconds = 900;
  grace_seconds = 120;
  trusted_producers = [];
  enforce_trusted_producers = false;
}

abbrev first_producer : Producer (List Lease)
first_producer = record { producer_id = codes "a"; options = defaults; git = remote_git }

abbrev no_refs : Refs (List Lease)
no_refs = λ ref. none

abbrev first_lease : Lease
first_lease = new_lease first_producer 100 task_id []

-- The first producer claims the task.
abbrev first_turn : Turn (List Lease)
first_turn = record {
  producer = codes "a";
  now = 100;
  call = acquires task_id [] false (some []) (some []);
}

-- The second tries so too, without knowing of it, and after reading the claims.
abbrev second_turns : List (Turn (List Lease))
second_turns =
    record { producer = codes "b"; now = 500; call = acquires task_id [] false (some []) (some []) }
    ∷ record {
      producer = codes "b";
      now = 1120;
      call = acquires task_id [] false (some ((first_lease ∷ [], task_ref) ∷ [])) (some []);
    }
    ∷ []

-- What the first producer's call does.
abbrev first_call : Outcome (List Lease)
first_call =
    acquire first_producer 100 task_id [] false (some []) (some [])
      (record { claims = []; refs = no_refs })

first_stands :
    (run remote_git (λ q. defaults) (start no_refs) (first_turn ∷ [])).refs task_ref
    ≡ some (first_lease ∷ [])
unfolding run take_turn call_store acquire acquire_synced with_fact decide contend settle publish
    publish_at pushed sync prune_claims keep_observed import_claims claim_ref all_hex is_hex
    find_claim push_to commit_on set_ref text_eq
first_stands = refl

second_Holds :
    All (λ t. Holds (producer_of remote_git (λ q. defaults) t) t.now first_lease) second_turns
second_Holds = (
  record { of_another = λ e. ground arith; in_time = inr (ground arith) },
  (
    record { of_another = λ e. ground arith; in_time = inl ((λ e. ground arith), ground arith) },
    tt,
  ),
)

lease_kept_example :
    (run remote_git
        (λ q. defaults)
        (run remote_git (λ q. defaults) (start no_refs) (first_turn ∷ []))
        second_turns).refs
      task_ref
    ≡ some (first_lease ∷ [])
unfolding last_record
lease_kept_example =
    lease_kept remote_git (λ q. defaults) remote_git-Lawful no_refs (first_turn ∷ []) second_turns
      task_ref (first_lease ∷ []) first_lease first_stands refl second_Holds

claim_ref_lem : claim_ref task_id ≡ some task_ref
unfolding claim_ref all_hex is_hex
claim_ref_lem = refl

claim_ref_injective_example : task_id ≡ task_id
claim_ref_injective_example =
    claim_ref_injective task_id task_id task_ref claim_ref_lem claim_ref_lem

heartbeat_interval_bounds_example :
    (1 ≤ heartbeat_interval defaults)
    × (heartbeat_interval defaults ≤ 60)
    × (3 ≤ 900 → 3 * heartbeat_interval defaults ≤ 900)
heartbeat_interval_bounds_example = heartbeat_interval_bounds defaults
