-- ===== src/Coordination/Sync.antt =====
-- src/git_coordination.cpp: `sync`, as far as it touches claims. A call reads the clock once, as `now`;
-- what it fetches is an argument, since other producers push between.
pub mod Keeps
use repotraverse.Prelude.{
  ℕ, zero, suc, ◌+◌, ◌-◌, ◌*◌, ◌/◌, ◌%◌, ◌^◌, ◌≤◌, ◌<◌, ◌≡◌, refl, sym, ap, ◌∙◌, subst, ◌≢◌, ◌↔◌,
  ◌⊎◌, inl, inr, Bool, true, false, ◌&&◌, ◌||◌, not, Option, none, some, List, [], ◌∷◌, ◌++◌, map,
  append_assoc, append-nil, arith, ltb, leb, ◌==◌, within, if◌then◌else◌, ltb→lt, lt→ltb, leb→le,
  ==_iff, Bool-cases, Option-cases, Bytes, codes, text_eq, text_eq_iff, is_empty, contains, length,
  take, drop, length-append, take-append, drop-append, All, All-append, get_elem?, All-get_elem?,
  Listed,
}
use repotraverse.Coordination.Claims.{
  Lease, CoordinationOptions, Git, Claim, Store, trusted_producer, claim_ref, after_slash,
  remove_claim, observe_claim,
}

pub data Synced (Oid : Type 0) : Type 0 where
  synchronized waiting failed : Store Oid → Synced Oid

-- What a producer is: its id, its options and its Git.
pub record Producer (Oid : Type 0) : Type 0 where
  pub producer_id : Bytes
  pub options : CoordinationOptions
  pub git : Git Oid

module _ {Oid : Type 0} (p : Producer Oid) where
  -- A record is taken for the task that it names, from a producer that is trusted.
  pub admissible : Bytes → Lease → Bool
  admissible id l =
      l.schema_version == 1
      && text_eq l.task_id id
      && trusted_producer p.producer_id p.options l.producer_id

  pub import_lease : ℕ → Oid → Bytes → Option Lease → List (Claim Oid) → List (Claim Oid)
  import_lease now oid id none cs = cs
  import_lease now oid id (some l) cs =
      if admissible id l then observe_claim id oid l now cs else cs

  pub import_claim : ℕ → Oid → Option Bytes → List (Claim Oid) → List (Claim Oid)
  import_claim now oid none cs = cs
  import_claim now oid (some id) cs = import_lease now oid id (p.git.message oid) cs

  -- The loop over the refs that were fetched.
  unfoldable pub import_claims : ℕ → List (Oid × Bytes) → List (Claim Oid) → List (Claim Oid)
  import_claims now [] cs = cs
  import_claims now ((oid, ref) ∷ rest) cs =
      import_claims now rest (import_claim now oid (after_slash ref) cs)

  lease_observed : Bytes → Option Lease → Bool
  lease_observed id none = false
  lease_observed id (some l) = admissible id l

  ref_observed : Bytes → Oid → Option Bytes → Bool
  ref_observed task oid none = false
  ref_observed task oid (some id) = text_eq id task && lease_observed id (p.git.message oid)

  -- The task is among `observed`.
  pub observed : List (Oid × Bytes) → Bytes → Bool
  observed [] task = false
  observed ((oid, ref) ∷ rest) task = ref_observed task oid (after_slash ref) || observed rest task

  -- Claims that were not observed are removed.
  unfoldable pub keep_observed : List (Oid × Bytes) → List (Claim Oid) → List (Claim Oid)
  keep_observed listed [] = []
  keep_observed listed (c ∷ cs) =
      let rest = keep_observed listed cs in if observed listed c.task_id then c ∷ rest else rest

  pub prune_at : Option Bytes → Claim Oid → Store Oid → Option (Store Oid)
  prune_at none c s = none
  prune_at (some ref) c s = some (elim (p.git.push_delete s.refs ref c.ref_oid) [
    | none ↦ s
    | some refs ↦ record { claims = remove_claim c.lease.task_id s.claims; refs = refs }
  ])

  -- `completed`, and its time is over.
  pub is_prunable : ℕ → Lease → Bool
  is_prunable now l = text_eq l.state (codes "completed") && leb l.expires_at now

  unfoldable pub prune_claims : ℕ → List (Claim Oid) → Store Oid → Synced Oid
  prune_claims now [] s = synchronized s
  prune_claims now (c ∷ cs) s =
      let skip = prune_claims now cs s in
      let pruned : Synced Oid = elim (prune_at (claim_ref c.lease.task_id) c s) [
        | none ↦ failed s
        | some t ↦ prune_claims now cs t
      ] in
      if is_prunable now c.lease then pruned else skip

  -- `none` is a fetch that fails.
  unfoldable pub sync : ℕ → Option (List (Oid × Bytes)) → Store Oid → Synced Oid
  sync now none s = waiting s
  sync now (some listed) s =
      let claims = keep_observed listed (import_claims now listed s.claims) in
      prune_claims now claims (record s { claims = claims })
