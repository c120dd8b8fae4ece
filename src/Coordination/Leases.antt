-- ===== src/Coordination/Leases.antt =====
-- src/git_coordination.cpp: the operations on a lease.
pub mod Keeps
pub mod Wins
use repotraverse.Prelude.{
  ℕ, zero, suc, ◌+◌, ◌-◌, ◌*◌, ◌/◌, ◌%◌, ◌^◌, ◌≤◌, ◌<◌, ◌≡◌, refl, sym, ap, ◌∙◌, subst, ◌≢◌, ◌↔◌,
  ◌⊎◌, inl, inr, Bool, true, false, ◌&&◌, ◌||◌, not, Option, none, some, List, [], ◌∷◌, ◌++◌, map,
  append_assoc, append-nil, arith, ltb, leb, ◌==◌, within, if◌then◌else◌, ltb→lt, lt→ltb, leb→le,
  ==_iff, Bool-cases, Option-cases, Bytes, codes, text_eq, text_eq_iff, is_empty, contains, length,
  take, drop, length-append, take-append, drop-append, All, All-append, get_elem?, All-get_elem?,
  Listed,
}
use repotraverse.Coordination.Claims.{
  Lease, Refs, Claim, Store, claim_ref, find_claim, observe_claim,
}
use repotraverse.Coordination.Sync.{
  Synced, synchronized, waiting, failed, Producer, sync, import_lease,
}

-- What a call answers; `threw` is an exception, after the changes that were made before it.
pub data Reply (Oid : Type 0) : Type 0 where
  threw : Reply Oid
  state_only : Bytes → Reply Oid
  with_lease : Bytes → Lease → Option Oid → Reply Oid

pub record Outcome (Oid : Type 0) : Type 0 where
  pub reply : Reply Oid
  pub store : Store Oid

module _ {Oid : Type 0} (p : Producer Oid) where
  abbrev pub found : Bytes → Claim Oid → Reply Oid
  found state c = with_lease state c.lease (some c.ref_oid)

  unfoldable pub pushed : ℕ → Bytes → Lease → Oid → Store Oid → Option (Refs Oid) → Outcome Oid
  pushed now id l oid s none = record { reply = state_only (codes "claim_rejected"); store = s }
  pushed now id l oid s (some refs) = record {
    reply = with_lease l.state l (some oid);
    store = record { claims = observe_claim id oid l now s.claims; refs = refs };
  }

  unfoldable pub publish_at :
      ℕ → Bytes → Lease → Option Oid → Store Oid → Option Bytes → Outcome Oid
  publish_at now id l expected s none = record { reply = threw; store = s }
  publish_at now id l expected s (some ref) =
      let oid = p.git.commit l expected in
      pushed now id l oid s (p.git.push s.refs ref oid expected)

  unfoldable pub publish : ℕ → Bytes → Lease → Option Oid → Store Oid → Outcome Oid
  publish now id l expected s = publish_at now id l expected s (claim_ref id)

  -- What an attempt to claim writes.
  abbrev pub new_lease : ℕ → Bytes → Bytes → Lease
  new_lease now id task = record {
    schema_version = 1;
    task_id = id;
    task = task;
    producer_id = p.producer_id;
    state = codes "processing";
    acquired_at = now;
    expires_at = now + p.options.lease_seconds;
    heartbeat_sequence = 0;
    result_id = [];
    completed_at = 0;
  }

  pub winner : Reply Oid → Store Oid → Option (Claim Oid) → Outcome Oid
  winner rejected s none = record { reply = rejected; store = s }
  winner rejected s (some c) = record { reply = found (codes "claimed_elsewhere") c; store = s }

  pub retried : Bytes → Reply Oid → Synced Oid → Outcome Oid
  retried id rejected (synchronized s) = winner rejected s (find_claim id s.claims)
  retried id rejected (waiting s) = record {
    reply = state_only (codes "waiting_for_coordination");
    store = s;
  }
  retried id rejected (failed s) = record { reply = threw; store = s }

  -- After a push that was rejected the claims are read again.
  unfoldable pub settle :
      ℕ → Bytes → Option (List (Oid × Bytes)) → Store Oid → Reply Oid → Outcome Oid
  settle now id refetched s (state_only state) =
      retried id (state_only state) (sync p now refetched s)
  settle now id refetched s threw = record { reply = threw; store = s }
  settle now id refetched s (with_lease state l oid) = record {
    reply = with_lease state l oid;
    store = s;
  }

  unfoldable pub contend :
      ℕ → Bytes → Bytes → Option Oid → Option (List (Oid × Bytes)) → Store Oid → Outcome Oid
  contend now id task expected refetched s =
      let tried = publish now id (new_lease now id task) expected s in
      settle now id refetched tried.store tried.reply

  -- `now` is not after the end of the lease and the time of grace.
  pub is_held : ℕ → Lease → Bool
  is_held now l = leb now (l.expires_at + p.options.grace_seconds)

  pub holder_state : Claim Oid → Bytes
  holder_state c =
      if text_eq c.lease.producer_id p.producer_id
      then codes "processing_local"
      else codes "claimed_elsewhere"

  unfoldable pub decide :
      ℕ → Bytes → Bytes → Option (List (Oid × Bytes)) → Store Oid → Option (Claim Oid) → Outcome Oid
  decide now id task refetched s none = contend now id task none refetched s
  decide now id task refetched s (some c) =
      if text_eq c.lease.state (codes "completed")
      then record { reply = found c.lease.state c; store = s }
      else if is_held now c.lease
      then record { reply = found (holder_state c) c; store = s }
      else contend now id task (some c.ref_oid) refetched s

  -- `fact` tells if the catalog has a fact for the task.
  unfoldable pub with_fact :
      ℕ → Bytes → Bytes → Bool → Option (List (Oid × Bytes)) → Store Oid → Outcome Oid
  with_fact now id task fact refetched s =
      if fact
      then record { reply = state_only (codes "completed"); store = s }
      else decide now id task refetched s (find_claim id s.claims)

  unfoldable pub acquire_synced :
      ℕ → Bytes → Bytes → Bool → Option (List (Oid × Bytes)) → Synced Oid → Outcome Oid
  acquire_synced now id task fact refetched (synchronized s) =
      with_fact now id task fact refetched s
  acquire_synced now id task fact refetched (waiting s) = record {
    reply = state_only (codes "waiting_for_coordination");
    store = s;
  }
  acquire_synced now id task fact refetched (failed s) = record { reply = threw; store = s }

  unfoldable pub acquire :
      ℕ
      → Bytes
      → Bytes
      → Bool
      → Option (List (Oid × Bytes))
      → Option (List (Oid × Bytes))
      → Store Oid
      → Outcome Oid
  acquire now id task fact fetched refetched s =
      acquire_synced now id task fact refetched (sync p now fetched s)

  -- `refresh_claim`: the row is replaced by what was fetched, if that is a record for the task.
  refreshed : ℕ → Bytes → Option Oid → List (Claim Oid) → List (Claim Oid)
  refreshed now id none cs = cs
  refreshed now id (some oid) cs = import_lease p now oid id (p.git.message oid) cs

  pub refresh_claim : ℕ → Bytes → Option Oid → Store Oid → Store Oid
  refresh_claim now id fetched s = record s { claims = refreshed now id fetched s.claims }

  abbrev pub renewed : ℕ → Lease → Lease
  renewed now l = record l {
    state = codes "processing";
    expires_at = now + p.options.lease_seconds;
    heartbeat_sequence = l.heartbeat_sequence + 1;
  }

  beat : ℕ → Bytes → Store Oid → Option (Claim Oid) → Outcome Oid
  beat now id s none = record { reply = state_only (codes "not_claimed"); store = s }
  beat now id s (some c) =
      if text_eq c.lease.producer_id p.producer_id
      then publish now id (renewed now c.lease) (some c.ref_oid) s
      else record { reply = found (codes "claimed_elsewhere") c; store = s }

  -- The ref of the claim is named first; that throws if the id is none.
  heartbeat_at : ℕ → Bytes → Option Oid → Store Oid → Option Bytes → Outcome Oid
  heartbeat_at now id fetched s none = record { reply = threw; store = s }
  heartbeat_at now id fetched s (some ref) =
      let fresh = refresh_claim now id fetched s in beat now id fresh (find_claim id fresh.claims)

  pub heartbeat : ℕ → Bytes → Option Oid → Store Oid → Outcome Oid
  heartbeat now id fetched s = heartbeat_at now id fetched s (claim_ref id)

  abbrev pub finished : ℕ → Bytes → Lease → Lease
  finished now result l = record l {
    state = codes "completed";
    result_id = result;
    completed_at = now;
    expires_at = now + 3600;
  }

  -- `none` where the result could not be pushed, which throws.
  finish : ℕ → Bytes → Option Bytes → Claim Oid → Store Oid → Outcome Oid
  finish now id none c s = record { reply = threw; store = s }
  finish now id (some result) c s = publish now id (finished now result c.lease) (some c.ref_oid) s

  conclude : ℕ → Bytes → Option Bytes → Store Oid → Option (Claim Oid) → Outcome Oid
  conclude now id result s none = record { reply = state_only (codes "not_claimed"); store = s }
  conclude now id result s (some c) =
      if text_eq c.lease.producer_id p.producer_id
      then finish now id result c s
      else record { reply = found (codes "lease_lost") c; store = s }

  complete_at : ℕ → Bytes → Option Bytes → Option Oid → Store Oid → Option Bytes → Outcome Oid
  complete_at now id result fetched s none = record { reply = threw; store = s }
  complete_at now id result fetched s (some ref) =
      let fresh = refresh_claim now id fetched s in
      conclude now id result fresh (find_claim id fresh.claims)

  pub complete : ℕ → Bytes → Option Bytes → Option Oid → Store Oid → Outcome Oid
  complete now id result fetched s = complete_at now id result fetched s (claim_ref id)
