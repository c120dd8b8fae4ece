-- ===== src/Coordination/Leases/Wins.antt =====
-- What an attempt to claim may answer.
use repotraverse.Prelude.{ℕ, ◌+◌, ◌≡◌, Option, some, Bytes, codes}
use repotraverse.Coordination.Claims.{Lease, claim_ref}
use repotraverse.Coordination.Claims.Laws.{Lawful}
use repotraverse.Coordination.Sync.{Producer}
use repotraverse.Coordination.Leases.{with_lease, Outcome, new_lease}

module _ {Oid : Type 0} (p : Producer Oid) (now : ℕ) (laws : Lawful p.git) where
  -- The answer `processing` comes with the lease of the call, and the lease stands at the ref.
  abbrev pub IsWon : Bytes → Bytes → Outcome Oid → Type 0
  IsWon id task x =
      (k : Lease) (oid : Option Oid)
      → x.reply ≡ with_lease (codes "processing") k oid
      → (k ≡ new_lease p now id task)
        × ((ref : Bytes) × (claim_ref id ≡ some ref) × (x.store.refs ref ≡ oid))

  -- The lease is of this producer and this task, and ends `lease_seconds` from now.
  pub record IsOwnLease (id task : Bytes) (k : Lease) : Type 0 where
    pub of_task : k.task_id ≡ id
    pub with_task : k.task ≡ task
    pub by_producer : k.producer_id ≡ p.producer_id
    pub in_process : k.state ≡ codes "processing"
    pub from_now : k.acquired_at ≡ now
    pub until : k.expires_at ≡ now + p.options.lease_seconds
