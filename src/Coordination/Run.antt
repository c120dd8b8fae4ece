-- ===== src/Coordination/Run.antt =====
-- src/git_coordination.cpp: calls of several producers, one after another, on one remote. Since what a
-- call fetched is an argument, it may be older than the refs that its pushes meet.
use repotraverse.Prelude.{
  ℕ, suc, ◌+◌, ◌≡◌, ap, ◌≢◌, inl, inr, Bool, Option, none, some, List, [], ◌∷◌, arith,
  if◌then◌else◌, Bool-cases, Bytes, text_eq, length, All,
}
use repotraverse.Coordination.Claims.{Lease, CoordinationOptions, Refs, Git, Claim, Store}
use repotraverse.Coordination.Claims.Laws.{Lawful}
use repotraverse.Coordination.Sync.{Producer, sync}
use repotraverse.Coordination.Sync.Keeps.{store_of, AllFaithful, Holds, Keeps, sync-Keeps}
use repotraverse.Coordination.Leases.{acquire, heartbeat, complete}
use repotraverse.Coordination.Leases.Keeps.{acquire-Keeps, heartbeat-Keeps, complete-Keeps}

pub data Call (Oid : Type 0) : Type 0 where
  syncs : Option (List (Oid × Bytes)) → Call Oid
  acquires :
      Bytes → Bytes → Bool → Option (List (Oid × Bytes)) → Option (List (Oid × Bytes)) → Call Oid
  heartbeats : Bytes → Option Oid → Call Oid
  completes : Bytes → Option Bytes → Option Oid → Call Oid

-- A call, by whom and when.
pub record Turn (Oid : Type 0) : Type 0 where
  pub producer : Bytes
  pub now : ℕ
  pub call : Call Oid

-- The table of every producer, and the refs of the remote.
pub record World (Oid : Type 0) : Type 0 where
  pub tables : Bytes → List (Claim Oid)
  pub refs : Refs Oid

module _ {Oid : Type 0} where
  unfoldable pub call_store : Producer Oid → ℕ → Call Oid → Store Oid → Store Oid
  call_store p now (syncs fetched) s = store_of (sync p now fetched s)
  call_store p now (acquires id task fact fetched refetched) s =
      (acquire p now id task fact fetched refetched s).store
  call_store p now (heartbeats id fetched) s = (heartbeat p now id fetched s).store
  call_store p now (completes id result fetched) s = (complete p now id result fetched s).store

  -- Before any call the tables are empty.
  abbrev pub start : Refs Oid → World Oid
  start refs = record { tables = λ q. []; refs = refs }

module _ {Oid : Type 0} (g : Git Oid) (options : Bytes → CoordinationOptions) where
  abbrev pub producer_of : Turn Oid → Producer Oid
  producer_of t = record { producer_id = t.producer; options = options t.producer; git = g }

  abbrev pub turn_store : World Oid → Turn Oid → Store Oid
  turn_store w t =
      call_store (producer_of t) t.now t.call
        (record { claims = w.tables t.producer; refs = w.refs })

  unfoldable pub take_turn : World Oid → Turn Oid → World Oid
  take_turn w t = record {
    tables = λ q. if text_eq q t.producer then (turn_store w t).claims else w.tables q;
    refs = (turn_store w t).refs;
  }

  unfoldable pub run : World Oid → List (Turn Oid) → World Oid
  run w [] = w
  run w (t ∷ ts) = run (take_turn w t) ts

  abbrev WorldFaithful : World Oid → Type 0
  WorldFaithful w = (q : Bytes) → AllFaithful g (w.tables q)

  module _ (laws : Lawful g) where
    call_store-Keeps :
        (own : Bytes) (now : ℕ) (c : Call Oid) (ref : Bytes) (oid : Oid) (l : Lease) (s : Store Oid)
        → let p : Producer Oid = record { producer_id = own; options = options own; git = g } in
          g.message oid ≡ some l
          → Holds p now l
          → AllFaithful g s.claims
          → Keeps g ref oid s (call_store p now c s)
    unfolding call_store
    call_store-Keeps own now (syncs fetched) ref oid l s m held hs =
        sync-Keeps _ now laws ref oid l m held fetched s hs
    call_store-Keeps own now (acquires id task fact fetched refetched) ref oid l s m held hs =
        acquire-Keeps _ now laws ref oid l m held id task fact fetched refetched s hs
    call_store-Keeps own now (heartbeats id fetched) ref oid l s m held hs =
        heartbeat-Keeps _ now laws ref oid l m held id fetched s hs
    call_store-Keeps own now (completes id result fetched) ref oid l s m held hs =
        complete-Keeps _ now laws ref oid l m held id result fetched s hs

    -- A lease that holds against the producer at the time, to read off what any call keeps.
    abbrev some_lease : Turn Oid → Lease
    some_lease t = record {
      schema_version = 1;
      task_id = [];
      task = [];
      producer_id = 0 ∷ t.producer;
      state = [];
      acquired_at = 0;
      expires_at = t.now + 1;
      heartbeat_sequence = 0;
      result_id = [];
      completed_at = 0;
    }

    longer : (c : ℕ) (s : Bytes) → c ∷ s ≢ s
    longer c s e =
        let same : suc (length s) ≡ length s = ap length e in let no : ⊥ = omega arith in no

    take_turn-WorldFaithful :
        (w : World Oid) (t : Turn Oid) → WorldFaithful w → WorldFaithful (take_turn w t)
    unfolding take_turn
    take_turn-WorldFaithful w t hw q = elim (Bool-cases (text_eq q t.producer)) [
      | inr e ↦ rw e (hw q)
      | inl e ↦
          rw e
            (call_store-Keeps t.producer t.now t.call [] (g.commit (some_lease t) none)
              (some_lease t) _ (laws.message_commit (some_lease t) none)
              (record { of_another = longer 0 t.producer; in_time = inr (omega arith) })
              (hw t.producer)).0
    ]

    run-WorldFaithful :
        (ts : List (Turn Oid)) (w : World Oid) → WorldFaithful w → WorldFaithful (run w ts)
    unfolding run
    run-WorldFaithful [] w hw = hw
    run-WorldFaithful (t ∷ ts) w hw =
        run-WorldFaithful ts (take_turn w t) (take_turn-WorldFaithful w t hw)

    run_keeps :
        (ts : List (Turn Oid)) (w : World Oid) (ref : Bytes) (oid : Oid) (l : Lease)
        → WorldFaithful w
        → g.message oid ≡ some l
        → All (λ t. Holds (producer_of t) t.now l) ts
        → w.refs ref ≡ some oid
        → (run w ts).refs ref ≡ some oid
    unfolding run
    run_keeps [] w ref oid l hw m held h = h
    run_keeps (t ∷ ts) w ref oid l hw m (k, ks) h =
        run_keeps ts (take_turn w t) ref oid l (take_turn-WorldFaithful w t hw) m ks (
          unfold take_turn in
          (call_store-Keeps t.producer t.now t.call ref oid l _ m k (hw t.producer)).1 h)

    -- From empty tables on, whatever was called before, and however old what a call fetches: a lease at
    -- a ref stays there through all calls of other producers that are made before its time is over.
    pub lease_kept :
        (refs : Refs Oid) (past future : List (Turn Oid)) (ref : Bytes) (oid : Oid) (l : Lease)
        → (run (start refs) past).refs ref ≡ some oid
        → g.message oid ≡ some l
        → All (λ t. Holds (producer_of t) t.now l) future
        → (run (run (start refs) past) future).refs ref ≡ some oid
    lease_kept refs past future ref oid l h m held =
        run_keeps future (run (start refs) past) ref oid l
          (run-WorldFaithful past (start refs) (λ q. tt)) m held h
