-- ===== src/Coordination/Leases/Keeps.antt =====
-- No call of a producer takes the lease of another, as long as that lease holds.
use repotraverse.Prelude.{
  ℕ, ◌+◌, ◌≡◌, sym, ap, ◌∙◌, subst, ◌≢◌, inl, inr, Bool, true, false, Option, none, some, List,
  arith, leb, Bool-cases, Option-cases, Bytes, codes, text_eq, text_eq_iff,
}
use repotraverse.Coordination.Claims.{Lease, Refs, Claim, Store, find_claim, claim_ref}
use repotraverse.Coordination.Claims.Laws.{Lawful, observe_claim-IsFaithful, find_claim-IsFaithful}
use repotraverse.Coordination.Sync.{Producer, Synced, synchronized, waiting, failed, sync}
use repotraverse.Coordination.Sync.Keeps.{
  AllFaithful, Holds, Keeps, Moved-keeps, IsFaithful-ne, import_lease-IsFaithful, store_of,
  sync-Keeps,
}
use repotraverse.Coordination.Leases.{
  publish, publish_at, pushed, refreshed, refresh_claim, beat, heartbeat_at, heartbeat, renewed,
  Reply, threw, state_only, with_lease, Outcome, winner, retried, settle, contend, is_held, decide,
  with_fact, acquire_synced, acquire, finish, conclude, complete_at, complete, new_lease, finished,
}

module _ {Oid : Type 0} (p : Producer Oid) (now : ℕ) (laws : Lawful p.git) (ref : Bytes) (oid : Oid)
    (l : Lease) (m : p.git.message oid ≡ some l) (held : Holds p now l) where
  -- What is expected at the ref is not the commit of the lease.
  abbrev Expects : Option Oid → Type 0
  Expects none = Unit
  Expects (some e) = e ≢ oid

  push_first-keeps :
      (refs new : Refs Oid) (r : Bytes) (k : Lease)
      → p.git.push refs r (p.git.commit k none) none ≡ some new
      → refs ref ≡ some oid
      → new ref ≡ some oid
  push_first-keeps refs new r k e h = elim (Bool-cases (text_eq ref r)) [
    | inr differ ↦
        (laws.push_first refs new r k e).1.elsewhere ref
          (λ q. let yes = (text_eq_iff ref r).1 q in cc)
        ∙ h
    | inl same ↦
        let q : ref ≡ r = (text_eq_iff ref r).0 same in
        let (before, moved) = laws.push_first refs new r k e in
        elim before [
          | inl free ↦ let both : none ≡ some oid = sym free ∙ ap refs (sym q) ∙ h in cc
          | inr own ↦
              let both : some (p.git.commit k none) ≡ some oid = sym own ∙ ap refs (sym q) ∙ h in
              ap new q ∙ moved.there ∙ both
        ]
  ]

  push-keeps :
      (expected : Option Oid) (refs new : Refs Oid) (r : Bytes) (k : Lease)
      → Expects expected
      → p.git.push refs r (p.git.commit k expected) expected ≡ some new
      → refs ref ≡ some oid
      → new ref ≡ some oid
  push-keeps none refs new r k _ e = push_first-keeps refs new r k e
  push-keeps (some x) refs new r k other e =
      let (there, moved) = laws.push_over refs new r (p.git.commit k (some x)) x e in
      Moved-keeps refs new r _ ref oid x there moved other

  pub publish-Keeps :
      (id : Bytes) (k : Lease) (expected : Option Oid) (s : Store Oid)
      → Expects expected
      → AllFaithful p.git s.claims
      → Keeps p.git ref oid s (publish p now id k expected s).store
  unfolding publish publish_at
  publish-Keeps id k expected s other hs = elim (Option-cases (claim_ref id)) [
    | inl e ↦ rw e (hs, λ h. h)
    | inr (r, e) ↦ elim (Option-cases (p.git.push s.refs r (p.git.commit k expected) expected)) [
      | inl f ↦ rw (e, f) (unfold pushed in (hs, λ h. h))
      | inr (new, f) ↦
          rw (e, f)
            (unfold pushed in
              (
                observe_claim-IsFaithful p.git id _ k now s.claims (laws.message_commit k expected)
                    hs,
                push-keeps expected s.refs new r k other f,
              ))
    ]
  ]

  -- The row of another lease: its commit is not that of the lease.
  row_Expects :
      (id : Bytes) (cs : List (Claim Oid)) (c : Claim Oid)
      → AllFaithful p.git cs
      → find_claim id cs ≡ some c
      → c.lease ≢ l
      → Expects (some c.ref_oid)
  row_Expects id cs c hs e other =
      IsFaithful-ne p.git c oid l (find_claim-IsFaithful p.git id cs c hs e) m other

  refresh_claim-Keeps :
      (id : Bytes) (fetched : Option Oid) (s : Store Oid)
      → AllFaithful p.git s.claims
      → Keeps p.git ref oid s (refresh_claim p now id fetched s)
  unfolding refresh_claim refreshed
  refresh_claim-Keeps id none s hs = (hs, λ h. h)
  refresh_claim-Keeps id (some x) s hs = (import_lease-IsFaithful p now x id s.claims hs, λ h. h)

  -- A row whose lease is the producer's own.
  own-ne : (c : Claim Oid) → text_eq c.lease.producer_id p.producer_id ≡ true → c.lease ≢ l
  own-ne c e k = held.of_another (ap (λ x. x.producer_id) (sym k) ∙ (text_eq_iff _ _).0 e)

  pub heartbeat-Keeps :
      (id : Bytes) (fetched : Option Oid) (s : Store Oid)
      → AllFaithful p.git s.claims
      → Keeps p.git ref oid s (heartbeat p now id fetched s).store
  unfolding heartbeat heartbeat_at beat
  heartbeat-Keeps id fetched s hs =
      let (fresh, _) = refresh_claim-Keeps id fetched s hs in
      elim (Option-cases (claim_ref id)) [
        | inl e ↦ rw e (hs, λ h. h)
        | inr (r, e) ↦
            elim (Option-cases (find_claim id (refresh_claim p now id fetched s).claims)) [
              | inl f ↦ rw (e, f) (refresh_claim-Keeps id fetched s hs)
              | inr (c, f) ↦ elim (Bool-cases (text_eq c.lease.producer_id p.producer_id)) [
                | inr differ ↦ rw (e, f, differ) (refresh_claim-Keeps id fetched s hs)
                | inl same ↦
                    let (ht, keeps) =
                      publish-Keeps id (renewed p now c.lease) (some c.ref_oid)
                        (refresh_claim p now id fetched s)
                        (row_Expects id _ c fresh f (own-ne c same)) fresh in
                    rw (e, f, same) (ht, λ h. keeps ((refresh_claim-Keeps id fetched s hs).1 h))
              ]
            ]
      ]

  -- A row that is not held any more.
  free-ne : (c : Claim Oid) → is_held p now c.lease ≡ false → c.lease ≢ l
  unfolding is_held
  free-ne c e k =
      let late : leb now (l.expires_at + p.options.grace_seconds) ≡ false =
        subst (λ x. leb now (x.expires_at + p.options.grace_seconds) ≡ false) k e in
      elim held.in_time [ inl (_, i) ↦ ground arith | inr i ↦ ground arith ]

  abbrev After : Store Oid → Outcome Oid → Type 0
  After s x = Keeps p.git ref oid s x.store

  retried-Keeps :
      (id : Bytes) (rejected : Reply Oid) (s : Store Oid) (x : Synced Oid)
      → Keeps p.git ref oid s (store_of x)
      → After s (retried p id rejected x)
  unfolding retried winner
  retried-Keeps id rejected s (waiting t) h = h
  retried-Keeps id rejected s (failed t) h = h
  retried-Keeps id rejected s (synchronized t) h = elim (Option-cases (find_claim id t.claims)) [
    | inl e ↦ rw e h
    | inr (c, e) ↦ rw e h
  ]

  settle-Keeps :
      (id : Bytes) (refetched : Option (List (Oid × Bytes))) (s t : Store Oid) (r : Reply Oid)
      → Keeps p.git ref oid s t
      → After s (settle p now id refetched t r)
  unfolding settle
  settle-Keeps id refetched s t threw h = h
  settle-Keeps id refetched s t (with_lease state k x) h = h
  settle-Keeps id refetched s t (state_only state) (ht, keeps) =
      let (hu, later) = sync-Keeps p now laws ref oid l m held refetched t ht in
      retried-Keeps id (state_only state) s (sync p now refetched t) (hu, λ h. later (keeps h))

  contend-Keeps :
      (id task : Bytes) (expected : Option Oid) (refetched : Option (List (Oid × Bytes)))
      (s : Store Oid)
      → Expects expected
      → AllFaithful p.git s.claims
      → After s (contend p now id task expected refetched s)
  unfolding contend
  contend-Keeps id task expected refetched s other hs =
      settle-Keeps id refetched s _ _
        (publish-Keeps id (new_lease p now id task) expected s other hs)

  decide-Keeps :
      (id task : Bytes) (refetched : Option (List (Oid × Bytes))) (s : Store Oid)
      → AllFaithful p.git s.claims
      → After s (decide p now id task refetched s (find_claim id s.claims))
  unfolding decide
  decide-Keeps id task refetched s hs = elim (Option-cases (find_claim id s.claims)) [
    | inl e ↦ rw e (contend-Keeps id task none refetched s tt hs)
    | inr (c, e) ↦ elim (Bool-cases (text_eq c.lease.state (codes "completed"))) [
      | inl done ↦ rw (e, done) (hs, λ h. h)
      | inr open_ ↦ elim (Bool-cases (is_held p now c.lease)) [
        | inl k ↦ rw (e, open_, k) (hs, λ h. h)
        | inr k ↦
            rw (e, open_, k)
              (contend-Keeps id task (some c.ref_oid) refetched s
                (row_Expects id s.claims c hs e (free-ne c k)) hs)
      ]
    ]
  ]

  acquire_synced-Keeps :
      (id task : Bytes) (fact : Bool) (refetched : Option (List (Oid × Bytes))) (s : Store Oid)
      (x : Synced Oid)
      → Keeps p.git ref oid s (store_of x)
      → After s (acquire_synced p now id task fact refetched x)
  unfolding acquire_synced with_fact
  acquire_synced-Keeps id task fact refetched s (waiting t) h = h
  acquire_synced-Keeps id task fact refetched s (failed t) h = h
  acquire_synced-Keeps id task true refetched s (synchronized t) h = h
  acquire_synced-Keeps id task false refetched s (synchronized t) (ht, keeps) =
      let (hu, later) = decide-Keeps id task refetched t ht in (hu, λ h. later (keeps h))

  pub acquire-Keeps :
      (id task : Bytes) (fact : Bool) (fetched refetched : Option (List (Oid × Bytes)))
      (s : Store Oid)
      → AllFaithful p.git s.claims
      → After s (acquire p now id task fact fetched refetched s)
  unfolding acquire
  acquire-Keeps id task fact fetched refetched s hs =
      acquire_synced-Keeps id task fact refetched s (sync p now fetched s)
        (sync-Keeps p now laws ref oid l m held fetched s hs)

  finish-Keeps :
      (id : Bytes) (result : Option Bytes) (c : Claim Oid) (s : Store Oid)
      → Expects (some c.ref_oid)
      → AllFaithful p.git s.claims
      → After s (finish p now id result c s)
  unfolding finish
  finish-Keeps id none c s other hs = (hs, λ h. h)
  finish-Keeps id (some result) c s other hs =
      publish-Keeps id (finished p now result c.lease) (some c.ref_oid) s other hs

  pub complete-Keeps :
      (id : Bytes) (result : Option Bytes) (fetched : Option Oid) (s : Store Oid)
      → AllFaithful p.git s.claims
      → After s (complete p now id result fetched s)
  unfolding complete complete_at conclude
  complete-Keeps id result fetched s hs =
      let (fresh, same_refs) = refresh_claim-Keeps id fetched s hs in
      let read : Store Oid = refresh_claim p now id fetched s in
      elim (Option-cases (claim_ref id)) [
        | inl e ↦ rw e (hs, λ h. h)
        | inr (r, e) ↦
            elim (Option-cases (find_claim id (refresh_claim p now id fetched s).claims)) [
              | inl f ↦ rw (e, f) (fresh, same_refs)
              | inr (c, f) ↦ elim (Bool-cases (text_eq c.lease.producer_id p.producer_id)) [
                | inr differ ↦ rw (e, f, differ) (fresh, same_refs)
                | inl same ↦
                    let (ht, keeps) =
                      finish-Keeps id result c (refresh_claim p now id fetched s)
                        (row_Expects id _ c fresh f (own-ne c same)) fresh in
                    rw (e, f, same) (ht, λ h. keeps (same_refs h))
              ]
            ]
      ]
