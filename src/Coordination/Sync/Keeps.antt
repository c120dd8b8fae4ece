-- ===== src/Coordination/Sync/Keeps.antt =====
-- A synchronization leaves the lease of another producer in its ref, as long as that lease holds.
use repotraverse.Prelude.{
  ℕ, ◌+◌, ◌≤◌, ◌<◌, ◌≡◌, sym, ap, ◌∙◌, ◌≢◌, ◌⊎◌, inl, inr, true, false, Option, none, some, List,
  [], ◌∷◌, arith, Bool-cases, Option-cases, Bytes, codes, text_eq, text_eq_iff, All,
}
use repotraverse.Coordination.Claims.{
  Lease, Refs, Git, Claim, Store, claim_ref, after_slash, remove_claim,
}
use repotraverse.Coordination.Claims.Laws.{
  Moved, Lawful, IsFaithful, remove_claim-IsFaithful, observe_claim-IsFaithful,
}
use repotraverse.Coordination.Sync.{
  Synced, synchronized, waiting, failed, Producer, admissible, import_lease, import_claim,
  import_claims, observed, keep_observed, prune_at, is_prunable, prune_claims, sync,
}

module _ {Oid : Type 0} where
  abbrev pub store_of : Synced Oid → Store Oid
  store_of (synchronized s) = s
  store_of (waiting s) = s
  store_of (failed s) = s

  abbrev pub AllFaithful : Git Oid → List (Claim Oid) → Type 0
  AllFaithful g = All (IsFaithful g)

  -- The lease is of another producer, and its time is not over: that of a completed one ends when it
  -- expires, that of any other with the time of grace behind it.
  pub record Holds (p : Producer Oid) (now : ℕ) (l : Lease) : Type 0 where
    pub of_another : l.producer_id ≢ p.producer_id
    pub in_time :
        ((l.state ≢ codes "completed") × (now ≤ l.expires_at + p.options.grace_seconds))
        ⊎ (now < l.expires_at)

  pub Holds-is_prunable :
      (p : Producer Oid) (now : ℕ) (l : Lease) → Holds p now l → is_prunable p now l ≡ false
  unfolding is_prunable
  Holds-is_prunable p now l h = elim h.in_time [
    | inl (other, _) ↦ elim (Bool-cases (text_eq l.state (codes "completed"))) [
      | inl e ↦ absurd (other ((text_eq_iff _ _).0 e))
      | inr e ↦ rw e
    ]
    | inr before ↦ ground arith
  ]

  -- The claims stay true to their commits, and the ref keeps the commit that stands there.
  abbrev pub Keeps : Git Oid → Bytes → Oid → Store Oid → Store Oid → Type 0
  Keeps g ref oid s t = AllFaithful g t.claims × (s.refs ref ≡ some oid → t.refs ref ≡ some oid)

  pub Moved-keeps :
      (refs new : Refs Oid) (r : Bytes) (x : Option Oid) (ref : Bytes) (oid e : Oid)
      → refs r ≡ some e
      → Moved refs new r x
      → e ≢ oid
      → refs ref ≡ some oid
      → new ref ≡ some oid
  Moved-keeps refs new r x ref oid e there moved other h = elim (Bool-cases (text_eq ref r)) [
    | inl same ↦
        let k : ref ≡ r = (text_eq_iff ref r).0 same in
        let found : some e ≡ some oid = sym there ∙ ap refs (sym k) ∙ h in absurd (other cc)
    | inr differ ↦ moved.elsewhere ref (λ k. let yes = (text_eq_iff ref r).1 k in cc) ∙ h
  ]

  -- A row of another lease stands for another commit.
  pub IsFaithful-ne :
      (g : Git Oid) (c : Claim Oid) (oid : Oid) (l : Lease)
      → IsFaithful g c
      → g.message oid ≡ some l
      → c.lease ≢ l
      → c.ref_oid ≢ oid
  IsFaithful-ne g c oid l f m other e =
      let both : some c.lease ≡ some l = sym f ∙ ap g.message e ∙ m in other cc

module _ {Oid : Type 0} (p : Producer Oid) (now : ℕ) where
  pub import_lease-IsFaithful :
      (oid : Oid) (id : Bytes) (cs : List (Claim Oid))
      → AllFaithful p.git cs
      → AllFaithful p.git (import_lease p now oid id (p.git.message oid) cs)
  unfolding import_lease
  import_lease-IsFaithful oid id cs hs = elim (Option-cases (p.git.message oid)) [
    | inl e ↦ rw e hs
    | inr (l, e) ↦ elim (Bool-cases (admissible p id l)) [
      | inl k ↦ rw (e, k) (observe_claim-IsFaithful p.git id oid l now cs e hs)
      | inr k ↦ rw (e, k) hs
    ]
  ]

  import_claims-IsFaithful :
      (listed : List (Oid × Bytes)) (cs : List (Claim Oid))
      → AllFaithful p.git cs
      → AllFaithful p.git (import_claims p now listed cs)
  unfolding import_claims import_claim
  import_claims-IsFaithful [] cs hs = hs
  import_claims-IsFaithful ((oid, ref) ∷ rest) cs hs = elim (Option-cases (after_slash ref)) [
    | inl e ↦ rw e (import_claims-IsFaithful rest cs hs)
    | inr (id, e) ↦ rw e (import_claims-IsFaithful rest _ (import_lease-IsFaithful oid id cs hs))
  ]

  keep_observed-IsFaithful :
      (listed : List (Oid × Bytes)) (cs : List (Claim Oid))
      → AllFaithful p.git cs
      → AllFaithful p.git (keep_observed p listed cs)
  unfolding keep_observed
  keep_observed-IsFaithful listed [] hs = tt
  keep_observed-IsFaithful listed (c ∷ cs) (h, hs) =
      let ih = keep_observed-IsFaithful listed cs hs in
      elim (Bool-cases (observed p listed c.task_id)) [ inl e ↦ rw e (h, ih) | inr e ↦ rw e ih ]

  module _ (laws : Lawful p.git) (ref : Bytes) (oid : Oid) (l : Lease)
      (m : p.git.message oid ≡ some l) (held : Holds p now l) where
    prune_at-Keeps :
        (r : Bytes) (c : Claim Oid) (s : Store Oid)
        → IsFaithful p.git c
        → is_prunable p now c.lease ≡ true
        → AllFaithful p.git s.claims
        → (t : Store Oid) × (prune_at p (some r) c s ≡ some t) × Keeps p.git ref oid s t
    unfolding prune_at
    prune_at-Keeps r c s f due hs = elim (Option-cases (p.git.push_delete s.refs r c.ref_oid)) [
      | inl e ↦ (s, (rw e), (hs, λ h. h))
      | inr (new, e) ↦
          let (there, moved) = laws.delete_over s.refs new r c.ref_oid e in
          let other : c.lease ≢ l = λ k.
            let both : true ≡ false =
              sym due ∙ ap (is_prunable p now) k ∙ Holds-is_prunable p now l held in
            cc in
          (
            record { claims = remove_claim c.lease.task_id s.claims; refs = new },
            (rw e),
            (
              remove_claim-IsFaithful p.git c.lease.task_id s.claims hs,
              Moved-keeps s.refs new r none ref oid c.ref_oid there moved
                  (IsFaithful-ne p.git c oid l f m other),
            ),
          )
    ]

    prune_claims-Keeps :
        (cs : List (Claim Oid)) (s : Store Oid)
        → AllFaithful p.git cs
        → AllFaithful p.git s.claims
        → Keeps p.git ref oid s (store_of (prune_claims p now cs s))
    unfolding prune_claims
    prune_claims-Keeps [] s _ hs = (hs, λ h. h)
    prune_claims-Keeps (c ∷ cs) s (f, fs) hs = elim (Bool-cases (is_prunable p now c.lease)) [
      | inr live ↦ rw live (prune_claims-Keeps cs s fs hs)
      | inl due ↦ elim (Option-cases (claim_ref c.lease.task_id)) [
        | inl e ↦ rw (due, e) (unfold prune_at in (hs, λ h. h))
        | inr (r, e) ↦
            let (t, eq, (ht, keeps)) = prune_at-Keeps r c s f due hs in
            let (hu, later) = prune_claims-Keeps cs t fs ht in
            rw (due, e, eq) (hu, λ h. later (keeps h))
      ]
    ]

    pub sync-Keeps :
        (fetched : Option (List (Oid × Bytes))) (s : Store Oid)
        → AllFaithful p.git s.claims
        → Keeps p.git ref oid s (store_of (sync p now fetched s))
    unfolding sync
    sync-Keeps none s hs = (hs, λ h. h)
    sync-Keeps (some listed) s hs =
        let fresh =
          keep_observed-IsFaithful listed _ (import_claims-IsFaithful listed s.claims hs) in
        prune_claims-Keeps _
          (record s { claims = keep_observed p listed (import_claims p now listed s.claims) }) fresh
          fresh
