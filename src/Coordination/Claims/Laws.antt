-- ===== src/Coordination/Claims/Laws.antt =====
-- What a producer may rely on: the promises of Git, and the rows of the table.
use repotraverse.Prelude.{
  ℕ, ◌≡◌, subst, ◌≢◌, ◌⊎◌, inl, inr, Option, none, some, List, [], ◌∷◌, arith, Bool-cases, Bytes,
  text_eq, All,
}
use repotraverse.Coordination.Claims.{
  Lease, Refs, Git, Claim, find_claim, remove_claim, observe_claim,
}

module _ {Oid : Type 0} where
  -- Only `ref` changed; `x` stands there now.
  pub record Moved (refs new : Refs Oid) (ref : Bytes) (x : Option Oid) : Type 0 where
    pub there : new ref ≡ x
    pub elsewhere : (other : Bytes) → other ≢ ref → new other ≡ refs other

  -- What Git promises: the message of a commit is read back, a push with `--force-with-lease` is
  -- accepted only where the ref holds what is expected, and one without it, of a commit that has no
  -- parent, only where there is no ref, or that commit already.
  pub record Lawful (g : Git Oid) : Type 0 where
    pub message_commit : (l : Lease) (parent : Option Oid) → g.message (g.commit l parent) ≡ some l
    pub push_over :
        (refs new : Refs Oid) (ref : Bytes) (oid e : Oid)
        → g.push refs ref oid (some e) ≡ some new
        → (refs ref ≡ some e) × Moved refs new ref (some oid)
    pub push_first :
        (refs new : Refs Oid) (ref : Bytes) (l : Lease)
        → g.push refs ref (g.commit l none) none ≡ some new
        → ((refs ref ≡ none) ⊎ (refs ref ≡ some (g.commit l none)))
          × Moved refs new ref (some (g.commit l none))
    pub delete_over :
        (refs new : Refs Oid) (ref : Bytes) (e : Oid)
        → g.push_delete refs ref e ≡ some new
        → (refs ref ≡ some e) × Moved refs new ref none

  module _ (g : Git Oid) where
    -- The row holds the record of its commit.
    abbrev pub IsFaithful : Claim Oid → Type 0
    IsFaithful c = g.message c.ref_oid ≡ some c.lease

    pub remove_claim-IsFaithful :
        (id : Bytes) (cs : List (Claim Oid))
        → All IsFaithful cs
        → All IsFaithful (remove_claim id cs)
    unfolding remove_claim
    remove_claim-IsFaithful id [] h = tt
    remove_claim-IsFaithful id (c ∷ cs) (h, hs) =
        let ih = remove_claim-IsFaithful id cs hs in
        elim (Bool-cases (text_eq c.task_id id)) [ inl e ↦ rw e ih | inr e ↦ rw e (h, ih) ]

    pub observe_claim-IsFaithful :
        (id : Bytes) (oid : Oid) (l : Lease) (now : ℕ) (cs : List (Claim Oid))
        → g.message oid ≡ some l
        → All IsFaithful cs
        → All IsFaithful (observe_claim id oid l now cs)
    unfolding observe_claim
    observe_claim-IsFaithful id oid l now cs m hs = (m, remove_claim-IsFaithful id cs hs)

    pub find_claim-IsFaithful :
        (id : Bytes) (cs : List (Claim Oid)) (c : Claim Oid)
        → All IsFaithful cs
        → find_claim id cs ≡ some c
        → IsFaithful c
    unfolding find_claim
    find_claim-IsFaithful id [] c h e = cc
    find_claim-IsFaithful id (d ∷ cs) c (h, hs) e = elim (Bool-cases (text_eq d.task_id id)) [
      | inl k ↦ let same : d ≡ c = cc in subst IsFaithful same h
      | inr k ↦ find_claim-IsFaithful id cs c hs (ground arith)
    ]
