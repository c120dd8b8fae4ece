-- ===== src/Coordination/Claims/Names.antt =====
-- The refs of claims, and how often a lease is renewed.
use repotraverse.Prelude.{
  ◌*◌, ◌≤◌, ◌≡◌, refl, sym, ap, ◌∙◌, ◌⊎◌, inl, inr, ◌&&◌, none, some, [], ◌∷◌, ◌++◌, arith, ◌==◌,
  ==_iff, Bool-cases, Bytes, codes, length, take, drop,
}
use repotraverse.Coordination.Claims.{CoordinationOptions, claim_ref, heartbeat_interval, all_hex}

-- A task of 32 hexadecimal digits has a ref.
claim_ref_cases :
    (id : Bytes)
    → (claim_ref id ≡ none)
      ⊎ ((length id ≡ 32)
          × (claim_ref id
              ≡ some (
                  codes "refs/heads/repotraverse/v1/coordination/claims/"
                  ++ (take 2 id ++ b'/' ∷ id))))
unfolding claim_ref
claim_ref_cases id = elim (Bool-cases (length id == 32 && all_hex id)) [
  | inl e ↦ rw e (inr ((==_iff _ _).0 (ground arith), refl))
  | inr e ↦ rw e (inl refl)
]

append_cancel : (p s t : Bytes) → p ++ s ≡ p ++ t → s ≡ t
append_cancel [] s t e = e
append_cancel (c ∷ p) s t e = append_cancel p s t cc

drop_prefix : (id : Bytes) → length id ≡ 32 → drop 3 (take 2 id ++ b'/' ∷ id) ≡ id
drop_prefix [] e = absurd (ground arith)
drop_prefix (a ∷ []) e = absurd (ground arith)
drop_prefix (a ∷ b ∷ s) e = refl

-- Two tasks that have the same ref are the same.
pub claim_ref_injective :
    (a b ref : Bytes) → claim_ref a ≡ some ref → claim_ref b ≡ some ref → a ≡ b
claim_ref_injective a b ref e f = elim (claim_ref_cases a) [
  | inl k ↦ cc
  | inr (n, k) ↦ elim (claim_ref_cases b) [
    | inl j ↦ cc
    | inr (m, j) ↦
        let same =
          append_cancel (codes "refs/heads/repotraverse/v1/coordination/claims/")
            (take 2 a ++ b'/' ∷ a) (take 2 b ++ b'/' ∷ b) cc in
        sym (drop_prefix a n) ∙ ap (drop 3) same ∙ drop_prefix b m
  ]
]

-- Leases are renewed once a second to once a minute, and, if they last 3 seconds or longer, three times
-- at least while they last.
pub heartbeat_interval_bounds :
    (o : CoordinationOptions)
    → (1 ≤ heartbeat_interval o)
      × (heartbeat_interval o ≤ 60)
      × (3 ≤ o.lease_seconds → 3 * heartbeat_interval o ≤ o.lease_seconds)
unfolding heartbeat_interval
heartbeat_interval_bounds o = (ground arith, ground arith, λ h. ground arith)
