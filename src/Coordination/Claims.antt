-- ===== src/Coordination/Claims.antt =====
-- src/git_coordination.cpp and src/catalog.cpp: what a claim is, whom its record is taken from, and the
-- table `observed_claims` that a producer keeps. Git is a parameter: `message` is the record in the
-- message of a commit (`none` if it is none, or too large), `commit` makes a commit of a record behind a
-- parent, and `push` and `push_delete` change a ref of the remote if Git accepts it. Times are seconds.
pub mod Laws
pub mod Names
use repotraverse.Prelude.{
  ℕ, zero, suc, ◌+◌, ◌-◌, ◌*◌, ◌/◌, ◌%◌, ◌^◌, ◌≤◌, ◌<◌, ◌≡◌, refl, sym, ap, ◌∙◌, subst, ◌≢◌, ◌↔◌,
  ◌⊎◌, inl, inr, Bool, true, false, ◌&&◌, ◌||◌, not, Option, none, some, List, [], ◌∷◌, ◌++◌, map,
  append_assoc, append-nil, arith, ltb, leb, ◌==◌, within, if◌then◌else◌, ltb→lt, lt→ltb, leb→le,
  ==_iff, Bool-cases, Option-cases, Bytes, codes, text_eq, text_eq_iff, is_empty, contains, length,
  take, drop, length-append, take-append, drop-append, All, All-append, get_elem?, All-get_elem?,
  Listed,
}

-- A lease in a commit; what it leaves out is empty, or 0.
pub record Lease : Type 0 where
  pub schema_version : ℕ
  pub task_id : Bytes
  pub task : Bytes
  pub producer_id : Bytes
  pub state : Bytes
  pub acquired_at : ℕ
  pub expires_at : ℕ
  pub heartbeat_sequence : ℕ
  pub result_id : Bytes
  pub completed_at : ℕ

pub record CoordinationOptions : Type 0 where
  pub lease_seconds : ℕ
  pub grace_seconds : ℕ
  pub trusted_producers : List Bytes
  pub enforce_trusted_producers : Bool

-- The oid at each ref.
abbrev pub Refs : Type 0 → Type 0
Refs Oid = Bytes → Option Oid

pub record Git (Oid : Type 0) : Type 0 where
  pub message : Oid → Option Lease
  pub commit : Lease → Option Oid → Oid
  pub push : Refs Oid → Bytes → Oid → Option Oid → Option (Refs Oid)
  pub push_delete : Refs Oid → Bytes → Oid → Option (Refs Oid)

no_texts : List Bytes → Bool
no_texts [] = true
no_texts (t ∷ ts) = false

pub trusted_producer : Bytes → CoordinationOptions → Bytes → Bool
unfolding no_texts
trusted_producer own o producer =
    text_eq producer own
    || (not o.enforce_trusted_producers && no_texts o.trusted_producers)
    || contains o.trusted_producers producer

-- `std::clamp(lease_seconds / 3, 1, 60)`.
pub heartbeat_interval : CoordinationOptions → ℕ
heartbeat_interval o =
    let third = o.lease_seconds / 3 in if ltb third 1 then 1 else if ltb 60 third then 60 else third

unfoldable pub is_hex : ℕ → Bool
is_hex c = within b'0' b'9' c || within b'a' b'f' c || within b'A' b'F' c

unfoldable pub all_hex : Bytes → Bool
unfolding is_hex
all_hex [] = true
all_hex (c ∷ s) = is_hex c && all_hex s

-- The ref of a claim; `none` where the source throws.
unfoldable pub claim_ref : Bytes → Option Bytes
claim_ref task_id =
    if length task_id == 32 && all_hex task_id
    then some (
        codes "refs/heads/repotraverse/v1/coordination/claims/"
        ++ (take 2 task_id ++ b'/' ∷ task_id))
    else none

-- `ref.substr(ref.rfind('/') + 1)`.
pub after_slash : Bytes → Option Bytes
after_slash [] = none
after_slash (c ∷ s) = elim (after_slash s) [
  | some name ↦ some name
  | none ↦ if c == b'/' then some s else none
]

module _ (Oid : Type 0) where
  -- A row of `observed_claims`.
  pub record Claim : Type 0 where
    pub task_id : Bytes
    pub lease : Lease
    pub ref_oid : Oid
    pub observed_at : ℕ

  -- What a call reads and changes: the table of the producer, and the refs of the remote.
  pub record Store : Type 0 where
    pub claims : List Claim
    pub refs : Refs Oid

module _ {Oid : Type 0} where
  unfoldable pub find_claim : Bytes → List (Claim Oid) → Option (Claim Oid)
  find_claim id [] = none
  find_claim id (c ∷ cs) =
      let rest = find_claim id cs in if text_eq c.task_id id then some c else rest

  unfoldable pub remove_claim : Bytes → List (Claim Oid) → List (Claim Oid)
  remove_claim id [] = []
  remove_claim id (c ∷ cs) =
      let rest = remove_claim id cs in if text_eq c.task_id id then rest else c ∷ rest

  -- The task has one row, the new one.
  unfoldable pub observe_claim : Bytes → Oid → Lease → ℕ → List (Claim Oid) → List (Claim Oid)
  observe_claim id oid lease now cs =
      record { task_id = id; lease = lease; ref_oid = oid; observed_at = now } ∷ remove_claim id cs
