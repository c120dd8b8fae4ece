-- ===== src/Catalog/Changes.antt =====
-- src/catalog.cpp: how a call may change one row of work_items.
pub mod Waiting
pub mod Enqueue
pub mod Claims
pub mod Steps
use repotraverse.Prelude.{
  ℕ, zero, suc, ◌+◌, ◌-◌, ◌*◌, ◌/◌, ◌%◌, ◌^◌, ◌≤◌, ◌<◌, ◌≡◌, refl, sym, ap, ◌∙◌, subst, ◌≢◌, ◌↔◌,
  ◌⊎◌, inl, inr, Bool, true, false, ◌&&◌, ◌||◌, not, Option, none, some, List, [], ◌∷◌, ◌++◌, map,
  append_assoc, append-nil, arith, ltb, leb, ◌==◌, within, if◌then◌else◌, ltb→lt, lt→ltb, leb→le,
  ==_iff, Bool-cases, Option-cases, Bytes, codes, text_eq, text_eq_iff, is_empty, contains,
  has_prefix, length, take, drop, length-append, take-append, drop-append, All, All-append,
  All-mono, get_elem?, All-get_elem?, Listed,
}
use repotraverse.Catalog.Tables.{
  WorkItem, Queue, is_running, is_dropped, is_settled, is_waiting, is_unclaimed, update_where,
  has_id, find_item, State, is_completed,
}
use repotraverse.Catalog.Work.{
  WorkRequest, rerun, owns, completed_item, failed_item, cancelled_item, with_state, failed_task,
}
use repotraverse.Catalog.Runner.{
  no_fresh_lease, recovered, held_back, doomed, passed_over, taken_item,
}
use repotraverse.Catalog.Steps.{
  Op, enqueues, launches, claims, completes, fails, cancels, sets_state, fails_task, stores, picks,
  step,
}
use repotraverse.Catalog.Facts.{CacheLimits, has_fact, stored_item, rescheduled, picked_item}

-- What a call at a time, on tables, may do to a row, and when.
pub data Change (now : ℕ) (q : Queue) : Op → WorkItem → WorkItem → Type 0 where
  reruns :
      {token : Bytes} {r : WorkRequest} (w : WorkItem)
      → is_dropped w.state ≡ true
      → Change now q (enqueues token r) w (rerun now w)
  recovers :
      {token : Bytes} {capabilities : List Bytes} {executable config : Bytes} (w : WorkItem)
      → no_fresh_lease now q.lease ≡ true
      → is_running w.state ≡ true
      → Change now q (launches token capabilities executable config) w (recovered now w)
  holds_back :
      {token : Bytes} {capabilities : List Bytes} {executable config : Bytes} (w : WorkItem)
      → is_unclaimed w.state ≡ true
      → Change now q (launches token capabilities executable config) w (held_back w)
  dooms :
      {failure owner : Bytes} {capabilities : List Bytes} (w : WorkItem)
      → is_waiting w.state ≡ true
      → Change now q (claims failure owner capabilities) w (doomed now failure w)
  passes :
      {failure owner : Bytes} {capabilities : List Bytes} (w : WorkItem)
      → is_waiting w.state ≡ true
      → Change now q (claims failure owner capabilities) w (passed_over now w)
  takes :
      {failure owner : Bytes} {capabilities : List Bytes} (w : WorkItem)
      → is_waiting w.state ≡ true
      → Change now q (claims failure owner capabilities) w (taken_item now owner w)
  ends :
      {id owner progress : Bytes} (w : WorkItem)
      → owns id owner w ≡ true
      → Change now q (completes id owner progress) w (completed_item now progress w)
  fails_once :
      {id owner fingerprint : Bytes} {maximum : ℕ} (w : WorkItem)
      → owns id owner w ≡ true
      → Change now q (fails id owner fingerprint maximum) w (failed_item now fingerprint maximum w)
  is_cancelled :
      {id : Bytes} (w : WorkItem)
      → is_settled w.state ≡ false
      → Change now q (cancels id) w (cancelled_item now w)
  is_set :
      {id state : Bytes} (w : WorkItem) (s : State)
      → has_id id w ≡ true
      → Change now q (sets_state id state) w (with_state now s w)
  fails_anyhow :
      {id diagnostic : Bytes} {maximum : ℕ} (w : WorkItem)
      → has_id id w ≡ true
      → Change now q (fails_task id diagnostic maximum) w (failed_task now diagnostic maximum w)
  gets_fact :
      {limits : CacheLimits} {id task : Bytes} {size : ℕ} {readable : Bool} (w : WorkItem)
      → has_id task w ≡ true
      → Change now q (stores limits id task size readable) w (stored_item now w)
  loses_fact :
      {limits : CacheLimits} {id task : Bytes} {size : ℕ} {readable : Bool} (w : WorkItem)
      → is_completed w.state ≡ true
      → has_fact w.work_id (step now (stores limits id task size readable) q).facts ≡ false
      → Change now q (stores limits id task size readable) w (rescheduled w)
  is_picked : (w : WorkItem) → is_waiting w.state ≡ true → Change now q picks w (picked_item w)

-- The changes of one call, one after another.
pub data Changes (now : ℕ) (q : Queue) (op : Op) (w : WorkItem) : WorkItem → Type 0 where
  unchanged : Changes now q op w w
  changed : {u v : WorkItem} → Changes now q op w u → Change now q op u v → Changes now q op w v

Changes-trans :
    {now : ℕ} {q : Queue} {op : Op} {u v w : WorkItem}
    → Changes now q op u v
    → Changes now q op v w
    → Changes now q op u w
Changes-trans h unchanged = h
Changes-trans h (changed k c) = changed (Changes-trans h k) c

-- Every row is still there, in its place; new rows stand behind them.
abbrev pub Grows : (WorkItem → WorkItem → Type 0) → List WorkItem → List WorkItem → Type 0
Grows R [] vs = Unit
Grows R (w ∷ ws) [] = ⊥
Grows R (w ∷ ws) (v ∷ vs) = R w v × Grows R ws vs

-- A row keeps its id, and changes by the call.
pub record Follows (now : ℕ) (q : Queue) (op : Op) (w v : WorkItem) : Type 0 where
  pub same_id : v.work_id ≡ w.work_id
  pub by_changes : Changes now q op w v

module _ (now : ℕ) (q : Queue) (op : Op) where
  pub Grows-refl : (ws : List WorkItem) → Grows (Follows now q op) ws ws
  Grows-refl [] = tt
  Grows-refl (w ∷ ws) = (record { same_id = refl; by_changes = unchanged }, Grows-refl ws)

  pub Grows-append : (ws vs : List WorkItem) → Grows (Follows now q op) ws (ws ++ vs)
  Grows-append [] vs = tt
  Grows-append (w ∷ ws) vs = (record { same_id = refl; by_changes = unchanged }, Grows-append ws vs)

  pub Grows-trans :
      (us vs ws : List WorkItem)
      → Grows (Follows now q op) us vs
      → Grows (Follows now q op) vs ws
      → Grows (Follows now q op) us ws
  Grows-trans [] vs ws h k = tt
  Grows-trans (u ∷ us) [] ws h k = absurd h
  Grows-trans (u ∷ us) (v ∷ vs) [] h k = absurd k
  Grows-trans (u ∷ us) (v ∷ vs) (w ∷ ws) (h, hs) (k, ks) = (
    record {
      same_id = k.same_id ∙ h.same_id;
      by_changes = Changes-trans h.by_changes k.by_changes;
    },
    Grows-trans us vs ws hs ks,
  )

  -- An update whose change the call may make wherever its test holds.
  pub update_where-Grows :
      (test : WorkItem → Bool) (change : WorkItem → WorkItem) (ws : List WorkItem)
      → ((w : WorkItem) → (change w).work_id ≡ w.work_id)
      → All (λ w. test w ≡ true → Change now q op w (change w)) ws
      → Grows (Follows now q op) ws (update_where test change ws)
  unfolding update_where
  update_where-Grows test change [] same h = tt
  update_where-Grows test change (w ∷ ws) same (h, hs) =
      let rest = update_where-Grows test change ws same hs in
      elim (Bool-cases (test w)) [
        | inl e ↦ rw e (record { same_id = same w; by_changes = changed unchanged (h e) }, rest)
        | inr e ↦ rw e (record { same_id = refl; by_changes = unchanged }, rest)
      ]

pub All-of {ℓ κ} : {A : Type ℓ} (P : A → Type κ) (xs : List A) → ((x : A) → P x) → All P xs
All-of P [] f = tt
All-of P (x ∷ xs) f = (f x, All-of P xs f)

-- The row of an id, in tables that have grown.
pub find_item-Grows :
    (R : WorkItem → WorkItem → Type 0) (id : Bytes) (ws vs : List WorkItem) (w : WorkItem)
    → ((u v : WorkItem) → R u v → v.work_id ≡ u.work_id)
    → Grows R ws vs
    → find_item id ws ≡ some w
    → (v : WorkItem) × (find_item id vs ≡ some v) × R w v
unfolding find_item
find_item-Grows R id [] vs w same g h = cc
find_item-Grows R id (u ∷ ws) [] w same g h = absurd g
find_item-Grows R id (u ∷ ws) (v ∷ vs) w same (g, gs) h =
    let k : v.work_id ≡ u.work_id = same u v g in
    elim (Bool-cases (text_eq u.work_id id)) [
      | inl e ↦ let at : u ≡ w = ground arith in (v, (rw (k, e)), subst (λ x. R x v) at g)
      | inr e ↦
          let (y, f, r) = find_item-Grows R id ws vs w same gs (ground arith) in
          (y, (rw (k, e) f), r)
    ]
