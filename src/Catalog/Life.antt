-- ===== src/Catalog/Life.antt =====
-- What becomes of an item through the calls on a catalog.
use repotraverse.Prelude.{
  ℕ, ◌≡◌, refl, sym, ◌∙◌, subst, ◌≢◌, inl, inr, true, false, some, List, [], ◌∷◌, arith, Bool-cases,
  Bytes, text_eq, text_eq_iff,
}
use repotraverse.Catalog.Tables.{WorkItem, Queue, is_completed, is_running, find_item, has_id}
use repotraverse.Catalog.Work.{
  rerun, completed_item, failed_item, cancelled_item, owns, with_state, failed_task,
}
use repotraverse.Catalog.Runner.{
  no_fresh_lease, recovered, held_back, doomed, passed_over, taken_item,
}
use repotraverse.Catalog.Steps.{
  Op, launches, completes, fails, sets_state, fails_task, step, run, empty_queue, stores,
}
use repotraverse.Catalog.WellFormed.{IsWellFormed}
use repotraverse.Catalog.WellFormed.Runs.{step-IsWellFormed, run-IsWellFormed}
use repotraverse.Catalog.Changes.{
  Change, reruns, recovers, holds_back, dooms, passes, takes, ends, fails_once, is_cancelled,
  Changes, unchanged, changed, Follows, find_item-Grows, is_set, fails_anyhow, gets_fact,
  loses_fact, is_picked,
}
use repotraverse.Catalog.Changes.Steps.{step-Grows}
use repotraverse.Catalog.Facts.{has_fact, stored_item, rescheduled, picked_item}

-- A change keeps the id of the row.
Change-work_id :
    {now : ℕ} {q : Queue} {op : Op} {w v : WorkItem} → Change now q op w v → v.work_id ≡ w.work_id
unfolding rerun recovered held_back doomed passed_over taken_item completed_item failed_item
    cancelled_item with_state failed_task stored_item rescheduled picked_item
Change-work_id (reruns w h) = refl
Change-work_id (recovers w _ h) = refl
Change-work_id (holds_back w h) = refl
Change-work_id (dooms w h) = refl
Change-work_id (passes w h) = refl
Change-work_id (takes w h) = refl
Change-work_id (ends w h) = refl
Change-work_id (fails_once w h) = refl
Change-work_id (is_cancelled w h) = refl
Change-work_id (is_set w s h) = refl
Change-work_id (fails_anyhow w h) = refl
Change-work_id (gets_fact w h) = refl
Change-work_id (loses_fact w h k) = refl
Change-work_id (is_picked w h) = refl

Changes-work_id :
    {now : ℕ} {q : Queue} {op : Op} {w v : WorkItem} → Changes now q op w v → v.work_id ≡ w.work_id
Changes-work_id unchanged = refl
Changes-work_id (changed h c) = Change-work_id c ∙ Changes-work_id h

find_item-work_id :
    (id : Bytes) (ws : List WorkItem) (w : WorkItem) → find_item id ws ≡ some w → w.work_id ≡ id
unfolding find_item
find_item-work_id id [] w h = cc
find_item-work_id id (v ∷ ws) w h = elim (Bool-cases (text_eq v.work_id id)) [
  | inl e ↦
      let same : v ≡ w = ground arith in
      subst (λ (x : WorkItem). x.work_id ≡ id) same ((text_eq_iff v.work_id id).0 e)
  | inr e ↦ find_item-work_id id ws w (ground arith)
]

-- The row is of the id.
other_id :
    (id other : Bytes) (w : WorkItem) → w.work_id ≡ id → has_id other w ≡ true → other ≢ id → ⊥
other_id id other w named h differ = differ (sym ((text_eq_iff w.work_id other).0 h) ∙ named)

-- The row of the id is there, and `P` holds of it.
abbrev pub HoldsAt : (WorkItem → Type 0) → Bytes → Queue → Type 0
HoldsAt P id q = (w : WorkItem) × (find_item id q.items ≡ some w) × P w

-- The call sets no state of the item, and the facts that it stores leave one of the item.
abbrev pub KeepsResult : Bytes → ℕ → Queue → Op → Type 0
KeepsResult id now q (sets_state other state) = other ≢ id
KeepsResult id now q (fails_task other diagnostic maximum) = other ≢ id
KeepsResult id now q (stores limits fact task size readable) =
    has_fact id (step now (stores limits fact task size readable) q).facts ≡ true
KeepsResult id now q _ = Unit

abbrev pub AllKeepResult : Bytes → List (ℕ × Op) → Queue → Type 0
AllKeepResult id [] q = Unit
AllKeepResult id ((now, op) ∷ ops) q =
    KeepsResult id now q op × AllKeepResult id ops (step now op q)

Change-completed :
    {now : ℕ} {q : Queue} {op : Op} {w v : WorkItem} (id : Bytes)
    → Change now q op w v
    → KeepsResult id now q op
    → w.work_id ≡ id
    → is_completed w.state ≡ true
    → is_completed v.state ≡ true
unfolding rerun recovered held_back doomed passed_over taken_item completed_item failed_item
    cancelled_item stored_item picked_item
Change-completed id (reruns w h) k n c = ground arith
Change-completed id (recovers w _ h) k n c = ground arith
Change-completed id (holds_back w h) k n c = ground arith
Change-completed id (dooms w h) k n c = ground arith
Change-completed id (passes w h) k n c = ground arith
Change-completed id (takes w h) k n c = ground arith
Change-completed id (ends w h) k n c = ground arith
Change-completed id (fails_once w h) k n c = ground arith
Change-completed id (is_cancelled w h) k n c = ground arith
Change-completed id (is_set {id = other} w s h) k n c = absurd (other_id id other w n h k)
Change-completed id (fails_anyhow {id = other} w h) k n c = absurd (other_id id other w n h k)
Change-completed id (gets_fact w h) k n c = refl
Change-completed id (loses_fact w h none_left) k n c = absurd cc
Change-completed id (is_picked w h) k n c = ground arith

Changes-completed :
    {now : ℕ} {q : Queue} {op : Op} {w v : WorkItem} (id : Bytes)
    → Changes now q op w v
    → KeepsResult id now q op
    → w.work_id ≡ id
    → is_completed w.state ≡ true
    → is_completed v.state ≡ true
Changes-completed id unchanged k n c = c
Changes-completed id (changed h r) k n c =
    Change-completed id r k (Changes-work_id h ∙ n) (Changes-completed id h k n c)

completed_kept_from :
    (id : Bytes) (ops : List (ℕ × Op)) (q : Queue)
    → IsWellFormed q
    → AllKeepResult id ops q
    → HoldsAt (λ w. is_completed w.state ≡ true) id q
    → HoldsAt (λ w. is_completed w.state ≡ true) id (run ops q)
unfolding run
completed_kept_from id [] q well h here = here
completed_kept_from id ((now, op) ∷ ops) q well (h, hs) (w, f, c) =
    let (v, g, r) =
      find_item-Grows (Follows now q op) id q.items _ w (λ a b k. k.same_id)
        (step-Grows now q op well) f in
    completed_kept_from id ops (step now op q) (step-IsWellFormed now op q well) hs
      (v, g, Changes-completed id r.by_changes h (find_item-work_id id q.items w f) c)

-- An item that is completed, whatever was called before, stays so through all calls but a set_task_state
-- or fail_task of this item, and a store_fact after which there is no fact of this item.
pub completed_kept :
    (id : Bytes) (past future : List (ℕ × Op))
    → AllKeepResult id future (run past empty_queue)
    → HoldsAt (λ w. is_completed w.state ≡ true) id (run past empty_queue)
    → HoldsAt (λ w. is_completed w.state ≡ true) id (run future (run past empty_queue))
completed_kept id past future h here =
    completed_kept_from id future (run past empty_queue) (run-IsWellFormed past) h here

-- The item runs for the owner.
pub record RunsFor (owner : Bytes) (w : WorkItem) : Type 0 where
  pub runs : is_running w.state ≡ true
  pub owned : w.owner ≡ owner

-- The call does not end the owner's work or set the state of the item, and takes it from no runner whose
-- lease is fresh.
abbrev pub Leaves : Bytes → Bytes → ℕ → Queue → Op → Type 0
Leaves id owner now q (completes _ other progress) = other ≢ owner
Leaves id owner now q (fails _ other fingerprint maximum) = other ≢ owner
Leaves id owner now q (launches token capabilities executable config) =
    no_fresh_lease now q.lease ≡ false
Leaves id owner now q (sets_state other state) = other ≢ id
Leaves id owner now q (fails_task other diagnostic maximum) = other ≢ id
Leaves id owner now q (stores limits fact task size readable) = task ≢ id
Leaves id owner now q _ = Unit

abbrev pub Undisturbed : Bytes → Bytes → List (ℕ × Op) → Queue → Type 0
Undisturbed id owner [] q = Unit
Undisturbed id owner ((now, op) ∷ ops) q =
    Leaves id owner now q op × Undisturbed id owner ops (step now op q)

not_owned :
    (id other owner : Bytes) (w : WorkItem)
    → owns id other w ≡ true
    → RunsFor owner w
    → other ≢ owner
    → ⊥
not_owned id other owner w h k differ =
    differ (sym ((text_eq_iff w.owner other).0 (ground arith)) ∙ k.owned)

Change-RunsFor :
    {now : ℕ} {q : Queue} {op : Op} {w v : WorkItem} (id owner : Bytes)
    → Change now q op w v
    → Leaves id owner now q op
    → w.work_id ≡ id
    → RunsFor owner w
    → RunsFor owner v
unfolding cancelled_item
Change-RunsFor id owner (reruns w h) l n k = let r = k.runs in absurd (ground arith)
Change-RunsFor id owner (recovers w s h) l n k = let bad : true ≡ false = sym s ∙ l in cc
Change-RunsFor id owner (holds_back w h) l n k = let r = k.runs in absurd (ground arith)
Change-RunsFor id owner (dooms w h) l n k = let r = k.runs in absurd (ground arith)
Change-RunsFor id owner (passes w h) l n k = let r = k.runs in absurd (ground arith)
Change-RunsFor id owner (takes w h) l n k = let r = k.runs in absurd (ground arith)
Change-RunsFor id owner (ends {id = this} {owner = other} w h) l n k =
    absurd (not_owned this other owner w h k l)
Change-RunsFor id owner (fails_once {id = this} {owner = other} w h) l n k =
    absurd (not_owned this other owner w h k l)
Change-RunsFor id owner (is_cancelled w h) l n k =
    let r = k.runs in record { runs = ground arith; owned = k.owned }
Change-RunsFor id owner (is_set {id = other} w s h) l n k = absurd (other_id id other w n h l)
Change-RunsFor id owner (fails_anyhow {id = other} w h) l n k = absurd (other_id id other w n h l)
Change-RunsFor id owner (gets_fact {task} w h) l n k = absurd (other_id id task w n h l)
Change-RunsFor id owner (loses_fact w h none_left) l n k = let r = k.runs in absurd (ground arith)
Change-RunsFor id owner (is_picked w h) l n k = let r = k.runs in absurd (ground arith)

Changes-RunsFor :
    {now : ℕ} {q : Queue} {op : Op} {w v : WorkItem} (id owner : Bytes)
    → Changes now q op w v
    → Leaves id owner now q op
    → w.work_id ≡ id
    → RunsFor owner w
    → RunsFor owner v
Changes-RunsFor id owner unchanged l n k = k
Changes-RunsFor id owner (changed h c) l n k =
    Change-RunsFor id owner c l (Changes-work_id h ∙ n) (Changes-RunsFor id owner h l n k)

running_kept_from :
    (id owner : Bytes) (ops : List (ℕ × Op)) (q : Queue)
    → IsWellFormed q
    → Undisturbed id owner ops q
    → HoldsAt (RunsFor owner) id q
    → HoldsAt (RunsFor owner) id (run ops q)
unfolding run
running_kept_from id owner [] q well u here = here
running_kept_from id owner ((now, op) ∷ ops) q well (l, u) (w, f, k) =
    let (v, g, r) =
      find_item-Grows (Follows now q op) id q.items _ w (λ a b j. j.same_id)
        (step-Grows now q op well) f in
    running_kept_from id owner ops (step now op q) (step-IsWellFormed now op q well) u
      (v, g, Changes-RunsFor id owner r.by_changes l (find_item-work_id id q.items w f) k)

-- An item that runs for an owner runs for that owner through all calls but a set_task_state, fail_task
-- or store_fact of this item, the owner's own complete_work and fail_work, and a claim_runner_launch that
-- finds no fresh lease.
pub running_kept :
    (id owner : Bytes) (past future : List (ℕ × Op))
    → Undisturbed id owner future (run past empty_queue)
    → HoldsAt (RunsFor owner) id (run past empty_queue)
    → HoldsAt (RunsFor owner) id (run future (run past empty_queue))
running_kept id owner past future u here =
    running_kept_from id owner future (run past empty_queue) (run-IsWellFormed past) u here
