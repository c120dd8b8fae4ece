-- ===== src/Catalog/Next/Taken.antt =====
-- The row that claim_next_work takes.
use repotraverse.Prelude.{
  ℕ, ◌≡◌, refl, sym, ap, ◌∙◌, subst, inl, inr, true, false, Option, none, some, List, [], ◌∷◌,
  arith, Bool-cases, Option-cases, Bytes, text_eq, text_eq_iff, All, All-mono,
}
use repotraverse.Catalog.Tables.{
  WorkItem, Queue, is_running, is_runnable, has_id, find_item, update_where, one_running,
}
use repotraverse.Catalog.Runner.{
  precedes, runnable_rows, is_compatible, scan, propagate, is_runner, mark_passed, taken_item,
  claim_item, take_next, claim_next_work,
}
use repotraverse.Catalog.Rows.{keys, IsQueued, Ahead, one_running_lem}
use repotraverse.Catalog.WellFormed.{IsWellFormed}
use repotraverse.Catalog.WellFormed.Claims.{propagate-KeepsTables}
use repotraverse.Catalog.Changes.Waiting.{runnable_rows-All, scan-taken}
use repotraverse.Catalog.Next.Ready.{
  IsReady, is_runnable-IsReady, IsReady-is_runnable, StandsBefore, precedes-StandsBefore,
}
use repotraverse.Catalog.Next.Order.{scan-first, scan-compatible}

absent-find_item :
    (w : WorkItem) (ws : List WorkItem)
    → Ahead (w.work_id, w.fifo_sequence) (keys ws)
    → All (λ v. text_eq w.work_id v.work_id ≡ false) ws
absent-find_item w [] h = tt
absent-find_item w (v ∷ vs) ((differ, _), hs) = (
  (elim (Bool-cases (text_eq w.work_id v.work_id)) [
    | inl e ↦ absurd (differ (sym ((text_eq_iff w.work_id v.work_id).0 e)))
    | inr e ↦ e
  ]),
  absent-find_item w vs hs,
)

-- A row is found by its id.
pub find_item-row :
    (ws : List WorkItem) → IsQueued (keys ws) → All (λ w. find_item w.work_id ws ≡ some w) ws
unfolding find_item
find_item-row [] h = tt
find_item-row (w ∷ ws) (h, hs) = (
  (let e = (text_eq_iff w.work_id w.work_id).1 refl in rw e refl),
  behind ws (absent-find_item w ws h) (find_item-row ws hs),
)
  where
    behind :
        (vs : List WorkItem)
        → All (λ v. text_eq w.work_id v.work_id ≡ false) vs
        → All (λ v. find_item v.work_id ws ≡ some v) vs
        → All (λ v. find_item v.work_id (w ∷ ws) ≡ some v) vs
    behind [] k r = tt
    behind (v ∷ vs) (k, ks) (r, rs) = (rw k r, behind vs ks rs)

-- The rows of the id run for the owner.
abbrev pub RunsAt : Bytes → Bytes → List WorkItem → Type 0
RunsAt owner id =
    All (λ (v : WorkItem). has_id id v ≡ true → (is_running v.state ≡ true) × (v.owner ≡ owner))

taken_item-RunsAt :
    (now : ℕ) (owner id : Bytes) (ws : List WorkItem)
    → RunsAt owner id (update_where (has_id id) (taken_item now owner) ws)
unfolding update_where taken_item
taken_item-RunsAt now owner id [] = tt
taken_item-RunsAt now owner id (w ∷ ws) =
    let rest = taken_item-RunsAt now owner id ws in
    elim (Bool-cases (has_id id w)) [
      | inl e ↦ rw e ((λ _. (refl, refl)), rest)
      | inr e ↦ rw e ((λ k. let bad : true ≡ false = sym k ∙ e in cc), rest)
    ]

-- The first of the items that may be run now, with what a credential allows; the item runs then.
pub record IsNext (now : ℕ) (owner : Bytes) (capabilities : List Bytes) (q t : Queue) (w : WorkItem)
    : Type 0 where
  pub by_runner : is_runner owner q.lease ≡ true
  pub queued : find_item w.work_id q.items ≡ some w
  pub can_run : IsReady now q w
  pub is_allowed : is_compatible capabilities w ≡ true
  pub is_first :
      All (λ v. IsReady now q v → is_compatible capabilities v ≡ true → StandsBefore w v) q.items
  pub runs : RunsAt owner w.work_id t.items

claim_item-RunsAt :
    (now : ℕ) (owner : Bytes) (q t : Queue) (taken : Option WorkItem) (w : WorkItem)
    → claim_item now owner q taken ≡ some (t, some w)
    → (taken ≡ some w) × RunsAt owner w.work_id t.items
unfolding claim_item
claim_item-RunsAt now owner q t none w h = cc
claim_item-RunsAt now owner q t (some v) w h =
    elim (Option-cases
      (one_running (update_where (has_id v.work_id) (taken_item now owner) q.items))) [
        | inl e ↦ absurd (ground arith)
        | inr (items, e) ↦
            let (equal, _) = one_running_lem _ items e in
            let same : v ≡ w = ground arith in
            let at : items ≡ t.items = ground arith in
            (
              ap some same,
              subst (λ x. RunsAt owner x t.items) (ap (λ (y : WorkItem). y.work_id) same)
                  (subst (RunsAt owner v.work_id) (equal ∙ at)
                    (taken_item-RunsAt now owner v.work_id q.items)),
            )
      ]

take_next-IsNext :
    (now : ℕ) (owner : Bytes) (capabilities : List Bytes) (q t : Queue) (w : WorkItem)
    → IsQueued (keys q.items)
    → is_runner owner q.lease ≡ true
    → take_next now owner capabilities q ≡ some (t, some w)
    → IsNext now owner capabilities q t w
unfolding take_next
take_next-IsNext now owner capabilities q t w k r h =
    let passed : List Bytes = (scan capabilities (runnable_rows now q)).0 in
    let (got, runs) =
      claim_item-RunsAt now owner (record q { items = mark_passed now passed q.items }) t
        ((scan capabilities (runnable_rows now q)).1) w h in
    let (at, can) =
      scan-taken (λ v. (find_item v.work_id q.items ≡ some v) × (is_runnable now q v ≡ true))
        capabilities (runnable_rows now q) w
        (runnable_rows-All
          (λ v. (find_item v.work_id q.items ≡ some v) × (is_runnable now q v ≡ true)) now q
          (All-mono (λ v. find_item v.work_id q.items ≡ some v) _ q.items (λ v f can. (f, can))
            (find_item-row q.items k)))
        got in
    record {
      by_runner = r;
      queued = at;
      can_run = is_runnable-IsReady now q w can;
      is_allowed = scan-compatible capabilities (runnable_rows now q) w got;
      is_first =
          All-mono
            (λ v.
              is_runnable now q v ≡ true
              → is_compatible capabilities v ≡ true
              → precedes w v ≡ true)
            _ q.items (λ v f r c. precedes-StandsBefore w v (f (IsReady-is_runnable now q v r) c))
            (scan-first now q capabilities w got);
      runs = runs;
    }

-- If claim_next_work answers an item, the caller is the active runner, and of the rows that stand once
-- failed dependencies are passed on, the item is the first in the order of maintenance and
-- fifo_sequence that waits, is due, is not cancelled, has only completed dependencies, and has a
-- credential of the caller's or none; every row of its id then runs for the caller.
pub claim_next_work-IsNext :
    (now : ℕ) (failure owner : Bytes) (capabilities : List Bytes) (q t : Queue) (w : WorkItem)
    → IsWellFormed q
    → claim_next_work now failure owner capabilities q ≡ some (t, some w)
    → IsNext now owner capabilities (propagate now failure q) t w
unfolding claim_next_work
claim_next_work-IsNext now failure owner capabilities q t w well h =
    let fresh : Queue = propagate now failure q in
    let k : IsQueued (keys fresh.items) =
      subst IsQueued (sym (propagate-KeepsTables now failure q well).same_keys) well.queued in
    elim (Bool-cases (is_runner owner (propagate now failure q).lease)) [
      | inl e ↦ take_next-IsNext now owner capabilities fresh t w k e (rw e at h)
      | inr e ↦ let got : some (fresh, none) ≡ some (t, some w) = rw e at h in absurd (ground arith)
    ]
