-- ===== src/Catalog/Next/Refused.antt =====
-- The unique index refuses a second row that runs, so claim_next_work throws then.
use repotraverse.Prelude.{
  ℕ, ◌≤◌, ◌<◌, ◌≡◌, refl, sym, ◌∙◌, subst, inl, inr, Bool, true, false, none, some, List, [], ◌∷◌,
  arith, Bool-cases, Bytes, text_eq, All, All-mono,
}
use repotraverse.Catalog.Tables.{
  WorkItem, Queue, is_running, is_waiting, has_id, find_item, update_where, count_running,
  one_running,
}
use repotraverse.Catalog.Runner.{
  runnable_rows, any_compatible, scan, doomed, is_doomed, propagate, passed_over, is_runner,
  mark_passed, taken_item, claim_item, take_next, claim_next_work,
}
use repotraverse.Catalog.Rows.{keys, IsQueued, one_running-none}
use repotraverse.Catalog.WellFormed.{IsWellFormed}
use repotraverse.Catalog.WellFormed.Claims.{propagate-KeepsTables}
use repotraverse.Catalog.Changes.{All-of}
use repotraverse.Catalog.Changes.Waiting.{
  WaitingAt, runnable_rows-All, runnable_rows-WaitingAt, scan-taken, scan-passed, passed_WaitingAt,
}
use repotraverse.Catalog.Next.Order.{scan-some}
use repotraverse.Catalog.Next.Taken.{find_item-row}

-- An update of rows that wait, to a state that is not running.
pub count_running-waiting :
    (test : WorkItem → Bool) (change : WorkItem → WorkItem) (ws : List WorkItem)
    → ((w : WorkItem) → is_running (change w).state ≡ false)
    → All (λ w. test w ≡ true → is_running w.state ≡ false) ws
    → count_running (update_where test change ws) ≡ count_running ws
unfolding count_running update_where
count_running-waiting test change [] still h = refl
count_running-waiting test change (w ∷ ws) still (h, hs) =
    let ih = count_running-waiting test change ws still hs in
    elim (Bool-cases (test w)) [
      | inl e ↦ let old = h e in rw (e, still w, old, ih)
      | inr e ↦ rw (e, ih)
    ]

waiting_still : (w : WorkItem) → is_waiting w.state ≡ true → is_running w.state ≡ false
waiting_still w h = ground arith

count_running-propagate :
    (now : ℕ) (failure : Bytes) (q : Queue)
    → count_running (propagate now failure q).items ≡ count_running q.items
unfolding propagate
count_running-propagate now failure q =
    count_running-waiting (is_doomed q) (doomed now failure) q.items (λ w. unfold doomed in refl)
      (All-of _ q.items (λ w t. waiting_still w (ground arith)))

WaitingAt-still :
    (id : Bytes) (ws : List WorkItem)
    → WaitingAt ws id
    → All (λ w. has_id id w ≡ true → is_running w.state ≡ false) ws
WaitingAt-still id ws h =
    All-mono (λ w. has_id id w ≡ true → is_waiting w.state ≡ true) _ ws
      (λ w f k. waiting_still w (f k)) h

count_running-mark_passed :
    (now : ℕ) (ids : List Bytes) (ws : List WorkItem)
    → All (WaitingAt ws) ids
    → count_running (mark_passed now ids ws) ≡ count_running ws
unfolding mark_passed
count_running-mark_passed now [] ws h = refl
count_running-mark_passed now (id ∷ ids) ws (h, hs) =
    count_running-mark_passed now ids (update_where (has_id id) (passed_over now) ws)
      (All-mono (WaitingAt ws) _ ids (λ other k. passed_WaitingAt now id other ws k) hs)
    ∙ count_running-waiting (has_id id) (passed_over now) ws (λ w. unfold passed_over in refl)
        (WaitingAt-still id ws h)

-- Taking a row that waits adds one to those that run.
count_running-taken_item :
    (now : ℕ) (owner id : Bytes) (ws : List WorkItem) (w : WorkItem)
    → find_item id ws ≡ some w
    → WaitingAt ws id
    → count_running ws < count_running (update_where (has_id id) (taken_item now owner) ws)
unfolding count_running update_where find_item taken_item
count_running-taken_item now owner id [] w f h = cc
count_running-taken_item now owner id (v ∷ vs) w f (h, hs) = elim (Bool-cases (has_id id v)) [
  | inl e ↦
      let still = waiting_still v (h e) in
      let rest = taken_no_less now owner id vs in rw (e, still) (omega (arith, rest))
  | inr e ↦
      let rest = count_running-taken_item now owner id vs w (ground arith) hs in
      rw e (elim (Bool-cases (is_running v.state)) [
        | inl k ↦ rw k (omega (arith, rest))
        | inr k ↦ rw k rest
      ])
]
  where
    taken_no_less :
        (now : ℕ) (owner id : Bytes) (ws : List WorkItem)
        → count_running ws ≤ count_running (update_where (has_id id) (taken_item now owner) ws)
    taken_no_less now owner id [] = omega arith
    taken_no_less now owner id (v ∷ vs) =
        let rest = taken_no_less now owner id vs in
        elim (Bool-cases (has_id id v)) [
          | inl e ↦ rw e (elim (Bool-cases (is_running v.state)) [
            | inl k ↦ rw k (omega (arith, rest))
            | inr k ↦ rw k (omega (arith, rest))
          ])
          | inr e ↦ rw e (elim (Bool-cases (is_running v.state)) [
            | inl k ↦ rw k (omega (arith, rest))
            | inr k ↦ rw k rest
          ])
        ]

mark_passed-WaitingAt :
    (now : ℕ) (other : Bytes) (ids : List Bytes) (ws : List WorkItem)
    → WaitingAt ws other
    → WaitingAt (mark_passed now ids ws) other
unfolding mark_passed
mark_passed-WaitingAt now other [] ws h = h
mark_passed-WaitingAt now other (id ∷ ids) ws h =
    mark_passed-WaitingAt now other ids _ (passed_WaitingAt now id other ws h)

-- A row of the id is still there.
abbrev IsThere : Bytes → List WorkItem → Type 0
IsThere id ws = (w : WorkItem) × (find_item id ws ≡ some w)

passed-IsThere :
    (now : ℕ) (id other : Bytes) (ws : List WorkItem)
    → IsThere other ws
    → IsThere other (update_where (has_id id) (passed_over now) ws)
unfolding find_item update_where passed_over
passed-IsThere now id other [] h = h
passed-IsThere now id other (w ∷ ws) (v, f) = elim (Bool-cases (text_eq w.work_id other)) [
  | inl e ↦ elim (Bool-cases (has_id id w)) [
    | inl k ↦ (passed_over now w, unfold passed_over in rw (k, e) refl)
    | inr k ↦ (w, rw (k, e) refl)
  ]
  | inr e ↦
      let (u, g) = passed-IsThere now id other ws (v, ground arith) in
      elim (Bool-cases (has_id id w)) [ inl k ↦ (u, rw (k, e) g) | inr k ↦ (u, rw (k, e) g) ]
]

mark_passed-IsThere :
    (now : ℕ) (other : Bytes) (ids : List Bytes) (ws : List WorkItem)
    → IsThere other ws
    → IsThere other (mark_passed now ids ws)
unfolding mark_passed
mark_passed-IsThere now other [] ws h = h
mark_passed-IsThere now other (id ∷ ids) ws h =
    mark_passed-IsThere now other ids _ (passed-IsThere now id other ws h)

claim_item-refused :
    (now : ℕ) (owner : Bytes) (q : Queue) (w : WorkItem)
    → one_running (update_where (has_id w.work_id) (taken_item now owner) q.items) ≡ none
    → claim_item now owner q (some w) ≡ none
unfolding claim_item
claim_item-refused now owner q w h = rw (claim_item, h) refl

take_next-refused :
    (now : ℕ) (owner : Bytes) (capabilities : List Bytes) (q : Queue)
    → IsQueued (keys q.items)
    → 0 < count_running q.items
    → any_compatible capabilities (runnable_rows now q) ≡ true
    → take_next now owner capabilities q ≡ none
unfolding take_next
take_next-refused now owner capabilities q k runs h =
    let rows = runnable_rows now q in
    let passed : List Bytes = (scan capabilities rows).0 in
    let (w, taken) = scan-some capabilities rows h in
    let waiting = runnable_rows-WaitingAt now q k in
    let waits = scan-taken (λ v. WaitingAt q.items v.work_id) capabilities rows w waiting taken in
    let there =
      scan-taken (λ v. find_item v.work_id q.items ≡ some v) capabilities rows w
        (runnable_rows-All (λ v. find_item v.work_id q.items ≡ some v) now q
          (All-mono (λ v. find_item v.work_id q.items ≡ some v) _ q.items (λ v f _. f)
            (find_item-row q.items k)))
        taken in
    let (v, at) = mark_passed-IsThere now w.work_id passed q.items (w, there) in
    let same =
      count_running-mark_passed now passed q.items
        (scan-passed (WaitingAt q.items) capabilities rows waiting) in
    let more =
      count_running-taken_item now owner w.work_id (mark_passed now passed q.items) v at
        (mark_passed-WaitingAt now w.work_id passed q.items waits) in
    let none_left =
      one_running-none
        (update_where (has_id w.work_id) (taken_item now owner) (mark_passed now passed q.items))
        (omega (arith, same, more, runs)) in
    rw taken (
      claim_item-refused now owner (record q { items = mark_passed now passed q.items }) w
        none_left)

-- While a row runs, claim_next_work throws for the active runner as soon as there is another row that
-- it could take.
pub claim_next_work-refused :
    (now : ℕ) (failure owner : Bytes) (capabilities : List Bytes) (q : Queue)
    → IsWellFormed q
    → is_runner owner q.lease ≡ true
    → 0 < count_running q.items
    → any_compatible capabilities (runnable_rows now (propagate now failure q)) ≡ true
    → claim_next_work now failure owner capabilities q ≡ none
unfolding claim_next_work
claim_next_work-refused now failure owner capabilities q well r runs h =
    let fresh : Queue = propagate now failure q in
    let k : IsQueued (keys fresh.items) =
      subst IsQueued (sym (propagate-KeepsTables now failure q well).same_keys) well.queued in
    let still : is_runner owner fresh.lease ≡ true = unfold propagate in r in
    let count = count_running-propagate now failure q in
    rw still
      (take_next-refused now owner capabilities fresh k (subst (λ n. 0 < n) (sym count) runs) h)
