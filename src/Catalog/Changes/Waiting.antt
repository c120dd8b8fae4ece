-- ===== src/Catalog/Changes/Waiting.antt =====
-- Rows that wait are the only ones of their ids, so an update by id meets a row that waits.
use repotraverse.Prelude.{
  ℕ, ◌≡◌, refl, sym, ◌∙◌, subst, inl, inr, true, false, some, List, [], ◌∷◌, arith, Bool-cases,
  Option-cases, Bytes, text_eq_iff, All, All-mono,
}
use repotraverse.Catalog.Tables.{WorkItem, Queue, is_waiting, has_id, update_where, is_runnable}
use repotraverse.Catalog.Rows.{keys, IsQueued, Ahead}
use repotraverse.Catalog.Runner.{
  insert_ordered, ordered, precedes, select_runnable, runnable_rows, scan, is_compatible,
  passed_over,
}
use repotraverse.Catalog.Facts.{first_due, can_pick, is_due_before}

-- Every row of the id waits.
abbrev pub WaitingAt : List WorkItem → Bytes → Type 0
WaitingAt ws id = All (λ v. has_id id v ≡ true → is_waiting v.state ≡ true) ws

-- No other row has the id.
absent_WaitingAt :
    (id : Bytes) (n : ℕ) (ws : List WorkItem) → Ahead (id, n) (keys ws) → WaitingAt ws id
absent_WaitingAt id n [] h = tt
absent_WaitingAt id n (w ∷ ws) ((differ, _), hs) =
    ((λ e. absurd (differ ((text_eq_iff w.work_id id).0 e))), absent_WaitingAt id n ws hs)

Ahead-differs :
    (w : WorkItem) (ws : List WorkItem)
    → Ahead (w.work_id, w.fifo_sequence) (keys ws)
    → All (λ v. has_id v.work_id w ≡ false) ws
Ahead-differs w [] h = tt
Ahead-differs w (v ∷ ws) ((differ, _), hs) = (
  (elim (Bool-cases (has_id v.work_id w)) [
    | inl e ↦ absurd (differ (sym ((text_eq_iff w.work_id v.work_id).0 e)))
    | inr e ↦ e
  ]),
  Ahead-differs w ws hs,
)

-- The ids of rows that wait are the ids of no other rows.
waiting_alone :
    (ws : List WorkItem)
    → IsQueued (keys ws)
    → All (λ w. is_waiting w.state ≡ true → WaitingAt ws w.work_id) ws
waiting_alone [] h = tt
waiting_alone (w ∷ ws) (h, hs) = (
  (λ waits. ((λ e. waits), absent_WaitingAt w.work_id w.fifo_sequence ws h)),
  both ws (Ahead-differs w ws h) (waiting_alone ws hs),
)
  where
    both :
        (vs : List WorkItem)
        → All (λ v. has_id v.work_id w ≡ false) vs
        → All (λ v. is_waiting v.state ≡ true → WaitingAt ws v.work_id) vs
        → All (λ v. is_waiting v.state ≡ true → WaitingAt (w ∷ ws) v.work_id) vs
    both [] k r = tt
    both (v ∷ vs) (k, ks) (r, rs) =
        ((λ waits. ((λ e. let bad : true ≡ false = sym e ∙ k in cc), r waits)), both vs ks rs)

module _ (P : WorkItem → Type 0) where
  insert_ordered-All :
      (w : WorkItem) (ws : List WorkItem) → P w → All P ws → All P (insert_ordered w ws)
  unfolding insert_ordered
  insert_ordered-All w [] p h = (p, tt)
  insert_ordered-All w (v ∷ vs) p (h, hs) =
      let rest = insert_ordered-All w vs p hs in
      elim (Bool-cases (precedes w v)) [ inl e ↦ rw e (p, (h, hs)) | inr e ↦ rw e (h, rest) ]

  ordered-All : (ws : List WorkItem) → All P ws → All P (ordered ws)
  unfolding ordered
  ordered-All [] h = tt
  ordered-All (w ∷ ws) (h, hs) = insert_ordered-All w (ordered ws) h (ordered-All ws hs)

  select_runnable-All :
      (now : ℕ) (q : Queue) (ws : List WorkItem)
      → All (λ w. is_runnable now q w ≡ true → P w) ws
      → All P (select_runnable now q ws)
  unfolding select_runnable
  select_runnable-All now q [] h = tt
  select_runnable-All now q (w ∷ ws) (h, hs) =
      let rest = select_runnable-All now q ws hs in
      elim (Bool-cases (is_runnable now q w)) [ inl e ↦ rw e (h e, rest) | inr e ↦ rw e rest ]

  pub runnable_rows-All :
      (now : ℕ) (q : Queue)
      → All (λ w. is_runnable now q w ≡ true → P w) q.items
      → All P (runnable_rows now q)
  unfolding runnable_rows
  runnable_rows-All now q h =
      ordered-All (select_runnable now q q.items) (select_runnable-All now q q.items h)

  -- The row that is taken is one of the rows.
  pub scan-taken :
      (capabilities : List Bytes) (ws : List WorkItem) (w : WorkItem)
      → All P ws
      → (scan capabilities ws).1 ≡ some w
      → P w
  unfolding scan
  scan-taken capabilities [] w h e = cc
  scan-taken capabilities (v ∷ vs) w (h, hs) e = elim (Bool-cases (is_compatible capabilities v)) [
    | inl k ↦ let same : v ≡ w = ground arith in subst P same h
    | inr k ↦ scan-taken capabilities vs w hs (ground arith)
  ]

-- So are those that are passed over.
pub scan-passed :
    (P : Bytes → Type 0) (capabilities : List Bytes) (ws : List WorkItem)
    → All (λ w. P w.work_id) ws
    → All P (scan capabilities ws).0
unfolding scan
scan-passed P capabilities [] h = tt
scan-passed P capabilities (w ∷ ws) (h, hs) =
    let rest = scan-passed P capabilities ws hs in
    elim (Bool-cases (is_compatible capabilities w)) [ inl e ↦ rw e tt | inr e ↦ rw e (h, rest) ]

runnable_waits :
    (now : ℕ) (q : Queue) (w : WorkItem) → is_runnable now q w ≡ true → is_waiting w.state ≡ true
unfolding is_runnable
runnable_waits now q w h = ground arith

-- The rows that a query gives wait, alone of their ids.
pub runnable_rows-WaitingAt :
    (now : ℕ) (q : Queue)
    → IsQueued (keys q.items)
    → All (λ w. WaitingAt q.items w.work_id) (runnable_rows now q)
runnable_rows-WaitingAt now q h =
    runnable_rows-All (λ w. WaitingAt q.items w.work_id) now q
      (All-mono (λ w. is_waiting w.state ≡ true → WaitingAt q.items w.work_id) _ q.items
        (λ w f r. f (runnable_waits now q w r)) (waiting_alone q.items h))

-- A row that is passed over still waits.
pub passed_WaitingAt :
    (now : ℕ) (id other : Bytes) (ws : List WorkItem)
    → WaitingAt ws other
    → WaitingAt (update_where (has_id id) (passed_over now) ws) other
unfolding update_where passed_over
passed_WaitingAt now id other [] h = tt
passed_WaitingAt now id other (w ∷ ws) (h, hs) =
    let rest = passed_WaitingAt now id other ws hs in
    elim (Bool-cases (has_id id w)) [ inl e ↦ rw e ((λ k. refl), rest) | inr e ↦ rw e (h, rest) ]

-- What next_pending_task picks is a row that waits.
first_due-All :
    (P : WorkItem → Type 0) (now : ℕ) (published : List Bytes) (ws : List WorkItem) (w : WorkItem)
    → All (λ v. is_waiting v.state ≡ true → P v) ws
    → first_due now published ws ≡ some w
    → P w
unfolding first_due
first_due-All P now published [] w h e = cc
first_due-All P now published (v ∷ ws) w (h, hs) e = elim (Bool-cases (can_pick now published v)) [
  | inr k ↦ first_due-All P now published ws w hs (rw (first_due, k) at e)
  | inl k ↦ elim (Option-cases (first_due now published ws)) [
    | inl n ↦
        let got : some v ≡ some w = rw (first_due, k, n) at e in
        let same : v ≡ w = cc in subst P same (h (ground arith))
    | inr (u, n) ↦ elim (Bool-cases (is_due_before u v)) [
      | inl b ↦
          let got : some u ≡ some w = rw (first_due, k, n, b) at e in
          let same : u ≡ w = cc in subst P same (first_due-All P now published ws u hs n)
      | inr b ↦
          let got : some v ≡ some w = rw (first_due, k, n, b) at e in
          let same : v ≡ w = cc in subst P same (h (ground arith))
    ]
  ]
]

pub first_due-WaitingAt :
    (now : ℕ) (published : List Bytes) (ws : List WorkItem) (w : WorkItem)
    → IsQueued (keys ws)
    → first_due now published ws ≡ some w
    → WaitingAt ws w.work_id
first_due-WaitingAt now published ws w h =
    first_due-All (λ v. WaitingAt ws v.work_id) now published ws w (waiting_alone ws h)
