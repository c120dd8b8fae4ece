-- ===== src/Catalog/Changes/Claims.antt =====
-- Taking the next item, row by row.
use repotraverse.Prelude.{
  ℕ, ◌≡◌, refl, sym, ◌∙◌, subst, inl, inr, true, Option, none, some, List, [], ◌∷◌, arith,
  Bool-cases, Option-cases, Bytes, All, All-mono,
}
use repotraverse.Catalog.Tables.{WorkItem, Queue, is_waiting, update_where, has_id, one_running}
use repotraverse.Catalog.Runner.{
  runnable_rows, is_runner, is_doomed, doomed, propagate, passed_over, mark_passed, taken_item,
  claim_item, scan, take_next, claim_next_work,
}
use repotraverse.Catalog.Steps.{claims}
use repotraverse.Catalog.Rows.{keys, IsQueued, one_running_lem}
use repotraverse.Catalog.WellFormed.{IsWellFormed}
use repotraverse.Catalog.WellFormed.Claims.{propagate-KeepsTables}
use repotraverse.Catalog.Changes.{
  dooms, passes, takes, Follows, Grows, Grows-refl, Grows-trans, update_where-Grows, All-of,
}
use repotraverse.Catalog.Changes.Waiting.{
  WaitingAt, runnable_rows-WaitingAt, scan-taken, scan-passed, passed_WaitingAt,
}

module _ (now : ℕ) (q : Queue) where
  mark_passed-Grows :
      (failure owner : Bytes) (capabilities : List Bytes) (ids : List Bytes) (ws : List WorkItem)
      → All (WaitingAt ws) ids
      → Grows (Follows now q (claims failure owner capabilities)) ws (mark_passed now ids ws)
  unfolding mark_passed
  mark_passed-Grows failure owner capabilities [] ws h = Grows-refl now q _ ws
  mark_passed-Grows failure owner capabilities (id ∷ ids) ws (h, hs) =
      Grows-trans now q (claims failure owner capabilities) ws
        (update_where (has_id id) (passed_over now) ws) _
        (update_where-Grows now q (claims failure owner capabilities) (has_id id) (passed_over now)
          ws (λ w. unfold passed_over in refl)
          (All-mono (λ w. has_id id w ≡ true → is_waiting w.state ≡ true) _ ws
            (λ w f t. passes w (f t)) h))
        (mark_passed-Grows failure owner capabilities ids _
          (All-mono (WaitingAt ws) _ ids (λ other k. passed_WaitingAt now id other ws k) hs))

  mark_passed-WaitingAt :
      (other : Bytes) (ids : List Bytes) (ws : List WorkItem)
      → WaitingAt ws other
      → WaitingAt (mark_passed now ids ws) other
  unfolding mark_passed
  mark_passed-WaitingAt other [] ws h = h
  mark_passed-WaitingAt other (id ∷ ids) ws h =
      mark_passed-WaitingAt other ids _ (passed_WaitingAt now id other ws h)

  claim_item-Grows :
      (failure owner : Bytes) (capabilities : List Bytes) (t : Queue) (taken : Option WorkItem)
      (x : Queue × Option WorkItem)
      → ((w : WorkItem) → taken ≡ some w → WaitingAt t.items w.work_id)
      → claim_item now owner t taken ≡ some x
      → Grows (Follows now q (claims failure owner capabilities)) t.items x.0.items
  unfolding claim_item
  claim_item-Grows failure owner capabilities t none x waits h =
      let same : t ≡ x.0 = cc in
      subst
        (λ (y : Queue). Grows (Follows now q (claims failure owner capabilities)) t.items y.items)
        same (Grows-refl now q _ t.items)
  claim_item-Grows failure owner capabilities t (some w) x waits h =
      elim (Option-cases
        (one_running (update_where (has_id w.work_id) (taken_item now owner) t.items))) [
          | inl e ↦ absurd (ground arith)
          | inr (items, e) ↦
              let (equal, _) = one_running_lem _ items e in
              let same : items ≡ x.0.items = ground arith in
              subst (Grows (Follows now q (claims failure owner capabilities)) t.items)
                (equal ∙ same)
                (update_where-Grows now q (claims failure owner capabilities) (has_id w.work_id)
                  (taken_item now owner) t.items (λ v. unfold taken_item in refl)
                  (All-mono (λ v. has_id w.work_id v ≡ true → is_waiting v.state ≡ true) _ t.items
                    (λ v f k. takes v (f k)) (waits w refl)))
        ]

  take_next-Grows :
      (failure owner : Bytes) (capabilities : List Bytes) (t : Queue) (x : Queue × Option WorkItem)
      → IsQueued (keys t.items)
      → take_next now owner capabilities t ≡ some x
      → Grows (Follows now q (claims failure owner capabilities)) t.items x.0.items
  unfolding take_next
  take_next-Grows failure owner capabilities t x k h =
      let rows = runnable_rows-WaitingAt now t k in
      let passed : List Bytes = (scan capabilities (runnable_rows now t)).0 in
      let marked : Queue = record t { items = mark_passed now passed t.items } in
      Grows-trans now q (claims failure owner capabilities) t.items marked.items x.0.items
        (mark_passed-Grows failure owner capabilities passed t.items
          (scan-passed (WaitingAt t.items) capabilities (runnable_rows now t) rows))
        (claim_item-Grows failure owner capabilities marked
          ((scan capabilities (runnable_rows now t)).1) x
          (λ w e. mark_passed-WaitingAt w.work_id passed t.items (
            scan-taken (λ v. WaitingAt t.items v.work_id) capabilities (runnable_rows now t) w rows
              e))
          h)

  propagate-Grows :
      (failure owner : Bytes) (capabilities : List Bytes)
      → Grows
          (Follows now q (claims failure owner capabilities))
          q.items
          (propagate now failure q).items
  unfolding propagate
  propagate-Grows failure owner capabilities =
      update_where-Grows now q (claims failure owner capabilities) (is_doomed q)
        (doomed now failure) q.items (λ w. unfold doomed in refl)
        (All-of _ q.items (λ w t. dooms w (ground arith)))

  pub claim_next_work-Grows :
      (failure owner : Bytes) (capabilities : List Bytes) (x : Queue × Option WorkItem)
      → IsWellFormed q
      → claim_next_work now failure owner capabilities q ≡ some x
      → Grows (Follows now q (claims failure owner capabilities)) q.items x.0.items
  unfolding claim_next_work
  claim_next_work-Grows failure owner capabilities x w h =
      let fresh : Queue = propagate now failure q in
      let first = propagate-Grows failure owner capabilities in
      let k : IsQueued (keys fresh.items) =
        subst IsQueued (sym (propagate-KeepsTables now failure q w).same_keys) w.queued in
      elim (Bool-cases (is_runner owner (propagate now failure q).lease)) [
        | inl e ↦
            Grows-trans now q (claims failure owner capabilities) q.items fresh.items x.0.items
              first (take_next-Grows failure owner capabilities fresh x k (rw e at h))
        | inr e ↦
            let got : some (fresh, none) ≡ some x = rw e at h in
            let same : fresh ≡ x.0 = cc in
            subst
              (λ (y : Queue).
                Grows (Follows now q (claims failure owner capabilities)) q.items y.items)
              same first
      ]
