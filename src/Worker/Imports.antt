-- ===== src/Worker/Imports.antt =====
-- src/worker.cpp: what the coordinator brings into the catalog while a task runs.
use repotraverse.Prelude.{
  ℕ, ◌≡◌, refl, sym, ◌∙◌, subst, ◌≢◌, inl, inr, Bool, true, false, List, [], ◌∷◌, ◌++◌, arith,
  Bool-cases, Bytes, codes, text_eq, text_eq_iff, is_empty, All, All-append, All-mono,
}
use repotraverse.Catalog.Tables.{WorkItem, Queue, is_running, update_where, any_item, has_id}
use repotraverse.Catalog.Work.{new_item, add_task, schedule_task, launch}
use repotraverse.Catalog.Steps.{or_same}
use repotraverse.Catalog.Facts.{
  stored_item, rescheduled, store_fact, stored_rows, mark_task_published,
}
use repotraverse.Catalog.Changes.Steps.{fact_for_task-items}
use repotraverse.Worker.{Import, task_comes, fact_comes, fact_is_read, import_one, import_all}

-- Whatever runs is of the id.
abbrev pub OnlyRuns : Bytes → List WorkItem → Type 0
OnlyRuns id = All λ (w : WorkItem). is_running w.state ≡ true → has_id id w ≡ true

-- Whatever runs is of the id, and what is of the id is the owner's.
abbrev pub IsHeld : Bytes → Bytes → List WorkItem → Type 0
IsHeld id owner = All λ (w : WorkItem).
    (is_running w.state ≡ true → has_id id w ≡ true) × (has_id id w ≡ true → w.owner ≡ owner)

abbrev pub IsThere : Bytes → List WorkItem → Type 0
IsThere id ws = any_item (has_id id) ws ≡ true

-- The import brings no fact of the item.
abbrev pub BringsNone : Bytes → Import → Type 0
BringsNone id (fact_comes limits fact task size readable) = task ≢ id
BringsNone id _ = Unit

pub IsHeld-OnlyRuns : (id owner : Bytes) (ws : List WorkItem) → IsHeld id owner ws → OnlyRuns id ws
IsHeld-OnlyRuns id owner ws =
    All-mono _ (λ (w : WorkItem). is_running w.state ≡ true → has_id id w ≡ true) ws (λ w h. h.0)

update_where-All :
    (P : WorkItem → Type 0) (test : WorkItem → Bool) (change : WorkItem → WorkItem)
    (ws : List WorkItem)
    → ((w : WorkItem) → test w ≡ true → P w → P (change w))
    → All P ws
    → All P (update_where test change ws)
unfolding update_where
update_where-All P test change [] f h = tt
update_where-All P test change (w ∷ ws) f (h, hs) =
    let rest = update_where-All P test change ws f hs in
    elim (Bool-cases (test w)) [ inl e ↦ rw e (f w e h, rest) | inr e ↦ rw e (h, rest) ]

any_item-update_where :
    (id : Bytes) (test : WorkItem → Bool) (change : WorkItem → WorkItem) (ws : List WorkItem)
    → ((w : WorkItem) → (change w).work_id ≡ w.work_id)
    → IsThere id ws
    → IsThere id (update_where test change ws)
unfolding update_where any_item
any_item-update_where id test change [] same h = h
any_item-update_where id test change (w ∷ ws) same h =
    let k = same w in
    elim (Bool-cases (text_eq w.work_id id)) [
      | inl e ↦ elim (Bool-cases (test w)) [ inl t ↦ rw (t, k, e) refl | inr t ↦ rw (t, e) refl ]
      | inr e ↦
          let later : IsThere id ws = ground arith in
          let rest = any_item-update_where id test change ws same later in
          elim (Bool-cases (test w)) [ inl t ↦ rw (t, k, e) rest | inr t ↦ rw (t, e) rest ]
    ]

any_item-append : (id : Bytes) (ws vs : List WorkItem) → IsThere id ws → IsThere id (ws ++ vs)
unfolding any_item
any_item-append id [] vs h = absurd (ground arith)
any_item-append id (w ∷ ws) vs h = elim (Bool-cases (text_eq w.work_id id)) [
  | inl e ↦ rw e refl
  | inr e ↦ let rest = any_item-append id ws vs (ground arith) in rw e rest
]

schedule_task-items :
    (now : ℕ) (token id task request : Bytes) (q : Queue)
    → (schedule_task now token id task request q).items ≡ add_task now id task q.items
unfolding schedule_task
schedule_task-items now token id task request q =
    elim (Bool-cases (is_empty q.launch_executable_identity)) [
      | inl e ↦ rw e refl
      | inr e ↦ rw e (unfold launch in refl)
    ]

module _ (id : Bytes) (now : ℕ) where
  -- A row that is added waits, and another row has its id if none had it.
  add_task-All :
      (P : WorkItem → Type 0) (other task : Bytes) (ws : List WorkItem)
      → (any_item (has_id other) ws ≡ false
          → P (new_item now other (codes "extraction") task [] false ws))
      → All P ws
      → All P (add_task now other task ws)
  unfolding add_task
  add_task-All P other task ws new h = elim (Bool-cases (any_item (has_id other) ws)) [
    | inl e ↦ rw e h
    | inr e ↦ rw e (All-append P ws _ h (new e, tt))
  ]

  add_task-IsThere :
      (other task : Bytes) (ws : List WorkItem)
      → IsThere id ws
      → IsThere id (add_task now other task ws)
  unfolding add_task
  add_task-IsThere other task ws h = elim (Bool-cases (any_item (has_id other) ws)) [
    | inl e ↦ rw e h
    | inr e ↦ rw e (any_item-append id ws _ h)
  ]

  new_item-waits :
      (other task : Bytes) (ws : List WorkItem)
      → is_running (new_item now other (codes "extraction") task [] false ws).state ≡ false
  unfolding new_item
  new_item-waits other task ws = refl

  rescheduled-waits : (w : WorkItem) → is_running (rescheduled w).state ≡ false
  unfolding rescheduled
  rescheduled-waits w = refl

  stored_item-ended : (w : WorkItem) → is_running (stored_item now w).state ≡ false
  unfolding stored_item
  stored_item-ended w = refl

  import_one-OnlyRuns :
      (i : Import) (q : Queue) → OnlyRuns id q.items → OnlyRuns id (import_one now i q).items
  unfolding import_one mark_task_published
  import_one-OnlyRuns (task_comes token other task request) q h =
      rw (schedule_task-items now token other task request q) (
        add_task-All (λ w. is_running w.state ≡ true → has_id id w ≡ true) other task q.items
          (λ _ r.
            let bad : true ≡ false = sym r ∙ new_item-waits other task q.items in
            absurd (ground arith))
          h)
  import_one-OnlyRuns (fact_comes limits fact task size false) q h = unfold store_fact or_same in h
  import_one-OnlyRuns (fact_comes limits fact task size true) q h =
      unfold store_fact or_same stored_rows in
      update_where-All (λ w. is_running w.state ≡ true → has_id id w ≡ true) _ rescheduled _
        (λ w t k r. let no = rescheduled-waits w in absurd (ground arith))
        (update_where-All (λ w. is_running w.state ≡ true → has_id id w ≡ true) (has_id task)
          (stored_item now) q.items
          (λ w t k r. let no = stored_item-ended w in absurd (ground arith)) h)
  import_one-OnlyRuns (fact_is_read task) q h = rw (fact_for_task-items now q task) h

  pub import_all-OnlyRuns :
      (is : List Import) (q : Queue) → OnlyRuns id q.items → OnlyRuns id (import_all now is q).items
  unfolding import_all
  import_all-OnlyRuns [] q h = h
  import_all-OnlyRuns (i ∷ is) q h =
      import_all-OnlyRuns is (import_one now i q) (import_one-OnlyRuns i q h)

  import_one-IsThere :
      (i : Import) (q : Queue) → IsThere id q.items → IsThere id (import_one now i q).items
  unfolding import_one mark_task_published
  import_one-IsThere (task_comes token other task request) q h =
      rw (schedule_task-items now token other task request q)
        (add_task-IsThere other task q.items h)
  import_one-IsThere (fact_comes limits fact task size false) q h = unfold store_fact or_same in h
  import_one-IsThere (fact_comes limits fact task size true) q h =
      unfold store_fact or_same stored_rows in
      any_item-update_where id _ rescheduled _ (λ w. unfold rescheduled in refl)
        (any_item-update_where id (has_id task) (stored_item now) q.items
          (λ w. unfold stored_item in refl) h)
  import_one-IsThere (fact_is_read task) q h = rw (fact_for_task-items now q task) h

  -- A row that is there is not added.
  not_added :
      (other : Bytes) (ws : List WorkItem)
      → IsThere id ws
      → any_item (has_id other) ws ≡ false
      → text_eq other id ≡ true
      → ⊥
  not_added other ws there absent e =
      let same : other ≡ id = (text_eq_iff other id).0 e in
      let bad : true ≡ false =
        sym there ∙ subst (λ i. any_item (has_id i) ws ≡ false) same absent in
      ground arith

  import_one-IsHeld :
      (owner : Bytes) (i : Import) (q : Queue)
      → BringsNone id i
      → IsThere id q.items
      → IsHeld id owner q.items
      → IsHeld id owner (import_one now i q).items
  unfolding import_one mark_task_published
  import_one-IsHeld owner (task_comes token other task request) q none_own there h =
      rw (schedule_task-items now token other task request q) (
        add_task-All _ other task q.items
          (λ absent.
            unfold new_item in
            ((λ r. absurd (ground arith)), (λ e. absurd (not_added other q.items there absent e))))
          h)
  import_one-IsHeld owner (fact_comes limits fact task size false) q differ there h =
      unfold store_fact or_same in h
  import_one-IsHeld owner (fact_comes limits fact task size true) q differ there h =
      unfold store_fact or_same stored_rows in
      update_where-All _ _ rescheduled _
        (λ w t k. unfold rescheduled in ((λ r. absurd (ground arith)), k.1))
        (update_where-All _ (has_id task) (stored_item now) q.items
          (λ w t k.
            unfold stored_item in
            (
              (λ r. absurd (ground arith)),
              (λ e. absurd (
                  differ
                    (sym ((text_eq_iff w.work_id task).0 t) ∙ (text_eq_iff w.work_id id).0 e))),
            ))
          h)
  import_one-IsHeld owner (fact_is_read task) q none_own there h =
      rw (fact_for_task-items now q task) h

  pub import_all-IsHeld :
      (owner : Bytes) (is : List Import) (q : Queue)
      → All (BringsNone id) is
      → IsThere id q.items
      → IsHeld id owner q.items
      → IsHeld id owner (import_all now is q).items
  unfolding import_all
  import_all-IsHeld owner [] q none_own there h = h
  import_all-IsHeld owner (i ∷ is) q (n, ns) there h =
      import_all-IsHeld owner is (import_one now i q) ns (import_one-IsThere i q there)
        (import_one-IsHeld owner i q n there h)
