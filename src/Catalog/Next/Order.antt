-- ===== src/Catalog/Next/Order.antt =====
-- The rows that a query gives stand in the order of maintenance and fifo_sequence.
use repotraverse.Prelude.{
  ℕ, ◌≡◌, refl, sym, ◌∙◌, subst, inl, inr, true, false, some, List, [], ◌∷◌, arith, Bool-cases,
  Bytes, All, All-mono,
}
use repotraverse.Catalog.Tables.{WorkItem, Queue, is_runnable}
use repotraverse.Catalog.Runner.{
  precedes, insert_ordered, ordered, select_runnable, runnable_rows, is_compatible, any_compatible,
  scan,
}

precedes_refl : (a : WorkItem) → precedes a a ≡ true
unfolding precedes
precedes_refl a = ground arith

precedes_trans :
    (a b c : WorkItem) → precedes a b ≡ true → precedes b c ≡ true → precedes a c ≡ true
unfolding precedes
precedes_trans a b c h k = ground arith

precedes-total : (a b : WorkItem) → precedes a b ≡ false → precedes b a ≡ true
unfolding precedes
precedes-total a b h = ground arith

abbrev IsOrdered : List WorkItem → Type 0
IsOrdered [] = Unit
IsOrdered (w ∷ ws) = All (λ v. precedes w v ≡ true) ws × IsOrdered ws

insert_ordered-All :
    (P : WorkItem → Type 0) (w : WorkItem) (ws : List WorkItem)
    → P w
    → All P ws
    → All P (insert_ordered w ws)
unfolding insert_ordered
insert_ordered-All P w [] p h = (p, tt)
insert_ordered-All P w (v ∷ vs) p (h, hs) =
    let rest = insert_ordered-All P w vs p hs in
    elim (Bool-cases (precedes w v)) [ inl e ↦ rw e (p, (h, hs)) | inr e ↦ rw e (h, rest) ]

insert_ordered-IsOrdered :
    (w : WorkItem) (ws : List WorkItem) → IsOrdered ws → IsOrdered (insert_ordered w ws)
unfolding insert_ordered
insert_ordered-IsOrdered w [] h = (tt, tt)
insert_ordered-IsOrdered w (v ∷ vs) (h, hs) =
    let rest = insert_ordered-IsOrdered w vs hs in
    elim (Bool-cases (precedes w v)) [
      | inl e ↦ rw e (
        (e, All-mono (λ x. precedes v x ≡ true) _ vs (λ x k. precedes_trans w v x e k) h),
        (h, hs),
      )
      | inr e ↦
          rw e (insert_ordered-All (λ x. precedes v x ≡ true) w vs (precedes-total w v e) h, rest)
    ]

ordered-IsOrdered : (ws : List WorkItem) → IsOrdered (ordered ws)
unfolding ordered
ordered-IsOrdered [] = tt
ordered-IsOrdered (w ∷ ws) = insert_ordered-IsOrdered w (ordered ws) (ordered-IsOrdered ws)

module _ (P : WorkItem → Type 0) where
  insert_ordered-All_back :
      (w : WorkItem) (ws : List WorkItem) → All P (insert_ordered w ws) → P w × All P ws
  unfolding insert_ordered
  insert_ordered-All_back w [] h = h
  insert_ordered-All_back w (v ∷ vs) h = elim (Bool-cases (precedes w v)) [
    | inl e ↦ rw e at h
    | inr e ↦
        let k : P v × All P (insert_ordered w vs) = rw e at h in
        let (p, rest) = insert_ordered-All_back w vs k.1 in (p, (k.0, rest))
  ]

  ordered-All_back : (ws : List WorkItem) → All P (ordered ws) → All P ws
  unfolding ordered
  ordered-All_back [] h = tt
  ordered-All_back (w ∷ ws) h =
      let (p, rest) = insert_ordered-All_back w (ordered ws) h in (p, ordered-All_back ws rest)

  select_runnable-All_back :
      (now : ℕ) (q : Queue) (ws : List WorkItem)
      → All P (select_runnable now q ws)
      → All (λ w. is_runnable now q w ≡ true → P w) ws
  unfolding select_runnable
  select_runnable-All_back now q [] h = tt
  select_runnable-All_back now q (w ∷ ws) h = elim (Bool-cases (is_runnable now q w)) [
    | inl e ↦
        let k : P w × All P (select_runnable now q ws) = rw e at h in
        ((λ _. k.0), select_runnable-All_back now q ws k.1)
    | inr e ↦
        let k : All P (select_runnable now q ws) = rw e at h in
        ((λ yes. let bad : true ≡ false = sym yes ∙ e in cc), select_runnable-All_back now q ws k)
  ]

  -- What holds of every row of the query holds of every row that can run.
  runnable_rows-All_back :
      (now : ℕ) (q : Queue)
      → All P (runnable_rows now q)
      → All (λ w. is_runnable now q w ≡ true → P w) q.items
  unfolding runnable_rows
  runnable_rows-All_back now q h =
      select_runnable-All_back now q q.items (ordered-All_back (select_runnable now q q.items) h)

scan-first_of :
    (capabilities : List Bytes) (ws : List WorkItem) (w : WorkItem)
    → IsOrdered ws
    → (scan capabilities ws).1 ≡ some w
    → All (λ v. is_compatible capabilities v ≡ true → precedes w v ≡ true) ws
unfolding scan
scan-first_of capabilities [] w h e = tt
scan-first_of capabilities (v ∷ vs) w (h, hs) e = elim (Bool-cases (is_compatible capabilities v)) [
  | inl k ↦
      let same : v ≡ w = ground arith in
      subst (λ x. All (λ u. is_compatible capabilities u ≡ true → precedes x u ≡ true) (v ∷ vs))
        same ((λ _. precedes_refl v), All-mono (λ u. precedes v u ≡ true) _ vs (λ u p _. p) h)
  | inr k ↦ (
    (λ yes. let bad : true ≡ false = sym yes ∙ k in cc),
    scan-first_of capabilities vs w hs (ground arith),
  )
]

runnable_rows-IsOrdered : (now : ℕ) (q : Queue) → IsOrdered (runnable_rows now q)
unfolding runnable_rows
runnable_rows-IsOrdered now q = ordered-IsOrdered (select_runnable now q q.items)

-- The row that is taken stands before every other that could be.
pub scan-first :
    (now : ℕ) (q : Queue) (capabilities : List Bytes) (w : WorkItem)
    → (scan capabilities (runnable_rows now q)).1 ≡ some w
    → All
        (λ v.
          is_runnable now q v ≡ true → is_compatible capabilities v ≡ true → precedes w v ≡ true)
        q.items
scan-first now q capabilities w e =
    runnable_rows-All_back (λ v. is_compatible capabilities v ≡ true → precedes w v ≡ true) now q
      (scan-first_of capabilities (runnable_rows now q) w (runnable_rows-IsOrdered now q) e)

pub scan-compatible :
    (capabilities : List Bytes) (ws : List WorkItem) (w : WorkItem)
    → (scan capabilities ws).1 ≡ some w
    → is_compatible capabilities w ≡ true
unfolding scan
scan-compatible capabilities [] w e = cc
scan-compatible capabilities (v ∷ vs) w e = elim (Bool-cases (is_compatible capabilities v)) [
  | inl k ↦
      let same : v ≡ w = ground arith in subst (λ x. is_compatible capabilities x ≡ true) same k
  | inr k ↦ scan-compatible capabilities vs w (ground arith)
]

-- Where a row could be taken, one is.
pub scan-some :
    (capabilities : List Bytes) (ws : List WorkItem)
    → any_compatible capabilities ws ≡ true
    → (w : WorkItem) × ((scan capabilities ws).1 ≡ some w)
unfolding scan any_compatible
scan-some capabilities [] h = cc
scan-some capabilities (v ∷ vs) h = elim (Bool-cases (is_compatible capabilities v)) [
  | inl k ↦ (v, rw k refl)
  | inr k ↦ let (w, e) = scan-some capabilities vs (ground arith) in (w, rw k e)
]
