-- ===== src/Catalog/Eviction.antt =====
-- src/catalog.cpp: what store_fact leaves behind.
mod Examples
use repotraverse.Prelude.{
  ℕ, zero, suc, ◌+◌, ◌-◌, ◌*◌, ◌/◌, ◌%◌, ◌^◌, ◌≤◌, ◌<◌, ◌≡◌, refl, sym, ap, ◌∙◌, subst, ◌≢◌, ◌↔◌,
  ◌⊎◌, inl, inr, Bool, true, false, ◌&&◌, ◌||◌, not, Option, none, some, List, [], ◌∷◌, ◌++◌, map,
  append_assoc, append-nil, arith, ltb, leb, ◌==◌, within, if◌then◌else◌, ltb→lt, lt→ltb, leb→le,
  ==_iff, Bool-cases, Option-cases, Bytes, codes, text_eq, text_eq_iff, is_empty, contains,
  has_prefix, length, take, drop, length-append, take-append, drop-append, All, All-append,
  All-mono, get_elem?, All-get_elem?, Listed,
}
use repotraverse.Catalog.Tables.{WorkItem, Queue, Fact, is_completed, update_where, has_id}
use repotraverse.Catalog.Facts.{
  CacheLimits, delete_oldest, is_oldest, evict, has_fact, lacks_fact, rescheduled, is_pending_id,
  unpublish, stored_rows, store_fact, stored_facts, stored_item,
}

-- What is deleted and what stays is all that there was.
delete_oldest-length :
    (facts fs : List Fact)
    → length (delete_oldest facts fs).0 + (delete_oldest facts fs).1.0 ≡ length fs
unfolding delete_oldest
delete_oldest-length facts [] = omega arith
delete_oldest-length facts (f ∷ fs) =
    let rest = delete_oldest-length facts fs in
    elim (Bool-cases (is_oldest facts f)) [
      | inl e ↦ rw e (omega (arith, rest))
      | inr e ↦ rw e (omega (arith, rest))
    ]

-- One round for every fact is enough for the loop: more rounds change nothing.
evict-enough :
    (fuel : ℕ) (limits : CacheLimits) (count bytes : ℕ) (facts : List Fact)
    → length facts < fuel
    → evict (suc fuel) limits count bytes facts ≡ evict fuel limits count bytes facts
unfolding evict
evict-enough zero limits count bytes facts h = absurd (omega arith)
evict-enough (suc fuel) limits count bytes facts h =
    let all = delete_oldest-length facts facts in
    elim (Bool-cases ((delete_oldest facts facts).1.0 == 0)) [
      | inl e ↦ rw e refl
      | inr e ↦
          let less : length (delete_oldest facts facts).0 < fuel = ground arith in
          rw (evict-enough fuel limits _ _ (delete_oldest facts facts).0 less) refl
    ]

-- Completed work has its fact.
abbrev pub HasResult : List Fact → WorkItem → Type 0
HasResult facts w = is_completed w.state ≡ true → has_fact w.work_id facts ≡ true

rescheduled-HasResult :
    (facts : List Fact) (ws : List WorkItem)
    → All (HasResult facts) (update_where (lacks_fact facts) rescheduled ws)
unfolding update_where
rescheduled-HasResult facts [] = tt
rescheduled-HasResult facts (w ∷ ws) =
    let rest = rescheduled-HasResult facts ws in
    elim (Bool-cases (lacks_fact facts w)) [
      | inl e ↦ rw e ((λ c. unfold rescheduled in absurd (ground arith)), rest)
      | inr e ↦ rw e ((λ c. ground arith), rest)
    ]

unpublish-All :
    (items : List WorkItem) (ids : List Bytes)
    → All (λ id. is_pending_id id items ≡ false) (unpublish items ids)
unfolding unpublish
unpublish-All items [] = tt
unpublish-All items (id ∷ ids) =
    let rest = unpublish-All items ids in
    elim (Bool-cases (is_pending_id id items)) [ inl e ↦ rw e rest | inr e ↦ rw e (e, rest) ]

given : (x y : Queue) → some x ≡ some y → x ≡ y
given x y e = cc

-- After a store_fact whose fact can be read, every item that is completed, of whatever kind, has a fact,
-- and no item that is pending counts as published.
pub store_fact-HasResult :
    (now : ℕ) (limits : CacheLimits) (id task : Bytes) (size : ℕ) (q t : Queue)
    → store_fact now limits id task size true q ≡ some t
    → All (HasResult t.facts) t.items × All (λ i. is_pending_id i t.items ≡ false) t.published
unfolding store_fact stored_rows
store_fact-HasResult now limits id task size q t e =
    subst
      (λ (x : Queue).
        All (HasResult x.facts) x.items × All (λ i. is_pending_id i x.items ≡ false) x.published)
      (given _ t e) (rescheduled-HasResult _ _, unpublish-All _ q.published)
