-- ===== src/Catalog/Retries.antt =====
-- src/catalog.cpp: work that fails.
use repotraverse.Prelude.{
  ℕ, zero, suc, ◌+◌, ◌^◌, ◌≤◌, ◌<◌, ◌≡◌, refl, ap, subst, ◌↔◌, inl, inr, Bool, true, false, some,
  List, [], ◌∷◌, arith, leb, leb→le, Bool-cases, Bytes, text_eq, text_eq_iff,
}
use repotraverse.Catalog.Tables.{
  failed, WorkItem, Queue, is_waiting, update_where, any_item, has_id, find_item,
}
use repotraverse.Catalog.Work.{backoff, owns, failed_state, failed_item, fail_work}
use repotraverse.Catalog.Life.{RunsFor}

small_power : (n : ℕ) → n ≤ 8 → (1 ≤ 2 ^ n) × (2 ^ n ≤ 256)
small_power zero h = (omega arith, omega arith)
small_power (suc zero) h = (omega arith, omega arith)
small_power (suc (suc zero)) h = (omega arith, omega arith)
small_power (suc (suc (suc zero))) h = (omega arith, omega arith)
small_power (suc (suc (suc (suc zero)))) h = (omega arith, omega arith)
small_power (suc (suc (suc (suc (suc zero))))) h = (omega arith, omega arith)
small_power (suc (suc (suc (suc (suc (suc zero)))))) h = (omega arith, omega arith)
small_power (suc (suc (suc (suc (suc (suc (suc zero))))))) h = (omega arith, omega arith)
small_power (suc (suc (suc (suc (suc (suc (suc (suc zero)))))))) h = (omega arith, omega arith)
small_power (suc (suc (suc (suc (suc (suc (suc (suc (suc n))))))))) h = absurd (omega arith)

backoff_bounds : (n : ℕ) → (1 ≤ backoff n) × (backoff n ≤ 256)
unfolding backoff
backoff_bounds n = elim (Bool-cases (leb n 8)) [
  | inl e ↦
      let (low, high) = small_power n (leb→le n 8 e) in
      let within_cap : leb (2 ^ n) 300 ≡ true = ground arith in rw (e, within_cap) (low, high)
  | inr e ↦ rw e (omega arith, omega arith)
]

find_item-update_where :
    (id : Bytes) (test : WorkItem → Bool) (change : WorkItem → WorkItem) (ws : List WorkItem)
    (v : WorkItem)
    → ((w : WorkItem) → (change w).work_id ≡ w.work_id)
    → find_item id ws ≡ some v
    → test v ≡ true
    → find_item id (update_where test change ws) ≡ some (change v)
unfolding find_item update_where
find_item-update_where id test change [] v same f t = cc
find_item-update_where id test change (w ∷ ws) v same f t =
    elim (Bool-cases (text_eq w.work_id id)) [
      | inl e ↦
          let at : w ≡ v = ground arith in
          let yes : test w ≡ true = rw at t in
          let named : text_eq (change w).work_id id ≡ true = rw (same w) e in
          rw (yes, named) (ap (λ x. some (change x)) at)
      | inr e ↦
          let rest = find_item-update_where id test change ws v same (ground arith) t in
          elim (Bool-cases (test w)) [
            | inl k ↦
                let other : text_eq (change w).work_id id ≡ false = rw (same w) e in
                rw (k, other) rest
            | inr k ↦ rw (k, e) rest
          ]
    ]

found_any :
    (id : Bytes) (test : WorkItem → Bool) (ws : List WorkItem) (v : WorkItem)
    → find_item id ws ≡ some v
    → test v ≡ true
    → any_item test ws ≡ true
unfolding find_item any_item
found_any id test [] v f t = cc
found_any id test (w ∷ ws) v f t = elim (Bool-cases (text_eq w.work_id id)) [
  | inl e ↦ let at : w ≡ v = ground arith in let yes : test w ≡ true = rw at t in rw yes refl
  | inr e ↦ let rest = found_any id test ws v (ground arith) t in ground arith
]

find_item-id :
    (id : Bytes) (ws : List WorkItem) (v : WorkItem) → find_item id ws ≡ some v → has_id id v ≡ true
unfolding find_item
find_item-id id [] v f = cc
find_item-id id (w ∷ ws) v f = elim (Bool-cases (text_eq w.work_id id)) [
  | inl e ↦ let at : w ≡ v = ground arith in subst (λ x. has_id id x ≡ true) at e
  | inr e ↦ find_item-id id ws v (ground arith)
]

-- An attempt is counted, and the next is 1 to 256 seconds later, if there is one.
pub record IsCounted (now maximum : ℕ) (v w : WorkItem) : Type 0 where
  pub counts : w.attempt_count ≡ v.attempt_count + 1
  pub later : now < w.next_attempt_at
  pub soon : w.next_attempt_at ≤ now + 256
  pub set_free : w.owner ≡ []
  pub goes_on :
      (is_waiting w.state ≡ true)
      ↔ ((v.cancellation_requested ≡ false) × (v.attempt_count + 1 < maximum))
  pub stops :
      (w.state ≡ failed) ↔ ((v.cancellation_requested ≡ false) × (maximum ≤ v.attempt_count + 1))

failed_item-IsCounted :
    (now : ℕ) (fingerprint : Bytes) (maximum : ℕ) (v : WorkItem)
    → IsCounted now maximum v (failed_item now fingerprint maximum v)
unfolding failed_item failed_state
failed_item-IsCounted now fingerprint maximum v =
    let (low, high) = backoff_bounds v.attempt_count in
    record {
      counts = refl;
      later = omega (arith, low);
      soon = omega (arith, high);
      set_free = refl;
      goes_on = ((λ h. (ground arith, ground arith)), (λ (h, k). ground arith));
      stops = ((λ h. (ground arith, ground arith)), (λ (h, k). ground arith));
    }

-- fail_work of an item that runs for the caller answers the row as it then is: one attempt more, the next
-- one after at least 1 and at most 256 seconds, no owner; it waits for that exactly if its cancellation
-- was not asked for and the attempts are below the maximum, and it has failed exactly if its
-- cancellation was not asked for and they are not.
pub fail_work-IsCounted :
    (now : ℕ) (id owner fingerprint : Bytes) (maximum : ℕ) (q : Queue) (v : WorkItem)
    → find_item id q.items ≡ some v
    → RunsFor owner v
    → (w : WorkItem) × ((fail_work now id owner fingerprint maximum q).1 ≡ some w)
      × (find_item id (fail_work now id owner fingerprint maximum q).0.items ≡ some w)
      × IsCounted now maximum v w
unfolding fail_work
fail_work-IsCounted now id owner fingerprint maximum q v f k =
    let named = find_item-id id q.items v f in
    let own = (text_eq_iff v.owner owner).1 k.owned in
    let running_now = k.runs in
    let yes : owns id owner v ≡ true = ground arith in
    let there =
      find_item-update_where id (owns id owner) (failed_item now fingerprint maximum) q.items v
        (λ w. unfold failed_item in refl) f yes in
    let some_row = found_any id (owns id owner) q.items v f yes in
    (
      failed_item now fingerprint maximum v,
      rw (some_row, there) refl,
      there,
      failed_item-IsCounted now fingerprint maximum v,
    )
