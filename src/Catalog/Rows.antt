-- ===== src/Catalog/Rows.antt =====
-- What an update leaves of the rows of work_items.
use repotraverse.Prelude.{
  ℕ, ◌+◌, ◌≤◌, ◌<◌, ◌≡◌, refl, sym, ap, subst, ◌≢◌, inl, inr, Bool, true, false, ◌||◌, none, some,
  List, [], ◌∷◌, ◌++◌, arith, leb, leb→le, Bool-cases, Bytes, text_eq, text_eq_iff, All,
}
use repotraverse.Catalog.Tables.{
  WorkItem, is_running, update_where, any_item, has_id, count_running, one_running, max_sequence,
}

-- What no update changes.
abbrev pub key : WorkItem → Bytes × ℕ
key w = (w.work_id, w.fifo_sequence)

abbrev pub keys : List WorkItem → List (Bytes × ℕ)
keys [] = []
keys (w ∷ ws) = key w ∷ keys ws

abbrev pub has_key : Bytes → List (Bytes × ℕ) → Bool
has_key id [] = false
has_key id ((k, n) ∷ ks) = text_eq k id || has_key id ks

pub any_item-has_id :
    (id : Bytes) (ws : List WorkItem) → any_item (has_id id) ws ≡ has_key id (keys ws)
unfolding any_item
any_item-has_id id [] = refl
any_item-has_id id (w ∷ ws) = rw (any_item-has_id id ws)

pub keys-update_where :
    (test : WorkItem → Bool) (change : WorkItem → WorkItem) (ws : List WorkItem)
    → ((w : WorkItem) → key (change w) ≡ key w)
    → keys (update_where test change ws) ≡ keys ws
unfolding update_where
keys-update_where test change [] same = refl
keys-update_where test change (w ∷ ws) same = elim (Bool-cases (test w)) [
  | inl e ↦ rw (e, same w, keys-update_where test change ws same)
  | inr e ↦ rw (e, keys-update_where test change ws same)
]

-- An update that sets no row running.
pub count_running-update_where :
    (test : WorkItem → Bool) (change : WorkItem → WorkItem) (ws : List WorkItem)
    → ((w : WorkItem)
        → test w ≡ true
        → is_running (change w).state ≡ true
        → is_running w.state ≡ true)
    → count_running (update_where test change ws) ≤ count_running ws
unfolding update_where count_running
count_running-update_where test change [] stays = omega arith
count_running-update_where test change (w ∷ ws) stays =
    let ih = count_running-update_where test change ws stays in
    elim (Bool-cases (test w)) [
      | inr e ↦ rw e (elim (Bool-cases (is_running w.state)) [
        | inl k ↦ rw k (omega (arith, ih))
        | inr k ↦ rw k ih
      ])
      | inl e ↦ rw e (elim (Bool-cases (is_running (change w).state)) [
        | inl k ↦ let old = stays w e k in rw (k, old) (omega (arith, ih))
        | inr k ↦ rw k (elim (Bool-cases (is_running w.state)) [
          | inl j ↦ rw j (omega (arith, ih))
          | inr j ↦ rw j ih
        ])
      ])
    ]

pub one_running_lem :
    (ws vs : List WorkItem) → one_running ws ≡ some vs → (ws ≡ vs) × (count_running vs ≤ 1)
unfolding one_running
one_running_lem ws vs h = elim (Bool-cases (leb (count_running ws) 1)) [
  | inl e ↦
      let same : ws ≡ vs = ground arith in
      (same, subst (λ x. count_running x ≤ 1) same (leb→le _ _ e))
  | inr e ↦ absurd (ground arith)
]

pub one_running-none : (ws : List WorkItem) → 1 < count_running ws → one_running ws ≡ none
unfolding one_running
one_running-none ws h = ground arith

-- Ids are distinct, and the sequence ascends.
abbrev pub Ahead : Bytes × ℕ → List (Bytes × ℕ) → Type 0
Ahead (k, n) = All λ (other : Bytes × ℕ). (other.0 ≢ k) × (n < other.1)

abbrev pub IsQueued : List (Bytes × ℕ) → Type 0
IsQueued [] = Unit
IsQueued (k ∷ ks) = Ahead k ks × IsQueued ks

has_key-ne :
    (id k : Bytes) (n : ℕ) (ks : List (Bytes × ℕ)) → has_key id ((k, n) ∷ ks) ≡ false → id ≢ k
has_key-ne id k n ks h e = let yes = (text_eq_iff k id).1 (sym e) in ground arith

Ahead-append :
    (k : Bytes × ℕ) (ks : List (Bytes × ℕ)) (id : Bytes) (n : ℕ)
    → Ahead k ks
    → id ≢ k.0
    → k.1 < n
    → Ahead k (ks ++ (id, n) ∷ [])
Ahead-append k [] id n h differ less = ((differ, less), tt)
Ahead-append k (j ∷ ks) id n (h, hs) differ less = (h, Ahead-append k ks id n hs differ less)

max_sequence-bounds :
    (m : ℕ) (ws : List WorkItem) → max_sequence ws ≤ m → All (λ (k : Bytes × ℕ). k.1 ≤ m) (keys ws)
unfolding max_sequence
max_sequence-bounds m [] h = tt
max_sequence-bounds m (w ∷ ws) h = (ground arith, max_sequence-bounds m ws (ground arith))

IsQueued-append_below :
    (ks : List (Bytes × ℕ)) (id : Bytes) (m : ℕ)
    → IsQueued ks
    → All (λ (k : Bytes × ℕ). k.1 ≤ m) ks
    → has_key id ks ≡ false
    → IsQueued (ks ++ (id, m + 1) ∷ [])
IsQueued-append_below [] id m h below absent = (tt, tt)
IsQueued-append_below ((k, n) ∷ ks) id m (h, hs) (b, bs) absent = (
  Ahead-append (k, n) ks id (m + 1) h (has_key-ne id k n ks absent) (omega arith),
  IsQueued-append_below ks id m hs bs (ground arith),
)

pub IsQueued-append :
    (ws : List WorkItem) (id : Bytes)
    → IsQueued (keys ws)
    → has_key id (keys ws) ≡ false
    → IsQueued (keys ws ++ (id, max_sequence ws + 1) ∷ [])
IsQueued-append ws id h absent =
    IsQueued-append_below (keys ws) id (max_sequence ws) h (max_sequence-bounds _ ws (omega arith))
      absent

pub keys-append : (ws vs : List WorkItem) → keys (ws ++ vs) ≡ keys ws ++ keys vs
keys-append [] vs = refl
keys-append (w ∷ ws) vs = ap (λ r. key w ∷ r) (keys-append ws vs)

pub has_key-append :
    (id : Bytes) (ks js : List (Bytes × ℕ))
    → has_key id (ks ++ js) ≡ (has_key id ks || has_key id js)
has_key-append id [] js = refl
has_key-append id ((k, n) ∷ ks) js = let ih = has_key-append id ks js in ground arith

pub count_running-append :
    (ws vs : List WorkItem) → count_running (ws ++ vs) ≡ count_running ws + count_running vs
unfolding count_running
count_running-append [] vs = omega arith
count_running-append (w ∷ ws) vs = elim (Bool-cases (is_running w.state)) [
  | inl e ↦ rw e (omega (arith, count_running-append ws vs))
  | inr e ↦ rw e (count_running-append ws vs)
]
