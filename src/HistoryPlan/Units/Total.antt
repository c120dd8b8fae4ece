-- ===== src/HistoryPlan/Units/Total.antt =====
-- A plan fails only where Git does, and leaves no commit out.
use repotraverse.Prelude.{
  ◌≡◌, refl, inl, inr, ◌&&◌, not, Option, none, some, List, [], ◌∷◌, Bool-cases, Bytes, text_eq,
  is_empty,
}
use repotraverse.HistoryPlan.Records.{ChangedPath, CommitRecord}
use repotraverse.HistoryPlan.Units.{
  Settings, Pending, PlanState, flush, flush_pending, write_unit, open_unit, place, consume,
  consume_all, exact_pr, plan_units, start, ◌>>=◌,
}
use repotraverse.HistoryPlan.Units.Partition.{unit_commits, commit_ids, plan_units_partition}

module _ {Time Match : Type 0} (o : Settings Time Match) where
  -- Every net diff can be made.
  abbrev pub NetTotal : Type 0
  NetTotal = (base head : Bytes) → (changes : List ChangedPath) × (o.net base head ≡ some changes)

  module _ (net : NetTotal) where
    abbrev Returns : Option (PlanState Time Match) → Type 0
    Returns r = (t : PlanState Time Match) × (r ≡ some t)

    then-Returns :
        (m : Option (PlanState Time Match))
        (f : PlanState Time Match → Option (PlanState Time Match))
        → Returns m
        → ((t : PlanState Time Match) → Returns (f t))
        → Returns (m >>= f)
    then-Returns none f (t, e) h = absurd (cc)
    then-Returns (some t) f r h = h t

    flush_pending-Returns :
        (p : Option (Pending Time Match)) (s : PlanState Time Match) → Returns (flush_pending o p s)
    unfolding flush_pending
    flush_pending-Returns none s = (s, refl)
    flush_pending-Returns (some p) s =
        let (changes, e) = net p.base_commit p.head_commit in (write_unit o p changes s, rw e)

    flush-Returns : (s : PlanState Time Match) → Returns (flush o s)
    unfolding flush
    flush-Returns s = flush_pending-Returns s.pending s

    place-Returns :
        (p : Option (Pending Time Match)) (c : CommitRecord Time) (s : PlanState Time Match)
        → Returns (place o p c s)
    unfolding place
    place-Returns none c s = (open_unit o c s, refl)
    place-Returns (some p) c s =
        elim (Bool-cases
          (not (is_empty (exact_pr o c.commit)) && text_eq s.pending_pr (exact_pr o c.commit))) [
            | inl e ↦ rw e (_, refl)
            | inr e ↦ rw e (then-Returns _ _ (flush-Returns s) (λ t. (open_unit o c t, refl)))
          ]

    consume_all-Returns :
        (cs : List (CommitRecord Time)) (s : PlanState Time Match) → Returns (consume_all o cs s)
    unfolding consume_all consume
    consume_all-Returns [] s = (s, refl)
    consume_all-Returns (c ∷ cs) s =
        then-Returns _ _ (place-Returns s.pending c _) (λ t. consume_all-Returns cs t)

    plan_units-Returns : (cs : List (CommitRecord Time)) → Returns (plan_units o cs)
    unfolding plan_units
    plan_units-Returns cs = then-Returns _ _ (consume_all-Returns cs (start o)) flush-Returns

    -- If every net diff can be made, there is a plan for every history, and its units hold the commits of
    -- the history in order, each once.
    pub plan_units_total :
        (cs : List (CommitRecord Time))
        → (t : PlanState Time Match) × (plan_units o cs ≡ some t)
          × (unit_commits t.output ≡ commit_ids cs)
    plan_units_total cs =
        let (t, e) = plan_units-Returns cs in (t, e, (plan_units_partition o cs t e).0)
