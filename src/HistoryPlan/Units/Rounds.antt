-- ===== src/HistoryPlan/Units/Rounds.antt =====
-- The three things that a commit does to the state of a plan, and what an invariant of them gives.
use repotraverse.Prelude.{
  ◌≡◌, subst, ◌≢◌, inl, inr, false, ◌&&◌, not, none, some, List, [], ◌∷◌, ◌++◌, append_assoc,
  append-nil, arith, Bool-cases, Option-cases, Bytes, text_eq, text_eq_iff, is_empty,
}
use repotraverse.HistoryPlan.Records.{ChangedPath, CommitRecord}
use repotraverse.HistoryPlan.Units.{
  Settings, Pending, PlanState, flush, flush_pending, write_unit, open_unit, extend_unit, place,
  consume, consume_all, count_commit, exact_pr, plan_units, start,
}

module _ {Time Match : Type 0} (o : Settings Time Match) where
  -- The state with the commit counted.
  abbrev pub counted : CommitRecord Time → PlanState Time Match → PlanState Time Match
  counted c s = record s { totals = count_commit o c s.totals }

  -- A commit opens the first unit, goes on with the pending one, or ends that and opens another.
  pub data Round (c : CommitRecord Time) (s t : PlanState Time Match) : Type 0 where
    first : s.pending ≡ none → t ≡ open_unit o c (counted c s) → Round c s t
    goes_on :
        (p : Pending Time Match)
        → s.pending ≡ some p
        → exact_pr o c.commit ≢ []
        → s.pending_pr ≡ exact_pr o c.commit
        → t ≡ record (counted c s) { pending = some (extend_unit o c p) }
        → Round c s t
    another :
        (p : Pending Time Match) (changes : List ChangedPath)
        → s.pending ≡ some p
        → o.net p.base_commit p.head_commit ≡ some changes
        → t ≡ open_unit o c (write_unit o p changes (counted c s))
        → Round c s t

  is_empty-ne : (s : Bytes) → is_empty s ≡ false → s ≢ []
  unfolding is_empty
  is_empty-ne [] h = cc
  is_empty-ne (c ∷ s) h = λ e. ground arith

  place-some :
      (p : Pending Time Match) (c : CommitRecord Time) (s t : PlanState Time Match)
      → s.pending ≡ some p
      → place o (some p) c (counted c s) ≡ some t
      → Round c s t
  unfolding place flush flush_pending
  place-some p c s t e h =
      elim (Bool-cases
        (not (is_empty (exact_pr o c.commit)) && text_eq s.pending_pr (exact_pr o c.commit))) [
          | inl y ↦
              goes_on p e (is_empty-ne _ (ground arith)) ((text_eq_iff _ _).0 (ground arith))
                (ground arith)
          | inr n ↦ elim (Option-cases (o.net p.base_commit p.head_commit)) [
            | inl f ↦ absurd (ground arith)
            | inr (changes, f) ↦ another p changes e f (ground arith)
          ]
        ]

  pub consume-Round :
      (c : CommitRecord Time) (s t : PlanState Time Match) → consume o c s ≡ some t → Round c s t
  consume-Round c s t h = elim (Option-cases s.pending) [
    | inl e ↦ first e (unfold consume place in ground arith)
    | inr (p, e) ↦ place-some p c s t e (unfold consume in ground arith)
  ]

  -- What `flush` does, at the end of a plan.
  pub data Flushed (s t : PlanState Time Match) : Type 0 where
    idle : s.pending ≡ none → t ≡ s → Flushed s t
    wrote :
        (p : Pending Time Match) (changes : List ChangedPath)
        → s.pending ≡ some p
        → o.net p.base_commit p.head_commit ≡ some changes
        → t ≡ write_unit o p changes s
        → Flushed s t

  pub flush-Flushed : (s t : PlanState Time Match) → flush o s ≡ some t → Flushed s t
  unfolding flush flush_pending
  flush-Flushed s t h = elim (Option-cases s.pending) [
    | inl e ↦ idle e (ground arith)
    | inr (p, e) ↦ elim (Option-cases (o.net p.base_commit p.head_commit)) [
      | inl f ↦ absurd (ground arith)
      | inr (changes, f) ↦ wrote p changes e f (ground arith)
    ]
  ]

  module _ (P Q : List (CommitRecord Time) → PlanState Time Match → Type 0)
      (round : (done : List (CommitRecord Time)) (c : CommitRecord Time)
          (s t : PlanState Time Match)
        → Round c s t
        → P done s
        → P (done ++ c ∷ []) t)
      (end : (done : List (CommitRecord Time)) (s t : PlanState Time Match)
        → Flushed s t
        → P done s
        → Q done t) where
    rounds :
        (done cs : List (CommitRecord Time)) (s t : PlanState Time Match)
        → consume_all o cs s ≡ some t
        → P done s
        → P (done ++ cs) t
    unfolding consume_all
    rounds done [] s t h p = rw (append-nil done) (let e : s ≡ t = cc in subst (P done) e p)
    rounds done (c ∷ cs) s t h p = elim (Option-cases (consume o c s)) [
      | inl e ↦ absurd (ground arith)
      | inr (u, e) ↦
          let rest : consume_all o cs u ≡ some t = ground arith in
          subst (λ xs. P xs t) (append_assoc done (c ∷ []) cs)
            (rounds (done ++ c ∷ []) cs u t rest (round done c s u (consume-Round c s u e) p))
    ]

    -- An invariant of the rounds, which the last flush turns into the result, gives it for every plan.
    pub plan_units-inv :
        (cs : List (CommitRecord Time)) (t : PlanState Time Match)
        → P [] (start o)
        → plan_units o cs ≡ some t
        → Q cs t
    unfolding plan_units
    plan_units-inv cs t p h = elim (Option-cases (consume_all o cs (start o))) [
      | inl e ↦ absurd (ground arith)
      | inr (s, e) ↦ end cs s t (flush-Flushed s t (ground arith)) (rounds [] cs (start o) s e p)
    ]
