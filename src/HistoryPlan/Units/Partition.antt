-- ===== src/HistoryPlan/Units/Partition.antt =====
-- The units of a plan are the commits of the history, in order, cut into runs of one pull request.
use repotraverse.Prelude.{
  ◌≡◌, refl, sym, ap, ◌∙◌, subst, ◌≢◌, ◌⊎◌, inl, inr, Option, none, some, List, [], ◌∷◌, ◌++◌, map,
  append_assoc, append-nil, Bytes, length, All, All-append,
}
use repotraverse.HistoryPlan.Records.{ChangedPath, CommitRecord}
use repotraverse.HistoryPlan.Units.{
  Settings, Pending, IntegrationUnit, PlanState, write_unit, with_net, open_unit, extend_unit,
  exact_pr, plan_units,
}
use repotraverse.HistoryPlan.Units.Rounds.{
  counted, Round, first, goes_on, another, Flushed, idle, wrote, plan_units-inv,
}

abbrev pub commit_ids : {Time : Type 0} → List (CommitRecord Time) → List Bytes
commit_ids = map λ c. c.commit

module _ {Time Match : Type 0} where
  abbrev pub unit_commits : List (IntegrationUnit Time Match) → List Bytes
  unit_commits [] = []
  unit_commits (u ∷ us) = u.unit.commits ++ unit_commits us

  abbrev pending_commits : Option (Pending Time Match) → List Bytes
  pending_commits none = []
  pending_commits (some p) = p.commits

  unit_commits-append :
      (us vs : List (IntegrationUnit Time Match))
      → unit_commits (us ++ vs) ≡ unit_commits us ++ unit_commits vs
  unit_commits-append [] vs = refl
  unit_commits-append (u ∷ us) vs =
      ap (λ r. u.unit.commits ++ r) (unit_commits-append us vs)
      ∙ sym (append_assoc u.unit.commits (unit_commits us) (unit_commits vs))

module _ {Time Match : Type 0} (o : Settings Time Match) where
  -- All commits so far, written or pending.
  seen : PlanState Time Match → List Bytes
  seen s = unit_commits s.output ++ pending_commits s.pending

  seen-open_unit :
      (c : CommitRecord Time) (s : PlanState Time Match)
      → seen (open_unit o c s) ≡ unit_commits s.output ++ c.commit ∷ []
  unfolding seen open_unit
  seen-open_unit c s = refl

  written :
      (p : Pending Time Match) (changes : List ChangedPath) (s : PlanState Time Match)
      → s.pending ≡ some p
      → unit_commits (write_unit o p changes s).output ≡ seen s
  unfolding seen write_unit with_net
  written p changes s e = rw (unit_commits-append, e, append-nil)

  seen-Round :
      (c : CommitRecord Time) (s t : PlanState Time Match)
      → Round o c s t
      → seen t ≡ seen s ++ c.commit ∷ []
  seen-Round c s t (first e f) =
      rw f (seen-open_unit c (counted o c s) ∙ (unfold seen in rw (e, append-nil)))
  seen-Round c s t (goes_on p e ne same f) = rw f (
      unfold seen extend_unit in
      rw e (sym (append_assoc (unit_commits s.output) p.commits (c.commit ∷ []))))
  seen-Round c s t (another p changes e g f) = rw f (
      seen-open_unit c (write_unit o p changes (counted o c s))
      ∙ ap (λ x. x ++ c.commit ∷ []) (written p changes (counted o c s) e ∙ (unfold seen in refl)))

  commit_ids-snoc :
      (done : List (CommitRecord Time)) (c : CommitRecord Time)
      → commit_ids (done ++ c ∷ []) ≡ commit_ids done ++ c.commit ∷ []
  commit_ids-snoc [] c = refl
  commit_ids-snoc (d ∷ done) c = ap (λ r. d.commit ∷ r) (commit_ids-snoc done c)

  seen-write_unit :
      (p : Pending Time Match) (changes : List ChangedPath) (s : PlanState Time Match)
      → seen (write_unit o p changes s) ≡ unit_commits (write_unit o p changes s).output
  unfolding seen write_unit
  seen-write_unit p changes s = append-nil _

  seen-Flushed : (s t : PlanState Time Match) → Flushed o s t → seen t ≡ seen s
  seen-Flushed s t (idle e f) = rw f
  seen-Flushed s t (wrote p changes e g f) =
      rw f (seen-write_unit p changes s ∙ written p changes s e)

  seen-idle : (t : PlanState Time Match) → t.pending ≡ none → unit_commits t.output ≡ seen t
  unfolding seen
  seen-idle t e = rw e (sym (append-nil _))

  -- All commits of a unit have the one match that names it, or it is a single commit.
  abbrev IsRun : Bytes → List Bytes → Type 0
  IsRun key commits = All (λ c. exact_pr o c ≡ key) commits × ((key ≢ []) ⊎ (length commits ≡ 1))

  abbrev pub IsUniform : IntegrationUnit Time Match → Type 0
  IsUniform u = (key : Bytes) × IsRun key u.unit.commits

  abbrev PendingRun : Bytes → Option (Pending Time Match) → Type 0
  PendingRun key none = Unit
  PendingRun key (some p) = IsRun key p.commits

  Runs : PlanState Time Match → Type 0
  Runs s = All IsUniform s.output × PendingRun s.pending_pr s.pending

  Runs-pending :
      (p : Pending Time Match) (s : PlanState Time Match)
      → s.pending ≡ some p
      → Runs s
      → IsRun s.pending_pr p.commits
  unfolding Runs
  Runs-pending p s e r = subst (PendingRun s.pending_pr) e r.1

  Runs-write_unit :
      (p : Pending Time Match) (changes : List ChangedPath) (s : PlanState Time Match)
      → s.pending ≡ some p
      → Runs s
      → All IsUniform (write_unit o p changes s).output
  unfolding write_unit with_net
  Runs-write_unit p changes s e r =
      All-append IsUniform s.output _ (unfold Runs in r.0)
        ((s.pending_pr, Runs-pending p s e r), tt)

  Runs-open_unit :
      (c : CommitRecord Time) (s : PlanState Time Match)
      → All IsUniform s.output
      → Runs (open_unit o c s)
  unfolding Runs open_unit
  Runs-open_unit c s h = (h, ((refl, tt), inr refl))

  Runs-Round :
      (c : CommitRecord Time) (s t : PlanState Time Match) → Round o c s t → Runs s → Runs t
  Runs-Round c s t (first e f) r = rw f (Runs-open_unit c (counted o c s) (unfold Runs in r.0))
  Runs-Round c s t (goes_on p e ne same f) r =
      let (keys, _) = Runs-pending p s e r in
      rw f (
        unfold Runs extend_unit in
        (
          r.0,
          (
            All-append (λ x. exact_pr o x ≡ s.pending_pr) p.commits _ keys (sym same, tt),
            inl (λ z. ne (sym same ∙ z)),
          ),
        ))
  Runs-Round c s t (another p changes e g f) r =
      rw f (Runs-open_unit c _ (Runs-write_unit p changes (counted o c s) e (unfold Runs in r)))

  Runs-Flushed :
      (s t : PlanState Time Match)
      → Flushed o s t
      → Runs s
      → All IsUniform t.output × (t.pending ≡ none)
  Runs-Flushed s t (idle e f) r = rw f ((unfold Runs in r.0), e)
  Runs-Flushed s t (wrote p changes e g f) r =
      rw f (Runs-write_unit p changes s e r, (unfold write_unit in refl))

  -- If a plan is made, its units hold the commits of the history in order, each once, and the
  -- commits of a unit of several all have exactly one match, of one same identity.
  pub plan_units_partition :
      (cs : List (CommitRecord Time)) (t : PlanState Time Match)
      → plan_units o cs ≡ some t
      → (unit_commits t.output ≡ commit_ids cs) × All IsUniform t.output
  plan_units_partition cs t h =
      plan_units-inv o (λ done s. (seen s ≡ commit_ids done) × Runs s)
        (λ done t. (unit_commits t.output ≡ commit_ids done) × All IsUniform t.output)
        (λ done c s t r (k, runs). (
          seen-Round c s t r ∙ ap (λ x. x ++ c.commit ∷ []) k ∙ sym (commit_ids-snoc done c),
          Runs-Round c s t r runs,
        ))
        (λ done s t r (k, runs).
          let (uniform, idle_now) = Runs-Flushed s t r runs in
          (seen-idle t idle_now ∙ seen-Flushed s t r ∙ k, uniform))
        cs t (unfold seen Runs in (refl, (tt, tt))) h
