-- ===== src/HistoryPlan/Units/Counts.antt =====
-- The totals of a plan, and when there is one.
use repotraverse.Prelude.{
  ℕ, suc, ◌+◌, ◌≡◌, refl, sym, ◌∙◌, subst, inl, inr, Bool, true, false, Option, some, List, [], ◌∷◌,
  ◌++◌, arith, Bool-cases, length, length-append,
}
use repotraverse.HistoryPlan.Records.{ChangedPath, CommitRecord}
use repotraverse.HistoryPlan.Units.{
  Settings, Pending, IntegrationUnit, PlanState, Totals, write_unit, open_unit, count_commit,
  count_matches, all_compound, plan_units,
}
use repotraverse.HistoryPlan.Units.Rounds.{
  counted, Round, first, goes_on, another, Flushed, idle, wrote, plan_units-inv,
}

-- The commits of each kind of association.
abbrev pub by_association : Totals → ℕ
by_association t =
    t.identified_commits + t.ambiguous_commits + t.compound_commits + t.no_pr_commits
    + t.unknown_commits

module _ {Time Match : Type 0} where
  -- The sequence numbers go up by one from `n`.
  abbrev pub Numbered : ℕ → List (IntegrationUnit Time Match) → Type 0
  Numbered n [] = Unit
  Numbered n (u ∷ us) = (u.sequence ≡ n) × Numbered (suc n) us

  abbrev pub net_paths : List (IntegrationUnit Time Match) → ℕ
  net_paths [] = 0
  net_paths (u ∷ us) = u.net_changed_path_count + net_paths us

  Numbered-snoc :
      (n m : ℕ) (us : List (IntegrationUnit Time Match)) (u : IntegrationUnit Time Match)
      → Numbered n us
      → m ≡ n + length us
      → u.sequence ≡ m
      → Numbered n (us ++ u ∷ [])
  Numbered-snoc n m [] u h e k = (omega arith, tt)
  Numbered-snoc n m (v ∷ us) u h e k = (h.0, Numbered-snoc (suc n) m us u h.1 (omega arith) k)

  net_paths-append :
      (us vs : List (IntegrationUnit Time Match))
      → net_paths (us ++ vs) ≡ net_paths us + net_paths vs
  net_paths-append [] vs = omega arith
  net_paths-append (u ∷ us) vs = omega (arith, net_paths-append us vs)

  -- The totals tell of the commits `n` and of the units that were written.
  pub record Tallies (n : ℕ) (s : PlanState Time Match) : Type 0 where
    pub all_commits : s.totals.commits ≡ n
    pub one_kind_each : by_association s.totals ≡ n
    pub all_units : s.totals.units ≡ length s.output
    pub all_paths : s.totals.net_changed_paths ≡ net_paths s.output
    pub numbered : Numbered 0 s.output

module _ {Time Match : Type 0} (o : Settings Time Match) where
  count_matches_lem :
      (ms : List Match) (b : Bool) (t : Totals)
      → let u = count_matches o ms b t in
        (by_association u ≡ by_association t + 1)
        × (u.commits ≡ t.commits)
        × (u.units ≡ t.units)
        × (u.net_changed_paths ≡ t.net_changed_paths)
  unfolding count_matches
  count_matches_lem [] true t = (omega arith, refl, refl, refl)
  count_matches_lem (m ∷ []) true t = (omega arith, refl, refl, refl)
  count_matches_lem (m ∷ n ∷ rest) true t = (omega arith, refl, refl, refl)
  count_matches_lem [] false t = (omega arith, refl, refl, refl)
  count_matches_lem (m ∷ []) false t = (omega arith, refl, refl, refl)
  count_matches_lem (m ∷ n ∷ rest) false t = elim (Bool-cases (all_compound o (m ∷ n ∷ rest))) [
    | inl e ↦ rw e (omega arith, refl, refl, refl)
    | inr e ↦ rw e (omega arith, refl, refl, refl)
  ]

  counted-Tallies :
      (n : ℕ) (c : CommitRecord Time) (s : PlanState Time Match)
      → Tallies n s
      → Tallies (n + 1) (counted o c s)
  unfolding count_commit
  counted-Tallies n c s v =
      let (a, b, d, e) =
        count_matches_lem (o.matches c.commit) (o.confirmed_no_pr c.commit) (record s.totals {
          commits = s.totals.commits + 1;
          resolved_head = c.commit;
          commit_path_records = s.totals.commit_path_records + length c.changes;
        }) in
      record {
        all_commits = omega arith;
        one_kind_each = omega arith;
        all_units = d ∙ v.all_units;
        all_paths = e ∙ v.all_paths;
        numbered = v.numbered;
      }

  write_unit-Tallies :
      (n : ℕ) (p : Pending Time Match) (changes : List ChangedPath) (s : PlanState Time Match)
      → Tallies n s
      → Tallies n (write_unit o p changes s)
  unfolding write_unit
  write_unit-Tallies n p changes s v = record {
    all_commits = v.all_commits;
    one_kind_each = v.one_kind_each;
    all_units = omega (arith, v.all_units, length-append {0} s.output);
    all_paths = omega (arith, v.all_paths, net_paths-append s.output);
    numbered =
        Numbered-snoc 0 s.totals.units s.output _ v.numbered (omega (arith, v.all_units)) refl;
  }

  open_unit-Tallies :
      (n : ℕ) (c : CommitRecord Time) (s : PlanState Time Match)
      → Tallies n s
      → Tallies n (open_unit o c s)
  unfolding open_unit
  open_unit-Tallies n c s v = record {
    all_commits = v.all_commits;
    one_kind_each = v.one_kind_each;
    all_units = v.all_units;
    all_paths = v.all_paths;
    numbered = v.numbered;
  }

  with_pending :
      (n : ℕ) (s : PlanState Time Match) (p : Option (Pending Time Match))
      → Tallies n s
      → Tallies n (record s { pending = p })
  with_pending n s p v = record {
    all_commits = v.all_commits;
    one_kind_each = v.one_kind_each;
    all_units = v.all_units;
    all_paths = v.all_paths;
    numbered = v.numbered;
  }

  Round-Tallies :
      (n : ℕ) (c : CommitRecord Time) (s t : PlanState Time Match)
      → Round o c s t
      → Tallies n s
      → Tallies (n + 1) t
  Round-Tallies n c s t (first e f) v = rw f (open_unit-Tallies _ c _ (counted-Tallies n c s v))
  Round-Tallies n c s t (goes_on p e ne same f) v =
      rw f (with_pending _ (counted o c s) _ (counted-Tallies n c s v))
  Round-Tallies n c s t (another p changes e g f) v =
      rw f (open_unit-Tallies _ c _ (write_unit-Tallies _ p changes _ (counted-Tallies n c s v)))

  Flushed-Tallies : (n : ℕ) (s t : PlanState Time Match) → Flushed o s t → Tallies n s → Tallies n t
  Flushed-Tallies n s t (idle e f) v = rw f v
  Flushed-Tallies n s t (wrote p changes e g f) v = rw f (write_unit-Tallies n p changes s v)

  -- If a plan is made, its totals count its commits, each under one kind of association, its units
  -- and their net changes, and the units are numbered from 0.
  pub plan_units-Tallies :
      (cs : List (CommitRecord Time)) (t : PlanState Time Match)
      → plan_units o cs ≡ some t
      → Tallies (length cs) t
  plan_units-Tallies cs t h =
      plan_units-inv o (λ done s. Tallies (length done) s) (λ done s. Tallies (length done) s)
        (λ done c s t r v.
          subst (λ n. Tallies n t) (sym (length-append done (c ∷ [])))
            (Round-Tallies (length done) c s t r v))
        (λ done s t r v. Flushed-Tallies (length done) s t r v) cs t
        (record {
          all_commits = refl;
          one_kind_each = refl;
          all_units = refl;
          all_paths = refl;
          numbered = tt;
        })
        h
