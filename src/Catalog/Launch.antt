-- ===== src/Catalog/Launch.antt =====
-- src/catalog.cpp: the runner that new work starts, and what the work of a runner that is gone does to it.
use repotraverse.Prelude.{
  ℕ, ◌≤◌, ◌<◌, ◌≡◌, refl, sym, subst, inl, inr, Bool, true, false, ◌&&◌, ◌||◌, Option, none, some,
  List, [], ◌∷◌, arith, Bool-cases, Bytes, codes, text_eq_iff, is_empty,
}
use repotraverse.Catalog.Tables.{
  WorkItem, RunnerLease, Queue, is_dropped, any_item, has_id, count_running, drop_stale,
}
use repotraverse.Catalog.Work.{
  launch_lease, insert_lease, launch, link, can_launch, Enqueued, WorkRequest, new_item, rerun,
  add_item, link_row, enqueue_row, enqueue_work,
}
use repotraverse.Catalog.Runner.{
  no_fresh_lease, pending_launch_token, Process, may_adopt, adopted, adopt_lease, adopt_runner,
  is_runner, runnable_rows, any_compatible, propagate, claim_next_work,
}
use repotraverse.Catalog.Steps.{enqueues, adopts, or_same, step}
use repotraverse.Catalog.Rows.{count_running-append}
use repotraverse.Catalog.WellFormed.{IsWellFormed}
use repotraverse.Catalog.WellFormed.Runs.{step-IsWellFormed}
use repotraverse.Catalog.Changes.{All-of}
use repotraverse.Catalog.Changes.Enqueue.{enqueue_work-items}
use repotraverse.Catalog.Next.Refused.{count_running-waiting, claim_next_work-refused}

-- The lease of a launch where there is no fresh one.
abbrev configured_lease : ℕ → Bytes → Queue → RunnerLease
configured_lease now token q =
    launch_lease now token q.launch_capabilities q.launch_executable_identity
      q.launch_config_identity

drop_stale-none :
    (now : ℕ) (l : Option RunnerLease) → no_fresh_lease now l ≡ true → drop_stale now l ≡ none
unfolding drop_stale no_fresh_lease
drop_stale-none now none h = refl
drop_stale-none now (some l) h = ground arith

launch-lease :
    (now : ℕ) (token : Bytes) (q : Queue)
    → no_fresh_lease now q.lease ≡ true
    → (launch now token q).lease ≡ some (configured_lease now token q)
unfolding launch insert_lease
launch-lease now token q h = rw (drop_stale-none now q.lease h) refl

-- New work changes the lease, and not what is configured.
record Launched (now : ℕ) (token : Bytes) (q t : Queue) : Type 0 where
  lease_of : t.lease ≡ some (configured_lease now token q)
  same_executable : t.launch_executable_identity ≡ q.launch_executable_identity
  same_config : t.launch_config_identity ≡ q.launch_config_identity

link_row-Launched :
    (now : ℕ) (token : Bytes) (r : WorkRequest) (q t : Queue) (items : List WorkItem)
    (deps : Option (List (Bytes × Bytes))) (e : Enqueued)
    → no_fresh_lease now q.lease ≡ true
    → can_launch r.credential_reference q ≡ true
    → link_row now token r q items deps ≡ some (t, e)
    → Launched now token q t
unfolding link_row
link_row-Launched now token r q t items none e h k eq = cc
link_row-Launched now token r q t items (some deps) e h k eq =
    let linked : Queue = record q {
      items = items;
      dependencies = deps;
      invocations = link r.work_id r.invocation_id q.invocations;
    } in
    let same : launch now token linked ≡ t = ground arith in
    subst (Launched now token q) same (record {
      lease_of = launch-lease now token linked h;
      same_executable = unfold launch in refl;
      same_config = unfold launch in refl;
    })

enqueue_work-Launched :
    (now : ℕ) (token : Bytes) (r : WorkRequest) (q t : Queue) (e : Enqueued)
    → no_fresh_lease now q.lease ≡ true
    → can_launch r.credential_reference q ≡ true
    → enqueue_work now token r q ≡ some (t, e)
    → Launched now token q t
unfolding enqueue_work enqueue_row
enqueue_work-Launched now token r q t e h k eq =
    elim (Bool-cases (is_empty r.kind || r.has_secret)) [
      | inl j ↦ let bad : none ≡ some (t, e) = rw j at eq in cc
      | inr j ↦ link_row-Launched now token r q t _ _ e h k (rw j at eq)
    ]

adopts_configured :
    (now later : ℕ) (token : Bytes) (p : Process) (q t : Queue) (l : Option RunnerLease)
    → l ≡ some (configured_lease now token q)
    → p.executable_identity ≡ q.launch_executable_identity
    → p.config_identity ≡ q.launch_config_identity
    → ((adopt_lease later token p t l).1 ≡ true)
      × (is_runner p.owner (adopt_lease later token p t l).0.lease ≡ true)
unfolding adopt_lease launch_lease adopted is_runner
adopts_configured now later token p q t l at same also =
    let a = (text_eq_iff token token).1 refl in
    let b = (text_eq_iff q.launch_executable_identity p.executable_identity).1 (sym same) in
    let c = (text_eq_iff q.launch_config_identity p.config_identity).1 (sym also) in
    let d = (text_eq_iff p.owner p.owner).1 refl in
    let s = (text_eq_iff (codes "1") (codes "1")).1 refl in rw (at, a, b, c, s) (refl, d)

-- If the lease is not fresh, and a launch is configured that may use the credential, then work that is
-- enqueued leaves its token for pending_launch_token, and a process of the configured executable and
-- configuration that brings the token, at whatever time, is the active runner.
pub enqueue_work-launches :
    (now later : ℕ) (token : Bytes) (r : WorkRequest) (p : Process) (q t : Queue) (e : Enqueued)
    → no_fresh_lease now q.lease ≡ true
    → can_launch r.credential_reference q ≡ true
    → enqueue_work now token r q ≡ some (t, e)
    → p.executable_identity ≡ q.launch_executable_identity
    → p.config_identity ≡ q.launch_config_identity
    → (pending_launch_token t ≡ some token)
      × ((adopt_runner later token p t).1 ≡ true)
      × (is_runner p.owner (adopt_runner later token p t).0.lease ≡ true)
unfolding adopt_runner pending_launch_token launch_lease
enqueue_work-launches now later token r p q t e h k eq same also =
    let l = enqueue_work-Launched now token r q t e h k eq in
    let (taken, runs) = adopts_configured now later token p q t t.lease l.lease_of same also in
    (
      (let b = (text_eq_iff q.launch_executable_identity q.launch_executable_identity).1 refl in
          let c = (text_eq_iff q.launch_config_identity q.launch_config_identity).1 refl in
          rw (l.lease_of, l.same_executable, l.same_config, b, c) refl),
      taken,
      runs,
    )

count_running-add_item :
    (now : ℕ) (r : WorkRequest) (items : List WorkItem)
    → count_running items
      ≤ count_running
          (add_item now r.work_id r.kind r.parameters r.credential_reference r.maintenance items)
unfolding add_item
count_running-add_item now r items = elim (Bool-cases (any_item (has_id r.work_id) items)) [
  | inl e ↦
      let same =
        count_running-waiting (λ w. has_id r.work_id w && is_dropped w.state) (rerun now) items
          (λ w. unfold rerun in refl) (All-of _ items (λ w t. ground arith)) in
      rw e (omega (arith, same))
  | inr e ↦
      let same = count_running-append items (
        new_item now r.work_id r.kind r.parameters r.credential_reference r.maintenance items
        ∷ []) in
      rw e (omega (arith, same))
]

-- What an adoption that succeeds leaves.
record Adopted (p : Process) (t u : Queue) : Type 0 where
  same_items : u.items ≡ t.items
  becomes_runner : is_runner p.owner u.lease ≡ true

adopt_lease-Adopted :
    (now : ℕ) (token : Bytes) (p : Process) (t u : Queue) (l : Option RunnerLease)
    → adopt_lease now token p t l ≡ (u, true)
    → Adopted p t u
unfolding adopt_lease adopted is_runner
adopt_lease-Adopted now token p t u none h = absurd (ground arith)
adopt_lease-Adopted now token p t u (some l) h = elim (Bool-cases (may_adopt token p l)) [
  | inl e ↦
      let got : (record t { lease = some (adopted now p l) }, true) ≡ (u, true) = rw e at h in
      let same : record t { lease = some (adopted now p l) } ≡ u = cc in
      subst (Adopted p t) same
        (record { same_items = refl; becomes_runner = (text_eq_iff p.owner p.owner).1 refl })
  | inr e ↦ let got : (t, false) ≡ (u, true) = rw e at h in absurd (ground arith)
]

adopt_runner-Adopted :
    (now : ℕ) (token : Bytes) (p : Process) (t u : Queue)
    → adopt_runner now token p t ≡ (u, true)
    → Adopted p t u
unfolding adopt_runner
adopt_runner-Adopted now token p t u h = adopt_lease-Adopted now token p t u t.lease h

-- An item that runs keeps running when new work is enqueued, whatever became of its runner, and a process
-- that adopts the launch gets an exception from claim_next_work as soon as it could take any item.
pub enqueue_work-strands :
    (now later : ℕ) (token failure : Bytes) (r : WorkRequest) (p : Process)
    (capabilities : List Bytes) (q t u : Queue) (e : Enqueued)
    → IsWellFormed q
    → 0 < count_running q.items
    → enqueue_work now token r q ≡ some (t, e)
    → adopt_runner later token p t ≡ (u, true)
    → any_compatible capabilities (runnable_rows later (propagate later failure u)) ≡ true
    → (0 < count_running u.items) × (claim_next_work later failure p.owner capabilities u ≡ none)
unfolding step or_same
enqueue_work-strands now later token failure r p capabilities q t u e well runs added adopt can =
    let a = adopt_runner-Adopted later token p t u adopt in
    let there : 0 < count_running u.items =
      let same = enqueue_work-items now q token r (t, e) added in
      let less = count_running-add_item now r q.items in rw (a.same_items, same) (omega arith) in
    let first : IsWellFormed t = rw added at (step-IsWellFormed now (enqueues token r) q well) in
    let second : IsWellFormed u =
      subst (λ (x : Queue × Bool). IsWellFormed x.0) adopt
        (step-IsWellFormed later (adopts token p) t first) in
    (
      there,
      claim_next_work-refused later failure p.owner capabilities u second a.becomes_runner there
          can,
    )
