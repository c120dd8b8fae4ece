-- ===== src/Lineage/Trace/Examples.antt =====
-- Tests of the trace, and its theorems on the sample snapshots.
use repotraverse.Prelude.{◌≡◌, refl, List, [], ◌∷◌, map, arith, Bytes, codes, text_eq, All}
use mathlib.Core.List.{Perm}
use repotraverse.Ir.{LineageAssertion, TransitionFact}
use repotraverse.Lineage.Samples.{earlier, later, accepted}
use repotraverse.Lineage.Match.{
  continuity, shape_key, coverage_for, last_accepted, slot_of_id, slots_of_shape, is_free, mark,
  if_free, asserted_slot, find_match, shape_candidates,
}
use repotraverse.Lineage.Trace.{
  trace_facts, trace_elements, trace_element, conclude, propose, matched_fact, removed_fact,
  added_fact, added_facts, start,
}
use repotraverse.Lineage.Trace.Partition.{
  Named, nonempty, before_ids, after_ids, ids, trace_facts_partition,
}
use repotraverse.Lineage.Trace.Facts.{IsConservative, trace_facts-IsConservative}
use repotraverse.Lineage.Trace.Complete.{IsComparable, HasSuccessor, trace_facts_complete}
use repotraverse.Lineage.Trace.Identity.{IsKept, trace_facts-IsKept, Distinct}

abbrev hash : Bytes → Bytes
hash s = s

abbrev facts_of : List LineageAssertion → List TransitionFact
facts_of assertions = (trace_facts hash [] earlier later assertions).facts

-- A moved element, an unresolved one and an added one.
trace_runs :
    map (λ f. f.continuity) (facts_of [])
    ≡ codes "moved" ∷ codes "deleted_or_unresolved" ∷ codes "added_or_unresolved" ∷ []
unfolding trace_facts trace_elements trace_element conclude propose matched_fact removed_fact
    added_fact added_facts start find_match asserted_slot last_accepted if_free is_free mark
    slot_of_id shape_candidates slots_of_shape shape_key continuity text_eq
trace_runs = refl

complete_runs :
    (trace_facts hash [] earlier later (accepted ∷ [])).coverage.status ≡ codes "complete"
unfolding trace_facts trace_elements trace_element conclude propose start find_match asserted_slot
    last_accepted if_free is_free mark slot_of_id coverage_for text_eq
complete_runs = refl

Named-earlier : Named earlier.elements
Named-earlier = ((λ e. cc), ((λ e. cc), tt))

Named-later : Named later.elements
Named-later = ((λ e. cc), ((λ e. cc), tt))

Distinct-earlier : Distinct earlier.elements
Distinct-earlier = (((λ e. ground arith), tt), (tt, tt))

trace_facts_partition_example :
    (nonempty (before_ids (facts_of [])) ≡ ids earlier.elements)
    × Perm (nonempty (after_ids (facts_of []))) (ids later.elements)
trace_facts_partition_example =
    trace_facts_partition hash [] earlier later [] Named-earlier Named-later

trace_facts-IsConservative_example : All (IsConservative (accepted ∷ [])) (facts_of (accepted ∷ []))
trace_facts-IsConservative_example =
    trace_facts-IsConservative hash [] earlier later (accepted ∷ [])

trace_facts_complete_example :
    IsComparable earlier later
    × All HasSuccessor (facts_of (accepted ∷ []))
    × ((trace_facts hash [] earlier later (accepted ∷ [])).candidates ≡ [])
trace_facts_complete_example =
    trace_facts_complete hash [] earlier later (accepted ∷ []) complete_runs

trace_facts-IsKept_example : All (IsKept hash [] earlier later) (facts_of [])
trace_facts-IsKept_example = trace_facts-IsKept hash [] earlier later Distinct-earlier
