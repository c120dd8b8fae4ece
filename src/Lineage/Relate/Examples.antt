-- ===== src/Lineage/Relate/Examples.antt =====
-- The totality of `trace_transition` on the sample snapshots.
use repotraverse.Prelude.{◌≡◌, some, [], ◌∷◌}
use mathlib.Core.List.{Perm}
use repotraverse.Ir.{TransitionResult, lines}
use repotraverse.Lineage.Samples.{earlier, later, accepted}
use repotraverse.Lineage.Trace.{trace_facts}
use repotraverse.Lineage.Relate.{trace_transition}
use repotraverse.Lineage.Relate.Total.{trace_transition_total}

trace_transition_total_example :
    (r : TransitionResult) × (trace_transition (λ s. s) lines earlier later (accepted ∷ []) []
      ≡ some r)
    × Perm r.facts (trace_facts (λ s. s) [] earlier later (accepted ∷ [])).facts
    × (r.candidates ≡ (trace_facts (λ s. s) [] earlier later (accepted ∷ [])).candidates)
    × (r.coverage ≡ (trace_facts (λ s. s) [] earlier later (accepted ∷ [])).coverage)
trace_transition_total_example =
    trace_transition_total (λ s. s) lines earlier later (accepted ∷ []) []
