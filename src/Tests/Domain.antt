-- ===== src/Tests/Domain.antt =====
-- Runs through the transition tables, and a published graph.
use ops_pilot_ai.Base.{true, some, [], ◌∷◌, ◌≡◌, ◌≢◌, ◌⊎◌, ◌↔◌, refl, contains, string_eq}
use ops_pilot_ai.Domain.Machine.{Reach, History, opened, moved}
use ops_pilot_ai.Domain.Incidents.{
  detected, correlating, investigating, closed, verifying, incident_status_eq,
  IncidentStatus-discrete, allowed_transitions,
}
use ops_pilot_ai.Domain.Incidents.Lifecycle.{
  reach-closed, milestones, HasPassed, history-milestones,
}
use ops_pilot_ai.Domain.Hypotheses.{HypothesisStatus, hypothesis_status_eq, reach_iff}
use ops_pilot_ai.Domain.Hypotheses as Hypotheses
use ops_pilot_ai.Domain.Investigations.Graphs.{graph_v1, get_investigation_graph}

closes_example : Reach allowed_transitions verifying closed
unfolding IncidentStatus-discrete
closes_example = reach-closed verifying refl

investigated :
    History allowed_transitions detected (investigating ∷ correlating ∷ detected ∷ []) investigating
unfolding allowed_transitions IncidentStatus-discrete
investigated =
    moved _ investigating (moved _ correlating (opened (detected ∷ []) refl) refl refl) refl refl

milestones_example :
    (contains (investigating ∷ correlating ∷ detected ∷ []) investigating ≡ true)
    × HasPassed (investigating ∷ correlating ∷ detected ∷ []) (milestones investigating)
milestones_example = history-milestones investigated

hypothesis_example :
    Reach Hypotheses.allowed_transitions HypothesisStatus.proposed HypothesisStatus.rejected ↔ (
      (HypothesisStatus.proposed ≡ HypothesisStatus.rejected)
      ⊎ ((HypothesisStatus.proposed ≢ HypothesisStatus.rejected)
          × (HypothesisStatus.rejected ≢ HypothesisStatus.proposed)))
hypothesis_example = reach_iff HypothesisStatus.proposed HypothesisStatus.rejected

found_v1 : get_investigation_graph "graph-v1" ≡ some graph_v1
unfolding get_investigation_graph graph_v1
found_v1 = refl
