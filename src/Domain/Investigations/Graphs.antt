-- ===== src/Domain/Investigations/Graphs.antt =====
-- backend/app/domain/investigations/graph_registry.py: the published investigation graphs.
use text.Mathlib.TextEquality.{eq_iff}
use ops_pilot_ai.Base.{
  String, List, [], ◌∷◌, ◌++◌, Bool, true, false, not, Option, none, some, map, string_eq, ◌==◌,
  contains, select, if◌then◌else◌, ◌≡◌, refl, ◌⊎◌, inl, inr, Bool-cases,
}

pub record InvestigationGraphNode : Type 0 where
  pub key : String
  pub phase : String
  pub side_effecting : Bool
  pub description : String

pub record InvestigationGraphDefinition : Type 0 where
  pub version : String
  pub entry_node : String
  pub nodes : List InvestigationGraphNode

abbrev node : String → String → Bool → String → InvestigationGraphNode
node k p s d = record { key = k; phase = p; side_effecting = s; description = d }

-- `InvestigationGraphDefinition.node_keys`
unfoldable pub node_keys : InvestigationGraphDefinition → List String
node_keys g = map (λ n. n.key) g.nodes

unfoldable pub graph_v1 : InvestigationGraphDefinition
graph_v1 = record {
  version = "graph-v1";
  entry_node = "load_incident";
  nodes =
      node "load_incident" "context" false "Load the Incident and current investigation state"
      ∷ node "load_topology" "context" false "Load bounded resource topology context"
      ∷ node "load_recent_changes" "context" false "Load recent changes for scoped resources"
      ∷ node "classify_complexity" "planning" false "Choose the bounded investigation route"
      ∷ node "create_plan" "planning" true "Create or reuse a structured investigation plan"
      ∷ node "select_next_step" "execution" false "Select the next runnable plan step"
      ∷ node "run_investigator" "execution" true "Dispatch bounded observational work"
      ∷ node "assess_evidence" "assessment" true "Update hypotheses from referenced evidence"
      ∷ node "maybe_replan" "planning" true "Decide whether a replacement plan is required"
      ∷ node "escalate_or_finish" "completion" true "Finish or request human escalation"
      ∷ [];
}

abbrev closing : InvestigationGraphNode → Bool
closing n = contains ("maybe_replan" ∷ "escalate_or_finish" ∷ []) n.key

unfoldable pub graph_v2 : InvestigationGraphDefinition
unfolding graph_v1 select
graph_v2 = record {
  version = "graph-v2";
  entry_node = "load_incident";
  nodes =
      select (λ n. not (closing n)) graph_v1.nodes
      ++ (node "propose_action" "remediation" true
            "Create a policy-controlled structured Action Proposal"
          ∷ select closing graph_v1.nodes);
}

-- `list_investigation_graphs`, in the order of `_PUBLISHED_GRAPHS`
unfoldable pub list_investigation_graphs : List InvestigationGraphDefinition
unfolding graph_v1 graph_v2
list_investigation_graphs = graph_v1 ∷ graph_v2 ∷ []

unfoldable pub get_investigation_graph : String → Option InvestigationGraphDefinition
get_investigation_graph version =
    if graph_v1.version == version
    then some graph_v1
    else if graph_v2.version == version
    then some graph_v2
    else none

-- No entry of the list occurs again.
abbrev pub distinct : List String → Bool
distinct [] = true
distinct (k ∷ ks) = if contains ks k then false else distinct ks

found_graph :
    (version : String) (g : InvestigationGraphDefinition)
    → get_investigation_graph version ≡ some g
    → ((graph_v1.version ≡ version) × (graph_v1 ≡ g))
      ⊎ ((graph_v2.version ≡ version) × (graph_v2 ≡ g))
unfolding get_investigation_graph
found_graph version g h = elim (Bool-cases (graph_v1.version == version)) [
  | inl p ↦ inl ((eq_iff _ _).0 p, cc (rw p at h))
  | inr p ↦ elim (Bool-cases (graph_v2.version == version)) [
    | inl q ↦ inr ((eq_iff _ _).0 q, cc (rw (p, q) at h))
    | inr q ↦ cc (rw (p, q) at h)
  ]
]

-- A graph that is found under a version carries that version, begins at one of its own nodes, and
-- no two of its nodes share a key.
get_investigation_graph-IsPublished :
    (version : String) (g : InvestigationGraphDefinition)
    → get_investigation_graph version ≡ some g
    → (g.version ≡ version)
      × (contains (node_keys g) g.entry_node ≡ true)
      × (distinct (node_keys g) ≡ true)
unfolding graph_v1 graph_v2 node_keys
get_investigation_graph-IsPublished version g h = elim (found_graph version g h) [
  | inl (v, e) ↦ rw (← e) (v, refl, refl)
  | inr (v, e) ↦ rw (← e) (v, refl, refl)
]
