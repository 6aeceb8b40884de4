-- ===== src/Registry/Connectors.antt =====
-- `ConnectorRegistry.execute` over the connectors of the registry.
use ops_pilot_ai.Base.{
  ℕ, String, false, Option, List, [], ◌∷◌, ◌≡◌, ◌≢◌, inl, inr, refl, string_eq, ◌==◌, find,
  contains, Bool-cases, Option-cases,
}
use ops_pilot_ai.Reliability.{Circuit, RetryPolicy}
use ops_pilot_ai.Registry.{Attempt, Connector, set_circuit, call, execute}

-- The connector called `name`.
abbrev pub named : String → List Connector → Option Connector
named name xs = find (λ (x : Connector). x.name == name) xs

not_equal : (s t : String) → s ≢ t → (s == t) ≡ false
not_equal s t n = elim (Bool-cases (s == t)) [
  | inl e ↦ absurd (n ((string_eq.equals_iff s t).0 e))
  | inr f ↦ f
]

named-set_circuit :
    (name other : String) (c : Circuit) (xs : List Connector)
    → name ≢ other
    → named other (set_circuit name c xs) ≡ named other xs
unfolding set_circuit find
named-set_circuit name other c [] n = refl
named-set_circuit name other c (x ∷ xs) n = elim (Bool-cases (x.name == name)) [
  | inl e ↦ rw (e, (string_eq.equals_iff x.name name).0 e, not_equal name other n) refl
  | inr f ↦ rw f (elim (Bool-cases (x.name == other)) [
    | inl t ↦ rw t refl
    | inr u ↦ rw u (named-set_circuit name other c xs n)
  ])
]

-- A call of `execute` leaves every other connector of the registry, and its circuit, as it was.
execute_keeps_others :
    {A : Type 0} (p : RetryPolicy) (connectors : List Connector) (connector_name other : String)
    (operation : String) (timeout : ℕ) (attempts : ℕ → Attempt A) (now start : ℕ)
    → connector_name ≢ other
    → named other (execute p connectors connector_name operation timeout attempts now start).1
      ≡ named other connectors
unfolding execute
execute_keeps_others p connectors connector_name other operation timeout attempts now start n =
    elim (Option-cases (named connector_name connectors)) [
      | inl e ↦ rw (e, execute) refl
      | inr (x, e) ↦
          rw (e, execute)
            (elim (Bool-cases (contains x.observe_operations operation)) [
              | inl t ↦ rw t (
                  named-set_circuit connector_name other
                    (call p timeout attempts now start x.circuit).1 connectors n)
              | inr f ↦ rw f refl
            ])
    ]
