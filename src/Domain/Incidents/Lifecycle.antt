-- ===== src/Domain/Incidents/Lifecycle.antt =====
-- The life of an incident: where a run of allowed transitions can lead, and what it has passed.
use ops_pilot_ai.Base.{List, [], ◌∷◌, true, false, ◌≡◌, ◌≢◌, ◌↔◌, refl, arith, contains, ok, All}
use mathlib.Core.List.{head?}
use mathlib.Core.Option.{get_or}
use ops_pilot_ai.Domain.Machine.{Reach, here, next, History, opened, moved, before}
use ops_pilot_ai.Domain.Incidents.{
  IncidentStatus, detected, correlating, investigating, diagnosed, planning, waiting_approval,
  remediating, verifying, resolved, closed, observability_lost, needs_human, mitigated_not_resolved,
  failed, cancelled, IncidentStatus-discrete, incident_status_eq, allowed_transitions,
  transition_incident,
}

-- The statuses that an incident never leaves.
abbrev pub final_statuses : List IncidentStatus
final_statuses = closed ∷ failed ∷ cancelled ∷ []

-- The first status of a table's row, where it has one.
abbrev exit : IncidentStatus → IncidentStatus
exit s = get_or (head? (allowed_transitions s)) s

-- A transition is refused from a status whatever the target exactly when the status is final.
final_iff :
    (s : IncidentStatus)
    → ((t : IncidentStatus) → transition_incident s t ≢ ok t) ↔ (contains final_statuses s ≡ true)
unfolding transition_incident allowed_transitions
final_iff closed = (λ h. refl, λ h t e. cc e)
final_iff failed = (λ h. refl, λ h t e. cc e)
final_iff cancelled = (λ h. refl, λ h t e. cc e)
final_iff s = (λ h. absurd (h (exit s) refl), λ h. cc h)

resolved_closes : Reach allowed_transitions resolved closed
unfolding allowed_transitions
resolved_closes = next here refl

verifying_closes : Reach allowed_transitions verifying closed
unfolding allowed_transitions
verifying_closes = before refl resolved_closes

planning_closes : Reach allowed_transitions planning closed
unfolding allowed_transitions
planning_closes = before {t = remediating} refl (before {t = verifying} refl verifying_closes)

investigating_closes : Reach allowed_transitions investigating closed
unfolding allowed_transitions
investigating_closes = before {t = diagnosed} refl (before {t = planning} refl planning_closes)

-- From every status that is not final a run of allowed transitions leads to CLOSED.
pub reach-closed :
    (s : IncidentStatus) → contains final_statuses s ≡ false → Reach allowed_transitions s closed
unfolding allowed_transitions
reach-closed closed h = cc h
reach-closed failed h = cc h
reach-closed cancelled h = cc h
reach-closed resolved h = resolved_closes
reach-closed verifying h = verifying_closes
reach-closed remediating h = before {t = verifying} refl verifying_closes
reach-closed planning h = planning_closes
reach-closed waiting_approval h = before {t = remediating} refl (before refl verifying_closes)
reach-closed diagnosed h = before {t = planning} refl planning_closes
reach-closed investigating h = investigating_closes
reach-closed detected h = before {t = correlating} refl (before refl investigating_closes)
reach-closed correlating h = before {t = investigating} refl investigating_closes
reach-closed observability_lost h = before {t = investigating} refl investigating_closes
reach-closed mitigated_not_resolved h = before {t = investigating} refl investigating_closes
reach-closed needs_human h = before {t = investigating} refl investigating_closes

-- What an incident must have passed before it stands at a status.
unfoldable pub milestones : IncidentStatus → List IncidentStatus
milestones waiting_approval = planning ∷ []
milestones remediating = planning ∷ []
milestones verifying = planning ∷ remediating ∷ []
milestones mitigated_not_resolved = planning ∷ remediating ∷ verifying ∷ []
milestones resolved = planning ∷ remediating ∷ verifying ∷ []
milestones closed = planning ∷ remediating ∷ verifying ∷ resolved ∷ []
milestones _ = []

abbrev pub HasPassed : List IncidentStatus → List IncidentStatus → Type 0
HasPassed h ms = All (λ m. contains h m ≡ true) ms

milestones_step :
    (s t : IncidentStatus) (h : List IncidentStatus)
    → contains (allowed_transitions s) t ≡ true
    → contains h s ≡ true
    → HasPassed h (milestones s)
    → HasPassed (t ∷ h) (milestones t)
unfolding allowed_transitions milestones
milestones_step closed t h a c p = cc a
milestones_step s t h a c p = ground arith

-- Whatever allowed transitions an incident has made since DETECTED, it has passed the milestones
-- of its status: in particular none is CLOSED that was not planned, remediated, verified, resolved.
pub history-milestones :
    {h : List IncidentStatus} {s : IncidentStatus}
    → History allowed_transitions detected h s
    → (contains h s ≡ true) × HasPassed h (milestones s)
unfolding milestones IncidentStatus-discrete
history-milestones (opened k e) = rw e (refl, tt)
history-milestones (moved {h} {s} k t r a e) =
    let ih = history-milestones r in
    rw e (rw ((incident_status_eq.equals_iff t t).1 refl) refl, milestones_step s t h a ih.0 ih.1)
