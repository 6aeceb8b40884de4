-- ===== src/Lib.antt =====
-- OpsPilot-AI is a control plane for operations: it keeps incidents, decides by policies which
-- actions may run, leases resources to actions, records every change as an event, and lets runners
-- carry out read-only queries and actions. This library models the core of the backend and the
-- part of the runner that calls connectors.
--
-- backend/app/domain holds the enumerations and the transition tables. Domain.Incidents,
-- Domain.Hypotheses, Domain.Plans and Domain.Investigations have one function per table,
-- allowed_transitions, and the checked change of status; Domain.Machine says what a run through a
-- table is. Domain.Investigations.Graphs is graph_registry.py. The other modules of Domain are the
-- enumerations of actions, approvals, policies, runners and tasks, and the principals of
-- security.py.
--
-- backend/app/storage holds the tables. Storage.Rows has one record per modelled class of
-- models.py, Storage.Database the database as a record of lists of rows, and Storage.Repositories
-- the queries of repositories.py that the modelled services use. A service call is a function from
-- the database to a result: an exception ends the request, and its session is rolled back, so that
-- an error carries no database. The argument commit of a call says who commits and is left out,
-- except for acquire, where it decides what a conflict does. Storage.Database.Scope is the
-- principal of a request, which limits the environments whose rows a query finds, and
-- Storage.Database.Actors says which actor a call signs a row with.
--
-- backend/app/services/events.py is Events: EventRecorder.record appends to the history of the
-- incident and to the outbox, and moves the cursor of the incident. services/incidents.py is
-- Incidents (create, transition). services/policies.py is Policies.Rules (_matches,
-- _inside_maintenance_window, _decide), Policies.Service (dry_run, evaluate, revalidate_snapshot,
-- authorize_action_creation) and Policies.Management (create_rule, update_rule); the validator of
-- schemas/policies.py stands in Policies.Windows. services/resource_locks.py is Locks (acquire,
-- renew, release), which asks the policies again and records its events; Locks.Spec says what a
-- call may do to the lease of a resource, Locks.Refinement reads a lock row as a lease,
-- Locks.Calls is about each call, and Locks.Histories and Locks.Ageing are about sequences of
-- calls. services/actions.py is Actions (create, cancel), with services/action_capabilities.py as
-- Actions.Capabilities: create asks the policies for an authorization, and cancel ends the lease
-- of the action; Actions.Requested and Actions.Outcomes describe the rows that these calls write.
-- services/approvals.py is Approvals (create, decide), with the rows that decide leaves described
-- in Approvals.Outcomes and the edits of parameters in Approvals.Edits; decide calls
-- Proposals.resolve_approval of services/action_proposals.py, which creates the action that the
-- approval was asked for, and Waits.resolve_subject of services/investigation_hitl.py, which puts
-- a paused run back into the queue. services/hypotheses.py is Hypotheses (create, update).
-- services/plans.py is Plans as far as the dependencies of steps go (_validate_plan_dependencies,
-- _validate_dependencies_ready). services/outbox.py is Outbox (run_once).
--
-- runner/opspilot_runner/reliability.py is Reliability (the circuit breaker and the retry policy)
-- and registry.py is Registry (execute). The retry loop is a recursion on the number of attempts
-- left, which starts at max_attempts, or at one for a probe; Base.Decimals.str, which spells a
-- number n, has n + 1 steps, more than its digits; no other fuel is used anywhere.
--
-- Numbers: identifiers, instants (in microseconds since 1970, in UTC), versions and tokens are
-- natural numbers; the priority of a rule is an integer. A reading of the clock is an argument,
-- one for each time that the code reads it. The seconds of the circuit breaker, the retry delays
-- and the jitter, which are floating-point numbers in the code, are exact multiples of a unit, so
-- that rounding is not modelled. The id of an actor, one text in the code, is either a UUID or a
-- name, so that a name spelled like a UUID is not covered. A JSON value is null, a Boolean, a
-- natural number, a text, an identifier, an instant, an actor or a list of identifiers. The text
-- of a message, the logs, and the times that the database itself writes to a row are left out.
--
-- Parameters: the connectors, the sink of the outbox, the random numbers, and the digest (JSON and
-- SHA-256) of a request for an action. A call of execute is modelled by itself: calls of one
-- connector that overlap are covered by the steps of Reliability.Circuits only. Row locks are
-- modelled by running one service call after another.
--
-- Not modelled: the making of proposals and the start of human waits, the creation of plans and
-- the transitions of their steps, the services for runner tasks, investigations, dispatch and
-- compensation, the agent runtime, the HTTP interface, the connectors and the frontend.
pub mod Base
pub mod Domain
pub mod Storage
pub mod Events
pub mod Incidents
pub mod Policies
pub mod Locks
pub mod Actions
pub mod Plans
pub mod Proposals
pub mod Waits
pub mod Approvals
pub mod Hypotheses
pub mod Reliability
pub mod Registry
pub mod Outbox
mod Tests
