-- ===== src/Lib.antt =====
-- The canonical core of nexus: the task state machine, its event log, the policy that guards side
-- effects, the watch over progress, and the orchestrator that drives a task through them.
--
-- How the parts interact. Every fact about a task is an event of an append-only log
-- (nexus/app/events/log.py). The snapshot of a task is a fold of its events
-- (nexus/app/events/projections.py), and the state machine (nexus/app/core/state.py) decides against
-- that snapshot whether a STATE event may be appended. The orchestrator
-- (nexus/app/orchestration/orchestrator.py) is the only writer of STATE events. For every plan step it
-- issues a grant (nexus/app/services/capability), asks the policy engine (nexus/app/services/policy,
-- with the trust levels of nexus/app/services/taint), runs a builder, measures the result
-- (nexus/app/services/progress), counts the budget (nexus/app/services/budget) and climbs the escalation
-- ladder (nexus/app/services/escalation) when it is stuck. After a restart the log decides how to go on
-- (nexus/app/services/recovery).
--
-- Which file models which part:
--   Contracts, Contracts/Task: nexus/app/schemas/contracts.py, records, the methods of CapabilityGrant,
--     validate_contract.
--   State, State/Gate: nexus/app/core/state.py, ALLOWED, gate_reason and transition_ok; a reason is a
--     value, and (True, "") is none. State/Trace and State/Laws: logs whose STATE events were checked.
--   Events, Events/Projection, Events/Order, Events/Newest: the log, project_task, what a read sees, and
--     what a snapshot holds of it.
--   Capability: registry.py and issue.py. Taint: boundary.py and check.py.
--   Policy: rules.py and engine.py; Policy/Glob: fnmatch; Policy/Laws and Policy/Authority: decisions.
--   Budget: tracker.py. Escalation: ladder.py. Recovery: checkpoint.py, idempotency.py, reconcile.py.
--   Progress/Signals, Service, Loop, Measure: the files of nexus/app/services/progress.
--   Hardware: nexus/app/services/hardware/modes.py.
--   Experience: nexus/app/services/experience. Gates: lifecycle.py. Signature: signature.py. Evaluate:
--     eval.py. Store and Operations: store.py, whose methods return or throw and keep what they had
--     written. Sequence: sequences of calls; Invariant, Valid, Final, Found, Life, Use: their properties.
--   Evaluation/Regression, Offline, Canary: nexus/app/services/eval.
--   Memory: nexus/app/services/memory/store.py; Memory/Performance: nexus/app/services/agents/performance.py.
--   Selection: nexus/app/services/routing/selection.py, over Memory.
--   Artifacts: nexus/app/services/artifacts/store.py; Artifacts/Chain: the chain of parents.
--   Tools: nexus/app/services/tools/base.py, registry.py and dispatch.py; Tools/Loop: loop.py; Tools/Parse:
--     nexus/app/llm/parse.py.
--   Boundary/Egress, with its properties in Listed and Guarded, Secrets, with its in Scrubbed, and Faults:
--     nexus/app/services/egress/broker.py, secrets/store.py and faults/model.py.
--   Agents: nexus/app/services/agents/disagreement.py and nexus/app/services/repo/breadth.py.
--   Prelude/Act: the shape of a method, which returns or throws and keeps what it changed; Orchestrator/Act:
--     what the orchestrator's methods raise.
--   Orchestrator/Seams: the components behind it (models, builders, verifiers, sandbox, clock, ids), each
--     a function of a world of its own that may answer or throw.
--   Orchestrator/Base: _snap, _transition, _force_fail, _finish, _result_from_log.
--   Orchestrator/Step: _run_step, _plan_file_grant, _per_file_policy, _store_artifact.
--   Orchestrator/Execute: _execute, _run_ladder, _replan, _critic_pass.
--   Orchestrator/Settle: _execute_verify_settle and _t2_pass.
--   Orchestrator/Deliver: _run_research, _run_doc_analysis, _run_qa_explain, _run_authoring,
--     _run_tool_task.
--   Orchestrator/Drive: run and _drive. Orchestrator/Resume: resume, _apply_approval,
--     _reconcile_and_resume.
--   Prelude/Keeps: rules by which a method keeps a property; Orchestrator/Invariant: what a property
--     must satisfy to be kept by every method; Orchestrator/Sound, Extends, Verified, Total, Enough: the
--     properties of the log. Prelude/Gives: rules for what a method returns; Orchestrator/Honest,
--     Permit: the properties of results. Orchestrator/Completes: rules for methods that return.
--   Prelude: shared names, Boolean tests, list functions on native numbers, texts as code points.
--   Tests: a scripted task, run from request to COMPLETED, and the theorems at concrete inputs.
--
-- Bounds and fuel. The loop of _execute runs on the code's own bound, _MAX_STEPS = 16: without fuel it
-- raises BuildError as the code does. The loop of _run_ladder runs on the number of rungs that are left.
-- _execute_verify_settle calls itself at most once for the critic and once for the stronger builder, so it
-- recurs on the retries that are left. The tool loop recurs on the iterations left of max_iters. The walk
-- along the parents of an artifact has fuel for each version and one more round, which is enough since it
-- stops at a version that it has seen.
--
-- Units. Budgets are counted in ten-thousandths, coverage in 1e-9 points, sensors in tenths, times in ticks of the clock.
--
-- Not modelled. Texts for people (reasons, details, summaries), JSON and SQLite, and what runs outside:
-- model calls, processes, files. fnmatch is written for patterns without brackets, which are all the
-- program has; urlparse, path resolution, difflib, sha256, json.loads and floating-point numbers
-- (Prelude/Floats) are parameters. Optional services of the orchestrator appear as places where notes may
-- be logged. The router and its statistics, the assembly of a context from memory, research, authoring,
-- repository analysis and the user interface are not modelled.
pub mod Prelude
pub mod Contracts
pub mod State
pub mod Events
pub mod Capability
pub mod Taint
pub mod Policy
pub mod Escalation
pub mod Budget
pub mod Progress
pub mod Recovery
pub mod Agents
pub mod Boundary
pub mod Artifacts
pub mod Memory
pub mod Selection
pub mod Evaluation
pub mod Experience
pub mod Tools
pub mod Hardware
pub mod Orchestrator
pub mod Tests
