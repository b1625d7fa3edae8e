-- ===== src/Lib.antt =====
-- RegEngine AI turns regulatory circulars into executable policies, evaluates transactions against
-- them, and records every decision in a hash-chained ledger. These modules model the parts that
-- decide and record, and prove what makes them correct.
--
-- The parts, and how they meet:
--
-- - Governance (app/governance/kill_switch.py, schemas.py): the kill switch. `KillSwitch` has the
--   Redis store and `kill_switch`; `Switching` proves what a flip changes. The evaluator asks
--   `is_active_for` before anything else.
-- - Execution (app/execution): `Models` are the payloads of models.py, `HitlQueue` the queue of the
--   flagged transactions, `Registry` and `Cache` the lookup of the policies of an entity type, and
--   `Evaluator` is `Evaluator.evaluate_transaction` with `_reduce`. OPA is a function from a package
--   and an input to a decision object, to nothing, or to an error.
-- - Ledger (app/ledger): `Models` and `HashChain` are the events, rows and hashes, `Service` the
--   append, `Verifier` the verification loop of `verify_chain`, `Integration` the mapping of an
--   evaluation to its events. It takes the result of the evaluator, so `Recording` proves what the two
--   do together.
-- - Hitl (app/services/hitl_service.py, tables of app/db/models.py): `Gate` is
--   `evaluate_rule_hitl_gate`, `Service` the approval of a review, `Refusal` the rejection and the
--   revision; the database is a record of five tables. `Steps` has the sequences of decisions.
-- - Canary (app/canary): `Store`, `Parity`, `Orchestrator` and `Sweep` are store.py, parity.py,
--   orchestrator.py, and the callers in mirroring.py and tasks.py; `Reach` has the sequences of calls.
-- - Resilience (app/resilience/dead_letter_queue.py, models.py): `Queue` has the items, the indexes and
--   the operations, `Reading` the listing and the counts; `Transitions` has the sequences of calls.
--   `Retry` is `is_transient` of retry_policy.py.
-- - Compiler (app/compiler, app/agents/schemas.py, app/regulatory/facts.py): `Models` are the rules,
--   `JsonLogic` is jsonlogic_compiler.py with jsonlogic_validator.py, `Facts` is the resolution of a
--   metric, `Flags` is hitl.py, `Rego` has what rego_compiler.py refuses and `Pipeline` is
--   `compile_audited_rule`. `Meaning`, `Entities` and
--   `Thresholds` say what a compiled tree means to the evaluator of Backtest, `Compiled` puts them
--   together; `Trees` and `Totality` show that the pipeline returns.
-- - Backtest (app/backtest): `Json` has the JSON values and Python's operators on them, `Evaluator` is
--   jsonlogic_evaluator.py, `Candidate` is candidate_evaluator.py and `Reporting` the counts of
--   reporting.py.
-- - Negotiation (app/negotiation): `Agents`, `Consensus`, `Arbiter` and `Orchestrator` are the files of
--   those names. An escalation goes to the queue of Execution. `Settling`, `Outcomes` and `Progress`
--   prove how a negotiation ends.
-- - Grievance (app/grievance_escalation): `Queue` is queue.py and `Filing` the submission and the poll of
--   tasks.py, with what SCORES answers as an argument. `Submitting` and `Tracking` are about one call,
--   `Calls` about the sequences of them and `Retries` about repeated submissions.
-- - Base: names of the libraries, lists, texts as code points, results that may be an exception, the
--   Redis keys and sets (`Redis`), the database tables (`Tables`) and the integers (`Integers`).
--
-- What is outside. SHA-256, `json.dumps`, `str.format`, Unicode's tables, `isoformat`, `str`, floating point, uuid4, the clock and OPA
-- are arguments of the definitions. A Redis value is the record that its JSON text encodes. The calls
-- of the database run one after another, as the locks of the code see to; in the canary's store a
-- read and the write after it are separate definitions, so that another call can come between.
-- Numbers are natural numbers without a bound, as Python's integers; the sequence numbers of the
-- ledger, a signed column, are integers, which are taken not to reach 2^63. What `model_dump` makes of
-- the details of an event, and what a JSONB column gives back of them, are arguments too. Every loop goes over a list, but
-- for the search of the causes of an exception, which runs on fuel: one more than the number of the
-- exceptions is enough, and a result below says so. Log lines, metrics, latencies of an evaluation and the HTTP layer are
-- left out, and so are the parsing and extraction of circulars, the agents that call language models, the analytics and the
-- rendering of reports. The text of a Rego
-- module is what an argument gives, since only OPA reads it.
pub mod Base
pub mod Governance
pub mod Execution
pub mod Ledger
pub mod Hitl
pub mod Canary
pub mod Resilience
pub mod Backtest
pub mod Compiler
pub mod Negotiation
pub mod Grievance
