-- ===== src/Lib.antt =====
-- Verification of the control plane of this repository: the shared task engine with its evidence
-- bridge, the core state of tasks and revenue, the routing of missions, the review dispatcher
-- and the research by several models.
--
-- The parts and their files:
-- Engine: automation/shared_engine. `Engine.States` and `Engine.Store` are config.py and db.py:
--   the task table, the event log and every operation on them, each a function of the store, the
--   clock and its arguments. `Engine.Registry` is domain_registry.py and current_state.py,
--   `Engine.Bridge` integration_bridge.py, `Engine.Provider` the adapter in
--   automation/orchestrator_provider_adapter_v7.py, `Engine.Harness` and `Engine.Run`
--   exact_v7_shared_engine.py and canonical_v7_binding.py, which drive the three databases. `Engine.Calls` and
--   `Engine.Lease` give histories of calls and the lease machine; `Engine.Invariant`, `Machine`,
--   `Fencing`, `Queue`, `Workflow`, `Evidence`, `Gate` and `Once` prove what holds of them, and
--   `Canonical` that the validations do not see the order of keys.
-- Core: core_state.py and config/queue.py. `Core.Audit` is the hash chain, `Core.Store` the
--   tables with every operation, `Core.Calls` histories of calls; `Core.Backing`, `Core.Upkeep`,
--   `Core.Verifying` and `Core.Payments` prove the invariant, `Core.Idempotency` the idempotency
--   key.
-- Routing: config/provider.py and config/router.py, in `Routing.Registry`; `Routing.Selection`
--   has the proofs.
-- Mission: config/executor.py and config/mission_packet.py, in `Mission.Executor`; the executor
--   calls the queue, the router and the core state, and `Mission.Claims` and `Mission.Settled`
--   compose what is proved of them.
-- Review: automation/review_dispatcher_v1. model_legacy_v1.py is in `Review.Shapes` (what the
--   code host answers, trust, paging), `Review.Paths`, `Review.Recipe` and `Review.Request` (the contract of a request);
--   request_arbitration_v6.py is in `Review.Candidates`, from comments to candidates, and
--   `Review.Arbitration`, from candidates to the current request; `Review.Fetch` is
--   github_read_resilience_v1.py. `Review.Authority`, `Paging`, `Walk`, `Lineage`, `Admitted`,
--   `Current` and `Waiting` have the proofs.
-- Research: automation/multimodel_research_v1. `Research.Contract`, `Research.Task` and
--   `Research.Result` are model.py, the contracts of a task and of a result for it;
--   `Research.Assignment` is assignment.py, the assignment of a task to a model with the result
--   for it; `Research.Fanout` and `Research.Summary` are fanout.py, a plan of assignments and
--   the account of its results; `Research.Aggregate`, `Research.Report` and `Research.Diversity`
--   are aggregator.py, which validates the results, keeps one for each provider, model and role,
--   and reports on claims, divergences and coverage. `Research.Evidence`, `Scope`, `Coverage`,
--   `Backing`, `Groups`, `Unique`, `Divergence` and `Sides` have the proofs.
-- Prelude: shared tests, lists, orders, integers, texts, JSON values and tables with a primary
--   key. `Prelude.Canonical` sorts the keys of dicts, as `json.dumps` with `sort_keys` does.
--   `Prelude.Checked` is `require` with the exceptions of the two contracts, `Prelude.Keys`
--   the search for forbidden keys that both have.
-- The engine and the core state are two programs on two databases. In the engine, the harness
-- asks the store for a fence, runs the provider, stores a bridge receipt and applies it to the
-- store.
--
-- Conventions. A database transaction is a function that returns the new tables: an exception
-- carries none, since it is rolled back. Fresh ids and clock readings are arguments. Times are
-- millionths of a second in the engine, in which a lease term is an exact number; metrics of the
-- router are exact millionths. A table is a list in the order of insertion, which also breaks
-- ties that an ORDER BY leaves; a log has its newest entry first. An error text with an
-- interpolated role or value appears without it, and so does a code that an f-string extends
-- after a colon. Numbers have no upper bound, as Python's.
-- Parameters: `Codec` and `Digest` (json and SHA-256), `Trust` (the trusted verifiers with the
-- check of an RSA signature), `Net` (URL and address parsing, lower case), `Host` (the regular
-- expression of a request block, json and SHA-256 in the review dispatcher), `Library` (time
-- parsing, character classes, json and SHA-256 in the research contract), the order of texts,
-- the opener of a request, and the answers of providers to the executor. Where a receipt is read
-- back, `loads` of `dumps` is taken to give the value with its keys sorted, since the code dumps
-- with `sort_keys`.
-- Fuel: only the supersession loop of the review arbitration runs on fuel, one pass more than
-- there are candidates; comment ids increase from winner to winner, so that every pass uses up
-- one.
--
-- Not modelled: schema set-up and migrations, connections and their settings, snapshots for
-- display, cache files, manifest loading, name resolution, the API, the calls of research
-- providers and the launch chain, the data lines under v3 and research, and scripts.
pub mod Prelude
pub mod Engine
pub mod Core
pub mod Routing
pub mod Review
pub mod Mission
pub mod Research
