-- ===== src/Lib.antt =====
-- A model of the core of the marketing agent's backend (backend/app): the run of the agent from
-- evidence to a draft that waits for a human, the ledger that makes each publication happen once,
-- the router that spends money on model calls, the limits of the login routes, and the schedule of
-- runs.
-- How the parts interact: the worker's ticks start the runs that the schedule makes due; the driver
-- takes the run through its nodes, which call the router; an approved run publishes through
-- actuate, which asks the ledger first, behind the weekly ceiling that counts the ledger's rows,
-- and so does a queued post; the score is the report that the driver reads at VALIDATE. The routes
-- start, resume, approve and reject a run; the executor's tasks drive it with one of the two
-- drivers, and write its row. The driver's events become a run's timeline, which screens poll. A
-- run's channels are normalised where it starts. The limiter and the gate stand before the password
-- hashing and share nothing with the rest, and the body limit stands around every route.
--
-- Agent: backend/app/agents/graph.py, backend/app/agents/state.py and
--   backend/app/agents/state_graph.py.
--   Agent.State: AgentState, RunCaps, step, charge, record_error, enter_validate_loop, new_state.
--   Agent.Verdicts: verdicts, opportunity_exit, validate_exit, cap_exit, node_failure,
--   resumable_skip.
--   Agent.Driver: run_graph (the loop is loop, its body turn, what follows a node branch) and
--   _run_node
--   (settle_node), with the events that they emit.
--   Agent.StateGraph: run_state_graph, build_state_graph, _wrap, _router and _next_unvisited over
--   any LangGraph that obeys its documentation.
-- Actuators: backend/app/actuators/contract.py, backend/app/actuators/actuate.py,
--   backend/app/db/adapters/action_store.py.
--   Actuators.Ledger: claim, settle and published_since of PostgresActionStore on the table of
--   actions.
--   Actuators.Actuate: actuate in one process. Actuators.Interleaving: its awaits as steps of
--   several.
-- Llm: backend/app/llm/contract.py, backend/app/llm/pricing.py, backend/app/llm/route_config.py,
--   backend/app/llm/sampling.py, backend/app/llm/router.py.
--   Llm.Pricing: PRICE_TABLE, compute_usd. Llm.Routes: the routing tables and RouteResolver.
--   Llm.Router: _usable, resolve, _provider_for, estimate_usd and complete of ModelRouter.
-- RateLimit: backend/app/core/rate_limit.py.
--   RateLimit.Window: InMemoryWindowCounter. RateLimit.Redis: RedisWindowCounter over any server.
--   RateLimit.Limiter: FixedWindowRateLimiter over any two counters. RateLimit.Gate:
--   ConcurrencyGate.
-- BodyLimit: backend/app/core/body_limit.py, BodySizeLimitMiddleware around any application.
-- Schedule: backend/app/services/automation_service.py, compute_next_run and the two rules behind
--   it.
-- Posts: backend/app/services/social_post_service.py, the queue of posts and what publishes one of them.
-- Worker: backend/app/worker/scheduler.py, with pause_automation, the comparison of monthly_cap_state,
--   and the function due_automations of the database's migrations.
--   Worker.Ticks: the ticks of any processes, their steps in any order.
-- Publish: backend/app/services/publish_cap.py, the weekly ceiling over the ledger's count.
-- Seo: backend/app/engines/seo/score.py, aggregate and what it is made of, for findings of any
--   rules.
-- Channels: backend/app/engines/channel/specs.py, and normalise_channels of agents/state.py.
-- Chunks: backend/app/engines/kb/chunk.py, the splits of its regular expressions being parameters.
-- Runs: backend/app/services/run_service.py over InMemoryRunStore.
--   Runs.Events, Runs.Payloads: the timeline. Runs.Service: the operations on a run's row.
--   Runs.Executor: RunExecutor of backend/app/services/run_executor.py, a task as its phases.
--   Runs.Routes: start_run, resume_run, approve_run, reject_run of backend/app/api/runs.py.
--   Runs.World: these requests and the tasks' phases in any order.
-- Json, Strings, Prelude: dictionaries of JSON values, methods of str, and shared helpers.
--
-- How code is rendered. An await that can fail is a value of a sum. A node, an integration, a model
-- provider, a Redis server and the database of time zones are parameters: functions that may answer
-- anything, an exception included, and that may look at the calls before theirs. A node writes into
-- the state's dictionary, into its errors and into its cost, and not into the driver's own fields.
-- An exception's text is kept as its cause. A sum of money is a natural number of units of 1e-8
-- USD, the ledger's quantum, so that Decimal arithmetic is exact; a clock reading is a number of
-- seconds or nanoseconds, as its file says; a UUID is a number; the numbers in JSON values are
-- naturals.
-- Concurrency. Requests and tasks of one process interleave at the tasks' awaits: between them the
-- store and the executor change at once. The ledger's rows and the gate's calls are changed by
-- steps in any order; a step is what the code does between two awaits, or one SQL statement. A
-- process that dies is one that takes no further step. The gate's work runs on the threads of the
-- default executor, whose number is a parameter.
-- Fuel. The driver's loop runs on the fuel that Agent.Driver.enough computes: each step uses one of
-- the steps that are left, one more than the ceiling at most, and between two steps at most eleven
-- nodes are skipped. The loop of the schedule has fuel for the two rounds that its comment names:
-- behind the jump the anchor is less than a stride before the date, and a week is more than the
-- offsets of two readings of a zone. A text is cut with its length as fuel, each cut taking one
-- character at least. Every other loop is by recursion on a list, a text or an application.
-- The drivers. LangGraph is a parameter: a compiled graph is data, and an invocation reaches END or
-- the place that it interrupts before by super-steps, within the recursion limit. The executor runs
-- either driver.
-- Not modelled. The nodes themselves, but for EXPORT's test of the approver; the text of a
-- checkpoint, which is kept as the state that it encodes; the sentences of reasons, which are a
-- parameter where a row stores them; the integrations and the model adapters, which are network
-- clients; the other HTTP routes, OAuth, the database session and migrations; the crawler, the HTML
-- and the other text engines; tracing; the per-loop caches of clients and semaphores; the HMAC of a
-- limiter's key and Unicode's lower case, which are parameters; overflow of dates past the year
-- 9999; a run's identifier in the ledger, with its foreign key; the flag more_body of a request's
-- message, which the body limit hands on. The tenant's row-level security is seen only in the
-- ledger's own comparison of business ids.
mod Prelude
pub mod Channels
pub mod BodyLimit
pub mod Chunks
pub mod Json
pub mod Strings
pub mod Worker
pub mod Agent
pub mod Actuators
pub mod RateLimit
pub mod Llm
pub mod Schedule
pub mod Posts
pub mod Publish
pub mod Runs
pub mod Seo
