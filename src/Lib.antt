-- ===== src/Lib.antt =====
-- Converge (api/): an engine that takes workflow events over HTTP, keeps them in PostgreSQL, moves
-- them through Redis streams to workers, retries what fails, dead-letters what goes on failing, and
-- replays dead letters on request.
--
-- The parts and their files.
-- - Base: the library names, Boolean tests, lists as the rows of a query (Lists), GROUP BY (Groups),
--   and sorting (Sorted).
-- - Models (api/app/models.py): a record for each mapped class, and the status values. A UUID is a
--   number, a moment a number of microseconds, JSON a data type (integers only).
-- - Service: what the program calls and does not implement, as records of operations with the laws
--   that it relies on: the database (Tables), Redis, and in World the clock, UUIDs and random numbers
--   (Platform). World is also the state of a run, with exceptions and state as a monad; Hoare has
--   the rules for what a step keeps, Loading what a select of an event gives. Ordering is ORDER BY,
--   LIMIT and OFFSET.
-- - Retry (api/app/core/retry_policy.py) and Retry/Bounds.
-- - Streams (api/app/core/redis_streams.py): publishing and scheduling.
-- - Demo (api/app/demo/checkout_simulator.py): the simulated failures.
-- - Worker (api/app/workers/worker.py): process_event_stub, _handle_success, _handle_failure and the
--   inner loop of run, here handle_success, handle_failure, handle_message and handle_messages; the
--   loop's body is attempt_event with try_block. Failure says what a failed and a succeeded attempt
--   write, Dispatch which way a message goes, Counting, Outcome, Settled, Drained and AckFailure
--   what follows.
-- - Lifecycle: a state machine of an event's status, failed attempts and limit, with which
--   Worker/Refines compares the worker.
-- - Crew (api/app/workers/worker.py): several workers over one database, as a sequence of the commits
--   of all of them. A commit writes the columns that the session has changed. Sound and Kept are about
--   every such sequence; Alone, Follows and Messages compare the worker of Worker with one of a crew.
-- - Process (api/app/workers/worker.py): the main thread of run, from the groups and the registration
--   to the outer finally, and _gc_stale_workers. A run has a list of turns, the reads that the outer loop makes
--   before the shutdown flag is set. Rows, Ended and Swept say what it leaves in the tables.
-- - Replay (api/app/core/replay.py): replay_dead_letter, whose second half is requeue.
-- - Ingest (api/app/core/idempotency.py): get_or_create_event, where `others` is what other sessions
--   commit between the statements. Unique is about any such sessions, Again about none. Publish
--   (api/app/api/events.py, api/app/core/event_backends.py) is ingest_event; Queued is about its answer,
--   Kept about the rows. A refresh reads the row again, after what others have committed.
-- - Workflows (api/app/api/workflows.py): get_workflow; Parts says how its numbers add up. Queries
--   (also api/app/api/deadletters.py, api/app/api/events.py) has the endpoints that list rows or read
--   one event: list_workflows, get_workflow_timeline, list_deadletters, recent_events, get_event, here
--   get_event_details, and replay_deadletter. Order and Paging are about the pages of a list, Stored
--   about an event that has come in, Timeline about the timeline and the summary of a workflow.
-- - Security (api/app/core/security.py, api/app/config.py): require_api_key and the body size;
--   Access says who is let through.
-- - RateLimit (api/app/core/security.py): RateLimitMiddleware, where dispatch_all is a sequence of
--   requests; Window compares it with a limiter that remembers all times.
-- - Http (api/app/main.py, api/app/core/security.py): the middleware and the exception handlers, from
--   request_logging_middleware, here serve_request, to the routes, which are a parameter; Answered
--   is about the answers. Logging (api/app/core/logging.py): _safe_make_record and
--   JsonFormatter.format; Kept is about the extra fields.
-- - Convergence (api/app/core/convergence.py): Rows has the queries, Report the report; Counts, Sound
--   and Totals say what the counts come to.
-- - Metrics (api/app/api/metrics.py), and Insights (api/app/api/insights.py) with Groups on the services
--   and the event types, Histogram on the durations, and in Recent the errors and the throughput.
-- - Summaries (api/app/core/incident_summary.py) with Cached, and Advice (recommend_retry_policy of
--   api/app/core/ai_insights.py) with Chosen. Anomalies is detect_anomalies of the same file, with Few
--   on the outliers, Halves on the two halves and Report on the whole; RootCause is
--   root_cause_analysis, with Explained.
-- - Scheduler (api/app/workers/retry_scheduler.py), with Scheduler/Moved, and Heartbeat
--   (api/app/workers/heartbeat.py, api/app/api/workers.py), with Heartbeat/Stale.
-- - Incident (scripts/incident_recovery_agent.py): the rules on a benchmark artifact, in Review the
--   review with its trace, and in Verdict
--   how the verdict agrees with the recommendation.
-- - Harness (scripts/replay_harness.py): the client that submits events and polls. A polling loop is
--   poll_until, over what a turn does; Loops is about such loops, Results and Complete are
--   about wait_for_terminal_events.
-- - Runs, Benchmark (scripts/benchmark_replay.py) and Chaos (scripts/chaos_replay.py): a run and the
--   artifact that it writes, built on Harness. Runs has what the two share, with Steps and, on the
--   percentiles, Places; Bounded and Recovered are about the numbers of an artifact.
-- - Accounting: the invariant between events.attempt_count and the rows of event_attempts.
-- - Tests: concrete services, runs, and the theorems at concrete inputs.
--
-- A World is that of one session. World.held is the event object that its session still
-- holds: api/app/database.py sets expire_on_commit=False, so that a select of that row gives the
-- object as it is. A request has a session of its own, which holds nothing at its start.
--
-- Bounds. Attempts are natural numbers, as they only grow from 0; a negative max_attempts acts as 0.
-- Loops over rows and messages are recursions on lists. A polling loop has fuel, one more than the
-- nanoseconds of its timeout: the clock goes on between two turns, so that it never runs out.
--
-- Not modelled: the sleep of process_event_stub, the threads of the heartbeat and of the retry
-- scheduler beside a running worker (the writes of each are functions of Heartbeat and
-- Scheduler), float rounding (rates, averages and the jitter are exact fractions), errors of the
-- database, the routing of FastAPI and the settings of the application, the health checks and the
-- JSON for ForgeLog, the command lines and the texts of the scripts, the load test, the benchmark
-- of ForgeLog, the schema scripts of Alembic, and the Go worker and ForgeLog, which are other
-- programs.
pub mod Base
pub mod Models
pub mod Service
pub mod Retry
pub mod Streams
pub mod Demo
pub mod Accounting
pub mod Worker
pub mod Crew
pub mod Lifecycle
pub mod Replay
pub mod Ingest
mod Tests
pub mod Convergence
pub mod Metrics
pub mod Summaries
pub mod Advice
pub mod Anomalies
pub mod RootCause
pub mod Insights
pub mod Harness
pub mod Runs
pub mod Benchmark
pub mod Chaos
pub mod Heartbeat
pub mod Scheduler
pub mod Security
pub mod RateLimit
pub mod Logging
pub mod Http
pub mod Workflows
pub mod Queries
pub mod Incident
pub mod Process
