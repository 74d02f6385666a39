-- ===== src/Lib.antt =====
-- The Python harness of the repository (experiments/): the mock of the seller API that the services
-- deliver to, the load generator, the alert rule, and the checker that gives the verdicts on a run.
--
-- The workload plans the events of a run. The load generator sends them to the source service, which
-- delivers them to the mock; the observer samples the source while this happens; afterwards the
-- checker reads the mock's tables, the load generator's records and the services' logs, and judges
-- the run.
--
--   Event       the delivery event, a JSON object (experiments/isolation/trace.py, `build`)
--   MockApi     experiments/mock-partner-api/server.py. Tables: the SQLite file and its statements.
--               Ledger: the class `Ledger`, with the queue and one round of `write_loop`. Handler:
--               POST /orders, where `arrive` and `decide` are the two sections under the lock.
--               Decisions: any sequence of calls, in the order in which they take the lock.
--               Threads: the handler threads and the writer in any interleaving, as a step relation.
--               Durable: what the writer's rounds leave in the file.
--   RunCheck    experiments/isolation/check.py. Stats, Overlap, Window: `pct`, `max_overlap`,
--               `time_above`, `max_in_window`. Run: the files that `check` reads. Safety, Liveness,
--               Budget: three verdicts; each has a module Sound that says what passing means.
--               Latency, Evidence: the cohorts and the validity of the measurement.
--               Observability: the rows rebuilt from acceptance and effect times, and the loop over
--               the episodes of an overdue backlog.
--   Checker     experiments/checker.py, `check`: the exactly-once check, as a list of errors.
--   BudgetAudit experiments/verify_budgets.py: concurrent calls and retry admissions of one run.
--   Workload    experiments/isolation/trace.py, `build` and `phase_bounds`: the planned events.
--   Observer    experiments/isolation/observer.py: the alert of each tick of the sampling loop.
--   Load        experiments/isolation/load.py: the attempts of `Sender.run` for one event. Pool: the
--               queue between `main` and its sender threads, as a step relation.
--   Collector   experiments/collector.py: the sampling loop with its ring, limits and capture.
--   Suite       experiments/isolation/suite.py. Specs: the run specifications. Budget: the runs that
--               are started within the time. Rate: `stable_at_80` and the stage c0. Pick: the
--               selection rule. Plan: all stages, `all`. Instruments: two verdicts of G0.
--   Runner      experiments/isolation/runner.py. Wait: `wait_for` and `_drain`. Schedule: the steps
--               that a run plans. StaleOwner: `_stale_owner`, with the partner hosts as its state.
--               Execute: the parts of a run and its clean-up.
--   LocalRun    experiments/run.py: the dataset, the settings and faults of a case, the input loop.
--   EndToEnd    experiments/end_to_end.py: the contract on the emitted events.
--   EvidencePaths  experiments/evidence_paths.py: where evidence may be written.
--   Reports     experiments/ops_report.py and experiments/comparison_report.py: overlapping calls.
--               Buffer: `buffer_timeline` of experiments/isolation/report.py.
--   Base        names, lists, dicts in insertion order, stable sorting, grouping.
--   Tests       runs of the models on concrete values.
--
-- Times are whole milliseconds. Where the source computes in floats, the model says what they do:
-- the quantiles are the three for which the float rank is the exact one, and `max_in_window` keeps the
-- rounding of the double near a time. The mock's concurrency is a list of calls in the order of the
-- lock, or a step relation on its threads, as the load generator's is; whether SQLite can commit a
-- group is a Boolean argument of the writer. `range(1, 6)` of the load generator is a
-- recursion on the attempts that are left. The loops that poll recur on fuel, one turn for each
-- millisecond of the timeout, and every turn takes at least the pause; the input loop has a turn for
-- each event, and moves on by one at least. All other functions recur on lists. Shuffles, the time
-- that a run takes, the files it leaves, and the comparisons of two medians in floating point are
-- parameters of the suite; the order of strings is one of the run checker, the time that a call of the
-- input loop takes and the times it stamps are those of the local controller, and the resolution of a
-- path and the answers of git are those of the evidence paths.
--
-- Not modelled: HTTP, JSON texts (a text is the value it encodes), processes, ssh and docker, the
-- Java services, the observer check of the suite, the processes and the SQL of the local controller
-- and of the end-to-end run, the migrations, and the formatting of the reports.
pub mod Base
pub mod Event
pub mod MockApi
pub mod Reports
pub mod RunCheck
pub mod Observer
pub mod Workload
pub mod BudgetAudit
pub mod Collector
pub mod EndToEnd
pub mod EvidencePaths
pub mod LocalRun
pub mod Runner
pub mod Suite
pub mod Load
pub mod Checker
pub mod Tests
