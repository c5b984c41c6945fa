-- ===== src/Lib.antt =====
-- A verification library of the COBOL-to-Java modernizer (src/cobol_modernizer): the parts that decide
-- how money is spent, which side of a migration serves a request, what is generated again, and whether
-- migrated code is equivalent to the mainframe's.
--
-- The program takes a COBOL repository through a journey of stages. Agents propose seams, stories,
-- designs and code; deterministic code plans, budgets, gates, verifies and deploys. The library is
-- about the deterministic code. Its modules and the files they model, from the repository's root:
--
-- - Cost: src/cobol_modernizer/cost. Policy is CostLedger and CostPolicy of policy.py, Verifier is
--   CostVerifier of verifier.py, Scaling is tiering.py and scaling.py.
-- - Deploy: src/cobol_modernizer/deploy. Routing is RoutingController of routing.py and the check of
--   stoppable.py; Evidence is smoke.py, perf_baseline.py and their records in models.py; Rollback is
--   RollbackGuard of rollback.py; Canary is CanaryOrchestrator of canary.py, which drives the others and
--   the cost policy; Fitness is fitness.py with the report of models.py.
-- - ControlPlane: src/cobol_modernizer/controlplane. Jobs is JobRunner of jobs.py, Gates is stages.py and
--   upsert_gate of gates_util.py.
-- - Persistence: src/cobol_modernizer/persistence. WorkUnits is the work units of repo.py and tables.py.
-- - Codegen: src/cobol_modernizer/codegen. Budget is budget.py with the environment readers of
--   patch_agent.py, QualityGate is quality_gate.py, RepairLoop is repair_loop.py and schema.py, StoryPlan
--   is story_plan.py, StoryQuality is story_quality.py.
-- - StoryRunner: src/cobol_modernizer/codegen/story_runner.py. The module itself has the waves of a plan,
--   Plan one pass over a plan, UntilDone the passes until a build is done, Paths the files that are
--   written, Environment and Lifecycle the run of one story. UntilDone calls Plan, Plan calls the run of
--   a story through an argument, and Lifecycle/Outcome puts run_story of Lifecycle in its place. BuildGate
--   is the verdict on the results, _gate_stage of src/cobol_modernizer/controlplane/build_stories.py.
-- - Mimic: src/cobol_modernizer/mimic. Codec is codec.py, Layout is layout.py and LegacyMimicWriter of
--   writeback.py.
-- - Equivalence: src/cobol_modernizer/equivalence. Tolerance, Differ and RecordLayout are the files of
--   those names; Lab is defect.py, report.py, seam_link.py and run_equivalence of lab.py; Subslice is the
--   split of lab.py; CobolNumeric is cobol_numeric.py, which reads what Mimic/Codec writes.
-- - Planner: src/cobol_modernizer/planner. Stories is schema.py, dependency.py and tagging.py, Invest is
--   invest.py, Quality is quality.py and the verdict of run_plan of
--   src/cobol_modernizer/controlplane/analysis.py, Dag is dag.py.
-- - Backlog: src/cobol_modernizer/backlog. Its records are schema.py, Dependencies is dependency.py,
--   Readiness is readiness.py.
-- - Traceability: src/cobol_modernizer/traceability/coverage.py with the report of schema.py.
-- - Prelude: the Boolean tests, results, lists, sorting, dicts and integers that the others share.
--
-- How the code is written down. State is a record that each operation takes and returns; what the code
-- writes before it raises stays written. An exception is an error value. A method under a lock is one
-- step, so a history of calls is an interleaving of threads. A dict is an association list in insertion
-- order. Floats are whole numbers of a unit: money in micro-dollars, rates in millionths, latencies and
-- wall times in microseconds, latency ratios in ten-thousandths, rounded half to even. Python integers
-- are unbounded, so no width is modelled; a decimal field is a sign and a magnitude in units of its last
-- place. A picture and a build log are given by what the code's regular expressions find in them.
--
-- What is not under src/cobol_modernizer is an argument: the sha256 digest, the clock, the liveness of
-- threads, the environment and the reading of its numbers, the answers of agents, builds, probes and the
-- graph. Each of these answers may be an exception where the code gives it a chance to be one: the
-- smoke and performance callables of a canary, the agents, the test runs, and the database and ledger
-- calls around a story. A test run may change any file of the disk. The callables of a canary change
-- neither its route nor its ledger, and its guard resets the routing controller of its deps. The
-- repair loop runs on fuel of one round more than the attempts allowed, since every round but
-- the last makes an attempt. The passes of a build have a round to an attempt of the cap and one to stop,
-- since a story that still may be retried was in every pass before. The waves of a plan, the order of a
-- backlog and the queue of the story graph have a round to a story, since each round takes one at least.
-- Every other loop is structural.
--
-- Not modelled: the agents and their prompts, the graph database, the COBOL parser, the web service and
-- the command line, which call others or do I/O; the seam and domain analyses, the generator of the
-- backlog, and the store of golden values. Of the story runner, the entries of the work-unit
-- ledger, the telemetry of a run and the texts of its rationales are left out, and the stories of a wave, which the code runs
-- concurrently, are asked in their order: a run gets no state of the others, so that any interleaving is
-- an answer of its environment.
pub mod Prelude
pub mod Cost
pub mod Deploy
pub mod ControlPlane
pub mod Persistence
pub mod Backlog
pub mod Codegen
pub mod StoryRunner
pub mod Mimic
pub mod Equivalence
pub mod Planner
pub mod Traceability
