-- ===== src/Lib.antt =====
-- A verification library of DomainDetermine, for the parts that keep state and decide: the service's
-- job orchestration, the governance of artifacts, the prompt templates and their releases, the overlay
-- of the concepts, the readiness of a release, and the coverage planner's quotas.
--
-- The parts and how they work together:
-- A request for a job goes to the job manager, which asks the quota manager, stores a job in the
-- in-memory registry, records an event in the governance event log, and puts the job into a thread
-- pool. A worker takes the job, runs the handler of its type, and reports success or failure; a
-- failure puts the job back until its retries are used. Artifacts are published through the governance
-- registry, which checks dependencies, prompt references, hash, signature and semantic version, and
-- keeps the lineage. The access manager decides who may read or export an artifact. Nodes of the
-- overlay namespace pass through a life cycle of their own, with a record of each transition; the
-- review workbench and the pilot move them on. A release runs its readiness suites, passes the gate, and
-- its manifest is registered with the governance registry. The coverage planner combines facets
-- and distributes quotas over strata.
--
-- The files. Base and its modules: shared helpers. Base/Dict is a Python dict, an association list in the order
-- of insertion; Base/Json a JSON value; Base/Decimal, Base/Int and Base/Text Python's str, int and
-- text methods.
-- Service/Repos: src/DomainDetermine/service/repos.py, `InMemoryRegistry`, one function for each
-- method, with the clock's reading as an argument and the registry passed on. Repos/Artifacts,
-- Repos/Counting and Repos/Status hold its proofs.
-- Service/Jobs: src/DomainDetermine/service/jobs.py and service/events.py: `JobManager`,
-- `QuotaManager` and `ThreadedJobRunner`. `_execute` is the two functions `begin_job` and
-- `finish_job`, since another thread can run between them. Jobs/Steps has the step relation `Step`
-- and its closure `Reach`, Jobs/Soundness the invariant `IsSafe`, Jobs/Termination the runs `Work` of
-- the workers alone, Jobs/Draining where they end, Jobs/Quotas the check of a request against its limit,
-- Jobs/Concurrency requests on several threads, with Jobs/QuotaTables for what the workers leave. The manager's log is any `EventSink` (Governance/Sink),
-- which the file log is shown to be.
-- Governance/Models, EventLog, Versioning, Rbac, Registry: the files of the same names in
-- src/DomainDetermine/governance; Rbac has waivers.py as well. JSON texts, SHA-256 and the texts of
-- times are the standard library's: the interfaces `Codec` and `Hashing`, with what its
-- documentation promises as laws. Samples has a concrete instance.
-- PromptPack/Registry: src/DomainDetermine/prompt_pack/registry.py. PromptPack/Versioning: versioning.py
-- beside it, with the operations of `PromptVersionManager` in Versioning/Manager.
-- Overlay/Models and Overlay/Lifecycle: the files of the same names in src/DomainDetermine/overlay,
-- nodes and their states; Overlay/Lifecycle/States has the proofs. Overlay/Minting is the part of
-- lifecycle.py that finds identifiers and registers candidates. Overlay/Review and Overlay/Quality:
-- review.py, with the pilot in Review/Pilot, and quality.py; the measures of a pilot and the similarity of texts are the interfaces
-- `Measures` and `Library`.
-- Readiness/Pipeline: readiness/models.py and readiness/pipeline.py of src/DomainDetermine, one suite in
-- Pipeline/Attempts and a whole run in Pipeline/Runs;
-- Readiness/Gate and Readiness/Manifest: gate.py and manifest.py beside them. Manifest/Accepted composes
-- the manifest's registration with the checks of Governance/Registry.
-- CoveragePlanner/Combinatorics: src/DomainDetermine/coverage_planner/combinatorics.py.
-- CoveragePlanner/Allocation: allocation.py beside it: the rounding; Allocation/Maximums `_respect_maximums`;
-- Allocation/Strategies the thresholds of the branches, with Quotas the weights and strategies and
-- Solver the dispatch and the fallback. Floats are the interface `Floats`.
-- Service/Auth: src/DomainDetermine/service/auth.py.
-- Service/Tests, Governance/Tests, PromptPack/Tests, PromptPack/Runs, Overlay/Tests, Overlay/Runs,
-- Readiness/Tests, CoveragePlanner/Tests, CoveragePlanner/Runs: runs on small inputs.
--
-- Errors: a method that raises returns the error as a value beside the state that it leaves. Sets are
-- lists without repetition, and every read sorts them as the code does, or asks for membership.
--
-- Bounds: four functions have fuel. `show` writes a decimal numeral and gets one more than the number
-- itself; `value-show` shows that this is enough. `generate` tries identifiers and gets one round more
-- than there are issued ones, which `generate_total` shows to be enough. `loop` is the while loop of the
-- pairwise generator, which need not end: its run may be unfinished. `cap_loop` is the loop
-- of `_respect_maximums`, with two rounds, which `respect_maximums_lem` shows to be enough. Numbers are Python's, without a bound.
-- Times are natural numbers, the readings of a clock.
--
-- The model takes these to hold, and the source does not ensure them. A step is a whole method of the
-- manager or half of `_execute`: in `Step` a request is one step too, while the source
-- has no lock, so that requests on two threads can pass the check of the quota before either is counted.
-- `Tick` of Jobs/Concurrency has the check and the acceptance of a request as two steps. The
-- bound on the retries of a job is a natural number; a negative one acts as 0. Writing the event log and
-- calling the telemetry succeed: in the source either can raise after the governance registry has stored
-- a manifest. `generate` recurses in Python, whose limit on the depth is not modelled. The subtraction
-- that adjusts the total in `_respect_maximums` stops at 0, where Python's would go below, which
-- is a case outside the hypotheses of the theorems.
--
-- Not modelled: other interleavings inside a method of the registry or the manager, as
-- between the parts of `enqueue_job`; tracing and logging; the files of the lineage; the FastAPI application; the prompts
-- for overlay candidates; the linear program and the
-- data frames of the coverage planner; the processes
-- and files of the readiness runs; the auditor, mapping, evaluation suites, ingestion, and the command line.
pub mod Base
pub mod CoveragePlanner
pub mod Governance
pub mod Overlay
pub mod PromptPack
pub mod Readiness
pub mod Service
pub mod Samples
