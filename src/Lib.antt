-- ===== src/Lib.antt =====
-- The run control of the radiant slurm gateway, and the subsystems beside it: what the gateway keeps
-- of simulation runs and their workers, how it starts and stops them, which results earn a game
-- outcome, and which reactors of a game session have telemetry workers.
--
-- The program. backend/slurm-gateway is an HTTP gateway in Go. Its run control takes a request for a
-- run, stores the run with its planned workers, asks a worker runtime (Docker, Kubernetes or a
-- contract stub) to launch them, takes in their telemetry, judges the run by the states of its
-- workers, and stops it. Events leave through an outbox of publication intents. A controller checks
-- requests; a lifecycle policy and a stop orchestrator call the store, the runtime and the event log.
-- The Artifact Forge takes a player's request, asks the controller for a run under a key of its own,
-- and grants an outcome when the run is complete and its result artifact and lineage pass the rules.
-- The reactor telemetry manager keeps a set of workers per reactor of a session, launches it, signs the
-- credentials of its sources, and cleans it up on removal or expiry.
-- The fleet board takes a player's intents to these two, reconciles both on a schedule, and keeps the
-- health of that schedule. The twin state publisher stores a state of the digital twin and gives it to
-- an event log, again after a failure.
-- All files that are named below without a folder are in backend/slurm-gateway/internal/gateway.
--
-- The files.
--   Common and its children: the names of the libraries that the others share, tests on numbers,
--     lists, maps (Common/Dict, an association list for `map[string]V`), texts (Common/Text), and
--     Go's errors with the outcome of a fallible call (Common/Error).
--   Simops/Types: the records and enumerations of simops_types.go, simops_state.go, simops_store.go
--     and simops_delivery.go. Simops/Config: SimopsConfig of config.go.
--   Simops/State, Simops/Facts, Simops/Derive: simops_state.go, the first states, what happens to one
--     worker's state, and the judgment over the workers of a run. Simops/Worker: what may happen to a
--     worker's state in place, as a step relation.
--   Simops/Connection, Simops/Profile: simops_run_connection_profile.go.
--   Simops/Store and its children: InMemorySimopsStore of simops_store.go. Simops/Changes: what may
--     happen to a store, as a step relation, with the proofs about reachable stores.
--   Simops/Runtime: the interfaces SimopsSpooler and SimopsEventLog of simops_adapters.go, and
--     MemorySimopsEventLog.
--   Simops/Contract: ContractSimopsSpooler of simops_adapters.go, the runtime without workers.
--   Simops/Planner: IcebergArtifactPlanner of simops_adapters.go.
--   Simops/StopOrchestrator: simops_stop_orchestrator.go.
--   Simops/Outbox, Simops/LaunchCheck, Simops/Recovery, Simops/Retry, Simops/Start:
--     simops_run_lifecycle.go, in this order the dispatch of intents, the checks of a launch and the
--     records of a failed one, the failure path with its compensation, the retry of an incomplete
--     start, and Start.
--   Simops/Request, Simops/Ingest, Simops/Controller: simops_controller.go, the checks of requests, the
--     ingest handler, and the others.
--   Simops/Tests: examples.
--   Workbench/Types: the records of workbench_types.go, twin_types.go and scada_types.go that the
--     subsystems below use.
--   Forge: artifact_forge.go. Types has the records, Store the store in memory, Rules and Judgment the
--     checks, Manager evaluate, Association associateRun, resume and enforceCaps, Intake the methods
--     that callers use. Kept and History are about every order of these methods, Eligible about the
--     evidence of an outcome, Caps about the limits.
--   Reactors: reactor_telemetry_worker_set.go. Types, Config and Store are the data, Sources and
--     Credential what a worker is declared as and signs with, Manager, Relaunch, Registration and
--     Cleanup the methods. Changes is what the methods do to the store, Reached every order of them.
--   Fleet: fleet_board_intents.go and lifecycle_health.go. Module has the interfaces of the two managers
--     as records of functions, Sessions and Intents the methods that call them, Managers the Artifact
--     Forge and the reactor manager as what fills them, Health the health of scheduled work.
--   Twin: twin_state_publication.go. Types has the records, also those of twin_types.go, Validation the
--     check of a publication, Publisher the publisher over the interfaces of its store and event log.
--
-- State and operations. A type has the source's fields, and an operation the source's name, in
-- snake case: `CreateRun` is `create_run`. A method of the store takes its arguments, the clock's
-- reading if it reads the clock, and the store, and returns an error or the new store; it holds the
-- store's lock from start to end, so it is one step. An error of a store method comes before any
-- write. A handler passes on a `World`, the store with the list of calls made to the runtime. Steps
-- of other requests between two calls of one handler are not interleaved with it, except in the
-- relations of Simops/Changes and Simops/Worker, which allow every order of store operations. The
-- Artifact Forge and the reactor manager each hold a lock of their own for a whole method, so a method
-- is a step of Forge/History or of Reactors/Reached; each has a world with its store and what it calls.
--
-- Values. Counters are natural numbers, `int` settings integers, without a bound on their width. A
-- time is the number of nanoseconds since the zero time. A map is met in the order of insertion where
-- Go leaves the order open. A handler reads the clock once where the source reads it several times;
-- the readings date records, and decide whether an incomplete start is stale. The texts of errors
-- keep their format verbs where a value would be printed. A record that is JSON text is a text.
--
-- Parameters. The worker runtime and an event log are records of functions of which nothing is
-- assumed but what a theorem names; the digest of SHA-256 and json.Marshal are functions; random
-- identifiers and tokens, the decoded body and the answer of a context's Err are arguments. The forge's
-- eligibility store, the reactors' runtime, their registrar of sources, and json, base64 and HMAC in a
-- credential are functions too, and so are the store and the event log of the twin state publisher,
-- whose stores are not modelled. A context's Err may depend on the calls that were made before it is
-- asked: the contract runtime takes it so, and the event log in memory takes the answer.
--
-- Recursion is structural everywhere; only the printing of a number takes fuel, the number itself
-- plus one, which is more than it has digits.
--
-- Not modelled: the bodies of responses, HTTP routing, the reading of configuration, the stores over
-- PostgreSQL, the broker and Iceberg adapters, the runtimes for Docker and Kubernetes, the stream
-- gateway, the frames of floating-point samples of reactor_telemetry_worker_set.go, and the subsystems
-- with states of their own that are left (the workbench's store, data flush), and the Prometheus text of
-- the health.
pub mod Common
pub mod Simops
pub mod Workbench
pub mod Forge
pub mod Reactors
pub mod Fleet
pub mod Twin
