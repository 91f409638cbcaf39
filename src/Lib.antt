-- ===== src/Lib.antt =====
-- RepoWorker lets a remote client work on an enrolled repository: it hands out task workspaces, runs
-- commands in containers, drives an autonomous coding loop and publishes what was verified. This
-- library models the parts that decide what a client may do and in what order.
--
-- Security (internal/security/policy.go): the policy engine. `Types` holds its records, `Values` the
--   checks of identifiers and paths, `Environment` that of environment lists, `Compile` the functions
--   validatePolicy, Compile and CompileExecution. `State` is the engine as a record of three maps and
--   the audit log, with `Reads` for what one call reads from the clock, the context and crypto/rand;
--   `Authorize` is Authorize, one function per stage between its early returns, and `Sessions` the
--   other operations; `Operators` has the authorities that approve a confirmation. `History` runs a
--   list of operations, in the order in which they take the engine's lock, and carries properties
--   through it. The hash of trusted references is a parameter.
-- Security.Replay (internal/security/request_replay.go): the cache of accepted requests.
-- Security.Authentication (internal/security/auth.go): the two principal providers, over HMAC and
--   SHA-256 as parameters.
-- Loop (internal/loop/loop.go): the controller of the autonomous loop. `Services` is what it calls, the
--   model, the authority and the event store, over a world that the calls change; `Controller` has
--   one function per phase and `Runs` New, Run and load. `Rule` carries a property from turn to turn.
--   The loop runs on fuel, 6 * max_retries + 10 turns, and `Termination` shows that this is enough.
--   `Journal` puts the authority's successes on a record, from which `Evidence` and `Completion` read
--   what a completed run has done.
-- Publication (internal/publication/publication.go): the adapter that plans or carries out a
--   publication, over a runner and a snapshot provider. `Gate` records the commands that it runs,
--   and `Executables` has the guard of OSRunner.
-- Workspace (internal/workspace/workspace.go): generations and their leases. `Types` has the workspace
--   root as a map of directories with three metadata files each, `Reads` what one critical section
--   reads from the clock and how its writes end; `Generations`, `Leases` and `Mutations` have one
--   function per method, a method that gives up the mutex in two parts. `Change` is the abstract
--   relation that the operations refine (`Refines`, `Rewrites`, `Fenced`), and `History` runs lists
--   of operations, over which `Fencing` and `Retired` have the properties.
-- Workspace.Integration (internal/workspace/integration.go): `Plans` has the plans and the live tree
--   as a map of files, `Apply` ApplyIntegration over the tree and the journal's file, where the
--   process may stop between any two writes, and `Recovery` the recovery of journals. `Paths`,
--   `Confined` and `Crash` carry what the journal claims from step to step to `Outcomes`. SHA-256 is a parameter.
-- Scheduler (internal/scheduler/scheduler.go): `Queue` has New, Submit and RunSubmitted, `Graph` the
--   validation of a job graph, on fuel for the depth of its search, `Admission` the choice of the
--   next job and `Run` the rounds of Run over a script of what each round reads and which result it
--   takes. `Reach` is the relation of states that Run reaches; `Totals`, `Figures` and `Accounts`
--   compare its figures with the jobs that run, and `Order`, `Ending`, `Least` and `Batch` have its
--   other properties. Numbers are words of 64 bits (Go.Int64), and the quotient of float64 is a
--   parameter.
-- Process (internal/process/process.go): the buffer of a process's output. `Output` has appendChunk
--   and Read; `Paging`, `Transcript` and `Whole` have what a client gets who reads page after page.
-- Go: what the code uses of Go's library (strings, utf8, hex, filepath), on byte strings. Prelude:
--   tests on numbers, lists, byte strings and maps. Examples: each at work on small inputs.
--
-- A string is the list of its bytes. A string type whose values the code compares with named constants
-- is a data type of those constants and `other`. A map is a list of keys and values. Times and
-- durations are nanoseconds, with zero for the zero time and for what is not positive. An error is
-- the sentinel that errors.Is finds in it. JSON, SHA-256, crypto/rand, the clock, the event store and
-- the processes are parameters.
--
-- Not modelled: the issuing of credentials, the plan of an integration, the walks that copy a tree or
-- take its snapshot, the control plane, the stores, the starting and ending of processes and
-- containers, the verification runner, the repository access and the server's tool handlers.
pub mod Examples
pub mod Go
pub mod Loop
pub mod Prelude
pub mod Process
pub mod Publication
pub mod Scheduler
pub mod Security
pub mod Workspace
