-- ===== src/Lib.antt =====
-- taskcage: a daemon that runs commands under Linux cgroups with bounded resources and output, keeps
-- their results in memory and answers idempotent submissions over local and remote protocols.
--
-- The parts, and the files that model them:
--
-- * Policies (core/src/policy/mod.rs): Policy/Error, Cpu, Resource, Output and Budget hold the value
--   types and their constructors `try_new`, the comparison `validate_within_maximum` and its errors;
--   Policy/Exact and Policy/Maximum are about what they accept. A NonZeroU64 is the number that it
--   holds, a u128 product the product itself.
-- * Task results (core/src/task/mod.rs, core/src/output.rs): Core/Task and Core/Output. Profile calls
--   (core/src/capsule/invocation.rs): Core/Invocation, the types that idempotency compares.
-- * Artifacts (core/src/artifact/digest.rs and mod.rs): Artifact/Digest is `Sha256Digest` with its
--   `Display` and `FromStr`, Artifact/LocalPath is `ArtifactPath::parse`, whose accepted texts
--   Artifact/PathExact describes, Artifact/DeclaredOutput is `DeclaredOutputArtifact::new`. A text is
--   the list of its UTF-8 bytes.
-- * Output capture (linux-runtime/src/executor/capture.rs): Capture is the ring buffer `BoundedTail`,
--   whose slice writes Capture/Write describes by index; Capture/Refine has its abstract view, the
--   last bytes of a stream.
-- * Deadlines (linux-runtime/src/deadline.rs): Deadline. Kernel counters
--   (linux-runtime/src/cgroup/events.rs): Cgroup/Events.
-- * Lifecycle (daemon/src/lifecycle.rs): Lifecycle/Latch is `TerminalTriggerLatch`, Signals the names
--   of signals, Evidence and Classify the classification of a termination, Single and Completion the
--   task that goes from RUNNING to FINISHED. A completion takes the kernel's events from
--   Cgroup/Events and the output from Core/Output.
-- * Capacity (daemon/src/capacity.rs): Capacity has the instructions of `TaskCapacity` and its permits,
--   Capacity/Interleave every owner's program and the steps of all of them, Capacity/Bounds their
--   invariant.
-- * Fail-stop (daemon/src/fail_stop.rs): FailStop has the coordinator's methods, FailStop/History every
--   sequence of them.
-- * Registry (daemon/src/adapters/task_registry.rs, with its errors and observations from
--   daemon/src/application/task/ports.rs and identities from daemon/src/application/task/submit.rs):
--   Registry/Types has the data, Registry/State what a method does under the lock, Registry/Methods
--   the methods of `TaskRegistry`, Registry/Owner those of `SubmitExecutionOwner` and of
--   `FinishedTaskPublication`, and error texts. Registry/Invariant, Purge, Cases and Mutations carry
--   the proofs about one change, Registry/History, Stable and Retention those about every history,
--   Kept and Completed what is answered about a finished task, Rollback what a rejection gives back.
--   Its latch of a cancellation is that of Lifecycle/Latch.
-- * Metrics (daemon/src/metrics.rs): Metrics has `RuntimeMetrics` and its two updates, Metrics/Laws
--   their totals.
-- * Submission (daemon/src/application/task/submit.rs and completion.rs, with the end of `run_task`
--   in daemon/src/adapters/linux_executor.rs and `runner_execution_failure` in
--   daemon/src/adapters/task_service.rs): Submit/Types has what the daemon shares between submissions,
--   Submit/Execution how an execution ends, Submit/Completion what becomes of a slot and of an active
--   execution, Submit/Owner the functions that `run_owner` calls, Submit/Coordinate
--   `coordinate_validated_submit_with_runtime`, in the parts between which other threads act, and
--   Submit/History the daemon with the owners that run. Submit/Live, Effects and Ends say what one
--   stretch of code does to the slots and to fail-stop, Counts, Accounting, Stages, Admitted, Slots
--   and Leaks carry that through every history, Granted is about the answers, Stopping is about
--   fail-stop.
--
-- * Profile calls (daemon/src/application/capsule/contract.rs and daemon/src/profile_mapper.rs, with
--   the contract's types from daemon/src/capsule.rs and
--   daemon/src/adapters/outbound/bundle_catalog.rs): Profile/Types has the contract and the outcome,
--   Names the grammars of names, Inputs, Arguments and Resources the checks, Contract
--   `verify_profile_call`, which runs them, and Mapper `materialize_invocation`, which makes argv.
--   Verified and Granted say what an accepted call has passed and is given, Clean and Bound what its
--   arguments are, Paths, Materialized and Pipeline what a materialization of them can meet, Tokens
--   and Argv what it makes. Profile/Bundle and Compile have `validate_bundle`, `CapsuleIdentity::new`
--   and the compilation of a capsule; Accepted and Compiled compare the two. The semver library and
--   SHA-256 are parameters. A BTreeMap is an association list that ascends, a path and a token the
--   list of its bytes, and the text of an error the value that it is formatted from. The provenance
--   and the digests of a capsule are left out, since no check reads them, and the text of an error in
--   a manifest is a value that says what it is about; a binary search stands for the membership in a
--   list that ascends.
--
-- Prelude passes on the names of the libraries and declares what the parts share: Boolean tests,
-- texts and their UTF-8 bytes, lists over the native numbers, results with the `?` operator, and
-- maps. A HashMap is an association list in which an insertion replaces the entry of its key; no
-- operation depends on the order of a HashMap.
--
-- Conventions. An Instant and a Duration are numbers of nanoseconds; a clock reading is an argument of
-- the method that reads the clock, so a theorem holds for every clock. A usize has 64 bits. Methods that
-- hold a mutex are functions on the state, since the lock orders them; atomics are stepped one
-- instruction at a time, in every interleaving. A poisoned lock is written out in the registry; in the
-- other components it is left out. Shared cells are addresses
-- and functions on addresses. The notifications that wake waiters are left out of the registry:
-- a waiter reads the cell again in its loop. Loops recur on their input; the only fuel is that of
-- `decimal`, a number's own value, of which a number has no more digits.
--
-- The code between two awaits of a submission or of its owner is one action of a history, and
-- actions follow one another in any order; the beginning of a submission is three of them, the
-- lookup, the admission, whose guard excludes fail-stop, and the claim of a slot, and an activation
-- of fail-stop is an action of its own, since executions and other parts of the daemon activate it
-- at any time. Within one action, what threads interleave is left to the theorems about the single
-- components, each of which locks its state or is stepped by instruction. An execution's end is an
-- argument: what the kernel did, as the adapter reports it. A `JoinHandle` is not aborted, so that
-- the channel to the submission is always answered.
--
-- Not modelled: the wire protocols and their codecs, configuration and authentication files, the
-- cgroup file system and process creation, archives, signatures and the formats of runtime packages,
-- the command line and the Java SDK. The decoding of output to UTF-8 is a parameter. The execution
-- plan that a submission carries is left out of it, since the registry only passes it on.
pub mod Prelude
pub mod Core
pub mod Policy
pub mod Cgroup
pub mod Deadline
pub mod Capture
pub mod Capacity
pub mod FailStop
pub mod Lifecycle
pub mod Registry
pub mod Artifact
pub mod Metrics
pub mod Submit
pub mod Profile
