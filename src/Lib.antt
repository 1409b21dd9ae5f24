-- ===== src/Lib.antt =====
-- The Hierophant is a prover network: it takes proof requests from clients, hands each to one of the
-- contemplants that are connected to it, and gives the finished proofs back. This library models
-- the parts that decide, and says what they guarantee.
--
-- Network models src/network-lib: proof requests, what a request demands of a worker, progress
-- reports and their merge, and the messages between the two programs.
--
-- Worker models src/hierophant/src/worker_registry/worker_state.rs and the registry's configuration
-- in src/hierophant/src/config.rs. One field or constructor stands for one of the source. `Env` is
-- what a command finds of the world: the clocks, which channel takes which message, and the float
-- conversions of durations into minutes.
--
-- Registry models src/hierophant/src/worker_registry/registry.rs. The state is `WorkerRegistry`,
-- with a field `effects` that records what is sent, oldest first. A hash map is the list of its
-- entries, in any order. The handlers keep their names, and a loop or a block of a handler has a
-- function of its own: Trim has `trim_workers` and the strike and drop commands, Assign has
-- `try_assign` and `handle_assign_proof`, Drain has `drain_pending`, Join has `handle_worker_ready`
-- and `handle_heartbeat`, Reports has the progress, completion and status reports, Status has
-- `handle_proof_status_request`, and Commands has `handle`, one round of `background_event_loop`.
-- Runs are the histories of that loop. The modules below these hold the proofs.
--
-- ProofStore models src/contemplant/src/proof_store: a contemplant's vector of its last proofs.
-- Artifact models src/hierophant/src/artifact_store: the names of artifacts, and the store on disk
-- over a file system that may refuse to remove, read or write. A panic of either stands as `none`.
--
-- Proof models src/hierophant/src/proof/status.rs, `get_proof_status` of router.rs there, and
-- `proof_status_request` of src/hierophant/src/worker_registry/client.rs.
--
-- Service models `get_proof_request_status` of
-- src/hierophant/src/api/grpc/prover_network_service.rs with `get_vk` of
-- src/hierophant/src/hierophant_state.rs, over the artifact store and what the registry answers. The
-- libraries that decode a proof or a key and verify a proof are parameters.
--
-- Service.Requests models the other calls of that file and create_artifact_service.rs beside it, and
-- Service.Downloads the task that fetches circuit artifacts and then routes a proof, in the steps
-- between which a client can ask. Waiting and Keys hold theorems about both.
--
-- Contemplant models the other end: message_handler.rs, worker_state.rs and proof_executor/mod.rs of
-- src/contemplant/src, with the registration of api/connect_to_hierophant.rs there; Residency is about
-- the backend that stays warm. Executor models risc0_executor.rs and openvm_executor.rs: what they
-- report to the proof store (Answer and Outcome), and when the OpenVM worker is given up (Deaths).
-- Executor.Sp1 models sp1_executor.rs beside them, and Rewarmed is about a run of it.
--
-- Dispatch models `handle_message_from_contemplant` of
-- src/hierophant/src/api/websocket.rs with the calls of client.rs that it makes; Served follows a
-- registration from the contemplant to the requests that it is given.
--
-- Proof.Routes models the routes of src/hierophant/src/proof/router.rs, which put a request together
-- and send it to the registry.
--
-- Jobs models the status poll that the REST surfaces share. A `Surface` is how one of them reads and
-- writes its maps. A poll is a function from one step to the next, split where the source takes the
-- lock or waits. Machine says what a client sees of a job, Refinement is about a poll alone, and Runs,
-- Soundness and Sticky are about any number of polls at once, in every order of their steps.
--
-- OpenVm models src/hierophant/src/openvm: the handlers of router.rs, the maps of state.rs, and in
-- Verify the retries of verify.rs. Bonsai models src/hierophant/src/bonsai in the same way; its sessions
-- and its wraps are two surfaces. Each has a module for its surface (Status), for where the proofs
-- come from (Soundness), and for what a new job leads to (Create).
--
-- OpenVmWorker models src/openvm-worker-proto/src/lib.rs: messages, frames, and one round trip with the
-- worker process.
--
-- Tests has the concrete inputs.
--
-- Numbers are unbounded, but for the strikes of a worker, which wrap at 2^64, and the i32 codes,
-- which stand as their 32-bit patterns. A loop of the source goes once
-- through a list, but for two: a status poll ends within seven steps, and a round trip with the worker
-- reads as many frames as its stream has bytes at most. Instants are nanoseconds.
--
-- Not modelled: the tasks that move bytes over websockets and HTTP, the configuration files, the
-- start of the OpenVM worker process, the construction of the executors, the provers and verifiers, and the rate model of
-- a contemplant, which is floating point.
-- Printing to the log is left out throughout. The library that prints and parses UUIDs is a
-- parameter of the artifact names.
pub mod Prelude
pub mod Network
pub mod Worker
pub mod Registry
pub mod ProofStore
pub mod Artifact
pub mod Proof
pub mod Service
pub mod Jobs
pub mod OpenVmWorker
pub mod OpenVm
pub mod Bonsai
pub mod Contemplant
pub mod Executor
pub mod Dispatch
pub mod Tests
