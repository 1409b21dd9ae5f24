-- ===== src/Registry/Commands.antt =====
-- The event loop: `WorkerRegistryCommand`, and one round of `background_event_loop`.
use hierophant.Prelude.{◌/◌, ℕ, String, Option, none, some, [], ◌∷◌, length}
use hierophant.Network.{ContemplantProofRequest, ContemplantProofStatus, ProgressUpdate}
use hierophant.Worker.{Env, elapsed}
use hierophant.Registry.{WorkerRegistry, Pending, emit, pending_reply, workers_reply, history_reply}
use hierophant.Registry.Trim.{handle_drop_worker_of_request, handle_strike_worker_of_request}
use hierophant.Registry.Assign.{handle_assign_proof}
use hierophant.Registry.Join.{Registration, handle_worker_ready, handle_heartbeat}
use hierophant.Registry.Reports.{
  handle_proof_complete, handle_proof_progress_update, handle_proof_status_response,
}
use hierophant.Registry.Status.{handle_proof_status_request}

-- A `resp_sender` stands as a number.
pub data WorkerRegistryCommand : Type 0 where
  assign_proof_request : ContemplantProofRequest → WorkerRegistryCommand
  worker_ready : Registration → WorkerRegistryCommand
  proof_status_request : (target_request_id resp_sender : ℕ) → WorkerRegistryCommand
  proof_status_response : ℕ → Option ContemplantProofStatus → WorkerRegistryCommand
  proof_complete : ℕ → WorkerRegistryCommand
  proof_progress_update : ℕ → Option ProgressUpdate → WorkerRegistryCommand
  pending_info : (resp_sender : ℕ) → WorkerRegistryCommand
  workers : (resp_sender : ℕ) → WorkerRegistryCommand
  dead_workers : (resp_sender : ℕ) → WorkerRegistryCommand
  proof_history : (resp_sender : ℕ) → WorkerRegistryCommand
  heartbeat : String → (should_drop_sender : ℕ) → WorkerRegistryCommand
  strike_worker_of_request : ℕ → WorkerRegistryCommand
  drop_worker_of_request : ℕ → WorkerRegistryCommand

-- The age of the front of the queue, in whole seconds.
abbrev pub oldest_secs : Env → Pending → Option ℕ
oldest_secs env [] = none
oldest_secs env ((q, queued_at) ∷ rest) = some (elapsed env queued_at / 1000000000)

unfoldable pub handle : Env → WorkerRegistryCommand → WorkerRegistry → WorkerRegistry
handle env (assign_proof_request q) g = handle_assign_proof env q g
handle env (worker_ready r) g = handle_worker_ready env r g
handle env (proof_status_request r sender) g = handle_proof_status_request env r sender g
handle env (proof_status_response r s) g = handle_proof_status_response env r s g
handle env (proof_complete r) g = handle_proof_complete env r g
handle env (proof_progress_update r u) g = handle_proof_progress_update env r u g
handle env (pending_info sender) g =
    emit (pending_reply sender (length g.pending_requests) (oldest_secs env g.pending_requests)) g
handle env (workers sender) g = emit (workers_reply sender g.workers) g
handle env (dead_workers sender) g = emit (workers_reply sender g.dead_workers) g
handle env (proof_history sender) g = emit (history_reply sender g.proof_history) g
handle env (heartbeat addr sender) g = handle_heartbeat env addr sender g
handle env (strike_worker_of_request r) g = handle_strike_worker_of_request env r g
handle env (drop_worker_of_request r) g = handle_drop_worker_of_request env r g
