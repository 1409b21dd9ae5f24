-- ===== src/Registry.antt =====
-- The worker registry's state and its environment (src/hierophant/src/worker_registry/registry.rs
-- and command.rs). The event loop takes one command at a time, so a handler is a function from the
-- registry to the registry; what it sends is recorded in `effects`, oldest first.
pub mod Owners
pub mod Trim
pub mod Assign
pub mod Drain
pub mod Join
pub mod Reports
pub mod Status
pub mod Commands
pub mod Invariant
pub mod Runs
use hierophant.Prelude.{ℕ, ◌==◌, ◌*◌, String, Bool, Option, none, List, [], ◌∷◌, ◌++◌}
use hierophant.Network.{
  request_id, VmKind, ContemplantProofRequest, ContemplantProofStatus, FromHierophantMessage,
}
use hierophant.Worker.{is_on, RegistryConfig, WorkerState, from_secs}

-- `minutes_to_complete` stands as the elapsed duration from which the source computes the float.
pub record CompletedProofInfo : Type 0 where
  pub proof_request_id : ℕ
  pub vm : VmKind
  pub proof_mode : String
  pub worker_addr : String
  pub worker_name : String
  pub time_to_complete : ℕ

abbrev pub Workers : Type 0
Workers = List (String × WorkerState)

abbrev pub Pending : Type 0
Pending = List (ContemplantProofRequest × ℕ)

-- What the event loop sends: on a contemplant's channel, to a Magister, or on the oneshot channel
-- of a waiting task, which stands as a number.
pub data Effect : Type 0 where
  message : ℕ → FromHierophantMessage → Effect
  magister_drop : String → Effect
  status_reply : ℕ → Option ContemplantProofStatus → Effect
  heartbeat_reply : ℕ → Bool → Effect
  pending_reply : ℕ → ℕ → Option ℕ → Effect
  workers_reply : ℕ → Workers → Effect
  history_reply : ℕ → List CompletedProofInfo → Effect

pub record WorkerRegistry : Type 0 where
  pub config : RegistryConfig
  pub workers : Workers
  pub dead_workers : Workers
  pub awaiting_proof_status_responses : List (ℕ × List ℕ)
  pub proof_history : List CompletedProofInfo
  pub pending_requests : Pending
  pub effects : List Effect

-- `WorkerRegistryClient::new`
abbrev pub init : RegistryConfig → WorkerRegistry
init c = record {
  config = c;
  workers = [];
  dead_workers = [];
  awaiting_proof_status_responses = [];
  proof_history = [];
  pending_requests = [];
  effects = [];
}

abbrev pub pending_queue_cap : ℕ
pending_queue_cap = 64

abbrev pub pending_ttl : ℕ
pending_ttl = from_secs 7200

abbrev pub emit : Effect → WorkerRegistry → WorkerRegistry
emit e g = record g { effects = g.effects ++ e ∷ [] }

-- Who works on a request, and who waits for it.
abbrev pub holds : ℕ → String × WorkerState → Bool
holds r (addr, w) = is_on r w

abbrev pub asks_for : ℕ → ContemplantProofRequest × ℕ → Bool
asks_for r (q, queued_at) = request_id q == r

abbrev pub on_worker : (WorkerState → WorkerState) → String × WorkerState → String × WorkerState
on_worker f (addr, w) = (addr, f w)
