-- ===== src/Contemplant.antt =====
-- A contemplant's side of the conversation: worker_state.rs, message_handler.rs and
-- proof_executor/mod.rs of src/contemplant/src, and the registration in api/connect_to_hierophant.rs.
-- The provers are libraries: an executor stands as what its configuration says, and as whether its
-- backend has died for good. The decoder of messages is a parameter.
pub mod Residency
use hierophant.Prelude.{
  ℕ, String, Bool, true, false, Option, none, some, List, [], ◌∷◌, ◌++◌, if◌then◌else◌, is_some,
  not,
}
use hierophant.Network.{
  Bytes, VmKind, sp1, risc0, open_vm, same_vm, ContemplantProofRequest, sp1_request, risc0_request,
  openvm_request, vm, request_id, ContemplantProofStatus, WorkerRegisterInfo, contemplant_version,
  FromHierophantMessage, proof_request, proof_status_request,
}

-- `cuda_deaths` has come to its limit
pub record Sp1Executor : Type 0 where
  pub backend_permanently_dead : Bool

pub record Risc0Executor : Type 0 where
  pub groth16_enabled : Bool

pub record OpenVmExecutor : Type 0 where
  pub evm_enabled : Bool
  pub worker_permanently_dead : Bool

pub record WorkerState : Type 0 where
  pub sp1_executor : Option Sp1Executor
  pub risc0_executor : Option Risc0Executor
  pub openvm_executor : Option OpenVmExecutor
  pub instance_nonce : ℕ
  pub resident_vm : Option VmKind

abbrev pub lives : Option Sp1Executor → Bool
lives none = false
lives (some e) = not e.backend_permanently_dead

abbrev pub has_worker : Option OpenVmExecutor → Bool
has_worker none = false
has_worker (some e) = not e.worker_permanently_dead

-- `push` where the test holds
abbrev pub push_if : Bool → VmKind → List VmKind → List VmKind
push_if b v out = if b then out ++ v ∷ [] else out

unfoldable pub supported_vms : WorkerState → List VmKind
supported_vms s =
    push_if (has_worker s.openvm_executor) open_vm
      (push_if (is_some s.risc0_executor) risc0 (push_if (lives s.sp1_executor) sp1 []))

abbrev pub groth16_of : Option Risc0Executor → Bool
groth16_of none = false
groth16_of (some e) = e.groth16_enabled

unfoldable pub groth16_enabled : WorkerState → Bool
groth16_enabled s = groth16_of s.risc0_executor

abbrev pub evm_of : Option OpenVmExecutor → Bool
evm_of none = false
evm_of (some e) = e.evm_enabled

unfoldable pub openvm_evm_enabled : WorkerState → Bool
openvm_evm_enabled s = evm_of s.openvm_executor

-- What is registered at each connection, with the name and the endpoint of the configuration.
unfoldable pub register_info : String → Option String → WorkerState → WorkerRegisterInfo
unfolding supported_vms groth16_enabled openvm_evm_enabled
register_info name magister_drop_endpoint s = record {
  name = name;
  contemplant_version = contemplant_version;
  supported_vms = supported_vms s;
  groth16_enabled = groth16_enabled s;
  openvm_evm_enabled = openvm_evm_enabled s;
  magister_drop_endpoint = magister_drop_endpoint;
  instance_nonce = s.instance_nonce;
}

-- What handling a message does: `release_gpu` is called on a backend (which for RISC Zero does
-- nothing), an executor is given a request, the task that ends the process is told, a status is sent.
pub data Effect : Type 0 where
  released : VmKind → Effect
  executed : ContemplantProofRequest → Effect
  exits : (request_id : ℕ) → Effect
  responds : (request_id : ℕ) → Option ContemplantProofStatus → Effect

unfoldable pub has_executor : WorkerState → VmKind → Bool
has_executor s sp1 = is_some s.sp1_executor
has_executor s risc0 = is_some s.risc0_executor
has_executor s open_vm = is_some s.openvm_executor

-- The hot backend goes where another one is wanted.
unfoldable pub evict : WorkerState → (requested_vm : VmKind) → Option VmKind → List Effect
unfolding has_executor
evict s requested_vm none = []
evict s requested_vm (some current) =
    if same_vm current requested_vm
    then []
    else if has_executor s current
    then released current ∷ []
    else []

unfoldable pub execute_proof : WorkerState → ContemplantProofRequest → WorkerState × List Effect
unfolding evict vm request_id
execute_proof s q = (
  record s { resident_vm = some (vm q) },
  evict s (vm q) s.resident_vm
      ++ (if has_executor s (vm q) then executed q else exits (request_id q)) ∷ [],
)

-- A message of the websocket.
pub data Message : Type 0 where
  close : Message
  binary : Bytes → Message
  other : Message

-- `ControlFlow`
pub data Control : Type 0 where
  continues breaks : Control

-- What a message finds: the proof store's answer, and whether the response channel takes a message.
pub record Surroundings : Type 0 where
  pub get : ℕ → Option ContemplantProofStatus
  pub sends : Bool

abbrev pub Handled : Type 0
Handled = WorkerState × List Effect × Control

abbrev pub on_message : Surroundings → WorkerState → Option FromHierophantMessage → Handled
on_message m s none = (s, [], continues)
on_message m s (some (proof_request q)) = let r = execute_proof s q in (r.0, r.1, continues)
on_message m s (some (proof_status_request r)) =
    if m.sends then (s, responds r (m.get r) ∷ [], continues) else (s, [], breaks)

module _ (deserialize : Bytes → Option FromHierophantMessage) where
  unfoldable pub handle_message_from_hierophant : Surroundings → Message → WorkerState → Handled
  unfolding execute_proof
  handle_message_from_hierophant m close s = (s, [], breaks)
  handle_message_from_hierophant m (binary bytes) s = on_message m s (deserialize bytes)
  handle_message_from_hierophant m other s = (s, [], continues)

  -- Every message in turn, until one breaks the connection; the next connection goes on with the
  -- same state.
  unfoldable pub receive : List (Surroundings × Message) → WorkerState → WorkerState × List Effect
  unfolding handle_message_from_hierophant
  receive [] s = (s, [])
  receive ((m, msg) ∷ ms) s =
      let r = handle_message_from_hierophant m msg s in
      let rest = receive ms r.0 in (rest.0, r.1 ++ rest.1)
