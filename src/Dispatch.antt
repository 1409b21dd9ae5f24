-- ===== src/Dispatch.antt =====
-- What hierophant does with a contemplant's message: `handle_message_from_contemplant` of
-- src/hierophant/src/api/websocket.rs over `worker_ready`, `proof_status_response` and `heartbeat` of
-- src/hierophant/src/worker_registry/client.rs. The decoder of messages is a parameter.
pub mod Served
use hierophant.Prelude.{ℕ, String, Bool, Option, none, some, List, [], ◌∷◌, str_eq, if◌then◌else◌}
use hierophant.Network.{
  Bytes, WorkerRegisterInfo, contemplant_version, ContemplantProofStatus, FromContemplantMessage,
  register, proof_status_response, heartbeat,
}
use hierophant.Registry.Join.{Registration}
use hierophant.Registry.Commands.{WorkerRegistryCommand, worker_ready}
use hierophant.Contemplant.{Message, close, binary, other, Control, continues, breaks}

-- A connection: the address as it is printed, the channel to the contemplant, whether the registry
-- takes commands, and the one-shot channel of a heartbeat with the answer that comes on it.
pub record Connection : Type 0 where
  pub worker_addr : String
  pub from_hierophant_sender : ℕ
  pub serves : Bool
  pub should_drop_sender : ℕ
  pub should_drop : Option Bool

-- The commands that go to the registry, and whether the connection stays.
abbrev pub Dispatched : Type 0
Dispatched = List WorkerRegistryCommand × Control

abbrev pub registration : Connection → WorkerRegisterInfo → Registration
registration c i = record {
  worker_addr = c.worker_addr;
  worker_name = i.name;
  supported_vms = i.supported_vms;
  groth16_enabled = i.groth16_enabled;
  openvm_evm_enabled = i.openvm_evm_enabled;
  magister_drop_endpoint = i.magister_drop_endpoint;
  instance_nonce = i.instance_nonce;
  from_hierophant_sender = c.from_hierophant_sender;
}

-- A command that the registry must take for the connection to stay.
abbrev pub send_or_break : Connection → WorkerRegistryCommand → Dispatched
send_or_break c cmd = if c.serves then (cmd ∷ [], continues) else ([], breaks)

-- `WorkerRegistryClient::worker_ready`
unfoldable pub ready : Connection → WorkerRegisterInfo → Dispatched
ready c i =
    if str_eq contemplant_version i.contemplant_version
    then send_or_break c (worker_ready (registration c i))
    else ([], breaks)

-- `WorkerRegistryClient::proof_status_response`
abbrev pub status_response : Connection → ℕ → Option ContemplantProofStatus → Dispatched
status_response c r st = send_or_break c (WorkerRegistryCommand.proof_status_response r st)

abbrev pub of_answer : Option Bool → Control
of_answer none = continues
of_answer (some should_drop) = if should_drop then breaks else continues

-- `WorkerRegistryClient::heartbeat`: a command that is not taken drops its one-shot channel.
unfoldable pub beat : Connection → Dispatched
beat c =
    if c.serves
    then (
      WorkerRegistryCommand.heartbeat c.worker_addr c.should_drop_sender ∷ [],
      of_answer c.should_drop,
    )
    else ([], continues)

unfoldable pub dispatch : Connection → Option FromContemplantMessage → Dispatched
unfolding ready beat
dispatch c none = ([], continues)
dispatch c (some (register i)) = ready c i
dispatch c (some (proof_status_response r st)) = status_response c r st
dispatch c (some heartbeat) = beat c

module _ (deserialize : Bytes → Option FromContemplantMessage) where
  unfoldable pub handle_message_from_contemplant : Connection → Message → Dispatched
  unfolding dispatch
  handle_message_from_contemplant c close = ([], breaks)
  handle_message_from_contemplant c (binary bytes) = dispatch c (deserialize bytes)
  handle_message_from_contemplant c other = ([], continues)
