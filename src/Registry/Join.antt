-- ===== src/Registry/Join.antt =====
-- Registration and liveness: `handle_worker_ready` and `handle_heartbeat`.
pub mod Owners
pub mod Handover
use hierophant.Prelude.{
  string_eq, str_eq, ℕ, String, Bool, true, false, not, ◌&&◌, ◌==◌, Option, none, some, List, find?,
  if◌then◌else◌,
}
use hierophant.Prelude.Dict.{lookup, remove, insert, modify}
use hierophant.Network.{VmKind}
use hierophant.Worker.{Env, WorkerState, WorkerStatus, idle, new, is_busy, heartbeat}
use hierophant.Registry.{WorkerRegistry, Workers, heartbeat_reply, emit}
use hierophant.Registry.Drain.{drain_pending}

-- The fields of `WorkerRegistryCommand::WorkerReady`.
pub record Registration : Type 0 where
  pub worker_addr : String
  pub worker_name : String
  pub supported_vms : List VmKind
  pub groth16_enabled : Bool
  pub openvm_evm_enabled : Bool
  pub magister_drop_endpoint : Option String
  pub instance_nonce : ℕ
  pub from_hierophant_sender : ℕ

-- Both have a Magister's endpoint: compare these. Otherwise compare the names.
abbrev pub same_instance : Registration → WorkerState → Bool
same_instance r w = elim r.magister_drop_endpoint [
  | none ↦ str_eq w.name r.worker_name
  | some new_ep ↦ elim w.magister_drop_endpoint [
    | none ↦ str_eq w.name r.worker_name
    | some old_ep ↦ str_eq new_ep old_ep
  ]
]

abbrev pub is_stale_entry : Registration → String × WorkerState → Bool
is_stale_entry r (addr, w) = not (str_eq addr r.worker_addr) && same_instance r w

-- `stale_key`
unfoldable pub stale_key : Registration → Workers → Option String
stale_key r ws = elim (find? (is_stale_entry r) ws) [ none ↦ none | some (addr, w) ↦ some addr ]

-- `carried_status`, from the removed entry
abbrev pub carried : Registration → Option WorkerState → WorkerStatus
carried r none = idle
carried r (some old) =
    if old.instance_nonce == r.instance_nonce && is_busy old then old.status else idle

-- The registry without the stale entry, and the status of the new entry.
unfoldable pub take_over :
    Registration → Option String → WorkerRegistry → WorkerRegistry × WorkerStatus
take_over r none g = (g, idle)
take_over r (some key) g =
    (record g { workers = remove key g.workers }, carried r (lookup key g.workers))

unfoldable pub supersede : Registration → WorkerRegistry → WorkerRegistry × WorkerStatus
unfolding stale_key take_over
supersede r g = take_over r (stale_key r g.workers) g

abbrev pub new_state : Env → Registration → WorkerStatus → WorkerState
new_state env r status = record w { status = status }
  where
    w : WorkerState
    w =
        new env r.worker_name r.supported_vms r.groth16_enabled r.openvm_evm_enabled
          r.magister_drop_endpoint r.instance_nonce r.from_hierophant_sender

-- Before the queue is drained.
unfoldable pub enroll : Env → Registration → WorkerRegistry → WorkerRegistry
unfolding supersede new
enroll env r g =
    let (g', status) = supersede r g in
    record g' { workers = insert r.worker_addr (new_state env r status) g'.workers }

unfoldable pub handle_worker_ready : Env → Registration → WorkerRegistry → WorkerRegistry
unfolding enroll drain_pending
handle_worker_ready env r g = drain_pending env (enroll env r g)

unfoldable pub handle_heartbeat : Env → String → ℕ → WorkerRegistry → WorkerRegistry
handle_heartbeat env addr sender g = elim (lookup addr g.workers) [
  | none ↦ emit (heartbeat_reply sender true) g
  | some _ ↦
      emit (heartbeat_reply sender false)
        (record g { workers = modify addr (heartbeat env) g.workers })
]
