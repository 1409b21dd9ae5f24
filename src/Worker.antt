-- ===== src/Worker.antt =====
-- One contemplant as the registry sees it (src/hierophant/src/worker_registry/worker_state.rs), with
-- the registry's configuration (src/hierophant/src/config.rs).
--
-- Instants, system times and durations are nanoseconds. What a command finds of the outside world
-- is its `Env`: the clocks at that command, which channel takes which message, and the two float
-- conversions of a duration into whole minutes.
use hierophant.Prelude.{
  ℕ, ◌+◌, ◌-◌, ◌*◌, ◌%◌, String, Bool, true, false, not, ◌&&◌, Option, none, some, List, any, ltb,
  leb, ◌==◌, if◌then◌else◌,
}
use hierophant.Network.{
  VmKind, same_vm, ProgressUpdate, ContemplantProofRequest, vm, needs_groth16, needs_openvm_evm,
  FromHierophantMessage,
}

pub record Env : Type 0 where
  -- `Instant::now()` and `SystemTime::now()`
  pub now : ℕ
  pub system_now : ℕ
  -- whether `send` on this channel takes this message
  pub delivers : ℕ → FromHierophantMessage → Bool
  -- `(d.as_secs_f32() / 60.0) as u64` and `(d.as_secs_f64() / 60.0) as u64`
  pub f32_mins : ℕ → ℕ
  pub f64_mins : ℕ → ℕ

abbrev pub from_secs : ℕ → ℕ
from_secs s = s * 1000000000

-- `Instant::elapsed`, which stops at zero
abbrev pub elapsed : Env → ℕ → ℕ
elapsed env t = env.now - t

pub record RegistryConfig : Type 0 where
  pub max_worker_strikes : ℕ
  pub max_worker_heartbeat_interval : ℕ
  pub proof_timeout_mins : ℕ
  pub worker_required_progress_interval_mins : ℕ
  pub worker_max_execution_report_mins : ℕ
  pub assignment_startup_grace_secs : ℕ

-- `WorkerRegistryConfig::default`
abbrev pub default_config : RegistryConfig
default_config = record {
  max_worker_strikes = 3;
  max_worker_heartbeat_interval = from_secs 600;
  proof_timeout_mins = 300;
  worker_required_progress_interval_mins = 0;
  worker_max_execution_report_mins = 45;
  assignment_startup_grace_secs = 90;
}

pub record Busy : Type 0 where
  pub request_id : ℕ
  pub vm : VmKind
  pub mode_name : String
  pub start_time : ℕ
  pub progress : Option ProgressUpdate
  pub time_of_last_update : ℕ

pub data WorkerStatus : Type 0 where
  idle : WorkerStatus
  busy : Busy → WorkerStatus

pub record Capabilities : Type 0 where
  pub vms : List VmKind
  pub risc0_groth16 : Bool
  pub openvm_evm : Bool

pub record WorkerState : Type 0 where
  pub name : String
  pub status : WorkerStatus
  pub last_vm : Option VmKind
  pub capabilities : Capabilities
  pub strikes : ℕ  -- usize
  pub last_heartbeat : ℕ
  pub from_hierophant_sender : ℕ
  pub magister_drop_endpoint : Option String
  pub instance_nonce : ℕ

unfoldable pub new : Env → String → List VmKind → Bool → Bool → Option String → ℕ → ℕ → WorkerState
new env name vms groth16 evm endpoint nonce sender = record {
  name = name;
  status = idle;
  last_vm = none;
  capabilities = record { vms = vms; risc0_groth16 = groth16; openvm_evm = evm };
  strikes = 0;
  last_heartbeat = env.now;
  from_hierophant_sender = sender;
  magister_drop_endpoint = endpoint;
  instance_nonce = nonce;
}

abbrev pub status_is_idle : WorkerStatus → Bool
status_is_idle idle = true
status_is_idle (busy j) = false

abbrev pub is_busy : WorkerState → Bool
is_busy w = not (status_is_idle w.status)

unfoldable pub supports : WorkerState → VmKind → Bool
supports w k = any (λ v. same_vm v k) w.capabilities.vms

unfoldable pub can_serve : WorkerState → ContemplantProofRequest → Bool
can_serve w q =
    if not (supports w (vm q))
    then false
    else if needs_groth16 q && not w.capabilities.risc0_groth16
    then false
    else if needs_openvm_evm q && not w.capabilities.openvm_evm
    then false
    else true

abbrev pub completed_proof : WorkerState → WorkerState
completed_proof w = record w { status = idle; strikes = 0 }

abbrev pub failed_proof : WorkerState → WorkerState
failed_proof w = record w { status = idle }

abbrev pub add_strike : WorkerState → WorkerState
add_strike w = record w { strikes = (w.strikes + 1) % 18446744073709551616 }

abbrev pub assigned_proof : Env → ℕ → VmKind → String → WorkerState → WorkerState
assigned_proof env id k mode w = record w {
  status = busy (record {
    request_id = id;
    vm = k;
    mode_name = mode;
    start_time = env.now;
    progress = none;
    time_of_last_update = env.system_now;
  });
  last_vm = some k;
  strikes = 0;
}

abbrev pub heartbeat : Env → WorkerState → WorkerState
heartbeat env w = record w { last_heartbeat = env.now }

abbrev pub no_report : RegistryConfig → Option ProgressUpdate → ℕ → Bool
no_report c none mins = ltb c.worker_max_execution_report_mins mins
no_report c (some _) mins = false

-- The checks of `should_drop` on a busy worker.
unfoldable pub overdue : Env → RegistryConfig → Busy → Bool
overdue env c j =
    let mins_on_this_proof = env.f32_mins (elapsed env j.start_time) in
    if ltb c.proof_timeout_mins mins_on_this_proof
    then true
    else if leb j.time_of_last_update env.system_now
    then ltb 0 c.worker_required_progress_interval_mins
      && ltb c.worker_required_progress_interval_mins
          (env.f64_mins (env.system_now - j.time_of_last_update))
    else no_report c j.progress mins_on_this_proof

unfoldable pub should_drop : Env → RegistryConfig → WorkerState → Bool
unfolding overdue
should_drop env c w =
    if leb c.max_worker_strikes w.strikes
    then true
    else if leb c.max_worker_heartbeat_interval (elapsed env w.last_heartbeat)
    then true
    else elim w.status [ idle ↦ false | busy j ↦ overdue env c j ]

-- `Busy { request_id, .. } if request_id == target`
abbrev pub status_is_on : ℕ → WorkerStatus → Bool
status_is_on r idle = false
status_is_on r (busy j) = j.request_id == r

abbrev pub is_on : ℕ → WorkerState → Bool
is_on r w = status_is_on r w.status
