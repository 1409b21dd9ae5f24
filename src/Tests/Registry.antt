-- ===== src/Tests/Registry.antt =====
-- The registry on concrete inputs.
use hierophant.Prelude.{
  length, zero, ◌≤◌, ◌≡◌, refl, String, true, false, ◌⊎◌, none, some, [], ◌∷◌, arith, string_eq,
  nat_eq, any, All,
}
use hierophant.Prelude.Dict.{lookup}
use hierophant.Network.{
  needs_groth16, needs_openvm_evm, sp1, risc0, succinct, ContemplantProofRequest, risc0_request,
  request_id, vm,
}
use hierophant.Registry.Trim.Setting.{trim_workers-setting, with_setting}
use hierophant.Worker.{busy, Busy, Env, WorkerState, idle, default_config, supports, can_serve}
use hierophant.Registry.{asks_for, pending_queue_cap, WorkerRegistry, init, holds}
use hierophant.Registry.Owners.{entries}
use hierophant.Registry.Assign.{try_assign}
use hierophant.Registry.Assign.Outcome.{ready_at, try_assign_failed}
use hierophant.Registry.Assign.Chosen.{Chosen, Preferred, try_assign_placed}
use hierophant.Registry.Join.{Registration, handle_worker_ready}
use hierophant.Registry.Join.Handover.{handle_worker_ready-again, handle_worker_ready-busy}
use hierophant.Registry.Assign.Busy.{core, core_at}
use hierophant.Registry.Trim.{trim_workers}
use hierophant.Registry.Trim.Exact.{trim_workers_lem, buried, alive, due}
use hierophant.Registry.Drain.{drain_pending, is_stale}
use hierophant.Registry.Drain.Work.{drain_pending_lem, IsUnplaceable, IsGone, Sublist}
use hierophant.Registry.Commands.{handle, proof_status_request, assign_proof_request, worker_ready}
use hierophant.Registry.Invariant.{Inv}
use hierophant.Registry.Invariant.Load.{load}
use hierophant.Registry.Assign.{handle_assign_proof}
use hierophant.Registry.Assign.Accepted.{handle_assign_proof_lem}
use hierophant.Registry.Status.Heard.{heard}
use hierophant.Registry.Status.Once.{asked_in, heard_lem}
use hierophant.Registry.Runs.{Run, FreshRun, Run-Inv, FreshRun-load}

-- A clock at one hour, and a network on which every channel but 0 takes messages.
abbrev env : Env
env = record {
  now = 3600000000000;
  system_now = 3600000000000;
  delivers = λ channel m. elim channel [ zero ↦ false | _ ↦ true ];
  f32_mins = λ d. 0;
  f64_mins = λ d. 0;
}

abbrev request : ContemplantProofRequest
request = risc0_request (record {
  request_id = 7;
  elf = 1 ∷ 2 ∷ [];
  input = 3 ∷ [];
  mode = succinct;
  mock = false;
  wrap_of = none;
})

abbrev registration : Registration
registration = record {
  worker_addr = "10.0.0.1:80";
  worker_name = "anna";
  supported_vms = sp1 ∷ risc0 ∷ [];
  groth16_enabled = false;
  openvm_evm_enabled = false;
  magister_drop_endpoint = none;
  instance_nonce = 5;
  from_hierophant_sender = 11;
}

-- The same instance, on a new connection.
abbrev reconnection : Registration
reconnection = record registration { worker_addr = "10.0.0.1:81"; from_hierophant_sender = 12 }

abbrev worker : WorkerState
worker = record {
  name = "anna";
  status = idle;
  last_vm = none;
  capabilities = record { vms = sp1 ∷ risc0 ∷ []; risc0_groth16 = false; openvm_evm = false };
  strikes = 0;
  last_heartbeat = 3600000000000;
  from_hierophant_sender = 11;
  magister_drop_endpoint = none;
  instance_nonce = 5;
}

abbrev one_worker : WorkerRegistry
one_worker = record (init default_config) { workers = ("10.0.0.1:80", worker) ∷ [] }

-- The request waits, and no worker is there.
abbrev waiting : WorkerRegistry
waiting = record (init default_config) { pending_requests = (request, 3600000000000) ∷ [] }

unique_addresses : (a : String) → entries a one_worker.workers ≤ 1
unique_addresses a = ground arith

Run-Inv_example : Inv (
    handle env
      (assign_proof_request request)
      (handle env (worker_ready registration) (init default_config)))
Run-Inv_example = Run-Inv {c = default_config} (
    Run.command env (assign_proof_request request)
      (Run.command env (worker_ready registration) Run.started))

FreshRun-load_example : load 7 (handle env (assign_proof_request request) (init default_config)) ≤ 1
FreshRun-load_example =
    FreshRun-load {c = default_config} 7
      (FreshRun.command env (assign_proof_request request) refl FreshRun.started)

try_assign_placed_example :
    ((any (holds (request_id request)) one_worker.workers ≡ true)
      × ((try_assign env request one_worker).0 ≡ one_worker))
    ⊎ ((addr : String) × (w : WorkerState) × Chosen env request one_worker
          (try_assign env request one_worker).0
          addr
          w
        × Preferred env request one_worker w)
unfolding try_assign can_serve supports request_id vm needs_groth16 needs_openvm_evm
try_assign_placed_example = try_assign_placed env request one_worker unique_addresses refl

try_assign_failed_example :
    ready_at env request (lookup "10.0.0.1:80" (init default_config).workers) ≡ false
unfolding try_assign request_id
try_assign_failed_example = try_assign_failed env request (init default_config) "10.0.0.1:80" refl

trim_workers_lem_example :
    trim_workers env one_worker ≡ buried one_worker (alive env one_worker) (due env one_worker)
trim_workers_lem_example = trim_workers_lem env one_worker unique_addresses

drain_pending_lem_example :
    Sublist
      (IsGone env (drain_pending env waiting))
      (drain_pending env waiting).pending_requests
      waiting.pending_requests
    × All (λ x. is_stale env x ≡ false) (drain_pending env waiting).pending_requests
    × All
        (IsUnplaceable env (drain_pending env waiting))
        (drain_pending env waiting).pending_requests
drain_pending_lem_example = drain_pending_lem env waiting (λ a. ground arith)

-- A proof that began half an hour ago.
abbrev job : Busy
job = record {
  request_id = 7;
  vm = risc0;
  mode_name = "SUCCINCT";
  start_time = 1800000000000;
  progress = none;
  time_of_last_update = 1800000000000;
}

abbrev busy_worker : WorkerState
busy_worker = record worker { status = busy job }

abbrev one_busy : WorkerRegistry
one_busy = record waiting { workers = ("10.0.0.1:80", busy_worker) ∷ [] }

handle_worker_ready-again_example :
    (lookup "10.0.0.1:80" (handle_worker_ready env reconnection one_busy).workers ≡ none)
    × ((w : WorkerState) × (lookup "10.0.0.1:81"
            (handle_worker_ready env reconnection one_busy).workers
          ≡ some w)
        × (w.status ≡ busy job)
        × (w.name ≡ "anna")
        × (w.instance_nonce ≡ 5)
        × (w.from_hierophant_sender ≡ 12))
handle_worker_ready-again_example =
    handle_worker_ready-again env reconnection one_busy (λ a. ground arith) "10.0.0.1:80"
      busy_worker refl refl refl

-- Another worker registers.
abbrev newcomer : Registration
newcomer = record reconnection { worker_name = "bert" }

handle_worker_ready-busy_example :
    core_at "10.0.0.1:80" (handle_worker_ready env newcomer one_busy) ≡ some (core busy_worker)
handle_worker_ready-busy_example =
    handle_worker_ready-busy env newcomer one_busy (λ a. ground arith) "10.0.0.1:80" busy_worker
      refl refl refl refl

handle_assign_proof_lem_example :
    (any (holds (request_id request)) (handle_assign_proof env request one_worker).workers ≡ true)
    ⊎ ((any
            (asks_for (request_id request))
            (handle_assign_proof env request one_worker).pending_requests
          ≡ true)
        ⊎ (pending_queue_cap ≤ length one_worker.pending_requests))
handle_assign_proof_lem_example = handle_assign_proof_lem env request one_worker unique_addresses

-- A task asks after a proof that nobody has.
abbrev a_run : Run default_config (handle env (proof_status_request 7 3) (init default_config))
a_run = Run.command env (proof_status_request 7 3) Run.started

heard_lem_example :
    heard 3 (handle env (proof_status_request 7 3) (init default_config)) ≡ asked_in 3 a_run
heard_lem_example = heard_lem 3 a_run

trim_workers-setting_example :
    trim_workers env (with_setting 1 one_busy) ≡ with_setting 1 (trim_workers env one_busy)
trim_workers-setting_example = trim_workers-setting env 1 one_busy refl
