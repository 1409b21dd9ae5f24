-- ===== src/Dispatch/Served.antt =====
-- From the registration of a contemplant to the requests that it is given.
use hierophant.Prelude.{
  ◌≡◌, refl, String, Bool, true, Option, none, some, List, [], ◌∷◌, ◌++◌, any, is_some, arith,
}
use hierophant.Network.{
  Bytes, VmKind, sp1, risc0, open_vm, same_vm, ContemplantProofRequest, vm, needs_groth16,
  needs_openvm_evm, FromContemplantMessage, register,
}
use hierophant.Worker.{Env, WorkerStatus, can_serve, supports, new as new_worker}
use hierophant.Registry.Join.{Registration, new_state}
use hierophant.Registry.Commands.{worker_ready}
use hierophant.Contemplant.{
  WorkerState, Sp1Executor, OpenVmExecutor, supported_vms, groth16_enabled, openvm_evm_enabled,
  register_info, lives, has_worker, has_executor, evict, execute_proof, executed, binary, continues,
}
use hierophant.Dispatch.{Connection, registration, ready, dispatch, handle_message_from_contemplant}

lives_some : (o : Option Sp1Executor) → lives o ≡ true → is_some o ≡ true
lives_some none h = absurd cc
lives_some (some e) h = refl

has_worker_some : (o : Option OpenVmExecutor) → has_worker o ≡ true → is_some o ≡ true
has_worker_some none h = absurd cc
has_worker_some (some e) h = refl

-- A VM that is advertised has an executor.
supported_has_executor :
    (s : WorkerState) (k : VmKind)
    → any (λ v. same_vm v k) (supported_vms s) ≡ true
    → has_executor s k ≡ true
unfolding supported_vms has_executor
supported_has_executor s sp1 h = ground (arith, h, lives_some s.sp1_executor)
supported_has_executor s risc0 h = ground (arith, h)
supported_has_executor s open_vm h = ground (arith, h, has_worker_some s.openvm_executor)

-- What an accepted request finds among the capabilities of a worker.
pub record Finds (vms : List VmKind) (groth16 evm : Bool) (q : ContemplantProofRequest)
    : Type 0 where
  pub supported : any (λ v. same_vm v (vm q)) vms ≡ true
  pub groth16_served : needs_groth16 q ≡ true → groth16 ≡ true
  pub evm_served : needs_openvm_evm q ≡ true → evm ≡ true

accepted-Finds :
    (env : Env) (r : Registration) (st : WorkerStatus) (q : ContemplantProofRequest)
    → can_serve (new_state env r st) q ≡ true
    → Finds r.supported_vms r.groth16_enabled r.openvm_evm_enabled q
unfolding can_serve supports new_worker
accepted-Finds env r st q h = record {
  supported = ground (arith, h);
  groth16_served = λ n. ground (arith, h, n);
  evm_served = λ n. ground (arith, h, n);
}

-- What a contemplant does with a request of hierophant's.
pub record IsServed (s : WorkerState) (q : ContemplantProofRequest) : Type 0 where
  pub effects : (execute_proof s q).1 ≡ evict s (vm q) s.resident_vm ++ executed q ∷ []
  pub groth16_served : needs_groth16 q ≡ true → groth16_enabled s ≡ true
  pub evm_served : needs_openvm_evm q ≡ true → openvm_evm_enabled s ≡ true

module _ (deserialize : Bytes → Option FromContemplantMessage) where
  -- The registration of a contemplant reaches the registry as one command and keeps the connection,
  -- where the registry takes commands; and every request that the registry then finds that worker
  -- able to serve is one that the contemplant executes, and never one that ends its process: it has
  -- an executor for it, and Groth16 and EVM proofs enabled where the request needs them.
  pub registered_lem :
      (s : WorkerState) (name : String) (endpoint : Option String) (c : Connection) (bytes : Bytes)
      (env : Env) (st : WorkerStatus) (q : ContemplantProofRequest)
      → deserialize bytes ≡ some (register (register_info name endpoint s))
      → c.serves ≡ true
      → can_serve (new_state env (registration c (register_info name endpoint s)) st) q ≡ true
      → (handle_message_from_contemplant deserialize c (binary bytes)
          ≡ (worker_ready (registration c (register_info name endpoint s)) ∷ [], continues))
        × IsServed s q
  unfolding handle_message_from_contemplant dispatch ready register_info execute_proof
  registered_lem s name endpoint c bytes env st q d t h =
      let f = accepted-Finds env (registration c (register_info name endpoint s)) st q h in
      (
        rw (d, t),
        record {
          effects = rw (supported_has_executor s (vm q) f.supported);
          groth16_served = f.groth16_served;
          evm_served = f.evm_served;
        },
      )
