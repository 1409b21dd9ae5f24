-- ===== src/Tests/Contemplants.antt =====
-- A contemplant and its connection on concrete inputs.
use hierophant.Prelude.{◌≡◌, refl, true, false, Option, none, some, List, [], ◌∷◌}
use hierophant.Network.{
  Bytes, risc0, vm, ContemplantProofRequest, risc0_request, succinct, FromHierophantMessage,
  proof_request, FromContemplantMessage, register, needs_groth16, needs_openvm_evm,
}
use hierophant.Worker.{Env, idle, can_serve, supports, new as new_worker}
use hierophant.Registry.Join.{new_state}
use hierophant.Registry.Commands.{worker_ready}
use hierophant.Contemplant.{
  WorkerState, Message, binary, continues, Surroundings, receive, handle_message_from_hierophant,
  execute_proof, evict, has_executor, register_info, supported_vms, groth16_enabled,
  openvm_evm_enabled,
}
use hierophant.Contemplant.Residency.{is_hot_after, receive_lem}
use hierophant.Dispatch.{Connection, registration, handle_message_from_contemplant}
use hierophant.Dispatch.Served.{IsServed, registered_lem}

-- It proves for SP1 and RISC Zero.
abbrev worker : WorkerState
worker = record {
  sp1_executor = some (record { backend_permanently_dead = false });
  risc0_executor = some (record { groth16_enabled = false });
  openvm_executor = none;
  instance_nonce = 4;
  resident_vm = none;
}

abbrev request : ContemplantProofRequest
request = risc0_request (record {
  request_id = 5;
  elf = 1 ∷ [];
  input = [];
  mode = succinct;
  mock = false;
  wrap_of = none;
})

abbrev decode : Bytes → Option FromHierophantMessage
decode b = some (proof_request request)

abbrev surroundings : Surroundings
surroundings = record { get = λ r. none; sends = true }

abbrev messages : List (Surroundings × Message)
messages = (surroundings, binary (1 ∷ [])) ∷ []

held : is_hot_after risc0 false (receive decode messages worker).1 ≡ true
unfolding receive handle_message_from_hierophant execute_proof evict has_executor vm
held = refl

receive_lem_example : (receive decode messages worker).0.resident_vm ≡ some risc0
receive_lem_example = receive_lem decode risc0 messages worker refl held

abbrev connection : Connection
connection = record {
  worker_addr = "10.0.0.1:9000";
  from_hierophant_sender = 1;
  serves = true;
  should_drop_sender = 2;
  should_drop = none;
}

abbrev decode_register : Bytes → Option FromContemplantMessage
decode_register b = some (register (register_info "one" none worker))

abbrev env : Env
env = record {
  now = 0;
  system_now = 0;
  delivers = λ sender msg. true;
  f32_mins = λ d. d;
  f64_mins = λ d. d;
}

able :
    can_serve
      (new_state env (registration connection (register_info "one" none worker)) idle)
      request
    ≡ true
unfolding can_serve supports new_worker register_info supported_vms groth16_enabled
    openvm_evm_enabled vm needs_groth16 needs_openvm_evm
able = refl

registered_lem_example :
    (handle_message_from_contemplant decode_register connection (binary (1 ∷ []))
      ≡ (worker_ready (registration connection (register_info "one" none worker)) ∷ [], continues))
    × IsServed worker request
registered_lem_example =
    registered_lem decode_register worker "one" none connection (1 ∷ []) env idle request refl refl
      able
