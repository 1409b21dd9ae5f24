-- ===== src/Proof.antt =====
-- What a client hears of its proof (src/hierophant/src/proof/status.rs and router.rs, and the
-- questions of src/hierophant/src/worker_registry/client.rs). A panic stands as `none`.
pub mod Answer
pub mod Routes
use hierophant.Prelude.{
  ℕ, Bool, true, false, Option, none, some, List, [], ◌∷◌, ◌==◌, if◌then◌else◌, String, str_eq, not,
}
use hierophant.Network.{
  Bytes, ContemplantProofStatus, ExecutionStatus, unspecified_execution_status, unexecuted,
  executed, unexecutable, FulfillmentStatus, unspecified_fulfillment_status, assigned, fulfilled,
  unfulfillable, execution_code, fulfillment_code,
}
use hierophant.Registry.Commands.{WorkerRegistryCommand, proof_progress_update}

pub record ProofStatus : Type 0 where
  pub fulfillment_status : ℕ
  pub execution_status : ℕ
  pub proof : Bytes

abbrev pub lost : ProofStatus
lost = record {
  fulfillment_status = fulfillment_code unfulfillable;
  execution_status = execution_code unspecified_execution_status;
  proof = [];
}

abbrev pub assigned_status : ProofStatus
assigned_status = record {
  fulfillment_status = fulfillment_code assigned;
  execution_status = execution_code unexecuted;
  proof = [];
}

-- `ExecutionStatus::try_from(code).unwrap_or(UnspecifiedExecutionStatus)`
abbrev pub execution_of_code : ℕ → ExecutionStatus
execution_of_code n =
    if n == 1
    then unexecuted
    else if n == 2
    then executed
    else if n == 3
    then unexecutable
    else unspecified_execution_status

-- The proof of an executed request, which is unwrapped.
abbrev pub fulfilled_status : Option Bytes → Option ProofStatus
fulfilled_status none = none
fulfilled_status (some b) = some (record {
  fulfillment_status = fulfillment_code fulfilled;
  execution_status = execution_code executed;
  proof = b;
})

abbrev pub proof_status_as : ExecutionStatus → Option Bytes → Option ProofStatus
proof_status_as unspecified_execution_status proof = some (record {
  fulfillment_status = fulfillment_code unspecified_fulfillment_status;
  execution_status = execution_code unspecified_execution_status;
  proof = [];
})
proof_status_as unexecuted proof = some assigned_status
proof_status_as executed proof = fulfilled_status proof
proof_status_as unexecutable proof = some (record {
  fulfillment_status = fulfillment_code unfulfillable;
  execution_status = execution_code unexecutable;
  proof = [];
})

-- `From<ContemplantProofStatus>`
unfoldable pub from_contemplant : ContemplantProofStatus → Option ProofStatus
from_contemplant s = proof_status_as (execution_of_code s.execution_status) s.proof

-- How a question to the registry comes out: the command is not taken, the time is over, the registry
-- drops the sender, or it answers.
pub data Reply : Type 0 where
  not_sent : Reply
  timed_out : Reply
  dropped : Reply
  answered : Option ContemplantProofStatus → Reply

-- `Result<Option<ProofStatus>>`
pub data Asked : Type 0 where
  err : Asked
  ok : Option ProofStatus → Asked

abbrev pub ok_some : Option ProofStatus → Option Asked
ok_some none = none
ok_some (some s) = some (ok (some s))

-- `proof_status_request`; the Boolean says whether the registry takes the progress update.
unfoldable pub proof_status_request : Bool → Reply → Option Asked
unfolding from_contemplant
proof_status_request takes_update not_sent = some err
proof_status_request takes_update timed_out = some (ok (some assigned_status))
proof_status_request takes_update dropped = some err
proof_status_request takes_update (answered none) = some (ok none)
proof_status_request takes_update (answered (some s)) =
    if takes_update then ok_some (from_contemplant s) else some err

-- The commands that the question sends on, after the one that asks.
abbrev pub follow_up : ℕ → Reply → List WorkerRegistryCommand
follow_up r (answered (some s)) = proof_progress_update r s.progress ∷ []
follow_up r reply = []

abbrev pub routed : Option Asked → Option ProofStatus
routed none = none
routed (some err) = some lost
routed (some (ok none)) = some lost
routed (some (ok (some s))) = some s

-- `ProofRouter::get_proof_status`
unfoldable pub get_proof_status : Bool → Reply → Option ProofStatus
unfolding proof_status_request
get_proof_status takes_update reply = routed (proof_status_request takes_update reply)
