-- ===== src/OpenVm/Verify.antt =====
-- `verify_openvm_proof` of src/hierophant/src/openvm/verify.rs: the local worker is called again
-- where the transport fails. `worker` is what the calls of the worker bring, one after the other.
use hierophant.Prelude.{ℕ, String, Option, none, some, zero, suc}
use hierophant.Network.{Bytes, OpenVmProofMode}
use hierophant.OpenVmWorker.{
  ProofMode, app, stark, evm, WorkerRequest, verify, WorkerResponse, verify_ok, err, CallResult,
  transport_error, responded,
}

abbrev pub verify_transport_retries : ℕ
verify_transport_retries = 3

abbrev pub to_proto_mode : OpenVmProofMode → ProofMode
to_proto_mode OpenVmProofMode.app = app
to_proto_mode OpenVmProofMode.stark = stark
to_proto_mode OpenVmProofMode.evm = evm

-- Why a proof is not accepted.
pub data VerifyError : Type 0 where
  rejected : String → VerifyError
  unexpected_response : VerifyError
  unavailable : VerifyError

abbrev pub of_response : WorkerResponse → Option VerifyError
of_response verify_ok = none
of_response (err msg) = some (rejected msg)
of_response _ = some unexpected_response

-- A verdict is final; none is a proof that holds.
abbrev pub of_call : Option VerifyError → CallResult → Option VerifyError
of_call again (responded r) = of_response r
of_call again transport_error = again

module _ (worker : ℕ → WorkerRequest → CallResult) where
  -- The attempts that are left, from the `n`-th call on.
  unfoldable pub attempts : (left n : ℕ) → WorkerRequest → Option VerifyError
  attempts zero n req = some unavailable
  attempts (suc left) n req = let again = attempts left (suc n) req in of_call again (worker n req)

  unfoldable pub verify_openvm_proof :
      (now : ℕ) (elf : Bytes) (app_config_toml : Option String) (mode : OpenVmProofMode)
      (proof_bytes : Bytes)
      → Option VerifyError
  unfolding attempts
  verify_openvm_proof now elf config mode proof_bytes =
      attempts verify_transport_retries now (verify (to_proto_mode mode) elf config proof_bytes)

  -- The request that is sent.
  abbrev pub request : Bytes → Option String → OpenVmProofMode → Bytes → WorkerRequest
  request elf config mode proof_bytes = verify (to_proto_mode mode) elf config proof_bytes
