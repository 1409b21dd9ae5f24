-- ===== src/Proof/Routes.antt =====
-- The three routes of src/hierophant/src/proof/router.rs: how a request is put together and sent to
-- the registry. `serves` says whether the registry's channel takes a command. The decoders and the
-- decompression are libraries, and parameters.
use hierophant.Prelude.{ℕ, String, Bool, Option, none, some, List, [], ◌∷◌, if◌then◌else◌, is_some}
use hierophant.Prelude.Texts.{strip_prefix}
use hierophant.Network.{
  Bytes, ProofMode, Risc0ProofMode, OpenVmProofMode, ContemplantProofRequest, sp1_request,
  risc0_request, openvm_request,
}
use hierophant.Registry.Commands.{WorkerRegistryCommand, assign_proof_request}

-- `WorkerRegistryClient::assign_proof_request`
abbrev pub assign : Bool → ContemplantProofRequest → Option WorkerRegistryCommand
assign serves q = if serves then some (assign_proof_request q) else none

unfoldable pub route_risc0_proof :
    (serves mock_mode : Bool) (request_id : ℕ) (elf input : Bytes) (mode : Risc0ProofMode)
    (wrap_of : Option Bytes)
    → Option WorkerRegistryCommand
route_risc0_proof serves mock_mode r elf input mode wrap_of = assign serves (
    risc0_request (record {
      request_id = r;
      elf = elf;
      input = input;
      mode = mode;
      mock = mock_mode;
      wrap_of = wrap_of;
    }))

unfoldable pub route_openvm_proof :
    (serves mock_mode : Bool) (request_id : ℕ) (elf : Bytes) (app_config_toml : Option String)
    (input : List Bytes) (mode : OpenVmProofMode)
    → Option WorkerRegistryCommand
route_openvm_proof serves mock_mode r elf config input mode = assign serves (
    openvm_request (record {
      request_id = r;
      elf = elf;
      app_config_toml = config;
      input = input;
      mode = mode;
      mock = mock_mode;
    }))

abbrev pub zstd_magic : Bytes
zstd_magic = 40 ∷ 181 ∷ 47 ∷ 253 ∷ []

module _ (decompress : Bytes → Option Bytes) where
  unfoldable pub maybe_zstd_decompress : Bytes → Option Bytes
  maybe_zstd_decompress bytes =
      if is_some (strip_prefix zstd_magic bytes) then decompress bytes else some bytes

  -- What the store has under a name: it cannot be asked, it has nothing, or bytes.
  unfoldable pub artifact : Option (Option Bytes) → Option Bytes
  unfolding maybe_zstd_decompress
  artifact none = none
  artifact (some none) = none
  artifact (some (some bytes)) = maybe_zstd_decompress bytes

  -- `stdin` and `elf` are what the decoders make of the two artifacts.
  abbrev pub sp1_proof :
      Bool → Bool → ℕ → ProofMode → Option Bytes → Option Bytes → Option WorkerRegistryCommand
  sp1_proof serves mock_mode r mode none elf = none
  sp1_proof serves mock_mode r mode (some stdin) none = none
  sp1_proof serves mock_mode r mode (some stdin) (some elf) = assign serves (
      sp1_request
        (record { request_id = r; elf = elf; mock = mock_mode; mode = mode; sp1_stdin = stdin }))

  module _ (decode_stdin decode_elf : Bytes → Option Bytes) where
    abbrev pub decode_with : (Bytes → Option Bytes) → Option Bytes → Option Bytes
    decode_with decode none = none
    decode_with decode (some b) = decode b

    unfoldable pub route_sp1_proof :
        (serves mock_mode : Bool) (request_id : ℕ) (program stdin : Option (Option Bytes))
        (mode : ProofMode)
        → Option WorkerRegistryCommand
    unfolding artifact
    route_sp1_proof serves mock_mode r program stdin mode =
        sp1_proof serves mock_mode r mode (decode_with decode_stdin (artifact stdin))
          (decode_with decode_elf (artifact program))
