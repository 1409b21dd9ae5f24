-- ===== src/OpenVm.antt =====
-- The REST surface for OpenVM (src/hierophant/src/openvm): `router.rs` with the maps of `state.rs`
-- and the verification of `verify.rs`. A URL is left out: it is the id that it ends in.
pub mod Verify
pub mod Status
pub mod Soundness
pub mod Create
pub mod Names
use hierophant.Prelude.{
  ℕ, String, Bool, Option, none, some, List, [], ◌∷◌, or_else, if◌then◌else◌, map_some,
}
use hierophant.Prelude.Dict.{lookup, insert, modify}
use hierophant.Prelude.Texts.{Text, text_eq, same_text, trim, strip_prefix, to_ascii_lowercase}
use hierophant.Network.{Bytes, OpenVmProofMode, app, stark, evm}
use hierophant.Proof.Routes.{route_openvm_proof}
use hierophant.Registry.Commands.{WorkerRegistryCommand}
use hierophant.Jobs.{JobError}

pub record OpenVmJob : Type 0 where
  pub request_id : ℕ
  pub program_id : Text
  pub app_config_toml : Option String
  pub mode : OpenVmProofMode
  pub terminal_error : Option JobError

pub record OpenVmInner : Type 0 where
  pub programs : List (Text × Bytes)
  pub inputs : List (Text × List Bytes)
  pub jobs : List (Text × OpenVmJob)
  pub proofs : List (Text × Bytes)

abbrev pub new : OpenVmInner
new = record { programs = []; inputs = []; jobs = []; proofs = [] }

-- The text `0x`
abbrev pub hex_prefix : Text
hex_prefix = 48 ∷ 120 ∷ []

unfoldable pub normalize_program_id : Text → Text
normalize_program_id raw =
    let s = trim raw in to_ascii_lowercase (or_else s (strip_prefix hex_prefix s))

-- The digest of the body is only compared for the log.
unfoldable pub handle_program_put : (program_id : Text) (body : Bytes) → OpenVmInner → OpenVmInner
unfolding normalize_program_id
handle_program_put program_id body s = record s {
  programs = insert (normalize_program_id program_id) body s.programs;
}

-- The answer to an upload: status 200 or 400.
pub data Uploaded : Type 0 where
  stored bad_request : Uploaded

abbrev pub put_streams : Text → Option (List Bytes) → OpenVmInner → OpenVmInner × Uploaded
put_streams input_id none s = (s, bad_request)
put_streams input_id (some streams) s =
    (record s { inputs = insert input_id streams s.inputs }, stored)

-- `deserialize` is the library's decoder of a vector of vectors of bytes.
unfoldable pub handle_input_put :
    (Bytes → Option (List Bytes))
    → (input_id : Text) (body : Bytes) → OpenVmInner
    → OpenVmInner × Uploaded
handle_input_put deserialize input_id body s = put_streams input_id (deserialize body) s

-- `app`, `stark` and `evm`
abbrev pub app_word : Text
app_word = 97 ∷ 112 ∷ 112 ∷ []

abbrev pub stark_word : Text
stark_word = 115 ∷ 116 ∷ 97 ∷ 114 ∷ 107 ∷ []

abbrev pub evm_word : Text
evm_word = 101 ∷ 118 ∷ 109 ∷ []

abbrev pub mode_of_word : Text → Option OpenVmProofMode
mode_of_word s =
    if same_text s app_word
    then some app
    else if same_text s stark_word
    then some stark
    else if same_text s evm_word
    then some evm
    else none

unfoldable pub parse_proof_mode : Option Text → Option OpenVmProofMode
parse_proof_mode none = some app
parse_proof_mode (some raw) = mode_of_word (to_ascii_lowercase raw)

pub record ProofCreateRequest : Type 0 where
  pub program : Text
  pub input : Text
  pub proof_mode : Option Text
  pub app_config_toml : Option String

-- What a new job finds: the random names, the setting, and whether the registry takes commands.
pub record Draw : Type 0 where
  pub request_id : ℕ
  pub uuid : Text
  pub mock_mode : Bool
  pub serves : Bool

pub data Created : Type 0 where
  job : (uuid : Text) → Created
  unknown_program : Created
  unknown_input : Created
  unsupported_mode : Created
  not_routed : Created

-- The maps, the answer, and the command that went to the registry.
abbrev pub Creation : Type 0
Creation = OpenVmInner × Created × Option WorkerRegistryCommand

abbrev pub reply_of : Text → OpenVmInner → Option WorkerRegistryCommand → Creation
reply_of uuid s none = (s, not_routed, none)
reply_of uuid s (some c) = (s, job uuid, some c)

abbrev pub new_job : Draw → ProofCreateRequest → OpenVmProofMode → OpenVmJob
new_job d q mode = record {
  request_id = d.request_id;
  program_id = normalize_program_id q.program;
  app_config_toml = q.app_config_toml;
  mode = mode;
  terminal_error = none;
}

-- The job is remembered before it is routed.
abbrev pub create_job :
    Draw → ProofCreateRequest → OpenVmInner → Bytes → List Bytes → Option OpenVmProofMode → Creation
create_job d q s elf input none = (s, unsupported_mode, none)
create_job d q s elf input (some mode) =
    reply_of d.uuid (record s { jobs = insert d.uuid (new_job d q mode) s.jobs })
      (route_openvm_proof d.serves d.mock_mode d.request_id elf q.app_config_toml input mode)

abbrev pub create_with :
    Draw → ProofCreateRequest → OpenVmInner → Option Bytes → Option (List Bytes) → Creation
create_with d q s none input = (s, unknown_program, none)
create_with d q s (some elf) none = (s, unknown_input, none)
create_with d q s (some elf) (some input) =
    create_job d q s elf input (parse_proof_mode q.proof_mode)

unfoldable pub handle_proof_create : Draw → ProofCreateRequest → OpenVmInner → Creation
unfolding normalize_program_id parse_proof_mode route_openvm_proof
handle_proof_create d q s =
    create_with d q s (lookup (normalize_program_id q.program) s.programs) (lookup q.input s.inputs)

-- None is status 404.
unfoldable pub handle_proof_download : (proof_id : Text) → OpenVmInner → Option Bytes
handle_proof_download proof_id s = lookup proof_id s.proofs
