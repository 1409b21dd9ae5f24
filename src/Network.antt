-- ===== src/Network.antt =====
-- network-lib: what hierophant and contemplants say to each other (src/network-lib/src/lib.rs and
-- messages.rs), over the enums of src/hierophant/proto/network.proto.
--
-- A B256 is a number, bytes are a list of numbers, and an i32 stands as its 32-bit pattern.
pub mod Progress
use hierophant.Prelude.{
  ℕ, String, Bool, true, false, ◌||◌, Option, none, some, List, ltb, if◌then◌else◌, is_some,
}

abbrev pub Bytes : Type 0
Bytes = List ℕ

pub data VmKind : Type 0 where
  sp1 risc0 open_vm : VmKind

unfoldable pub as_str : VmKind → String
as_str sp1 = "SP1"
as_str risc0 = "RISC0"
as_str open_vm = "OPENVM"

-- `PartialEq` of `VmKind`
abbrev pub same_vm : VmKind → VmKind → Bool
same_vm sp1 sp1 = true
same_vm risc0 risc0 = true
same_vm open_vm open_vm = true
same_vm _ _ = false

pub data ProofMode : Type 0 where
  unspecified_proof_mode core compressed plonk groth16 : ProofMode

unfoldable pub as_str_name : ProofMode → String
as_str_name unspecified_proof_mode = "UNSPECIFIED_PROOF_MODE"
as_str_name core = "CORE"
as_str_name compressed = "COMPRESSED"
as_str_name plonk = "PLONK"
as_str_name groth16 = "GROTH16"

pub data Risc0ProofMode : Type 0 where
  composite succinct groth16 : Risc0ProofMode

unfoldable pub risc0_mode_str : Risc0ProofMode → String
risc0_mode_str composite = "COMPOSITE"
risc0_mode_str succinct = "SUCCINCT"
risc0_mode_str Risc0ProofMode.groth16 = "GROTH16"

pub data OpenVmProofMode : Type 0 where
  app stark evm : OpenVmProofMode

unfoldable pub openvm_mode_str : OpenVmProofMode → String
openvm_mode_str app = "APP"
openvm_mode_str stark = "STARK"
openvm_mode_str evm = "EVM"

-- `SP1Stdin` is carried and never inspected: it stands as its serialized bytes.
pub record Sp1ProofRequest : Type 0 where
  pub request_id : ℕ
  pub elf : Bytes
  pub mock : Bool
  pub mode : ProofMode
  pub sp1_stdin : Bytes

pub record Risc0ProofRequest : Type 0 where
  pub request_id : ℕ
  pub elf : Bytes
  pub input : Bytes
  pub mode : Risc0ProofMode
  pub mock : Bool
  pub wrap_of : Option Bytes

pub record OpenVmProofRequest : Type 0 where
  pub request_id : ℕ
  pub elf : Bytes
  pub app_config_toml : Option String
  pub input : List Bytes
  pub mode : OpenVmProofMode
  pub mock : Bool

pub data ContemplantProofRequest : Type 0 where
  sp1_request : Sp1ProofRequest → ContemplantProofRequest
  risc0_request : Risc0ProofRequest → ContemplantProofRequest
  openvm_request : OpenVmProofRequest → ContemplantProofRequest

unfoldable pub request_id : ContemplantProofRequest → ℕ
request_id (sp1_request r) = r.request_id
request_id (risc0_request r) = r.request_id
request_id (openvm_request r) = r.request_id

unfoldable pub vm : ContemplantProofRequest → VmKind
vm (sp1_request r) = sp1
vm (risc0_request r) = risc0
vm (openvm_request r) = open_vm

unfoldable pub is_mock : ContemplantProofRequest → Bool
is_mock (sp1_request r) = r.mock
is_mock (risc0_request r) = r.mock
is_mock (openvm_request r) = r.mock

unfoldable pub mode_name : ContemplantProofRequest → String
unfolding as_str_name risc0_mode_str openvm_mode_str
mode_name (sp1_request r) = as_str_name r.mode
mode_name (risc0_request r) = risc0_mode_str r.mode
mode_name (openvm_request r) = openvm_mode_str r.mode

abbrev pub is_groth16 : Risc0ProofMode → Bool
is_groth16 Risc0ProofMode.groth16 = true
is_groth16 _ = false

abbrev pub is_evm : OpenVmProofMode → Bool
is_evm evm = true
is_evm _ = false

unfoldable pub needs_groth16 : ContemplantProofRequest → Bool
needs_groth16 (sp1_request r) = false
needs_groth16 (risc0_request r) = is_groth16 r.mode || is_some r.wrap_of
needs_groth16 (openvm_request r) = false

unfoldable pub needs_openvm_evm : ContemplantProofRequest → Bool
needs_openvm_evm (sp1_request r) = false
needs_openvm_evm (risc0_request r) = false
needs_openvm_evm (openvm_request r) = is_evm r.mode

pub data EstimateReason : Type 0 where
  executing no_history : EstimateReason

pub data ProgressUpdate : Type 0 where
  estimating : EstimateReason → ProgressUpdate
  proving : (cycles estimate_secs : ℕ) → ProgressUpdate
  done : ProgressUpdate

-- `EstimateReason::rank` (0 and 1) and `ProgressUpdate::rank`
abbrev pub reason_rank : EstimateReason → ℕ
reason_rank executing = 0
reason_rank no_history = 1

abbrev pub rank : ProgressUpdate → ℕ
rank (estimating r) = reason_rank r
rank (proving cycles estimate_secs) = 2
rank done = 3

-- `a.max(b)` of `Ord`: the second argument where both rank alike
unfoldable pub max_progress : ProgressUpdate → ProgressUpdate → ProgressUpdate
max_progress a b = if ltb (rank b) (rank a) then a else b

-- `a > b` on `Option<ProgressUpdate>`: `None` is below every `Some`.
abbrev pub progress_gt : Option ProgressUpdate → Option ProgressUpdate → Bool
progress_gt none b = false
progress_gt (some a) none = true
progress_gt (some a) (some b) = ltb (rank b) (rank a)

pub data ExecutionStatus : Type 0 where
  unspecified_execution_status unexecuted executed unexecutable : ExecutionStatus

pub data FulfillmentStatus : Type 0 where
  unspecified_fulfillment_status requested assigned fulfilled unfulfillable : FulfillmentStatus

-- `.into()` an i32
abbrev pub execution_code : ExecutionStatus → ℕ
execution_code unspecified_execution_status = 0
execution_code unexecuted = 1
execution_code executed = 2
execution_code unexecutable = 3

abbrev pub fulfillment_code : FulfillmentStatus → ℕ
fulfillment_code unspecified_fulfillment_status = 0
fulfillment_code requested = 1
fulfillment_code assigned = 2
fulfillment_code fulfilled = 3
fulfillment_code unfulfillable = 4

pub record ContemplantProofStatus : Type 0 where
  pub execution_status : ℕ
  pub proof : Option Bytes
  pub progress : Option ProgressUpdate

-- `ContemplantProofStatus::unexecuted`
abbrev pub unexecuted_status : ContemplantProofStatus
unexecuted_status = record {
  execution_status = execution_code unexecuted;
  proof = none;
  progress = none;
}

-- `ContemplantProofStatus::default`
abbrev pub default_status : ContemplantProofStatus
default_status = record {
  execution_status = execution_code unexecutable;
  proof = none;
  progress = none;
}

unfoldable pub merge_progress :
    Option ProgressUpdate → Option ProgressUpdate → Option ProgressUpdate
unfolding max_progress
merge_progress (some p) (some q) = some (max_progress p q)
merge_progress (some p) none = some p
merge_progress none (some q) = some q
merge_progress none none = none

unfoldable pub progress_update :
    ContemplantProofStatus → Option ProgressUpdate → ContemplantProofStatus
unfolding merge_progress
progress_update s new = record s { progress = merge_progress s.progress new }

-- The serialized registration of a contemplant.
pub record WorkerRegisterInfo : Type 0 where
  pub name : String
  pub contemplant_version : String
  pub supported_vms : List VmKind
  pub groth16_enabled : Bool
  pub openvm_evm_enabled : Bool
  pub magister_drop_endpoint : Option String
  pub instance_nonce : ℕ

pub data FromContemplantMessage : Type 0 where
  register : WorkerRegisterInfo → FromContemplantMessage
  proof_status_response : ℕ → Option ContemplantProofStatus → FromContemplantMessage
  heartbeat : FromContemplantMessage

pub data FromHierophantMessage : Type 0 where
  proof_request : ContemplantProofRequest → FromHierophantMessage
  proof_status_request : ℕ → FromHierophantMessage

-- protocol.rs
abbrev pub contemplant_version : String
contemplant_version = "8.1.0"
