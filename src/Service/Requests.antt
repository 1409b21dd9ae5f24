-- ===== src/Service/Requests.antt =====
-- The other calls of src/hierophant/src/api/grpc/prover_network_service.rs, and `create_artifact` of
-- create_artifact_service.rs. The signatures and the mock transaction hashes are left out: nothing
-- reads them. `none` in place of a body is a request without one.
use hierophant.Prelude.{
  ℕ, Bool, true, false, Option, none, some, List, ◌∷◌, ◌==◌, nat_eq, if◌then◌else◌, any, length,
}
use hierophant.Prelude.Dict.{lookup, insert}
use hierophant.Prelude.Texts.{Text, text_eq}
use hierophant.Network.{Bytes, ProofMode, unspecified_proof_mode, core, compressed, plonk}
use hierophant.Artifact.Uri.{
  ArtifactUri, ArtifactType, unspecified_artifact_type, program, stdin, proof, transaction, state,
  export, private_stdin, from_str,
}
use hierophant.Artifact.Store.{
  ArtifactStore, FileSystem, handle_create_artifact, handle_get_artifact_bytes,
}
use hierophant.Proof.Routes.{route_sp1_proof}
use hierophant.Registry.Commands.{WorkerRegistryCommand}
use hierophant.Service.{Program, ServiceState}

-- `Status` of a refused call
pub data GrpcError : Type 0 where
  invalid_argument not_found internal unavailable : GrpcError

-- `Result<Response<_>, Status>`
pub data GrpcResult (A : Type 0) : Type 0 where
  refused : GrpcError → GrpcResult A
  response : A → GrpcResult A

abbrev pub found_program : Option Program → GrpcResult Program
found_program none = refused not_found
found_program (some p) = response p

unfoldable pub get_program : (vk_hash : Bytes) → ServiceState → GrpcResult Program
get_program vk_hash s = found_program (lookup vk_hash s.program_store)

-- An address has twenty bytes; nonces are not implemented.
unfoldable pub get_nonce : (address : Bytes) → GrpcResult ℕ
get_nonce address = if length address == 20 then response 0 else refused invalid_argument

pub record CreateProgramBody : Type 0 where
  pub vk_hash : Bytes
  pub vk : Bytes
  pub program_uri : Text

-- `clock` says whether the system clock is past the epoch.
unfoldable pub create_program :
    (clock : Bool) → Option CreateProgramBody → ServiceState → ServiceState × GrpcResult Unit
create_program clock none s = (s, refused invalid_argument)
create_program clock (some b) s =
    if clock
    then (
      record s {
        program_store =
            insert b.vk_hash (record { vk = b.vk; program_uri = b.program_uri }) s.program_store;
      },
      response tt,
    )
    else (s, refused internal)

-- `ProofMode::try_from`
abbrev pub mode_of_code : ℕ → Option ProofMode
mode_of_code n =
    if n == 0
    then some unspecified_proof_mode
    else if n == 1
    then some core
    else if n == 2
    then some compressed
    else if n == 3
    then some plonk
    else if n == 4
    then some ProofMode.groth16
    else none

abbrev pub needs_artifacts : ProofMode → Bool
needs_artifacts ProofMode.groth16 = true
needs_artifacts plonk = true
needs_artifacts _ = false

-- `check_artifacts_ready`: `installed` says whether the three files for a mode are there.
abbrev pub check_artifacts_ready : (ProofMode → Bool) → ProofMode → Bool
check_artifacts_ready installed ProofMode.groth16 = installed ProofMode.groth16
check_artifacts_ready installed plonk = installed plonk
check_artifacts_ready installed _ = true

pub record RequestProofBody : Type 0 where
  pub vk_hash : Bytes
  pub mode : ℕ
  pub stdin_uri : Text
  pub deadline : ℕ

-- What a call finds: the random names, the files and the disk, the setting, whether the artifact store
-- and the registry take commands.
pub record Scene : Type 0 where
  pub request_id : ℕ
  pub proof_uri : ArtifactUri
  pub installed : ProofMode → Bool
  pub fs : FileSystem
  pub mock_mode : Bool
  pub stores : Bool
  pub serves : Bool

-- A download that goes on by itself after the call: `download_artifacts_and_route_proof`.
pub record Download : Type 0 where
  pub request_id : ℕ
  pub program_uri : ArtifactUri
  pub stdin_uri : ArtifactUri
  pub mode : ProofMode

-- What a request for a proof leaves: the state, the answer, and what was started: a command to the
-- registry, or a download.
pub data Started : Type 0 where
  nothing : Started
  routed : WorkerRegistryCommand → Started
  downloading : Download → Started

abbrev pub Requested : Type 0
Requested = ServiceState × GrpcResult ℕ × Started

-- A new artifact, with the name that was drawn.
abbrev pub create_proof_uri : Scene → RequestProofBody → ServiceState → Started → Requested
create_proof_uri c b s started =
    if c.stores
    then (
      record s {
        artifacts = handle_create_artifact c.proof_uri s.artifacts;
        proof_requests =
            insert c.request_id
              (record { proof_uri = c.proof_uri; deadline = b.deadline; vk_hash = b.vk_hash })
              s.proof_requests;
      },
      response c.request_id,
      started,
    )
    else (s, refused internal, started)

-- `proofs_pending_artifacts.insert`
abbrev pub insert_pending : ℕ → List ℕ → List ℕ
insert_pending r rs = if any (λ j. j == r) rs then rs else r ∷ rs

module _ (uuid_to_string : ℕ → Text) (parse_uuid : Text → Option ℕ)
    (decompress decode_stdin decode_elf : Bytes → Option Bytes) where
  -- `route_sp1_proof` on what the artifact store has
  abbrev pub route : Scene → Download → ArtifactStore → Option WorkerRegistryCommand
  route c d a =
      route_sp1_proof decompress decode_stdin decode_elf c.serves c.mock_mode d.request_id
        (handle_get_artifact_bytes c.fs d.program_uri a)
        (handle_get_artifact_bytes c.fs d.stdin_uri a) d.mode

  abbrev pub after_route :
      Scene → RequestProofBody → ServiceState → Option WorkerRegistryCommand → Requested
  after_route c b s none = (s, refused internal, nothing)
  after_route c b s (some cmd) = create_proof_uri c b s (routed cmd)

  abbrev pub start_proof : Scene → RequestProofBody → ServiceState → Download → Requested
  start_proof c b s d =
      if check_artifacts_ready c.installed d.mode
      then after_route c b s (route c d s.artifacts)
      else create_proof_uri c b
          (record s {
            proofs_pending_artifacts = insert_pending d.request_id s.proofs_pending_artifacts;
          })
          (downloading d)

  abbrev pub with_mode :
      Scene
      → RequestProofBody
      → ServiceState
      → (program stdin : ArtifactUri) → Option ProofMode
      → Requested
  with_mode c b s p i none = (s, refused invalid_argument, nothing)
  with_mode c b s p i (some mode) =
      start_proof c b s
        (record { request_id = c.request_id; program_uri = p; stdin_uri = i; mode = mode })

  abbrev pub with_program :
      Scene
      → RequestProofBody
      → ServiceState
      → (stdin : ArtifactUri) → Option ArtifactUri
      → Requested
  with_program c b s i none = (s, refused invalid_argument, nothing)
  with_program c b s i (some p) = with_mode c b s p i (mode_of_code b.mode)

  abbrev pub with_stored :
      Scene → RequestProofBody → ServiceState → (stdin : ArtifactUri) → Option Program → Requested
  with_stored c b s i none = (s, refused invalid_argument, nothing)
  with_stored c b s i (some p) =
      with_program c b s i (from_str uuid_to_string parse_uuid p.program_uri)

  abbrev pub with_stdin : Scene → RequestProofBody → ServiceState → Option ArtifactUri → Requested
  with_stdin c b s none = (s, refused invalid_argument, nothing)
  with_stdin c b s (some i) = with_stored c b s i (lookup b.vk_hash s.program_store)

  unfoldable pub request_proof : Scene → Option RequestProofBody → ServiceState → Requested
  unfolding from_str route_sp1_proof
  request_proof c none s = (s, refused invalid_argument, nothing)
  request_proof c (some b) s = with_stdin c b s (from_str uuid_to_string parse_uuid b.stdin_uri)

-- `ArtifactType::try_from`
abbrev pub type_of_code : ℕ → Option ArtifactType
type_of_code n =
    if n == 0
    then some unspecified_artifact_type
    else if n == 1
    then some program
    else if n == 2
    then some stdin
    else if n == 3
    then some proof
    else if n == 4
    then some transaction
    else if n == 5
    then some state
    else if n == 6
    then some export
    else if n == 7
    then some private_stdin
    else none

abbrev pub created_artifact :
    (stores : Bool) (id : ℕ)
    → ArtifactStore
    → Option ArtifactType
    → ArtifactStore × GrpcResult ArtifactUri
created_artifact stores id a none = (a, refused invalid_argument)
created_artifact stores id a (some t) =
    let u : ArtifactUri = record { id = id; artifact_type = t } in
    if stores then (handle_create_artifact u a, response u) else (a, refused unavailable)

-- The answer's URL ends in the name.
unfoldable pub create_artifact :
    (stores : Bool) (id artifact_type : ℕ) → ArtifactStore → ArtifactStore × GrpcResult ArtifactUri
create_artifact stores id artifact_type a =
    created_artifact stores id a (type_of_code artifact_type)
