-- ===== src/Service.antt =====
-- The gRPC service for SP1 clients: `get_proof_request_status` of
-- src/hierophant/src/api/grpc/prover_network_service.rs. The libraries that decode and verify a proof
-- are parameters. The transaction fields of a response are always empty and are left out; the address
-- for the download stands as the artifact's name. A panic stands as `none`.
pub mod Soundness
pub mod Requests
pub mod Downloads
pub mod Waiting
pub mod Keys
use hierophant.Prelude.{
  ℕ, Bool, true, false, Option, none, some, List, [], ◌∷◌, ◌++◌, nat_eq, ◌==◌, any, if◌then◌else◌,
  is_some,
}
use hierophant.Prelude.Dict.{lookup}
use hierophant.Network.{
  Bytes, fulfillment_code, execution_code, requested, fulfilled, unexecuted, executed,
}
use hierophant.Artifact.Uri.{ArtifactUri}
use hierophant.Prelude.Texts.{Text, text_eq}
use hierophant.Artifact.Store.{
  FileSystem, ArtifactStore, SaveResult, saved, handle_get_artifact_bytes, handle_save_artifact,
}
use hierophant.Proof.{ProofStatus, lost, Reply, get_proof_status, follow_up}
use hierophant.Registry.Commands.{WorkerRegistryCommand, drop_worker_of_request, proof_complete}

-- What a request is remembered by: the name of its proof, its deadline, and the hash of its key.
pub record RequestRecord : Type 0 where
  pub proof_uri : ArtifactUri
  pub deadline : ℕ
  pub vk_hash : Bytes

-- What a program is remembered by: the bytes of its verifying key, and the name of its ELF.
pub record Program : Type 0 where
  pub vk : Bytes
  pub program_uri : Text

pub record ServiceState : Type 0 where
  pub proof_requests : List (ℕ × RequestRecord)
  pub proofs_pending_artifacts : List ℕ
  -- the programs, by the hash of the key
  pub program_store : List (Bytes × Program)
  pub artifacts : ArtifactStore

pub record StatusResponse : Type 0 where
  pub fulfillment_status : ℕ
  pub execution_status : ℕ
  pub deadline : ℕ
  pub proof_uri : Option ArtifactUri

abbrev pub lost_proof_response : StatusResponse
lost_proof_response = record {
  fulfillment_status = lost.fulfillment_status;
  execution_status = lost.execution_status;
  deadline = 0;
  proof_uri = none;
}

-- What a call finds of the rest: how the registry takes the commands, how it answers, and the disk.
pub record Call : Type 0 where
  pub takes_update : Bool
  pub takes_complete : Bool
  pub reply : Reply
  pub fs : FileSystem

-- The response, the artifacts, whether the registry was asked for the status, and the commands that
-- went to it after that question.
pub record Outcome : Type 0 where
  pub response : StatusResponse
  pub artifacts : ArtifactStore
  pub asks : Bool
  pub commands : List WorkerRegistryCommand

abbrev pub respond : StatusResponse → ArtifactStore → List WorkerRegistryCommand → Outcome
respond r a cs = record { response = r; artifacts = a; asks = false; commands = cs }

abbrev pub respond_asked : StatusResponse → ArtifactStore → List WorkerRegistryCommand → Outcome
respond_asked r a cs = record { response = r; artifacts = a; asks = true; commands = cs }

abbrev pub status_response : RequestRecord → ℕ → ℕ → StatusResponse
status_response q f e = record {
  fulfillment_status = f;
  execution_status = e;
  deadline = q.deadline;
  proof_uri = some q.proof_uri;
}

-- An artifact that can be read.
abbrev pub is_found : Option (Option Bytes) → Bool
is_found none = false
is_found (some none) = false
is_found (some (some b)) = true

module _ {ℓ κ} {P : Type ℓ} {K : Type κ} (decode : Bytes → Option P) (decode_vk : Bytes → Option K)
    (verify : P → K → Bool) where
  abbrev pub vk_of : Option Program → Option K
  vk_of none = none
  vk_of (some p) = decode_vk p.vk

  -- `HierophantState::get_vk`
  abbrev pub get_vk : ServiceState → ℕ → Option K
  get_vk s r = elim (lookup r s.proof_requests) [
    | none ↦ none
    | some q ↦ vk_of (lookup q.vk_hash s.program_store)
  ]

  abbrev pub save_outcome :
      RequestRecord
      → ProofStatus
      → List WorkerRegistryCommand
      → Option (ArtifactStore × SaveResult)
      → Option Outcome
  save_outcome q st cs none = none
  save_outcome q st cs (some (a, saved)) =
      some (respond_asked (status_response q st.fulfillment_status st.execution_status) a cs)
  save_outcome q st cs (some (a, res)) = some (respond_asked lost_proof_response a cs)

  -- The worker is freed and the proof saved.
  unfoldable pub accept :
      Call
      → ℕ
      → RequestRecord
      → ProofStatus
      → List WorkerRegistryCommand
      → ArtifactStore
      → Option Outcome
  accept k r q st cs a =
      if k.takes_complete
      then save_outcome q st (cs ++ proof_complete r ∷ [])
          (handle_save_artifact k.fs q.proof_uri st.proof a)
      else some (respond_asked lost_proof_response a cs)

  -- A proof is decoded and verified before it is accepted.
  unfoldable pub check_proof :
      Call
      → ℕ
      → RequestRecord
      → ProofStatus
      → List WorkerRegistryCommand
      → ArtifactStore
      → Option P
      → Option K
      → Option Outcome
  unfolding accept
  check_proof k r q st cs a none vk = some (respond_asked lost_proof_response a cs)
  check_proof k r q st cs a (some p) none = some (respond_asked lost_proof_response a cs)
  check_proof k r q st cs a (some p) (some vk) =
      if verify p vk
      then accept k r q st cs a
      else some (respond_asked lost_proof_response a (cs ++ drop_worker_of_request r ∷ []))

  -- The commands that go with the question after the status.
  abbrev pub sent_update : Call → ℕ → List WorkerRegistryCommand
  sent_update k r = if k.takes_update then follow_up r k.reply else []

  unfoldable pub of_worker :
      Call → ℕ → RequestRecord → ServiceState → Option ProofStatus → Option Outcome
  unfolding check_proof
  of_worker k r q s none = none
  of_worker k r q s (some st) = elim st.proof [
    | [] ↦ some (
        respond_asked (status_response q st.fulfillment_status st.execution_status) s.artifacts
          (sent_update k r))
    | ◌∷◌ _ _ ↦ check_proof k r q st (sent_update k r) s.artifacts (decode st.proof) (get_vk s r)
  ]

  unfoldable pub of_request : Call → ℕ → RequestRecord → ServiceState → Option Outcome
  unfolding of_worker
  of_request k r q s =
      if any (λ j. j == r) s.proofs_pending_artifacts
      then some (
          respond (status_response q (fulfillment_code requested) (execution_code unexecuted))
            s.artifacts [])
      else if is_found (handle_get_artifact_bytes k.fs q.proof_uri s.artifacts)
      then some (
          respond (status_response q (fulfillment_code fulfilled) (execution_code executed))
            s.artifacts [])
      else of_worker k r q s (get_proof_status k.takes_update k.reply)

  -- A request id that is no B256 is `none`.
  unfoldable pub get_proof_request_status : Call → Option ℕ → ServiceState → Option Outcome
  unfolding of_request
  get_proof_request_status k none s = some (respond lost_proof_response s.artifacts [])
  get_proof_request_status k (some r) s = elim (lookup r s.proof_requests) [
    | none ↦ some (respond lost_proof_response s.artifacts [])
    | some q ↦ of_request k r q s
  ]
