-- ===== src/Tests/Stores.antt =====
-- The proof store, the artifact store and the service on concrete inputs.
use Prim.Native.Nat.{max}
use hierophant.Prelude.{
  Bool, ℕ, ◌+◌, ◌≤◌, ◌≡◌, refl, true, false, ◌&&◌, ◌↔◌, ◌-◌, Option, none, some, List, [], ◌∷◌,
  arith, string_eq, nat_eq, count_if, ◌==◌,
}
use hierophant.Prelude.Dict.{lookup}
use hierophant.Network.{ContemplantProofStatus, Bytes, unexecuted_status, done, default_status}
use hierophant.Registry.Commands.{proof_complete, proof_progress_update}
use hierophant.ProofStore.{
  ProofStore, ProofStoreCommand, proof_status_update, insert_proof, get, handle as handle_proof,
  run as run_proofs,
}
use hierophant.ProofStore.Ring.{IsValid, Succeeds, run-new_total}
use hierophant.ProofStore.Answers.{get-handle, after}
use hierophant.ProofStore.Retention.{get-run}
use hierophant.Artifact.Uri.{ArtifactUri, proof, stdin, display, from_str}
use hierophant.Prelude.Texts.{Text}
use hierophant.Artifact.RoundTrip.{from_str-display}
use hierophant.Artifact.Store.{
  ArtifactStore, new as new_artifacts, run as run_artifacts, FileSystem, Operation, create_artifact,
  save_artifact, uri_eq,
}
use hierophant.Artifact.Store.Bound.{run-new_bounded, stdin_uri, proof_uri}
use hierophant.Proof.{answered, get_proof_status as route_status, lost, timed_out}
use hierophant.Proof.Answer.{get_proof_status_lem, is_lost, is_unsound}
use hierophant.Network.{ProgressUpdate, proving}
use hierophant.Network.Progress.{stage, furthest, report_all, stage-report_all}
use hierophant.Artifact.Store.{saved, handle_save_artifact, handle_get_artifact_bytes}
use hierophant.Artifact.Store.Bound.{IsValid as IsValidStore}
use hierophant.Artifact.Store.Upload.{get-save}
use hierophant.Service.{RequestRecord, ServiceState, Call, Outcome, get_proof_request_status}
use hierophant.Service.Soundness.{fulfilled_lem, IsFounded}

-- A store of two places with one proof in it.
abbrev store : ProofStore
store = record {
  max_proofs_stored = 2;
  proofs = (9, unexecuted_status) ∷ (0, default_status) ∷ [];
  current_proof_index = 1;
}

store-IsValid : IsValid store
store-IsValid = record { full = refl; inside = omega arith }

abbrev some_commands : List ProofStoreCommand
some_commands = insert_proof 8 unexecuted_status ∷ proof_status_update 8 2 (some (1 ∷ [])) ∷ []

abbrev new_store : ProofStore
new_store = record {
  max_proofs_stored = 2;
  proofs = (0, default_status) ∷ (0, default_status) ∷ [];
  current_proof_index = 0;
}

run-new_total_example :
    Succeeds (run_proofs some_commands new_store) new_store × (new_store.max_proofs_stored ≡ 2)
run-new_total_example = run-new_total 2 new_store some_commands refl

get-handle_example :
    (s' : ProofStore) × (handle_proof (insert_proof 8 unexecuted_status) store ≡ some s')
    × (get 9 s' ≡ after (insert_proof 8 unexecuted_status) 9 (get 9 store))
get-handle_example = get-handle (insert_proof 8 unexecuted_status) 9 store store-IsValid refl

get-run_example :
    (s' : ProofStore) × (run_proofs (insert_proof 7 unexecuted_status ∷ some_commands) store
      ≡ some s')
    × (get 7 s' ≡ some unexecuted_status)
get-run_example =
    get-run 7 unexecuted_status some_commands store store-IsValid refl refl (omega arith)

-- A UUID library whose names are one character, 96 above the number.
abbrev print_uuid : ℕ → Text
print_uuid id = (96 + id) ∷ []

abbrev parse_uuid : Text → Option ℕ
parse_uuid (c ∷ []) = some (c - 96)
parse_uuid s = none

from_str-display_example :
    from_str print_uuid parse_uuid
      (display print_uuid parse_uuid (record { id = 3; artifact_type = proof }))
    ≡ some (record { id = 3; artifact_type = proof })
from_str-display_example =
    from_str-display print_uuid parse_uuid (λ id. ground arith) (λ id. ground arith)
      (record { id = 3; artifact_type = proof })

abbrev file_system : FileSystem
file_system = record { removes = true; reads = true; leaves = λ b. some b; writes = true }

abbrev upload : ArtifactUri
upload = record { id = 1; artifact_type = stdin }

abbrev uploads : List Operation
uploads = create_artifact upload ∷ save_artifact file_system upload (1 ∷ []) ∷ []

run-new_bounded_example :
    (s : ArtifactStore) × (run_artifacts uploads (new_artifacts 1 1) ≡ some s)
    × (count_if (λ x. stdin_uri x.0) s.disk ≤ 1)
    × (count_if (λ x. proof_uri x.0) s.disk ≤ 1)
run-new_bounded_example = run-new_bounded 1 1 uploads (omega arith) (omega arith) refl

get_proof_status_lem_example :
    ((route_status true timed_out ≡ some lost) ↔ (is_lost true timed_out ≡ true))
    × ((route_status true timed_out ≡ none) ↔ ((true && is_unsound timed_out) ≡ true))
get_proof_status_lem_example = get_proof_status_lem true timed_out

-- An estimate that comes after the end.
abbrev reports : List (Option ProgressUpdate)
reports = some done ∷ some (proving 3 60) ∷ []

stage-report_all_example :
    (stage (report_all reports unexecuted_status).progress
      ≡ max (stage unexecuted_status.progress) (furthest reports))
    × ((report_all reports unexecuted_status).execution_status ≡ unexecuted_status.execution_status)
    × ((report_all reports unexecuted_status).proof ≡ unexecuted_status.proof)
stage-report_all_example = stage-report_all reports unexecuted_status

-- A store in which one proof may be uploaded.
abbrev proof_name : ArtifactUri
proof_name = record { id = 4; artifact_type = proof }

abbrev artifact_store : ArtifactStore
artifact_store = record (new_artifacts 1 1) { upload_uris = proof_name ∷ [] }

artifact_store-IsValid : IsValidStore artifact_store
artifact_store-IsValid = record {
  one = λ a. omega arith;
  stdins = record { full = refl; inside = omega arith; covers = λ a t l. refl };
  proofs = record { full = refl; inside = omega arith; covers = λ a t l. refl };
}

get-save_example :
    (s' : ArtifactStore) × (handle_save_artifact file_system proof_name (1 ∷ []) artifact_store
      ≡ some (s', saved))
    × (handle_get_artifact_bytes file_system proof_name s' ≡ some (some (1 ∷ [])))
get-save_example =
    get-save file_system proof_name (1 ∷ []) artifact_store artifact_store-IsValid file_system refl
      refl refl refl refl

abbrev executed_status : ContemplantProofStatus
executed_status = record { execution_status = 2; proof = some (1 ∷ []); progress = none }

abbrev call : Call
call = record {
  takes_update = true;
  takes_complete = true;
  reply = answered (some executed_status);
  fs = file_system;
}

abbrev service : ServiceState
service = record {
  proof_requests = (7, record { proof_uri = proof_name; deadline = 5; vk_hash = 9 ∷ [] }) ∷ [];
  proofs_pending_artifacts = [];
  program_store = (9 ∷ [], record { vk = 8 ∷ []; program_uri = [] }) ∷ [];
  artifacts = artifact_store;
}

abbrev outcome : Outcome
outcome = record {
  response = record {
    fulfillment_status = 3;
    execution_status = 2;
    deadline = 5;
    proof_uri = some proof_name;
  };
  artifacts = record artifact_store {
    disk = (proof_name, 1 ∷ []) ∷ [];
    proof_ring = record { max_stored = 1; artifacts = proof_name ∷ []; current_index = 0 };
  };
  asks = true;
  commands = proof_progress_update 7 none ∷ proof_complete 7 ∷ [];
}

-- The decoders take any bytes, and the verifier accepts what starts with 1.
abbrev decode_bytes : Bytes → Option Bytes
decode_bytes b = some b

abbrev verify_first : Bytes → Bytes → Bool
verify_first [] key = false
verify_first (x ∷ _) key = x == 1

fulfilled_lem_example :
    (r : ℕ) × (q : RequestRecord) × (some 7 ≡ some r)
    × (lookup r service.proof_requests ≡ some q)
    × IsFounded decode_bytes decode_bytes verify_first call r q service outcome
unfolding get_proof_request_status handle_save_artifact route_status
fulfilled_lem_example =
    fulfilled_lem decode_bytes decode_bytes verify_first call (some 7) service outcome refl refl
