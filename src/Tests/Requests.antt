-- ===== src/Tests/Requests.antt =====
-- Requests for SP1 proofs on concrete inputs.
use hierophant.Prelude.{List, ◌++◌, ℕ, ◌≡◌, refl, true, false, Option, none, some, [], ◌∷◌}
use hierophant.Prelude.Texts.{Text}
use hierophant.Network.{Bytes, ProofMode, fulfillment_code, execution_code, requested, unexecuted}
use hierophant.Proof.{not_sent}
use hierophant.Artifact.Uri.{program, stdin, proof, from_str}
use hierophant.Artifact.Store.{FileSystem, new as new_artifacts}
use hierophant.Service.{
  ServiceState, Call, respond, status_response, get_vk, get_proof_request_status,
}
use hierophant.Service.Requests.{
  Scene, RequestProofBody, CreateProgramBody, create_program, Download, downloading, response,
  request_proof,
}
use hierophant.Service.Downloads.{Installer, download_step, download_steps}
use hierophant.Service.Waiting.{asked, task, record_of, is_ended, requested_lem}
use hierophant.Service.Keys.{ClientCall, creates, requests, after_calls, get_vk-request_proof}

-- A name is one character.
abbrev name : ℕ → Text
name n = n ∷ []

abbrev number : Text → Option ℕ
number (c ∷ []) = some c
number _ = none

abbrev same : Bytes → Option Bytes
same b = some b

-- `STDIN_1` and `PROGRAM_2`
abbrev stdin_name : Text
stdin_name = 83 ∷ 84 ∷ 68 ∷ 73 ∷ 78 ∷ 95 ∷ 1 ∷ []

abbrev program_name : Text
program_name = 80 ∷ 82 ∷ 79 ∷ 71 ∷ 82 ∷ 65 ∷ 77 ∷ 95 ∷ 2 ∷ []

abbrev new_program : CreateProgramBody
new_program = record { vk_hash = 9 ∷ []; vk = 8 ∷ []; program_uri = program_name }

abbrev fs : FileSystem
fs = record { removes = true; reads = true; leaves = λ b. none; writes = true }

abbrev empty : ServiceState
empty = record {
  proof_requests = [];
  proofs_pending_artifacts = [];
  program_store = [];
  artifacts = new_artifacts 2 2;
}

abbrev body : RequestProofBody
body = record { vk_hash = 9 ∷ []; mode = 4; stdin_uri = stdin_name; deadline = 7 }

abbrev scene : Scene
scene = record {
  request_id = 5;
  proof_uri = record { id = 3; artifact_type = proof };
  installed = λ m. false;
  fs = fs;
  mock_mode = false;
  stores = true;
  serves = true;
}

abbrev with_program : ServiceState
with_program = (create_program true (some new_program) empty).0

-- Another program is created in between, and after.
abbrev other_calls : List ClientCall
other_calls = creates true (some (record new_program { vk_hash = 7 ∷ 7 ∷ [] })) ∷ []

was_answered :
    (request_proof name number same same same scene
      (some body)
      (create_program true
        (some (record new_program { vk_hash = 7 ∷ 7 ∷ [] }))
        (create_program true (some new_program) empty).0).0).1
    ≡ response 5
unfolding request_proof from_str create_program
was_answered = refl

get_vk-request_proof_example :
    get_vk same same
      (λ p k. true)
      (after_calls same same
        (λ p k. true)
        name
        number
        same
        same
        same
        (creates true (some new_program)
          ∷ (other_calls ++ requests scene (some body) ∷ other_calls))
        empty)
      5
    ≡ some (8 ∷ [])
get_vk-request_proof_example =
    get_vk-request_proof same same (λ p k. true) name number same same same scene body new_program
      empty other_calls other_calls refl refl refl was_answered

abbrev installer : Installer
installer = record { installs = true; writes = true }

abbrev download : Download
download = record {
  request_id = 5;
  program_uri = record { id = 2; artifact_type = program };
  stdin_uri = record { id = 1; artifact_type = stdin };
  mode = ProofMode.groth16;
}

abbrev call : Call
call = record { takes_update = true; takes_complete = true; reply = not_sent; fs = fs }

abbrev ready : ServiceState
ready = record empty {
  program_store = (9 ∷ [], record { vk = 8 ∷ []; program_uri = program_name }) ∷ [];
}

was_asked : (asked name number same same same installer scene body download ready).1 ≡ response 5
unfolding request_proof from_str
was_asked = refl

was_started :
    (asked name number same same same installer scene body download ready).2 ≡ downloading download
unfolding request_proof from_str
was_started = refl

-- After three steps the registry has been asked, and the task has still to remove its mark.
is_removing :
    is_ended (task name number same same same installer scene body download 3 ready).phase ≡ false
unfolding download_steps download_step request_proof from_str
is_removing = refl

requested_lem_example :
    get_proof_request_status same same
      (λ p k. true)
      call
      (some 5)
      (task name number same same same installer scene body download 3 ready).state
    ≡ some (
        respond
          (status_response
            (record_of name number same same same installer scene body download)
            (fulfillment_code requested)
            (execution_code unexecuted))
          (task name number same same same installer scene body download 3 ready).state.artifacts
          [])
requested_lem_example =
    requested_lem name number same same same installer scene body download same same (λ p k. true)
      ready call 3 was_asked was_started is_removing
