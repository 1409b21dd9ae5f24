-- ===== src/OpenVm/Create.antt =====
-- What a new OpenVM job leads to.
use hierophant.Prelude.{
  ◌≡◌, ◌⊎◌, inl, inr, refl, Bool, Option, none, some, List, arith, true, false,
}
use hierophant.Prelude.Dict.{lookup, insert, lookup-insert}
use hierophant.Prelude.Texts.{Text, text_eq}
use hierophant.Network.{Bytes, OpenVmProofMode, OpenVmProofRequest, openvm_request}
use hierophant.Registry.Commands.{WorkerRegistryCommand, assign_proof_request}
use hierophant.Proof.Routes.{route_openvm_proof, assign}
use hierophant.OpenVm.{
  OpenVmJob, OpenVmInner, Draw, ProofCreateRequest, job, Creation, reply_of, new_job, create_job,
  create_with, handle_proof_create, normalize_program_id, parse_proof_mode,
}

module _ (d : Draw) (q : ProofCreateRequest) (s : OpenVmInner) where
  abbrev pub request_of : Bytes → List Bytes → OpenVmProofMode → OpenVmProofRequest
  request_of elf input mode = record {
    request_id = d.request_id;
    elf = elf;
    app_config_toml = q.app_config_toml;
    input = input;
    mode = mode;
    mock = d.mock_mode;
  }

  -- The registry was asked for a proof of what was uploaded, and the job that is kept has the number
  -- of that request, finds the same program for the verification, and has not failed.
  pub record IsCreated (uuid : Text) (c : Creation) : Type 0 where
    pub elf : Bytes
    pub input : List Bytes
    pub mode : OpenVmProofMode
    pub program : lookup (normalize_program_id q.program) s.programs ≡ some elf
    pub streams : lookup q.input s.inputs ≡ some input
    pub accepted : parse_proof_mode q.proof_mode ≡ some mode
    pub command : c.2 ≡ some (assign_proof_request (openvm_request (request_of elf input mode)))
    pub kept : OpenVmJob
    pub remembered : lookup uuid c.0.jobs ≡ some kept
    pub number : kept.request_id ≡ d.request_id
    pub verified_against : lookup kept.program_id c.0.programs ≡ some elf
    pub same_mode : kept.mode ≡ mode
    pub same_config : kept.app_config_toml ≡ q.app_config_toml
    pub no_error : kept.terminal_error ≡ none

  abbrev pub name_of : Creation → Option Text
  name_of (t, job uuid, c) = some uuid
  name_of (t, _, c) = none

  -- No job and no command, or a job and its command.
  abbrev pub IsFollowed : Creation → Type 0
  IsFollowed c =
      ((name_of c ≡ none) × (c.2 ≡ none)) ⊎ ((name_of c ≡ some d.uuid) × IsCreated d.uuid c)

  abbrev replied : Bytes → List Bytes → OpenVmProofMode → Bool → Creation
  replied elf input mode serves =
      reply_of d.uuid (record s { jobs = insert d.uuid (new_job d q mode) s.jobs })
        (assign serves (openvm_request (request_of elf input mode)))

  abbrev asked : Bytes → List Bytes → OpenVmProofMode → WorkerRegistryCommand
  asked elf input mode = assign_proof_request (openvm_request (request_of elf input mode))

  remember :
      (mode : OpenVmProofMode)
      → lookup d.uuid (insert d.uuid (new_job d q mode) s.jobs) ≡ some (new_job d q mode)
  remember mode =
      ground (
        arith,
        lookup-insert d.uuid d.uuid (new_job d q mode) s.jobs,
        text_eq.beq_iff d.uuid d.uuid,
      )

  module _ (elf : Bytes) (input : List Bytes) (mode : OpenVmProofMode)
      (program : lookup (normalize_program_id q.program) s.programs ≡ some elf)
      (streams : lookup q.input s.inputs ≡ some input)
      (accepted : parse_proof_mode q.proof_mode ≡ some mode) where
    reply_created : (serves : Bool) → IsFollowed (replied elf input mode serves)
    reply_created false = inl (refl, refl)
    reply_created true = inr (
      refl,
      record {
        elf = elf;
        input = input;
        mode = mode;
        program = program;
        streams = streams;
        accepted = accepted;
        command = refl;
        kept = new_job d q mode;
        remembered = remember mode;
        number = refl;
        verified_against = program;
        same_mode = refl;
        same_config = refl;
        no_error = refl;
      },
    )

  by_mode :
      (elf : Bytes) (input : List Bytes) (mode : Option OpenVmProofMode)
      → lookup (normalize_program_id q.program) s.programs ≡ some elf
      → lookup q.input s.inputs ≡ some input
      → parse_proof_mode q.proof_mode ≡ mode
      → IsFollowed (create_job d q s elf input mode)
  unfolding route_openvm_proof
  by_mode elf input none p i m = inl (refl, refl)
  by_mode elf input (some mode) p i m = reply_created elf input mode p i m d.serves

  by_uploads :
      (elf : Option Bytes) (input : Option (List Bytes))
      → lookup (normalize_program_id q.program) s.programs ≡ elf
      → lookup q.input s.inputs ≡ input
      → IsFollowed (create_with d q s elf input)
  by_uploads none input p i = inl (refl, refl)
  by_uploads (some elf) none p i = inl (refl, refl)
  by_uploads (some elf) (some input) p i =
      by_mode elf input (parse_proof_mode q.proof_mode) p i refl

  pub handle_proof_create_lem : IsFollowed (handle_proof_create d q s)
  unfolding handle_proof_create
  handle_proof_create_lem = by_uploads _ _ refl refl
