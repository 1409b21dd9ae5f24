-- ===== src/Bonsai.antt =====
-- The REST surface for RISC Zero clients (src/hierophant/src/bonsai): `router.rs` with the maps of
-- `state.rs`. A URL is left out: it is the id that it ends in.
pub mod Status
pub mod Changes
pub mod Around
pub mod Soundness
pub mod Create
use hierophant.Prelude.{
  ℕ, Bool, Option, none, some, List, [], ◌∷◌, or_else, if◌then◌else◌, is_some, is_empty, not,
}
use hierophant.Prelude.Dict.{lookup, insert}
use hierophant.Prelude.Texts.{Text, text_eq, same_text, trim, strip_prefix, to_ascii_lowercase}
use hierophant.Network.{Bytes, Risc0ProofMode, composite, succinct}
use hierophant.Proof.Routes.{route_risc0_proof}
use hierophant.Registry.Commands.{WorkerRegistryCommand}
use hierophant.Jobs.{JobError}

pub record BonsaiSession : Type 0 where
  pub request_id : ℕ
  pub image_id : Text
  pub input_id : Text
  pub mode : Risc0ProofMode
  pub terminal_error : Option JobError

pub record SnarkState : Type 0 where
  pub session_id : Text
  pub request_id : ℕ
  pub image_id : Text
  pub terminal_error : Option JobError

pub record BonsaiInner : Type 0 where
  pub images : List (Text × Bytes)
  pub inputs : List (Text × Bytes)
  pub sessions : List (Text × BonsaiSession)
  pub receipts : List (Text × Bytes)
  pub snark_requests : List (Text × SnarkState)
  pub snark_receipts : List (Text × Bytes)

abbrev pub new : BonsaiInner
new = record {
  images = [];
  inputs = [];
  sessions = [];
  receipts = [];
  snark_requests = [];
  snark_receipts = [];
}

-- The text `0x`
abbrev pub hex_prefix : Text
hex_prefix = 48 ∷ 120 ∷ []

unfoldable pub normalize_image_id : Text → Text
normalize_image_id raw =
    let s = trim raw in to_ascii_lowercase (or_else s (strip_prefix hex_prefix s))

-- The answer to an upload: status 200 or 400.
pub data Uploaded : Type 0 where
  stored bad_request : Uploaded

module _ {D : Type 0} (compute_image_id : Bytes → Option D) where
  abbrev pub put_image : Text → Bytes → BonsaiInner → Option D → BonsaiInner × Uploaded
  put_image image_id body s none = (s, bad_request)
  put_image image_id body s (some computed) =
      (record s { images = insert image_id body s.images }, stored)

  -- The computed id is only compared for the log.
  unfoldable pub handle_image_put :
      (image_id : Text) (body : Bytes) → BonsaiInner → BonsaiInner × Uploaded
  unfolding normalize_image_id
  handle_image_put image_id body s =
      put_image (normalize_image_id image_id) body s (compute_image_id body)

unfoldable pub handle_input_put : (input_id : Text) (body : Bytes) → BonsaiInner → BonsaiInner
handle_input_put input_id body s = record s { inputs = insert input_id body s.inputs }

unfoldable pub handle_receipt_put : (receipt_id : Text) (body : Bytes) → BonsaiInner → BonsaiInner
handle_receipt_put receipt_id body s = record s { receipts = insert receipt_id body s.receipts }

-- `composite`, `succinct` and `groth16`
abbrev pub composite_word : Text
composite_word = 99 ∷ 111 ∷ 109 ∷ 112 ∷ 111 ∷ 115 ∷ 105 ∷ 116 ∷ 101 ∷ []

abbrev pub succinct_word : Text
succinct_word = 115 ∷ 117 ∷ 99 ∷ 99 ∷ 105 ∷ 110 ∷ 99 ∷ 116 ∷ []

abbrev pub groth16_word : Text
groth16_word = 103 ∷ 114 ∷ 111 ∷ 116 ∷ 104 ∷ 49 ∷ 54 ∷ []

abbrev pub mode_of_word : Text → Option Risc0ProofMode
mode_of_word s =
    if same_text s composite_word
    then some composite
    else if same_text s succinct_word
    then some succinct
    else if same_text s groth16_word
    then some Risc0ProofMode.groth16
    else none

unfoldable pub parse_proof_mode : Option Text → Option Risc0ProofMode
parse_proof_mode none = some composite
parse_proof_mode (some raw) = mode_of_word (to_ascii_lowercase raw)

pub record SessionCreateRequest : Type 0 where
  pub img : Text
  pub input : Text
  pub assumptions : List Text
  pub execute_only : Bool
  pub exec_cycle_limit : Option ℕ
  pub proof_mode : Option Text

-- What a new job finds: the random names, the setting, and whether the registry takes commands.
pub record Draw : Type 0 where
  pub request_id : ℕ
  pub uuid : Text
  pub mock_mode : Bool
  pub serves : Bool

-- The answer to a new session or a new wrap: a name, or status 400, 501 or 500.
pub data Created : Type 0 where
  job : (uuid : Text) → Created
  unknown : Created
  not_implemented : Created
  unsupported_mode : Created
  not_routed : Created

-- The maps, the answer, and the command that went to the registry.
abbrev pub Creation : Type 0
Creation = BonsaiInner × Created × Option WorkerRegistryCommand

abbrev pub reply_of : Text → BonsaiInner → Option WorkerRegistryCommand → Creation
reply_of uuid s none = (s, not_routed, none)
reply_of uuid s (some c) = (s, job uuid, some c)

abbrev pub new_session : Draw → SessionCreateRequest → Risc0ProofMode → BonsaiSession
new_session d q mode = record {
  request_id = d.request_id;
  image_id = normalize_image_id q.img;
  input_id = q.input;
  mode = mode;
  terminal_error = none;
}

-- The session is remembered before it is routed.
abbrev pub create_session :
    Draw
    → SessionCreateRequest
    → BonsaiInner
    → (elf input : Bytes) → Option Risc0ProofMode
    → Creation
create_session d q s elf input none = (s, unsupported_mode, none)
create_session d q s elf input (some mode) =
    reply_of d.uuid (record s { sessions = insert d.uuid (new_session d q mode) s.sessions })
      (route_risc0_proof d.serves d.mock_mode d.request_id elf input mode none)

abbrev pub create_with :
    Draw → SessionCreateRequest → BonsaiInner → (elf input : Option Bytes) → Creation
create_with d q s none input = (s, unknown, none)
create_with d q s (some elf) none = (s, unknown, none)
create_with d q s (some elf) (some input) =
    if q.execute_only
    then (s, not_implemented, none)
    else if not (is_empty q.assumptions)
    then (s, not_implemented, none)
    else create_session d q s elf input (parse_proof_mode q.proof_mode)

unfoldable pub handle_session_create : Draw → SessionCreateRequest → BonsaiInner → Creation
unfolding normalize_image_id parse_proof_mode route_risc0_proof
handle_session_create d q s =
    create_with d q s (lookup (normalize_image_id q.img) s.images) (lookup q.input s.inputs)

abbrev pub new_snark : Draw → (session_id image_id : Text) → SnarkState
new_snark d session_id image_id = record {
  session_id = session_id;
  request_id = d.request_id;
  image_id = image_id;
  terminal_error = none;
}

-- A wrap carries the receipt of its session in place of a program and an input.
abbrev pub wrap_with :
    Draw → (session_id : Text) → BonsaiInner → Option BonsaiSession → Option Bytes → Creation
wrap_with d session_id s none receipt = (s, unknown, none)
wrap_with d session_id s (some session) none = (s, unknown, none)
wrap_with d session_id s (some session) (some receipt) =
    reply_of d.uuid
      (record s {
        snark_requests = insert d.uuid (new_snark d session_id session.image_id) s.snark_requests;
      })
      (route_risc0_proof d.serves d.mock_mode d.request_id [] [] Risc0ProofMode.groth16
        (some receipt))

unfoldable pub handle_snark_create : Draw → (session_id : Text) → BonsaiInner → Creation
unfolding route_risc0_proof
handle_snark_create d session_id s =
    wrap_with d session_id s (lookup session_id s.sessions) (lookup session_id s.receipts)

-- None is status 404.
unfoldable pub handle_receipt_download : (session_id : Text) → BonsaiInner → Option Bytes
handle_receipt_download session_id s = lookup session_id s.receipts

unfoldable pub handle_snark_receipt_download : (snark_id : Text) → BonsaiInner → Option Bytes
handle_snark_receipt_download snark_id s = lookup snark_id s.snark_receipts
