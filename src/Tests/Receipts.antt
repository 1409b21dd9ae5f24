-- ===== src/Tests/Receipts.antt =====
-- The Bonsai surface on concrete inputs.
use hierophant.Prelude.{ℕ, ◌≡◌, ◌⊎◌, refl, String, true, false, Option, none, some, [], ◌∷◌}
use hierophant.Prelude.Dict.{lookup}
use hierophant.Prelude.Texts.{Text, text_eq}
use hierophant.Network.{Bytes, composite}
use hierophant.Proof.{answered, from_contemplant, proof_status_request, get_proof_status}
use hierophant.Proof.Routes.{route_risc0_proof}
use hierophant.Jobs.{
  Moment, look, check, ask, fetch, verifying, complete, store, succeeded, answered as has_answered,
  advance,
}
use hierophant.Jobs.Runs.{Once, Traffic, Run, nothing, begun, advanced, changed}
use hierophant.Bonsai.{
  BonsaiSession, SnarkState, BonsaiInner, new, SessionCreateRequest, Draw, handle_image_put,
  handle_input_put, handle_session_create, handle_snark_create, normalize_image_id,
  parse_proof_mode, handle_receipt_download, handle_snark_receipt_download,
}
use hierophant.Bonsai.Status.{Decoded, ok, sessions, snarks}
use hierophant.Bonsai.Changes.{image_put, input_put, session_create, snark_create}
use hierophant.Bonsai.Around.{AroundSessions, AroundSnarks}
use hierophant.Bonsai.Soundness.{
  IsVerified, handle_receipt_download_lem, handle_snark_receipt_download_lem,
}
use hierophant.Bonsai.Create.{IsFollowed, handle_snark_create_lem}

-- Every image has the digest 3, all bytes are the receipt 4, and it verifies.
abbrev digest : Bytes → Option ℕ
digest b = some 3

abbrev decode : Bytes → Decoded ℕ
decode b = ok 4

abbrev verify : ℕ → ℕ → Option String
verify r d = none

-- No client stores a receipt.
abbrev Given : Text → Bytes → Type 0
Given k b = true ≡ false

abbrev moment : Moment
moment = record {
  now = 0;
  takes_update = true;
  takes_complete = true;
  reply = answered (some (record { execution_status = 2; proof = some (7 ∷ []); progress = none }));
  joins = true;
}

abbrev creation : SessionCreateRequest
creation = record {
  img = 97 ∷ [];
  input = 98 ∷ [];
  assumptions = [];
  execute_only = false;
  exec_cycle_limit = none;
  proof_mode = none;
}

abbrev draw : Draw
draw = record { request_id = 5; uuid = 99 ∷ []; mock_mode = false; serves = true }

abbrev snark_draw : Draw
snark_draw = record { request_id = 6; uuid = 100 ∷ []; mock_mode = false; serves = true }

abbrev the_session : BonsaiSession
the_session = record {
  request_id = 5;
  image_id = 97 ∷ [];
  input_id = 98 ∷ [];
  mode = composite;
  terminal_error = none;
}

abbrev the_snark : SnarkState
the_snark = record {
  session_id = 99 ∷ [];
  request_id = 6;
  image_id = 97 ∷ [];
  terminal_error = none;
}

abbrev with_image : BonsaiInner
with_image = record new { images = (97 ∷ [], 1 ∷ []) ∷ [] }

abbrev with_input : BonsaiInner
with_input = record with_image { inputs = (98 ∷ [], 2 ∷ []) ∷ [] }

abbrev with_session : BonsaiInner
with_session = record with_input { sessions = (99 ∷ [], the_session) ∷ [] }

abbrev with_receipt : BonsaiInner
with_receipt = record with_session { receipts = (99 ∷ [], 7 ∷ []) ∷ [] }

abbrev with_snark : BonsaiInner
with_snark = record with_receipt { snark_requests = (100 ∷ [], the_snark) ∷ [] }

abbrev with_wrap : BonsaiInner
with_wrap = record with_snark { snark_receipts = (100 ∷ [], 7 ∷ []) ∷ [] }

abbrev SessionRun : (c d : Traffic Text BonsaiInner BonsaiSession ℕ) → Type 0
SessionRun = Run (sessions digest decode verify) (AroundSessions digest decode verify Given)

abbrev session_start : Traffic Text BonsaiInner BonsaiSession ℕ
session_start = record { state = new; past = []; polls = [] }

abbrev session_ready : Traffic Text BonsaiInner BonsaiSession ℕ
session_ready = record {
  state = with_session;
  past = with_input ∷ with_image ∷ new ∷ [];
  polls = [];
}

session_ready-Run : SessionRun session_start session_ready
unfolding handle_image_put handle_input_put handle_session_create normalize_image_id
    parse_proof_mode route_risc0_proof
session_ready-Run = changed _ (AroundSessions.upload (session_create draw creation refl)) (
    changed _ (AroundSessions.upload (input_put (98 ∷ []) (2 ∷ [])))
      (changed _ (AroundSessions.upload (image_put (97 ∷ []) (1 ∷ []))) nothing))

abbrev session_polled : Traffic Text BonsaiInner BonsaiSession ℕ
session_polled = record {
  state = with_receipt;
  past =
      with_session ∷ with_session ∷ with_session ∷ with_session ∷ with_session ∷ with_session
      ∷ with_session ∷ session_ready.past;
  polls = (99 ∷ [], has_answered succeeded) ∷ [];
}

session_polled-Run :
    SessionRun session_start session_ready → SessionRun session_start session_polled
unfolding advance sessions get_proof_status proof_status_request from_contemplant
session_polled-Run r = advanced moment 0 (99 ∷ []) (store the_session (7 ∷ [])) refl (
    advanced moment 0 (99 ∷ []) (complete the_session (7 ∷ [])) refl (
      advanced moment 0 (99 ∷ []) (verifying the_session 3 (7 ∷ [])) refl (
        advanced moment 0 (99 ∷ []) (fetch the_session (7 ∷ [])) refl (
          advanced moment 0 (99 ∷ []) (ask the_session) refl (
            advanced moment 0 (99 ∷ []) (check the_session) refl
              (advanced moment 0 (99 ∷ []) look refl (begun (99 ∷ []) r)))))))

receipt_there : handle_receipt_download (99 ∷ []) session_polled.state ≡ some (7 ∷ [])
unfolding handle_receipt_download
receipt_there = refl

handle_receipt_download_lem_example :
    ((j : BonsaiSession) × Once session_polled.past (λ s. lookup (99 ∷ []) s.sessions ≡ some j)
      × IsVerified digest decode verify Given session_polled.past j.image_id (7 ∷ []))
    ⊎ Given (99 ∷ []) (7 ∷ [])
handle_receipt_download_lem_example =
    handle_receipt_download_lem digest decode verify Given session_polled (99 ∷ []) (7 ∷ [])
      (session_polled-Run session_ready-Run) receipt_there

abbrev SnarkRun : (c d : Traffic Text BonsaiInner SnarkState ℕ) → Type 0
SnarkRun = Run (snarks digest decode verify) (AroundSnarks digest decode verify Given)

abbrev snark_start : Traffic Text BonsaiInner SnarkState ℕ
snark_start = record { state = new; past = []; polls = [] }

abbrev snark_ready : Traffic Text BonsaiInner SnarkState ℕ
snark_ready = record {
  state = with_snark;
  past = with_receipt ∷ with_session ∷ with_input ∷ with_image ∷ new ∷ [];
  polls = [];
}

snark_ready-Run : SnarkRun snark_start snark_ready
unfolding handle_image_put handle_input_put handle_session_create handle_snark_create
    normalize_image_id parse_proof_mode route_risc0_proof advance sessions
snark_ready-Run = changed _ (AroundSnarks.upload (snark_create snark_draw (99 ∷ []) refl)) (
    changed _ (AroundSnarks.session_step moment (99 ∷ []) (store the_session (7 ∷ []))) (
      changed _ (AroundSnarks.upload (session_create draw creation refl)) (
        changed _ (AroundSnarks.upload (input_put (98 ∷ []) (2 ∷ [])))
          (changed _ (AroundSnarks.upload (image_put (97 ∷ []) (1 ∷ []))) nothing))))

abbrev snark_polled : Traffic Text BonsaiInner SnarkState ℕ
snark_polled = record {
  state = with_wrap;
  past =
      with_snark ∷ with_snark ∷ with_snark ∷ with_snark ∷ with_snark ∷ with_snark ∷ with_snark
      ∷ snark_ready.past;
  polls = (100 ∷ [], has_answered succeeded) ∷ [];
}

snark_polled-Run : SnarkRun snark_start snark_ready → SnarkRun snark_start snark_polled
unfolding advance snarks get_proof_status proof_status_request from_contemplant
snark_polled-Run r = advanced moment 0 (100 ∷ []) (store the_snark (7 ∷ [])) refl (
    advanced moment 0 (100 ∷ []) (complete the_snark (7 ∷ [])) refl (
      advanced moment 0 (100 ∷ []) (verifying the_snark 3 (7 ∷ [])) refl (
        advanced moment 0 (100 ∷ []) (fetch the_snark (7 ∷ [])) refl (
          advanced moment 0 (100 ∷ []) (ask the_snark) refl (
            advanced moment 0 (100 ∷ []) (check the_snark) refl
              (advanced moment 0 (100 ∷ []) look refl (begun (100 ∷ []) r)))))))

wrap_there : handle_snark_receipt_download (100 ∷ []) snark_polled.state ≡ some (7 ∷ [])
unfolding handle_snark_receipt_download
wrap_there = refl

handle_snark_receipt_download_lem_example :
    (j : SnarkState) × Once snark_polled.past (λ s. lookup (100 ∷ []) s.snark_requests ≡ some j)
    × IsVerified digest decode verify Given snark_polled.past j.image_id (7 ∷ [])
handle_snark_receipt_download_lem_example =
    handle_snark_receipt_download_lem digest decode verify Given snark_polled (100 ∷ []) (7 ∷ [])
      (snark_polled-Run snark_ready-Run) wrap_there

handle_snark_create_lem_example :
    IsFollowed snark_draw
      (99 ∷ [])
      with_receipt
      (handle_snark_create snark_draw (99 ∷ []) with_receipt)
handle_snark_create_lem_example = handle_snark_create_lem snark_draw (99 ∷ []) with_receipt
