-- ===== src/Tests/Surfaces.antt =====
-- The REST surfaces and the worker's wire on concrete inputs.
use hierophant.Prelude.{
  ℕ, ◌≡◌, ◌≤◌, ◌⊎◌, refl, true, false, Option, none, some, List, [], ◌∷◌, ◌++◌, ap, or_else, zero,
  suc,
}
use hierophant.Prelude.Texts.{Text, text_eq}
use hierophant.Network.{Bytes, OpenVmProofMode}
use hierophant.Proof.{answered, from_contemplant, proof_status_request, get_proof_status}
use hierophant.Proof.Routes.{route_openvm_proof}
use hierophant.OpenVmWorker.{
  WorkerRequest, WorkerResponse, CallResult, responded, verify_ok, proof, version_is, err, size,
  version, write_frame, read_frame, call,
}
use hierophant.OpenVmWorker.Frames.{read_frame-write_frame}
use hierophant.OpenVmWorker.Calls.{send_all, call_lem}
use hierophant.OpenVm.Create.{IsFollowed, handle_proof_create_lem}
use hierophant.OpenVm.Names.{normalize_program_id_lem}
use hierophant.Jobs.{
  reported_unfulfillable, StatusAnswer, failed, Moment, look, check, ask, fail, fetch, verifying,
  complete, store, succeeded, answered as has_answered, advance, status,
}
use hierophant.Jobs.Machine.{Move, state_of, has_succeeded, has_failed}
use hierophant.Jobs.Refinement.{status_lem}
use hierophant.Jobs.Runs.{Traffic, Run, nothing, begun, advanced, changed, IsChecked}
use hierophant.Jobs.Soundness.{Run-founded}
use hierophant.Jobs.Sticky.{Run-forward, stage}
use hierophant.OpenVm.{
  OpenVmJob, OpenVmInner, ProofCreateRequest, Draw, handle_program_put, handle_input_put,
  handle_proof_create, normalize_program_id, parse_proof_mode, new, handle_proof_download,
}
use hierophant.OpenVm.Verify.{verify_openvm_proof, attempts}
use hierophant.OpenVm.Status.{surface, surface-IsLawful}
use hierophant.OpenVm.Soundness.{
  Change, program_put, input_put, proof_create, IsProven, surface-IsQuiet, Nowhere,
  handle_proof_download_lem,
}

abbrev worker : ℕ → WorkerRequest → CallResult
worker n req = responded verify_ok

abbrev moment : Moment
moment = record {
  now = 0;
  takes_update = true;
  takes_complete = true;
  reply = answered (some (record { execution_status = 2; proof = some (7 ∷ []); progress = none }));
  joins = true;
}

abbrev streams : Bytes → Option (List Bytes)
streams b = some (b ∷ [])

abbrev creation : ProofCreateRequest
creation = record { program = 97 ∷ []; input = 98 ∷ []; proof_mode = none; app_config_toml = none }

abbrev draw : Draw
draw = record { request_id = 5; uuid = 99 ∷ []; mock_mode = false; serves = true }

abbrev uploaded : OpenVmInner
uploaded = record {
  programs = (97 ∷ [], 1 ∷ []) ∷ [];
  inputs = (98 ∷ [], (2 ∷ []) ∷ []) ∷ [];
  jobs = [];
  proofs = [];
}

abbrev the_job : OpenVmJob
the_job = record {
  request_id = 5;
  program_id = 97 ∷ [];
  app_config_toml = none;
  mode = OpenVmProofMode.app;
  terminal_error = none;
}

abbrev created : OpenVmInner
created = record uploaded { jobs = (99 ∷ [], the_job) ∷ [] }

abbrev finished : OpenVmInner
finished = record created { proofs = (99 ∷ [], 7 ∷ []) ∷ [] }

abbrev OpenVmTraffic : Type 0
OpenVmTraffic = Traffic Text OpenVmInner OpenVmJob Bytes

abbrev start : OpenVmTraffic
start = record { state = new; past = []; polls = [] }

abbrev OpenVmRun : OpenVmTraffic → OpenVmTraffic → Type 0
OpenVmRun = Run (surface worker) (Change streams)

abbrev prepared : OpenVmTraffic
prepared = record {
  state = created;
  past = uploaded ∷ (record uploaded { inputs = [] }) ∷ new ∷ [];
  polls = [];
}

prepared-Run : OpenVmRun start prepared
unfolding handle_program_put normalize_program_id handle_input_put handle_proof_create
    parse_proof_mode route_openvm_proof
prepared-Run =
    changed _ (proof_create draw creation refl) (
      changed _ (input_put (98 ∷ []) (2 ∷ [])) (changed _ (program_put (97 ∷ []) (1 ∷ [])) nothing))

-- One poll, from its beginning to its answer.
abbrev polled : OpenVmTraffic
polled = record {
  state = finished;
  past = created ∷ created ∷ created ∷ created ∷ created ∷ created ∷ created ∷ prepared.past;
  polls = (99 ∷ [], has_answered succeeded) ∷ [];
}

polled-Run : {c : OpenVmTraffic} → OpenVmRun c prepared → OpenVmRun c polled
unfolding advance surface get_proof_status proof_status_request from_contemplant verify_openvm_proof
    attempts
polled-Run r = advanced moment 0 (99 ∷ []) (store the_job (7 ∷ [])) refl (
    advanced moment 0 (99 ∷ []) (complete the_job (7 ∷ [])) refl (
      advanced moment 0 (99 ∷ []) (verifying the_job (1 ∷ []) (7 ∷ [])) refl (
        advanced moment 0 (99 ∷ []) (fetch the_job (7 ∷ [])) refl (
          advanced moment 0 (99 ∷ []) (ask the_job) refl (
            advanced moment 0 (99 ∷ []) (check the_job) refl
              (advanced moment 0 (99 ∷ []) look refl (begun (99 ∷ []) r)))))))

-- A poll that has looked before another one stores the proof hears that the registry has lost it.
abbrev late : Moment
late = record moment { reply = answered none }

abbrev racing : OpenVmTraffic
racing = record { state = finished; past = []; polls = (99 ∷ [], ask the_job) ∷ [] }

abbrev raced : OpenVmTraffic
raced = record {
  state = record finished {
    jobs = (99 ∷ [], record the_job { terminal_error = some reported_unfulfillable }) ∷ [];
  };
  past = finished ∷ finished ∷ [];
  polls = (99 ∷ [], has_answered (failed reported_unfulfillable)) ∷ [];
}

raced-Run : OpenVmRun racing raced
unfolding advance surface get_proof_status proof_status_request
raced-Run =
    advanced late 0 (99 ∷ []) (fail reported_unfulfillable) refl
      (advanced late 0 (99 ∷ []) (ask the_job) refl nothing)

raced_states :
    (state_of (surface worker) (99 ∷ []) racing.state ≡ has_succeeded)
    × (state_of (surface worker) (99 ∷ []) raced.state ≡ has_failed)
unfolding surface
raced_states = (refl, refl)

Run-forward_example :
    stage (state_of (surface worker) (99 ∷ []) racing.state)
    ≤ stage (state_of (surface worker) (99 ∷ []) raced.state)
Run-forward_example =
    Run-forward (surface worker) (surface-IsLawful worker) (Change streams) Nowhere
      (surface-IsQuiet worker streams) racing raced (99 ∷ []) raced-Run

downloaded : handle_proof_download (99 ∷ []) polled.state ≡ some (7 ∷ [])
unfolding handle_proof_download
downloaded = refl

handle_proof_download_lem_example : IsProven worker streams polled.past (99 ∷ []) (7 ∷ [])
handle_proof_download_lem_example =
    handle_proof_download_lem worker streams polled (99 ∷ []) (7 ∷ []) (polled-Run prepared-Run)
      downloaded

nothing_stored : (i : Text) → (surface worker).proof i start.state ≡ none
unfolding surface
nothing_stored i = refl

is_stored : (surface worker).proof (99 ∷ []) polled.state ≡ some (7 ∷ [])
unfolding surface
is_stored = refl

Run-founded_example :
    IsChecked (surface worker) polled.past (99 ∷ []) (7 ∷ []) ⊎ Nowhere (99 ∷ []) (7 ∷ [])
Run-founded_example =
    Run-founded (surface worker) (Change streams) (surface-IsLawful worker) Nowhere
      (surface-IsQuiet worker streams) start polled (99 ∷ []) (7 ∷ []) refl nothing_stored
      (polled-Run prepared-Run) is_stored

status_lem_example :
    (r : StatusAnswer) × ((status (surface worker) moment (99 ∷ []) created).poll ≡ has_answered r)
    × Move (state_of (surface worker) (99 ∷ []) created) r (
        state_of
          (surface worker)
          (99 ∷ [])
          (status (surface worker) moment (99 ∷ []) created).state)
    × ((i : Text)
        → text_eq.beq (99 ∷ []) i ≡ false
        → state_of (surface worker) i (status (surface worker) moment (99 ∷ []) created).state
          ≡ state_of (surface worker) i created)
status_lem_example = status_lem (surface worker) (surface-IsLawful worker) moment (99 ∷ []) created

handle_proof_create_lem_example :
    IsFollowed draw creation uploaded (handle_proof_create draw creation uploaded)
handle_proof_create_lem_example = handle_proof_create_lem draw creation uploaded

-- ` 0xAB` and a line feed
normalize_program_id_lem_example :
    (normalize_program_id (32 ∷ 65 ∷ 66 ∷ 10 ∷ []) ≡ 97 ∷ 98 ∷ [])
    × (normalize_program_id (32 ∷ 48 ∷ 120 ∷ 65 ∷ 66 ∷ 10 ∷ []) ≡ 97 ∷ 98 ∷ [])
    × (normalize_program_id (97 ∷ 98 ∷ []) ≡ 97 ∷ 98 ∷ [])
normalize_program_id_lem_example =
    normalize_program_id_lem (65 ∷ 66 ∷ []) (32 ∷ []) (10 ∷ []) (refl, (refl, tt)) (refl, tt)
      (refl, tt)

-- A serializer of responses: a tag and what it carries, byte by byte.
abbrev encode : WorkerResponse → Option Bytes
encode (proof b) = some (0 ∷ b)
encode verify_ok = some (1 ∷ [])
encode (version_is v) = none
encode (err v) = none
encode (size n) = some (4 ∷ n ∷ [])

abbrev decode : Bytes → Option WorkerResponse
decode [] = none
decode (zero ∷ b) = some (proof b)
decode (suc zero ∷ b) = some verify_ok
decode (suc (suc t) ∷ []) = none
decode (suc (suc t) ∷ n ∷ b) = some (size n)

decode-encode : (m : WorkerResponse) (bytes : Bytes) → encode m ≡ some bytes → decode bytes ≡ some m
decode-encode (proof b) bytes h = rw (← ap (or_else []) h)
decode-encode verify_ok bytes h = rw (← ap (or_else []) h)
decode-encode (version_is v) bytes h = absurd cc
decode-encode (err v) bytes h = absurd cc
decode-encode (size n) bytes h = rw (← ap (or_else []) h)

-- The frame of `size 9`
abbrev size_frame : Bytes
size_frame = 2 ∷ 0 ∷ 0 ∷ 0 ∷ 4 ∷ 9 ∷ []

-- The frame of `proof` on one byte
abbrev proof_frame : Bytes
proof_frame = 2 ∷ 0 ∷ 0 ∷ 0 ∷ 0 ∷ 5 ∷ []

framed_size : write_frame encode (size 9) ≡ some size_frame
unfolding write_frame
framed_size = refl

read_frame-write_frame_example :
    read_frame decode (size_frame ++ proof_frame) ≡ some (size 9, proof_frame)
read_frame-write_frame_example =
    read_frame-write_frame encode decode (size 9) size_frame proof_frame (decode-encode (size 9))
      framed_size

-- A serializer of requests that writes one byte, and a worker that answers it.
abbrev encode_request : WorkerRequest → Option Bytes
encode_request q = some (9 ∷ [])

abbrev two_frames : Bytes → Option Bytes
two_frames b = some (size_frame ++ proof_frame)

written : write_frame encode_request version ≡ some (1 ∷ 0 ∷ 0 ∷ 0 ∷ 9 ∷ [])
unfolding write_frame
written = refl

all_sent : send_all decode encode (9 ∷ []) (proof (5 ∷ [])) ≡ some (size_frame ++ proof_frame)
unfolding send_all write_frame
all_sent = refl

call_lem_example :
    call decode encode_request two_frames version ≡ (responded (proof (5 ∷ [])), 9 ∷ [])
call_lem_example =
    call_lem decode encode decode-encode (proof (5 ∷ [])) refl encode_request two_frames version
      (1 ∷ 0 ∷ 0 ∷ 0 ∷ 9 ∷ []) (size_frame ++ proof_frame) (9 ∷ []) written refl all_sent
