-- ===== src/Jobs.antt =====
-- The status poll that the REST surfaces share: `handle_proof_status` of
-- src/hierophant/src/openvm/router.rs, and `handle_session_status` and `handle_snark_status` of
-- src/hierophant/src/bonsai/router.rs. A surface says how it reads and writes its own maps.
--
-- A poll is split where the source takes the lock or waits, so that two polls can interleave. The
-- text of an error stands as its cause, and the address for the download is the id of the job.
-- A panic of the handler stands as the answer `panicked`.
pub mod Machine
pub mod Refinement
pub mod Runs
pub mod Soundness
pub mod Sticky
use hierophant.Prelude.{
  ℕ, String, Bool, Option, none, some, List, [], ◌∷◌, ◌++◌, ◌==◌, ◌||◌, not, zero, suc,
  if◌then◌else◌, is_some, is_empty,
}
use hierophant.Network.{Bytes, fulfillment_code, fulfilled, unfulfillable}
use hierophant.Proof.{ProofStatus, Reply, get_proof_status, follow_up}
use hierophant.Registry.Commands.{WorkerRegistryCommand, drop_worker_of_request, proof_complete}

-- Why a job failed: `terminal_error`.
pub data JobError : Type 0 where
  reported_unfulfillable : JobError
  malformed_proof : String → JobError
  invalid_proof : String → JobError

-- The answer to a poll; a failure of the poll itself is status 404 or 500.
pub data StatusAnswer : Type 0 where
  unknown_job : StatusAnswer
  failed : JobError → StatusAnswer
  succeeded : StatusAnswer
  running : (execution_status : ℕ) → StatusAnswer
  internal_error : StatusAnswer
  panicked : StatusAnswer

-- What the verification of a proof says; `unverified` is status 500.
pub data Verdict : Type 0 where
  valid : Verdict
  invalid : String → Verdict
  unverified : Verdict

-- What a step of a poll finds of the rest: the time, how the registry takes the commands and
-- answers, and whether a blocking task ends without a panic.
pub record Moment : Type 0 where
  pub now : ℕ
  pub takes_update : Bool
  pub takes_complete : Bool
  pub reply : Reply
  pub joins : Bool

-- A surface keeps its maps in `S`, reads a job as a `J`, and verifies against a `V`.
pub record Surface (K S J V : Type 0) : Type 0 where
  -- the copy of the job that a poll takes
  pub job : K → S → Option J
  pub request_id : J → ℕ
  pub terminal_error : J → Option JobError
  -- the stored proof of a job
  pub proof : K → S → Option Bytes
  pub set_terminal_error : K → JobError → S → S
  pub insert_proof : K → Bytes → S → S
  -- what is wrong with bytes that are no proof
  pub malformed : Bytes → Option String
  -- what a proof is verified against; none is status 500
  pub program : J → S → Option V
  pub verify : Moment → J → V → Bytes → Verdict

-- Where a poll stands.
pub data Poll (J V : Type 0) : Type 0 where
  look : Poll J V
  check : J → Poll J V
  ask : J → Poll J V
  fail : JobError → Poll J V
  fetch : J → Bytes → Poll J V
  verifying : J → V → Bytes → Poll J V
  condemn : J → JobError → Poll J V
  complete : J → Bytes → Poll J V
  store : J → Bytes → Poll J V
  answered : StatusAnswer → Poll J V

-- A step leaves the maps, the rest of the poll, and the commands it sends to the registry.
pub record Advance (S J V : Type 0) : Type 0 where
  pub state : S
  pub poll : Poll J V
  pub commands : List WorkerRegistryCommand

abbrev pub to : {S J V : Type 0} → S → Poll J V → Advance S J V
to s p = record { state = s; poll = p; commands = [] }

module _ {K S J V : Type 0} where
  module _ (σ : Surface K S J V) where
    abbrev pub looked : Option J → Poll J V
    looked none = answered unknown_job
    looked (some j) = elim (σ.terminal_error j) [ some e ↦ answered (failed e) | none ↦ check j ]

    abbrev pub decoded : J → Bytes → Option String → Poll J V
    decoded j b none = fetch j b
    decoded j b (some e) = condemn j (malformed_proof e)

    -- What the status from the registry says.
    abbrev pub heard : J → Option ProofStatus → Poll J V
    heard j none = answered panicked
    heard j (some st) =
        if st.fulfillment_status == fulfillment_code unfulfillable
        then fail reported_unfulfillable
        else if not (st.fulfillment_status == fulfillment_code fulfilled) || is_empty st.proof
        then answered (running st.execution_status)
        else decoded j st.proof (σ.malformed st.proof)

    abbrev pub fetched : J → Bytes → Option V → Poll J V
    fetched j b none = answered internal_error
    fetched j b (some v) = verifying j v b

    abbrev pub verified : J → Bytes → Verdict → Poll J V
    verified j b valid = complete j b
    verified j b (invalid e) = condemn j (invalid_proof e)
    verified j b unverified = answered internal_error

    unfoldable pub advance : Moment → K → S → Poll J V → Advance S J V
    advance m k s look = to s (looked (σ.job k s))
    advance m k s (check j) = to s (if is_some (σ.proof k s) then answered succeeded else ask j)
    advance m k s (ask j) = record {
      state = s;
      poll = heard j (get_proof_status m.takes_update m.reply);
      commands = follow_up (σ.request_id j) m.reply;
    }
    advance m k s (fail e) = to (σ.set_terminal_error k e s) (answered (failed e))
    advance m k s (fetch j b) = to s (fetched j b (σ.program j s))
    advance m k s (verifying j v b) = to s (verified j b (σ.verify m j v b))
    advance m k s (condemn j e) = record {
      state = s;
      poll = fail e;
      commands = drop_worker_of_request (σ.request_id j) ∷ [];
    }
    advance m k s (complete j b) = record {
      state = s;
      poll = store j b;
      commands = if m.takes_complete then proof_complete (σ.request_id j) ∷ [] else [];
    }
    advance m k s (store j b) = to (σ.insert_proof k b s) (answered succeeded)
    advance m k s (answered a) = to s (answered a)

    -- At most `n` steps of a poll that nothing interrupts.
    unfoldable pub drive : ℕ → Moment → K → Advance S J V → Advance S J V
    unfolding advance
    drive zero m k a = a
    drive (suc n) m k a =
        let b = advance m k a.state a.poll in
        drive n m k (record b { commands = a.commands ++ b.commands })

    -- A poll that nothing interrupts, in at most seven steps.
    unfoldable pub status : Moment → K → S → Advance S J V
    unfolding drive
    status m k s = drive 7 m k (to s look)
