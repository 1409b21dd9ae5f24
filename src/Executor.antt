-- ===== src/Executor.antt =====
-- The RISC Zero and OpenVM executors of a contemplant
-- (src/contemplant/src/proof_executor/risc0_executor.rs and openvm_executor.rs): what they send to the
-- proof store, and how the deaths of the OpenVM worker are counted. The provers and the rate model are
-- parameters; the log is left out.
pub mod Answer
pub mod Deaths
pub mod Outcome
pub mod Sp1
pub mod Rewarmed
use hierophant.Prelude.{
  ℕ, ◌+◌, ◌%◌, Bool, true, false, Option, none, some, List, [], ◌∷◌, ◌++◌, leb, ltb, if◌then◌else◌,
  not, ◌&&◌, is_some,
}
use hierophant.Network.{
  Bytes, ContemplantProofStatus, unexecuted_status, ProgressUpdate, estimating, executing,
  no_history, proving, done, execution_code, executed, unexecutable, Risc0ProofRequest,
  Risc0ProofMode, is_groth16, OpenVmProofRequest,
}
use hierophant.ProofStore.{
  ProofStoreCommand, proof_progress_update, proof_status_update, insert_proof,
}
use hierophant.OpenVmWorker.{WorkerResponse, proof, verify_ok, version_is, err, size}

-- Two tasks that send on one channel: at `true` the first one sends, at `false` the second. What is
-- left when the schedule ends comes after it.
unfoldable pub interleave {ℓ} : {A : Type ℓ} → List Bool → List A → List A → List A
interleave [] xs ys = xs ++ ys
interleave (true ∷ bs) [] ys = ys
interleave (true ∷ bs) (x ∷ xs) ys = x ∷ interleave bs xs ys
interleave (false ∷ bs) xs [] = xs
interleave (false ∷ bs) xs (y ∷ ys) = y ∷ interleave bs xs ys

-- The report on a request that has come in, after its insertion
abbrev pub begun : ℕ → ProofStoreCommand
begun r = proof_progress_update r (estimating executing)

abbrev pub estimate_of : ℕ → Option ℕ → ProgressUpdate
estimate_of n none = estimating no_history
estimate_of n (some est) = proving n est

-- The report on the size of the proof, where one is known.
abbrev pub size_update : (ℕ → Option ℕ) → ℕ → Option ℕ → List ProofStoreCommand
size_update estimate_secs r none = []
size_update estimate_secs r (some n) =
    proof_progress_update r (estimate_of n (estimate_secs n)) ∷ []

-- The reports on the result.
unfoldable pub completion : ℕ → Option Bytes → List ProofStoreCommand
completion r (some bytes) =
    proof_status_update r (execution_code executed) (some bytes) ∷ proof_progress_update r done ∷ []
completion r none = proof_status_update r (execution_code unexecutable) none ∷ []

-- What the RISC Zero library does. A panic in the blocking task is a failure too.
pub record Risc0Prover (Receipt : Type 0) : Type 0 where
  -- the number of segments of a run
  pub segments : (elf input : Bytes) → Option ℕ
  pub deserialize : Bytes → Option Receipt
  pub compress : Risc0ProofMode → Receipt → Option Receipt
  pub prove_with_opts : Risc0ProofMode → (elf input : Bytes) → Option Receipt
  pub serialize : Receipt → Option Bytes

module _ {Receipt : Type 0} (p : Risc0Prover Receipt) where
  abbrev pub compressed : Risc0ProofMode → Option Receipt → Option Receipt
  compressed mode none = none
  compressed mode (some source) = p.compress mode source

  abbrev pub serialized : Option Receipt → Option Bytes
  serialized none = none
  serialized (some receipt) = p.serialize receipt

  abbrev pub wrapped : Risc0ProofRequest → Option Bytes → Option Receipt
  wrapped q (some source_bytes) = compressed q.mode (p.deserialize source_bytes)
  wrapped q none = p.prove_with_opts q.mode q.elf q.input

  -- `proof_res`
  unfoldable pub risc0_result : (groth16_enabled : Bool) → Risc0ProofRequest → Option Bytes
  risc0_result groth16_enabled q =
      if is_groth16 q.mode && not groth16_enabled then none else serialized (wrapped q q.wrap_of)

  abbrev pub risc0_size : (compute_totals : Bool) → Risc0ProofRequest → Option ℕ
  risc0_size compute_totals q =
      if compute_totals && not (is_some q.wrap_of) then p.segments q.elf q.input else none

  -- The commands after the insertion of the request.
  unfoldable pub risc0_reports :
      (groth16_enabled compute_totals : Bool)
      → (ℕ → Option ℕ)
      → Risc0ProofRequest
      → List ProofStoreCommand
  unfolding completion risc0_result
  risc0_reports groth16_enabled compute_totals estimate_secs q =
      begun q.request_id ∷ size_update estimate_secs q.request_id (risc0_size compute_totals q)
      ++ completion q.request_id (risc0_result groth16_enabled q)

-- How a call of the OpenVM worker comes out.
pub data Called : Type 0 where
  responded : WorkerResponse → Called
  transport_failure : Called
  join_error : Called

-- `proof_res`, where it is a proof
unfoldable pub openvm_result : Called → Option Bytes
openvm_result (responded (proof bytes)) = some bytes
openvm_result (responded verify_ok) = none
openvm_result (responded (version_is v)) = none
openvm_result (responded (err msg)) = none
openvm_result (responded (size n)) = none
openvm_result transport_failure = none
openvm_result join_error = none

abbrev pub transport_death : Called → Bool
transport_death (responded r) = false
transport_death transport_failure = true
transport_death join_error = false

-- The commands after the insertion of the request. The size comes from a task of its own, at any
-- time: `schedule` says when.
unfoldable pub openvm_reports :
    (schedule : List Bool)
    → (ℕ → Option ℕ)
    → (reported : Option ℕ) → Called
    → OpenVmProofRequest
    → List ProofStoreCommand
unfolding completion openvm_result interleave
openvm_reports schedule estimate_secs reported c q =
    begun q.request_id
    ∷ interleave schedule (size_update estimate_secs q.request_id reported)
        (completion q.request_id (openvm_result c))

abbrev pub max_consecutive_worker_deaths : ℕ
max_consecutive_worker_deaths = 3

-- `worker_permanently_dead`
unfoldable pub permanently_dead : (worker_deaths : ℕ) → Bool
permanently_dead worker_deaths = leb max_consecutive_worker_deaths worker_deaths

-- `worker_deaths` after a call: `fetch_add` on a u32, or a reset.
unfoldable pub settle : Called → (worker_deaths : ℕ) → ℕ
settle c worker_deaths = if transport_death c then (worker_deaths + 1) % 4294967296 else 0

-- The connection is told to register again.
unfoldable pub notifies : Called → (worker_deaths : ℕ) → Bool
unfolding permanently_dead settle
notifies c worker_deaths =
    transport_death c
    && not (ltb (settle c worker_deaths) max_consecutive_worker_deaths)
    && not (permanently_dead worker_deaths)
