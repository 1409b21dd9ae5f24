-- ===== src/Executor/Sp1.antt =====
-- The SP1 executor of a contemplant (src/contemplant/src/proof_executor/sp1_executor.rs). sp1-sdk, the
-- rate model and the formatting of an error are parameters. A panic (`unreachable!`) stands as `none`.
use hierophant.Prelude.{
  ℕ, ◌+◌, ◌%◌, Bool, true, false, Option, none, some, List, [], ◌∷◌, ◌++◌, ltb, if◌then◌else◌, not,
  ◌&&◌, ◌||◌, is_some,
}
use hierophant.Prelude.Texts.{Text, strip_prefix}
use hierophant.Network.{Bytes, Sp1ProofRequest, ProofMode, unspecified_proof_mode}
use hierophant.ProofStore.{ProofStoreCommand}
use hierophant.Executor.{begun, size_update, completion}

-- "CudaClientError"
abbrev client_error : Text
client_error =
    67 ∷ 117 ∷ 100 ∷ 97 ∷ 67 ∷ 108 ∷ 105 ∷ 101 ∷ 110 ∷ 116 ∷ 69 ∷ 114 ∷ 114 ∷ 111 ∷ 114 ∷ []

-- "early eof"
abbrev early_eof : Text
early_eof = 101 ∷ 97 ∷ 114 ∷ 108 ∷ 121 ∷ 32 ∷ 101 ∷ 111 ∷ 102 ∷ []

-- "Broken pipe"
abbrev broken_pipe : Text
broken_pipe = 66 ∷ 114 ∷ 111 ∷ 107 ∷ 101 ∷ 110 ∷ 32 ∷ 112 ∷ 105 ∷ 112 ∷ 101 ∷ []

-- "UnexpectedEof"
abbrev unexpected_eof : Text
unexpected_eof = 85 ∷ 110 ∷ 101 ∷ 120 ∷ 112 ∷ 101 ∷ 99 ∷ 116 ∷ 101 ∷ 100 ∷ 69 ∷ 111 ∷ 102 ∷ []

-- "Connection refused"
abbrev connection_refused : Text
connection_refused =
    67 ∷ 111 ∷ 110 ∷ 110 ∷ 101 ∷ 99 ∷ 116 ∷ 105 ∷ 111 ∷ 110 ∷ 32 ∷ 114 ∷ 101 ∷ 102 ∷ 117 ∷ 115 ∷ 101
    ∷ 100 ∷ []

-- "Failed to write the request"
abbrev failed_to_write : Text
failed_to_write =
    70 ∷ 97 ∷ 105 ∷ 108 ∷ 101 ∷ 100 ∷ 32 ∷ 116 ∷ 111 ∷ 32 ∷ 119 ∷ 114 ∷ 105 ∷ 116 ∷ 101 ∷ 32 ∷ 116
    ∷ 104 ∷ 101 ∷ 32 ∷ 114 ∷ 101 ∷ 113 ∷ 117 ∷ 101 ∷ 115 ∷ 116 ∷ []

-- "Failed to read the response"
abbrev failed_to_read : Text
failed_to_read =
    70 ∷ 97 ∷ 105 ∷ 108 ∷ 101 ∷ 100 ∷ 32 ∷ 116 ∷ 111 ∷ 32 ∷ 114 ∷ 101 ∷ 97 ∷ 100 ∷ 32 ∷ 116 ∷ 104
    ∷ 101 ∷ 32 ∷ 114 ∷ 101 ∷ 115 ∷ 112 ∷ 111 ∷ 110 ∷ 115 ∷ 101 ∷ []

-- "UnspecifiedProofMode"
abbrev pub unspecified_mode : Text
unspecified_mode =
    85 ∷ 110 ∷ 115 ∷ 112 ∷ 101 ∷ 99 ∷ 105 ∷ 102 ∷ 105 ∷ 101 ∷ 100 ∷ 80 ∷ 114 ∷ 111 ∷ 111 ∷ 102 ∷ 77
    ∷ 111 ∷ 100 ∷ 101 ∷ []

-- `s.contains(p)`
abbrev contains : (s p : Text) → Bool
contains [] p = is_some (strip_prefix p [])
contains (c ∷ s) p = is_some (strip_prefix p (c ∷ s)) || contains s p

unfoldable pub is_cuda_backend_death : (msg : Text) → Bool
is_cuda_backend_death msg =
    contains msg client_error
    && (contains msg early_eof
        || contains msg broken_pipe
        || contains msg unexpected_eof
        || contains msg connection_refused
        || contains msg failed_to_write
        || contains msg failed_to_read)

pub data ActiveSp1Prover : Type 0 where
  cuda cpu cold : ActiveSp1Prover

abbrev pub is_cold : ActiveSp1Prover → Bool
is_cold cold = true
is_cold _ = false

abbrev pub is_cuda : ActiveSp1Prover → Bool
is_cuda cuda = true
is_cuda _ = false

-- `release_gpu`
unfoldable pub release_gpu : ActiveSp1Prover → ActiveSp1Prover
release_gpu cuda = cold
release_gpu cpu = cpu
release_gpu cold = cold

-- `Result`, with the text of its error
pub data Made {ℓ} (A : Type ℓ) : Type ℓ where
  made : A → Made A
  failed : Text → Made A

-- What sp1-sdk does, for the mode that the request names: `prove` stands for the setup of the key and
-- the proof. `error_msg` is the text that is logged about an error.
pub record Sp1Library (Proof : Type 0) : Type 0 where
  pub execute : ActiveSp1Prover → (elf stdin : Bytes) → Option ℕ
  pub prove : ActiveSp1Prover → ProofMode → (elf stdin : Bytes) → Made Proof
  pub mock_prove : ProofMode → (elf stdin : Bytes) → Made Proof
  pub serialize : Proof → Made Bytes
  pub error_msg : Sp1ProofRequest → Text → Text

pub record Sp1State : Type 0 where
  pub active_prover : ActiveSp1Prover
  pub cuda_deaths : ℕ

-- Between the moments at which a run holds the lock of the prover, `execute_proof` may call
-- `release_gpu` for a request to another VM: after the check for an evicted backend, before the
-- prover is read, and during the work.
pub record Releases : Type 0 where
  pub after_check : Bool
  pub before_read : Bool
  pub while_working : Bool

abbrev pub release_if : Bool → ActiveSp1Prover → ActiveSp1Prover
release_if b a = if b then release_gpu a else a

-- The backend is built again where it was seen evicted, but for a mock proof.
unfoldable pub rewarm : (mock : Bool) (seen current : ActiveSp1Prover) → ActiveSp1Prover
rewarm mock seen current = if not mock && is_cold seen then cuda else current

-- The prover that the run reads and works with.
unfoldable pub prover_read : (mock : Bool) → Releases → (seen : ActiveSp1Prover) → ActiveSp1Prover
unfolding rewarm release_gpu
prover_read mock i seen =
    release_if i.before_read (rewarm mock seen (release_if i.after_check seen))

abbrev pub max_consecutive_cuda_deaths : ℕ
max_consecutive_cuda_deaths = 3

-- What is left of a run: the commands after the insertion of the request, and the executor. `notified`
-- says that the connection is told to register again.
pub record Sp1Run : Type 0 where
  pub result : Option Bytes
  pub reports : List ProofStoreCommand
  pub state : Sp1State
  pub notified : Bool

abbrev pub result_of : Made Bytes → Option Bytes
result_of (made bytes) = some bytes
result_of (failed e) = none

module _ {Proof : Type 0} (p : Sp1Library Proof) (compute_totals : Bool) where
  -- `cycles`
  unfoldable pub sp1_size : ActiveSp1Prover → Sp1ProofRequest → Option (Option ℕ)
  sp1_size active q =
      if not q.mock && compute_totals
      then (if is_cold active then none else some (p.execute active q.elf q.sp1_stdin))
      else some none

  abbrev pub with_prover : ActiveSp1Prover → Sp1ProofRequest → Option (Made Proof)
  with_prover active q =
      if q.mock
      then some (p.mock_prove q.mode q.elf q.sp1_stdin)
      else if is_cold active
      then none
      else some (p.prove active q.mode q.elf q.sp1_stdin)

  abbrev pub is_unspecified : ProofMode → Bool
  is_unspecified unspecified_proof_mode = true
  is_unspecified _ = false

  -- `proof_res`
  unfoldable pub sp1_prove : ActiveSp1Prover → Sp1ProofRequest → Option (Made Proof)
  sp1_prove active q =
      if is_unspecified q.mode then some (failed unspecified_mode) else with_prover active q

  -- `proof_bytes_res`
  abbrev pub to_bytes : Made Proof → Made Bytes
  to_bytes (made proof) = p.serialize proof
  to_bytes (failed e) = failed e

  abbrev pub after_death : (deaths : ℕ) → ActiveSp1Prover → Sp1State × Bool
  after_death deaths active =
      if ltb deaths max_consecutive_cuda_deaths
      then (record { active_prover = cuda; cuda_deaths = deaths }, false)
      else (record { active_prover = active; cuda_deaths = deaths }, true)

  -- The executor after the result, and whether the connection is told: `active` is the prover that
  -- was read, and `left` the one that is there now.
  unfoldable pub sp1_settle :
      Sp1ProofRequest
      → (active left : ActiveSp1Prover) → (cuda_deaths : ℕ) → Made Bytes
      → Sp1State × Bool
  unfolding is_cuda_backend_death
  sp1_settle q active left cuda_deaths (made bytes) =
      (record { active_prover = left; cuda_deaths = 0 }, false)
  sp1_settle q active left cuda_deaths (failed e) =
      if is_cuda_backend_death (p.error_msg q e) && is_cuda active
      then after_death ((cuda_deaths + 1) % 4294967296) left
      else (record { active_prover = left; cuda_deaths = cuda_deaths }, false)

  unfoldable pub sp1_finish :
      (ℕ → Option ℕ)
      → Sp1ProofRequest
      → (active left : ActiveSp1Prover) → (cuda_deaths : ℕ) → Option (Option ℕ)
      → Option (Made Proof)
      → Option Sp1Run
  unfolding sp1_settle completion
  sp1_finish estimate_secs q active left cuda_deaths none proof = none
  sp1_finish estimate_secs q active left cuda_deaths (some cycles) none = none
  sp1_finish estimate_secs q active left cuda_deaths (some cycles) (some proof) =
      let res = to_bytes proof in
      let settled = sp1_settle q active left cuda_deaths res in
      some (record {
        result = result_of res;
        reports =
            begun q.request_id ∷ size_update estimate_secs q.request_id cycles
            ++ completion q.request_id (result_of res);
        state = settled.0;
        notified = settled.1;
      })

  unfoldable pub sp1_execute :
      (ℕ → Option ℕ) → Releases → Sp1State → Sp1ProofRequest → Option Sp1Run
  unfolding prover_read sp1_size sp1_prove sp1_finish release_gpu
  sp1_execute estimate_secs i s q =
      let active = prover_read q.mock i s.active_prover in
      sp1_finish estimate_secs q active (release_if i.while_working active) s.cuda_deaths
        (sp1_size active q) (sp1_prove active q)
