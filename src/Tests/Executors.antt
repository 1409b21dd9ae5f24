-- ===== src/Tests/Executors.antt =====
-- The executors of a contemplant on concrete inputs.
use hierophant.Prelude.{
  ◌↔◌, ◌⊎◌, ℕ, ◌≡◌, refl, arith, Bool, true, false, Option, none, some, List, [], ◌∷◌, ◌&&◌, not,
}
use hierophant.Network.{
  Bytes, unexecuted_status, Risc0ProofRequest, Risc0ProofMode, OpenVmProofRequest, OpenVmProofMode,
  Sp1ProofRequest, ProofMode,
}
use hierophant.ProofStore.{ProofStore, ProofStoreCommand, insert_proof}
use hierophant.ProofStore.Ring.{IsValid}
use hierophant.OpenVmWorker.{proof}
use hierophant.Executor.{
  interleave, Risc0Prover, risc0_reports, Called, responded, transport_failure, openvm_result,
  openvm_reports, permanently_dead, notifies,
}
use hierophant.Executor.Deaths.{deaths_after, last_died, deaths_after_lem}
use hierophant.Executor.Sp1.{Sp1Library, Sp1State, made, cold, Releases, sp1_execute}
use hierophant.Executor.Rewarmed.{bytes_of, warm, uses_backend, is_snatched, Ends, sp1_execute_lem}
use hierophant.Executor.Outcome.{Told, IsMade, run-openvm_reports, run-risc0_reports}

abbrev store : ProofStore
store = record {
  max_proofs_stored = 2;
  proofs = (8, unexecuted_status) ∷ (9, unexecuted_status) ∷ [];
  current_proof_index = 1;
}

store-IsValid : IsValid store
store-IsValid = record { full = refl; inside = omega arith }

-- Another request comes in between the reports.
abbrev others : List ProofStoreCommand
others = insert_proof 8 unexecuted_status ∷ []

abbrev among : List Bool
among = true ∷ false ∷ []

abbrev estimate_secs : ℕ → Option ℕ
estimate_secs n = some 60

abbrev stark_request : OpenVmProofRequest
stark_request = record {
  request_id = 5;
  elf = 1 ∷ [];
  app_config_toml = none;
  input = [];
  mode = OpenVmProofMode.stark;
  mock = false;
}

abbrev succinct_request : Risc0ProofRequest
succinct_request = record {
  request_id = 5;
  elf = 1 ∷ [];
  input = [];
  mode = Risc0ProofMode.succinct;
  mock = false;
  wrap_of = none;
}

abbrev prover : Risc0Prover Bytes
prover = record {
  segments = λ elf input. some 3;
  deserialize = λ b. some b;
  compress = λ mode b. some b;
  prove_with_opts = λ mode elf input. some elf;
  serialize = λ b. some b;
}

run-openvm_reports_example :
    Told 5
      (openvm_result (responded (proof (7 ∷ []))))
      (insert_proof 5 unexecuted_status
        ∷ interleave among
            (openvm_reports
              (false ∷ [])
              estimate_secs
              (some 3)
              (responded (proof (7 ∷ [])))
              stark_request)
            others)
      store
run-openvm_reports_example =
    run-openvm_reports among others estimate_secs store store-IsValid (false ∷ []) (some 3)
      (responded (proof (7 ∷ []))) stark_request refl refl (omega arith)

run-risc0_reports_example :
    (result : Option Bytes) × ((bytes : Bytes)
      → (result ≡ some bytes) ↔ IsMade prover false succinct_request bytes)
    × Told 5 result
        (insert_proof 5 unexecuted_status
          ∷ interleave among
              (risc0_reports prover false true estimate_secs succinct_request)
              others)
        store
run-risc0_reports_example =
    run-risc0_reports prover false succinct_request among others estimate_secs store store-IsValid
      true refl refl (omega arith)

abbrev calls : List Called
calls = transport_failure ∷ transport_failure ∷ responded (proof []) ∷ []

deaths_after_lem_example :
    (permanently_dead (deaths_after (transport_failure ∷ calls))
      ≡ last_died 3 (transport_failure ∷ calls))
    × (notifies transport_failure (deaths_after calls)
        ≡ (last_died 3 (transport_failure ∷ calls) && not (last_died 3 calls)))
deaths_after_lem_example = deaths_after_lem transport_failure calls (omega arith)

-- The library proves with what it is given.
abbrev library : Sp1Library Bytes
library = record {
  execute = λ a elf stdin. some 3;
  prove = λ a mode elf stdin. made elf;
  mock_prove = λ mode elf stdin. made [];
  serialize = λ b. made b;
  error_msg = λ q e. e;
}

abbrev core_request : Sp1ProofRequest
core_request = record {
  request_id = 5;
  elf = 1 ∷ [];
  mock = false;
  mode = ProofMode.core;
  sp1_stdin = [];
}

abbrev evicted : Sp1State
evicted = record { active_prover = cold; cuda_deaths = 1 }

-- The backend is released again before the run reads it.
abbrev releases : Releases
releases = record { after_check = false; before_read = true; while_working = false }

sp1_execute_lem_example :
    (((uses_backend library true core_request && is_snatched releases cold) ≡ true)
      × (sp1_execute library true estimate_secs releases evicted core_request ≡ none))
    ⊎ (((uses_backend library true core_request && is_snatched releases cold) ≡ false)
        × Ends library true core_request estimate_secs releases evicted among others store
            store-IsValid refl refl
            (omega arith)
            (bytes_of library true core_request (warm cold)))
sp1_execute_lem_example =
    sp1_execute_lem library true core_request estimate_secs releases evicted among others store
      store-IsValid refl refl (omega arith)
