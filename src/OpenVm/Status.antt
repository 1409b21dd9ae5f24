-- ===== src/OpenVm/Status.antt =====
-- The maps of the OpenVM surface under the shared status poll.
use hierophant.Prelude.{
  ℕ, ◌≡◌, refl, String, Option, none, some, List, if◌then◌else◌, map_some, Bool-cases, inl, inr,
}
use hierophant.Prelude.Dict.{lookup, insert, modify, lookup-insert, lookup-modify}
use hierophant.Prelude.Texts.{Text, text_eq}
use hierophant.Network.{Bytes}
use hierophant.OpenVmWorker.{WorkerRequest, CallResult}
use hierophant.Jobs.{
  JobError, Surface, Moment, Verdict, valid, invalid, unverified, Advance, status,
}
use hierophant.Jobs.Machine.{IsLawful}
use hierophant.OpenVm.{OpenVmJob, OpenVmInner}
use hierophant.OpenVm.Verify.{
  VerifyError, rejected, unexpected_response, unavailable, verify_openvm_proof,
}

abbrev pub set_error : JobError → OpenVmJob → OpenVmJob
set_error e j = record j { terminal_error = some e }

abbrev pub message : VerifyError → String
message (rejected msg) = msg
message unexpected_response = "openvm-worker returned an unexpected response kind"
message unavailable = "openvm-worker unavailable"

abbrev pub verdict_of : Option VerifyError → Verdict
verdict_of none = valid
verdict_of (some e) = invalid (message e)

module _ (worker : ℕ → WorkerRequest → CallResult) where
  -- The verification runs on a blocking thread; where that panics the answer is status 500.
  unfoldable pub surface : Surface Text OpenVmInner OpenVmJob Bytes
  surface = record {
    job = λ k s. lookup k s.jobs;
    request_id = λ j. j.request_id;
    terminal_error = λ j. j.terminal_error;
    proof = λ k s. lookup k s.proofs;
    set_terminal_error = λ k e s. record s { jobs = modify k (set_error e) s.jobs };
    insert_proof = λ k b s. record s { proofs = insert k b s.proofs };
    malformed = λ b. none;
    program = λ j s. lookup j.program_id s.programs;
    verify = λ m j elf b.
        if m.joins
        then verdict_of (verify_openvm_proof worker m.now elf j.app_config_toml j.mode b)
        else unverified;
  }

  unfoldable pub handle_proof_status :
      Moment → (proof_id : Text) → OpenVmInner → Advance OpenVmInner OpenVmJob Bytes
  unfolding surface
  handle_proof_status m proof_id s = status surface m proof_id s

  errors_of :
      (e : JobError) (o : Option OpenVmJob)
      → map_some (λ j. j.terminal_error) (map_some (set_error e) o) ≡ map_some (λ _. some e) o
  errors_of e none = refl
  errors_of e (some j) = refl

  error_of-modify :
      (k i : Text) (e : JobError) (jobs : List (Text × OpenVmJob))
      → map_some (λ j. j.terminal_error) (lookup i (modify k (set_error e) jobs)) ≡ (
          if text_eq.beq k i
          then map_some (λ _. some e) (lookup i jobs)
          else map_some (λ j. j.terminal_error) (lookup i jobs))
  error_of-modify k i e jobs = elim (Bool-cases (text_eq.beq k i)) [
    | inl t ↦ rw (lookup-modify k i (set_error e) jobs, t) (errors_of e (lookup i jobs))
    | inr t ↦ rw (lookup-modify k i (set_error e) jobs, t)
  ]

  pub surface-IsLawful : IsLawful surface
  unfolding surface
  surface-IsLawful = record {
    job-insert_proof = λ k i b s. refl;
    error-set_terminal_error = λ k i e s. error_of-modify k i e s.jobs;
    proof-insert_proof = λ k i b s. lookup-insert k i b s.proofs;
    proof-set_terminal_error = λ k i e s. refl;
  }
