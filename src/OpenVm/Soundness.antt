-- ===== src/OpenVm/Soundness.antt =====
-- Every stored OpenVM proof was verified, whatever polls, uploads and new jobs came before.
use hierophant.Prelude.{
  ℕ, ◌≡◌, refl, ap, ◌∙◌, true, false, Option, none, some, List, [], zero, suc, Bool-cases, inl, inr,
  arith,
}
use hierophant.Prelude.Dict.{lookup, insert, lookup-insert}
use hierophant.Prelude.Texts.{Text, text_eq}
use hierophant.Network.{Bytes, OpenVmProofMode}
use hierophant.Registry.Commands.{WorkerRegistryCommand}
use hierophant.OpenVmWorker.{
  WorkerRequest, WorkerResponse, verify, verify_ok, proof, version_is, err, size, CallResult,
  responded, transport_error,
}
use hierophant.Jobs.{Moment, valid}
use hierophant.Jobs.Runs.{Once, Traffic, Run, IsQuiet, IsChecked}
use hierophant.Jobs.Soundness.{Run-founded}
use hierophant.OpenVm.{
  new, handle_proof_download, OpenVmJob, OpenVmInner, handle_program_put, handle_input_put,
  ProofCreateRequest, Draw, reply_of, new_job, create_job, create_with, handle_proof_create,
  put_streams,
}
use hierophant.OpenVm.Verify.{
  verify_transport_retries, request, VerifyError, of_call, of_response, attempts,
  verify_openvm_proof, to_proto_mode,
}
use hierophant.OpenVm.Status.{surface, surface-IsLawful, verdict_of}
use hierophant.Proof.Routes.{route_openvm_proof}

-- What the other handlers do to the maps. A new job has a name that no job has yet.
pub data Change (deserialize : Bytes → Option (List Bytes)) (s : OpenVmInner)
    : OpenVmInner → Type 0 where
  program_put :
      (program_id : Text) (body : Bytes)
      → Change deserialize s (handle_program_put program_id body s)
  input_put :
      (input_id : Text) (body : Bytes)
      → Change deserialize s (handle_input_put deserialize input_id body s).0
  proof_create :
      (d : Draw) (q : ProofCreateRequest)
      → lookup d.uuid s.jobs ≡ none
      → Change deserialize s (handle_proof_create d q s).0

-- Nothing is stored but by a poll.
abbrev pub Nowhere : Text → Bytes → Type 0
Nowhere k b = true ≡ false

module _ (d : Draw) (q : ProofCreateRequest) (s : OpenVmInner) where
  abbrev Kept : OpenVmInner → Type 0
  Kept t =
      (t.proofs ≡ s.proofs)
      × ((k : Text) → text_eq.beq d.uuid k ≡ false → lookup k t.jobs ≡ lookup k s.jobs)

  create_job-Kept :
      (elf : Bytes) (input : List Bytes) (mode : Option OpenVmProofMode)
      → Kept (create_job d q s elf input mode).0
  create_job-Kept elf input none = (refl, λ k ne. refl)
  create_job-Kept elf input (some mode) =
      routed (route_openvm_proof d.serves d.mock_mode d.request_id elf q.app_config_toml input mode)
    where
      jobs :
          (k : Text)
          → text_eq.beq d.uuid k ≡ false
          → lookup k (insert d.uuid (new_job d q mode) s.jobs) ≡ lookup k s.jobs
      jobs k ne = rw (lookup-insert d.uuid k (new_job d q mode) s.jobs, ne)

      routed :
          (c : Option WorkerRegistryCommand)
          → Kept (reply_of d.uuid (record s { jobs = insert d.uuid (new_job d q mode) s.jobs }) c).0
      routed none = (refl, jobs)
      routed (some c) = (refl, jobs)

  create_with-Kept : (e : Option Bytes) (i : Option (List Bytes)) → Kept (create_with d q s e i).0
  create_with-Kept none i = (refl, λ k ne. refl)
  create_with-Kept (some e) none = (refl, λ k ne. refl)
  create_with-Kept (some e) (some i) = create_job-Kept e i _

  create-Kept : Kept (handle_proof_create d q s).0
  unfolding handle_proof_create
  create-Kept = create_with-Kept _ _

put_streams-proofs :
    (k : Text) (o : Option (List Bytes)) (s : OpenVmInner)
    → ((put_streams k o s).0.proofs ≡ s.proofs) × ((put_streams k o s).0.jobs ≡ s.jobs)
put_streams-proofs k none s = (refl, refl)
put_streams-proofs k (some x) s = (refl, refl)

Change-proofs :
    (deserialize : Bytes → Option (List Bytes)) (s t : OpenVmInner)
    → Change deserialize s t
    → t.proofs ≡ s.proofs
unfolding handle_program_put handle_input_put
Change-proofs f s _ (program_put i b) = refl
Change-proofs f s _ (input_put i b) = (put_streams-proofs i (f b) s).0
Change-proofs f s _ (proof_create d q e) = (create-Kept d q s).0

Change-jobs :
    (deserialize : Bytes → Option (List Bytes)) (s t : OpenVmInner) (k : Text) (j : OpenVmJob)
    → Change deserialize s t
    → lookup k s.jobs ≡ some j
    → lookup k t.jobs ≡ some j
unfolding handle_program_put handle_input_put
Change-jobs f s _ k j (program_put i b) h = h
Change-jobs f s _ k j (input_put i b) h = rw ((put_streams-proofs i (f b) s).1) h
Change-jobs f s _ k j (proof_create d q e) h = elim (Bool-cases (text_eq.beq d.uuid k)) [
  | inl t ↦
      let g : d.uuid ≡ k = ground (arith, text_eq.beq_iff d.uuid k) in
      absurd (let w = rw g at e in cc)
  | inr t ↦ (create-Kept d q s).1 k t ∙ h
]

module _ (worker : ℕ → WorkerRequest → CallResult) (deserialize : Bytes → Option (List Bytes)) where
  pub surface-IsQuiet : IsQuiet (surface worker) (Change deserialize) Nowhere
  unfolding surface
  surface-IsQuiet = record {
    job-kept = λ {s} {t} k j c h. Change-jobs deserialize s t k j c h;
    proof-kept = λ {s} {t} k c h. rw (Change-proofs deserialize s t c) h;
    proof-given = λ {s} {t} k b c h. inl (rw (Change-proofs deserialize s t c) at h);
  }

  -- The worker accepted the bytes as a proof of a program that was uploaded for the job.
  pub record IsProven (past : List OpenVmInner) (k : Text) (b : Bytes) : Type 0 where
    pub job : OpenVmJob
    pub elf : Bytes
    pub call : ℕ
    pub found : Once past (λ s. lookup k s.jobs ≡ some job)
    pub uploaded : Once past (λ s. lookup job.program_id s.programs ≡ some elf)
    pub accepted :
        worker call (verify (to_proto_mode job.mode) elf job.app_config_toml b)
        ≡ responded verify_ok

  of_response-ok : (r : WorkerResponse) → of_response r ≡ none → r ≡ verify_ok
  of_response-ok verify_ok h = refl
  of_response-ok (err m) h = absurd cc
  of_response-ok (proof m) h = absurd cc
  of_response-ok (version_is m) h = absurd cc
  of_response-ok (size m) h = absurd cc

  attempts-ok :
      (left n : ℕ) (req : WorkerRequest)
      → attempts worker left n req ≡ none
      → (m : ℕ) × (worker m req ≡ responded verify_ok)
  unfolding attempts
  attempts-ok zero n req h = absurd cc
  attempts-ok (suc left) n req h = by_result (worker n req) refl (attempts-ok left (suc n) req) h
    where
      by_result :
          (c : CallResult)
          → worker n req ≡ c
          → (attempts worker left (suc n) req ≡ none
              → (m : ℕ) × (worker m req ≡ responded verify_ok))
          → of_call (attempts worker left (suc n) req) c ≡ none
          → (m : ℕ) × (worker m req ≡ responded verify_ok)
      by_result (responded r) e ih g = (n, e ∙ ap responded (of_response-ok r g))
      by_result transport_error e ih g = ih g

  verdict-valid : (o : Option VerifyError) → verdict_of o ≡ valid → o ≡ none
  verdict-valid none h = refl
  verdict-valid (some e) h = absurd cc

  verify-valid :
      (m : Moment) (j : OpenVmJob) (elf b : Bytes)
      → (surface worker).verify m j elf b ≡ valid
      → verify_openvm_proof worker m.now elf j.app_config_toml j.mode b ≡ none
  unfolding surface
  verify-valid m j elf b h = elim (Bool-cases m.joins) [
    | inl t ↦ verdict-valid _ (rw t at h)
    | inr t ↦ absurd (let g = rw t at h in cc)
  ]

  checked-IsProven :
      (past : List OpenVmInner) (k : Text) (b : Bytes)
      → IsChecked (surface worker) past k b
      → IsProven past k b
  unfolding surface verify_openvm_proof
  checked-IsProven past k b c =
      let ok =
        attempts-ok verify_transport_retries c.moment.now
          (request worker c.program c.job.app_config_toml c.job.mode b)
          (verify-valid c.moment c.job c.program b c.verified) in
      record {
        job = c.job;
        elf = c.program;
        call = ok.0;
        found = c.found;
        uploaded = c.fetched;
        accepted = ok.1;
      }

  -- Every proof that can be downloaded was accepted by the worker, as a proof of a job of that name
  -- and of a program that was uploaded under the id that the job names, with the configuration and
  -- the mode of the job. This holds after every sequence of uploads, new jobs and steps of polls.
  pub handle_proof_download_lem :
      (d : Traffic Text OpenVmInner OpenVmJob Bytes) (k : Text) (b : Bytes)
      → Run (surface worker) (Change deserialize) (record { state = new; past = []; polls = [] }) d
      → handle_proof_download k d.state ≡ some b
      → IsProven d.past k b
  unfolding surface handle_proof_download
  handle_proof_download_lem d k b r h =
      elim (Run-founded (surface worker) (Change deserialize) (surface-IsLawful worker) Nowhere
        surface-IsQuiet _ d k b refl (λ i. refl) r h) [
          | inl c ↦ checked-IsProven d.past k b c
          | inr g ↦ absurd cc
        ]
