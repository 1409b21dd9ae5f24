-- ===== src/Executor/Outcome.antt =====
-- What a client is told of a request that an executor has worked on.
use hierophant.Prelude.{
  ◌↔◌, ◌&&◌, inl, inr, Bool-cases, Option-cases, ℕ, ◌<◌, ◌≡◌, refl, ap, ◌∙◌, Bool, true, false,
  Option, none, some, List, [], ◌∷◌, arith, nat_eq, any, append_nil, count_if, not,
}
use hierophant.Network.{
  Bytes, ContemplantProofStatus, unexecuted_status, ProgressUpdate, estimating, executing,
  no_history, proving, done, max_progress, progress_update, execution_code, executed, unexecutable,
  Risc0ProofRequest, is_groth16, OpenVmProofRequest, fulfillment_code, fulfilled, unfulfillable,
}
use hierophant.ProofStore.{
  ProofStore, ProofStoreCommand, proof_progress_update, proof_status_update, update_status,
  insert_proof, get, run,
}
use hierophant.ProofStore.Ring.{IsValid}
use hierophant.ProofStore.Retention.{Kept-inserted, writes, is_insert}
use hierophant.Proof.{ProofStatus, from_contemplant}
use hierophant.Executor.{
  interleave, completion, begun, size_update, estimate_of, Risc0Prover, wrapped, serialized,
  risc0_result, risc0_size, risc0_reports, Called, openvm_result, openvm_reports,
}
use hierophant.Executor.Answer.{reports_on, reported_all, Kept-interleave, Kept-then}

-- The status that the executor leaves: the progress of a failure is not settled.
abbrev pub final : Option Bytes → Option ProgressUpdate → ContemplantProofStatus
final (some bytes) p = record {
  execution_status = execution_code executed;
  proof = some bytes;
  progress = some done;
}
final none p = record { execution_status = execution_code unexecutable; proof = none; progress = p }

-- What the client is told.
abbrev pub told : Option Bytes → ProofStatus
told (some bytes) = record {
  fulfillment_status = fulfillment_code fulfilled;
  execution_status = execution_code executed;
  proof = bytes;
}
told none = record {
  fulfillment_status = fulfillment_code unfulfillable;
  execution_status = execution_code unexecutable;
  proof = [];
}

from_contemplant-final :
    (result : Option Bytes) (p : Option ProgressUpdate)
    → from_contemplant (final result p) ≡ some (told result)
unfolding from_contemplant
from_contemplant-final (some bytes) p = refl
from_contemplant-final none p = refl

-- Nothing goes above `done`.
max_progress-done : (u : ProgressUpdate) → max_progress done u ≡ done
unfolding max_progress
max_progress-done (estimating executing) = refl
max_progress-done (estimating no_history) = refl
max_progress-done (proving n est) = refl
max_progress-done done = refl

module _ {ℓ} {A : Type ℓ} where
  interleave-nil : (schedule : List Bool) (ys : List A) → interleave schedule [] ys ≡ ys
  unfolding interleave
  interleave-nil [] ys = refl
  interleave-nil (true ∷ bs) ys = refl
  interleave-nil (false ∷ bs) [] = refl
  interleave-nil (false ∷ bs) (y ∷ ys) = ap (λ zs. y ∷ zs) (interleave-nil bs ys)

  interleave_nil : (schedule : List Bool) (xs : List A) → interleave schedule xs [] ≡ xs
  unfolding interleave
  interleave_nil [] xs = append_nil xs
  interleave_nil (true ∷ bs) [] = refl
  interleave_nil (true ∷ bs) (x ∷ xs) = ap (λ zs. x ∷ zs) (interleave_nil bs xs)
  interleave_nil (false ∷ bs) xs = refl

-- The reports come to the final status.
pub record Settles (r : ℕ) (result : Option Bytes) (cs : List ProofStoreCommand)
    (st : ContemplantProofStatus) : Type 0 where
  on : any (λ c. not (reports_on r c)) cs ≡ false
  progress : Option ProgressUpdate
  comes : reported_all cs st ≡ final result progress

module _ (r : ℕ) (result : Option Bytes) where
  Settles-cons :
      (u : ProgressUpdate) (cs : List ProofStoreCommand) (st : ContemplantProofStatus)
      → Settles r result cs (progress_update st (some u))
      → Settles r result (proof_progress_update r u ∷ cs) st
  Settles-cons u cs st s = record {
    on = ground (arith, s.on);
    progress = s.progress;
    comes = s.comes;
  }

module _ (r : ℕ) where
  completion-Settles :
      (result : Option Bytes) (st : ContemplantProofStatus)
      → Settles r result (completion r result) st
  unfolding completion progress_update max_progress
  completion-Settles (some bytes) st = record { on = ground arith; progress = none; comes = refl }
  completion-Settles none st = record { on = ground arith; progress = st.progress; comes = refl }

  Settles-status :
      (result proof : Option Bytes) (code : ℕ) (cs : List ProofStoreCommand)
      (st : ContemplantProofStatus)
      → Settles r result cs (update_status code proof st)
      → Settles r result (proof_status_update r code proof ∷ cs) st
  Settles-status result proof code cs st s = record {
    on = ground (arith, s.on);
    progress = s.progress;
    comes = s.comes;
  }

  -- After the result is reported, no report on the size changes it.
  Settles-last :
      (u : ProgressUpdate) (result : Option Bytes) (st : ContemplantProofStatus)
      (p : Option ProgressUpdate)
      → st ≡ final result p
      → Settles r result (proof_progress_update r u ∷ []) st
  unfolding progress_update
  Settles-last u (some bytes) st p e = record {
    on = ground arith;
    progress = none;
    comes =
        ap (λ x. progress_update x (some u)) e
        ∙ ap (λ x. record { execution_status = 2; proof = some bytes; progress = some x })
            (max_progress-done u);
  }
  Settles-last u none st p e = record {
    on = ground arith;
    progress = (progress_update (final none p) (some u)).progress;
    comes = ap (λ x. progress_update x (some u)) e;
  }

  Settles-early :
      (u : ProgressUpdate) (bytes : Bytes)
      → Settles r
          (some bytes)
          (proof_progress_update r u ∷ proof_progress_update r done ∷ [])
          (final (some bytes) none)
  unfolding progress_update
  Settles-early u bytes = record {
    on = ground arith;
    progress = none;
    comes =
        ap
          (λ x. record {
            execution_status = 2;
            proof = some bytes;
            progress = some (max_progress x done);
          })
          (max_progress-done u)
        ∙ ap (λ x. record { execution_status = 2; proof = some bytes; progress = some x })
            (max_progress-done done);
  }

  reported-late :
      (schedule : List Bool) (u : ProgressUpdate) (bytes : Bytes)
      → Settles r
          (some bytes)
          (interleave schedule (proof_progress_update r u ∷ []) (proof_progress_update r done ∷ []))
          (final (some bytes) none)
  unfolding interleave progress_update
  reported-late [] u bytes = Settles-early u bytes
  reported-late (true ∷ bs) u bytes = rw interleave-nil (Settles-early u bytes)
  reported-late (false ∷ bs) u bytes = Settles-cons r (some bytes) done _ _ (
      rw interleave_nil (
        Settles-last u (some bytes) _ none (
          ap (λ x. record { execution_status = 2; proof = some bytes; progress = some x })
            (max_progress-done done))))

  interleave-Settles :
      (schedule : List Bool) (u : ProgressUpdate) (result : Option Bytes)
      (st : ContemplantProofStatus)
      → Settles r result
          (interleave schedule (proof_progress_update r u ∷ []) (completion r result))
          st
  unfolding completion interleave
  interleave-Settles [] u result st =
      Settles-cons r result u _ st (completion-Settles result (progress_update st (some u)))
  interleave-Settles (true ∷ bs) u result st =
      Settles-cons r result u _ st
        (rw interleave-nil (completion-Settles result (progress_update st (some u))))
  interleave-Settles (false ∷ bs) u (some bytes) st =
      Settles-status (some bytes) (some bytes) 2 _ st (reported-late bs u bytes)
  interleave-Settles (false ∷ bs) u none st =
      Settles-status none none 3 _ st
        (rw interleave_nil (Settles-last u none (update_status 3 none st) st.progress refl))

  pub reports-Settles :
      (schedule : List Bool) (estimate_secs : ℕ → Option ℕ) (reported : Option ℕ)
      (result : Option Bytes) (st : ContemplantProofStatus)
      → Settles r result
          (begun r
            ∷ interleave schedule (size_update estimate_secs r reported) (completion r result))
          st
  reports-Settles schedule estimate_secs none result st =
      Settles-cons r result (estimating executing) _ st
        (rw interleave-nil (completion-Settles result _))
  reports-Settles schedule estimate_secs (some n) result st =
      Settles-cons r result (estimating executing) _ st
        (interleave-Settles schedule (estimate_of n (estimate_secs n)) result _)

-- The store has the request in its final status, and what it answers is what the client is told.
abbrev pub Told : ℕ → Option Bytes → List ProofStoreCommand → ProofStore → Type 0
Told r result cs s =
    (s' : ProofStore) × (st : ContemplantProofStatus) × (run cs s ≡ some s')
    × (get r s' ≡ some st)
    × (from_contemplant st ≡ some (told result))

module _ (r : ℕ) (result : Option Bytes) (among : List Bool) (others : List ProofStoreCommand)
    (s : ProofStore) (v : IsValid s) (a : get r s ≡ none) (n : any (writes r) others ≡ false)
    (l : count_if is_insert others < s.max_proofs_stored) where
  pub Settles-Told :
      (cs : List ProofStoreCommand)
      → Settles r result cs unexecuted_status
      → Told r result (insert_proof r unexecuted_status ∷ interleave among cs others) s
  Settles-Told cs t =
      let (s', e, k) = Kept-inserted r unexecuted_status (count_if is_insert others) s v a l in
      let (s'', e', k') =
        Kept-then r _ _ _ s s' e
          (Kept-interleave r among cs others unexecuted_status s' t.on n k) in
      (s'', _, e', k'.value, ap from_contemplant t.comes ∙ from_contemplant-final result t.progress)

module _ (among : List Bool) (others : List ProofStoreCommand) (estimate_secs : ℕ → Option ℕ)
    (s : ProofStore) (v : IsValid s) where
  -- Whatever becomes of the call of the worker, and whenever its size is reported, the client is
  -- told of the bytes where the worker proved, and that the request cannot be executed where it did
  -- not: no order of the two tasks takes the result back or panics. The commands of others come among
  -- the reports in any order; they do not write the request, which was not stored before, and insert
  -- fewer proofs than the store, which is a valid one, has places.
  pub run-openvm_reports :
      (schedule : List Bool) (reported : Option ℕ) (c : Called) (q : OpenVmProofRequest)
      → get q.request_id s ≡ none
      → any (writes q.request_id) others ≡ false
      → count_if is_insert others < s.max_proofs_stored
      → Told q.request_id
          (openvm_result c)
          (insert_proof q.request_id unexecuted_status
            ∷ interleave among (openvm_reports schedule estimate_secs reported c q) others)
          s
  unfolding openvm_reports
  run-openvm_reports schedule reported c q a n l =
      Settles-Told q.request_id (openvm_result c) among others s v a n l _
        (reports-Settles q.request_id schedule estimate_secs reported (openvm_result c) _)

module _ {Receipt : Type 0} (p : Risc0Prover Receipt) (groth16_enabled : Bool)
    (q : Risc0ProofRequest) where
  -- Where the receipt comes from: of the receipt to wrap, or of the program and its input.
  abbrev pub IsSource : Option Bytes → Receipt → Type 0
  IsSource (some source_bytes) receipt =
      (source : Receipt) × (p.deserialize source_bytes ≡ some source)
      × (p.compress q.mode source ≡ some receipt)
  IsSource none receipt = p.prove_with_opts q.mode q.elf q.input ≡ some receipt

  -- The bytes are those of a receipt that the contemplant may and can make.
  abbrev pub IsMade : Bytes → Type 0
  IsMade bytes =
      ((is_groth16 q.mode && not groth16_enabled) ≡ false)
      × ((receipt : Receipt) × IsSource q.wrap_of receipt × (p.serialize receipt ≡ some bytes))

  source :
      (w : Option Bytes) (bytes : Bytes)
      → serialized p (wrapped p q w) ≡ some bytes
      → (receipt : Receipt) × IsSource w receipt × (p.serialize receipt ≡ some bytes)
  source none bytes h = elim (Option-cases (p.prove_with_opts q.mode q.elf q.input)) [
    | inl n ↦ absurd (let k = rw n at h in cc)
    | inr (receipt, n) ↦ (receipt, n, rw n at h)
  ]
  source (some b) bytes h = elim (Option-cases (p.deserialize b)) [
    | inl n ↦ absurd (let k = rw n at h in cc)
    | inr (s, n) ↦ elim (Option-cases (p.compress q.mode s)) [
      | inl m ↦ absurd (let k = rw (n, m) at h in cc)
      | inr (receipt, m) ↦ (receipt, (s, n, m), rw (n, m) at h)
    ]
  ]

  made_of :
      (w : Option Bytes) (bytes : Bytes) (receipt : Receipt)
      → IsSource w receipt
      → p.serialize receipt ≡ some bytes
      → serialized p (wrapped p q w) ≡ some bytes
  made_of none bytes receipt h e = rw h e
  made_of (some b) bytes receipt (s, n, m) e = rw (n, m) e

  risc0_result-IsMade :
      (bytes : Bytes) → (risc0_result p groth16_enabled q ≡ some bytes) ↔ IsMade bytes
  unfolding risc0_result
  risc0_result-IsMade bytes = elim (Bool-cases (is_groth16 q.mode && not groth16_enabled)) [
    | inl t ↦ (λ h. absurd (let k = rw t at h in cc), λ m. absurd (let k = m.0 in cc))
    | inr t ↦ (
      λ h. (t, source q.wrap_of bytes (rw t at h)),
      λ m. rw t (made_of q.wrap_of bytes m.1.0 m.1.1 m.1.2),
    )
  ]

  module _ (among : List Bool) (others : List ProofStoreCommand) (estimate_secs : ℕ → Option ℕ)
      (s : ProofStore) (v : IsValid s) where
    -- The client is told of bytes exactly where Groth16 is not asked of a contemplant that does not
    -- have it, and they are those of a receipt: the one that the library compressed from the receipt
    -- to wrap, or proved of the program on the input where there is none to wrap. In every other
    -- case it is told that the request cannot be executed. The commands of others come among the
    -- reports in any order; they do not write the request, which was not stored before, and insert
    -- fewer proofs than the store, which is a valid one, has places.
    pub run-risc0_reports :
        (compute_totals : Bool)
        → get q.request_id s ≡ none
        → any (writes q.request_id) others ≡ false
        → count_if is_insert others < s.max_proofs_stored
        → (result : Option Bytes) × ((bytes : Bytes) → (result ≡ some bytes) ↔ IsMade bytes)
          × Told q.request_id result
              (insert_proof q.request_id unexecuted_status
                ∷ interleave among
                    (risc0_reports p groth16_enabled compute_totals estimate_secs q)
                    others)
              s
    unfolding risc0_reports interleave
    run-risc0_reports compute_totals a n l = (
      risc0_result p groth16_enabled q,
      risc0_result-IsMade,
      Settles-Told q.request_id (risc0_result p groth16_enabled q) among others s v a n l _
          (reports-Settles q.request_id [] estimate_secs (risc0_size p compute_totals q) _ _),
    )
