-- ===== src/Executor/Rewarmed.antt =====
-- A run of the SP1 executor, whatever state its backend was left in.
use hierophant.Prelude.{
  ℕ, ◌<◌, ◌≡◌, refl, ap, ◌∙◌, ◌⊎◌, ◌||◌, subst, inl, inr, Bool-cases, Bool, true, false, Option,
  none, some, List, [], ◌∷◌, arith, any, count_if, if◌then◌else◌, not, ◌&&◌,
}
use hierophant.Network.{Bytes, unexecuted_status, Sp1ProofRequest}
use hierophant.ProofStore.{ProofStore, ProofStoreCommand, insert_proof, get}
use hierophant.ProofStore.Ring.{IsValid}
use hierophant.ProofStore.Retention.{writes, is_insert}
use hierophant.Executor.{interleave}
use hierophant.Executor.Outcome.{Told, Settles-Told, reports-Settles}
use hierophant.Executor.Sp1.{
  ActiveSp1Prover, cuda, cpu, cold, is_cold, Made, failed, result_of, unspecified_mode, Sp1Library,
  Sp1State, Sp1Run, Releases, release_if, release_gpu, prover_read, rewarm, sp1_size, sp1_prove,
  to_bytes, sp1_finish, sp1_execute, is_unspecified,
}

-- The backend is released after the run has made sure of it and before it reads it. A CPU is not
-- released, and a release before the run builds CUDA again does nothing.
abbrev pub is_snatched : Releases → ActiveSp1Prover → Bool
is_snatched i cuda = i.after_check || i.before_read
is_snatched i cpu = false
is_snatched i cold = i.before_read

-- The backend that a run works with: CUDA, unless it is a CPU.
abbrev pub warm : ActiveSp1Prover → ActiveSp1Prover
warm cuda = cuda
warm cpu = cpu
warm cold = cuda

warm_lem : (a : ActiveSp1Prover) → is_cold (warm a) ≡ false
warm_lem cuda = refl
warm_lem cpu = refl
warm_lem cold = refl

-- What a run that is no mock reads.
read-cases :
    (i : Releases) (seen : ActiveSp1Prover)
    → ((is_snatched i seen ≡ true) × (prover_read false i seen ≡ cold))
      ⊎ ((is_snatched i seen ≡ false) × (prover_read false i seen ≡ warm seen))
unfolding prover_read rewarm release_gpu
read-cases i cuda = elim (Bool-cases i.after_check) [
  | inl t ↦ elim (Bool-cases i.before_read) [
    | inl b ↦ inl (rw t refl, rw (t, b) refl)
    | inr b ↦ inl (rw t refl, rw (t, b) refl)
  ]
  | inr t ↦ elim (Bool-cases i.before_read) [
    | inl b ↦ inl (rw (t, b) refl, rw (t, b) refl)
    | inr b ↦ inr (rw (t, b) refl, rw (t, b) refl)
  ]
]
read-cases i cpu = elim (Bool-cases i.after_check) [
  | inl t ↦ elim (Bool-cases i.before_read) [
    | inl b ↦ inr (refl, rw (t, b) refl)
    | inr b ↦ inr (refl, rw (t, b) refl)
  ]
  | inr t ↦ elim (Bool-cases i.before_read) [
    | inl b ↦ inr (refl, rw (t, b) refl)
    | inr b ↦ inr (refl, rw (t, b) refl)
  ]
]
read-cases i cold = elim (Bool-cases i.before_read) [
  | inl b ↦ inl (b, rw b refl)
  | inr b ↦ inr (b, rw b refl)
]

module _ {Proof : Type 0} (p : Sp1Library Proof) (compute_totals : Bool) (q : Sp1ProofRequest) where
  -- A run works with its backend for the size and for the proof, but a mock proof has no use for it.
  abbrev pub uses_backend : Bool
  uses_backend = not q.mock && (compute_totals || not (is_unspecified p compute_totals q.mode))

  abbrev cycles : ActiveSp1Prover → Option ℕ
  cycles a = if not q.mock && compute_totals then p.execute a q.elf q.sp1_stdin else none

  -- What is proved with a backend.
  abbrev pub proof_of : ActiveSp1Prover → Made Proof
  proof_of a =
      if is_unspecified p compute_totals q.mode
      then failed unspecified_mode
      else if q.mock
      then p.mock_prove q.mode q.elf q.sp1_stdin
      else p.prove a q.mode q.elf q.sp1_stdin

  abbrev pub bytes_of : ActiveSp1Prover → Option Bytes
  bytes_of a = result_of (to_bytes p compute_totals (proof_of a))

  -- A run that does not use the backend, or reads one that is warm, has a size and a proof.
  sp1_size_lem :
      (a : ActiveSp1Prover)
      → (uses_backend && is_cold a) ≡ false
      → sp1_size p compute_totals a q ≡ some (cycles a)
  unfolding sp1_size
  sp1_size_lem a h = ground arith

  sp1_prove_lem :
      (a : ActiveSp1Prover)
      → (uses_backend && is_cold a) ≡ false
      → sp1_prove p compute_totals a q ≡ some (proof_of a)
  unfolding sp1_prove
  sp1_prove_lem a h = ground arith

  sizeless :
      (a : ActiveSp1Prover)
      → (uses_backend && is_cold a) ≡ true
      → compute_totals ≡ true
      → sp1_size p compute_totals a q ≡ none
  unfolding sp1_size
  sizeless a h t = ground arith

  proofless :
      (a : ActiveSp1Prover)
      → (uses_backend && is_cold a) ≡ true
      → compute_totals ≡ false
      → sp1_prove p compute_totals a q ≡ none
  unfolding sp1_prove
  proofless a h t = ground arith

  proof_of-unused : (a b : ActiveSp1Prover) → uses_backend ≡ false → proof_of a ≡ proof_of b
  proof_of-unused a b h = ground arith

  module _ (estimate_secs : ℕ → Option ℕ) (i : Releases) (x : Sp1State) where
    abbrev read : ActiveSp1Prover
    read = prover_read q.mock i x.active_prover

    abbrev finish : Option (Option ℕ) → Option (Made Proof) → Option Sp1Run
    finish =
        sp1_finish p compute_totals estimate_secs q read (release_if i.while_working read)
          x.cuda_deaths

    finish-none : (size : Option (Option ℕ)) → finish size none ≡ none
    unfolding sp1_finish
    finish-none none = refl
    finish-none (some c) = refl

    finish_sizeless : (proof : Option (Made Proof)) → finish none proof ≡ none
    unfolding sp1_finish
    finish_sizeless proof = refl

    panics :
        (uses_backend && is_cold read) ≡ true
        → sp1_execute p compute_totals estimate_secs i x q ≡ none
    unfolding sp1_execute
    panics h = elim (Bool-cases compute_totals) [
      | inl t ↦
          ap (λ z. finish z (sp1_prove p compute_totals read q)) (sizeless read h t)
          ∙ finish_sizeless (sp1_prove p compute_totals read q)
      | inr t ↦
          ap (λ z. finish (sp1_size p compute_totals read q) z) (proofless read h t)
          ∙ finish-none (sp1_size p compute_totals read q)
    ]

    module _ (among : List Bool) (others : List ProofStoreCommand) (s : ProofStore) (v : IsValid s)
        (fresh : get q.request_id s ≡ none) (n : any (writes q.request_id) others ≡ false)
        (l : count_if is_insert others < s.max_proofs_stored) where
      -- The run ends with these bytes, and the client is told.
      abbrev pub Ends : Option Bytes → Type 0
      Ends result =
          (run : Sp1Run) × (sp1_execute p compute_totals estimate_secs i x q ≡ some run)
          × (run.result ≡ result)
          × Told q.request_id result
              (insert_proof q.request_id unexecuted_status ∷ interleave among run.reports others) s

      ends : (uses_backend && is_cold read) ≡ false → Ends (bytes_of read)
      unfolding sp1_execute sp1_finish interleave
      ends h = (
        _,
        ap (λ z. finish z (sp1_prove p compute_totals read q)) (sp1_size_lem read h)
            ∙ ap (λ z. finish (some (cycles read)) z) (sp1_prove_lem read h),
        refl,
        Settles-Told q.request_id _ among others s v fresh n l _
            (reports-Settles q.request_id [] estimate_secs (cycles read) _ _),
      )

      Ends-as :
          (a : ActiveSp1Prover)
          → (uses_backend && is_cold read) ≡ false
          → proof_of read ≡ proof_of a
          → Ends (bytes_of a)
      Ends-as a h e = subst (λ m. Ends (result_of (to_bytes p compute_totals m))) e (ends h)

      -- Where a run uses the backend, it panics exactly where the backend is released for another
      -- VM after the run has checked it, and built CUDA again if it was evicted, and before the run
      -- reads it. Otherwise the run ends: the client is told of the bytes that the library made with
      -- the CPU or with CUDA, and that the request cannot be executed where it made none or the mode
      -- is unspecified. A mock proof, or an unspecified mode without a size, uses no backend. The
      -- commands of others come among the reports in any order; they do not write the request, which
      -- was not stored before, and insert fewer proofs than the store, which is a valid one, has
      -- places.
      pub sp1_execute_lem :
          (((uses_backend && is_snatched i x.active_prover) ≡ true)
            × (sp1_execute p compute_totals estimate_secs i x q ≡ none))
          ⊎ (((uses_backend && is_snatched i x.active_prover) ≡ false)
              × Ends (bytes_of (warm x.active_prover)))
      sp1_execute_lem = elim (Bool-cases uses_backend) [
        | inr b ↦ inr (
          rw b refl,
          Ends-as (warm x.active_prover) (rw b refl)
              (proof_of-unused read (warm x.active_prover) b),
        )
        | inl b ↦
            let m : false ≡ q.mock = ground arith in
            elim (read-cases i x.active_prover) [
              | inl (t, e) ↦ inl (rw (b, t) refl, panics (rw (b, ← m, e) refl))
              | inr (t, e) ↦ inr (
                rw (b, t) refl,
                Ends-as (warm x.active_prover) (rw (b, ← m, e) (warm_lem x.active_prover))
                    (rw (← m, e) refl),
              )
            ]
      ]
