-- ===== src/Service/Soundness.antt =====
-- When a client is told that its proof is there.
use hierophant.Prelude.{
  ℕ, ◌≡◌, ◌≢◌, ◌⊎◌, refl, ap, Bool, true, Option, none, some, List, [], ◌∷◌, arith, nat_eq, ◌==◌,
  any, Bool-cases, Option-cases, inl, inr,
}
use hierophant.Prelude.Dict.{lookup}
use hierophant.Network.{Bytes, fulfillment_code, fulfilled}
use hierophant.Artifact.Store.{
  ArtifactStore, SaveResult, saved, not_registered, write_failed, handle_save_artifact,
  handle_get_artifact_bytes,
}
use hierophant.Proof.{ProofStatus, get_proof_status}
use hierophant.Registry.Commands.{WorkerRegistryCommand}
use hierophant.Service.{
  RequestRecord, ServiceState, Call, Outcome, respond, respond_asked, is_found, lost_proof_response,
  get_vk, save_outcome, accept, check_proof, of_worker, of_request, get_proof_request_status,
}

abbrev code_of : Option Outcome → ℕ
code_of none = 0
code_of (some o) = o.response.fulfillment_status

abbrev artifacts_of : ArtifactStore → Option Outcome → ArtifactStore
artifacts_of a none = a
artifacts_of a (some o) = o.artifacts

-- A lost proof is not fulfilled.
lost_fails :
    (a : ArtifactStore) (cs : List WorkerRegistryCommand) (o : Outcome)
    → some (respond_asked lost_proof_response a cs) ≡ some o
    → o.response.fulfillment_status ≢ fulfillment_code fulfilled
lost_fails a cs o e f = omega (arith, ap code_of e, f)

-- Nor is a request that is not known.
unknown_fails :
    (a : ArtifactStore) (cs : List WorkerRegistryCommand) (o : Outcome)
    → some (respond lost_proof_response a cs) ≡ some o
    → o.response.fulfillment_status ≢ fulfillment_code fulfilled
unknown_fails a cs o e f = omega (arith, ap code_of e, f)

module _ {ℓ κ} {P : Type ℓ} {K : Type κ} (decode : Bytes → Option P) (decode_vk : Bytes → Option K)
    (verify : P → K → Bool) where
  -- The proof that came with the status was decoded, verified against the key of the request, and
  -- saved under its name.
  pub record IsVerified (k : Call) (r : ℕ) (q : RequestRecord) (s : ServiceState) (st : ProofStatus)
      (o : Outcome) : Type (ℓ ⊔ κ) where
    pub proof : P
    pub key : K
    pub decoded : decode st.proof ≡ some proof
    pub found : get_vk decode decode_vk verify s r ≡ some key
    pub verified : verify proof key ≡ true
    pub stored :
        handle_save_artifact k.fs q.proof_uri st.proof s.artifacts ≡ some (o.artifacts, saved)

  save_outcome-stored :
      (q : RequestRecord) (st : ProofStatus) (cs : List WorkerRegistryCommand)
      (x : Option (ArtifactStore × SaveResult)) (o : Outcome)
      → save_outcome decode decode_vk verify q st cs x ≡ some o
      → o.response.fulfillment_status ≡ fulfillment_code fulfilled
      → x ≡ some (o.artifacts, saved)
  save_outcome-stored q st cs none o e f = cc
  save_outcome-stored q st cs (some (a, saved)) o e f =
      ap (λ b. some (b, saved)) (ap (artifacts_of a) e)
  save_outcome-stored q st cs (some (a, not_registered)) o e f = absurd (lost_fails a cs o e f)
  save_outcome-stored q st cs (some (a, write_failed)) o e f = absurd (lost_fails a cs o e f)

  module _ (k : Call) (r : ℕ) (q : RequestRecord) (s : ServiceState) (st : ProofStatus)
      (cs : List WorkerRegistryCommand) where
    accept-stored :
        (o : Outcome)
        → accept decode decode_vk verify k r q st cs s.artifacts ≡ some o
        → o.response.fulfillment_status ≡ fulfillment_code fulfilled
        → handle_save_artifact k.fs q.proof_uri st.proof s.artifacts ≡ some (o.artifacts, saved)
    unfolding accept
    accept-stored o e f = elim (Bool-cases k.takes_complete) [
      | inl t ↦ save_outcome-stored q st _ _ o (rw (t, accept) at e) f
      | inr t ↦ absurd (lost_fails _ _ o (rw (t, accept) at e) f)
    ]

    check_proof-IsVerified :
        (o : Outcome) (p : Option P) (vk : Option K)
        → decode st.proof ≡ p
        → get_vk decode decode_vk verify s r ≡ vk
        → check_proof decode decode_vk verify k r q st cs s.artifacts p vk ≡ some o
        → o.response.fulfillment_status ≡ fulfillment_code fulfilled
        → IsVerified k r q s st o
    unfolding check_proof
    check_proof-IsVerified o none vk d g e f = absurd (lost_fails _ _ o e f)
    check_proof-IsVerified o (some p) none d g e f = absurd (lost_fails _ _ o e f)
    check_proof-IsVerified o (some p) (some vk) d g e f = elim (Bool-cases (verify p vk)) [
      | inl t ↦ record {
        proof = p;
        key = vk;
        decoded = d;
        found = g;
        verified = t;
        stored = accept-stored o (rw t at e) f;
      }
      | inr t ↦ absurd (lost_fails _ _ o (rw t at e) f)
    ]

  -- What stands behind a fulfilled answer to a request.
  abbrev pub IsFounded : Call → ℕ → RequestRecord → ServiceState → Outcome → Type (ℓ ⊔ κ)
  IsFounded k r q s o =
      (is_found (handle_get_artifact_bytes k.fs q.proof_uri s.artifacts) ≡ true)
      ⊎ ((st : ProofStatus) × (get_proof_status k.takes_update k.reply ≡ some st)
          × ((st.proof ≡ []) ⊎ IsVerified k r q s st o))

  of_worker-IsFounded :
      (k : Call) (r : ℕ) (q : RequestRecord) (s : ServiceState) (o : Outcome) (st : ProofStatus)
      (bytes : Bytes)
      → st.proof ≡ bytes
      → get_proof_status k.takes_update k.reply ≡ some st
      → of_worker decode decode_vk verify k r q s (some st) ≡ some o
      → o.response.fulfillment_status ≡ fulfillment_code fulfilled
      → IsFounded k r q s o
  unfolding of_worker
  of_worker-IsFounded k r q s o st [] b g e f = inr (st, g, inl b)
  of_worker-IsFounded k r q s o st (_ ∷ _) b g e f = inr (
    st,
    g,
    inr (
        check_proof-IsVerified k r q s st _ o (decode st.proof) _ refl refl (rw (b, of_worker) at e)
          f),
  )

  of_request-IsFounded :
      (k : Call) (r : ℕ) (q : RequestRecord) (s : ServiceState) (o : Outcome)
      → of_request decode decode_vk verify k r q s ≡ some o
      → o.response.fulfillment_status ≡ fulfillment_code fulfilled
      → IsFounded k r q s o
  unfolding of_request of_worker
  of_request-IsFounded k r q s o e f =
      elim (Bool-cases (any (λ j. j == r) s.proofs_pending_artifacts)) [
        | inl p ↦ absurd (omega (arith, ap code_of (rw (p, of_request) at e), f))
        | inr p ↦
            elim (Bool-cases (is_found (handle_get_artifact_bytes k.fs q.proof_uri s.artifacts))) [
              | inl t ↦ inl t
              | inr t ↦ elim (Option-cases (get_proof_status k.takes_update k.reply)) [
                | inl n ↦ let h = rw (p, t, n, of_request) at e in cc
                | inr (st, n) ↦
                    of_worker-IsFounded k r q s o st st.proof refl n (rw (p, t, n, of_request) at e)
                      f
              ]
            ]
      ]

  -- A client is told that its proof is fulfilled only where the request is known, and the proof can
  -- be read from the artifact store, or the status of a worker came with a proof that was decoded,
  -- verified against the key of the request and saved, or that status came with no proof bytes at
  -- all: these are not checked.
  pub fulfilled_lem :
      (k : Call) (id : Option ℕ) (s : ServiceState) (o : Outcome)
      → get_proof_request_status decode decode_vk verify k id s ≡ some o
      → o.response.fulfillment_status ≡ fulfillment_code fulfilled
      → (r : ℕ) × (q : RequestRecord) × (id ≡ some r)
        × (lookup r s.proof_requests ≡ some q)
        × IsFounded k r q s o
  unfolding get_proof_request_status
  fulfilled_lem k none s o e f = absurd (unknown_fails _ _ o e f)
  fulfilled_lem k (some r) s o e f = elim (Option-cases (lookup r s.proof_requests)) [
    | inl n ↦ absurd (unknown_fails _ _ o (rw (n, get_proof_request_status) at e) f)
    | inr (q, n) ↦
        (r, q, refl, n, of_request-IsFounded k r q s o (rw (n, get_proof_request_status) at e) f)
  ]
