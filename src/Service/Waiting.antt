-- ===== src/Service/Waiting.antt =====
-- What a client hears while the circuit artifacts of its proof are fetched.
use hierophant.Prelude.{
  ℕ, ◌≡◌, refl, sym, ap, ◌∙◌, subst, Bool, true, false, Option, none, some, List, [], zero, suc,
  ◌==◌, nat_eq, any, Bool-cases, inl, inr, arith,
}
use hierophant.Prelude.Dict.{lookup, lookup-insert}
use hierophant.Prelude.Texts.{Text}
use hierophant.Network.{Bytes, ProofMode, fulfillment_code, execution_code, requested, unexecuted}
use hierophant.Artifact.Uri.{ArtifactUri}
use hierophant.Registry.Commands.{WorkerRegistryCommand}
use hierophant.Service.{
  RequestRecord, ServiceState, Program, Call, respond, status_response, of_request,
  get_proof_request_status,
}
use hierophant.Service.Requests.{
  Scene, RequestProofBody, GrpcError, Download, Started, nothing, downloading, Requested, refused,
  response, insert_pending, request_proof, create_proof_uri, after_route, start_proof, with_mode,
  with_program, with_stored, with_stdin, check_artifacts_ready,
}
use hierophant.Service.Downloads.{
  Phase, installing, marking, routing, removing, ended, Installer, Task, download_step,
  download_steps,
}

abbrev pub is_ended : Phase → Bool
is_ended ended = true
is_ended _ = false

insert_pending-has : (r : ℕ) (rs : List ℕ) → any (λ j. j == r) (insert_pending r rs) ≡ true
insert_pending-has r rs = ground (arith)

-- What a request that waits for its download has left.
pub record IsWaiting (c : Scene) (b : RequestProofBody) (s : ServiceState) : Type 0 where
  pub remembered :
      lookup c.request_id s.proof_requests
      ≡ some (record { proof_uri = c.proof_uri; deadline = b.deadline; vk_hash = b.vk_hash })
  pub pending : any (λ j. j == c.request_id) s.proofs_pending_artifacts ≡ true

abbrev Awaits : Scene → RequestProofBody → Requested → Type 0
Awaits c b o =
    (d : Download)
    → o.2 ≡ downloading d
    → o.1 ≡ response c.request_id
    → IsWaiting c b o.0 × (d.request_id ≡ c.request_id)

abbrev id_or : ℕ → Started → ℕ
id_or r (downloading d) = d.request_id
id_or r _ = r

module _ (c : Scene) (b : RequestProofBody) where
  refused-Awaits : (s : ServiceState) (e : GrpcError) (x : Started) → Awaits c b (s, refused e, x)
  refused-Awaits s e x d h g = absurd cc

  waits :
      (s : ServiceState) (d : Download)
      → d.request_id ≡ c.request_id
      → Awaits c b (
          create_proof_uri c b
            (record s {
              proofs_pending_artifacts = insert_pending d.request_id s.proofs_pending_artifacts;
            })
            (downloading d))
  waits s d e f h g = elim (Bool-cases c.stores) [
    | inl t ↦ rw t (
      record {
        remembered = ground (
          arith,
          lookup-insert c.request_id c.request_id
              (record { proof_uri = c.proof_uri; deadline = b.deadline; vk_hash = b.vk_hash })
              s.proof_requests,
        );
        pending =
            subst
              (λ r.
                any (λ j. j == r) (insert_pending d.request_id s.proofs_pending_artifacts) ≡ true)
              e (insert_pending-has d.request_id s.proofs_pending_artifacts);
      },
      sym (ap (id_or c.request_id) (rw t at h)) ∙ e,
    )
    | inr t ↦ absurd (let k = rw t at g in cc)
  ]

  module _ (uuid_to_string : ℕ → Text) (parse_uuid : Text → Option ℕ)
      (decompress decode_stdin decode_elf : Bytes → Option Bytes) (s : ServiceState) where
    routed-Awaits :
        (o : Option WorkerRegistryCommand)
        → Awaits c b
            (after_route uuid_to_string parse_uuid decompress decode_stdin decode_elf c b s o)
    routed-Awaits none d h g = absurd cc
    routed-Awaits (some cmd) d h g = elim (Bool-cases c.stores) [
      | inl t ↦ absurd (let k = rw t at h in cc)
      | inr t ↦ absurd (let k = rw t at g in cc)
    ]

    start-Awaits :
        (d : Download)
        → d.request_id ≡ c.request_id
        → Awaits c b
            (start_proof uuid_to_string parse_uuid decompress decode_stdin decode_elf c b s d)
    start-Awaits d e = elim (Bool-cases (check_artifacts_ready c.installed d.mode)) [
      | inl t ↦ rw t (routed-Awaits _)
      | inr t ↦ rw t (waits s d e)
    ]

    mode-Awaits :
        (p i : ArtifactUri) (m : Option ProofMode)
        → Awaits c b
            (with_mode uuid_to_string parse_uuid decompress decode_stdin decode_elf c b s p i m)
    mode-Awaits p i none = refused-Awaits s _ nothing
    mode-Awaits p i (some m) = start-Awaits _ refl

    program-Awaits :
        (i : ArtifactUri) (p : Option ArtifactUri)
        → Awaits c b
            (with_program uuid_to_string parse_uuid decompress decode_stdin decode_elf c b s i p)
    program-Awaits i none = refused-Awaits s _ nothing
    program-Awaits i (some p) = mode-Awaits p i _

    stored-Awaits :
        (i : ArtifactUri) (p : Option Program)
        → Awaits c b
            (with_stored uuid_to_string parse_uuid decompress decode_stdin decode_elf c b s i p)
    stored-Awaits i none = refused-Awaits s _ nothing
    stored-Awaits i (some p) = program-Awaits i _

    stdin-Awaits :
        (i : Option ArtifactUri)
        → Awaits c b
            (with_stdin uuid_to_string parse_uuid decompress decode_stdin decode_elf c b s i)
    stdin-Awaits none = refused-Awaits s _ nothing
    stdin-Awaits (some i) = stored-Awaits i _

    request-Awaits :
        Awaits c b
          (request_proof uuid_to_string parse_uuid decompress decode_stdin decode_elf c (some b) s)
    unfolding request_proof
    request-Awaits = stdin-Awaits _

record Holds (c : Scene) (b : RequestProofBody) (t : Task) : Type 0 where
  remembered :
      lookup c.request_id t.state.proof_requests
      ≡ some (record { proof_uri = c.proof_uri; deadline = b.deadline; vk_hash = b.vk_hash })
  pending :
      is_ended t.phase ≡ false
      → any (λ j. j == c.request_id) t.state.proofs_pending_artifacts ≡ true

module _ (uuid_to_string : ℕ → Text) (parse_uuid : Text → Option ℕ)
    (decompress decode_stdin decode_elf : Bytes → Option Bytes) (w : Installer) (c : Scene)
    (b : RequestProofBody) (d : Download) where
  step-Holds :
      (s : ServiceState) (p : Phase) (cs : List WorkerRegistryCommand)
      → Holds c b (record { state = s; phase = p; commands = cs })
      → Holds c b (
          download_step uuid_to_string parse_uuid decompress decode_stdin decode_elf w c d
            (record { state = s; phase = p; commands = cs }))
  unfolding download_step
  step-Holds s installing cs h = record { remembered = h.remembered; pending = λ x. h.pending refl }
  step-Holds s marking cs h = record { remembered = h.remembered; pending = λ x. h.pending refl }
  step-Holds s routing cs h = record { remembered = h.remembered; pending = λ x. h.pending refl }
  step-Holds s removing cs h = record { remembered = h.remembered; pending = λ x. absurd cc }
  step-Holds s ended cs h = h

  steps-Holds :
      (n : ℕ) (t : Task)
      → Holds c b t
      → Holds c b
          (download_steps uuid_to_string parse_uuid decompress decode_stdin decode_elf w c d n t)
  unfolding download_steps
  steps-Holds zero t h = h
  steps-Holds (suc n) t h = steps-Holds n _ (step-Holds t.state t.phase t.commands h)

  -- The request, and its task after `n` steps.
  abbrev pub asked : ServiceState → Requested
  asked s = request_proof uuid_to_string parse_uuid decompress decode_stdin decode_elf c (some b) s

  abbrev pub task : ℕ → ServiceState → Task
  task n s =
      download_steps uuid_to_string parse_uuid decompress decode_stdin decode_elf w c d n
        (record { state = (asked s).0; phase = installing; commands = [] })

  abbrev pub record_of : RequestRecord
  record_of = record { proof_uri = c.proof_uri; deadline = b.deadline; vk_hash = b.vk_hash }

  module _ {ℓ κ} {P : Type ℓ} {K : Type κ} (decode : Bytes → Option P)
      (decode_vk : Bytes → Option K) (verify : P → K → Bool) where
    status-Holds :
        (k : Call) (t : Task)
        → Holds c b t
        → is_ended t.phase ≡ false
        → get_proof_request_status decode decode_vk verify k (some c.request_id) t.state
          ≡ some (
              respond
                (status_response record_of (fulfillment_code requested) (execution_code unexecuted))
                t.state.artifacts
                [])
    unfolding get_proof_request_status of_request
    status-Holds k t v e =
        rw (v.remembered, get_proof_request_status) (rw (v.pending e, of_request) refl)

    -- Where a request for a proof is answered with its number and a download was started for it, the
    -- client hears that the proof is requested at every step of the download until the task has
    -- ended: also after the registry was asked for the proof. The registry is not asked for the status,
    -- and nothing else is sent to it.
    pub requested_lem :
        (s : ServiceState) (k : Call) (n : ℕ)
        → (asked s).1 ≡ response c.request_id
        → (asked s).2 ≡ downloading d
        → is_ended (task n s).phase ≡ false
        → get_proof_request_status decode decode_vk verify k (some c.request_id) (task n s).state
          ≡ some (
              respond
                (status_response record_of (fulfillment_code requested) (execution_code unexecuted))
                (task n s).state.artifacts
                [])
    requested_lem s k n g h e =
        let i =
          request-Awaits c b uuid_to_string parse_uuid decompress decode_stdin decode_elf s d h g in
        status-Holds k (task n s)
          (steps-Holds n _ (record { remembered = i.0.remembered; pending = λ x. i.0.pending })) e
