-- ===== src/Service/Keys.antt =====
-- Which key is looked up for the proof of a request.
use hierophant.Prelude.{
  ℕ, ◌≡◌, refl, ap, ◌∙◌, Bool, true, false, Option, none, some, List, [], ◌∷◌, ◌++◌, any, ◌==◌,
  nat_eq, Bool-cases, inl, inr, arith,
}
use hierophant.Prelude.Dict.{lookup, lookup-insert}
use hierophant.Prelude.Texts.{Text, text_eq}
use hierophant.Network.{Bytes, ProofMode}
use hierophant.Artifact.Uri.{ArtifactUri}
use hierophant.Registry.Commands.{WorkerRegistryCommand}
use hierophant.Service.{RequestRecord, ServiceState, Program, get_vk}
use hierophant.Service.Requests.{
  Scene, RequestProofBody, CreateProgramBody, create_program, GrpcError, Download, Started, nothing,
  routed, downloading, Requested, refused, response, request_proof, create_proof_uri, after_route,
  start_proof, with_mode, with_program, with_stored, with_stdin, check_artifacts_ready,
}

-- A request keeps the programs, and where it is answered it is remembered with its key's hash.
pub record Remembers (c : Scene) (b : RequestProofBody) (s : ServiceState) (o : Requested)
    : Type 0 where
  pub programs : o.0.program_store ≡ s.program_store
  pub others :
      (j : ℕ)
      → (c.request_id == j) ≡ false
      → lookup j o.0.proof_requests ≡ lookup j s.proof_requests
  pub remembered :
      o.1 ≡ response c.request_id
      → lookup c.request_id o.0.proof_requests
        ≡ some (record { proof_uri = c.proof_uri; deadline = b.deadline; vk_hash = b.vk_hash })

module _ (c : Scene) (b : RequestProofBody) (s : ServiceState) where
  refused-Remembers : (e : GrpcError) (x : Started) → Remembers c b s (s, refused e, x)
  refused-Remembers e x = record {
    programs = refl;
    others = λ j n. refl;
    remembered = λ h. absurd cc;
  }

  created-Remembers :
      (t : ServiceState) (x : Started)
      → t.program_store ≡ s.program_store
      → t.proof_requests ≡ s.proof_requests
      → Remembers c b s (create_proof_uri c b t x)
  created-Remembers t x e f = elim (Bool-cases c.stores) [
    | inl y ↦ rw y (record {
      programs = e;
      others = λ j n. ground (
        arith,
        lookup-insert c.request_id j
            (record { proof_uri = c.proof_uri; deadline = b.deadline; vk_hash = b.vk_hash })
            t.proof_requests,
        f,
        n,
      );
      remembered = λ h. ground (
        arith,
        lookup-insert c.request_id c.request_id
            (record { proof_uri = c.proof_uri; deadline = b.deadline; vk_hash = b.vk_hash })
            t.proof_requests,
      );
    })
    | inr y ↦ rw y (record { programs = e; others = λ j n. rw f refl; remembered = λ h. absurd cc })
  ]

  module _ (uuid_to_string : ℕ → Text) (parse_uuid : Text → Option ℕ)
      (decompress decode_stdin decode_elf : Bytes → Option Bytes) where
    routed-Remembers :
        (o : Option WorkerRegistryCommand)
        → Remembers c b s
            (after_route uuid_to_string parse_uuid decompress decode_stdin decode_elf c b s o)
    routed-Remembers none = refused-Remembers _ nothing
    routed-Remembers (some cmd) = created-Remembers s (routed cmd) refl refl

    start-Remembers :
        (d : Download)
        → Remembers c b s
            (start_proof uuid_to_string parse_uuid decompress decode_stdin decode_elf c b s d)
    start-Remembers d = elim (Bool-cases (check_artifacts_ready c.installed d.mode)) [
      | inl t ↦ rw t (routed-Remembers _)
      | inr t ↦ rw t (created-Remembers _ (downloading d) refl refl)
    ]

    mode-Remembers :
        (p i : ArtifactUri) (m : Option ProofMode)
        → Remembers c b s
            (with_mode uuid_to_string parse_uuid decompress decode_stdin decode_elf c b s p i m)
    mode-Remembers p i none = refused-Remembers _ nothing
    mode-Remembers p i (some m) = start-Remembers _

    program-Remembers :
        (i : ArtifactUri) (p : Option ArtifactUri)
        → Remembers c b s
            (with_program uuid_to_string parse_uuid decompress decode_stdin decode_elf c b s i p)
    program-Remembers i none = refused-Remembers _ nothing
    program-Remembers i (some p) = mode-Remembers p i _

    stored-Remembers :
        (i : ArtifactUri) (p : Option Program)
        → Remembers c b s
            (with_stored uuid_to_string parse_uuid decompress decode_stdin decode_elf c b s i p)
    stored-Remembers i none = refused-Remembers _ nothing
    stored-Remembers i (some p) = program-Remembers i _

    stdin-Remembers :
        (i : Option ArtifactUri)
        → Remembers c b s
            (with_stdin uuid_to_string parse_uuid decompress decode_stdin decode_elf c b s i)
    stdin-Remembers none = refused-Remembers _ nothing
    stdin-Remembers (some i) = stored-Remembers i _

    request_proof-Remembers :
        Remembers c b s
          (request_proof uuid_to_string parse_uuid decompress decode_stdin decode_elf c (some b) s)
    unfolding request_proof
    request_proof-Remembers = stdin-Remembers _

program_stored :
    (p : CreateProgramBody) (s : ServiceState)
    → lookup p.vk_hash (create_program true (some p) s).0.program_store
      ≡ some (record { vk = p.vk; program_uri = p.program_uri })
unfolding create_program
program_stored p s = ground (
  arith,
  lookup-insert p.vk_hash p.vk_hash (record { vk = p.vk; program_uri = p.program_uri })
      s.program_store,
  text_eq.beq_iff p.vk_hash p.vk_hash,
)

-- A call that a client makes.
pub data ClientCall : Type 0 where
  creates : (clock : Bool) → Option CreateProgramBody → ClientCall
  requests : Scene → Option RequestProofBody → ClientCall

-- The call stores a program under the hash, or draws the number of the request again.
abbrev pub disturbs : Bytes → ℕ → ClientCall → Bool
disturbs h r (creates clock none) = false
disturbs h r (creates clock (some b)) = text_eq.beq b.vk_hash h
disturbs h r (requests c b) = c.request_id == r

create_program-keeps :
    (clock : Bool) (b : Option CreateProgramBody) (h : Bytes) (s : ServiceState) (r : ℕ)
    → disturbs h r (creates clock b) ≡ false
    → (lookup h (create_program clock b s).0.program_store ≡ lookup h s.program_store)
      × ((create_program clock b s).0.proof_requests ≡ s.proof_requests)
unfolding create_program
create_program-keeps clock none h s r n = (refl, refl)
create_program-keeps true (some b) h s r n = (
  ground (
    arith,
    lookup-insert b.vk_hash h (record { vk = b.vk; program_uri = b.program_uri }) s.program_store,
    n,
  ),
  refl,
)
create_program-keeps false (some b) h s r n = (refl, refl)

module _ {ℓ κ} {P : Type ℓ} {K : Type κ} (decode : Bytes → Option P) (decode_vk : Bytes → Option K)
    (verify : P → K → Bool) (uuid_to_string : ℕ → Text) (parse_uuid : Text → Option ℕ)
    (decompress decode_stdin decode_elf : Bytes → Option Bytes) where
  key_found :
      (t : ServiceState) (r : ℕ) (q : RequestRecord) (p : Program)
      → lookup r t.proof_requests ≡ some q
      → lookup q.vk_hash t.program_store ≡ some p
      → get_vk decode decode_vk verify t r ≡ decode_vk p.vk
  key_found t r q p h g = rw (h, get_vk) (rw g)

  -- The state after a call, and after some calls.
  abbrev pub after_call : ClientCall → ServiceState → ServiceState
  after_call (creates clock b) s = (create_program clock b s).0
  after_call (requests c b) s =
      (request_proof uuid_to_string parse_uuid decompress decode_stdin decode_elf c b s).0

  abbrev pub after_calls : List ClientCall → ServiceState → ServiceState
  after_calls [] s = s
  after_calls (x ∷ xs) s = after_calls xs (after_call x s)

  after_calls-append :
      (xs ys : List ClientCall) (s : ServiceState)
      → after_calls (xs ++ ys) s ≡ after_calls ys (after_calls xs s)
  after_calls-append [] ys s = refl
  after_calls-append (x ∷ xs) ys s = after_calls-append xs ys (after_call x s)

  after_call-keeps :
      (x : ClientCall) (h : Bytes) (r : ℕ) (s : ServiceState)
      → disturbs h r x ≡ false
      → (lookup h (after_call x s).program_store ≡ lookup h s.program_store)
        × (lookup r (after_call x s).proof_requests ≡ lookup r s.proof_requests)
  unfolding request_proof
  after_call-keeps (creates clock b) h r s n =
      let (e, f) = create_program-keeps clock b h s r n in (e, ap (lookup r) f)
  after_call-keeps (requests c none) h r s n = (refl, refl)
  after_call-keeps (requests c (some b)) h r s n =
      let v =
        request_proof-Remembers c b s uuid_to_string parse_uuid decompress decode_stdin
          decode_elf in
      (ap (lookup h) v.programs, v.others r n)

  after_calls-keeps :
      (xs : List ClientCall) (h : Bytes) (r : ℕ) (s : ServiceState)
      → any (disturbs h r) xs ≡ false
      → (lookup h (after_calls xs s).program_store ≡ lookup h s.program_store)
        × (lookup r (after_calls xs s).proof_requests ≡ lookup r s.proof_requests)
  after_calls-keeps [] h r s n = (refl, refl)
  after_calls-keeps (x ∷ xs) h r s n =
      let (e, f) = after_call-keeps x h r s (ground arith) in
      let (e', f') = after_calls-keeps xs h r (after_call x s) (ground arith) in (e' ∙ e, f' ∙ f)

  -- Which key is looked up for the proof of a request: where a program was created, and later a
  -- request that names the hash of its key was answered with a number, it is what the program's key
  -- decodes to, whatever clients create and request in between and after, as long as none of these
  -- calls stores a program under the same hash or draws the same number.
  pub get_vk-request_proof :
      (c : Scene) (b : RequestProofBody) (p : CreateProgramBody) (s : ServiceState)
      (between later : List ClientCall)
      → b.vk_hash ≡ p.vk_hash
      → any (disturbs p.vk_hash c.request_id) between ≡ false
      → any (disturbs p.vk_hash c.request_id) later ≡ false
      → (request_proof uuid_to_string parse_uuid decompress decode_stdin decode_elf c
          (some b)
          (after_calls between (create_program true (some p) s).0)).1
        ≡ response c.request_id
      → get_vk decode decode_vk verify
          (after_calls (creates true (some p) ∷ (between ++ requests c (some b) ∷ later)) s)
          c.request_id
        ≡ decode_vk p.vk
  get_vk-request_proof c b p s between later e n m h =
      let mid = after_calls between (create_program true (some p) s).0 in
      let v =
        request_proof-Remembers c b mid uuid_to_string parse_uuid decompress decode_stdin
          decode_elf in
      let asked = after_call (requests c (some b)) mid in
      let (f, g) = after_calls-keeps later p.vk_hash c.request_id asked m in
      let (k, l) =
        after_calls-keeps between p.vk_hash c.request_id (create_program true (some p) s).0 n in
      rw
        (after_calls-append between (requests c (some b) ∷ later)
          (create_program true (some p) s).0)
        (key_found (after_calls later asked) c.request_id
          (record { proof_uri = c.proof_uri; deadline = b.deadline; vk_hash = b.vk_hash })
          (record { vk = p.vk; program_uri = p.program_uri }) (g ∙ v.remembered h)
          (ap (λ j. lookup j (after_calls later asked).program_store) e
            ∙ f
            ∙ ap (lookup p.vk_hash) v.programs
            ∙ k
            ∙ program_stored p s))
