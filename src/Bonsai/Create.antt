-- ===== src/Bonsai/Create.antt =====
-- What a new wrap leads to.
use hierophant.Prelude.{◌≡◌, ◌⊎◌, inl, inr, refl, Bool, true, false, Option, none, some, [], arith}
use hierophant.Prelude.Dict.{lookup, insert, lookup-insert}
use hierophant.Prelude.Texts.{Text, text_eq}
use hierophant.Network.{Bytes, Risc0ProofMode, Risc0ProofRequest, risc0_request}
use hierophant.Registry.Commands.{assign_proof_request}
use hierophant.Proof.Routes.{route_risc0_proof, assign}
use hierophant.Bonsai.{
  BonsaiSession, SnarkState, BonsaiInner, Draw, job, Creation, reply_of, new_snark, wrap_with,
  handle_snark_create,
}

abbrev pub name_of : Creation → Option Text
name_of (t, job uuid, c) = some uuid
name_of (t, _, c) = none

module _ (d : Draw) (session_id : Text) (s : BonsaiInner) where
  abbrev pub wrap_of : Bytes → Risc0ProofRequest
  wrap_of receipt = record {
    request_id = d.request_id;
    elf = [];
    input = [];
    mode = Risc0ProofMode.groth16;
    mock = d.mock_mode;
    wrap_of = some receipt;
  }

  -- The registry was asked to wrap the receipt of the session, and the wrap that is kept has the number
  -- of that request and the image of the session, and has not failed.
  pub record IsWrapped (uuid : Text) (c : Creation) : Type 0 where
    pub session : BonsaiSession
    pub receipt : Bytes
    pub known : lookup session_id s.sessions ≡ some session
    pub finished : lookup session_id s.receipts ≡ some receipt
    pub command : c.2 ≡ some (assign_proof_request (risc0_request (wrap_of receipt)))
    pub kept : SnarkState
    pub remembered : lookup uuid c.0.snark_requests ≡ some kept
    pub number : kept.request_id ≡ d.request_id
    pub same_image : kept.image_id ≡ session.image_id
    pub of_session : kept.session_id ≡ session_id
    pub no_error : kept.terminal_error ≡ none

  -- No wrap and no command, or a wrap and its command.
  abbrev pub IsFollowed : Creation → Type 0
  IsFollowed c =
      ((name_of c ≡ none) × (c.2 ≡ none)) ⊎ ((name_of c ≡ some d.uuid) × IsWrapped d.uuid c)

  abbrev after : BonsaiSession → BonsaiInner
  after j = record s {
    snark_requests = insert d.uuid (new_snark d session_id j.image_id) s.snark_requests;
  }

  remember :
      (j : BonsaiSession)
      → lookup d.uuid (after j).snark_requests ≡ some (new_snark d session_id j.image_id)
  remember j = ground (
    arith,
    lookup-insert d.uuid d.uuid (new_snark d session_id j.image_id) s.snark_requests,
    text_eq.beq_iff d.uuid d.uuid,
  )

  reply_wrapped :
      (j : BonsaiSession) (b : Bytes) (serves : Bool)
      → lookup session_id s.sessions ≡ some j
      → lookup session_id s.receipts ≡ some b
      → IsFollowed (reply_of d.uuid (after j) (assign serves (risc0_request (wrap_of b))))
  reply_wrapped j b false k f = inl (refl, refl)
  reply_wrapped j b true k f = inr (
    refl,
    record {
      session = j;
      receipt = b;
      known = k;
      finished = f;
      command = refl;
      kept = new_snark d session_id j.image_id;
      remembered = remember j;
      number = refl;
      same_image = refl;
      of_session = refl;
      no_error = refl;
    },
  )

  wrapped :
      (j : Option BonsaiSession) (b : Option Bytes)
      → lookup session_id s.sessions ≡ j
      → lookup session_id s.receipts ≡ b
      → IsFollowed (wrap_with d session_id s j b)
  unfolding route_risc0_proof
  wrapped none b k f = inl (refl, refl)
  wrapped (some j) none k f = inl (refl, refl)
  wrapped (some j) (some b) k f = reply_wrapped j b d.serves k f

  pub handle_snark_create_lem : IsFollowed (handle_snark_create d session_id s)
  unfolding handle_snark_create
  handle_snark_create_lem = wrapped _ _ refl refl
