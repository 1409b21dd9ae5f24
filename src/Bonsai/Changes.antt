-- ===== src/Bonsai/Changes.antt =====
-- What the uploads, the new sessions and the new wraps do to the maps that the polls read.
use hierophant.Prelude.{
  ◌≡◌, ◌⊎◌, refl, ap, subst, Bool, true, false, Option, none, some, List, [], or_else, is_some,
  is_empty, not, Bool-cases, inl, inr, arith, if◌then◌else◌,
}
use hierophant.Prelude.Dict.{lookup, insert, lookup-insert}
use hierophant.Prelude.Texts.{Text, text_eq}
use hierophant.Network.{Bytes, Risc0ProofMode}
use hierophant.Registry.Commands.{WorkerRegistryCommand}
use hierophant.Bonsai.{
  BonsaiSession, SnarkState, BonsaiInner, put_image, handle_image_put, handle_input_put,
  handle_receipt_put, SessionCreateRequest, Draw, reply_of, new_session, create_session,
  create_with, handle_session_create, new_snark, wrap_with, handle_snark_create, Creation,
  not_implemented, parse_proof_mode,
}
use hierophant.Proof.Routes.{route_risc0_proof}

-- An insertion under a name that is not there keeps what is there.
fresh-kept :
    {V : Type 0} (u k : Text) (v w : V) (m : List (Text × V))
    → lookup u m ≡ none
    → lookup k m ≡ some w
    → lookup k (insert u v m) ≡ some w
fresh-kept u k v w m e h = elim (Bool-cases (text_eq.beq u k)) [
  | inl t ↦ let g : u ≡ k = ground (arith, text_eq.beq_iff u k) in absurd (let f = rw g at e in cc)
  | inr t ↦ rw (lookup-insert u k v m, t) h
]

-- What is stored after an insertion, and what stays stored.
insert-given :
    (Given : Text → Bytes → Type 0) (u k : Text) (v b : Bytes) (m : List (Text × Bytes))
    → Given u v
    → lookup k (insert u v m) ≡ some b
    → (lookup k m ≡ some b) ⊎ Given k b
insert-given Given u k v b m g h = elim (Bool-cases (text_eq.beq u k)) [
  | inl t ↦
      let e : u ≡ k = ground (arith, text_eq.beq_iff u k) in
      inr (
        subst (Given k) (ap (or_else v) (rw (lookup-insert u k v m, t) at h))
          (subst (λ z. Given z v) e g))
  | inr t ↦ inl (rw (lookup-insert u k v m, t) at h)
]

insert-stored :
    (u k : Text) (v : Bytes) (m : List (Text × Bytes))
    → is_some (lookup k m) ≡ true
    → is_some (lookup k (insert u v m)) ≡ true
insert-stored u k v m h = elim (Bool-cases (text_eq.beq u k)) [
  | inl t ↦ rw (lookup-insert u k v m, t)
  | inr t ↦ rw (lookup-insert u k v m, t) h
]

-- The requests from outside that change the maps, but for the polls. A new session or wrap has a
-- name that none has yet. `Given` is what clients store as receipts.
pub data Upload {D : Type 0} (compute_image_id : Bytes → Option D) (Given : Text → Bytes → Type 0)
    (s : BonsaiInner) : BonsaiInner → Type 0 where
  image_put :
      (image_id : Text) (body : Bytes)
      → Upload compute_image_id Given s (handle_image_put compute_image_id image_id body s).0
  input_put :
      (input_id : Text) (body : Bytes)
      → Upload compute_image_id Given s (handle_input_put input_id body s)
  receipt_put :
      (receipt_id : Text) (body : Bytes)
      → Given receipt_id body
      → Upload compute_image_id Given s (handle_receipt_put receipt_id body s)
  session_create :
      (d : Draw) (q : SessionCreateRequest)
      → lookup d.uuid s.sessions ≡ none
      → Upload compute_image_id Given s (handle_session_create d q s).0
  snark_create :
      (d : Draw) (session_id : Text)
      → lookup d.uuid s.snark_requests ≡ none
      → Upload compute_image_id Given s (handle_snark_create d session_id s).0

-- What the polls of sessions and of wraps read is kept.
pub record Keeps (Given : Text → Bytes → Type 0) (s t : BonsaiInner) : Type 0 where
  pub sessions :
      (k : Text) (j : BonsaiSession) → lookup k s.sessions ≡ some j → lookup k t.sessions ≡ some j
  pub receipts :
      (k : Text) (b : Bytes)
      → lookup k t.receipts ≡ some b
      → (lookup k s.receipts ≡ some b) ⊎ Given k b
  pub stored :
      (k : Text) → is_some (lookup k s.receipts) ≡ true → is_some (lookup k t.receipts) ≡ true
  pub snarks :
      (k : Text) (j : SnarkState)
      → lookup k s.snark_requests ≡ some j
      → lookup k t.snark_requests ≡ some j
  pub wrapped : t.snark_receipts ≡ s.snark_receipts

module _ (Given : Text → Bytes → Type 0) (s : BonsaiInner) where
  same-Keeps : Keeps Given s s
  same-Keeps = record {
    sessions = λ k j h. h;
    receipts = λ k b h. inl h;
    stored = λ k h. h;
    snarks = λ k j h. h;
    wrapped = refl;
  }

  image-Keeps :
      {D : Type 0} (f : Bytes → Option D) (k : Text) (b : Bytes) (o : Option D)
      → Keeps Given s (put_image f k b s o).0
  image-Keeps f k b none = same-Keeps
  image-Keeps f k b (some d) = record {
    sessions = λ k j h. h;
    receipts = λ k b h. inl h;
    stored = λ k h. h;
    snarks = λ k j h. h;
    wrapped = refl;
  }

  -- The maps of an answer do not depend on whether the registry takes the command.
  reply-Keeps :
      (u : Text) (t : BonsaiInner) (o : Option WorkerRegistryCommand)
      → Keeps Given s t
      → Keeps Given s (reply_of u t o).0
  reply-Keeps u t none h = h
  reply-Keeps u t (some c) h = h

  session-Keeps :
      (d : Draw) (q : SessionCreateRequest) (elf input : Bytes) (mode : Option Risc0ProofMode)
      → lookup d.uuid s.sessions ≡ none
      → Keeps Given s (create_session d q s elf input mode).0
  session-Keeps d q elf input none e = same-Keeps
  session-Keeps d q elf input (some mode) e =
      reply-Keeps d.uuid (record s { sessions = insert d.uuid (new_session d q mode) s.sessions })
        (route_risc0_proof d.serves d.mock_mode d.request_id elf input mode none)
        record {
          sessions = λ k j h. fresh-kept d.uuid k (new_session d q mode) j s.sessions e h;
          receipts = λ k b h. inl h;
          stored = λ k h. h;
          snarks = λ k j h. h;
          wrapped = refl;
        }

  tested-Keeps :
      (x y : Bool) (c : Creation)
      → Keeps Given s c.0
      → Keeps Given s
          (if x then (s, not_implemented, none) else if y then (s, not_implemented, none) else c).0
  tested-Keeps true y c h = same-Keeps
  tested-Keeps false true c h = same-Keeps
  tested-Keeps false false c h = h

  create-Keeps :
      (d : Draw) (q : SessionCreateRequest) (elf input : Option Bytes)
      → lookup d.uuid s.sessions ≡ none
      → Keeps Given s (create_with d q s elf input).0
  create-Keeps d q none input e = same-Keeps
  create-Keeps d q (some elf) none e = same-Keeps
  create-Keeps d q (some elf) (some input) e =
      tested-Keeps q.execute_only (not (is_empty q.assumptions)) _
        (session-Keeps d q elf input (parse_proof_mode q.proof_mode) e)

  wrap-Keeps :
      (d : Draw) (session_id : Text) (j : Option BonsaiSession) (b : Option Bytes)
      → lookup d.uuid s.snark_requests ≡ none
      → Keeps Given s (wrap_with d session_id s j b).0
  wrap-Keeps d i none b e = same-Keeps
  wrap-Keeps d i (some j) none e = same-Keeps
  wrap-Keeps d i (some j) (some b) e =
      reply-Keeps d.uuid
        (record s { snark_requests = insert d.uuid (new_snark d i j.image_id) s.snark_requests })
        (route_risc0_proof d.serves d.mock_mode d.request_id [] [] Risc0ProofMode.groth16 (some b))
        record {
          sessions = λ k j h. h;
          receipts = λ k b h. inl h;
          stored = λ k h. h;
          snarks = λ k v h. fresh-kept d.uuid k (new_snark d i j.image_id) v s.snark_requests e h;
          wrapped = refl;
        }

pub Upload-Keeps :
    {D : Type 0} (f : Bytes → Option D) (Given : Text → Bytes → Type 0) (s t : BonsaiInner)
    → Upload f Given s t
    → Keeps Given s t
unfolding handle_image_put handle_input_put handle_receipt_put handle_session_create
    handle_snark_create
Upload-Keeps f G s _ (image_put k b) = image-Keeps G s f _ b (f b)
Upload-Keeps f G s _ (input_put k b) = record {
  sessions = λ k j h. h;
  receipts = λ k b h. inl h;
  stored = λ k h. h;
  snarks = λ k j h. h;
  wrapped = refl;
}
Upload-Keeps f G s _ (receipt_put u v g) = record {
  sessions = λ k j h. h;
  receipts = λ k b h. insert-given G u k v b s.receipts g h;
  stored = λ k h. insert-stored u k v s.receipts h;
  snarks = λ k j h. h;
  wrapped = refl;
}
Upload-Keeps f G s _ (session_create d q e) = create-Keeps G s d q _ _ e
Upload-Keeps f G s _ (snark_create d i e) = wrap-Keeps G s d i _ _ e
