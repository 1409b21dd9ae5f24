-- ===== src/Bonsai/Status.antt =====
-- The two maps of jobs of the Bonsai surface under the shared status poll. The libraries that compute
-- an image's digest, and decode and verify a receipt, are parameters.
use hierophant.Prelude.{◌≡◌, refl, String, Option, none, some, map_some, Bool-cases, inl, inr}
use hierophant.Prelude.Dict.{lookup, insert, modify, lookup-insert, lookup-modify}
use hierophant.Prelude.Texts.{Text, text_eq}
use hierophant.Network.{Bytes}
use hierophant.Jobs.{
  JobError, Surface, Moment, Verdict, valid, invalid, unverified, Advance, status,
}
use hierophant.Jobs.Machine.{IsLawful}
use hierophant.Bonsai.{BonsaiSession, SnarkState, BonsaiInner}

-- What a decoder makes of bytes.
pub data Decoded (R : Type 0) : Type 0 where
  ok : R → Decoded R
  error : String → Decoded R

abbrev pub error_of : {R : Type 0} → Decoded R → Option String
error_of (ok r) = none
error_of (error e) = some e

abbrev pub fail_session : JobError → BonsaiSession → BonsaiSession
fail_session e j = record j { terminal_error = some e }

abbrev pub fail_snark : JobError → SnarkState → SnarkState
fail_snark e j = record j { terminal_error = some e }

module _ {D R : Type 0} (compute_image_id : Bytes → Option D) (deserialize : Bytes → Decoded R)
    (verify_receipt : R → D → Option String) where
  -- The digest of an image that is there.
  abbrev pub digest_of : Option Bytes → Option D
  digest_of none = none
  digest_of (some elf) = compute_image_id elf

  abbrev pub verdict_of : Option String → Verdict
  verdict_of none = valid
  verdict_of (some e) = invalid e

  abbrev pub verdict : D → Decoded R → Verdict
  verdict digest (ok r) = verdict_of (verify_receipt r digest)
  verdict digest (error e) = unverified

  unfoldable pub sessions : Surface Text BonsaiInner BonsaiSession D
  sessions = record {
    job = λ k s. lookup k s.sessions;
    request_id = λ j. j.request_id;
    terminal_error = λ j. j.terminal_error;
    proof = λ k s. lookup k s.receipts;
    set_terminal_error = λ k e s. record s { sessions = modify k (fail_session e) s.sessions };
    insert_proof = λ k b s. record s { receipts = insert k b s.receipts };
    malformed = λ b. error_of (deserialize b);
    program = λ j s. digest_of (lookup j.image_id s.images);
    verify = λ m j digest b. verdict digest (deserialize b);
  }

  unfoldable pub snarks : Surface Text BonsaiInner SnarkState D
  snarks = record {
    job = λ k s. lookup k s.snark_requests;
    request_id = λ j. j.request_id;
    terminal_error = λ j. j.terminal_error;
    proof = λ k s. lookup k s.snark_receipts;
    set_terminal_error =
        λ k e s. record s { snark_requests = modify k (fail_snark e) s.snark_requests };
    insert_proof = λ k b s. record s { snark_receipts = insert k b s.snark_receipts };
    malformed = λ b. error_of (deserialize b);
    program = λ j s. digest_of (lookup j.image_id s.images);
    verify = λ m j digest b. verdict digest (deserialize b);
  }

  unfoldable pub handle_session_status :
      Moment → (session_id : Text) → BonsaiInner → Advance BonsaiInner BonsaiSession D
  unfolding sessions
  handle_session_status m session_id s = status sessions m session_id s

  unfoldable pub handle_snark_status :
      Moment → (snark_id : Text) → BonsaiInner → Advance BonsaiInner SnarkState D
  unfolding snarks
  handle_snark_status m snark_id s = status snarks m snark_id s

module _ {D R : Type 0} (compute_image_id : Bytes → Option D) (deserialize : Bytes → Decoded R)
    (verify_receipt : R → D → Option String) where
  session_errors :
      (e : JobError) (o : Option BonsaiSession)
      → map_some (λ j. j.terminal_error) (map_some (fail_session e) o) ≡ map_some (λ _. some e) o
  session_errors e none = refl
  session_errors e (some j) = refl

  snark_errors :
      (e : JobError) (o : Option SnarkState)
      → map_some (λ j. j.terminal_error) (map_some (fail_snark e) o) ≡ map_some (λ _. some e) o
  snark_errors e none = refl
  snark_errors e (some j) = refl

  pub sessions-IsLawful : IsLawful (sessions compute_image_id deserialize verify_receipt)
  unfolding sessions
  sessions-IsLawful = record {
    job-insert_proof = λ k i b s. refl;
    error-set_terminal_error = λ k i e s. elim (Bool-cases (text_eq.beq k i)) [
      | inl t ↦
          rw (lookup-modify k i (fail_session e) s.sessions, t)
            (session_errors e (lookup i s.sessions))
      | inr t ↦ rw (lookup-modify k i (fail_session e) s.sessions, t)
    ];
    proof-insert_proof = λ k i b s. lookup-insert k i b s.receipts;
    proof-set_terminal_error = λ k i e s. refl;
  }

  pub snarks-IsLawful : IsLawful (snarks compute_image_id deserialize verify_receipt)
  unfolding snarks
  snarks-IsLawful = record {
    job-insert_proof = λ k i b s. refl;
    error-set_terminal_error = λ k i e s. elim (Bool-cases (text_eq.beq k i)) [
      | inl t ↦
          rw (lookup-modify k i (fail_snark e) s.snark_requests, t)
            (snark_errors e (lookup i s.snark_requests))
      | inr t ↦ rw (lookup-modify k i (fail_snark e) s.snark_requests, t)
    ];
    proof-insert_proof = λ k i b s. lookup-insert k i b s.snark_receipts;
    proof-set_terminal_error = λ k i e s. refl;
  }
