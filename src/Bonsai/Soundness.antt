-- ===== src/Bonsai/Soundness.antt =====
-- Where the receipts that can be downloaded come from, whatever polls, uploads, sessions and wraps
-- came before.
use hierophant.Prelude.{◌≡◌, ◌⊎◌, refl, String, true, false, Option, none, some, List, [], inl, inr}
use hierophant.Prelude.Dict.{lookup}
use hierophant.Prelude.Texts.{Text, text_eq}
use hierophant.Network.{Bytes}
use hierophant.Jobs.{valid}
use hierophant.Jobs.Runs.{Once, Traffic, Run, IsChecked}
use hierophant.Jobs.Soundness.{Run-founded}
use hierophant.Bonsai.{
  BonsaiSession, SnarkState, BonsaiInner, new, handle_receipt_download,
  handle_snark_receipt_download,
}
use hierophant.Bonsai.Status.{
  Decoded, ok, error, digest_of, verdict_of, verdict, sessions, snarks, sessions-IsLawful,
  snarks-IsLawful,
}
use hierophant.Bonsai.Around.{AroundSessions, AroundSnarks, sessions-IsQuiet, snarks-IsQuiet}

module _ {D R : Type 0} (compute_image_id : Bytes → Option D) (deserialize : Bytes → Decoded R)
    (verify_receipt : R → D → Option String) (Given : Text → Bytes → Type 0) where
  -- The bytes are a receipt that verifies against the digest of an image with this id.
  pub record IsVerified (past : List BonsaiInner) (image_id : Text) (b : Bytes) : Type 0 where
    pub receipt : R
    pub digest : D
    pub elf : Bytes
    pub decoded : deserialize b ≡ ok receipt
    pub uploaded : Once past (λ s. lookup image_id s.images ≡ some elf)
    pub computed : compute_image_id elf ≡ some digest
    pub verified : verify_receipt receipt digest ≡ none

  verdict-valid :
      (digest : D) (r : Decoded R)
      → verdict compute_image_id deserialize verify_receipt digest r ≡ valid
      → (x : R) × (r ≡ ok x) × (verify_receipt x digest ≡ none)
  verdict-valid digest (error e) h = absurd cc
  verdict-valid digest (ok x) h = (x, refl, holds (verify_receipt x digest) h)
    where
      holds :
          (o : Option String)
          → verdict_of compute_image_id deserialize verify_receipt o ≡ valid
          → o ≡ none
      holds none g = refl
      holds (some e) g = absurd cc

  image_of :
      (past : List BonsaiInner) (image_id : Text) (digest : D)
      → Once past (λ s.
        digest_of compute_image_id deserialize verify_receipt (lookup image_id s.images)
        ≡ some digest)
      → (elf : Bytes) × Once past (λ s. lookup image_id s.images ≡ some elf)
        × (compute_image_id elf ≡ some digest)
  image_of past i digest o = by_image (lookup i o.at.images) refl o.holds
    where
      by_image :
          (e : Option Bytes)
          → lookup i o.at.images ≡ e
          → digest_of compute_image_id deserialize verify_receipt e ≡ some digest
          → (elf : Bytes) × Once past (λ s. lookup i s.images ≡ some elf)
            × (compute_image_id elf ≡ some digest)
      by_image none g h = absurd cc
      by_image (some elf) g h =
          (elf, record { index = o.index; at = o.at; listed = o.listed; holds = g }, h)

  checked-session :
      (past : List BonsaiInner) (k : Text) (b : Bytes)
      → IsChecked (sessions compute_image_id deserialize verify_receipt) past k b
      → (j : BonsaiSession) × Once past (λ s. lookup k s.sessions ≡ some j)
        × IsVerified past j.image_id b
  unfolding sessions
  checked-session past k b c =
      let v = verdict-valid c.program (deserialize b) c.verified in
      let e = image_of past c.job.image_id c.program c.fetched in
      (
        c.job,
        c.found,
        record {
          receipt = v.0;
          digest = c.program;
          elf = e.0;
          decoded = v.1;
          uploaded = e.1;
          computed = e.2;
          verified = v.2;
        },
      )

  checked-snark :
      (past : List BonsaiInner) (k : Text) (b : Bytes)
      → IsChecked (snarks compute_image_id deserialize verify_receipt) past k b
      → (j : SnarkState) × Once past (λ s. lookup k s.snark_requests ≡ some j)
        × IsVerified past j.image_id b
  unfolding snarks
  checked-snark past k b c =
      let v = verdict-valid c.program (deserialize b) c.verified in
      let e = image_of past c.job.image_id c.program c.fetched in
      (
        c.job,
        c.found,
        record {
          receipt = v.0;
          digest = c.program;
          elf = e.0;
          decoded = v.1;
          uploaded = e.1;
          computed = e.2;
          verified = v.2;
        },
      )

  -- Every receipt that can be downloaded under the name of a session either decodes, and verifies
  -- against the digest of an image that was uploaded under the id that the session names, or a
  -- client has stored it under that name itself. This holds after every sequence of uploads, new
  -- sessions, new wraps, and steps of polls of sessions and of wraps.
  pub handle_receipt_download_lem :
      (d : Traffic Text BonsaiInner BonsaiSession D) (k : Text) (b : Bytes)
      → Run
          (sessions compute_image_id deserialize verify_receipt)
          (AroundSessions compute_image_id deserialize verify_receipt Given)
          (record { state = new; past = []; polls = [] })
          d
      → handle_receipt_download k d.state ≡ some b
      → ((j : BonsaiSession) × Once d.past (λ s. lookup k s.sessions ≡ some j)
          × IsVerified d.past j.image_id b)
        ⊎ Given k b
  unfolding sessions handle_receipt_download
  handle_receipt_download_lem d k b r h =
      elim (Run-founded (sessions compute_image_id deserialize verify_receipt)
        (AroundSessions compute_image_id deserialize verify_receipt Given)
        (sessions-IsLawful compute_image_id deserialize verify_receipt) Given
        (sessions-IsQuiet compute_image_id deserialize verify_receipt Given)
        (record { state = new; past = []; polls = [] }) d k b refl (λ i. refl) r h) [
          | inl c ↦ inl (checked-session d.past k b c)
          | inr g ↦ inr g
        ]

  -- Every wrapped receipt that can be downloaded decodes, and verifies against the digest of an
  -- image that was uploaded under the id that the wrap keeps of its session. This holds after every
  -- sequence of uploads, new sessions, new wraps, and steps of polls of both, whatever clients store
  -- as receipts.
  pub handle_snark_receipt_download_lem :
      (d : Traffic Text BonsaiInner SnarkState D) (k : Text) (b : Bytes)
      → Run
          (snarks compute_image_id deserialize verify_receipt)
          (AroundSnarks compute_image_id deserialize verify_receipt Given)
          (record { state = new; past = []; polls = [] })
          d
      → handle_snark_receipt_download k d.state ≡ some b
      → (j : SnarkState) × Once d.past (λ s. lookup k s.snark_requests ≡ some j)
        × IsVerified d.past j.image_id b
  unfolding snarks handle_snark_receipt_download
  handle_snark_receipt_download_lem d k b r h =
      elim (Run-founded (snarks compute_image_id deserialize verify_receipt)
        (AroundSnarks compute_image_id deserialize verify_receipt Given)
        (snarks-IsLawful compute_image_id deserialize verify_receipt) (λ _ _. true ≡ false)
        (snarks-IsQuiet compute_image_id deserialize verify_receipt Given)
        (record { state = new; past = []; polls = [] }) d k b refl (λ i. refl) r h) [
          | inl c ↦ checked-snark d.past k b c
          | inr g ↦ absurd cc
        ]
