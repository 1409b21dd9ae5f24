-- ===== src/Bonsai/Around.antt =====
-- What the polls of sessions see of everything else, and the polls of wraps.
use hierophant.Prelude.{◌≡◌, ◌⊎◌, refl, String, true, false, Option, some, is_some, inl}
use hierophant.Prelude.Dict.{lookup}
use hierophant.Prelude.Texts.{Text, text_eq}
use hierophant.Network.{Bytes}
use hierophant.Jobs.{
  Moment, Poll, look, check, ask, fail, fetch, verifying, condemn, complete, store, answered,
  advance,
}
use hierophant.Jobs.Runs.{IsQuiet}
use hierophant.Bonsai.{BonsaiSession, SnarkState, BonsaiInner}
use hierophant.Bonsai.Status.{Decoded, sessions, snarks}
use hierophant.Bonsai.Changes.{Upload, Upload-Keeps}

module _ {D R : Type 0} (compute_image_id : Bytes → Option D) (deserialize : Bytes → Decoded R)
    (verify_receipt : R → D → Option String) (Given : Text → Bytes → Type 0) where
  -- To the polls of sessions, the steps of polls of wraps are changes, and the other way round.
  pub data AroundSessions (s : BonsaiInner) : BonsaiInner → Type 0 where
    upload : {t : BonsaiInner} → Upload compute_image_id Given s t → AroundSessions s t
    snark_step :
        (m : Moment) (k : Text) (p : Poll SnarkState D)
        → AroundSessions s
            (advance (snarks compute_image_id deserialize verify_receipt) m k s p).state

  pub data AroundSnarks (s : BonsaiInner) : BonsaiInner → Type 0 where
    upload : {t : BonsaiInner} → Upload compute_image_id Given s t → AroundSnarks s t
    session_step :
        (m : Moment) (k : Text) (p : Poll BonsaiSession D)
        → AroundSnarks s
            (advance (sessions compute_image_id deserialize verify_receipt) m k s p).state

  snark_step-frame :
      (m : Moment) (k : Text) (s : BonsaiInner) (p : Poll SnarkState D)
      → let t = (advance (snarks compute_image_id deserialize verify_receipt) m k s p).state in
        (t.sessions ≡ s.sessions) × (t.receipts ≡ s.receipts)
  unfolding advance snarks
  snark_step-frame m k s look = (refl, refl)
  snark_step-frame m k s (check j) = (refl, refl)
  snark_step-frame m k s (ask j) = (refl, refl)
  snark_step-frame m k s (fail e) = (refl, refl)
  snark_step-frame m k s (fetch j b) = (refl, refl)
  snark_step-frame m k s (verifying j v b) = (refl, refl)
  snark_step-frame m k s (condemn j e) = (refl, refl)
  snark_step-frame m k s (complete j b) = (refl, refl)
  snark_step-frame m k s (store j b) = (refl, refl)
  snark_step-frame m k s (answered a) = (refl, refl)

  session_step-frame :
      (m : Moment) (k : Text) (s : BonsaiInner) (p : Poll BonsaiSession D)
      → let t = (advance (sessions compute_image_id deserialize verify_receipt) m k s p).state in
        (t.snark_requests ≡ s.snark_requests) × (t.snark_receipts ≡ s.snark_receipts)
  unfolding advance sessions
  session_step-frame m k s look = (refl, refl)
  session_step-frame m k s (check j) = (refl, refl)
  session_step-frame m k s (ask j) = (refl, refl)
  session_step-frame m k s (fail e) = (refl, refl)
  session_step-frame m k s (fetch j b) = (refl, refl)
  session_step-frame m k s (verifying j v b) = (refl, refl)
  session_step-frame m k s (condemn j e) = (refl, refl)
  session_step-frame m k s (complete j b) = (refl, refl)
  session_step-frame m k s (store j b) = (refl, refl)
  session_step-frame m k s (answered a) = (refl, refl)

  around_job :
      (s t : BonsaiInner) (k : Text) (j : BonsaiSession)
      → AroundSessions s t
      → lookup k s.sessions ≡ some j
      → lookup k t.sessions ≡ some j
  around_job s t k j (upload u) h = (Upload-Keeps compute_image_id Given s t u).sessions k j h
  around_job s _ k j (snark_step m i p) h = rw ((snark_step-frame m i s p).0) h

  around_stored :
      (s t : BonsaiInner) (k : Text)
      → AroundSessions s t
      → is_some (lookup k s.receipts) ≡ true
      → is_some (lookup k t.receipts) ≡ true
  around_stored s t k (upload u) h = (Upload-Keeps compute_image_id Given s t u).stored k h
  around_stored s _ k (snark_step m i p) h = rw ((snark_step-frame m i s p).1) h

  around-Given :
      (s t : BonsaiInner) (k : Text) (b : Bytes)
      → AroundSessions s t
      → lookup k t.receipts ≡ some b
      → (lookup k s.receipts ≡ some b) ⊎ Given k b
  around-Given s t k b (upload u) h = (Upload-Keeps compute_image_id Given s t u).receipts k b h
  around-Given s _ k b (snark_step m i p) h = inl (rw ((snark_step-frame m i s p).1) at h)

  pub sessions-IsQuiet :
      IsQuiet (sessions compute_image_id deserialize verify_receipt) AroundSessions Given
  unfolding sessions
  sessions-IsQuiet = record {
    job-kept = λ {s} {t} k j c h. around_job s t k j c h;
    proof-kept = λ {s} {t} k c h. around_stored s t k c h;
    proof-given = λ {s} {t} k b c h. around-Given s t k b c h;
  }

  -- No client stores a wrapped receipt.
  abbrev pub Nowhere : Text → Bytes → Type 0
  Nowhere k b = true ≡ false

  snark_job :
      (s t : BonsaiInner) (k : Text) (j : SnarkState)
      → AroundSnarks s t
      → lookup k s.snark_requests ≡ some j
      → lookup k t.snark_requests ≡ some j
  snark_job s t k j (upload u) h = (Upload-Keeps compute_image_id Given s t u).snarks k j h
  snark_job s _ k j (session_step m i p) h = rw ((session_step-frame m i s p).0) h

  snark_receipts-same : (s t : BonsaiInner) → AroundSnarks s t → t.snark_receipts ≡ s.snark_receipts
  snark_receipts-same s t (upload u) = (Upload-Keeps compute_image_id Given s t u).wrapped
  snark_receipts-same s _ (session_step m i p) = (session_step-frame m i s p).1

  pub snarks-IsQuiet :
      IsQuiet (snarks compute_image_id deserialize verify_receipt) AroundSnarks Nowhere
  unfolding snarks
  snarks-IsQuiet = record {
    job-kept = λ {s} {t} k j c h. snark_job s t k j c h;
    proof-kept = λ {s} {t} k c h. rw (snark_receipts-same s t c) h;
    proof-given = λ {s} {t} k b c h. inl (rw (snark_receipts-same s t c) at h);
  }
