-- ===== src/OpenVmWorker/Calls.antt =====
-- One round trip with the worker: what the caller gets of the frames that the worker sends.
use hierophant.Prelude.{
  ℕ, ◌≡◌, ◌≤◌, refl, append_nil, or_else, ap, sym, ◌∙◌, true, Option, none, some, List, [], ◌∷◌,
  ◌++◌, zero, suc, length, arith, length-append, subst,
}
use hierophant.Network.{Bytes}
use hierophant.OpenVmWorker.{
  WorkerRequest, WorkerResponse, size, is_terminal, proof, verify_ok, version_is, err, write_frame,
  read_frame, transport_error, responded, read_responses, call, heard, stream_after,
}
use hierophant.OpenVmWorker.Frames.{read_frame-write_frame, write_frame-length, read_frame-length}

module _ (deserialize : Bytes → Option WorkerResponse) where
  responses_of_nothing : (n : ℕ) → read_responses deserialize n [] ≡ (transport_error, [])
  unfolding read_responses read_frame
  responses_of_nothing zero = refl
  responses_of_nothing (suc n) = refl

  same_responses :
      (n m : ℕ) (s : Bytes)
      → length s ≤ n
      → length s ≤ m
      → read_responses deserialize n s ≡ read_responses deserialize m s
  unfolding read_responses
  same_responses n m [] h g = responses_of_nothing n ∙ sym (responses_of_nothing m)
  same_responses zero m (b ∷ s) h g = absurd (omega (arith, h))
  same_responses (suc n) zero (b ∷ s) h g = absurd (omega (arith, g))
  same_responses (suc n) (suc m) (b ∷ s) h g =
      let frame = read_frame deserialize (b ∷ s) in
      ap (λ r. heard deserialize r frame)
        (same_responses n m (stream_after frame)
          (omega (arith, h, read_frame-length deserialize (b ∷ s)))
          (omega (arith, g, read_frame-length deserialize (b ∷ s))))

  -- Fuel for the length of the stream is enough: more of it changes nothing.
  read_responses-fuel :
      (n : ℕ) (s : Bytes)
      → length s ≤ n
      → read_responses deserialize n s ≡ read_responses deserialize (length s) s
  read_responses-fuel n s h = same_responses n (length s) s h (omega arith)

  read_terminal :
      (n : ℕ) (t : WorkerResponse) (f s : Bytes)
      → is_terminal t ≡ true
      → read_frame deserialize s ≡ some (t, f)
      → read_responses deserialize (suc n) s ≡ (responded t, [])
  unfolding read_responses
  read_terminal n (proof b) f s h e = rw e
  read_terminal n verify_ok f s h e = rw e
  read_terminal n (version_is b) f s h e = rw e
  read_terminal n (err b) f s h e = rw e
  read_terminal n (size k) f s h e = absurd cc

  read_size :
      (n k : ℕ) (f s : Bytes)
      → read_frame deserialize s ≡ some (size k, f)
      → read_responses deserialize (suc n) s
        ≡ ((read_responses deserialize n f).0, k ∷ (read_responses deserialize n f).1)
  unfolding read_responses
  read_size n k f s e = rw e

  module _ (serialize : WorkerResponse → Option Bytes) where
    -- The worker's frames: the sizes, and then a response. None where one cannot be written.
    abbrev pub joined : Option Bytes → Option Bytes → Option Bytes
    joined none s = none
    joined (some f) none = none
    joined (some f) (some s) = some (f ++ s)

    unfoldable pub send_all : List ℕ → WorkerResponse → Option Bytes
    send_all [] t = write_frame serialize t
    send_all (n ∷ ns) t = joined (write_frame serialize (size n)) (send_all ns t)

    abbrev pub Agree : Type 0
    Agree =
        (m : WorkerResponse) (bytes : Bytes) → serialize m ≡ some bytes → deserialize bytes ≡ some m

    module _ (agree : Agree) (t : WorkerResponse) (terminal : is_terminal t ≡ true) where
      read_last :
          (n : ℕ) (s : Bytes)
          → write_frame serialize t ≡ some s
          → length s ≤ n
          → read_responses deserialize n s ≡ (responded t, [])
      read_last zero s h l = absurd (omega (arith, l, write_frame-length serialize t s h))
      read_last (suc n) s h l = read_terminal n t [] s terminal (
          subst (λ u. read_frame deserialize u ≡ some (t, [])) (append_nil s)
            (read_frame-write_frame serialize deserialize t s [] (agree t) h))

      read_joined :
          (n k : ℕ) (ns : List ℕ) (f u : Option Bytes) (s : Bytes)
          → write_frame serialize (size k) ≡ f
          → ((m : ℕ) (v : Bytes)
              → u ≡ some v
              → length v ≤ m
              → read_responses deserialize m v ≡ (responded t, ns))
          → joined f u ≡ some s
          → length s ≤ n
          → read_responses deserialize n s ≡ (responded t, k ∷ ns)
      read_joined n k ns none u s w ih h l = absurd cc
      read_joined n k ns (some f) none s w ih h l = absurd cc
      read_joined zero k ns (some f) (some v) s w ih h l = absurd (
          omega (
            arith,
            l,
            ap (λ o. length (or_else [] o)) h,
            length-append f v,
            write_frame-length serialize (size k) f w,
          ))
      read_joined (suc n) k ns (some f) (some v) s w ih h l =
          let fits : length v ≤ n = omega (
            arith,
            l,
            ap (λ o. length (or_else [] o)) h,
            length-append f v,
            write_frame-length serialize (size k) f w,
          ) in
          subst (λ u. read_responses deserialize (suc n) u ≡ (responded t, k ∷ ns))
            (ap (or_else []) h)
            (rw (
              read_size n k v (f ++ v)
                  (read_frame-write_frame serialize deserialize (size k) f v (agree (size k)) w),
              ih n v refl fits,
            ))

      read_sent :
          (ns : List ℕ) (n : ℕ) (s : Bytes)
          → send_all ns t ≡ some s
          → length s ≤ n
          → read_responses deserialize n s ≡ (responded t, ns)
      unfolding send_all
      read_sent [] n s h l = read_last n s h l
      read_sent (k ∷ ns) n s h l =
          read_joined n k ns (write_frame serialize (size k)) (send_all ns t) s refl (read_sent ns)
            h l

      -- A call returns the response that the worker ends with, and hands on every size that the
      -- worker sent before it, in their order: where the request can be written, the worker answers
      -- it with the frames of the sizes and of a response that is no size, and the serializer and
      -- the deserializer agree.
      pub call_lem :
          (serialize_request : WorkerRequest → Option Bytes) (answer : Bytes → Option Bytes)
          (req : WorkerRequest) (frame s : Bytes) (ns : List ℕ)
          → write_frame serialize_request req ≡ some frame
          → answer frame ≡ some s
          → send_all ns t ≡ some s
          → call deserialize serialize_request answer req ≡ (responded t, ns)
      unfolding call
      call_lem serialize_request answer req frame s ns w a h =
          rw (w, a) (read_sent ns (length s) s h (omega arith))
