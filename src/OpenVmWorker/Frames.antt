-- ===== src/OpenVmWorker/Frames.antt =====
-- A frame that is written is read back, whatever follows it on the stream.
use hierophant.Prelude.{
  ℕ, ◌≡◌, ◌≤◌, ◌<◌, ◌+◌, ◌*◌, ◌/◌, ◌%◌, ◌-◌, refl, ap, subst, or_else, false, Option, none, some,
  [], ◌∷◌, ◌++◌, zero, suc, length, ltb, Bool-cases, inl, inr, arith,
}
use hierophant.Network.{Bytes}
use hierophant.OpenVmWorker.{
  to_le_bytes, max_frame_bytes, read_exact, framed, write_frame, with_rest, parsed, read_frame,
  stream_after, with_byte,
}

le_value :
    (n : ℕ)
    → n < 4294967296
    → n % 256 + n / 256 % 256 * 256 + n / 65536 % 256 * 65536 + n / 16777216 % 256 * 16777216 ≡ n
le_value n h = omega (arith, h)

read_exact-append : (bs s : Bytes) → read_exact (length bs) (bs ++ s) ≡ some (bs, s)
unfolding read_exact
read_exact-append [] s = refl
read_exact-append (b ∷ bs) s = rw (read_exact-append bs s)

read_frame-le {ℓ} :
    {T : Type ℓ} (deserialize : Bytes → Option T) (n : ℕ) (s : Bytes)
    → ltb max_frame_bytes n ≡ false
    → read_frame deserialize (to_le_bytes n ++ s) ≡ parsed deserialize (read_exact n s)
unfolding read_frame
read_frame-le deserialize n s h = rw (le_value n (ground (arith, h)), h)

module _ {ℓ} {T : Type ℓ} (serialize : T → Option Bytes) (deserialize : Bytes → Option T) where
  framed-read :
      (msg : T) (b : Option Bytes) (frame s : Bytes)
      → serialize msg ≡ b
      → ((bytes : Bytes) → serialize msg ≡ some bytes → deserialize bytes ≡ some msg)
      → framed serialize b ≡ some frame
      → read_frame deserialize (frame ++ s) ≡ some (msg, s)
  framed-read msg none frame s e d h = absurd cc
  framed-read msg (some b) frame s e d h = elim (Bool-cases (ltb max_frame_bytes (length b))) [
    | inl t ↦ absurd (let g = rw t at h in cc)
    | inr t ↦
        subst (λ f. read_frame deserialize (f ++ s) ≡ some (msg, s)) (ap (or_else []) (rw t at h))
          (rw (read_frame-le deserialize (length b) (b ++ s) t, read_exact-append b s, d b e))
  ]

  -- Where the serializer and the deserializer agree on a message, a frame of it that was written is
  -- read back as the message, and leaves the rest of the stream.
  pub read_frame-write_frame :
      (msg : T) (frame s : Bytes)
      → ((bytes : Bytes) → serialize msg ≡ some bytes → deserialize bytes ≡ some msg)
      → write_frame serialize msg ≡ some frame
      → read_frame deserialize (frame ++ s) ≡ some (msg, s)
  unfolding write_frame
  read_frame-write_frame msg frame s d h = framed-read msg (serialize msg) frame s refl d h

framed-length {ℓ} :
    {T : Type ℓ} (serialize : T → Option Bytes) (b : Option Bytes) (f : Bytes)
    → framed serialize b ≡ some f
    → 4 ≤ length f
framed-length serialize none f h = absurd cc
framed-length serialize (some b) f h = elim (Bool-cases (ltb max_frame_bytes (length b))) [
  | inl t ↦ absurd (let g = rw t at h in cc)
  | inr t ↦ subst (λ g. 4 ≤ length g) (ap (or_else []) (rw t at h)) (omega arith)
]

-- A frame has four bytes at least.
pub write_frame-length {ℓ} :
    {T : Type ℓ} (serialize : T → Option Bytes) (msg : T) (f : Bytes)
    → write_frame serialize msg ≡ some f
    → 4 ≤ length f
unfolding write_frame
write_frame-length serialize msg f h = framed-length serialize (serialize msg) f h

with_byte-length :
    (b : ℕ) (o : Option (Bytes × Bytes))
    → length (stream_after (with_byte b o)) ≡ length (stream_after o)
with_byte-length b none = refl
with_byte-length b (some (bs, t)) = refl

read_exact-length : (n : ℕ) (s : Bytes) → length (stream_after (read_exact n s)) ≤ length s
unfolding read_exact
read_exact-length zero s = omega arith
read_exact-length (suc n) [] = omega arith
read_exact-length (suc n) (b ∷ s) =
    omega (arith, with_byte-length b (read_exact n s), read_exact-length n s)

module _ {ℓ} {T : Type ℓ} (deserialize : Bytes → Option T) where
  with_rest-length :
      (s : Bytes) (t : Option T) → length (stream_after (with_rest deserialize s t)) ≤ length s
  with_rest-length s none = omega arith
  with_rest-length s (some t) = omega arith

  parsed-length :
      (r : Option (Bytes × Bytes))
      → length (stream_after (parsed deserialize r)) ≤ length (stream_after r)
  parsed-length none = omega arith
  parsed-length (some (b, s)) = with_rest-length s (deserialize b)

  -- A frame that is read takes four bytes at least from the stream.
  pub read_frame-length :
      (s : Bytes) → length (stream_after (read_frame deserialize s)) ≤ length s - 4
  unfolding read_frame
  read_frame-length [] = omega arith
  read_frame-length (a ∷ []) = omega arith
  read_frame-length (a ∷ b ∷ []) = omega arith
  read_frame-length (a ∷ b ∷ c ∷ []) = omega arith
  read_frame-length (a ∷ b ∷ c ∷ d ∷ s) =
      let len = a + b * 256 + c * 65536 + d * 16777216 in
      ground (arith, parsed-length (read_exact len s), read_exact-length len s)

  pub read_frame-empty : read_frame deserialize [] ≡ none
  unfolding read_frame
  read_frame-empty = refl
