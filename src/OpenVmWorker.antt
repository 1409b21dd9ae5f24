-- ===== src/OpenVmWorker.antt =====
-- The wire of the worker subprocess (src/openvm-worker-proto/src/lib.rs): the messages, their frames,
-- and one round trip. A stream is the list of the bytes that are still to be read. The serializer is
-- a library, and a parameter.
pub mod Frames
pub mod Calls
use hierophant.Prelude.{
  ℕ, ◌+◌, ◌*◌, ◌/◌, ◌%◌, String, Bool, true, false, Option, none, some, List, [], ◌∷◌, ◌++◌, zero,
  suc, length, ltb, leb, if◌then◌else◌, not,
}
use hierophant.Network.{Bytes}

pub data ProofMode : Type 0 where
  app stark evm : ProofMode

pub data WorkerRequest : Type 0 where
  prove :
      (request_id : String) (mode : ProofMode) (elf : Bytes) (app_config_toml : Option String)
      (input : List Bytes) (with_total : Bool)
      → WorkerRequest
  verify :
      (mode : ProofMode) (elf : Bytes) (app_config_toml : Option String) (proof_bytes : Bytes)
      → WorkerRequest
  version : WorkerRequest

pub data WorkerResponse : Type 0 where
  proof : Bytes → WorkerResponse
  verify_ok : WorkerResponse
  version_is : String → WorkerResponse
  err : String → WorkerResponse
  size : (segments : ℕ) → WorkerResponse

abbrev pub is_terminal : WorkerResponse → Bool
is_terminal (size segments) = false
is_terminal _ = true

-- `u32::to_le_bytes`
abbrev pub to_le_bytes : ℕ → Bytes
to_le_bytes n = n % 256 ∷ n / 256 % 256 ∷ n / 65536 % 256 ∷ n / 16777216 % 256 ∷ []

abbrev pub max_frame_bytes : ℕ
max_frame_bytes = 1073741824

-- What is left of the stream after a read.
abbrev pub stream_after {ℓ} : {T : Type ℓ} → Option (T × Bytes) → Bytes
stream_after none = []
stream_after (some (r, t)) = t

abbrev pub with_byte : ℕ → Option (Bytes × Bytes) → Option (Bytes × Bytes)
with_byte b none = none
with_byte b (some (bs, t)) = some (b ∷ bs, t)

-- `read_exact`: the first `n` bytes, and the rest of the stream; none where the stream ends before.
unfoldable pub read_exact : ℕ → Bytes → Option (Bytes × Bytes)
read_exact zero s = some ([], s)
read_exact (suc n) [] = none
read_exact (suc n) (b ∷ s) = with_byte b (read_exact n s)

module _ {ℓ} {T : Type ℓ} (serialize : T → Option Bytes) where
  abbrev pub framed : Option Bytes → Option Bytes
  framed none = none
  framed (some bytes) =
      if ltb max_frame_bytes (length bytes)
      then none
      else some (to_le_bytes (length bytes) ++ bytes)

  -- The bytes that are written; a frame over `u32` is over the cap.
  unfoldable pub write_frame : T → Option Bytes
  write_frame msg = framed (serialize msg)

module _ {ℓ} {T : Type ℓ} (deserialize : Bytes → Option T) where
  abbrev pub with_rest : Bytes → Option T → Option (T × Bytes)
  with_rest s none = none
  with_rest s (some t) = some (t, s)

  abbrev pub parsed : Option (Bytes × Bytes) → Option (T × Bytes)
  parsed none = none
  parsed (some (bytes, s)) = with_rest s (deserialize bytes)

  -- A length over the cap is an error.
  unfoldable pub read_frame : Bytes → Option (T × Bytes)
  unfolding read_exact
  read_frame (a ∷ b ∷ c ∷ d ∷ s) =
      let len = a + b * 256 + c * 65536 + d * 16777216 in
      if ltb max_frame_bytes len then none else parsed (read_exact len s)
  read_frame _ = none

-- What a round trip brings: the transport fails, or a response, with the sizes that came before.
pub data CallResult : Type 0 where
  transport_error : CallResult
  responded : WorkerResponse → CallResult

module _ (deserialize : Bytes → Option WorkerResponse) where
  abbrev pub heard : CallResult × List ℕ → Option (WorkerResponse × Bytes) → CallResult × List ℕ
  heard rest none = (transport_error, [])
  heard rest (some (size segments, t)) = (rest.0, segments ∷ rest.1)
  heard rest (some (terminal, t)) = (responded terminal, [])

  -- Reads frames until one is terminal, and says which sizes came before it. Each frame takes four
  -- bytes at least, so that the length of the stream is fuel enough.
  unfoldable pub read_responses : (fuel : ℕ) → Bytes → CallResult × List ℕ
  unfolding read_frame
  read_responses zero s = (transport_error, [])
  read_responses (suc n) s =
      let frame = read_frame deserialize s in
      let rest = read_responses n (stream_after frame) in heard rest frame

  module _ (serialize : WorkerRequest → Option Bytes) where
    abbrev pub of_stream : Option Bytes → CallResult × List ℕ
    of_stream none = (transport_error, [])
    of_stream (some s) = read_responses (length s) s

    abbrev pub sent : (Bytes → Option Bytes) → Option Bytes → CallResult × List ℕ
    sent answer none = (transport_error, [])
    sent answer (some frame) = of_stream (answer frame)

    -- `answer` is what the worker sends back on the bytes it reads; none is a failed connection.
    unfoldable pub call : (answer : Bytes → Option Bytes) → WorkerRequest → CallResult × List ℕ
    unfolding write_frame
    call answer req = sent answer (write_frame serialize req)
