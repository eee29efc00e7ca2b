-- ===== src/Wire.antt =====
-- wire.rs: framing of messages over an encrypted byte stream. The Noise transport (snow) and the
-- byte stream are other code: a transport encrypts and decrypts one chunk at a time.
pub mod RoundTrip
use agora_protocol.Base.{
  ℕ, zero, suc, ◌+◌, ◌-◌, ◌*◌, ◌/◌, ◌%◌, ◌≤◌, ◌≡◌, Bool, true, false, List, [], ◌∷◌, ◌++◌, Option,
  none, some, Bytes, length, take, drop, ltb, leb, is_empty, if◌then◌else◌,
}
use agora_protocol.Base.Result.{Result, ok, err, ◌>>=◌}

-- `FRAME`
abbrev pub frame_max : ℕ
frame_max = 65535

-- `TAG`
abbrev pub tag : ℕ
tag = 16

-- `MAX_MSG`
abbrev pub max_msg : ℕ
max_msg = 1048576

pub data WireError : Type 0 where
  message_too_large noise closed : WireError

-- A transport in one direction: the states of the two ends that are in step are `Paired`. What is
-- encrypted at one end is decrypted at the other, it is 16 bytes longer, and the ends stay in step.
pub record Transport : Type 1 where
  pub Sender : Type 0
  pub Receiver : Type 0
  pub write_message : Sender → Bytes → Option (Bytes × Sender)
  pub read_message : Receiver → Bytes → Option (Bytes × Receiver)
  pub Paired : Sender → Receiver → Type 0
  pub delivers :
      (s : Sender) (r : Receiver) (chunk : Bytes)
      → Paired s r
      → length chunk + tag ≤ frame_max
      → (sealed : Bytes) × (s' : Sender) × (r' : Receiver) × (write_message s chunk
          ≡ some (sealed, s'))
        × (length sealed ≡ length chunk + tag)
        × (read_message r sealed ≡ some (chunk, r'))
        × Paired s' r'

-- `to_be_bytes` of a `u16` and of a `u32`, and `from_be_bytes`.
unfoldable pub u16_bytes : ℕ → Bytes
u16_bytes n = n / 256 % 256 ∷ n % 256 ∷ []

unfoldable pub u32_bytes : ℕ → Bytes
u32_bytes n = n / 16777216 % 256 ∷ n / 65536 % 256 ∷ n / 256 % 256 ∷ n % 256 ∷ []

unfoldable pub from_bytes : ℕ → Bytes → ℕ
from_bytes acc [] = acc
from_bytes acc (b ∷ bs) = from_bytes (acc * 256 + b) bs

-- `write_frame`: the length as a `u16` and the bytes.
unfoldable pub write_frame : Bytes → Bytes
unfolding u16_bytes
write_frame d = u16_bytes (length d % 65536) ++ d

-- `read_frame` from a stream that ends: the frame and the stream behind it.
unfoldable pub read_frame : Bytes → Option (Bytes × Bytes)
read_frame [] = none
read_frame (a ∷ []) = none
read_frame (a ∷ b ∷ r) =
    if ltb (length r) (a * 256 + b) then none else some (take (a * 256 + b) r, drop (a * 256 + b) r)

-- `chunks(n)`; the fuel is the number of bytes.
chunks_from : ℕ → ℕ → Bytes → List Bytes
chunks_from zero n d = []
chunks_from (suc f) n [] = []
chunks_from (suc f) n (b ∷ d) = take n (b ∷ d) ∷ chunks_from f n (drop n (b ∷ d))

unfoldable pub chunks : ℕ → Bytes → List Bytes
unfolding chunks_from
chunks n d = chunks_from (length d) n d

pub data Parsed : Type 0 where
  more too_large : Parsed
  message : Bytes → Bytes → Parsed

sized : ℕ → Bytes → Parsed
sized n plain =
    if ltb max_msg n
    then too_large
    else if leb (4 + n) (length plain)
    then message (take n (drop 4 plain)) (drop (4 + n) plain)
    else more

-- What `recv` finds in the bytes that were decrypted.
unfoldable pub parsed : Bytes → Parsed
unfolding sized
parsed plain = if leb 4 (length plain) then sized (from_bytes 0 (take 4 plain)) plain else more

module _ (t : Transport) where
  open t use {Sender, Receiver, write_message, read_message}

  after_frame : Bytes → Option (Bytes × Sender) → Result WireError (Bytes × Sender)
  after_frame rest none = err noise
  after_frame rest (some (sealed, s)) = ok (write_frame sealed ++ rest, s)

  -- The loop of `Writer::send` over the chunks: what is written to the stream.
  unfoldable pub send_chunks : List Bytes → Sender → Result WireError (Bytes × Sender)
  send_chunks [] s = ok ([], s)
  send_chunks (c ∷ cs) s = elim (write_message s c) [
    | none ↦ err noise
    | some (sealed, s') ↦ elim (send_chunks cs s') [
      | err e ↦ err e
      | ok (out, s'') ↦ ok (write_frame sealed ++ out, s'')
    ]
  ]

  -- `Writer::send`
  unfoldable pub send : Bytes → Sender → Result WireError (Bytes × Sender)
  send msg s =
      if ltb max_msg (length msg)
      then err message_too_large
      else send_chunks (chunks (frame_max - tag) (u32_bytes (length msg % 4294967296) ++ msg)) s

  -- `Reader::recv`: the message, the receiver, the decrypted rest and the rest of the stream. A turn
  -- takes two bytes of the stream or more, so its length is fuel enough.
  unfoldable pub recv :
      ℕ → Receiver → Bytes → Bytes → Result WireError (Bytes × Receiver × Bytes × Bytes)
  recv zero r plain stream = elim (parsed plain) [
    | message m rest ↦ ok (m, r, rest, stream)
    | too_large ↦ err message_too_large
    | more ↦ err closed
  ]
  recv (suc fuel) r plain stream = elim (parsed plain) [
    | message m rest ↦ ok (m, r, rest, stream)
    | too_large ↦ err message_too_large
    | more ↦ elim (read_frame stream) [
      | none ↦ err closed
      | some (frame, later) ↦ elim (read_message r frame) [
        | none ↦ err noise
        | some (d, r') ↦ recv fuel r' (plain ++ d) later
      ]
    ]
  ]
