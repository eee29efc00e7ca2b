-- ===== src/Wire/RoundTrip.antt =====
-- wire.rs: what `send` writes, `recv` reads.
use mathlib.Core.List.{append_assoc, append-nil, flatten}
use agora_protocol.Base.{
  ℕ, zero, suc, ◌+◌, ◌-◌, ◌*◌, ◌/◌, ◌%◌, ◌≤◌, ◌<◌, ◌≡◌, refl, sym, ap, ◌∙◌, subst, true, false,
  List, [], ◌∷◌, ◌++◌, some, Bytes, length, length-append, length-drop, length-take, take, drop,
  take-append, drop-append, take-append-drop, All, ltb, leb, arith,
}
use agora_protocol.Base.Result.{ok, err}
use agora_protocol.Wire.{
  Transport, WireError, frame_max, tag, max_msg, u16_bytes, u32_bytes, from_bytes, write_frame,
  read_frame, chunks_from, chunks, more, message, sized, parsed, send_chunks, send, recv,
}

read_frame-write_frame :
    (d rest : Bytes) → length d ≤ frame_max → read_frame (write_frame d ++ rest) ≡ some (d, rest)
unfolding read_frame write_frame u16_bytes
read_frame-write_frame d rest h =
    let n : (length d % 65536) / 256 % 256 * 256 + length d % 65536 % 256 ≡ length d =
      omega arith in
    rw n (rw (take-append d rest, drop-append d rest) (ground (arith, length-append d rest)))

from_bytes-u32_bytes : (n : ℕ) → n < 4294967296 → from_bytes 0 (u32_bytes n) ≡ n
unfolding from_bytes u32_bytes
from_bytes-u32_bytes n h = omega arith

-- A message behind its length.
abbrev framed : Bytes → Bytes
framed m = u32_bytes (length m) ++ m

take_four : (n : ℕ) (m : Bytes) → take 4 (u32_bytes n ++ m) ≡ u32_bytes n
unfolding u32_bytes
take_four n m = refl

drop_four : (n : ℕ) (m : Bytes) → drop 4 (u32_bytes n ++ m) ≡ m
unfolding u32_bytes
drop_four n m = refl

length_four : (n : ℕ) (m : Bytes) → length (u32_bytes n ++ m) ≡ 4 + length m
unfolding u32_bytes
length_four n m = omega arith

take_all : (m : Bytes) → take (length m) m ≡ m
take_all m = ap (take (length m)) (sym (append-nil m)) ∙ take-append m []

drop_all : (m : Bytes) → drop (length m) m ≡ []
drop_all m = ap (drop (length m)) (sym (append-nil m)) ∙ drop-append m []

sized-message :
    (n : ℕ) (plain : Bytes)
    → n ≤ max_msg
    → 4 + n ≤ length plain
    → sized n plain ≡ message (take n (drop 4 plain)) (drop (4 + n) plain)
unfolding sized
sized-message n plain h l = ground arith

sized-more : (n : ℕ) (plain : Bytes) → n ≤ max_msg → length plain < 4 + n → sized n plain ≡ more
unfolding sized
sized-more n plain h l = ground arith

drop-framed : (m : Bytes) → drop (4 + length m) (framed m) ≡ []
drop-framed m = subst (λ n. drop n (framed m) ≡ []) (length_four (length m) m) (drop_all (framed m))

parsed-framed : (m : Bytes) → length m ≤ max_msg → parsed (framed m) ≡ message m []
unfolding parsed
parsed-framed m h =
    let n : from_bytes 0 (take 4 (framed m)) ≡ length m =
      ap (from_bytes 0) (take_four (length m) m) ∙ from_bytes-u32_bytes (length m) (omega arith) in
    let s : sized (length m) (framed m) ≡ message m [] =
      sized-message (length m) (framed m) h (omega (arith, length_four (length m) m))
      ∙ ap (λ x. message (take (length m) x) (drop (4 + length m) (framed m)))
          (drop_four (length m) m)
      ∙ ap (λ x. message x (drop (4 + length m) (framed m))) (take_all m)
      ∙ ap (message m) (drop-framed m) in
    let b : leb 4 (length (framed m)) ≡ true = ground (arith, length_four (length m) m) in
    rw b (rw n s)

parsed_more :
    (m p q : Bytes) → length m ≤ max_msg → p ++ q ≡ framed m → 0 < length q → parsed p ≡ more
unfolding parsed u32_bytes
parsed_more m [] q h e l = refl
parsed_more m (a ∷ []) q h e l = refl
parsed_more m (a ∷ b ∷ []) q h e l = refl
parsed_more m (a ∷ b ∷ c ∷ []) q h e l = refl
parsed_more m (a ∷ b ∷ c ∷ d ∷ p) q h e l =
    let heads : (a ∷ b ∷ c ∷ d ∷ []) ≡ u32_bytes (length m) = ap (take 4) e in
    let n : from_bytes 0 (a ∷ b ∷ c ∷ d ∷ []) ≡ length m =
      ap (from_bytes 0) heads ∙ from_bytes-u32_bytes (length m) (omega arith) in
    let total : length (a ∷ b ∷ c ∷ d ∷ p) + length q ≡ 4 + length m =
      sym (length-append (a ∷ b ∷ c ∷ d ∷ p) q) ∙ ap length e ∙ length_four (length m) m in
    let f : leb 4 (length (a ∷ b ∷ c ∷ d ∷ p)) ≡ true = ground arith in
    rw f (rw n (sized-more (length m) (a ∷ b ∷ c ∷ d ∷ p) h (omega arith)))

-- A chunk that the transport can carry.
abbrev IsChunk : Bytes → Type 0
IsChunk c = (0 < length c) × (length c ≤ frame_max - tag)

flatten-chunks_from : (f n : ℕ) (d : Bytes) → 0 < n → length d ≤ f → flatten (chunks_from f n d) ≡ d
unfolding chunks_from flatten
flatten-chunks_from zero n [] h l = refl
flatten-chunks_from zero n (b ∷ d) h l = absurd (omega arith)
flatten-chunks_from (suc f) n [] h l = refl
flatten-chunks_from (suc f) n (b ∷ d) h l =
    ap (λ x. take n (b ∷ d) ++ x)
      (flatten-chunks_from f n (drop n (b ∷ d)) h (omega (arith, length-drop n (b ∷ d))))
    ∙ take-append-drop n (b ∷ d)

chunks_from-IsChunk :
    (f n : ℕ) (d : Bytes) → 0 < n → n ≤ frame_max - tag → All IsChunk (chunks_from f n d)
unfolding chunks_from
chunks_from-IsChunk zero n d h l = tt
chunks_from-IsChunk (suc f) n [] h l = tt
chunks_from-IsChunk (suc f) n (b ∷ d) h l = (
  (ground (arith, length-take n (b ∷ d)), ground (arith, length-take n (b ∷ d))),
  chunks_from-IsChunk f n (drop n (b ∷ d)) h l,
)

length-chunks_from : (f n : ℕ) (d : Bytes) → length (chunks_from f n d) ≤ f
unfolding chunks_from
length-chunks_from zero n d = omega arith
length-chunks_from (suc f) n [] = omega arith
length-chunks_from (suc f) n (b ∷ d) = omega (arith, length-chunks_from f n (drop n (b ∷ d)))

module _ (t : Transport) where
  open t use {Sender, Receiver, write_message, read_message, Paired, delivers}

  recv_turn :
      (fuel : ℕ) (r r' : Receiver) (p d sealed later : Bytes)
      → parsed p ≡ more
      → length sealed ≤ frame_max
      → read_message r sealed ≡ some (d, r')
      → recv t (suc fuel) r p (write_frame sealed ++ later) ≡ recv t fuel r' (p ++ d) later
  unfolding recv
  recv_turn fuel r r' p d sealed later e l h =
      rw (recv, e) (rw (read_frame-write_frame sealed later l) (rw h refl))

  send_turn :
      (s s' s'' : Sender) (c sealed out : Bytes) (cs : List Bytes)
      → write_message s c ≡ some (sealed, s')
      → send_chunks t cs s' ≡ ok (out, s'')
      → send_chunks t (c ∷ cs) s ≡ ok (write_frame sealed ++ out, s'')
  unfolding send_chunks
  send_turn s s' s'' c sealed out cs h e = rw (send_chunks, h) (rw e refl)

  recv_done :
      (fuel : ℕ) (r : Receiver) (p m rest : Bytes)
      → parsed p ≡ message m []
      → recv t fuel r p rest ≡ ok (m, r, [], rest)
  unfolding recv
  recv_done zero r p m rest e = rw (recv, e) refl
  recv_done (suc fuel) r p m rest e = rw (recv, e) refl

  -- The two ends carry the message, and are in step behind it.
  abbrev Carries : Bytes → List Bytes → Sender → Receiver → Bytes → Bytes → ℕ → Type 0
  Carries m cs s r p rest fuel =
      (out : Bytes) × (s' : Sender) × (r' : Receiver) × (send_chunks t cs s ≡ ok (out, s'))
      × (recv t fuel r p (out ++ rest) ≡ ok (m, r', [], rest))
      × Paired s' r'

  recv-send_chunks :
      (m : Bytes) (cs : List Bytes) (s : Sender) (r : Receiver) (p rest : Bytes) (fuel : ℕ)
      → length m ≤ max_msg
      → p ++ flatten cs ≡ framed m
      → All IsChunk cs
      → Paired s r
      → length cs ≤ fuel
      → Carries m cs s r p rest fuel
  unfolding send_chunks flatten
  recv-send_chunks m [] s r p rest fuel h e a paired l = (
    [],
    s,
    r,
    refl,
    recv_done fuel r p m rest (ap parsed (sym (append-nil p) ∙ e) ∙ parsed-framed m h),
    paired,
  )
  recv-send_chunks m (c ∷ cs) s r p rest zero h e a paired l = absurd (omega arith)
  recv-send_chunks m (c ∷ cs) s r p rest (suc fuel) h e ((c_pos, c_le), a) paired l =
      let (sealed, s', r', w, len, d, paired') = delivers s r c paired (omega arith) in
      let (out, s'', r'', sent, got, paired'') =
        recv-send_chunks m cs s' r' (p ++ c) rest fuel h (append_assoc p c (flatten cs) ∙ e) a
          paired' (omega arith) in
      (
        write_frame sealed ++ out,
        s'',
        r'',
        send_turn s s' s'' c sealed out cs w sent,
        rw (append_assoc (write_frame sealed) out rest) (
            recv_turn fuel r r' p c sealed (out ++ rest)
              (parsed_more m p (c ++ flatten cs) h e (omega (arith, length-append c (flatten cs))))
              (omega arith) d
            ∙ got),
        paired'',
      )

  -- What `send` writes for a message of at most `MAX_MSG` bytes, the other end's `recv` returns, and
  -- it leaves what stands behind it on the stream: for any message, with a transport whose ends are
  -- in step. A turn of `recv` reads one chunk, so as many turns as the bytes sent are enough, and
  -- the two ends are in step again.
  pub recv-send :
      (m : Bytes) (s : Sender) (r : Receiver) (rest : Bytes) (fuel : ℕ)
      → length m ≤ max_msg
      → Paired s r
      → 4 + length m ≤ fuel
      → (out : Bytes) × (s' : Sender) × (r' : Receiver) × (send t m s ≡ ok (out, s'))
        × (recv t fuel r [] (out ++ rest) ≡ ok (m, r', [], rest))
        × Paired s' r'
  unfolding send chunks
  recv-send m s r rest fuel h paired l =
      let n : length m % 4294967296 ≡ length m = omega arith in
      let b : ltb max_msg (length m) ≡ false = ground arith in
      let k : length (framed m) ≡ 4 + length m = length_four (length m) m in
      rw (n, b)
        (recv-send_chunks m (chunks_from (length (framed m)) (frame_max - tag) (framed m)) s r []
          rest fuel h
          (flatten-chunks_from (length (framed m)) (frame_max - tag) (framed m) (omega arith)
            (omega arith))
          (chunks_from-IsChunk (length (framed m)) (frame_max - tag) (framed m) (omega arith)
            (omega arith))
          paired
          (omega (arith, length-chunks_from (length (framed m)) (frame_max - tag) (framed m))))

  -- `send` refuses a longer message.
  send-too_large :
      (m : Bytes) (s : Sender) → max_msg < length m → send t m s ≡ err WireError.message_too_large
  unfolding send
  send-too_large m s h = ground arith
