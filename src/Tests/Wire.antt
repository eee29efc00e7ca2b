-- ===== src/Tests/Wire.antt =====
-- A message over a transport that seals a chunk with sixteen zeros.
use agora_protocol.Base.{◌≡◌, refl, [], ◌∷◌, ◌++◌, some, Bytes, codes, length-append, drop, arith}
use agora_protocol.Base.Result.{ok}
use agora_protocol.Wire.{Transport, send, recv}
use agora_protocol.Wire.RoundTrip.{recv-send}

abbrev zeros : Bytes
zeros = 0 ∷ 0 ∷ 0 ∷ 0 ∷ 0 ∷ 0 ∷ 0 ∷ 0 ∷ 0 ∷ 0 ∷ 0 ∷ 0 ∷ 0 ∷ 0 ∷ 0 ∷ 0 ∷ []

abbrev zero_seal : Transport
zero_seal = record {
  Sender = Unit;
  Receiver = Unit;
  write_message = λ s c. some (zeros ++ c, tt);
  read_message = λ r c. some (drop 16 c, tt);
  Paired = λ s r. Unit;
  delivers =
      λ s r c paired h. (zeros ++ c, tt, tt, refl, omega (arith, length-append zeros c), refl, tt);
}

recv-send_example :
    (out : Bytes) × (s' : Unit {0}) × (r' : Unit {0}) × (send zero_seal (codes "hello") tt
      ≡ ok (out, s'))
    × (recv zero_seal 9 tt [] (out ++ codes "more") ≡ ok (codes "hello", r', [], codes "more"))
    × Unit {0}
recv-send_example =
    recv-send zero_seal (codes "hello") tt tt (codes "more") 9 (omega arith) tt (omega arith)
