-- ===== src/Ipc/Hello/Bound.antt =====
-- ipc.rs and node.rs: a proof is taken only on the connection and from the side it was made for.
use agora_protocol.Base.{
  ◌<◌, ◌≡◌, refl, sym, ◌∙◌, true, false, ◌&&◌, inl, ◌⊎◌, [], ◌∷◌, List, some, Text, Bytes, codes,
  unwrap_or, text_eq, text_eq_sound, text_eq_refl, Bool, byte_len, ltb, ltb→lt, leb, leb→le, length,
  all, all→All, All-imp, ◌==◌, if◌then◌else◌, All, arith,
}
use agora_protocol.Base.Result.{ok, err}
use agora_protocol.Base.Utf8.{utf8}
use agora_protocol.Base.Utf8.RoundTrip.{IsChar, utf8-bytes}
use agora_protocol.Node.Address.Secrets.{ct_eq-text_eq}
use agora_protocol.Ipc.{Hex, key_of, mac}
use agora_protocol.Ipc.Proofs.{IsPart, Collision, mac-parts, utf8_injective}
use agora_protocol.Ipc.Hello.{
  not_your_node, Hello, Greeting, client_parts, node_parts, proves, authentic, is_node, settle,
}

ascii-IsChar : (s : Text) → All (λ c. c < 128) s → All IsChar s
ascii-IsChar [] h = tt
ascii-IsChar (c ∷ s) h = ((omega arith, inl (omega arith)), ascii-IsChar s h.1)

pub word_IsPart :
    (w : Text) → all (λ c. ltb c 128) w ≡ true → leb (length (utf8 w)) 100 ≡ true → IsPart w
word_IsPart w h l = (
  ascii-IsChar w (All-imp _ _ w (λ c e. ltb→lt c 128 e) (all→All (λ c. ltb c 128) w h)),
  omega (arith, leb→le (length (utf8 w)) 100 l),
)

third : (a b c : Bool) → (a && b && c) ≡ true → c ≡ true
third a b c h = ground arith

settled :
    (b : Bool) (found : Text) {name : Text}
    → (if b then ok found else err not_your_node) ≡ ok name
    → b ≡ true
settled true found h = refl
settled false found h = absurd (cc)

module _ (hex : Hex) (keyed : Bytes → Bytes → Bytes) (token : Text) where
  pub mac-IsChar : (ps : List Text) → All IsChar (mac hex keyed token ps)
  unfolding mac
  mac-IsChar ps = ascii-IsChar _ (hex.ascii _)

  proves-mac :
      (p : Text) (qs : List Text)
      → All IsChar p
      → proves hex keyed token p qs ≡ text_eq (utf8 p) (utf8 (mac hex keyed token qs))
  unfolding proves
  proves-mac p qs h =
      ct_eq-text_eq (utf8 p) (utf8 (mac hex keyed token qs)) (utf8-bytes p h)
        (utf8-bytes (mac hex keyed token qs) (mac-IsChar qs))

  pub proves-own : (qs : List Text) → proves hex keyed token (mac hex keyed token qs) qs ≡ true
  proves-own qs = proves-mac (mac hex keyed token qs) qs (mac-IsChar qs) ∙ text_eq_refl _

  proves-parts :
      (ps qs : List Text)
      → All IsPart ps
      → All IsPart qs
      → proves hex keyed token (mac hex keyed token ps) qs ≡ true
      → (ps ≡ qs) ⊎ Collision (keyed (key_of (hex.decode token)))
  proves-parts ps qs hp hq e =
      let a = mac hex keyed token ps in
      let b = mac hex keyed token qs in
      mac-parts hex keyed token ps qs hp hq (
        utf8_injective a b (mac-IsChar ps) (mac-IsChar qs)
          (text_eq_sound (utf8 a) (utf8 b) (sym (proves-mac a qs (mac-IsChar ps)) ∙ e)))

  -- The node takes a first line only if its proof was made for this connection, by an agent: if the
  -- proof was made under the token of the machine from any parts, these are the word `client`, the
  -- challenge of the connection and the nonce of the line. So it takes neither a line that was recorded
  -- on another connection nor an answer of a node, unless two inputs are at hand on which the keyed
  -- hash agrees.
  pub authentic-bound :
      (challenge nonce : Text) (ps : List Text) (h : Hello)
      → All IsPart ps
      → IsPart challenge
      → IsPart nonce
      → h.nonce ≡ some nonce
      → h.proof ≡ some (mac hex keyed token ps)
      → authentic hex keyed token challenge h ≡ true
      → (ps ≡ client_parts challenge nonce) ⊎ Collision (keyed (key_of (hex.decode token)))
  unfolding authentic unwrap_or
  authentic-bound challenge nonce ps h hp hc hn n p e =
      proves-parts ps (client_parts challenge nonce) hp
        (word_IsPart (codes "client") refl (unfold utf8 in refl), (hc, (hn, tt)))
        (rw (n, p) at
          (third (text_eq (unwrap_or [] h.op) (codes "hello"))
            (byte_len (unwrap_or [] h.nonce) == 32) _ e))

  -- An agent goes on only with an answer whose proof was made for its connection, by a node: if the proof
  -- was made under the token of the machine from any parts, these are the word `node`, the challenge and
  -- the nonce of the connection. So it does not take its own proof sent back to it, unless two inputs
  -- are at hand on which the keyed hash agrees.
  pub settle-bound :
      (challenge nonce agent name : Text) (ps : List Text) (g : Greeting)
      → All IsPart ps
      → IsPart challenge
      → IsPart nonce
      → g.proof ≡ some (mac hex keyed token ps)
      → settle hex keyed token challenge nonce agent g ≡ ok name
      → (ps ≡ node_parts challenge nonce) ⊎ Collision (keyed (key_of (hex.decode token)))
  unfolding settle is_node
  settle-bound challenge nonce agent name ps g hp hc hn p e =
      proves-parts ps (node_parts challenge nonce) hp
        (word_IsPart (codes "node") refl (unfold utf8 in refl), (hc, (hn, tt)))
        (rw p at
          (settled (is_node hex keyed token challenge nonce g.proof) (unwrap_or agent g.agent) e))
