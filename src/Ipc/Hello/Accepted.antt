-- ===== src/Ipc/Hello/Accepted.antt =====
-- ipc.rs and node.rs: an agent and the node of its machine find each other.
use agora_protocol.Base.{
  ℕ, ◌≡◌, refl, List, Option, some, Text, Bytes, byte_len, codes, text_eq, unwrap_or,
}
use agora_protocol.Base.Result.{ok}
use agora_protocol.Config.Types.{Config}
use agora_protocol.Node.Types.{State}
use agora_protocol.Ipc.{Hex, mac}
use agora_protocol.Ipc.Hello.{
  Hello, Greeting, Served, introduce, greet, enter, greeting, authentic, settle, is_node,
  client_parts, node_parts,
}
use agora_protocol.Ipc.Hello.Bound.{proves-own}

module _ (hex : Hex) (keyed : Bytes → Bytes → Bytes) (token : Text)
    (clean : Text → Text × List Text) (cfg : Config) (user : Option Text) where
  -- With the token of the machine, a challenge of 32 bytes and a nonce of 32 bytes, the first line of the
  -- agent is taken by the node, and the answer by the agent, whatever name, mode, folder and description
  -- the agent gives: both then know the session by the same name.
  pub introduce-settle :
      (challenge nonce agent mode : Text) (root about : Option Text) (sid : ℕ) (s : State)
      → byte_len challenge ≡ 32
      → byte_len nonce ≡ 32
      → (h : Hello) × (g : Greeting) × (v : Served) × (introduce hex keyed token challenge nonce
            agent mode root about
          ≡ ok h)
        × ((greet hex keyed token challenge clean cfg user sid h s).0 ≡ some (g, v))
        × (settle hex keyed token challenge nonce agent g ≡ ok v.name)
  unfolding introduce greet authentic greeting settle is_node unwrap_or text_eq
  introduce-settle challenge nonce agent mode root about sid s c n =
      let h : Hello = record {
        op = some (codes "hello");
        nonce = some nonce;
        proof = some (mac hex keyed token (client_parts challenge nonce));
        agent = some agent;
        mode = some mode;
        root = root;
        about = about;
      } in
      let v = (enter hex keyed token clean cfg user sid h s).0 in
      (
        h,
        greeting hex keyed token challenge h v,
        v,
        rw c refl,
        rw (n, proves-own hex keyed token (client_parts challenge nonce)) refl,
        rw (proves-own hex keyed token (node_parts challenge nonce)) refl,
      )
