-- ===== src/Ipc/Hello.antt =====
-- ipc.rs and node.rs: how an agent's process and the node greet each other: `Client::start`, and
-- `serve_ipc` up to its loop. The random challenge and nonce are arguments.
pub mod Bound
pub mod Accepted
use agora_protocol.Base.{
  ℕ, Bool, true, false, ◌&&◌, ◌||◌, List, [], ◌∷◌, Option, none, some, Text, Bytes, codes, text_eq,
  unwrap_or, byte_len, is_empty, trim, take, replace_chars, ◌==◌, if◌then◌else◌,
}
use agora_protocol.Base.Result.{Result, ok, err}
use agora_protocol.Base.Utf8.{utf8}
use agora_protocol.Config.Names.{valid_name}
use agora_protocol.Config.Types.{Config}
use agora_protocol.Node.Address.{ct_eq}
use agora_protocol.Node.Queues.{register}
use agora_protocol.Node.Types.{State}
use agora_protocol.Ipc.{Hex, mac}

-- The fields of the first line of the agent, as far as they are text.
pub record Hello : Type 0 where
  pub op : Option Text
  pub nonce : Option Text
  pub proof : Option Text
  pub agent : Option Text
  pub mode : Option Text
  pub root : Option Text
  pub about : Option Text

-- The session that the loop of `serve_ipc` serves; one of mode `none` or `watch` is not registered
-- and has no number.
pub record Served : Type 0 where
  pub name : Text
  pub sid : Option ℕ
  pub mode : Text
  pub root : Option Text

-- The answer to the first line.
pub record Greeting : Type 0 where
  pub agent : Option Text
  pub proof : Option Text

pub data StartError : Type 0 where
  invalid_challenge not_your_node : StartError

abbrev pub nothing_if_empty : Text → Option Text
nothing_if_empty t = if is_empty t then none else some t

valid_or_agent : Option Text → Text
valid_or_agent none = codes "agent"
valid_or_agent (some a) = if valid_name a then a else codes "agent"

nonempty_root : Option Text → Option Text
nonempty_root none = none
nonempty_root (some r) = nothing_if_empty r

-- `clean` is the guard's.
described : (Text → Text × List Text) → Option Text → Option Text
described clean none = none
described clean (some a) =
    nothing_if_empty (take 200 (trim (replace_chars (λ c. c == 10 || c == 9) b' ' (clean a).0)))

abbrev pub client_parts : Text → Text → List Text
client_parts challenge nonce = codes "client" ∷ challenge ∷ nonce ∷ []

abbrev pub node_parts : Text → Text → List Text
node_parts challenge nonce = codes "node" ∷ challenge ∷ nonce ∷ []

module _ (hex : Hex) (keyed : Bytes → Bytes → Bytes) (token : Text) where
  unfoldable pub proves : Text → List Text → Bool
  proves proof parts = ct_eq (utf8 proof) (utf8 (mac hex keyed token parts))

  -- The test of `serve_ipc`.
  unfoldable pub authentic : Text → Hello → Bool
  unfolding proves
  authentic challenge h =
      text_eq (unwrap_or [] h.op) (codes "hello")
      && byte_len (unwrap_or [] h.nonce) == 32
      && proves (unwrap_or [] h.proof) (client_parts challenge (unwrap_or [] h.nonce))

  unfoldable pub enter :
      (Text → Text × List Text) → Config → Option Text → ℕ → Hello → State → Served × State
  unfolding valid_or_agent nonempty_root described register
  enter clean cfg user sid h s =
      let want = valid_or_agent h.agent in
      let mode = unwrap_or (codes "pull") h.mode in
      if text_eq mode (codes "none") || text_eq mode (codes "watch")
      then (record { name = want; sid = none; mode = mode; root = nonempty_root h.root }, s)
      else (let r = register cfg user want (described clean h.about) sid s in
          (record { name = r.0; sid = some sid; mode = mode; root = nonempty_root h.root }, r.1))

  unfoldable pub greeting : Text → Hello → Served → Greeting
  greeting challenge h v = record {
    agent = some v.name;
    proof = some (mac hex keyed token (node_parts challenge (unwrap_or [] h.nonce)));
  }

  -- The node's side; `none` is an end of the connection.
  unfoldable pub greet :
      Text
      → (Text → Text × List Text)
      → Config
      → Option Text
      → ℕ
      → Hello
      → State
      → Option (Greeting × Served) × State
  unfolding authentic enter greeting
  greet challenge clean cfg user sid h s =
      if authentic challenge h
      then (let (v, t) = enter clean cfg user sid h s in (some (greeting challenge h v, v), t))
      else (none, s)

  -- The agent's side: its first line, for the challenge of the node.
  unfoldable pub introduce :
      Text → Text → Text → Text → Option Text → Option Text → Result StartError Hello
  introduce challenge nonce agent mode root about =
      if byte_len challenge == 32
      then ok (record {
        op = some (codes "hello");
        nonce = some nonce;
        proof = some (mac hex keyed token (client_parts challenge nonce));
        agent = some agent;
        mode = some mode;
        root = root;
        about = about;
      })
      else err invalid_challenge

  unfoldable pub is_node : Text → Text → Option Text → Bool
  unfolding proves
  is_node challenge nonce none = false
  is_node challenge nonce (some p) = proves p (node_parts challenge nonce)

  -- The name that the session has, once the answer has proved that it is the node's.
  unfoldable pub settle : Text → Text → Text → Greeting → Result StartError Text
  unfolding is_node
  settle challenge nonce agent g =
      if is_node challenge nonce g.proof then ok (unwrap_or agent g.agent) else err not_your_node
