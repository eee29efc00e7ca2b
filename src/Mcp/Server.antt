-- ===== src/Mcp/Server.antt =====
-- mcp.rs: the server of one agent session: how it registers with the node, and what it answers. The
-- part of a task up to its answer is one step, and the answer another. The answers of the node are arguments, the connections that
-- were asked for are kept in `opened`, and the values of JSON are those of package serde_json.
pub mod Requests
pub mod Names
pub mod Answers
use agora_protocol.Base.{
  ℕ, zero, suc, ◌+◌, ◌-◌, Bool, true, false, ◌&&◌, not, List, [], ◌∷◌, ◌++◌, Option, none, some,
  Text, codes, text_eq, unwrap_or, starts_with, is_empty, trim, take, decimal, if◌then◌else◌,
}
use agora_protocol.Base.Dict.{is_some}
use agora_protocol.Base.Result.{Result, ok, err}
use agora_protocol.Config.Names.{valid_name}
use agora_protocol.Mcp.{identity_for}
use agora_protocol.Mcp.Roots.{file_uri_to_path}

-- `Value` of serde_json: a missing field or element is null, which is neither text nor number nor
-- object, and which no object has as the value of a field.
pub record Serde : Type 1 where
  pub Value : Type 0
  pub null : Value
  pub field : Text → Value → Value
  pub element : ℕ → Value → Value
  pub get : Text → Value → Option Value
  pub as_str : Value → Option Text
  pub as_u64 : Value → Option ℕ
  pub is_object : Value → Bool

-- The arguments of `Client::connect`.
pub record Opening : Type 0 where
  pub name : Text
  pub mode : Text
  pub root : Option Text
  pub about : Option Text

-- `client` is the name that the node gave; `timers` counts the tasks that wait for the client's folder.
pub record Server : Type 0 where
  pub name : Text
  pub explicit : Bool
  pub about : Option Text
  pub about_explicit : Bool
  pub push : Bool
  pub root : Option Text
  pub root_explicit : Bool
  pub client_name : Text
  pub initialized : Bool
  pub wants_roots : Bool
  pub roots_done : Bool
  pub roots_req : ℕ
  pub client : Option Text
  pub timers : ℕ
  pub opened : List Opening

-- What a step finds: whether the connection still lives, and the name that the node gives to a new one.
pub record Found : Type 0 where
  pub alive : Bool
  pub given : Option Text

unfoldable pub or_else : Option Text → Option Text → Option Text
or_else none b = b
or_else (some a) b = some a

-- `run` up to its loop; `cwd` is the current folder.
unfoldable pub start : Option Text → Option Text → Bool → Option Text → Option Text → Server
unfolding unwrap_or or_else
start name about push root cwd = record {
  name = unwrap_or (identity_for [] (or_else root cwd)).0 name;
  explicit = is_some name;
  about = about;
  about_explicit = is_some about;
  push = push;
  root = or_else root cwd;
  root_explicit = is_some root;
  client_name = [];
  initialized = false;
  wants_roots = false;
  roots_done = false;
  roots_req = 1;
  client = none;
  timers = 0;
  opened = [];
}

unfoldable pub open_client : Option Text → Server → Option Text × Server
open_client given s =
    let asked : Opening = record {
      name = s.name;
      mode = if s.push then codes "push" else codes "pull";
      root = s.root;
      about = s.about;
    } in
    (given, record s { client = or_else given s.client; opened = s.opened ++ asked ∷ [] })

-- `Server::client`, behind its wait for the client's folder.
unfoldable pub client : Found → Server → Option Text × Server
unfolding open_client
client f s = if is_some s.client && f.alive then (s.client, s) else open_client f.given s

unfoldable pub set_identity : Server → Server
set_identity s =
    let (name, about) = identity_for s.client_name s.root in
    record s {
      name = if s.explicit then s.name else name;
      about = if s.about_explicit then s.about else some about;
    }

abbrev pub roots_id : Text
roots_id = codes "agentcourier-roots-"

unfoldable pub roots_request : Server → Text × Server
roots_request s = (roots_id ++ decimal s.roots_req, record s { roots_req = suc s.roots_req })

unfoldable pub adopt : Option Text → Server → Server
unfolding set_identity
adopt none s = s
adopt (some path) s = record (set_identity (record s { root = some path })) { client = none }

unfoldable pub path_of : Option Text → Option Text
path_of none = none
path_of (some uri) = file_uri_to_path uri
