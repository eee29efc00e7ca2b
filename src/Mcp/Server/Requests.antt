-- ===== src/Mcp/Server/Requests.antt =====
-- mcp.rs: what the server of a session does with a line of its input, and what else can happen to it.
use agora_protocol.Base.{
  unwrap_or, ℕ, zero, suc, Bool, true, false, ◌&&◌, not, List, [], ◌∷◌, ◌++◌, Option, none, some,
  Text, codes, text_eq, starts_with, is_empty, trim, take, if◌then◌else◌,
}
use agora_protocol.Base.Result.{Result, ok, err}
use agora_protocol.Config.Names.{valid_name}
use agora_protocol.Mcp.Server.{
  Serde, Server, Found, client, set_identity, roots_id, roots_request, adopt, path_of,
}

pub data ToolError : Type 0 where
  invalid_name no_node unknown_tool : ToolError

module _ (json : Serde) where
  unfoldable pub apply_roots : Found → json.Value → Server → Server
  unfolding adopt path_of client
  apply_roots f result s =
      let uri =
        json.as_str
          (json.field (codes "uri") (json.element 0 (json.field (codes "roots") result))) in
      (client f (record (adopt (path_of uri) s) { roots_done = true })).1

  -- A request to the node, whose answer is the result of the tool.
  pub data Asked : Type 0 where
    send : json.Value → json.Value → json.Value → Asked
    send_file : json.Value → json.Value → json.Value → Asked
    inbox : ℕ → Asked
    peers : Asked

  pub data ToolResult : Type 0 where
    now_called : Text → ToolResult
    asked : Asked → ToolResult

  wait_of : Option ℕ → ℕ
  wait_of none = 0
  wait_of (some n) = n

  unfoldable pub tool_request : Text → json.Value → Option Asked
  unfolding wait_of
  tool_request name args =
      if text_eq name (codes "courier_send")
      then some (
          send (json.field (codes "to") args) (json.field (codes "text") args)
            (json.field (codes "thread") args))
      else if text_eq name (codes "courier_send_file")
      then some (
          send_file (json.field (codes "to") args) (json.field (codes "path") args)
            (json.field (codes "note") args))
      else if text_eq name (codes "courier_inbox")
      then some (inbox (wait_of (json.as_u64 (json.field (codes "wait_seconds") args))))
      else if text_eq name (codes "courier_peers")
      then some peers
      else none

  -- The new description, when it says something.
  about_arg : Option Text → Option Text → Option Text
  about_arg none old = old
  about_arg (some a) old = if is_empty (trim a) then old else some (take 200 a)

  unfoldable pub now_named : Option Text × Server → Result ToolError ToolResult × Server
  now_named (none, s) = (err no_node, s)
  now_named (some agent, s) = (ok (now_called agent), s)

  unfoldable pub renamed : Text → json.Value → Server → Server
  unfolding about_arg
  renamed name args s = record s {
    name = name;
    about = about_arg (json.as_str (json.field (codes "about") args)) s.about;
    client = none;
  }

  unfoldable pub rename : Found → json.Value → Server → Result ToolError ToolResult × Server
  unfolding renamed client now_named
  rename f args s =
      let name = unwrap_or [] (json.as_str (json.field (codes "name") args)) in
      if valid_name name then now_named (client f (renamed name args s)) else (err invalid_name, s)

  unfoldable pub ask :
      Text → json.Value → Option Text × Server → Result ToolError ToolResult × Server
  unfolding tool_request
  ask name args (none, s) = (err no_node, s)
  ask name args (some agent, s) = elim (tool_request name args) [
    | none ↦ (err unknown_tool, s)
    | some q ↦ (ok (asked q), s)
  ]

  unfoldable pub call_tool :
      Found → Text → json.Value → Server → Result ToolError ToolResult × Server
  unfolding rename client ask
  call_tool f name args s =
      if text_eq name (codes "courier_set_name")
      then rename f args s
      else ask name args (client f s)

  -- The results of `handle`; `no_method` stands for the error -32601.
  pub data Answer : Type 0 where
    capabilities : Text → Bool → Answer
    pong tools : Answer
    tool : Result ToolError ToolResult → Answer
    no_method : Text → Answer

  unfoldable pub introduced : json.Value → Bool → Server → Server
  introduced params wants s = record s {
    client_name =
        unwrap_or []
          (json.as_str (json.field (codes "name") (json.field (codes "clientInfo") params)));
    wants_roots = wants;
  }

  unfoldable pub initialize : Found → json.Value → Server → Server
  unfolding introduced set_identity client
  initialize f params s =
      let wants =
        not s.root_explicit
        && json.is_object (json.field (codes "roots") (json.field (codes "capabilities") params)) in
      let told = set_identity (introduced params wants s) in
      if wants then told else (client f told).1

  unfoldable pub handle : Found → Text → json.Value → Server → Answer × Server
  unfolding initialize call_tool
  handle f method params s =
      if text_eq method (codes "initialize")
      then (
        capabilities
            (unwrap_or (codes "2025-06-18")
              (json.as_str (json.field (codes "protocolVersion") params)))
            s.push,
        initialize f params s,
      )
      else if text_eq method (codes "ping")
      then (pong, s)
      else if text_eq method (codes "tools/list")
      then (tools, s)
      else if text_eq method (codes "tools/call")
      then (let r =
            call_tool f (unwrap_or [] (json.as_str (json.field (codes "name") params)))
              (json.field (codes "arguments") params) s in
          (tool r.0, r.1))
      else (no_method method, s)

  -- What the server writes. A parse error has the id null.
  pub data Out : Type 0 where
    parse_error : Out
    ask_roots : Text → Out
    answer : json.Value → Answer → Out

  -- The notification that the client is ready, with the wait for its folder.
  unfoldable pub ready : Text → Server → List Out × Server
  unfolding roots_request
  ready method s =
      if text_eq method (codes "notifications/initialized")
      then (if s.wants_roots
          then (let (id, t) =
                roots_request (record s { initialized = true; timers = suc s.timers }) in
              (ask_roots id ∷ [], t))
          else ([], record s { initialized = true }))
      else ([], s)

  unfoldable pub changed : Text → Server → List Out × Server
  unfolding roots_request
  changed method s =
      if text_eq method (codes "notifications/roots/list_changed") && s.wants_roots
      then (let (id, t) = roots_request s in (ask_roots id ∷ [], t))
      else ([], s)

  -- A task of its own for each request and for each folder that the client reports. A request is
  -- handled first, and its answer is written when the task goes on after that.
  pub data Task : Type 0 where
    reading : json.Value → Task
    handling : Text → json.Value → json.Value → Task
    answering : json.Value → Answer → Task

  pub record Session : Type 0 where
    pub server : Server
    pub tasks : List Task

  -- `run` at the beginning of its loop.
  abbrev pub session_of : Server → Session
  session_of s = record { server = s; tasks = [] }

  unfoldable pub spawn : Task → Session → Session
  spawn task t = record t { tasks = t.tasks ++ task ∷ [] }

  -- Only a request gets a task that answers.
  unfoldable pub respond : Text → json.Value → Option json.Value → Session → Session
  unfolding spawn
  respond method params none t = t
  respond method params (some id) t = spawn (handling method params id) t

  unfoldable pub is_roots_id : Option Text → Bool
  is_roots_id none = false
  is_roots_id (some i) = starts_with roots_id i

  unfoldable pub request : Text → json.Value → Session → List Out × Session
  unfolding ready changed respond
  request method req t =
      let a = ready method t.server in
      let b = changed method a.1 in
      (
        a.0 ++ b.0,
        respond method (json.field (codes "params") req) (json.get (codes "id") req)
            (record t { server = b.1 }),
      )

  -- One turn of the loop over the lines.
  unfoldable pub receive : Option json.Value → Session → List Out × Session
  unfolding is_roots_id spawn request
  receive none t = (parse_error ∷ [], t)
  receive (some req) t = elim (json.get (codes "method") req) [
    | none ↦ (
      [],
      if is_roots_id (json.as_str (json.field (codes "id") req))
          then spawn (reading (json.field (codes "result") req)) t
          else t,
    )
    | some m ↦ request (unwrap_or [] (json.as_str m)) req t
  ]

  unfoldable pub with_task : Task → Option (Task × List Task) → Option (Task × List Task)
  with_task task none = none
  with_task task (some (chosen, more)) = some (chosen, task ∷ more)

  -- The task at a place, and the others.
  unfoldable pub pick : ℕ → List Task → Option (Task × List Task)
  unfolding with_task
  pick n [] = none
  pick zero (task ∷ more) = some (task, more)
  pick (suc n) (task ∷ more) = with_task task (pick n more)

  -- A task goes on.
  unfoldable pub go_on : Found → Option (Task × List Task) → Session → List Out × Session
  unfolding apply_roots handle
  go_on f none t = ([], t)
  go_on f (some (reading result, more)) t =
      ([], record { server = apply_roots f result t.server; tasks = more })
  go_on f (some (handling method params id, more)) t =
      let r = handle f method params t.server in
      ([], record { server = r.1; tasks = answering id r.0 ∷ more })
  go_on f (some (answering id a, more)) t = (answer id a ∷ [], record t { tasks = more })

  -- What can happen next: a line, the end of a wait for the folder, a turn of the watchdog, a turn of
  -- the task at a place.
  pub data Next : Type 0 where
    line : Option json.Value → Next
    waited watched : Next
    turn : ℕ → Next

  unfoldable pub wait_ended : Found → ℕ → Server → Server
  unfolding client
  wait_ended f zero s = s
  wait_ended f (suc n) s = (client f (record s { roots_done = true; timers = n })).1

  unfoldable pub step : Found → Next → Session → List Out × Session
  unfolding receive client wait_ended pick go_on
  step f (line l) t = receive l t
  step f waited t = ([], record t { server = wait_ended f t.server.timers t.server })
  step f watched t =
      ([], record t { server = if t.server.initialized then (client f t.server).1 else t.server })
  step f (turn n) t = go_on f (pick n t.tasks) t

  unfoldable pub run : List (Found × Next) → Session → List Out × Session
  unfolding step
  run [] t = ([], t)
  run ((f, n) ∷ more) t = let a = step f n t in let b = run more a.1 in (a.0 ++ b.0, b.1)
