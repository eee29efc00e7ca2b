-- ===== src/Mcp/Server/Names.antt =====
-- mcp.rs: the names under which the server of a session registers with the node.
use agora_protocol.Base.{
  unwrap_or, ℕ, zero, suc, not, ◌≡◌, refl, sym, subst, Bool, true, false, ◌&&◌, inl, inr, List, [],
  ◌∷◌, Option, none, some, Text, text_eq, All, All-append, Bool-cases, Option-cases, if◌then◌else◌,
  codes,
}
use agora_protocol.Base.Dict.{is_some}
use agora_protocol.Config.Names.{valid_name}
use agora_protocol.Mcp.Names.{identity_for-valid_name}
use agora_protocol.Mcp.Server.{
  Serde, Opening, Server, Found, start, roots_request, open_client, client, set_identity, adopt,
  or_else,
}
use agora_protocol.Mcp.Server.Requests.{
  apply_roots, rename, ask, call_tool, initialize, handle, ready, changed, respond, request,
  receive, renamed, introduced, wait_ended, step, run, Next, line, waited, watched, turn, now_named,
  tool_request, is_roots_id, Task, reading, handling, answering, Session, session_of, spawn, pick,
  go_on,
}

abbrev AreNames : List Opening → Type 0
AreNames os = All (λ o. valid_name o.name ≡ true) os

-- The name of the session and all that it was opened under are names that the node accepts.
record IsNamed (s : Server) : Type 0 where
  pub name : valid_name s.name ≡ true
  pub opened : AreNames s.opened

-- A server that differs in nothing that `IsNamed` speaks of.
same : (s t : Server) → t.name ≡ s.name → t.opened ≡ s.opened → IsNamed s → IsNamed t
same s t n o h = record { name = rw n h.name; opened = rw o h.opened }

either-IsNamed : (b : Bool) (s t : Server) → IsNamed s → IsNamed t → IsNamed (if b then s else t)
either-IsNamed true s t p q = p
either-IsNamed false s t p q = q

client-IsNamed : (f : Found) (s : Server) → IsNamed s → IsNamed (client f s).1
unfolding client open_client
client-IsNamed f s h = elim (Bool-cases (is_some s.client && f.alive)) [
  | inl e ↦ rw (e, client) h
  | inr e ↦
      rw (e, client)
        (record { name = h.name; opened = All-append _ s.opened _ h.opened (h.name, tt) })
]

set_identity-IsNamed : (s : Server) → IsNamed s → IsNamed (set_identity s)
unfolding set_identity
set_identity-IsNamed s h = elim (Bool-cases s.explicit) [
  | inl e ↦ record { name = rw e h.name; opened = h.opened }
  | inr e ↦ record { name = rw e (identity_for-valid_name s.client_name s.root); opened = h.opened }
]

adopt-IsNamed : (p : Option Text) (s : Server) → IsNamed s → IsNamed (adopt p s)
unfolding adopt
adopt-IsNamed none s h = h
adopt-IsNamed (some p) s h =
    let t = set_identity-IsNamed (record s { root = some p }) (same s _ refl refl h) in
    same (set_identity (record s { root = some p })) _ refl refl t

module _ (json : Serde) (f : Found) where
  apply_roots-IsNamed : (v : json.Value) (s : Server) → IsNamed s → IsNamed (apply_roots json f v s)
  unfolding apply_roots
  apply_roots-IsNamed v s h =
      client-IsNamed f _ (same (adopt _ s) _ refl refl (adopt-IsNamed _ s h))

  now_named-state : (r : Option Text × Server) → (now_named json r).1 ≡ r.1
  unfolding now_named
  now_named-state (none, s) = refl
  now_named-state (some a, s) = refl

  rename-IsNamed : (v : json.Value) (s : Server) → IsNamed s → IsNamed (rename json f v s).1
  unfolding rename renamed
  rename-IsNamed v s h =
      elim (Bool-cases (valid_name (unwrap_or [] (json.as_str (json.field (codes "name") v))))) [
        | inl e ↦
            rw (e, rename)
              (subst IsNamed (sym (now_named-state (client f (renamed json _ v s))))
                (client-IsNamed f (renamed json _ v s) (record { name = e; opened = h.opened })))
        | inr e ↦ rw (e, rename) h
      ]

  ask-state :
      (name : Text) (v : json.Value) (r : Option Text × Server) → (ask json name v r).1 ≡ r.1
  unfolding ask
  ask-state name v (none, s) = refl
  ask-state name v (some a, s) = elim (Option-cases (tool_request json name v)) [
    | inl e ↦ rw (e, ask) refl
    | inr (q, e) ↦ rw (e, ask) refl
  ]

  call_tool-IsNamed :
      (name : Text) (v : json.Value) (s : Server)
      → IsNamed s
      → IsNamed (call_tool json f name v s).1
  unfolding call_tool
  call_tool-IsNamed name v s h = elim (Bool-cases (text_eq name (codes "courier_set_name"))) [
    | inl e ↦ rw (e, call_tool) (rename-IsNamed v s h)
    | inr e ↦
        rw (e, call_tool)
          (subst IsNamed (sym (ask-state name v (client f s))) (client-IsNamed f s h))
  ]

  initialize-IsNamed : (v : json.Value) (s : Server) → IsNamed s → IsNamed (initialize json f v s)
  unfolding initialize introduced
  initialize-IsNamed v s h =
      let wants =
        not s.root_explicit
        && json.is_object (json.field (codes "roots") (json.field (codes "capabilities") v)) in
      let t = set_identity-IsNamed (introduced json v wants s) (same s _ refl refl h) in
      either-IsNamed wants _ _ t (client-IsNamed f (set_identity (introduced json v wants s)) t)

  handle-IsNamed :
      (method : Text) (v : json.Value) (s : Server)
      → IsNamed s
      → IsNamed (handle json f method v s).1
  unfolding handle
  handle-IsNamed method v s h = elim (Bool-cases (text_eq method (codes "initialize"))) [
    | inl a ↦ rw (a, handle) (initialize-IsNamed v s h)
    | inr a ↦ elim (Bool-cases (text_eq method (codes "ping"))) [
      | inl b ↦ rw (a, b, handle) h
      | inr b ↦ elim (Bool-cases (text_eq method (codes "tools/list"))) [
        | inl c ↦ rw (a, b, c, handle) h
        | inr c ↦ elim (Bool-cases (text_eq method (codes "tools/call"))) [
          | inl d ↦ rw (a, b, c, d, handle) (call_tool-IsNamed _ _ s h)
          | inr d ↦ rw (a, b, c, d, handle) h
        ]
      ]
    ]
  ]

  ready-IsNamed : (method : Text) (s : Server) → IsNamed s → IsNamed (ready json method s).1
  unfolding ready roots_request
  ready-IsNamed method s h =
      elim (Bool-cases (text_eq method (codes "notifications/initialized"))) [
        | inl a ↦ elim (Bool-cases s.wants_roots) [
          | inl b ↦ rw (a, b, ready) (same s _ refl refl h)
          | inr b ↦ rw (a, b, ready) (same s _ refl refl h)
        ]
        | inr a ↦ rw (a, ready) h
      ]

  changed-IsNamed : (method : Text) (s : Server) → IsNamed s → IsNamed (changed json method s).1
  unfolding changed roots_request
  changed-IsNamed method s h =
      elim (Bool-cases
        (text_eq method (codes "notifications/roots/list_changed") && s.wants_roots)) [
          | inl a ↦ rw (a, changed) (same s _ refl refl h)
          | inr a ↦ rw (a, changed) h
        ]

  server-respond :
      (method : Text) (v : json.Value) (id : Option json.Value) (t : Session json)
      → (respond json method v id t).server ≡ t.server
  unfolding respond spawn
  server-respond method v none t = refl
  server-respond method v (some i) t = refl

  receive-IsNamed :
      (l : Option json.Value) (t : Session json)
      → IsNamed t.server
      → IsNamed (receive json l t).1.server
  unfolding receive request spawn
  receive-IsNamed none t h = h
  receive-IsNamed (some req) t h = elim (Option-cases (json.get (codes "method") req)) [
    | inl e ↦ elim (Bool-cases (is_roots_id json (json.as_str (json.field (codes "id") req)))) [
      | inl b ↦ rw (e, b, receive) h
      | inr b ↦ rw (e, b, receive) h
    ]
    | inr (m, e) ↦
        rw (e, receive)
          (subst IsNamed (sym (server-respond _ _ (json.get (codes "id") req) _))
            (changed-IsNamed _ _ (ready-IsNamed (unwrap_or [] (json.as_str m)) t.server h)))
  ]

  go_on-IsNamed :
      (o : Option (Task json × List (Task json))) (t : Session json)
      → IsNamed t.server
      → IsNamed (go_on json f o t).1.server
  unfolding go_on
  go_on-IsNamed none t h = h
  go_on-IsNamed (some (reading v, more)) t h = apply_roots-IsNamed v t.server h
  go_on-IsNamed (some (handling m v i, more)) t h = handle-IsNamed m v t.server h
  go_on-IsNamed (some (answering i a, more)) t h = h

  wait_ended-IsNamed : (n : ℕ) (s : Server) → IsNamed s → IsNamed (wait_ended json f n s)
  unfolding wait_ended
  wait_ended-IsNamed zero s h = h
  wait_ended-IsNamed (suc n) s h =
      let t : Server = record s { roots_done = true; timers = n } in
      client-IsNamed f t (same s t refl refl h)

  step-IsNamed :
      (n : Next json) (t : Session json) → IsNamed t.server → IsNamed (step json f n t).1.server
  unfolding step
  step-IsNamed (line l) t h = receive-IsNamed l t h
  step-IsNamed waited t h = wait_ended-IsNamed t.server.timers t.server h
  step-IsNamed watched t h = either-IsNamed t.server.initialized _ _ (client-IsNamed f t.server h) h
  step-IsNamed (turn n) t h = go_on-IsNamed (pick json n t.tasks) t h

run-IsNamed :
    (json : Serde) (ns : List (Found × Next json)) (t : Session json)
    → IsNamed t.server
    → IsNamed (run json ns t).1.server
unfolding run
run-IsNamed json [] t h = h
run-IsNamed json ((f, n) ∷ ns) t h = run-IsNamed json ns _ (step-IsNamed json f n t h)

start-IsNamed :
    (name about : Option Text) (push : Bool) (root cwd : Option Text)
    → ((n : Text) → name ≡ some n → valid_name n ≡ true)
    → IsNamed (start name about push root cwd)
unfolding start
start-IsNamed none about push root cwd h = record {
  name = identity_for-valid_name [] (or_else root cwd);
  opened = tt;
}
start-IsNamed (some n) about push root cwd h = record { name = h n refl; opened = tt }

-- A session that was started without a name, or with one that the node accepts, registers only under
-- names that the node accepts: whatever the client sends, whichever folders and names it reports,
-- however the tasks of the server are ordered, and whatever the node answers.
pub opened-AreNames :
    (json : Serde) (ns : List (Found × Next json)) (name about : Option Text) (push : Bool)
    (root cwd : Option Text)
    → ((n : Text) → name ≡ some n → valid_name n ≡ true)
    → All
        (λ o. valid_name o.name ≡ true)
        (run json ns (session_of json (start name about push root cwd))).1.server.opened
opened-AreNames json ns name about push root cwd h =
    let i = run-IsNamed json ns _ (start-IsNamed name about push root cwd h) in i.opened
