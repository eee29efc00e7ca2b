-- ===== src/Mcp/Server/Answers.antt =====
-- mcp.rs: which lines of its input the server of a session answers, with its tasks in any order, and what a reported folder does to
-- the name of the session.
use agora_protocol.Base.{
  unwrap_or, ℕ, zero, suc, ◌+◌, arith, Bool, if◌then◌else◌, subst, ◌≡◌, refl, sym, ap, ◌∙◌, false,
  ◌&&◌, inl, inr, List, [], ◌∷◌, ◌++◌, Option, none, some, Text, codes, text_eq, Bool-cases,
  Option-cases,
}
use agora_protocol.Base.Dict.{is_some}
use agora_protocol.Config.Names.{valid_name}
use agora_protocol.Mcp.{identity_for}
use agora_protocol.Mcp.Roots.{file_uri_to_path}
use agora_protocol.Mcp.Server.{
  Serde, Server, Found, client, open_client, set_identity, adopt, path_of,
}
use agora_protocol.Mcp.Server.Requests.{
  Out, parse_error, ask_roots, answer, Next, line, waited, watched, apply_roots, rename, renamed,
  now_named, ready, changed, respond, request, receive, step, run, turn, Task, reading, handling,
  answering, Session, spawn, pick, with_task, go_on, is_roots_id,
}

-- How many elements pass a test.
abbrev pub count : {A : Type 0} → (A → Bool) → List A → ℕ
count p [] = 0
count p (x ∷ xs) = (if p x then 1 else 0) + count p xs

count-append :
    {A : Type 0} (p : A → Bool) (xs ys : List A) → count p (xs ++ ys) ≡ count p xs + count p ys
count-append p [] ys = omega arith
count-append p (x ∷ xs) ys = omega (arith, count-append p xs ys)

module _ (json : Serde) where
  -- The ids of the answers that were written.
  abbrev pub answered : List (Out json) → List json.Value
  answered [] = []
  answered (parse_error ∷ os) = answered os
  answered (ask_roots i ∷ os) = answered os
  answered (answer i a ∷ os) = i ∷ answered os

  abbrev pub id_of : Option json.Value → List json.Value
  id_of none = []
  id_of (some i) = i ∷ []

  abbrev pub wanted : Option json.Value → Option json.Value → List json.Value
  wanted none id = []
  wanted (some m) id = id_of id

  -- The ids of the requests: the lines with a method and an id.
  abbrev pub requested_by : Next json → List json.Value
  requested_by (line (some v)) = wanted (json.get (codes "method") v) (json.get (codes "id") v)
  requested_by _ = []

  abbrev pub requested : List (Found × Next json) → List json.Value
  requested [] = []
  requested ((f, n) ∷ ns) = requested_by n ++ requested ns

  -- The ids of the requests that still have a task.
  abbrev pub asked_by : Task json → List json.Value
  asked_by (reading v) = []
  asked_by (handling m v i) = i ∷ []
  asked_by (answering i a) = i ∷ []

  abbrev pub unanswered : List (Task json) → List json.Value
  unanswered [] = []
  unanswered (task ∷ ts) = asked_by task ++ unanswered ts

  -- The turns that bring every task to its end.
  abbrev pub to_the_end : Found → List (Task json) → List (Found × Next json)
  to_the_end f [] = []
  to_the_end f (reading v ∷ ts) = (f, turn 0) ∷ to_the_end f ts
  to_the_end f (handling m v i ∷ ts) = (f, turn 0) ∷ (f, turn 0) ∷ to_the_end f ts
  to_the_end f (answering i a ∷ ts) = (f, turn 0) ∷ to_the_end f ts

  answered-append : (xs ys : List (Out json)) → answered (xs ++ ys) ≡ answered xs ++ answered ys
  answered-append [] ys = refl
  answered-append (parse_error ∷ xs) ys = answered-append xs ys
  answered-append (ask_roots i ∷ xs) ys = answered-append xs ys
  answered-append (answer i a ∷ xs) ys = ap (λ l. i ∷ l) (answered-append xs ys)

  answered-ready : (m : Text) (s : Server) → answered (ready json m s).0 ≡ []
  unfolding ready
  answered-ready m s = elim (Bool-cases (text_eq m (codes "notifications/initialized"))) [
    | inl a ↦ elim (Bool-cases s.wants_roots) [
      | inl b ↦ rw (a, b, ready) refl
      | inr b ↦ rw (a, b, ready) refl
    ]
    | inr a ↦ rw (a, ready) refl
  ]

  answered-changed : (m : Text) (s : Server) → answered (changed json m s).0 ≡ []
  unfolding changed
  answered-changed m s =
      elim (Bool-cases (text_eq m (codes "notifications/roots/list_changed") && s.wants_roots)) [
        | inl a ↦ rw (a, changed) refl
        | inr a ↦ rw (a, changed) refl
      ]

  -- What is counted of the answers, of the tasks and of the requests.
  module _ (p : json.Value → Bool) where
    unanswered-append :
        (xs ys : List (Task json))
        → count p (unanswered (xs ++ ys)) ≡ count p (unanswered xs) + count p (unanswered ys)
    unanswered-append [] ys = omega arith
    unanswered-append (x ∷ xs) ys = omega (
      arith,
      count-append p (asked_by x) (unanswered (xs ++ ys)),
      count-append p (asked_by x) (unanswered xs),
      unanswered-append xs ys,
    )

    unanswered-respond :
        (m : Text) (v : json.Value) (id : Option json.Value) (t : Session json)
        → count p (unanswered (respond json m v id t).tasks)
          ≡ count p (unanswered t.tasks) + count p (id_of id)
    unfolding respond spawn
    unanswered-respond m v none t = omega arith
    unanswered-respond m v (some i) t = unanswered-append t.tasks (handling m v i ∷ [])

    IsBalanced : List json.Value → Session json → List (Out json) × Session json → Type 0
    IsBalanced asked t r =
        count p (answered r.0) + count p (unanswered r.1.tasks)
        ≡ count p (unanswered t.tasks) + count p asked

    request-IsBalanced :
        (m : Text) (v : json.Value) (t : Session json)
        → IsBalanced (id_of (json.get (codes "id") v)) t (request json m v t)
    unfolding request IsBalanced
    request-IsBalanced m v t =
        let a = ready json m t.server in
        let b = changed json m a.1 in
        omega (
          arith,
          ap (λ l. count p l)
              (answered-append a.0 b.0
                ∙ ap (λ l. l ++ answered b.0) (answered-ready m t.server)
                ∙ answered-changed m a.1),
          unanswered-respond m (json.field (codes "params") v) (json.get (codes "id") v)
              (record t { server = b.1 }),
        )

    receive-IsBalanced :
        (v : json.Value) (t : Session json)
        → IsBalanced
            (wanted (json.get (codes "method") v) (json.get (codes "id") v))
            t
            (receive json (some v) t)
    unfolding receive IsBalanced spawn
    receive-IsBalanced v t = elim (Option-cases (json.get (codes "method") v)) [
      | inl e ↦ elim (Bool-cases (is_roots_id json (json.as_str (json.field (codes "id") v)))) [
        | inl b ↦
            rw (e, b, receive)
              (omega
                (arith, unanswered-append t.tasks (reading (json.field (codes "result") v) ∷ [])))
        | inr b ↦ rw (e, b, receive) (omega arith)
      ]
      | inr (m, e) ↦ rw (e, receive) (request-IsBalanced (unwrap_or [] (json.as_str m)) v t)
    ]

    -- What was picked and the rest are the tasks.
    IsPickOf : List (Task json) → Option (Task json × List (Task json)) → Type 0
    IsPickOf ts none = Unit
    IsPickOf ts (some (task, more)) = count p (unanswered ts) ≡ count p (unanswered (task ∷ more))

    with_task-IsPickOf :
        (task : Task json) (ts : List (Task json)) (o : Option (Task json × List (Task json)))
        → IsPickOf ts o
        → IsPickOf (task ∷ ts) (with_task json task o)
    unfolding with_task IsPickOf
    with_task-IsPickOf task ts none h = tt
    with_task-IsPickOf task ts (some (chosen, more)) h = omega (
      arith,
      h,
      count-append p (asked_by task) (unanswered ts),
      count-append p (asked_by chosen) (unanswered more),
      count-append p (asked_by chosen) (asked_by task ++ unanswered more),
      count-append p (asked_by task) (unanswered more),
    )

    pick-IsPickOf : (n : ℕ) (ts : List (Task json)) → IsPickOf ts (pick json n ts)
    unfolding pick IsPickOf
    pick-IsPickOf zero [] = tt
    pick-IsPickOf (suc n) [] = tt
    pick-IsPickOf zero (task ∷ ts) = refl
    pick-IsPickOf (suc n) (task ∷ ts) = with_task-IsPickOf task ts _ (pick-IsPickOf n ts)

    go_on-IsBalanced :
        (f : Found) (o : Option (Task json × List (Task json))) (t : Session json)
        → IsPickOf t.tasks o
        → IsBalanced [] t (go_on json f o t)
    unfolding go_on IsPickOf IsBalanced
    go_on-IsBalanced f none t h = omega arith
    go_on-IsBalanced f (some (reading v, more)) t h = omega (arith, h)
    go_on-IsBalanced f (some (handling m v i, more)) t h = omega (arith, h)
    go_on-IsBalanced f (some (answering i a, more)) t h =
        omega (arith, h, count-append p (i ∷ []) (unanswered more), count-append p (i ∷ []) [])

    step-IsBalanced :
        (f : Found) (n : Next json) (t : Session json)
        → IsBalanced (requested_by n) t (step json f n t)
    unfolding step receive IsBalanced
    step-IsBalanced f (line none) t = omega arith
    step-IsBalanced f (line (some v)) t = receive-IsBalanced v t
    step-IsBalanced f waited t = omega arith
    step-IsBalanced f watched t = omega arith
    step-IsBalanced f (turn n) t =
        go_on-IsBalanced f (pick json n t.tasks) t (pick-IsPickOf n t.tasks)

    run-IsBalanced :
        (ns : List (Found × Next json)) (t : Session json)
        → IsBalanced (requested ns) t (run json ns t)
    unfolding run IsBalanced
    run-IsBalanced [] t = omega arith
    run-IsBalanced ((f, n) ∷ ns) t =
        let a = step json f n t in
        omega (
          arith,
          ap (λ l. count p l) (answered-append a.0 (run json ns a.1).0),
          count-append p (answered a.0) (answered (run json ns a.1).0),
          count-append p (requested_by n) (requested ns),
          step-IsBalanced f n t,
          run-IsBalanced ns a.1,
        )

  requested-to_the_end : (f : Found) (ts : List (Task json)) → requested (to_the_end f ts) ≡ []
  requested-to_the_end f [] = refl
  requested-to_the_end f (reading v ∷ ts) = requested-to_the_end f ts
  requested-to_the_end f (handling m v i ∷ ts) = requested-to_the_end f ts
  requested-to_the_end f (answering i a ∷ ts) = requested-to_the_end f ts

  tasks-to_the_end :
      (f : Found) (ts : List (Task json)) (s : Server)
      → (run json (to_the_end f ts) (record { server = s; tasks = ts })).1.tasks ≡ []
  unfolding run step go_on pick
  tasks-to_the_end f [] s = refl
  tasks-to_the_end f (reading v ∷ ts) s = tasks-to_the_end f ts _
  tasks-to_the_end f (handling m v i ∷ ts) s = tasks-to_the_end f ts _
  tasks-to_the_end f (answering i a ∷ ts) s = tasks-to_the_end f ts _

-- Whatever lines come, and however the tasks, the waits and the watchdog are interleaved: each id has as
-- many answers and unfinished tasks together as requests were read with it and tasks had it before; a
-- notification, an answer of the client and a line that cannot be read add none. If the tasks that are
-- left then go on to their ends, each id has exactly as many answers as requests and tasks. The ids are
-- counted by any test on them.
pub run-answered :
    (json : Serde) (p : json.Value → Bool) (ns : List (Found × Next json)) (t : Session json)
    (f : Found)
    → let r = run json ns t in
      let rest = run json (to_the_end json f r.1.tasks) r.1 in
      (count p (answered json r.0) + count p (unanswered json r.1.tasks)
        ≡ count p (unanswered json t.tasks) + count p (requested json ns))
      × (rest.1.tasks ≡ [])
      × (count p (answered json r.0) + count p (answered json rest.0)
          ≡ count p (unanswered json t.tasks) + count p (requested json ns))
unfolding IsBalanced
run-answered json p ns t f =
    let r = run json ns t in
    let rest = run json (to_the_end json f r.1.tasks) r.1 in
    let done = tasks-to_the_end json f r.1.tasks r.1.server in
    (
      run-IsBalanced json p ns t,
      done,
      omega (
        arith,
        run-IsBalanced json p ns t,
        run-IsBalanced json p (to_the_end json f r.1.tasks) r.1,
        ap (λ (ts : List (Task json)). count p (unanswered json ts)) done,
        ap (λ (l : List json.Value). count p l) (requested-to_the_end json f r.1.tasks),
      ),
    )

state-now_named : (json : Serde) (r : Option Text × Server) → (now_named json r).1 ≡ r.1
unfolding now_named
state-now_named json (none, s) = refl
state-now_named json (some a, s) = refl

-- What the folder of the client changes nothing of.
record IsSettled (s t : Server) : Type 0 where
  pub explicit : t.explicit ≡ s.explicit
  pub client_name : t.client_name ≡ s.client_name

client-IsSettled : (f : Found) (s : Server) → IsSettled s (client f s).1
unfolding client open_client
client-IsSettled f s = elim (Bool-cases (is_some s.client && f.alive)) [
  | inl e ↦ rw (e, client) (record { explicit = refl; client_name = refl })
  | inr e ↦ rw (e, client) (record { explicit = refl; client_name = refl })
]

rename-IsSettled :
    (json : Serde) (f : Found) (v : json.Value) (s : Server) → IsSettled s (rename json f v s).1
unfolding rename renamed
rename-IsSettled json f v s =
    let name = unwrap_or [] (json.as_str (json.field (codes "name") v)) in
    elim (Bool-cases (valid_name name)) [
      | inl e ↦
          rw (e, rename)
            (subst (IsSettled s) (sym (state-now_named json (client f (renamed json name v s)))) (
              let c = client-IsSettled f (renamed json name v s) in
              record { explicit = c.explicit; client_name = c.client_name }))
      | inr e ↦ rw (e, rename) (record { explicit = refl; client_name = refl })
    ]

name-adopt :
    (s : Server) (path : Text)
    → s.explicit ≡ false
    → (adopt (some path) s).name ≡ (identity_for s.client_name (some path)).0
unfolding adopt set_identity
name-adopt s path h = rw h refl

-- The name that a session was given by `courier_set_name` does not outlast the folder of its client: in a
-- session that was started without a name, a report of a folder after the renaming puts the name
-- derived from the client and that folder in its place, whichever name was chosen.
pub apply_roots-renamed :
    (json : Serde) (f g : Found) (v result : json.Value) (s : Server) (uri path : Text)
    → s.explicit ≡ false
    → json.as_str (json.field (codes "uri") (json.element 0 (json.field (codes "roots") result)))
      ≡ some uri
    → file_uri_to_path uri ≡ some path
    → (apply_roots json g result (rename json f v s).1).name
      ≡ (identity_for s.client_name (some path)).0
unfolding apply_roots path_of adopt set_identity
apply_roots-renamed json f g v result s uri path e u p =
    let r = (rename json f v s).1 in
    let k = rename-IsSettled json f v s in
    rw (u, apply_roots)
      (rw (p, path_of)
        (name-adopt r path (k.explicit ∙ e)
          ∙ ap (λ c. (identity_for c (some path)).0) k.client_name))
