-- ===== src/Command/Names.antt =====
-- main.rs: the names that agents go by on the command line are valid.
use agora_protocol.Base.{
  ℕ, ◌≡◌, refl, ap, ◌∙◌, Option-cases, subst, Bool, true, false, inl, inr, List, [], ◌∷◌, Option,
  none, some, Text, codes, text_eq, All, Bool-cases, arith, if◌then◌else◌, byte_len,
  is_alphanumeric,
}
use agora_protocol.Base.Dict.{Dict, lookup, contains_key}
use agora_protocol.Base.Result.{Result, ok, err, ◌>>=◌}
use agora_protocol.Config.Names.{valid_name, is_name_char}
use agora_protocol.Mcp.Server.{Serde, Found, start}
use agora_protocol.Mcp.Server.Names.{opened-AreNames}
use agora_protocol.Mcp.Server.Requests
use agora_protocol.Mcp.Server.Requests.{Next}
use agora_protocol.Config.Lock.{parse_u64}
use agora_protocol.Command.{
  Parsed, usage, message_of, Command, serve_session, send, send_file, receive, UsageError,
  name_flag, checked_name, or_env, cli_or, number_or, admin_command, agent_command, other_command,
  relay_command, on_off, dispatch, chosen, or_other, parse, run,
}

-- The name in a command, if it carries one.
abbrev NameOf : Command → Type 0
NameOf (serve_session (some n) about push root) = valid_name n ≡ true
NameOf (send to text n) = valid_name n ≡ true
NameOf (send_file to path n) = valid_name n ≡ true
NameOf (receive n wait) = valid_name n ≡ true
NameOf _ = Unit

abbrev IsFine : Result UsageError Command → Type 0
IsFine (ok c) = NameOf c
IsFine (err e) = Unit

abbrev IsFineIfAny : Option (Result UsageError Command) → Type 0
IsFineIfAny none = Unit
IsFineIfAny (some r) = IsFine r

admin_command-IsFine :
    (c : Text) (more : List Text) (flags : Dict Text) → IsFineIfAny (admin_command c more flags)
unfolding admin_command number_or on_off
admin_command-IsFine c [] flags = ground arith
admin_command-IsFine c (a ∷ []) flags = ground arith
admin_command-IsFine c (a ∷ b ∷ []) flags = ground arith
admin_command-IsFine c (a ∷ b ∷ d ∷ more) flags = ground arith

number_or-Fine :
    (d : ℕ) (t : Option Text) (n : Text)
    → valid_name n ≡ true
    → IsFine (number_or d t >>= λ w. ok (receive n w))
unfolding number_or
number_or-Fine d none n h = h
number_or-Fine d (some t) n h = elim (Option-cases (parse_u64 t)) [
  | inl e ↦ rw (e, number_or) tt
  | inr (w, e) ↦ rw (e, number_or) h
]

-- What follows a name that was checked.
checked_name-Fine :
    (o : Option Text) (next : Option Text → Result UsageError Command)
    → IsFine (next none)
    → ((n : Text) → valid_name n ≡ true → IsFine (next (some n)))
    → IsFine (checked_name o >>= next)
unfolding checked_name
checked_name-Fine none next a b = a
checked_name-Fine (some n) next a b = elim (Bool-cases (valid_name n)) [
  | inl e ↦ rw (e, checked_name) (b n e)
  | inr e ↦ rw (e, checked_name) tt
]

cli_name : valid_name (codes "cli") ≡ true
unfolding valid_name byte_len is_name_char is_alphanumeric
cli_name = refl

either-IsFine :
    (b : Bool) (x y : Option (Result UsageError Command))
    → IsFineIfAny x
    → IsFineIfAny y
    → IsFineIfAny (if b then x else y)
either-IsFine true x y p q = p
either-IsFine false x y p q = q

agent_command-IsFine :
    (env : Option Text) (c : Text) (more : List Text) (flags : Dict Text)
    → IsFineIfAny (agent_command env c more flags)
unfolding agent_command name_flag
agent_command-IsFine env c more flags =
    let name = or_env (lookup (codes "name") flags) env in
    let wait = lookup (codes "wait") flags in
    either-IsFine (text_eq c (codes "mcp")) _ _
      (checked_name-Fine name
        (λ n. ok (
          serve_session n (lookup (codes "about") flags) (contains_key (codes "channel") flags)
            (lookup (codes "root") flags)))
        tt (λ n h. h))
      (either-IsFine (text_eq c (codes "send")) _ _ (sends more) (
        either-IsFine (text_eq c (codes "send-file")) _ _ (sends_file more) (
          either-IsFine (text_eq c (codes "recv")) _ _
            (checked_name-Fine name (λ n. number_or 0 wait >>= λ w. ok (receive (cli_or n) w))
              (number_or-Fine 0 wait _ cli_name) (λ n h. number_or-Fine 0 wait n h))
            tt)))
  where
    sends :
        (more : List Text)
        → IsFineIfAny (elim more [
          | to ∷ w ∷ ws ↦
              some (name_flag env flags >>= λ n. ok (send to (message_of (w ∷ ws)) (cli_or n)))
          | _ ↦ some (err (usage (codes "send")))
        ])
    sends [] = tt
    sends (a ∷ []) = tt
    sends (a ∷ b ∷ more) =
        checked_name-Fine (or_env (lookup (codes "name") flags) env)
          (λ n. ok (send a (message_of (b ∷ more)) (cli_or n))) cli_name (λ n h. h)

    sends_file :
        (more : List Text)
        → IsFineIfAny (elim more [
          | to ∷ path ∷ rest ↦ some (name_flag env flags >>= λ n. ok (send_file to path (cli_or n)))
          | _ ↦ some (err (usage (codes "send-file")))
        ])
    sends_file [] = tt
    sends_file (a ∷ []) = tt
    sends_file (a ∷ b ∷ more) =
        checked_name-Fine (or_env (lookup (codes "name") flags) env)
          (λ n. ok (send_file a b (cli_or n))) cli_name (λ n h. h)

other_command-IsFine :
    (c : Text) (more : List Text) (flags : Dict Text) → IsFine (other_command c more flags)
unfolding other_command relay_command
other_command-IsFine c [] flags = ground arith
other_command-IsFine c (a ∷ []) flags = ground arith
other_command-IsFine c (a ∷ b ∷ []) flags = ground arith
other_command-IsFine c (a ∷ b ∷ d ∷ more) flags = ground arith

or_other-IsFine :
    (o : Option (Result UsageError Command)) (r : Result UsageError Command)
    → IsFineIfAny o
    → IsFine r
    → IsFine (or_other o r)
unfolding or_other
or_other-IsFine none r p q = q
or_other-IsFine (some x) r p q = p

dispatch-IsFine :
    (env : Option Text) (pos : List Text) (flags : Dict Text) → IsFine (dispatch env pos flags)
unfolding dispatch
dispatch-IsFine env [] flags = tt
dispatch-IsFine env (c ∷ more) flags = or_other-IsFine _ _ (admin_command-IsFine c more flags) (
    or_other-IsFine _ _ (agent_command-IsFine env c more flags) (other_command-IsFine c more flags))

run-IsFine : (env : Option Text) (args : List Text) → IsFine (run env args)
unfolding run chosen
run-IsFine env args = by_parse (parse args)
  where
    by_parse : (r : Result UsageError Parsed) → IsFine (r >>= λ p. chosen env p)
    by_parse (err e) = tt
    by_parse (ok (pos, flags)) = elim (Bool-cases (contains_key (codes "version") flags)) [
      | inl e ↦ rw (e, chosen) tt
      | inr e ↦ rw (e, chosen) (dispatch-IsFine env pos flags)
    ]

session-named :
    (r : Result UsageError Command) (name about root : Option Text) (push : Bool)
    → IsFine r
    → r ≡ ok (serve_session name about push root)
    → (n : Text) → name ≡ some n
    → valid_name n ≡ true
session-named r name about root push h e n m =
    subst IsFine (e ∙ ap (λ o. ok (serve_session o about push root)) m) h

-- The server of a session that was started from the command line registers only under names that the node
-- accepts: whatever the arguments and the environment say, whatever the client sends, whichever
-- folders and names it reports, however the tasks of the server are ordered, and whatever the node
-- answers.
pub run-AreNames :
    (env : Option Text) (args : List Text) (name about root cwd : Option Text) (push : Bool)
    (json : Serde) (ns : List (Found × Next json))
    → run env args ≡ ok (serve_session name about push root)
    → All
        (λ o. valid_name o.name ≡ true)
        (Requests.run json ns
          (Requests.session_of json (start name about push root cwd))).1.server.opened
run-AreNames env args name about root cwd push json ns h =
    opened-AreNames json ns name about push root cwd
      (session-named (run env args) name about root push (run-IsFine env args) h)
