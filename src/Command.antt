-- ===== src/Command.antt =====
-- main.rs: the command line. What a command then asks of the node, of the relay or of the session's
-- server, and what it prints, is not modelled here.
pub mod Arguments
pub mod Names
use agora_protocol.Base.{
  ℕ, Bool, true, false, ◌&&◌, ◌||◌, not, List, [], ◌∷◌, ◌++◌, Option, none, some, Text, codes,
  text_eq, mem_text, starts_with, trim_start, join_with, ◌==◌, if◌then◌else◌,
}
use agora_protocol.Base.Dict.{Dict, lookup, insert, contains_key}
use agora_protocol.Base.Result.{Result, ok, err, ◌>>=◌}
use agora_protocol.Config.Lock.{parse_u64}
use agora_protocol.Config.Names.{valid_name}

pub data UsageError : Type 0 where
  needs_value : Text → UsageError
  unknown_flag : Text → UsageError
  invalid_agent_name : Text → UsageError
  usage : Text → UsageError
  unknown_relay_command : Text → UsageError
  not_a_number : Text → UsageError

abbrev pub switches : List Text
switches = codes "--channel" ∷ codes "--no-files" ∷ []

abbrev pub settings : List Text
settings =
    codes "--name"
    ∷ codes "--as"
    ∷ codes "--wait"
    ∷ codes "--root"
    ∷ codes "--about"
    ∷ codes "--listen"
    ∷ []

abbrev pub versions : List Text
versions = codes "--version" ∷ codes "-V" ∷ []

abbrev without_dashes : Text → Text
without_dashes = trim_start (λ c. c == b'-')

unfoldable pub key_of : Text → Text
key_of a = if text_eq a (codes "--as") then codes "name" else without_dashes a

abbrev pub Parsed : Type 0
Parsed = List Text × Dict Text

-- The arms of the `match` in `parse`.
pub data Kind : Type 0 where
  switch setting version word unknown : Kind

unfoldable pub kind : Text → Kind
kind a =
    if mem_text a switches
    then switch
    else if mem_text a settings
    then setting
    else if mem_text a versions
    then version
    else if text_eq a (codes "-")
    then word
    else if starts_with (codes "--") a
    then unknown
    else word

-- The loop of `parse`; the option is the flag that waits for its value.
unfoldable pub parse_loop :
    Option Text → List Text → List Text → Dict Text → Result UsageError Parsed
unfolding kind key_of
parse_loop none [] pos flags = ok (pos, flags)
parse_loop (some a) [] pos flags = err (needs_value a)
parse_loop (some a) (v ∷ rest) pos flags = parse_loop none rest pos (insert (key_of a) v flags)
parse_loop none (a ∷ rest) pos flags = elim (kind a) [
  | switch ↦ parse_loop none rest pos (insert (without_dashes a) [] flags)
  | setting ↦ parse_loop (some a) rest pos flags
  | version ↦ parse_loop none rest pos (insert (codes "version") [] flags)
  | word ↦ parse_loop none rest (pos ++ a ∷ []) flags
  | unknown ↦ err (unknown_flag a)
]

unfoldable pub parse : List Text → Result UsageError Parsed
unfolding parse_loop
parse args = parse_loop none args [] []

-- `env` is the variable AGENTCOURIER_NAME.
or_env : Option Text → Option Text → Option Text
or_env none env = env
or_env (some n) env = some n

checked_name : Option Text → Result UsageError (Option Text)
checked_name none = ok none
checked_name (some n) = if valid_name n then ok (some n) else err (invalid_agent_name n)

unfoldable pub name_flag : Option Text → Dict Text → Result UsageError (Option Text)
unfolding or_env checked_name
name_flag env flags = checked_name (or_env (lookup (codes "name") flags) env)

-- What the command line asks for. The text of `send` is a text or, for `none`, what stands on the input.
pub data Command : Type 0 where
  show_version show_id show_status show_peers show_trusted show_owner : Command
  reload stop run_node watch vscode help : Command
  invite : Text → Bool → Command
  join : Text → Text → Text → Command
  trust : Text → Text → Option Text → Command
  untrust : Text → Command
  rename : Text → Text → Command
  set_files : Text → Bool → Command
  set_owner : Text → Command
  show_log : ℕ → Command
  relay_serve : Option Text → Command
  relay_invite : Text → Text → Command
  relay_join : Text → Command
  relay_leave relay_members : Command
  relay_remove : Text → Command
  serve_session : Option Text → Option Text → Bool → Option Text → Command
  send : Text → Option Text → Text → Command
  send_file : Text → Text → Text → Command
  receive : Text → ℕ → Command

on_off : Text → Text → Result UsageError Command
on_off name v =
    if text_eq v (codes "on")
    then ok (set_files name true)
    else if text_eq v (codes "off")
    then ok (set_files name false)
    else err (usage (codes "files"))

-- An optional number, or the default.
number_or : ℕ → Option Text → Result UsageError ℕ
number_or d none = ok d
number_or d (some t) = elim (parse_u64 t) [ none ↦ err (not_a_number t) | some n ↦ ok n ]

abbrev pub cli_or : Option Text → Text
cli_or none = codes "cli"
cli_or (some n) = n

-- The text that `send` sends: the words behind the receiver, or the input when they begin with `-`.
unfoldable pub message_of : List Text → Option Text
message_of [] = some []
message_of (w ∷ ws) = if text_eq w (codes "-") then none else some (join_with (codes " ") (w ∷ ws))

unfoldable pub relay_command : List Text → Dict Text → Result UsageError Command
relay_command [] flags = ok (relay_serve (lookup (codes "listen") flags))
relay_command (o ∷ more) flags =
    if text_eq o (codes "invite")
    then elim more [
      | name ∷ addr ∷ rest ↦ ok (relay_invite name addr)
      | _ ↦ err (usage (codes "relay invite"))
    ]
    else if text_eq o (codes "join")
    then elim more [ code ∷ rest ↦ ok (relay_join code) | [] ↦ err (usage (codes "relay join")) ]
    else if text_eq o (codes "leave")
    then ok relay_leave
    else if text_eq o (codes "members")
    then ok relay_members
    else if text_eq o (codes "remove")
    then elim more [
      | name ∷ rest ↦ ok (relay_remove name)
      | [] ↦ err (usage (codes "relay remove"))
    ]
    else err (unknown_relay_command o)

-- The commands that an agent or a script uses, with the name that it goes by.
unfoldable pub agent_command :
    Option Text → Text → List Text → Dict Text → Option (Result UsageError Command)
unfolding name_flag number_or message_of
agent_command env c more flags =
    if text_eq c (codes "mcp")
    then some (
        name_flag env flags >>= λ n. ok (
          serve_session n (lookup (codes "about") flags) (contains_key (codes "channel") flags)
            (lookup (codes "root") flags)))
    else if text_eq c (codes "send")
    then elim more [
      | to ∷ w ∷ ws ↦
          some (name_flag env flags >>= λ n. ok (send to (message_of (w ∷ ws)) (cli_or n)))
      | _ ↦ some (err (usage (codes "send")))
    ]
    else if text_eq c (codes "send-file")
    then elim more [
      | to ∷ path ∷ rest ↦ some (name_flag env flags >>= λ n. ok (send_file to path (cli_or n)))
      | _ ↦ some (err (usage (codes "send-file")))
    ]
    else if text_eq c (codes "recv")
    then some (
        name_flag env flags >>= λ n.
        number_or 0 (lookup (codes "wait") flags) >>= λ w. ok (receive (cli_or n) w))
    else none

-- The commands that change or show what the node knows.
unfoldable pub admin_command : Text → List Text → Dict Text → Option (Result UsageError Command)
unfolding on_off number_or
admin_command c more flags =
    if text_eq c (codes "init") || text_eq c (codes "id")
    then some (ok show_id)
    else if text_eq c (codes "invite")
    then some (elim more [
      | name ∷ rest ↦ ok (invite name (not (contains_key (codes "no-files") flags)))
      | [] ↦ err (usage (codes "invite"))
    ])
    else if text_eq c (codes "join")
    then some (elim more [
      | code ∷ name ∷ addr ∷ rest ↦ ok (join code name addr)
      | _ ↦ err (usage (codes "join"))
    ])
    else if text_eq c (codes "status")
    then some (ok show_status)
    else if text_eq c (codes "peers")
    then some (ok show_peers)
    else if text_eq c (codes "trusted")
    then some (ok show_trusted)
    else if text_eq c (codes "trust")
    then some (elim more [
      | name ∷ key ∷ [] ↦ ok (trust name key none)
      | name ∷ key ∷ addr ∷ rest ↦ ok (trust name key (some addr))
      | _ ↦ err (usage (codes "trust"))
    ])
    else if text_eq c (codes "untrust")
    then some (elim more [ name ∷ rest ↦ ok (untrust name) | [] ↦ err (usage (codes "untrust")) ])
    else if text_eq c (codes "rename")
    then some
        (elim more [ name ∷ new ∷ rest ↦ ok (rename name new) | _ ↦ err (usage (codes "rename")) ])
    else if text_eq c (codes "files")
    then some (elim more [ name ∷ v ∷ rest ↦ on_off name v | _ ↦ err (usage (codes "files")) ])
    else if text_eq c (codes "owner")
    then some (elim more [
      | [] ↦ ok show_owner
      | w ∷ ws ↦ ok (set_owner (join_with (codes " ") (w ∷ ws)))
    ])
    else if text_eq c (codes "reload")
    then some (ok reload)
    else if text_eq c (codes "log")
    then some (elim more [
      | [] ↦ ok (show_log 20)
      | n ∷ rest ↦ number_or 20 (some n) >>= λ k. ok (show_log k)
    ])
    else if text_eq c (codes "stop")
    then some (ok stop)
    else none

or_other :
    Option (Result UsageError Command) → Result UsageError Command → Result UsageError Command
or_other none other = other
or_other (some r) other = r

unfoldable pub other_command : Text → List Text → Dict Text → Result UsageError Command
unfolding relay_command
other_command c more flags =
    if text_eq c (codes "node")
    then ok run_node
    else if text_eq c (codes "relay")
    then relay_command more flags
    else if text_eq c (codes "watch")
    then ok watch
    else if text_eq c (codes "vscode")
    then ok vscode
    else ok help

-- The `match` of `run`.
unfoldable pub dispatch : Option Text → List Text → Dict Text → Result UsageError Command
unfolding or_other admin_command agent_command other_command
dispatch env [] flags = ok help
dispatch env (c ∷ more) flags =
    or_other (admin_command c more flags)
      (or_other (agent_command env c more flags) (other_command c more flags))

chosen : Option Text → Parsed → Result UsageError Command
unfolding dispatch
chosen env (pos, flags) =
    if contains_key (codes "version") flags then ok show_version else dispatch env pos flags

unfoldable pub run : Option Text → List Text → Result UsageError Command
unfolding chosen
run env args = parse args >>= λ p. chosen env p
