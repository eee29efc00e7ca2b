-- ===== src/Mcp.antt =====
-- mcp.rs: the name that an agent gets when it does not choose one.
pub mod Channel
pub mod Roots
pub mod Server
pub mod Names
use agora_protocol.Base.{
  ℕ, Bool, true, false, ◌&&◌, ◌||◌, not, List, [], ◌∷◌, ◌++◌, Option, none, some, Text, codes,
  contains, is_empty, is_alphanumeric, to_lowercase, trim_start, trim_end, after_last, take, ◌==◌,
  if◌then◌else◌,
}

abbrev is_slug_char : ℕ → Bool
is_slug_char c = is_alphanumeric c || c == b'.' || c == b'_'

-- The loop of `slug`; `dash` says whether the output ends in a dash.
unfoldable pub slug_chars : Bool → Text → Text
slug_chars dash [] = []
slug_chars dash (c ∷ s) =
    let kept = c ∷ slug_chars false s in
    let skipped = slug_chars true s in
    let dashed = b'-' ∷ slug_chars true s in
    if is_slug_char c then kept else if dash then skipped else dashed

abbrev is_dash : ℕ → Bool
is_dash c = c == b'-'

unfoldable pub slug : Text → Text
slug s = take 40 (trim_end is_dash (trim_start is_dash (slug_chars false (to_lowercase s))))

-- The short and the long name of a client.
unfoldable pub client_names : Text → Text × Text
client_names c =
    if contains (codes "visual studio code") c || contains (codes "vscode") c
    then (codes "copilot", codes "VS Code Copilot")
    else if contains (codes "claude") c
    then (codes "claude", codes "Claude Code")
    else if contains (codes "codex") c
    then (codes "codex", codes "Codex")
    else if contains (codes "cursor") c
    then (codes "cursor", codes "Cursor")
    else (codes "agent", codes "AI agent")

abbrev is_separator : ℕ → Bool
is_separator c = c == b'/' || c == 0x5c

-- The last part of the root, or nothing.
unfoldable pub project_of : Option Text → Text
project_of none = []
project_of (some r) = after_last is_separator (trim_end is_separator r)

unfoldable pub identity_for : Text → Option Text → Text × Text
identity_for client root =
    let names = client_names (to_lowercase client) in
    let project = project_of root in
    if is_empty (slug project)
    then names
    else (names.0 ++ b'-' ∷ slug project, names.1 ++ (codes ", project " ++ project))
