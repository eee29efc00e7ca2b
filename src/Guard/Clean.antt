-- ===== src/Guard/Clean.antt =====
-- guard.rs: `sanitize`, `redact` and `clean`. `none` is a panic of a replacement.
pub mod Laws
pub mod Unchanged
use agora_protocol.Base.{
  ℕ, Bool, true, false, ◌&&◌, ◌||◌, not, List, [], ◌∷◌, ◌++◌, Option, none, some, Text, codes,
  text_eq, mem_text, between, retain, is_control, any, ◌==◌, if◌then◌else◌,
}
use agora_protocol.Config.Types.{GuardCfg}
use agora_protocol.Guard.Regexes.{
  Captures, Pattern, ansi, private_key, jwt, api_token, secret_assignment, secret_env, url_login,
  email_address, iban_code, card_number, phone_number, ip_address, Piece, between_matches, hit,
  Engine,
}
use agora_protocol.Guard.Checks.{
  Replacement, unchanged, panics, masked, whole, secret_value, url_cred, email, phone, card, iban,
}

-- The ranges of invisible characters.
abbrev pub invisible : List (ℕ × ℕ)
invisible =
    (0xAD, 0xAD)
    ∷ (0x34F, 0x34F)
    ∷ (0x61C, 0x61C)
    ∷ (0x115F, 0x115F)
    ∷ (0x1160, 0x1160)
    ∷ (0x180B, 0x180F)
    ∷ (0x200B, 0x200F)
    ∷ (0x2028, 0x202E)
    ∷ (0x2060, 0x2064)
    ∷ (0x2066, 0x206F)
    ∷ (0x3164, 0x3164)
    ∷ (0xFE00, 0xFE0F)
    ∷ (0xFEFF, 0xFEFF)
    ∷ (0xFFA0, 0xFFA0)
    ∷ (0xFFF9, 0xFFFB)
    ∷ (0x1D173, 0x1D17A)
    ∷ (0xE0000, 0xE007F)
    ∷ (0xE0100, 0xE01EF)
    ∷ []

-- `keep`: 10 is the end of a line and 9 the tabulator.
unfoldable pub keep : ℕ → Bool
keep c = (c == 10 || c == 9) || (not (is_control c) && not (any (λ r. between r.0 r.1 c) invisible))

pub record Rule : Type 0 where
  pub kind : Text
  pub re : Pattern
  pub rep : Captures → Text → Replacement

abbrev rule : Text → Pattern → (Captures → Text → Replacement) → Rule
rule kind re rep = record { kind = kind; re = re; rep = rep }

-- The rules of `Guard::new`.
unfoldable pub rules : Engine → List Rule
rules e =
    rule (codes "private_key") private_key whole
    ∷ rule (codes "token") jwt whole
    ∷ rule (codes "token") api_token whole
    ∷ rule (codes "secret") secret_assignment (secret_value e)
    ∷ rule (codes "secret") secret_env (secret_value e)
    ∷ rule (codes "credentials") url_login url_cred
    ∷ rule (codes "email") email_address email
    ∷ rule (codes "iban") iban_code iban
    ∷ rule (codes "card") card_number card
    ∷ rule (codes "phone") phone_number phone
    ∷ rule (codes "ip") ip_address whole
    ∷ []

-- `replace_all(s, "")`
unfoldable pub without_matches : List Piece → Text
without_matches [] = []
without_matches (between_matches t ∷ ps) = t ++ without_matches ps
without_matches (hit c ∷ ps) = without_matches ps

unfoldable pub sanitize : Engine → Text → Text
sanitize e s = retain keep (without_matches (e.pieces ansi s))

append_to : Bool → Text → Option (Bool × Text) → Option (Bool × Text)
append_to b t none = none
append_to b t (some (h, u)) = some (b || h, t ++ u)

-- `replace_all` with the closure of `redact`: whether some match was masked, and the text.
unfoldable pub replaced : Rule → List Piece → Option (Bool × Text)
unfolding append_to
replaced r [] = some (false, [])
replaced r (between_matches t ∷ ps) = append_to false t (replaced r ps)
replaced r (hit c ∷ ps) =
    let later = replaced r ps in
    elim (r.rep c r.kind) [
      | panics ↦ none
      | unchanged ↦ append_to false c.matched later
      | masked m ↦ append_to true m later
    ]

abbrev pub add_kind : Text → List Text → List Text
add_kind k hits = if mem_text k hits then hits else hits ++ k ∷ []

abbrev pub after_rule : Text → Text → List Text → Bool × Text → Text × List Text
after_rule k out hits (found, new) = if found then (new, add_kind k hits) else (out, hits)

-- One turn of the loop over the rules.
unfoldable pub apply_rule : Engine → GuardCfg → Rule → Text → List Text → Option (Text × List Text)
apply_rule e cfg r out hits =
    if text_eq r.kind (codes "ip") && not cfg.redact_ip
    then some (out, hits)
    else elim (replaced r (e.pieces r.re out)) [
      | none ↦ none
      | some n ↦ some (after_rule r.kind out hits n)
    ]

unfoldable pub apply_rules :
    Engine → GuardCfg → List Rule → Text → List Text → Option (Text × List Text)
apply_rules e cfg [] out hits = some (out, hits)
apply_rules e cfg (r ∷ rs) out hits = elim (apply_rule e cfg r out hits) [
  | none ↦ none
  | some (out', hits') ↦ apply_rules e cfg rs out' hits'
]

unfoldable pub redact : Engine → GuardCfg → Text → Option (Text × List Text)
redact e cfg s = if not cfg.redact then some (s, []) else apply_rules e cfg (rules e) s []

unfoldable pub clean : Engine → GuardCfg → Text → Option (Text × List Text)
clean e cfg s = redact e cfg (sanitize e s)
