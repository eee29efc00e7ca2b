-- ===== src/Guard/Regexes.antt =====
-- guard.rs: the regular expressions of the guard. The engine (package regex) is another's: the model
-- takes what `replace_all` visits, the pieces of a text between the matches and the matches with
-- their groups, and the documented facts that the pieces make up the text and that a group stands
-- in it.
use agora_protocol.Base.{◌≡◌, Bool, List, [], ◌∷◌, ◌++◌, Text, All}

pub data Pattern : Type 0 where
  ansi private_key jwt api_token secret_assignment secret_env : Pattern
  url_login email_address iban_code card_number phone_number ip_address : Pattern
  call_reference var_reference attr_reference : Pattern

-- The match and its first three groups.
pub record Captures : Type 0 where
  pub matched : Text
  pub first : Text
  pub second : Text
  pub third : Text

pub data Piece : Type 0 where
  between_matches : Text → Piece
  hit : Captures → Piece

abbrev pub piece_text : Piece → Text
piece_text (between_matches t) = t
piece_text (hit c) = c.matched

unfoldable pub joined : List Piece → Text
joined [] = []
joined (p ∷ ps) = piece_text p ++ joined ps

-- `t` is a part of `s`.
abbrev pub IsPart : Text → Text → Type 0
IsPart t s = (before : Text) × (after : Text) × (s ≡ before ++ (t ++ after))

abbrev pub HasParts : Text → Piece → Type 0
HasParts s (between_matches t) = IsPart t s
HasParts s (hit c) = IsPart c.matched s × IsPart c.first s × IsPart c.second s × IsPart c.third s

pub record Engine : Type 0 where
  pub pieces : Pattern → Text → List Piece
  pub is_match : Pattern → Text → Bool
  pub joined-pieces : (p : Pattern) (s : Text) → joined (pieces p s) ≡ s
  pub pieces-HasParts : (p : Pattern) (s : Text) → All (HasParts s) (pieces p s)
