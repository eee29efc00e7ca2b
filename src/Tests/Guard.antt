-- ===== src/Tests/Guard.antt =====
-- The guard at concrete inputs, with an engine that matches a whole text as a private key.
use mathlib.Core.List.{append-nil}
use agora_protocol.Base.{
  ◌≡◌, refl, sym, Bool, true, false, List, [], ◌∷◌, ◌++◌, some, Text, codes, between, byte_len, All,
  Bool-cases, inl, inr, if◌then◌else◌, arith, text_eq, mem_text, is_control, utf8_width,
}
use agora_protocol.Config.Types.{default_guard}
use agora_protocol.Guard.Regexes.{
  Pattern, private_key, Piece, between_matches, hit, Engine, joined, IsPart, HasParts,
}
use agora_protocol.Guard.Checks.{panics, masked_if, is_one, check_iban, split_bytes, whole, mask}
use agora_protocol.Guard.Checks.Remainder.{
  account_number, rem_of, is_cut, check_iban-remainder, check_iban-wide_digit,
}
use agora_protocol.Guard.Clean.{
  clean, sanitize, keep, redact, apply_rules, rules, apply_rule, replaced, without_matches,
}
use agora_protocol.Guard.Clean.Laws.{IsVisible, clean-IsVisible}
use agora_protocol.Guard.Clean.Unchanged.{clean-unreported}

abbrev whole_match : Text → Piece
whole_match s = hit (record { matched = s; first = []; second = []; third = [] })

abbrev is_private_key : Pattern → Bool
is_private_key private_key = true
is_private_key _ = false

abbrev key_pieces : Pattern → Text → List Piece
key_pieces p s = if is_private_key p then whole_match s ∷ [] else between_matches s ∷ []

joined-key_pieces : (p : Pattern) (s : Text) → joined (key_pieces p s) ≡ s
unfolding joined
joined-key_pieces p s = elim (Bool-cases (is_private_key p)) [
  | inl b ↦ rw b (append-nil s)
  | inr b ↦ rw b (append-nil s)
]

whole-IsPart : (s : Text) → IsPart s s
whole-IsPart s = ([], [], sym (append-nil s))

empty-IsPart : (s : Text) → IsPart [] s
empty-IsPart s = ([], s, refl)

key_pieces-HasParts : (p : Pattern) (s : Text) → All (HasParts s) (key_pieces p s)
key_pieces-HasParts p s = elim (Bool-cases (is_private_key p)) [
  | inl b ↦ rw b ((whole-IsPart s, empty-IsPart s, empty-IsPart s, empty-IsPart s), tt)
  | inr b ↦ rw b (whole-IsPart s, tt)
]

abbrev key_engine : Engine
key_engine = record {
  pieces = key_pieces;
  is_match = λ p s. false;
  joined-pieces = joined-key_pieces;
  pieces-HasParts = key_pieces-HasParts;
}

abbrev key_mark : Text
key_mark = codes "[REDACTED:private_key]"

key_cleaned :
    clean key_engine default_guard (codes "abc") ≡ some (key_mark, codes "private_key" ∷ [])
unfolding clean redact apply_rules rules apply_rule text_eq replaced whole mask mem_text
key_cleaned = refl

clean-IsVisible_example : IsVisible key_mark
clean-IsVisible_example =
    clean-IsVisible key_engine default_guard (codes "abc") key_mark (codes "private_key" ∷ [])
      key_cleaned

abbrev idle_engine : Engine
idle_engine = record {
  pieces = λ p s. between_matches s ∷ [];
  is_match = λ p s. false;
  joined-pieces = λ p s. unfold joined in append-nil s;
  pieces-HasParts = λ p s. (whole-IsPart s, tt);
}

idle_cleaned : clean idle_engine default_guard (0x200B ∷ codes "abc") ≡ some (codes "abc", [])
unfolding clean redact apply_rules rules apply_rule text_eq replaced sanitize without_matches keep
    is_control
idle_cleaned = refl

clean-unreported_example : codes "abc" ≡ sanitize idle_engine (0x200B ∷ codes "abc")
clean-unreported_example =
    clean-unreported idle_engine default_guard (0x200B ∷ codes "abc") (codes "abc") idle_cleaned

abbrev account : Text
account = codes "DE89370400440532013000"

account_short : between 15 34 (byte_len account) ≡ true
unfolding byte_len
account_short = refl

account_split : split_bytes 4 account ≡ some (codes "DE89", codes "370400440532013000")
unfolding split_bytes utf8_width
account_split = refl

check_iban-remainder_example :
    check_iban account (codes "iban")
    ≡ masked_if
        (is_one (rem_of (account_number 0 (codes "370400440532013000" ++ codes "DE89"))))
        (codes "iban")
check_iban-remainder_example =
    check_iban-remainder account (codes "iban") (codes "DE89") (codes "370400440532013000")
      account_short account_split

-- `DE`, two digits zero of Devanagari and twelve more characters.
abbrev wide_account : Text
wide_account = b'D' ∷ b'E' ∷ 0x966 ∷ (0x966 ∷ codes "370400440532")

wide_short : between 15 34 (byte_len wide_account) ≡ true
unfolding byte_len
wide_short = refl

check_iban-wide_digit_example :
    (is_cut (utf8_width 0x966) (utf8_width 0x966) ≡ true
      → check_iban wide_account (codes "iban") ≡ panics)
    × (is_cut (utf8_width 0x966) (utf8_width 0x966) ≡ false
        → ¬ (check_iban wide_account (codes "iban") ≡ panics))
check_iban-wide_digit_example =
    check_iban-wide_digit b'D' b'E' 0x966 0x966 (codes "370400440532") (codes "iban") (omega arith)
      (omega arith) wide_short

digits_cut : is_cut (utf8_width 0x966) (utf8_width 0x966) ≡ true
unfolding utf8_width
digits_cut = refl
