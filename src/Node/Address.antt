-- ===== src/Node/Address.antt =====
-- node.rs: addresses of agents and the comparison of secrets.
pub mod Secrets
pub mod OneTime
use agora_protocol.Base.{
  ℕ, ◌≡◌, refl, Bool, true, ◌&&◌, ◌||◌, List, [], ◌∷◌, ◌++◌, Option, none, some, Text, codes,
  text_eq, rsplit_once, length, All-imp, ◌==◌, if◌then◌else◌,
}
use Prim.Native.Nat.{bit_or, bit_xor}
use agora_protocol.Base.TextLaws.{rsplit_once-append}
use agora_protocol.Config.Names.{valid_name, valid_name-IsName, name_char-ne_at}

-- `valid_thread`
unfoldable pub valid_thread : Option Text → Bool
valid_thread none = true
valid_thread (some t) = valid_name t

abbrev pub agent_or_any : Text → Bool
agent_or_any a = text_eq a (codes "*") || valid_name a

-- `split_addr`; `none` is the error about an invalid address.
checked : Text → Option Text → Option (Text × Option Text)
checked a none = if agent_or_any a then some (a, none) else none
checked a (some p) = if agent_or_any a && valid_name p then some (a, some p) else none

address_parts : Text → Option (Text × Text) → Option (Text × Option Text)
unfolding checked
address_parts to none = checked to none
address_parts to (some (a, p)) = checked a (some p)

unfoldable pub split_addr : Text → Option (Text × Option Text)
unfolding address_parts
split_addr to = address_parts to (rsplit_once b'@' to)

-- An agent of a machine is found under `agent@machine`.
pub split_addr-at :
    (agent machine : Text)
    → agent_or_any agent ≡ true
    → valid_name machine ≡ true
    → split_addr (agent ++ b'@' ∷ machine) ≡ some (agent, some machine)
unfolding split_addr
split_addr-at agent machine h k =
    rw
      (rsplit_once-append b'@' agent machine
        (All-imp _ _ machine name_char-ne_at (valid_name-IsName machine k).chars))
      (rw (h, k) refl)

-- The fold of `ct_eq` over the pairs of bytes.
differences : ℕ → List ℕ → List ℕ → ℕ
differences acc [] ys = acc
differences acc (x ∷ xs) [] = acc
differences acc (x ∷ xs) (y ∷ ys) = differences (bit_or acc (bit_xor x y)) xs ys

-- `ct_eq`
unfoldable pub ct_eq : List ℕ → List ℕ → Bool
unfolding differences
ct_eq a b = length a == length b && differences 0 a b == 0
