-- ===== src/Relay/Roster.antt =====
-- relay.rs: the file of the relay, `relay.toml`: who is a member and which invitations are open. The
-- functions are the changes that `update` makes under the file lock; reading and writing the file is
-- left out. The hash of a secret (package blake2) is an argument.
pub mod Members
pub mod Joining
use agora_protocol.Node.Address.OneTime.{take_first}
use agora_protocol.Base.{
  ℕ, ◌+◌, Bool, true, false, ◌&&◌, ◌||◌, not, List, [], ◌∷◌, ◌++◌, map, Option, none, some, Text,
  Bytes, codes, text_eq, mem, length, any, find, retain, ltb, if◌then◌else◌,
}
use agora_protocol.Base.Result.{Result, ok, err}
use agora_protocol.Config.Names.{valid_name}
use agora_protocol.Config.Keys.{Base32, encode_key, decode_key}
use agora_protocol.Config.Peers.{key_is}
use agora_protocol.Codes.{relay_code}
use agora_protocol.Node.Address.{ct_eq}

pub record Member : Type 0 where
  pub name : Text
  pub key : Text

-- Of the secret only the hash is kept.
pub record Invite : Type 0 where
  pub name : Text
  pub hash : Text
  pub expires : ℕ

pub record RelayFile : Type 0 where
  pub listen : Text
  pub member : List Member
  pub invite : List Invite

-- `RelayFile::default()`
abbrev pub empty_roster : RelayFile
empty_roster = record { listen = codes "0.0.0.0:7400"; member = []; invite = [] }

-- `INVITE_SECS`
abbrev pub invite_secs : ℕ
invite_secs = 600

pub data InviteError : Type 0 where
  bad_name no_port : InviteError

name_of : Option Member → Option Text
name_of none = none
name_of (some m) = some m.name

unfoldable pub remove : Text → RelayFile → Bool × RelayFile
remove name f =
    let kept = retain (λ m. not (text_eq m.name name)) f.member in
    (ltb (length kept) (length f.member), record f { member = kept })

-- The part of `serve` that changes the file: the address, if one is given.
unfoldable pub serve_at : Option Text → RelayFile → (Text × ℕ) × RelayFile
serve_at none f = ((f.listen, length f.member), f)
serve_at (some l) f = ((l, length f.member), record f { listen = l })

-- `members`
unfoldable pub members : RelayFile → List (Text × Text)
members f = map (λ m. (m.name, m.key)) f.member

module _ (base32 : Base32) where
  unfoldable pub member_name : RelayFile → Bytes → Option Text
  unfolding name_of
  member_name f key = name_of (find (λ m. key_is key (decode_key base32 m.key)) f.member)

  abbrev is_member : RelayFile → Bytes → Bool
  is_member f key = elim (member_name f key) [ none ↦ false | some n ↦ true ]

  -- Who may finish the handshake, in `conn`: a member, or anyone while an invitation is open.
  unfoldable pub allowed : RelayFile → ℕ → Bytes → Bool
  allowed f now key = is_member f key || any (λ i. ltb now i.expires) f.invite

  -- The members with the machine of the invitation, in place of those with its name or its key.
  unfoldable pub enrolled : Text → Bytes → List Member → List Member
  enrolled name key ms =
      retain (λ m. not (text_eq m.name name) && not (text_eq m.key (encode_key base32 key))) ms
      ++ (record { name = name; key = encode_key base32 key }) ∷ []

  unfoldable pub enroll :
      Bytes → RelayFile → List Invite → Option (Invite × List Invite) → Option Text × RelayFile
  enroll key f open_ones none = (none, record f { invite = open_ones })
  enroll key f open_ones (some (i, others)) =
      (some i.name, record f { invite = others; member = enrolled i.name key f.member })

  module _ (hash : Bytes → Text) where
    unfoldable pub invite :
        Bytes → Text → Text → Bytes → ℕ → RelayFile → Result InviteError Text × RelayFile
    invite my_key name addr secret now f =
        if not (valid_name name)
        then (err bad_name, f)
        else if not (mem b':' addr)
        then (err no_port, f)
        else (
          ok (relay_code base32 addr my_key secret),
          record f {
            invite =
                retain (λ i. ltb now i.expires && not (text_eq i.name name)) f.invite
                ++ (record { name = name; hash = hash secret; expires = now + invite_secs }) ∷ [];
          },
        )

    -- `join`, with the bytes that the secret in the request decodes to.
    unfoldable pub join : Bytes → Bytes → ℕ → RelayFile → Option Text × RelayFile
    unfolding enroll
    join key raw now f =
        let open_ones = retain (λ i. ltb now i.expires) f.invite in
        enroll key f open_ones (take_first (λ i. ct_eq i.hash (hash raw)) open_ones)
