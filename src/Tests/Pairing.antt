-- ===== src/Tests/Pairing.antt =====
-- Pairing and administration at concrete inputs: a server joins by an invitation.
use agora_protocol.Node.Address.Secrets.{IsByte}
use agora_protocol.Config.Names.{valid_name, is_name_char}
use agora_protocol.Base.{
  ◌≡◌, refl, none, true, false, Text, Bytes, codes, arith, All, byte_len, is_alphanumeric,
  to_uppercase, trim, text_eq,
}
use agora_protocol.Base.Dict.{lookup}
use agora_protocol.Config.Types.{Config}
use agora_protocol.Config.Peers.{has_peer, peer_by_key, key_is}
use agora_protocol.Config.Keys.{decode_key}
use agora_protocol.Node.Address.{ct_eq}
use agora_protocol.Node.Address.OneTime.{take_first}
use agora_protocol.Node.Links.{pending, unacked_to}
use agora_protocol.Node.Trust.{invite}
use agora_protocol.Node.Admin.{
  Node, rename, admin, edit, change_peer, update_peer, saved_and_applied,
}
use agora_protocol.Node.Admin.TrustList.{IsTrustList}
use agora_protocol.Node.Admin.Rename.{admin-rename}
use agora_protocol.Node.Pairing.{no_secret, secret, ended, pair, pairing, pair_by}
use agora_protocol.Node.Pairing.Spent.{pairing-spent}
use agora_protocol.Node.Pairing.Checked.{IsTrusted}
use agora_protocol.Node.Pairing.Trusted.{
  command, invited, paired, pruned, Comes, first, later, Comes-IsTrusted,
}
use agora_protocol.Tests.Values.{coding, zero_key, home, busy, read_unary}
use agora_protocol.Tests.Relay.{server_key}

-- `HEXLOWER` is shown by the bytes themselves.
abbrev hex : Bytes → Text
hex b = b

abbrev calm : Text → Text
calm t = t

abbrev at_home : Node
at_home = record { config = home; state = busy }

abbrev code : Text
code = codes "00ff"

abbrev inviting : Node
inviting = record at_home { state = (invite home code (codes "server") false 5 busy).1 }

abbrev with_server : Node
with_server =
    (pairing coding hex true none server_key (codes "10.0.0.2") 9 (secret code) inviting).1

server_pairs :
    pairing coding hex true none server_key (codes "10.0.0.2") 9 (secret code) inviting
    ≡ (pair (codes "server"), with_server)
unfolding pairing take_first invite valid_name byte_len is_name_char is_alphanumeric has_peer
    text_eq ct_eq pair_by peer_by_key key_is decode_key read_unary to_uppercase trim
    saved_and_applied
server_pairs = refl

code_bytes : All IsByte code
code_bytes = (omega arith, (omega arith, (omega arith, (omega arith, tt))))

abbrev OnDisk : Config → Type 0
OnDisk c = IsTrustList coding c.peer

abbrev other_code : Text
other_code = codes "11ff"

-- Another machine is invited, the test for open invitations runs, and a machine comes without a secret.
abbrev after_pairing : (n : Node) × Comes coding hex server_key calm OnDisk with_server n
after_pairing = (
  _,
  later (later (later first (invited other_code (codes "desk") false 12)) (pruned 13))
      (paired true none zero_key (codes "10.0.0.4") 14 no_secret refl),
)

pairing-spent_example :
    (pairing coding hex true none zero_key (codes "10.0.0.3") 20 (secret code) after_pairing.0).0
    ≡ ended
unfolding invite valid_name byte_len is_name_char is_alphanumeric has_peer text_eq ct_eq
pairing-spent_example =
    pairing-spent coding hex code server_key calm OnDisk true none server_key (codes "10.0.0.2") 9
      inviting after_pairing.0 true zero_key (codes "10.0.0.3") 20 code_bytes (code_bytes, tt, tt)
      after_pairing.1 (((tt, refl), tt), tt)

at_home-IsTrusted : IsTrusted coding at_home
unfolding valid_name byte_len is_name_char is_alphanumeric decode_key read_unary to_uppercase trim
at_home-IsTrusted = record { machines = ((refl, (zero_key, refl)), tt, tt); invited = tt }

served : (n : Node) × Comes coding hex server_key calm OnDisk at_home n
served = (
  _,
  later
      (later (later first (invited code (codes "server") false 5))
        (paired true none server_key (codes "10.0.0.2") 9 (secret code) refl))
      (command true none (rename (codes "laptop") (codes "desk")) (λ c e. absurd (cc))),
)

Comes-IsTrusted_example : IsTrusted coding served.0
Comes-IsTrusted_example =
    Comes-IsTrusted coding hex server_key calm OnDisk (λ c h. h) served.1 at_home-IsTrusted

abbrev renamed_home : Node
renamed_home =
    (admin coding server_key calm true none (rename (codes "laptop") (codes "desk")) at_home).1

admin-rename_example : pending (codes "desk") renamed_home.state ≡ pending (codes "laptop") busy
unfolding lookup text_eq unacked_to admin edit valid_name byte_len is_name_char is_alphanumeric
    has_peer change_peer update_peer saved_and_applied
admin-rename_example =
    admin-rename coding server_key calm none (codes "laptop") (codes "desk") at_home renamed_home
      refl refl refl
