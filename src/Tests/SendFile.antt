-- ===== src/Tests/SendFile.antt =====
-- A text file of a project that goes to a connected machine.
use agora_protocol.Base.{
  ◌≡◌, refl, [], ◌∷◌, none, some, true, false, Bool, Text, Bytes, codes, any, mem_text, text_eq,
  starts_with, rsplit_once, byte_len, is_alphanumeric, split, after_last, ends_with, to_lowercase,
  replace_chars, mem, contains,
}
use agora_protocol.Base.Dict.{lookup}
use agora_protocol.Config.Names.{valid_name, is_name_char}
use agora_protocol.Config.Peers.{peer_named}
use agora_protocol.Files.Paths.{
  sensitive, in_private_dir, normal, private_dirs, private_name, private_files, last_or_empty,
  has_key_extension, key_extensions,
}
use agora_protocol.Node.Address.{split_addr}
use agora_protocol.Base.Result.{ok}
use agora_protocol.Files.Kinds.{text, classify, has_magic, has_at, is_utf8}
use agora_protocol.Node.Types.{State}
use agora_protocol.Node.SendFile.{
  Found, secret_hits, send_file, file_to_send, file_target, file_path, text_checked, put_file,
}
use agora_protocol.Node.SendFile.Safe.{IsSendable, send_file-safe}
use agora_protocol.Tests.Values.{home, busy, zero_key}

abbrev inside : Text → Text → Bool
inside p root = starts_with root p

abbrev paper : Found
paper = record {
  root = some (codes "/home/a/paper");
  homes = codes "/home/a" ∷ [];
  full = some (codes "/home/a/paper/x.txt");
  name = codes "x.txt";
  regular = true;
  size = 2;
  content = some (codes "hi");
}

abbrev connected : State
connected = record busy {
  links =
      (
        codes "laptop",
        record { tx = []; acks = 0; id = 1; key = zero_key; i_initiated = true; since = 0 },
      )
      ∷ [];
}

abbrev file_sent : State
file_sent =
    (send_file inside (λ t. (t, [])) (λ b. some b) home (λ t. (t, [])) (λ b. b) (λ b. b)
      (codes "alice") true (codes "bob@laptop") paper none (codes "f9") 5 connected).1

paper_goes :
    send_file inside
      (λ t. (t, []))
      (λ b. some b)
      home
      (λ t. (t, []))
      (λ b. b)
      (λ b. b)
      (codes "alice")
      true
      (codes "bob@laptop")
      paper
      none
      (codes "f9")
      5
      connected
    ≡ (ok tt, file_sent)
unfolding send_file file_to_send file_target split_addr rsplit_once text_eq valid_name byte_len
    is_name_char is_alphanumeric peer_named file_path starts_with sensitive in_private_dir split
    normal after_last ends_with to_lowercase replace_chars mem_text classify text_checked put_file
    lookup has_magic has_at is_utf8 mem private_dirs contains private_name private_files
    last_or_empty has_key_extension key_extensions
paper_goes = refl

send_file-safe_example :
    (full : Text) × IsSendable inside paper home full
    × ((b : Bytes) × (paper.content ≡ some b)
        × ((t : Text)
            → classify b ≡ text
            → some b ≡ some t
            → any (λ h. mem_text h secret_hits) [] ≡ false))
send_file-safe_example =
    send_file-safe inside (λ t. (t, [])) (λ b. some b) home (λ t. (t, [])) (λ b. b) (λ b. b)
      (codes "alice") true (codes "bob@laptop") paper none (codes "f9") 5 connected file_sent
      paper_goes
