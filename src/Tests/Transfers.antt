-- ===== src/Tests/Transfers.antt =====
-- A file of three bytes that a peer sends in one chunk.
use agora_protocol.Node.Admit.{admit, take_token, refill, rate_of, note_seen}
use agora_protocol.Config.Names.{valid_name, is_name_char}
use agora_protocol.Config.Peers.{peer_named}
use agora_protocol.Base.Dict.{lookup, insert}
use agora_protocol.Base.{
  ◌≤◌, ◌≡◌, refl, Bool, true, [], Option, none, some, Text, Bytes, codes, length, text_eq, byte_len,
  is_alphanumeric, mem_text,
}
use agora_protocol.Node.Types.{FileMeta, Incoming, State, empty_state}
use agora_protocol.Node.Transfers.{
  TransferError, new_transfer, taken, on_file_chunk, on_file_start, on_file_end, is_complete,
  after_chunk, file_chunk, after_start, file_start, valid_header, after_admit, open_transfer,
  in_flight, transfers_of,
}
use agora_protocol.Node.Transfers.Complete.{Steps, stop, header, chunk, is_complete-Steps}
use agora_protocol.Tests.Values.{home}

abbrev zero_hash : Text
zero_hash = codes "0000000000000000000000000000000000000000000000000000000000000000"

abbrev picture : FileMeta
picture = record {
  id = codes "f1";
  from = codes "bob";
  to = codes "alice";
  name = codes "a.png";
  size = 3;
  hash = zero_hash;
  note = none;
  ts = 5;
}

abbrev any_hex : Text → Bool
any_hex t = true

abbrev plain_bytes : Text → Option Bytes
plain_bytes t = some t

abbrev silent : TransferError → Text
silent e = []

abbrev started : State
started =
    on_file_start any_hex silent home (codes "in") 0 true (codes "laptop") 1 picture 9 empty_state

abbrev arrived_chunk : State
arrived_chunk =
    on_file_chunk plain_bytes silent true (codes "laptop") 1 (codes "f1") 0 (codes "abc") started

arrived-Steps : Steps any_hex plain_bytes silent home (codes "in") empty_state arrived_chunk
arrived-Steps = header 0 true (codes "laptop") 1 picture 9 empty_state arrived_chunk (
    chunk true (codes "laptop") 1 (codes "f1") 0 (codes "abc") started arrived_chunk
      (stop arrived_chunk))

abbrev whole_file : Incoming
whole_file = taken (codes "abc") (new_transfer (codes "in") (codes "laptop") 1 picture)

whole_file_ended : (on_file_end (codes "laptop") (codes "f1") arrived_chunk).0 ≡ some whole_file
unfolding on_file_end on_file_start on_file_chunk lookup after_chunk file_chunk after_start
    file_start peer_named text_eq valid_header valid_name byte_len is_name_char is_alphanumeric
    after_admit admit take_token refill rate_of note_seen mem_text open_transfer in_flight
    transfers_of insert new_transfer
whole_file_ended = refl

whole_file_complete : is_complete (λ b. zero_hash) whole_file ≡ true
unfolding is_complete new_transfer text_eq
whole_file_complete = refl

is_complete-Steps_example :
    (length whole_file.written ≡ whole_file.meta.size)
    × (whole_file.meta.size ≤ home.files.max_bytes)
    × (zero_hash ≡ whole_file.meta.hash)
is_complete-Steps_example =
    is_complete-Steps any_hex plain_bytes silent home (codes "in") (λ b. zero_hash) arrived_chunk
      (codes "laptop") (codes "f1") whole_file arrived-Steps whole_file_ended whole_file_complete
