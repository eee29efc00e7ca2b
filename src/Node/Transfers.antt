-- ===== src/Node/Transfers.antt =====
-- node.rs: files that peers send, up to their last chunk: `file_start`, `file_chunk`, `drop_incoming`
-- and the branches of `on_p2p` for them. The decodings of hexadecimal and base 64 numbers (package
-- data-encoding), the size of the files folder, the folder of partial files and whether the disk
-- takes a write are arguments.
pub mod Sound
pub mod Complete
use agora_protocol.Base.{
  ℕ, ◌+◌, ◌-◌, ◌*◌, ◌/◌, Bool, true, false, ◌&&◌, ◌||◌, not, List, [], ◌∷◌, ◌++◌, Option, none,
  some, Text, Bytes, codes, text_eq, mem_text, byte_len, is_empty, length, retain, ltb, leb, ◌==◌,
  if◌then◌else◌,
}
use agora_protocol.Base.Dict.{Dict, lookup, insert, remove}
use agora_protocol.Base.Result.{Result, ok, err}
use agora_protocol.Config.Types.{Peer, Config}
use agora_protocol.Config.Names.{valid_name}
use agora_protocol.Config.Peers.{peer_named}
use agora_protocol.Node.Types.{FileMeta, Incoming, State}
use agora_protocol.Node.Admit.{AdmitError, admit}
use agora_protocol.Node.Links.{reply, unlink}

-- `FILES_INFLIGHT`
abbrev pub files_inflight : ℕ
files_inflight = 4

-- `CHUNK`
abbrev pub chunk_size : ℕ
chunk_size = 262144

pub data TransferError : Type 0 where
  files_off invalid_header file_too_large rate_limited duplicate_id quota_full : TransferError
  too_many_files disk_error unknown_transfer corrupt_transfer longer_than_announced : TransferError

abbrev takes_files : Option Peer → Bool
takes_files none = false
takes_files (some p) = p.files

abbrev long_note : Option Text → Bool
long_note none = false
long_note (some n) = ltb 4096 (byte_len n)

-- The sum of what the running transfers still have to bring.
unfoldable pub in_flight : Dict Incoming → ℕ
in_flight [] = 0
in_flight ((k, i) ∷ m) = (i.meta.size - i.got) + in_flight m

-- The number of running transfers of a peer.
unfoldable pub transfers_of : Text → Dict Incoming → ℕ
transfers_of peer [] = 0
transfers_of peer ((k, i) ∷ m) =
    let rest = transfers_of peer m in if text_eq i.peer peer then 1 + rest else rest

abbrev pub is_from : Text → Option Incoming → Bool
is_from peer none = false
is_from peer (some i) = text_eq i.peer peer

-- The tests of the header.
unfoldable pub valid_header : (Text → Bool) → FileMeta → Bool
valid_header is_hex m =
    valid_name m.id
    && valid_name m.from
    && valid_name m.to
    && not (is_empty m.name)
    && leb (byte_len m.name) 255
    && byte_len m.hash == 64
    && is_hex m.hash
    && not (long_note m.note)

unfoldable pub new_transfer : Text → Text → ℕ → FileMeta → Incoming
new_transfer folder peer link m = record {
  meta = m;
  peer = peer;
  link = link;
  path = folder ++ b'/' ∷ m.id;
  written = [];
  got = 0;
  seq = 0;
}

-- The locked part of `file_start` behind the admission.
unfoldable pub open_transfer :
    Config → Text → ℕ → Bool → Text → ℕ → FileMeta → State → Result TransferError (Unit {0}) × State
open_transfer cfg folder used writable peer link m s =
    if ltb cfg.files.quota_bytes (used + in_flight s.incoming + m.size)
    then (err quota_full, s)
    else if leb files_inflight (transfers_of peer s.incoming)
    then (err too_many_files, s)
    else if not writable || mem_text (folder ++ b'/' ∷ m.id) s.partial
    then (err disk_error, s)
    else (
      ok tt,
      record s {
        incoming = insert m.id (new_transfer folder peer link m) s.incoming;
        partial = (folder ++ b'/' ∷ m.id) ∷ s.partial;
      },
    )

unfoldable pub after_admit :
    Config
    → Text
    → ℕ
    → Bool
    → Text
    → ℕ
    → FileMeta
    → Result AdmitError Bool × State
    → Result TransferError (Unit {0}) × State
after_admit cfg folder used writable peer link m (err e, s) = (err rate_limited, s)
after_admit cfg folder used writable peer link m (ok false, s) = (err duplicate_id, s)
after_admit cfg folder used writable peer link m (ok true, s) =
    open_transfer cfg folder used writable peer link m s

unfoldable pub file_start :
    (Text → Bool)
    → Config
    → Text
    → ℕ
    → Bool
    → Text
    → ℕ
    → FileMeta
    → ℕ
    → State
    → Result TransferError (Unit {0}) × State
file_start is_hex cfg folder used writable peer link m now s =
    if not cfg.files.enabled || not (takes_files (peer_named peer cfg))
    then (err files_off, s)
    else if not (valid_header is_hex m)
    then (err invalid_header, s)
    else if ltb cfg.files.max_bytes m.size
    then (err file_too_large, s)
    else after_admit cfg folder used writable peer link m
        (admit cfg.guard.per_minute peer m.id now s)

-- The transfer after the bytes of a chunk were counted; the file and the hash take them last.
abbrev pub counted : Bytes → Incoming → Incoming
counted b i = record i { got = i.got + length b }

abbrev pub taken : Bytes → Incoming → Incoming
taken b i = record i { got = i.got + length b; written = i.written ++ b; seq = i.seq + 1 }

unfoldable pub put_bytes :
    Bool → Text → Incoming → Bytes → State → Result TransferError (Unit {0}) × State
put_bytes writable id i b s =
    if ltb i.meta.size (i.got + length b)
    then (err longer_than_announced, record s { incoming = insert id (counted b i) s.incoming })
    else if not writable
    then (err disk_error, record s { incoming = insert id (counted b i) s.incoming })
    else (ok tt, record s { incoming = insert id (taken b i) s.incoming })

unfoldable pub take_chunk :
    (Text → Option Bytes)
    → Bool
    → Text
    → ℕ
    → Text
    → Incoming
    → State
    → Result TransferError (Unit {0}) × State
unfolding put_bytes
take_chunk base64 writable id seq text i s =
    if not (seq == i.seq) || ltb (chunk_size * 4 / 3 + 8) (byte_len text)
    then (err corrupt_transfer, s)
    else elim (base64 text) [
      | none ↦ (err corrupt_transfer, s)
      | some b ↦ put_bytes writable id i b s
    ]

unfoldable pub file_chunk :
    (Text → Option Bytes)
    → Bool
    → Text
    → Text
    → ℕ
    → Text
    → State
    → Result TransferError (Unit {0}) × State
unfolding take_chunk
file_chunk base64 writable peer id seq text s = elim (lookup id s.incoming) [
  | none ↦ (err unknown_transfer, s)
  | some i ↦
      if text_eq i.peer peer
      then take_chunk base64 writable id seq text i s
      else (err unknown_transfer, s)
]

without_file : Option Incoming → List Text → List Text
without_file none files = files
without_file (some i) files = retain (λ f. not (text_eq i.path f)) files

unfoldable pub drop_incoming : Text → Text → State → Bool × State
unfolding without_file
drop_incoming peer id s =
    if is_from peer (lookup id s.incoming)
    then (
      true,
      record s {
        incoming = remove id s.incoming;
        partial = without_file (lookup id s.incoming) s.partial;
      },
    )
    else (false, s)

unfoldable pub after_drop : Text → ℕ → Text → Text → Bool × State → State
after_drop peer link id status (dropped, s) =
    if dropped then reply peer link id false status s else s

unfoldable pub after_chunk :
    Text → ℕ → Text → (TransferError → Text) → Result TransferError (Unit {0}) × State → State
unfolding after_drop
after_chunk peer link id status (ok u, s) = s
after_chunk peer link id status (err e, s) =
    after_drop peer link id (status e) (drop_incoming peer id s)

-- The branch of `on_p2p` for a chunk; `status` is the text of an error.
unfoldable pub on_file_chunk :
    (Text → Option Bytes)
    → (TransferError → Text)
    → Bool
    → Text
    → ℕ
    → Text
    → ℕ
    → Text
    → State
    → State
on_file_chunk base64 status writable peer link id seq text s =
    after_chunk peer link id status (file_chunk base64 writable peer id seq text s)

unfoldable pub after_start :
    Text → ℕ → Text → (TransferError → Text) → Result TransferError (Unit {0}) × State → State
after_start peer link id status (ok u, s) = s
after_start peer link id status (err e, s) = reply peer link id false (status e) s

-- The branch for the header of a file.
unfoldable pub on_file_start :
    (Text → Bool)
    → (TransferError → Text)
    → Config
    → Text
    → ℕ
    → Bool
    → Text
    → ℕ
    → FileMeta
    → ℕ
    → State
    → State
on_file_start is_hex status cfg folder used writable peer link m now s =
    after_start peer link m.id status (file_start is_hex cfg folder used writable peer link m now s)

-- The start of the branch for the end of a file: what goes to `file_finish`.
unfoldable pub on_file_end : Text → Text → State → Option Incoming × State
on_file_end peer id s =
    if is_from peer (lookup id s.incoming)
    then (lookup id s.incoming, record s { incoming = remove id s.incoming })
    else (none, s)

-- The end of the task that a `FileEnd` starts: the partial file was moved to the other files or is
-- removed.
unfoldable pub put_away : Incoming → State → State
unfolding unlink
put_away i s = record s { partial = unlink (i.path ∷ []) s.partial }

-- The first test of `file_finish`; `hash` is the hash of what was written, in hexadecimal digits.
unfoldable pub is_complete : (Bytes → Text) → Incoming → Bool
is_complete hash i = i.got == i.meta.size && text_eq (hash i.written) i.meta.hash
