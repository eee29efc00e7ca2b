-- ===== src/Node/SendFile.antt =====
-- node.rs: `send_file` up to the wait for the answer. What the file system says of the project folder and
-- the file is an argument, and so are the test whether a path stands inside another, the guard's
-- functions, the hash (package blake2), `encode` (`BASE64`, package data-encoding) and UTF-8.
pub mod Safe
use agora_protocol.Base.{
  ℕ, zero, suc, ◌+◌, Bool, true, false, ◌&&◌, not, List, [], ◌∷◌, ◌++◌, Option, none, some, Text,
  Bytes, codes, text_eq, mem_text, is_empty, length, take, drop, any, ltb, if◌then◌else◌,
}
use agora_protocol.Base.Dict.{lookup, insert}
use agora_protocol.Base.Result.{Result, ok, err, ◌>>=◌, ◌>>◌, bail_if, ok_or}
use agora_protocol.Config.Types.{Config, Peer}
use agora_protocol.Config.Peers.{peer_named}
use agora_protocol.Files.Kinds.{Kind, text, classify}
use agora_protocol.Files.Names.{safe_name}
use agora_protocol.Files.Paths.{sensitive}
use agora_protocol.Files.Screen.{is_executable}
use agora_protocol.Node.Types.{FileMeta, Link, P2p, file_start, file_chunk, file_end, State}
use agora_protocol.Node.Address.{split_addr}
use agora_protocol.Node.Transfers.{chunk_size}

pub data SendFileError : Type 0 where
  files_off invalid_address no_machine any_session unknown_machine files_off_there no_root
        no_such_path :
      SendFileError
  home_folder outside_root private_file not_regular too_large unreadable executable_file not_text :
      SendFileError
  has_secrets has_personal_data machine_offline : SendFileError

-- What the file system says: the project folder and the home folders without links, the file and its
-- name, and what is in it.
pub record Found : Type 0 where
  pub root : Option Text
  pub homes : List Text
  pub full : Option Text
  pub name : Text
  pub regular : Bool
  pub size : ℕ
  pub content : Option Bytes

-- Hits of the guard with which no file goes out.
abbrev pub secret_hits : List Text
secret_hits = codes "private_key" ∷ codes "token" ∷ codes "secret" ∷ codes "credentials" ∷ []

-- `bytes.chunks(CHUNK).enumerate()`; the fuel is the number of bytes.
unfoldable pub file_chunks : (Bytes → Text) → Text → ℕ → ℕ → Bytes → List P2p
file_chunks encode id zero seq b = []
file_chunks encode id (suc fuel) seq [] = []
file_chunks encode id (suc fuel) seq (x ∷ b) =
    file_chunk id seq (encode (take chunk_size (x ∷ b)))
    ∷ file_chunks encode id fuel (seq + 1) (drop chunk_size (x ∷ b))

-- The locked part: the whole file goes into the channel of the link.
unfoldable pub put_file :
    (Bytes → Text) → FileMeta → Text → Bytes → State → Result SendFileError (Unit {0}) × State
put_file encode meta peer b s = elim (lookup peer s.links) [
  | none ↦ (err machine_offline, s)
  | some l ↦ (
    ok tt,
    record s {
      waiters = insert meta.id peer s.waiters;
      links =
          insert peer
            (record l {
              tx =
                  l.tx
                  ++ file_start meta
                    ∷ (file_chunks encode meta.id (length b) 0 b ++ file_end meta.id ∷ []);
            })
            s.links;
    },
  )
]

module _ (inside : Text → Text → Bool) (redact : Text → Text × List Text)
    (decode : Bytes → Option Text) (cfg : Config) where
  -- The agent and the machine that files may go to.
  unfoldable pub file_target : Text → Result SendFileError (Text × Text)
  file_target to = do
    bail_if (not cfg.files.enabled) files_off
    a ← ok_or (split_addr to) invalid_address
    machine ← ok_or a.1 no_machine
    bail_if (text_eq a.0 (codes "*")) any_session
    p ← ok_or (peer_named machine cfg) unknown_machine
    bail_if (not p.files) files_off_there
    ok (a.0, machine)

  -- The path of a file that may be read.
  unfoldable pub file_path : Bool → Found → Result SendFileError Text
  file_path has_root f = do
    bail_if (not has_root) no_root
    root ← ok_or f.root no_such_path
    bail_if (any (λ h. inside h root) f.homes) home_folder
    full ← ok_or f.full no_such_path
    bail_if (not (inside full root)) outside_root
    bail_if (sensitive full) private_file
    bail_if (not f.regular) not_regular
    bail_if (ltb cfg.files.max_bytes f.size) too_large
    ok full

  -- The tests of a text.
  unfoldable pub text_checked : List Text → Result SendFileError (Unit {0})
  text_checked hits = do
    bail_if (any (λ h. mem_text h secret_hits) hits) has_secrets
    bail_if (cfg.files.block_pii && not (is_empty hits)) has_personal_data
    ok tt

  content_checked : Kind → Bytes → Result SendFileError (Unit {0})
  content_checked text b = ok_or (decode b) not_text >>= λ t. text_checked (redact t).1
  content_checked kind b =
      bail_if (is_executable kind && not cfg.files.allow_executables) executable_file

  -- What is sent, if all tests pass.
  unfoldable pub file_to_send : Text → Bool → Found → Result SendFileError ((Text × Text) × Bytes)
  unfolding content_checked
  file_to_send to has_root f = do
    target ← file_target to
    full ← file_path has_root f
    b ← ok_or f.content unreadable
    content_checked (classify b) b
    ok (target, b)

  module _ (clean : Text → Text × List Text) (hash : Bytes → Text) (encode : Bytes → Text) where
    note_of : Option Text → Option Text
    note_of none = none
    note_of (some n) = some (clean (take 4096 n)).0

    transmit_file :
        Text
        → Text
        → Option Text
        → Text
        → ℕ
        → Result SendFileError ((Text × Text) × Bytes)
        → State
        → Result SendFileError (Unit {0}) × State
    transmit_file from name remark id ts (err e) s = (err e, s)
    transmit_file from name remark id ts (ok (target, b)) s =
        put_file encode
          (record {
            id = id;
            from = from;
            to = target.0;
            name = safe_name name;
            size = length b;
            hash = hash b;
            note = note_of remark;
            ts = ts;
          })
          target.1 b s

    -- `id` is the random name of the transfer.
    unfoldable pub send_file :
        Text
        → Bool
        → Text
        → Found
        → Option Text
        → Text
        → ℕ
        → State
        → Result SendFileError (Unit {0}) × State
    unfolding transmit_file note_of
    send_file from has_root to f remark id ts s =
        transmit_file from f.name remark id ts (file_to_send to has_root f) s
