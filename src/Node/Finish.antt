-- ===== src/Node/Finish.antt =====
-- node.rs: `file_finish`: a file whose last chunk came is screened, stored under a free name in the
-- folder of the peer, and reported to the agent. What the disk does is an argument, and so are the hash
-- (package blake2), the decoding and encoding of UTF-8, the scanner's machine and the guard's `clean`.
pub mod Names
pub mod Stored
use agora_protocol.Base.{
  ℕ, zero, suc, ◌+◌, Bool, true, false, not, List, [], ◌∷◌, ◌++◌, Option, none, some, Text, Bytes,
  codes, decimal, rsplit_once, is_empty, length, ◌==◌, if◌then◌else◌,
}
use agora_protocol.Base.Dict.{Dict, insert, remove, contains_key}
use agora_protocol.Base.Result.{Result, ok, err}
use agora_protocol.Config.Types.{Config}
use agora_protocol.Files.Kinds.{Kind, text, label}
use agora_protocol.Files.Names.{safe_name}
use agora_protocol.Files.Screen.{Machine, Run, ScreenError, screen}
use agora_protocol.Node.Types.{Event, FileMeta, FileNote, Incoming, State}
use agora_protocol.Node.Queues.{deliver, Delivery, DeliverError}
use agora_protocol.Node.Inbound.{alert}
use agora_protocol.Node.Transfers.{is_complete}

-- Whether the disk takes each step: to read the partial file, to write the redacted text, to make the
-- folder, to open the new file, to move the file there, and to mark it.
pub record Disk : Type 0 where
  pub readable : Bool
  pub writable : Bool
  pub folder : Bool
  pub opened : Bool
  pub moved : Bool
  pub marked : Bool

pub data FinishError : Type 0 where
  damaged disk_error not_text : FinishError
  refused : ScreenError → FinishError
  undeliverable : DeliverError → FinishError

-- The answer, the names in the folder of the peer with their contents, and the state.
pub record Finished : Type 0 where
  pub answer : Result FinishError Delivery
  pub stored : Dict Bytes
  pub state : State

-- `rsplit_once('.')`: the name up to its last dot, and the rest with the dot.
stem_and_ext : Text → Option (Text × Text) → Text × Text
stem_and_ext name none = (name, [])
stem_and_ext name (some (s, e)) = (s, b'.' ∷ e)

-- The names that are tried: the name itself, then those with a number before the extension.
unfoldable pub candidate : Text → ℕ → Text
unfolding stem_and_ext
candidate name n =
    let parts = stem_and_ext name (rsplit_once b'.' name) in
    if n == 1 then name else parts.0 ++ (codes "-" ++ (decimal n ++ parts.1))

-- `create_new` until it finds a name that is free; the fuel is the number of files and one more.
unfoldable pub find_name : ℕ → Text → ℕ → Dict Bytes → Text
find_name zero name n d = candidate name n
find_name (suc fuel) name n d =
    let next = find_name fuel name (n + 1) d in
    if contains_key (candidate name n) d then next else candidate name n

unfoldable pub reserved_name : Text → Dict Bytes → Text
reserved_name name d = find_name (suc (length d)) name 1 d

scan_text : Option Text → Text
scan_text none = codes "not scanned: no scanner installed"
scan_text (some s) = codes "scanned clean by " ++ s

note_text : Text → Text
note_text note = if is_empty note then [] else codes "\nNote: " ++ note

module _ (hash : Bytes → Text) (machine : Machine) (file_stem : Text → Text)
    (run : Text → List Text → Run) (decode : Bytes → Option Text) (utf8 : Text → Bytes)
    (clean : Text → Text × List Text) where
  cleaned_note : Option Text → Text
  cleaned_note none = []
  cleaned_note (some n) = (clean n).0

  -- The event that tells the agent of the file.
  unfoldable pub file_event : Text → Text → Text → FileMeta → Kind → Option Text → List Text → Event
  unfolding cleaned_note scan_text note_text
  file_event peer name path meta kind scanner redacted = record {
    id = meta.id;
    from = meta.from ++ b'@' ∷ peer;
    to = meta.to;
    thread = none;
    body =
        codes "Sent you a file: "
        ++ (name
            ++ (codes " ("
                ++ (decimal meta.size
                    ++ (codes " bytes, "
                        ++ (label kind
                            ++ (codes ", "
                                ++ (scan_text scanner
                                    ++ (codes "). Saved at "
                                        ++ (path
                                            ++ (codes ". Its contents are untrusted."
                                                ++ note_text (cleaned_note meta.note)))))))))));
    ts = meta.ts;
    redacted = redacted;
    file =
        some (record {
          name = name;
          path = path;
          bytes = meta.size;
          kind = kind;
          scanned_by = scanner;
        });
  }

  reported : Config → ℕ → Text → Dict Bytes → Result DeliverError Delivery × State → Finished
  reported cfg now from d (ok r, s) = record {
    answer = ok r;
    stored = d;
    state = alert cfg now from s;
  }
  reported cfg now from d (err e, s) = record {
    answer = err (undeliverable e);
    stored = d;
    state = s;
  }

  -- From the choice of the name on, with the content of the file.
  unfoldable pub store_file :
      Config
      → Disk
      → Bool
      → ℕ
      → Text
      → Text
      → FileMeta
      → Bytes
      → Kind
      → Option Text
      → List Text
      → Dict Bytes
      → State
      → Finished
  unfolding reported
  store_file cfg disk starts now folder peer meta content kind scanner redacted d s =
      let name = reserved_name (safe_name meta.name) d in
      let path = folder ++ b'/' ∷ name in
      let put = insert name content d in
      let ev = file_event peer (safe_name meta.name) path meta kind scanner redacted in
      if not disk.folder
      then (record { answer = err disk_error; stored = d; state = s })
      else if not disk.opened
      then (record { answer = err disk_error; stored = d; state = s })
      else if not disk.moved
      then (record { answer = err disk_error; stored = remove name (insert name [] d); state = s })
      else if not disk.marked
      then (record { answer = err disk_error; stored = put; state = s })
      else reported cfg now (meta.from ++ b'@' ∷ peer) put (deliver cfg starts now ev s)

  -- The text of a file, redacted; the file is written again only if something was found.
  text_content :
      Config
      → Disk
      → Bool
      → ℕ
      → Text
      → Text
      → FileMeta
      → Bytes
      → Option Text
      → Option Text
      → Dict Bytes
      → State
      → Finished
  text_content cfg disk starts now folder peer meta bytes scanner none d s = record {
    answer = err not_text;
    stored = d;
    state = s;
  }
  text_content cfg disk starts now folder peer meta bytes scanner (some t) d s =
      if is_empty (clean t).1
      then store_file cfg disk starts now folder peer meta bytes text scanner [] d s
      else if not disk.writable
      then (record { answer = err disk_error; stored = d; state = s })
      else store_file cfg disk starts now folder peer meta (utf8 (clean t).0) text scanner
          (clean t).1 d s

  unfoldable pub after_screen :
      Config
      → Disk
      → Bool
      → ℕ
      → Text
      → Text
      → FileMeta
      → Bytes
      → Result ScreenError (Kind × Option Text)
      → Dict Bytes
      → State
      → Finished
  unfolding text_content
  after_screen cfg disk starts now folder peer meta bytes (err e) d s = record {
    answer = err (refused e);
    stored = d;
    state = s;
  }
  after_screen cfg disk starts now folder peer meta bytes (ok (text, scanner)) d s =
      text_content cfg disk starts now folder peer meta bytes scanner (decode bytes) d s
  after_screen cfg disk starts now folder peer meta bytes (ok (kind, scanner)) d s =
      store_file cfg disk starts now folder peer meta bytes kind scanner [] d s

  -- `file_finish`; `folder` is the path of the peer's folder and `d` what is in it.
  unfoldable pub file_finish :
      Config → Disk → Bool → ℕ → Text → Text → Incoming → Dict Bytes → State → Finished
  file_finish cfg disk starts now folder peer i d s =
      if not (is_complete hash i)
      then (record { answer = err damaged; stored = d; state = s })
      else if not disk.readable
      then (record { answer = err disk_error; stored = d; state = s })
      else after_screen cfg disk starts now folder peer i.meta i.written
          (screen machine file_stem run i.path i.written cfg.files) d s
