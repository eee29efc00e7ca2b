-- ===== src/Tests/Finish.antt =====
-- A file whose name is taken in the folder.
use agora_protocol.Base.{
  ◌≡◌, [], ◌∷◌, List, Option, none, some, true, false, Text, Bytes, codes, text_eq, if◌then◌else◌,
}
use agora_protocol.Base.Dict.{Dict, lookup, insert, contains_key}
use agora_protocol.Base.Result.{ok}
use agora_protocol.Files.Kinds.{Kind}
use agora_protocol.Files.Names.{safe_name}
use agora_protocol.Files.Screen.{Machine, Run, not_found, screen}
use agora_protocol.Node.Types.{Incoming}
use agora_protocol.Node.Queues.{Delivery}
use agora_protocol.Node.Transfers.{is_complete}
use agora_protocol.Node.Finish.{Disk, Finished, reserved_name, file_finish}
use agora_protocol.Node.Finish.Stored.{content_of, file_finish-stored}
use agora_protocol.Tests.Values.{home, busy}

abbrev bare : Machine
bare = record { windows = false; defender = none; which = λ c. none }

abbrev no_run : Text → List Text → Run
no_run c args = not_found

abbrev sound : Disk
sound = record {
  readable = true;
  writable = true;
  folder = true;
  opened = true;
  moved = true;
  marked = true;
}

abbrev report : Incoming
report = record {
  meta = record {
    id = codes "f1";
    from = codes "bob";
    to = codes "alice";
    name = codes "report.txt";
    size = 2;
    hash = codes "hi";
    note = none;
    ts = 7;
  };
  peer = codes "laptop";
  link = 1;
  path = codes "/tmp/f1";
  written = codes "hi";
  got = 2;
  seq = 1;
}

abbrev inbox_folder : Dict Bytes
inbox_folder = (codes "report.txt", 1 ∷ []) ∷ []

-- A guard that finds the `i`.
abbrev hiding : Text → Text × List Text
hiding t = if text_eq t (codes "hi") then (codes "h_", codes "i" ∷ []) else (t, [])

abbrev finished : Finished
finished =
    file_finish (λ b. b) bare (λ t. t) no_run (λ b. some b) (λ t. t) hiding home sound true 9
      (codes "/in/laptop") (codes "laptop") report inbox_folder busy

file_finish-stored_example :
    ((j : Text) (b : Bytes) → lookup j inbox_folder ≡ some b → lookup j finished.stored ≡ some b)
    × ((r : Delivery)
        → finished.answer ≡ ok r
        → (is_complete (λ b. b) report ≡ true)
          × ((k : Kind × Option Text) × (screen bare
                  (λ t. t)
                  no_run
                  (codes "/tmp/f1")
                  (codes "hi")
                  home.files
                ≡ ok k)
              × (contains_key
                    (reserved_name (safe_name (codes "report.txt")) inbox_folder)
                    inbox_folder
                  ≡ false)
              × (finished.stored
                  ≡ insert
                      (reserved_name (safe_name (codes "report.txt")) inbox_folder)
                      (content_of (λ b. some b) (λ t. t) hiding k.0 (codes "hi"))
                      inbox_folder)))
file_finish-stored_example =
    file_finish-stored (λ b. b) bare (λ t. t) no_run (λ b. some b) (λ t. t) hiding home sound true 9
      (codes "/in/laptop") (codes "laptop") busy report inbox_folder
