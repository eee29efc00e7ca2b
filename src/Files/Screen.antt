-- ===== src/Files/Screen.antt =====
-- files.rs: the choice of the malware scanner, its run and the decision whether a received file may
-- be kept. The scanner is another program: what it answers is an argument.
pub mod Laws
use agora_protocol.Base.{
  ℕ, ◌≡◌, refl, Bool, true, false, ◌&&◌, ◌||◌, not, List, [], ◌∷◌, ◌++◌, map, Option, none, some,
  Bytes, Text, codes, text_eq, if◌then◌else◌,
}
use agora_protocol.Base.Result.{Result, ok, err, ◌>>=◌, ◌>>◌, bail_if}
use agora_protocol.Config.Types.{FilesCfg}
use agora_protocol.Files.Kinds.{Kind, text, data_file, container, executable, unknown, classify}

pub data ScreenError : Type 0 where
  executable_content not_startable threat scan_failed scan_timeout : ScreenError
  not_scanned : Kind → ScreenError

-- How the run of the scanner ends; `exited true` is a successful status.
pub data Run : Type 0 where
  not_found cannot_start wait_failed timed_out : Run
  exited : Bool → Run

-- What the machine offers: whether it runs Windows, the path of a Defender that runs, and the
-- search of a command in PATH.
pub record Machine : Type 0 where
  pub windows : Bool
  pub defender : Option Text
  pub which : Text → Option Text

abbrev pub is_off : List Text → Bool
is_off [] = false
is_off (s ∷ rest) = text_eq s (codes "off")

clam_scanner : Option Text → Option Text → Option (List Text)
clam_scanner (some p) other = some (p ∷ codes "--no-summary" ∷ codes "--fdpass" ∷ codes "{}" ∷ [])
clam_scanner none (some p) = some (p ∷ codes "--no-summary" ∷ codes "{}" ∷ [])
clam_scanner none none = none

defender_scanner : Option Text → Option (List Text)
defender_scanner none = none
defender_scanner (some p) = some (
    p
    ∷ codes "-Scan"
    ∷ codes "-ScanType"
    ∷ codes "3"
    ∷ codes "-File"
    ∷ codes "{}"
    ∷ codes "-DisableRemediation"
    ∷ [])

auto_scanner : Machine → Option (List Text)
unfolding clam_scanner defender_scanner
auto_scanner m =
    if m.windows
    then defender_scanner m.defender
    else clam_scanner (m.which (codes "clamdscan")) (m.which (codes "clamscan"))

unfoldable pub scanner_of : Machine → List Text → Option (List Text)
unfolding auto_scanner
scanner_of m [] = auto_scanner m
scanner_of m (s ∷ rest) = if is_off (s ∷ rest) then none else some (s ∷ rest)

unfoldable pub scanner : Machine → FilesCfg → Option (List Text)
unfolding scanner_of
scanner m cfg = scanner_of m cfg.scanner

-- The arguments of the scanner, with the path for `{}`.
unfoldable pub scan_args : Text → List Text → List Text
scan_args path = map (λ a. if text_eq a (codes "{}") then path else a)

-- `name` is the scanner's file stem.
unfoldable pub scan_result : Text → Run → Result ScreenError (Option Text)
scan_result name not_found = ok none
scan_result name cannot_start = err not_startable
scan_result name (exited true) = ok (some name)
scan_result name (exited false) = err threat
scan_result name wait_failed = err scan_failed
scan_result name timed_out = err scan_timeout

abbrev pub needs_scan : Kind → Bool
needs_scan text = false
needs_scan data_file = false
needs_scan container = true
needs_scan executable = true
needs_scan unknown = true

abbrev pub is_executable : Kind → Bool
is_executable executable = true
is_executable _ = false

abbrev pub is_none : Option Text → Bool
is_none none = true
is_none (some s) = false

module _ (m : Machine) (file_stem : Text → Text) (run : Text → List Text → Run) where
  scan_with : Text → Option (List Text) → Result ScreenError (Option Text)
  scan_with path none = ok none
  scan_with path (some []) = ok none
  scan_with path (some (cmd ∷ args)) = scan_result (file_stem cmd) (run cmd (scan_args path args))

  unfoldable pub scan : Text → FilesCfg → Result ScreenError (Option Text)
  unfolding scan_with
  scan path cfg = scan_with path (scanner m cfg)

  unfoldable pub screen : Text → Bytes → FilesCfg → Result ScreenError (Kind × Option Text)
  screen path bytes cfg = do
    let kind = classify bytes
    bail_if (is_executable kind && not cfg.allow_executables) executable_content
    scanned ← scan path cfg
    bail_if ((cfg.require_scan || needs_scan kind) && is_none scanned) (not_scanned kind)
    ok (kind, scanned)
