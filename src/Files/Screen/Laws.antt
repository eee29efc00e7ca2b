-- ===== src/Files/Screen/Laws.antt =====
-- files.rs: `screen` fails closed.
use agora_protocol.Base.{
  ◌≡◌, refl, sym, ap, ◌∙◌, Bool, true, false, ◌&&◌, ◌||◌, not, ◌⊎◌, inl, inr, List, [], ◌∷◌, Option,
  none, some, Bytes, Text, arith,
}
use agora_protocol.Base.Result.{Result, ok, err, ◌>>=◌, ◌>>◌, bail_if}
use agora_protocol.Config.Types.{FilesCfg}
use agora_protocol.Files.Kinds.{Kind, text, data_file, container, executable, unknown, classify}
use agora_protocol.Files.Screen.{
  Machine, Run, exited, not_found, scan_args, scanner, scan_result, scan_with, scan, screen,
  ScreenError, executable_content, not_scanned, is_executable, needs_scan, is_none,
}

-- What is known of a file that is kept with the answer `scanned`.
pub record Kept (m : Machine) (file_stem : Text → Text) (run : Text → List Text → Run) (path : Text)
    (bytes : Bytes) (cfg : FilesCfg) (kind : Kind) (scanned : Option Text) : Type 0 where
  pub classified : kind ≡ classify bytes
  pub permitted : kind ≡ executable → cfg.allow_executables ≡ true
  pub unscanned : scanned ≡ none → (cfg.require_scan ≡ false) × ((kind ≡ text) ⊎ (kind ≡ data_file))
  pub clean :
      (name : Text)
      → scanned ≡ some name
      → (cmd : Text) × (args : List Text) × (scanner m cfg ≡ some (cmd ∷ args))
        × (run cmd (scan_args path args) ≡ exited true)
        × (name ≡ file_stem cmd)

scan_result-some :
    (name : Text) (r : Run) (n : Text)
    → scan_result name r ≡ ok (some n)
    → (r ≡ exited true) × (n ≡ name)
unfolding scan_result
scan_result-some name not_found n h = absurd (cc)
scan_result-some name (exited true) n h = (refl, ground arith)
scan_result-some name (exited false) n h = absurd (cc)
scan_result-some name Run.cannot_start n h = absurd (cc)
scan_result-some name Run.wait_failed n h = absurd (cc)
scan_result-some name Run.timed_out n h = absurd (cc)

plain_kind :
    (k : Kind) (a : Bool)
    → (a || needs_scan k) ≡ false
    → (a ≡ false) × ((k ≡ text) ⊎ (k ≡ data_file))
plain_kind text a h = (ground arith, inl refl)
plain_kind data_file a h = (ground arith, inr refl)
plain_kind container a h = absurd (ground arith)
plain_kind executable a h = absurd (ground arith)
plain_kind unknown a h = absurd (ground arith)

permitted_kind :
    (k : Kind) (allow : Bool)
    → (is_executable k && not allow) ≡ false
    → k ≡ executable
    → allow ≡ true
permitted_kind executable allow h e = ground arith
permitted_kind text allow h e = absurd (cc)
permitted_kind data_file allow h e = absurd (cc)
permitted_kind container allow h e = absurd (cc)
permitted_kind unknown allow h e = absurd (cc)

abbrev tests :
    Kind → Result ScreenError (Option Text) → Bool → Bool → Result ScreenError (Kind × Option Text)
tests k r stop must = do
  bail_if stop executable_content
  scanned ← r
  bail_if (must && is_none scanned) (not_scanned k)
  ok (k, scanned)

-- The tests that a file has passed.
passed :
    (k : Kind) (r : Result ScreenError (Option Text)) (stop must : Bool) (kind : Kind)
    (scanned : Option Text)
    → tests k r stop must ≡ ok (kind, scanned)
    → (stop ≡ false) × (r ≡ ok scanned) × ((must && is_none scanned) ≡ false) × (kind ≡ k)
passed k r true must kind scanned h = absurd (cc)
passed k (err e) false must kind scanned h = absurd (cc)
passed k (ok none) false true kind scanned h = absurd (cc)
passed k (ok none) false false kind scanned h = (refl, ground arith, refl, ground arith)
passed k (ok (some n)) false true kind scanned h = ground arith
passed k (ok (some n)) false false kind scanned h = ground arith

module _ (m : Machine) (file_stem : Text → Text) (run : Text → List Text → Run) where
  scan_with-some :
      (path : Text) (o : Option (List Text)) (n : Text)
      → scan_with m file_stem run path o ≡ ok (some n)
      → (cmd : Text) × (args : List Text) × (o ≡ some (cmd ∷ args))
        × (run cmd (scan_args path args) ≡ exited true)
        × (n ≡ file_stem cmd)
  unfolding scan_with
  scan_with-some path none n h = absurd (ground arith)
  scan_with-some path (some []) n h = absurd (ground arith)
  scan_with-some path (some (cmd ∷ args)) n h =
      let r = scan_result-some (file_stem cmd) (run cmd (scan_args path args)) n h in
      (cmd, args, refl, r.0, r.1)

  -- A received file is kept only as follows: its kind is the one that its bytes show; a program only
  -- if the configuration allows programs; without a scan only if no scan is required and it is text
  -- or data; and with the answer that a scanner ran only if the configured scanner was run on it and
  -- ended successfully.
  pub screen-Kept :
      (path : Text) (bytes : Bytes) (cfg : FilesCfg) (kind : Kind) (scanned : Option Text)
      → screen m file_stem run path bytes cfg ≡ ok (kind, scanned)
      → Kept m file_stem run path bytes cfg kind scanned
  unfolding screen
  screen-Kept path bytes cfg kind scanned h =
      let p =
        passed (classify bytes) (scan m file_stem run path cfg)
          (is_executable (classify bytes) && not cfg.allow_executables)
          (cfg.require_scan || needs_scan (classify bytes)) kind scanned h in
      record {
        classified = p.3;
        permitted = λ e. permitted_kind (classify bytes) cfg.allow_executables p.0 (sym p.3 ∙ e);
        unscanned = λ e. rw p.3 (plain_kind (classify bytes) cfg.require_scan (ground arith));
        clean = λ name e. scan_with-some path (scanner m cfg) name (unfold scan in (p.1 ∙ ap ok e));
      }
