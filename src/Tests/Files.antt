-- ===== src/Tests/Files.antt =====
-- Names, paths and contents of files at concrete inputs.
use agora_protocol.Base.{
  ◌≡◌, refl, true, false, List, [], ◌∷◌, ◌++◌, none, some, Text, Bytes, codes, mem_text, text_eq,
  to_uppercase, to_lowercase, replace_chars, all, all→All, All, starts_with, before,
  is_alphanumeric,
}
use agora_protocol.Base.Result.{ok}
use agora_protocol.Config.Types.{default_files}
use agora_protocol.Files.Kinds.{container, classify, has_magic}
use agora_protocol.Files.Names.{is_safe_char, is_reserved, reserved_names}
use agora_protocol.Files.Names.Laws.{IsSafeChar}
use agora_protocol.Files.Paths.{is_slash, normal, private_dirs}
use agora_protocol.Files.Screen.{Machine, Run, exited, screen, scan, scanner, scan_result}
use agora_protocol.Files.Screen.Laws.{Kept, screen-Kept}

ssh_whole : All (λ c. is_slash c ≡ false) (normal (codes ".ssh"))
unfolding normal to_lowercase replace_chars
ssh_whole = (refl, (refl, (refl, (refl, tt))))

ssh_private : mem_text (normal (codes ".ssh")) private_dirs ≡ true
unfolding normal to_lowercase replace_chars mem_text text_eq private_dirs
ssh_private = refl

abbrev clam : Machine
clam = record { windows = false; defender = none; which = λ c. some c }

abbrev clean_run : Text → List Text → Run
clean_run c args = exited true

abbrev archive : Bytes
archive = b'P' ∷ b'K' ∷ 3 ∷ 4 ∷ []

archive_kept :
    screen clam (λ c. c) clean_run (codes "/in/a.zip") archive default_files
    ≡ ok (container, some (codes "clamdscan"))
unfolding screen classify has_magic starts_with scan scanner scan_result
archive_kept = refl

screen-Kept_example :
    Kept clam
      (λ c. c)
      clean_run
      (codes "/in/a.zip")
      archive
      default_files
      container
      (some (codes "clamdscan"))
screen-Kept_example =
    screen-Kept clam (λ c. c) clean_run (codes "/in/a.zip") archive default_files container
      (some (codes "clamdscan")) archive_kept

-- 95 letters, then `.exe`: 99 characters.
abbrev ten : Text
ten = codes "aaaaaaaaaa"

abbrev exe_name : Text
exe_name =
    ten ++ (ten ++ (ten ++ (ten ++ (ten ++ (ten ++ (ten ++ (ten ++ (ten ++ codes "aaaaa.exe"))))))))

exe_name_safe : all is_safe_char exe_name ≡ true
unfolding is_safe_char is_alphanumeric
exe_name_safe = refl

exe_name-IsSafeChar : All IsSafeChar exe_name
exe_name-IsSafeChar = all→All is_safe_char exe_name exe_name_safe

x_safe : is_safe_char b'x' ≡ true
unfolding is_safe_char is_alphanumeric
x_safe = refl

exe_name_plain : is_reserved (exe_name ++ b'.' ∷ []) ≡ false
unfolding is_reserved mem_text reserved_names text_eq to_uppercase before
exe_name_plain = refl
