-- ===== src/Files/Names.antt =====
-- files.rs: `safe_name`, the name under which a received file is stored.
pub mod Laws
pub mod TrailingDot
use agora_protocol.Base.{
  ℕ, zero, suc, ◌≡◌, refl, Bool, true, false, ◌||◌, List, [], ◌∷◌, ◌++◌, map, Option, none, some,
  Text, codes, mem, mem_text, take, before, after_last, trim_start, trim_end, rsplit_once,
  to_uppercase, to_lowercase, is_alphanumeric, is_empty, ◌==◌, if◌then◌else◌,
}

-- `RESERVED`
unfoldable pub reserved_names : List Text
reserved_names =
    codes "CON"
    ∷ codes "PRN"
    ∷ codes "AUX"
    ∷ codes "NUL"
    ∷ codes "COM1"
    ∷ codes "COM2"
    ∷ codes "COM3"
    ∷ codes "COM4"
    ∷ codes "COM5"
    ∷ codes "COM6"
    ∷ codes "COM7"
    ∷ codes "COM8"
    ∷ codes "COM9"
    ∷ codes "LPT1"
    ∷ codes "LPT2"
    ∷ codes "LPT3"
    ∷ codes "LPT4"
    ∷ codes "LPT5"
    ∷ codes "LPT6"
    ∷ codes "LPT7"
    ∷ codes "LPT8"
    ∷ codes "LPT9"
    ∷ []

-- `RISKY_EXT`
unfoldable pub risky_extensions : List Text
risky_extensions =
    codes "exe"
    ∷ codes "com"
    ∷ codes "scr"
    ∷ codes "bat"
    ∷ codes "cmd"
    ∷ codes "pif"
    ∷ codes "vbs"
    ∷ codes "vbe"
    ∷ codes "vb"
    ∷ codes "js"
    ∷ codes "jse"
    ∷ codes "wsf"
    ∷ codes "wsh"
    ∷ codes "ws"
    ∷ codes "wsc"
    ∷ codes "sct"
    ∷ codes "shb"
    ∷ codes "shs"
    ∷ codes "hta"
    ∷ codes "cpl"
    ∷ codes "msc"
    ∷ codes "msi"
    ∷ codes "msp"
    ∷ codes "msix"
    ∷ codes "msixbundle"
    ∷ codes "appx"
    ∷ codes "appxbundle"
    ∷ codes "appinstaller"
    ∷ codes "lnk"
    ∷ codes "url"
    ∷ codes "scf"
    ∷ codes "reg"
    ∷ codes "ps1"
    ∷ codes "psm1"
    ∷ codes "psd1"
    ∷ codes "ps1xml"
    ∷ codes "py"
    ∷ codes "pyw"
    ∷ codes "pyz"
    ∷ codes "pyzw"
    ∷ codes "jar"
    ∷ codes "jnlp"
    ∷ codes "application"
    ∷ codes "gadget"
    ∷ codes "desktop"
    ∷ codes "library-ms"
    ∷ codes "settingcontent-ms"
    ∷ codes "appref-ms"
    ∷ codes "searchconnector-ms"
    ∷ codes "diagcab"
    ∷ codes "xll"
    ∷ codes "rdp"
    ∷ codes "theme"
    ∷ codes "themepack"
    ∷ codes "iso"
    ∷ codes "img"
    ∷ codes "vhd"
    ∷ codes "vhdx"
    ∷ codes "chm"
    ∷ codes "inf"
    ∷ codes "command"
    ∷ codes "tool"
    ∷ codes "terminal"
    ∷ codes "fileloc"
    ∷ codes "sh"
    ∷ []

abbrev pub is_separator : ℕ → Bool
is_separator c = c == b'/' || c == 0x5c

abbrev pub is_dot : ℕ → Bool
is_dot c = c == b'.'

-- What a stored name is made of.
unfoldable pub is_safe_char : ℕ → Bool
is_safe_char c = is_alphanumeric c || (c == b'.' || c == b'_' || c == b'-')

abbrev pub safe_char : ℕ → ℕ
safe_char c = if is_safe_char c then c else b'_'

-- The last component with every other character replaced, without dots at its ends, cut to 100.
unfoldable pub base_name : Text → Text
base_name raw =
    take 100 (trim_end is_dot (trim_start is_dot (map safe_char (after_last is_separator raw))))

unfoldable pub or_file : Text → Text
or_file s = if is_empty s then codes "file" else s

unfoldable pub is_reserved : Text → Bool
is_reserved s = mem_text (to_uppercase (before is_dot s)) reserved_names

unfoldable pub unreserve : Text → Text
unreserve s = if is_reserved s then b'_' ∷ s else s

unfoldable pub risky_extension : Option (Text × Text) → Bool
risky_extension none = false
risky_extension (some (stem, extension)) = mem_text (to_lowercase extension) risky_extensions

unfoldable pub is_risky : Text → Bool
unfolding risky_extension
is_risky s = risky_extension (rsplit_once b'.' s)

unfoldable pub disarm : Text → Text
disarm s = if is_risky s then s ++ codes ".txt" else s

unfoldable pub safe_name : Text → Text
unfolding base_name or_file unreserve disarm
safe_name raw = disarm (unreserve (or_file (base_name raw)))
