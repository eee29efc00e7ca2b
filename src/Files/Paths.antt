-- ===== src/Files/Paths.antt =====
-- files.rs: `sensitive`, the paths that are never sent.
pub mod Laws
use agora_protocol.Base.{
  ℕ, Bool, true, false, ◌&&◌, ◌||◌, List, [], ◌∷◌, map, Option, none, some, Text, codes, mem,
  mem_text, starts_with, ends_with, contains, split, rsplit_once, to_lowercase, replace_chars, any,
  text_eq, ◌==◌,
}

-- `DIRS`
unfoldable pub private_dirs : List Text
private_dirs =
    codes ".ssh"
    ∷ codes ".gnupg"
    ∷ codes ".aws"
    ∷ codes ".azure"
    ∷ codes ".kube"
    ∷ codes ".agentcourier"
    ∷ codes ".agentwire"
    ∷ codes ".agora"
    ∷ codes ".docker"
    ∷ codes "gcloud"
    ∷ codes ".password-store"
    ∷ codes ".vault-token"
    ∷ codes ".terraform.d"
    ∷ codes ".config/gh"
    ∷ []

-- `FILES`
unfoldable pub private_files : List Text
private_files =
    codes ".netrc"
    ∷ codes ".pgpass"
    ∷ codes ".git-credentials"
    ∷ codes ".npmrc"
    ∷ codes ".pypirc"
    ∷ codes "credentials"
    ∷ codes "credentials.json"
    ∷ codes "secrets.json"
    ∷ []

-- `EXT`
unfoldable pub key_extensions : List Text
key_extensions =
    codes "pem"
    ∷ codes "key"
    ∷ codes "p12"
    ∷ codes "pfx"
    ∷ codes "keystore"
    ∷ codes "jks"
    ∷ codes "kdbx"
    ∷ codes "ppk"
    ∷ codes "gpg"
    ∷ []

abbrev pub key_prefixes : List Text
key_prefixes = codes "id_rsa" ∷ codes "id_dsa" ∷ codes "id_ecdsa" ∷ codes "id_ed25519" ∷ []

abbrev pub is_slash : ℕ → Bool
is_slash c = c == b'/'

-- The path in lower case, with `/` between its components.
unfoldable pub normal : Text → Text
normal p = to_lowercase (replace_chars (λ c. c == 0x5c) b'/' p)

-- `last().copied().unwrap_or("")`
unfoldable pub last_or_empty : List Text → Text
last_or_empty [] = []
last_or_empty (t ∷ []) = t
last_or_empty (t ∷ u ∷ ts) = last_or_empty (u ∷ ts)

unfoldable pub has_key_extension : Option (Text × Text) → Bool
has_key_extension none = false
has_key_extension (some (stem, extension)) = mem_text extension key_extensions

-- The tests of the last component.
unfoldable pub private_name : Text → Bool
private_name name =
    mem_text name private_files
    || text_eq name (codes ".env")
    || text_eq name (codes ".envrc")
    || starts_with (codes ".env.") name
    || ends_with (codes ".env") name
    || ends_with (codes ".tfstate") name
    || any (λ k. starts_with k name) key_prefixes
    || has_key_extension (rsplit_once b'.' name)

-- Some component is a private directory, or the path holds one that has two components.
unfoldable pub in_private_dir : Text → Bool
in_private_dir path =
    any (λ c. mem_text c private_dirs) (split is_slash path)
    || any (λ d. mem b'/' d && contains d path) private_dirs

unfoldable pub sensitive : Text → Bool
sensitive p = in_private_dir (normal p) || private_name (last_or_empty (split is_slash (normal p)))
