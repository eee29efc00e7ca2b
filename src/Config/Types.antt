-- ===== src/Config/Types.antt =====
-- config.rs: the configuration records. `RelayLink` is relay.rs's.
use agora_protocol.Base.{ℕ, Bool, true, false, List, [], Option, none, Text, codes}

pub record RelayLink : Type 0 where
  pub addr : Text
  pub key : Text

pub record Peer : Type 0 where
  pub name : Text
  pub key : Text
  pub addr : Option Text
  pub files : Bool

pub record FilesCfg : Type 0 where
  pub enabled : Bool
  pub max_bytes : ℕ
  pub quota_bytes : ℕ
  pub allow_executables : Bool
  pub require_scan : Bool
  pub block_pii : Bool
  pub scanner : List Text

pub record GuardCfg : Type 0 where
  pub redact : Bool
  pub redact_ip : Bool
  pub max_bytes : ℕ
  pub per_minute : ℕ

pub record Config : Type 0 where
  pub listen : Text
  pub ipc_port : ℕ
  pub wake : List Text
  pub owner : Text
  pub notify : Bool
  pub guard : GuardCfg
  pub files : FilesCfg
  pub relay : Option RelayLink
  pub peer : List Peer

-- The `Default` implementations.
abbrev pub default_files : FilesCfg
default_files = record {
  enabled = true;
  max_bytes = 67108864;
  quota_bytes = 1073741824;
  allow_executables = false;
  require_scan = false;
  block_pii = false;
  scanner = [];
}

abbrev pub default_guard : GuardCfg
default_guard = record { redact = true; redact_ip = false; max_bytes = 131072; per_minute = 120 }

abbrev pub default_config : Config
default_config = record {
  listen = codes "127.0.0.1:7312";
  ipc_port = 7313;
  wake = [];
  owner = [];
  notify = true;
  guard = default_guard;
  files = default_files;
  relay = none;
  peer = [];
}
