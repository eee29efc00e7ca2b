-- ===== src/Node/Pairing/Trusted.antt =====
-- node.rs: the machines that are trusted, after any sequence of commands, invitations, pairings and joins.
-- Each is one step; what else the node does changes the state only.
use agora_protocol.Base.{
  ℕ, ◌≡◌, sym, subst, Bool, true, Option, some, Text, Bytes, length, All, All-retain,
}
use agora_protocol.Base.Result.{ok}
use agora_protocol.Config.Types.{Config, RelayLink}
use agora_protocol.Config.Names.{valid_name}
use agora_protocol.Config.Keys.{Base32, key_length}
use agora_protocol.Node.Types.{State, Invite}
use agora_protocol.Node.Trust.{invite, invites_open}
use agora_protocol.Node.Admin.{Node, Request, reload, admin}
use agora_protocol.Node.Admin.TrustList.{IsTrustList, admin-IsTrustList}
use agora_protocol.Node.Pairing.{First, pairing, join_start, join_end, relay_join}
use agora_protocol.Node.Pairing.OneTime.{invites-saved_and_applied}
use agora_protocol.Node.Pairing.Checked.{
  IsTrusted, saved-IsTrustList, pairing-IsTrusted, invite-IsTrusted, join_start-checked,
  join_end-IsTrusted, invites-admin,
}

-- One thing that a node does. `pruned` is the test whether an invitation is open, which removes those
-- that have expired, and `same` is everything that leaves the configuration and the invitations.
-- `OnDisk` are the configurations that the file may hold when `reload` reads it.
pub data Change (base32 : Base32) (hex : Bytes → Text) (my_key : Bytes) (sanitize : Text → Text)
    (OnDisk : Config → Type 0) (n : Node) : Node → Type 0 where
  command :
      (saved : Bool) (user : Option Text) (r : Request)
      → ((c : Config) → r ≡ reload (some c) → OnDisk c)
      → Change base32 hex my_key sanitize OnDisk n (admin base32 my_key sanitize saved user r n).1
  invited :
      (raw : Bytes) (name : Text) (shared : Bool) (now : ℕ)
      → Change base32 hex my_key sanitize OnDisk n
          (record n { state = (invite n.config raw name shared now n.state).1 })
  paired :
      (saved : Bool) (user : Option Text) (key : Bytes) (from : Text) (now : ℕ) (first : First)
      → length key ≡ key_length
      → Change base32 hex my_key sanitize OnDisk n
          (pairing base32 hex saved user key from now first n).1
  joining :
      (saved : Bool) (user : Option Text) (code name addr : Text) (before : Config)
      (k : Bytes × Bytes) (welcome : Bool)
      → join_start base32 my_key code name addr before ≡ ok k
      → Change base32 hex my_key sanitize OnDisk n
          (join_end base32 saved user k.0 name addr welcome n).1
  relaying :
      (saved : Bool) (user : Option Text) (l : RelayLink)
      → Change base32 hex my_key sanitize OnDisk n (relay_join base32 saved user l n).1
  pruned :
      (now : ℕ)
      → Change base32 hex my_key sanitize OnDisk n
          (record n { state = (invites_open now n.state).1 })
  same :
      (s : State)
      → s.invites ≡ n.state.invites
      → Change base32 hex my_key sanitize OnDisk n (record n { state = s })

-- What comes of a node by any number of changes.
pub data Comes (base32 : Base32) (hex : Bytes → Text) (my_key : Bytes) (sanitize : Text → Text)
    (OnDisk : Config → Type 0) (n : Node) : Node → Type 0 where
  first : Comes base32 hex my_key sanitize OnDisk n n
  later :
      {a b : Node}
      → Comes base32 hex my_key sanitize OnDisk n a
      → Change base32 hex my_key sanitize OnDisk a b
      → Comes base32 hex my_key sanitize OnDisk n b

module _ (base32 : Base32) (hex : Bytes → Text) (my_key : Bytes) (sanitize : Text → Text)
    (OnDisk : Config → Type 0) (sound : (c : Config) → OnDisk c → IsTrustList base32 c.peer) where
  Change-IsTrusted :
      {a b : Node}
      → Change base32 hex my_key sanitize OnDisk a b
      → IsTrusted base32 a
      → IsTrusted base32 b
  unfolding relay_join invites_open
  Change-IsTrusted {a} (command saved user r l) h = record {
    machines =
        admin-IsTrustList base32 my_key sanitize saved user r a (λ c e. sound c (l c e)) h.machines;
    invited =
        subst (All (λ (i : Invite). valid_name i.name ≡ true))
          (sym (invites-admin base32 my_key sanitize saved user r a)) h.invited;
  }
  Change-IsTrusted {a} (invited raw name shared now) h =
      invite-IsTrusted base32 raw name shared now a h
  Change-IsTrusted {a} (paired saved user key from now f l) h =
      pairing-IsTrusted base32 hex saved user key from now f a l h
  Change-IsTrusted {a} (joining saved user code name addr before k welcome e) h =
      let c = join_start-checked base32 my_key code name addr before k e in
      join_end-IsTrusted base32 saved user k.0 name addr welcome a c.0 c.1 h
  Change-IsTrusted {a} (relaying saved user l) h = record {
    machines = saved-IsTrustList base32 saved user _ a h.machines h.machines;
    invited =
        subst (All (λ (i : Invite). valid_name i.name ≡ true))
          (sym (invites-saved_and_applied base32 saved user _ a)) h.invited;
  }
  Change-IsTrusted {a} (pruned now) h = record {
    machines = h.machines;
    invited = All-retain _ _ a.state.invites h.invited;
  }
  Change-IsTrusted (same s e) h = record {
    machines = h.machines;
    invited = subst (All (λ (i : Invite). valid_name i.name ≡ true)) (sym e) h.invited;
  }

  -- Whatever commands, invitations, pairings and joins come one after another: if the configuration at
  -- the start has valid names and keys that can be read, no two machines with the same name or the same
  -- key, and so has every file that `reload` reads, then the configuration has them at the end.
  pub Comes-IsTrusted :
      {a b : Node}
      → Comes base32 hex my_key sanitize OnDisk a b
      → IsTrusted base32 a
      → IsTrusted base32 b
  Comes-IsTrusted first h = h
  Comes-IsTrusted (later c x) h = Change-IsTrusted x (Comes-IsTrusted c h)
