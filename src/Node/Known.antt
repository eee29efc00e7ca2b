-- ===== src/Node/Known.antt =====
-- node.rs: the branch of `on_p2p` for the presence of a peer: which agents it has and had.
pub mod Bounds
use agora_protocol.Base.{
  ℕ, zero, suc, ◌+◌, ◌-◌, ◌*◌, Bool, true, false, not, List, [], ◌∷◌, Option, none, some, Text,
  text_eq, mem_text, is_empty, length, take, retain, ltb, leb, if◌then◌else◌,
}
use agora_protocol.Base.Dict.{Dict, lookup, insert, remove, retain_entries}
use agora_protocol.Config.Names.{valid_name}
use agora_protocol.Node.Types.{Known, Remote, State}
use agora_protocol.Node.Links.{known_of}
use agora_protocol.Node.Admin.{label}

-- `SEEN_DAYS`, in seconds.
abbrev pub seen_secs : ℕ
seen_secs = 30 * 86400

-- `KNOWN_MAX`
abbrev pub known_max : ℕ
known_max = 100

-- The most agents that are taken from one message.
abbrev pub agents_max : ℕ
agents_max = 256

unfoldable pub shown_agents : List Text → List Text
shown_agents agents = take agents_max (retain valid_name agents)

-- `filter` and `collect` of what the peer says of its agents; a later entry replaces an earlier one.
unfoldable pub shown_about : (Text → Text) → List Text → Dict Text → Dict Text → Dict Text
shown_about sanitize agents [] m = m
shown_about sanitize agents ((k, v) ∷ about) m =
    shown_about sanitize agents about
      (if mem_text k agents then insert k (label sanitize v 200) m else m)

unfoldable pub shown_owner : (Text → Text) → Option Text → Option Text
shown_owner sanitize none = none
shown_owner sanitize (some o) =
    if is_empty (label sanitize o 80) then none else some (label sanitize o 80)

unfoldable pub see_all : ℕ → Dict Text → List Text → Dict Known → Dict Known
see_all t about [] k = k
see_all t about (a ∷ agents) k =
    see_all t about agents (insert a (record { about = lookup a about; last_seen = t }) k)

abbrev pub earlier : Text → ℕ → Option (Text × ℕ) → Text × ℕ
earlier k t none = (k, t)
earlier k t (some (j, u)) = if leb t u then (k, t) else (j, u)

-- `min_by_key(last_seen)`: the first of those that were seen longest ago.
unfoldable pub oldest : Dict Known → Option (Text × ℕ)
oldest [] = none
oldest ((k, v) ∷ m) = some (earlier k v.last_seen (oldest m))

without : Option (Text × ℕ) → Dict Known → Dict Known
without none k = k
without (some (j, t)) k = remove j k

-- `while k.len() > KNOWN_MAX`; each turn removes one, so the number of entries is enough fuel.
unfoldable pub forget_oldest : ℕ → Dict Known → Dict Known
unfolding without
forget_oldest zero k = k
forget_oldest (suc n) k =
    let rest = forget_oldest n (without (oldest k) k) in
    if ltb known_max (length k) then rest else k

unfoldable pub is_recent : ℕ → Known → Bool
is_recent t v = ltb (t - v.last_seen) seen_secs

-- What is known of the agents of the peer afterwards.
unfoldable pub seen_agents : ℕ → Dict Text → List Text → Dict Known → Dict Known
seen_agents t about agents k =
    let fresh = retain_entries (λ _ v. is_recent t v) (see_all t about agents k) in
    forget_oldest (length fresh) fresh

unfoldable pub on_presence :
    (Text → Text) → Text → List Text → Option Text → Dict Text → ℕ → State → State
on_presence sanitize peer agents owner about t s =
    let shown = shown_agents agents in
    let texts = shown_about sanitize shown about [] in
    record s {
      known = insert peer (seen_agents t texts shown (known_of (lookup peer s.known))) s.known;
      remote =
          insert peer (record { agents = shown; about = texts; owner = shown_owner sanitize owner })
            s.remote;
    }
