-- ===== src/Node/Links.antt =====
-- node.rs: the link to a peer. `open_link` is the locked part at the start of `run_link`, `close_link`
-- the one at its end; `reply` answers a message and `on_ack` takes an answer.
pub mod Pending
pub mod Sorting
pub mod Untouched
use agora_protocol.Base.{
  ℕ, zero, suc, ◌+◌, ◌-◌, Bool, true, false, ◌&&◌, ◌||◌, not, List, [], ◌∷◌, ◌++◌, map, Option,
  none, some, Text, Bytes, text_eq, take, retain, replace_chars, ltb, leb, ◌==◌, if◌then◌else◌,
}
use agora_protocol.Base.Dict.{Dict, lookup, insert, remove, retain_entries}
use agora_protocol.Config.Types.{Config}
use agora_protocol.Config.Keys.{Base32}
use agora_protocol.Config.Peers.{trusts}
use agora_protocol.Config.Names.{valid_name}
use agora_protocol.Node.Presence.{presence_of}
use agora_protocol.Node.Types.{Msg, P2p, msg, ack, Link, Remote, Known, Incoming, State}

-- `ACK_BACKLOG`
abbrev pub ack_backlog : ℕ
ack_backlog = 4096

abbrev pub simultaneous : ℕ
simultaneous = 3000000000

-- The order of arrays of bytes.
unfoldable pub bytes_lt : Bytes → Bytes → Bool
bytes_lt [] [] = false
bytes_lt [] (y ∷ ys) = true
bytes_lt (x ∷ xs) [] = false
bytes_lt (x ∷ xs) (y ∷ ys) = ltb x y || (x == y && bytes_lt xs ys)

same : Bool → Bool → Bool
same true b = b
same false b = not b

-- `preferred`: whether a link that this machine opened or not is the one both sides keep.
unfoldable pub preferred : Bytes → Bytes → Bool → Bool
unfolding same
preferred my_key key mine = same mine (bytes_lt my_key key)

-- An older link that was opened at the same time by the preferred side stays.
unfoldable pub yields_to : Bytes → Bytes → ℕ → Bool → Option Link → Bool
yields_to my_key key now i_initiated none = false
yields_to my_key key now i_initiated (some old) =
    ltb (now - old.since) simultaneous
    && preferred my_key key old.i_initiated
    && not (preferred my_key key i_initiated)

-- The unconfirmed messages to a peer, `st.unacked.values().filter(…)`.
unfoldable pub unacked_to : Text → Dict (Text × Msg) → List Msg
unacked_to peer [] = []
unacked_to peer ((id, (p, m)) ∷ rest) =
    let ms = unacked_to peer rest in if text_eq p peer then m ∷ ms else ms

-- `sort_by_key(|m| m.ts)`, which is stable.
insert_by_ts : Msg → List Msg → List Msg
insert_by_ts m [] = m ∷ []
insert_by_ts m (x ∷ xs) =
    let rest = insert_by_ts m xs in if leb m.ts x.ts then m ∷ x ∷ xs else x ∷ rest

unfoldable pub sort_by_ts : List Msg → List Msg
unfolding insert_by_ts
sort_by_ts [] = []
sort_by_ts (m ∷ ms) = insert_by_ts m (sort_by_ts ms)

unfoldable pub waiting : Option (List Msg) → List Msg
waiting none = []
waiting (some q) = q

-- What a new link has to send.
unfoldable pub pending : Text → State → List Msg
pending peer s = sort_by_ts (unacked_to peer s.unacked) ++ waiting (lookup peer s.outbox)

unfoldable pub all_unacked : Text → List Msg → Dict (Text × Msg) → Dict (Text × Msg)
all_unacked peer [] m = m
all_unacked peer (x ∷ xs) m = all_unacked peer xs (insert x.id (peer, x) m)

abbrev pub link_id : Option Link → List ℕ
link_id none = []
link_id (some l) = l.id ∷ []

-- The link that starts with the presence and everything that is pending.
unfoldable pub new_link : Config → Option Text → Text → Bytes → Bool → ℕ → ℕ → State → Link
new_link cfg user peer key i_initiated id now s = record {
  tx = presence_of cfg user s ∷ map msg (pending peer s);
  acks = 0;
  id = id;
  key = key;
  i_initiated = i_initiated;
  since = now;
}

-- `none`: the link is not taken. `id` is the next value of the node's counter, `user` the user name
-- of the environment.
unfoldable pub open_link :
    Base32 → Config → Option Text → Bytes → Text → Bytes → Bool → ℕ → ℕ → State → Option State
open_link base32 cfg user my_key peer key i_initiated id now s =
    if not (trusts base32 peer key cfg)
      || yields_to my_key key now i_initiated (lookup peer s.links)
    then none
    else some (record s {
      links = insert peer (new_link cfg user peer key i_initiated id now s) s.links;
      outbox = remove peer s.outbox;
      unacked = all_unacked peer (pending peer s) s.unacked;
      closing = s.closing ++ link_id (lookup peer s.links);
    })

-- Agents of a peer that goes are remembered as seen now.
unfoldable pub touch : ℕ → Option Known → Known
touch now none = record { about = none; last_seen = now }
touch now (some k) = record k { last_seen = now }

unfoldable pub touch_all : ℕ → List Text → Dict Known → Dict Known
touch_all now [] k = k
touch_all now (a ∷ agents) k = touch_all now agents (insert a (touch now (lookup a k)) k)

abbrev pub known_of : Option (Dict Known) → Dict Known
known_of none = []
known_of (some k) = k

forget_remote : Text → ℕ → Option Remote → State → State
forget_remote peer now none s = s
forget_remote peer now (some r) s = record s {
  remote = remove peer s.remote;
  known = insert peer (touch_all now r.agents (known_of (lookup peer s.known))) s.known;
}

abbrev pub is_link : ℕ → Option Link → Bool
is_link id none = false
is_link id (some l) = l.id == id

carried : ℕ → Dict Incoming → List Text
carried id [] = []
carried id ((k, i) ∷ m) = let rest = carried id m in if i.link == id then i.path ∷ rest else rest

unfoldable pub unlink : List Text → List Text → List Text
unlink [] files = files
unlink (p ∷ ps) files = unlink ps (retain (λ f. not (text_eq p f)) files)

-- The transfers of a link end with it, and their files are removed. `now` is in seconds here.
unfoldable pub drop_transfers : ℕ → State → State
unfolding carried unlink
drop_transfers id s = record s {
  incoming = retain_entries (λ _ i. not (i.link == id)) s.incoming;
  partial = unlink (carried id s.incoming) s.partial;
}

unfoldable pub close_link : Text → ℕ → ℕ → State → State
unfolding forget_remote
close_link peer id now s =
    let t = drop_transfers id s in
    if is_link id (lookup peer t.links)
    then forget_remote peer now (lookup peer t.remote) (record t { links = remove peer t.links })
    else t

unfoldable pub answer : Text → Text → Bool → Text → Option Link → State → State
answer peer id done status none s = s
answer peer id done status (some l) s =
    if leb ack_backlog l.acks
    then record s { links = remove peer s.links; closing = s.closing ++ l.id ∷ [] }
    else record s {
      links =
          insert peer (record l { acks = l.acks + 1; tx = l.tx ++ ack id done status ∷ [] })
            s.links;
    }

abbrev pub only_link : ℕ → Option Link → Option Link
only_link id none = none
only_link id (some l) = if l.id == id then some l else none

-- `reply`, with the result's text already made.
unfoldable pub reply : Text → ℕ → Text → Bool → Text → State → State
unfolding answer
reply peer link id done status s =
    if valid_name id then answer peer id done status (only_link link (lookup peer s.links)) s else s

abbrev pub belongs {ℓ} : {A : Type ℓ} → Text → Option (Text × A) → Bool
belongs peer none = false
belongs peer (some (p, a)) = text_eq p peer

abbrev pub waits_for : Text → Option Text → Bool
waits_for peer none = false
waits_for peer (some p) = text_eq p peer

abbrev pub is_line_char : ℕ → Bool
is_line_char c = c == 10 || c == 13 || c == 9

-- The branch of `on_p2p` for an answer; `sanitize` is the guard's.
unfoldable pub on_ack : (Text → Text) → Text → Text → Bool → Text → State → State
on_ack sanitize peer id done status s =
    let shown = replace_chars is_line_char b' ' (sanitize (take 300 status)) in
    let waited = waits_for peer (lookup id s.waiters) in
    record s {
      unacked = if belongs peer (lookup id s.unacked) then remove id s.unacked else s.unacked;
      waiters = if waited then remove id s.waiters else s.waiters;
      answers = if waited then insert id (done, shown) s.answers else s.answers;
    }
