-- ===== src/Node/Transfers/Sound.antt =====
-- node.rs: what is known of the transfers that run and of a file whose last chunk has come.
use agora_protocol.Base.{
  ℕ, ◌+◌, ◌≤◌, ◌≡◌, refl, sym, subst, Bool, true, false, inl, inr, ◌||◌, not, [], ◌∷◌, ◌++◌, Option,
  none, some, Option-cases, Bool-cases, Text, Bytes, text_eq, mem_text, leb, text_eq_refl, length,
  length-append, ltb, ◌*◌, ◌/◌, byte_len, arith, ◌==◌,
}
use agora_protocol.Base.Dict.{
  Dict, retain_entries, lookup, insert, remove, lookup-insert_self, AllValues, AllValues-insert,
  AllValues-remove, AllValues-lookup,
}
use agora_protocol.Base.Result.{Result, ok, err}
use agora_protocol.Config.Types.{Config}
use agora_protocol.Config.Names.{valid_name}
use agora_protocol.Config.Peers.{peer_named}
use agora_protocol.Node.Types.{FileMeta, Link, Incoming, State}
use agora_protocol.Node.Admit.{AdmitError, admit, note_seen, seen_key}
use agora_protocol.Node.Admit.Seen.{admit_cases}
use agora_protocol.Node.Links.{drop_transfers, only_link, reply, answer, ack_backlog}
use agora_protocol.Node.Transfers.{
  chunk_size, corrupt_transfer, longer_than_announced, disk_error, unknown_transfer, in_flight,
  files_inflight, transfers_of, takes_files, valid_header, TransferError, new_transfer,
  open_transfer, file_start, after_admit, after_start, after_chunk, after_drop, put_bytes,
  take_chunk, file_chunk, is_from, drop_incoming, on_file_chunk, on_file_start, on_file_end,
  counted, taken,
}

incoming-answer :
    (peer id : Text) (done : Bool) (status : Text) (o : Option Link) (s : State)
    → (answer peer id done status o s).incoming ≡ s.incoming
unfolding answer
incoming-answer peer id done status none s = refl
incoming-answer peer id done status (some l) s = elim (Bool-cases (leb ack_backlog l.acks)) [
  | inl b ↦ rw b refl
  | inr b ↦ rw b refl
]

incoming-reply :
    (peer : Text) (link : ℕ) (id : Text) (done : Bool) (status : Text) (s : State)
    → (reply peer link id done status s).incoming ≡ s.incoming
unfolding reply
incoming-reply peer link id done status s = elim (Bool-cases (valid_name id)) [
  | inl b ↦ rw b (incoming-answer peer id done status (only_link link (lookup peer s.links)) s)
  | inr b ↦ rw b refl
]

incoming-note_seen : (key : Text) (s : State) → (note_seen key s).1.incoming ≡ s.incoming
unfolding note_seen
incoming-note_seen key s = elim (Bool-cases (mem_text key s.seen_set)) [
  | inl b ↦ rw b refl
  | inr b ↦ rw b refl
]

incoming-admit :
    (rate : ℕ) (peer id : Text) (now : ℕ) (s : State)
    → (admit rate peer id now s).1.incoming ≡ s.incoming
incoming-admit rate peer id now s =
    admit_cases (λ r. r.1.incoming ≡ s.incoming) rate peer id now s (λ b. refl)
      (λ b. incoming-note_seen (seen_key peer id) (record s { buckets = b }))

-- A running transfer has received what was written, no more than announced, and no more than the
-- largest size that is taken.
abbrev pub IsSound : Config → Incoming → Type 0
IsSound cfg i =
    (i.got ≡ length i.written) × (i.got ≤ i.meta.size) × (i.meta.size ≤ cfg.files.max_bytes)

abbrev pub AreSound : Config → State → Type 0
AreSound cfg s = AllValues (IsSound cfg) s.incoming

retain_entries-AllValues :
    {V : Type 0} (P : V → Type 0) (p : Text → V → Bool) (m : Dict V)
    → AllValues P m
    → AllValues P (retain_entries p m)
unfolding retain_entries AllValues
retain_entries-AllValues P p [] h = tt
retain_entries-AllValues P p ((k, v) ∷ m) h = elim (Bool-cases (p k v)) [
  | inl b ↦ rw b (h.0, retain_entries-AllValues P p m h.1)
  | inr b ↦ rw b (retain_entries-AllValues P p m h.1)
]

reply-AreSound :
    (cfg : Config) (peer : Text) (link : ℕ) (id : Text) (done : Bool) (status : Text) (s : State)
    → AreSound cfg s
    → AreSound cfg (reply peer link id done status s)
reply-AreSound cfg peer link id done status s h =
    subst (AllValues (IsSound cfg)) (sym (incoming-reply peer link id done status s)) h

open_transfer-AreSound :
    (cfg : Config) (folder : Text) (used : ℕ) (writable : Bool) (peer : Text) (link : ℕ)
    (m : FileMeta) (s : State)
    → m.size ≤ cfg.files.max_bytes
    → AreSound cfg s
    → AreSound cfg (open_transfer cfg folder used writable peer link m s).1
unfolding open_transfer
open_transfer-AreSound cfg folder used writable peer link m s size h =
    elim (Bool-cases (ltb cfg.files.quota_bytes (used + in_flight s.incoming + m.size))) [
      | inl a ↦ rw a h
      | inr a ↦ rw a (elim (Bool-cases (leb files_inflight (transfers_of peer s.incoming))) [
        | inl b ↦ rw b h
        | inr b ↦
            rw b (elim (Bool-cases (not writable || mem_text (folder ++ b'/' ∷ m.id) s.partial)) [
              | inl c ↦ rw c h
              | inr c ↦ rw c (
                  AllValues-insert (IsSound cfg) m.id (new_transfer folder peer link m) s.incoming
                    (unfold new_transfer in (refl, omega arith, size)) h)
            ])
      ])
    ]

after_admit-AreSound :
    (cfg : Config) (folder : Text) (used : ℕ) (writable : Bool) (peer : Text) (link : ℕ)
    (m : FileMeta) (r : Result AdmitError Bool × State)
    → m.size ≤ cfg.files.max_bytes
    → AreSound cfg r.1
    → AreSound cfg (after_admit cfg folder used writable peer link m r).1
unfolding after_admit
after_admit-AreSound cfg folder used writable peer link m (err e, s) size h = h
after_admit-AreSound cfg folder used writable peer link m (ok false, s) size h = h
after_admit-AreSound cfg folder used writable peer link m (ok true, s) size h =
    open_transfer-AreSound cfg folder used writable peer link m s size h

file_start-AreSound :
    (is_hex : Text → Bool) (cfg : Config) (folder : Text) (used : ℕ) (writable : Bool) (peer : Text)
    (link : ℕ) (m : FileMeta) (now : ℕ) (s : State)
    → AreSound cfg s
    → AreSound cfg (file_start is_hex cfg folder used writable peer link m now s).1
unfolding file_start
file_start-AreSound is_hex cfg folder used writable peer link m now s h =
    elim (Bool-cases (not cfg.files.enabled || not (takes_files (peer_named peer cfg)))) [
      | inl a ↦ rw a h
      | inr a ↦ rw a (elim (Bool-cases (not (valid_header is_hex m))) [
        | inl b ↦ rw b h
        | inr b ↦ rw b (elim (Bool-cases (ltb cfg.files.max_bytes m.size)) [
          | inl c ↦ rw c h
          | inr c ↦ rw c (
              after_admit-AreSound cfg folder used writable peer link m _ (ground arith) (
                subst (AllValues (IsSound cfg))
                  (sym (incoming-admit cfg.guard.per_minute peer m.id now s)) h))
        ])
      ])
    ]

after_start-AreSound :
    (cfg : Config) (peer : Text) (link : ℕ) (id : Text) (status : TransferError → Text)
    (r : Result TransferError (Unit {0}) × State)
    → AreSound cfg r.1
    → AreSound cfg (after_start peer link id status r)
unfolding after_start
after_start-AreSound cfg peer link id status (ok u, s) h = h
after_start-AreSound cfg peer link id status (err e, s) h =
    reply-AreSound cfg peer link id false (status e) s h

remove-AreSound :
    (cfg : Config) (peer id : Text) (s : State)
    → AreSound cfg s
    → AreSound cfg (drop_incoming peer id s).1
unfolding drop_incoming
remove-AreSound cfg peer id s h = elim (Bool-cases (is_from peer (lookup id s.incoming))) [
  | inl b ↦ rw b (AllValues-remove (IsSound cfg) id s.incoming h)
  | inr b ↦ rw b h
]

after_drop-AreSound :
    (cfg : Config) (peer : Text) (link : ℕ) (id status : Text) (r : Bool × State)
    → AreSound cfg r.1
    → AreSound cfg (after_drop peer link id status r)
unfolding after_drop
after_drop-AreSound cfg peer link id status (true, s) h =
    reply-AreSound cfg peer link id false status s h
after_drop-AreSound cfg peer link id status (false, s) h = h

remove-insert-AllValues :
    {V : Type 0} (P : V → Type 0) (k : Text) (v : V) (m : Dict V)
    → AllValues P m
    → AllValues P (remove k (insert k v m))
unfolding AllValues remove insert text_eq
remove-insert-AllValues P k v [] h = rw (text_eq_refl k) tt
remove-insert-AllValues P k v ((j, w) ∷ m) h = elim (Bool-cases (text_eq j k)) [
  | inl b ↦ rw b (rw (text_eq_refl k) (AllValues-remove P k m h.1))
  | inr b ↦ rw b (rw b (h.0, remove-insert-AllValues P k v m h.1))
]

-- A chunk that was refused after it was counted leaves a transfer that is dropped at once.
drop_counted-AreSound :
    (cfg : Config) (peer id : Text) (i : Incoming) (s : State)
    → text_eq i.peer peer ≡ true
    → AreSound cfg s
    → AreSound cfg (drop_incoming peer id (record s { incoming = insert id i s.incoming })).1
unfolding drop_incoming
drop_counted-AreSound cfg peer id i s same h =
    rw (lookup-insert_self id i s.incoming)
      (rw same (remove-insert-AllValues (IsSound cfg) id i s.incoming h))

-- The state after an answer to a chunk.
abbrev Kept :
    Config
    → Text
    → ℕ
    → Text
    → (TransferError → Text)
    → Result TransferError (Unit {0}) × State
    → Type 0
Kept cfg peer link id status r = AreSound cfg (after_chunk peer link id status r)

refused-Kept :
    (cfg : Config) (peer : Text) (link : ℕ) (id : Text) (status : TransferError → Text)
    (e : TransferError) (s : State)
    → AreSound cfg s
    → Kept cfg peer link id status (err e, s)
unfolding after_chunk
refused-Kept cfg peer link id status e s h =
    after_drop-AreSound cfg peer link id (status e) _ (remove-AreSound cfg peer id s h)

counted-Kept :
    (cfg : Config) (peer : Text) (link : ℕ) (id : Text) (status : TransferError → Text)
    (e : TransferError) (b : Bytes) (i : Incoming) (s : State)
    → text_eq i.peer peer ≡ true
    → AreSound cfg s
    → Kept cfg peer link id status
        (err e, record s { incoming = insert id (counted b i) s.incoming })
unfolding after_chunk
counted-Kept cfg peer link id status e b i s same h =
    after_drop-AreSound cfg peer link id (status e) _
      (drop_counted-AreSound cfg peer id (counted b i) s same h)

put_bytes-Kept :
    (cfg : Config) (peer : Text) (link : ℕ) (id : Text) (status : TransferError → Text)
    (writable : Bool) (b : Bytes) (i : Incoming) (s : State)
    → text_eq i.peer peer ≡ true
    → IsSound cfg i
    → AreSound cfg s
    → Kept cfg peer link id status (put_bytes writable id i b s)
unfolding put_bytes after_chunk
put_bytes-Kept cfg peer link id status writable b i s same sound h =
    elim (Bool-cases (ltb i.meta.size (i.got + length b))) [
      | inl a ↦ rw a (counted-Kept cfg peer link id status longer_than_announced b i s same h)
      | inr a ↦ rw a (elim (Bool-cases writable) [
        | inr c ↦ rw c (counted-Kept cfg peer link id status disk_error b i s same h)
        | inl c ↦ rw c (
            AllValues-insert (IsSound cfg) id (taken b i) s.incoming
              (omega (arith, sound.0, length-append i.written b), ground arith, sound.2) h)
      ])
    ]

take_chunk-Kept :
    (cfg : Config) (base64 : Text → Option Bytes) (peer : Text) (link : ℕ) (id : Text)
    (status : TransferError → Text) (writable : Bool) (seq : ℕ) (text : Text) (i : Incoming)
    (s : State)
    → text_eq i.peer peer ≡ true
    → IsSound cfg i
    → AreSound cfg s
    → Kept cfg peer link id status (take_chunk base64 writable id seq text i s)
unfolding take_chunk
take_chunk-Kept cfg base64 peer link id status writable seq text i s same sound h =
    elim (Bool-cases (not (seq == i.seq) || ltb (chunk_size * 4 / 3 + 8) (byte_len text))) [
      | inl a ↦ rw a (refused-Kept cfg peer link id status corrupt_transfer s h)
      | inr a ↦ rw a (elim (Option-cases (base64 text)) [
        | inl c ↦ rw c (refused-Kept cfg peer link id status corrupt_transfer s h)
        | inr (b, c) ↦ rw c (put_bytes-Kept cfg peer link id status writable b i s same sound h)
      ])
    ]

pub on_file_chunk-AreSound :
    (cfg : Config) (base64 : Text → Option Bytes) (status : TransferError → Text) (writable : Bool)
    (peer : Text) (link : ℕ) (id : Text) (seq : ℕ) (text : Text) (s : State)
    → AreSound cfg s
    → AreSound cfg (on_file_chunk base64 status writable peer link id seq text s)
unfolding on_file_chunk file_chunk AllValues after_chunk lookup
on_file_chunk-AreSound cfg base64 status writable peer link id seq text s h =
    elim (Option-cases (lookup id s.incoming)) [
      | inl a ↦ rw (file_chunk, a) (refused-Kept cfg peer link id status unknown_transfer s h)
      | inr (i, a) ↦
          rw (file_chunk, a)
            (elim (Bool-cases (text_eq i.peer peer)) [
              | inr b ↦ rw b (refused-Kept cfg peer link id status unknown_transfer s h)
              | inl b ↦ rw b (
                  take_chunk-Kept cfg base64 peer link id status writable seq text i s b
                    (AllValues-lookup (IsSound cfg) id s.incoming i h a) h)
            ])
    ]

pub on_file_start-AreSound :
    (is_hex : Text → Bool) (status : TransferError → Text) (cfg : Config) (folder : Text) (used : ℕ)
    (writable : Bool) (peer : Text) (link : ℕ) (m : FileMeta) (now : ℕ) (s : State)
    → AreSound cfg s
    → AreSound cfg (on_file_start is_hex status cfg folder used writable peer link m now s)
unfolding on_file_start
on_file_start-AreSound is_hex status cfg folder used writable peer link m now s h =
    after_start-AreSound cfg peer link m.id status _
      (file_start-AreSound is_hex cfg folder used writable peer link m now s h)

pub on_file_end-AreSound :
    (cfg : Config) (peer id : Text) (s : State)
    → AreSound cfg s
    → AreSound cfg (on_file_end peer id s).1
unfolding on_file_end
on_file_end-AreSound cfg peer id s h = elim (Bool-cases (is_from peer (lookup id s.incoming))) [
  | inl b ↦ rw b (AllValues-remove (IsSound cfg) id s.incoming h)
  | inr b ↦ rw b h
]

pub drop_transfers-AreSound :
    (cfg : Config) (link : ℕ) (s : State) → AreSound cfg s → AreSound cfg (drop_transfers link s)
unfolding drop_transfers
drop_transfers-AreSound cfg link s h =
    retain_entries-AllValues (IsSound cfg) (λ _ i. not (i.link == link)) s.incoming h
