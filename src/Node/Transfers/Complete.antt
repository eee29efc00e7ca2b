-- ===== src/Node/Transfers/Complete.antt =====
-- node.rs: a file whose end has come, after any sequence of events of transfers.
use agora_protocol.Base.{
  ℕ, ◌≤◌, ◌≡◌, Bool, true, inl, inr, Option, some, Bool-cases, Text, Bytes, text_eq_sound, length,
  arith,
}
use agora_protocol.Base.Dict.{lookup, AllValues-lookup, AllValues}
use agora_protocol.Config.Types.{Config}
use agora_protocol.Node.Types.{FileMeta, Incoming, State, empty_state}
use agora_protocol.Node.Links.{drop_transfers}
use agora_protocol.Node.Transfers.{
  TransferError, is_from, on_file_chunk, on_file_start, on_file_end, put_away, is_complete,
}
use agora_protocol.Node.Transfers.Sound.{
  IsSound, AreSound, on_file_chunk-AreSound, on_file_start-AreSound, on_file_end-AreSound,
  drop_transfers-AreSound,
}

-- What a node does with its transfers: headers, chunks and ends of files that any peers send, in any
-- order, links that close, and files that were finished.
pub data Steps (is_hex : Text → Bool) (base64 : Text → Option Bytes) (status : TransferError → Text)
    (cfg : Config) (folder : Text) : State → State → Type 0 where
  stop : (s : State) → Steps is_hex base64 status cfg folder s s
  header :
      (used : ℕ) (writable : Bool) (peer : Text) (link : ℕ) (m : FileMeta) (now : ℕ) (s t : State)
      → Steps is_hex base64 status cfg folder
          (on_file_start is_hex status cfg folder used writable peer link m now s)
          t
      → Steps is_hex base64 status cfg folder s t
  chunk :
      (writable : Bool) (peer : Text) (link : ℕ) (id : Text) (seq : ℕ) (text : Text) (s t : State)
      → Steps is_hex base64 status cfg folder
          (on_file_chunk base64 status writable peer link id seq text s)
          t
      → Steps is_hex base64 status cfg folder s t
  finished :
      (peer id : Text) (s t : State)
      → Steps is_hex base64 status cfg folder (on_file_end peer id s).1 t
      → Steps is_hex base64 status cfg folder s t
  settled :
      (i : Incoming) (s t : State)
      → Steps is_hex base64 status cfg folder (put_away i s) t
      → Steps is_hex base64 status cfg folder s t
  closed :
      (link : ℕ) (s t : State)
      → Steps is_hex base64 status cfg folder (drop_transfers link s) t
      → Steps is_hex base64 status cfg folder s t

module _ (is_hex : Text → Bool) (base64 : Text → Option Bytes) (status : TransferError → Text)
    (cfg : Config) (folder : Text) where
  Steps-AreSound :
      (s t : State) → Steps is_hex base64 status cfg folder s t → AreSound cfg s → AreSound cfg t
  unfolding put_away
  Steps-AreSound s t (stop u) h = h
  Steps-AreSound s t (header used writable peer link m now u v later) h =
      Steps-AreSound _ v later
        (on_file_start-AreSound is_hex status cfg folder used writable peer link m now u h)
  Steps-AreSound s t (chunk writable peer link id seq text u v later) h =
      Steps-AreSound _ v later
        (on_file_chunk-AreSound cfg base64 status writable peer link id seq text u h)
  Steps-AreSound s t (finished peer id u v later) h =
      Steps-AreSound _ v later (on_file_end-AreSound cfg peer id u h)
  Steps-AreSound s t (settled i u v later) h = Steps-AreSound _ v later h
  Steps-AreSound s t (closed link u v later) h =
      Steps-AreSound _ v later (drop_transfers-AreSound cfg link u h)

  on_file_end-some :
      (peer id : Text) (s : State) (i : Incoming)
      → (on_file_end peer id s).0 ≡ some i
      → lookup id s.incoming ≡ some i
  unfolding on_file_end
  on_file_end-some peer id s i h = elim (Bool-cases (is_from peer (lookup id s.incoming))) [
    | inl b ↦ rw b at h
    | inr b ↦ absurd (cc (rw b at h))
  ]

  -- From the start of a node, after any headers, chunks and ends of files of any peers and any links
  -- that closed: a file whose end comes and that passes the test of `file_finish` has on disk exactly
  -- the announced number of bytes, no more than the largest file that is taken, and the hash of these
  -- bytes is the announced one.
  pub is_complete-Steps :
      (hash : Bytes → Text) (s : State) (peer id : Text) (i : Incoming)
      → Steps is_hex base64 status cfg folder empty_state s
      → (on_file_end peer id s).0 ≡ some i
      → is_complete hash i ≡ true
      → (length i.written ≡ i.meta.size)
        × (i.meta.size ≤ cfg.files.max_bytes)
        × (hash i.written ≡ i.meta.hash)
  unfolding is_complete AllValues
  is_complete-Steps hash s peer id i steps e c =
      let sound =
        AllValues-lookup (IsSound cfg) id s.incoming i (Steps-AreSound empty_state s steps tt)
          (on_file_end-some peer id s i e) in
      (
        ground (arith, sound.0, c),
        sound.2,
        text_eq_sound (hash i.written) i.meta.hash (ground (arith, c)),
      )
