-- ===== src/Node/Send/Later.antt =====
-- node.rs: a message that was accepted is sent on every link to its peer, until the peer answers.
use agora_protocol.Base.{
  ℕ, ◌≡◌, sym, ap, ◌∙◌, subst, Bool, true, false, ◌&&◌, inr, Option, some, Text, Bytes, text_eq,
}
use agora_protocol.Base.Members.{IsIn, IsIn-map}
use agora_protocol.Base.Result.{ok}
use agora_protocol.Base.Dict.{lookup, lookup-insert_self}
use agora_protocol.Config.Types.{Config}
use agora_protocol.Config.Keys.{Base32}
use agora_protocol.Config.Peers.{has_peer}
use agora_protocol.Node.Types.{Msg, msg, Link, State}
use agora_protocol.Node.Links.{open_link, close_link, reply, on_ack, new_link}
use agora_protocol.Node.Links.Pending.{taken_state}
use agora_protocol.Node.Links.Untouched.{close_link-KeepsMessages, reply-KeepsMessages}
use agora_protocol.Node.Presence.{broadcast_presence}
use agora_protocol.Node.Trust.{apply}
use agora_protocol.Node.Send.{post, restore, saved, Sent}
use agora_protocol.Node.Send.Kept.{HasOwnId, IsIn-pending}
use agora_protocol.Node.Send.Steps.{IsKept, IsKept-post, IsKept-open, post-IsKept}
use agora_protocol.Node.Send.Others.{IsKept-on_ack, IsKept-apply, IsKept-restore, IsKept-same}

-- What a node does that is not an answer of the peer to the message. `other` is everything that leaves
-- the unconfirmed messages and the outbox.
pub data Quiet (peer : Text) (m : Msg) (s : State) : State → Type 0 where
  sent : (x : Msg) (p : Text) → text_eq x.id m.id ≡ false → Quiet peer m s (post x p s).1
  opened :
      (base32 : Base32) (cfg : Config) (user : Option Text) (my_key : Bytes) (p : Text)
      (key : Bytes) (i_initiated : Bool) (id now : ℕ) {t : State}
      → open_link base32 cfg user my_key p key i_initiated id now s ≡ some t
      → Quiet peer m s t
  closed : (p : Text) (id now : ℕ) → Quiet peer m s (close_link p id now s)
  replied :
      (p : Text) (link : ℕ) (id : Text) (done : Bool) (status : Text)
      → Quiet peer m s (reply p link id done status s)
  answered :
      (sanitize : Text → Text) (p id : Text) (done : Bool) (status : Text)
      → (text_eq id m.id && text_eq p peer) ≡ false
      → Quiet peer m s (on_ack sanitize p id done status s)
  applied :
      (base32 : Base32) (cfg : Config) (user : Option Text)
      → has_peer peer cfg ≡ true
      → Quiet peer m s (apply base32 cfg user s)
  restarted : (cfg : Config) → has_peer peer cfg ≡ true → Quiet peer m s (restore cfg (saved s))
  other : (t : State) → t.unacked ≡ s.unacked → t.outbox ≡ s.outbox → Quiet peer m s t

pub data Later (peer : Text) (m : Msg) (s : State) : State → Type 0 where
  now : Later peer m s s
  after : {t u : State} → Later peer m s t → Quiet peer m t u → Later peer m s u

module _ (peer : Text) (m : Msg) where
  Quiet-IsKept :
      {s t : State}
      → Quiet peer m s t
      → IsKept peer m s.unacked s.outbox
      → IsKept peer m t.unacked t.outbox
  unfolding apply broadcast_presence on_ack
  Quiet-IsKept {s} (sent x p e) h = IsKept-post peer m x p s (λ f. absurd (cc (e, f))) h
  Quiet-IsKept {s} (opened base32 cfg user my_key p key i id n {t} e) h =
      let g = taken_state base32 cfg user my_key p key i id n s t e in
      subst (λ (r : State). IsKept peer m r.unacked r.outbox) (sym g.1) (IsKept-open peer m p s h)
  Quiet-IsKept {s} (closed p id n) h =
      let k = close_link-KeepsMessages p id n s in
      IsKept-same peer m s (close_link p id n s) k.0 k.1 h
  Quiet-IsKept {s} (replied p link id done status) h =
      let k = reply-KeepsMessages p link id done status s in
      IsKept-same peer m s (reply p link id done status s) k.0 k.1 h
  Quiet-IsKept {s} (answered sanitize p id done status e) h =
      IsKept-on_ack peer m sanitize p id done status s e h
  Quiet-IsKept {s} (applied base32 cfg user e) h = IsKept-apply peer m cfg s.unacked s.outbox e h
  Quiet-IsKept {s} (restarted cfg e) h = IsKept-restore peer m cfg s e h
  Quiet-IsKept {s} (other t e f) h = IsKept-same peer m s t e f h

  Later-IsKept :
      {s t : State}
      → Later peer m s t
      → IsKept peer m s.unacked s.outbox
      → IsKept peer m t.unacked t.outbox
  Later-IsKept now h = h
  Later-IsKept (after l q) h = Quiet-IsKept q (Later-IsKept l h)

  -- A message that `send` accepted is sent on every link to its peer that is taken later, whatever
  -- happens in between: other messages, links that open and close, restarts, answers of other peers or
  -- for other messages, as long as the peer stays trusted and has not answered. No other message that
  -- waits or is unconfirmed when it is accepted has its id, and none that is sent later.
  pub post-sent :
      (s s' t t' : State) (r : Sent) (base32 : Base32) (cfg : Config) (user : Option Text)
      (my_key key : Bytes) (i_initiated : Bool) (id clock : ℕ)
      → HasOwnId peer m s.unacked s.outbox
      → post m peer s ≡ (ok r, s')
      → Later peer m s' t
      → open_link base32 cfg user my_key peer key i_initiated id clock t ≡ some t'
      → (l : Link) × (lookup peer t'.links ≡ some l) × IsIn (msg m) l.tx
  unfolding new_link
  post-sent s s' t t' r base32 cfg user my_key key i_initiated id clock h p l o =
      let g = taken_state base32 cfg user my_key peer key i_initiated id clock t t' o in
      let kept = Later-IsKept l (post-IsKept peer m s s' r h p) in
      (
        new_link cfg user peer key i_initiated id clock t,
        ap (λ (x : State). lookup peer x.links) g.1 ∙ lookup-insert_self peer _ t.links,
        inr (IsIn-map msg m _ (IsIn-pending peer m t kept.held)),
      )
