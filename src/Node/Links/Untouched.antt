-- ===== src/Node/Links/Untouched.antt =====
-- node.rs: what the end of a link and a reply leave as it was.
use agora_protocol.Base.{ℕ, ◌≡◌, refl, Bool, inl, inr, Option, none, some, Bool-cases, Text, leb}
use agora_protocol.Base.Dict.{lookup}
use agora_protocol.Config.Names.{valid_name}
use agora_protocol.Node.Types.{Link, Remote, State}
use agora_protocol.Node.Links.{
  forget_remote, is_link, drop_transfers, close_link, answer, reply, only_link, ack_backlog,
}

-- The unconfirmed messages and the outbox.
abbrev pub KeepsMessages : State → State → Type 0
KeepsMessages s t = (t.unacked ≡ s.unacked) × (t.outbox ≡ s.outbox)

forget_remote-KeepsMessages :
    (p : Text) (now : ℕ) (r : Option Remote) (s : State) → KeepsMessages s (forget_remote p now r s)
unfolding forget_remote
forget_remote-KeepsMessages p now none s = (refl, refl)
forget_remote-KeepsMessages p now (some r) s = (refl, refl)

pub close_link-KeepsMessages :
    (p : Text) (id now : ℕ) (s : State) → KeepsMessages s (close_link p id now s)
unfolding close_link drop_transfers
close_link-KeepsMessages p id now s = elim (Bool-cases (is_link id (lookup p s.links))) [
  | inl e ↦ rw e (forget_remote-KeepsMessages p now (lookup p s.remote) _)
  | inr e ↦ rw e (refl, refl)
]

answer-KeepsMessages :
    (p id : Text) (done : Bool) (status : Text) (l : Option Link) (s : State)
    → KeepsMessages s (answer p id done status l s)
unfolding answer
answer-KeepsMessages p id done status none s = (refl, refl)
answer-KeepsMessages p id done status (some l) s = elim (Bool-cases (leb ack_backlog l.acks)) [
  | inl e ↦ rw e (refl, refl)
  | inr e ↦ rw e (refl, refl)
]

pub reply-KeepsMessages :
    (p : Text) (link : ℕ) (id : Text) (done : Bool) (status : Text) (s : State)
    → KeepsMessages s (reply p link id done status s)
unfolding reply
reply-KeepsMessages p link id done status s = elim (Bool-cases (valid_name id)) [
  | inl e ↦ rw e (answer-KeepsMessages p id done status (only_link link (lookup p s.links)) s)
  | inr e ↦ rw e (refl, refl)
]
