-- ===== src/Node/Queues/Calls.antt =====
-- node.rs: the calls that touch waiting events, and what a set of mailboxes allows each of them.
use agora_protocol.Base.{
  ℕ, ◌≡◌, Bool, true, false, not, ◌⊎◌, List, [], ◌∷◌, ◌++◌, map, Option, Text, text_eq, mem_text,
  retain, if◌then◌else◌,
}
use agora_protocol.Base.Result.{is_ok}
use agora_protocol.Config.Names.{valid_name}
use agora_protocol.Config.Types.{Config}
use agora_protocol.Node.Types.{Event, State}
use agora_protocol.Node.Queues.{any_agent, readdress, deliver, inbox, ack, register}
use agora_protocol.Node.Queues.Mailbox.{Mailbox, IsSuffix}

-- The calls of the node that touch waiting events.
pub data Call : Type 0 where
  delivers : Config → Bool → ℕ → Event → Call
  looks : Text → Call
  acks : Text → List Text → Call
  opens : Config → Option Text → Text → Option Text → ℕ → Call

-- What a call answers: whether it was done, the name of the session, the events that were read.
pub record Reply : Type 0 where
  pub accepted : Bool
  pub name : Text
  pub read : List Event

unfoldable pub perform : Call → State → Reply × State
perform (delivers cfg starts now ev) s =
    let r = deliver cfg starts now ev s in
    (record { accepted = is_ok r.0; name = []; read = [] }, r.1)
perform (looks me) s =
    let r = inbox me s in (record { accepted = true; name = me; read = r.0 }, r.1)
perform (acks me ids) s = (record { accepted = true; name = me; read = [] }, ack me ids s)
perform (opens cfg user want about sid) s =
    let r = register cfg user want about sid s in
    (record { accepted = true; name = r.0; read = [] }, r.1)

unfoldable pub perform_all : List Call → State → List Reply × State
unfolding perform
perform_all [] s = ([], s)
perform_all (c ∷ cs) s = let a = perform c s in let b = perform_all cs a.1 in (a.0 ∷ b.0, b.1)

-- An event was put at the end of one mailbox, the addressed one if it has a name; of the others and of
-- what stood before it, only the oldest events may be gone.
abbrev pub Posted : Event → Mailbox → Mailbox → Type 0
Posted ev m n =
    (t : Text) × (q : List Event) × ((text_eq ev.to any_agent ≡ true) ⊎ (t ≡ ev.to))
    × IsSuffix q (m t)
    × (n t ≡ q ++ readdress t ev ∷ [])
    × ((k : Text) → (text_eq t k ≡ true) ⊎ IsSuffix (n k) (m k))

abbrev pub Thinned : Mailbox → Mailbox → Type 0
Thinned m n = (k : Text) → IsSuffix (n k) (m k)

abbrev pub Delivered : Bool → Event → Mailbox → Mailbox → Type 0
Delivered true ev m n = Posted ev m n
Delivered false ev m n = Thinned m n

-- What the mailboxes allow a call to answer and to leave.
abbrev pub Allows : Call → Mailbox → Reply → Mailbox → Type 0
Allows (delivers cfg starts now ev) m r n = Delivered r.accepted ev m n
Allows (looks me) m r n = (r.read ≡ m me) × ((k : Text) → n k ≡ (if text_eq me k then [] else m k))
Allows (acks me ids) m r n =
    (k : Text) → n k ≡ (if text_eq me k then retain (λ e. not (mem_text e.id ids)) (m me) else m k)
Allows (opens cfg user want about sid) m r n =
    (k : Text)
    → n k ≡ (
        if text_eq r.name k
        then m r.name ++ map (readdress r.name) (m any_agent)
        else if text_eq any_agent k
        then []
        else m k)

abbrev pub AllowsAll : List Call → Mailbox → List Reply → Mailbox → Type 0
AllowsAll [] m [] n = (k : Text) → n k ≡ m k
AllowsAll [] m (r ∷ rs) n = ⊥
AllowsAll (c ∷ cs) m [] n = ⊥
AllowsAll (c ∷ cs) m (r ∷ rs) n =
    (between : Mailbox) × Allows c m r between × AllowsAll cs between rs n

-- A session asks for a valid name, which `serve_ipc` sees to.
abbrev pub AreNamed : List Call → Type 0
AreNamed [] = Unit
AreNamed (opens cfg user want about sid ∷ cs) = (valid_name want ≡ true) × AreNamed cs
AreNamed (delivers cfg starts now ev ∷ cs) = AreNamed cs
AreNamed (looks me ∷ cs) = AreNamed cs
AreNamed (acks me ids ∷ cs) = AreNamed cs
