-- ===== src/Relay/Server/Ends.antt =====
-- relay.rs: the two ends of a tunnel are the member that asked for it and the machine that it called.
use agora_protocol.Base.{
  ℕ, ◌≡◌, refl, sym, ap, ◌∙◌, subst, true, false, inl, inr, Option, none, some, Option-cases,
  Bool-cases, Text, Bytes, text_eq, text_eq_sound, arith, eq_of_some, ◌==◌,
}
use agora_protocol.Base.Dict.{lookup}
use agora_protocol.Relay.Server.{
  Pending, Relay, start_listening, stop_listening, is_listener, is_called, take_call, Phase, joined,
  Task, Move, begin, reserve_slot, refuse_full, look_up, refuse_offline, store, refuse_busy,
  announce, answered, unanswered, release, close, System, set_task, deliver_mail, Step, move, take,
  take_lost, listen, unlisten, Reach, started, later,
}
use agora_protocol.Relay.Server.Waiting.{is_fresh, Waits-take_call, Move-pending}

-- A call that waits is the call of a task that has begun, for the machine that the task calls.
abbrev IsCallOf : (ℕ → Task) → Pending → Type 0
IsCallOf f p = ((f p.task).to ≡ p.to) × (is_fresh (f p.task).phase ≡ false)

-- The machine in the channel of a task, and the one with which it is joined, is the one it calls.
abbrev IsTrue : Task → Type 0
IsTrue t =
    ((who : Bytes) → t.mail ≡ some who → who ≡ t.to)
    × ((who : Bytes) → t.phase ≡ joined who → who ≡ t.to)

record HasEnds (s : System) : Type 0 where
  pub called :
      (token : Text) (p : Pending) → lookup token s.relay.pending ≡ some p → IsCallOf s.task p
  pub ends : (i : ℕ) → IsTrue (s.task i)

-- A task that has begun calls the same machine for ever, and never begins again.
Move-to :
    (me : ℕ) {s : Relay} {t : Task} {s' : Relay} {t' : Task}
    → Move me s t s' t'
    → is_fresh t.phase ≡ false
    → (t'.to ≡ t.to) × (is_fresh t'.phase ≡ false)
Move-to me (begin key to e) b = absurd (cc (ap is_fresh e))
Move-to me (reserve_slot e f) b = (refl, refl)
Move-to me (refuse_full e f) b = (refl, refl)
Move-to me (look_up id calls e f) b = (refl, refl)
Move-to me (refuse_offline e f) b = (refl, refl)
Move-to me (store id token e f) b = (refl, refl)
Move-to me (refuse_busy id token e f) b = (refl, refl)
Move-to me (announce id token e) b = (refl, refl)
Move-to me (answered token who e m) b = (refl, refl)
Move-to me (unanswered token e) b = (refl, refl)
Move-to me (release e) b = (refl, refl)
Move-to me (close who e) b = (refl, refl)

Move-IsTrue :
    (me : ℕ) {s : Relay} {t : Task} {s' : Relay} {t' : Task}
    → Move me s t s' t'
    → IsTrue t
    → IsTrue t'
Move-IsTrue me (begin key to e) h = (λ who m. absurd (cc), λ who m. absurd (cc))
Move-IsTrue me (reserve_slot e f) h = (h.0, λ who m. absurd (cc))
Move-IsTrue me (refuse_full e f) h = (h.0, λ who m. absurd (cc))
Move-IsTrue me (look_up id calls e f) h = (h.0, λ who m. absurd (cc))
Move-IsTrue me (refuse_offline e f) h = (h.0, λ who m. absurd (cc))
Move-IsTrue me (store id token e f) h = (h.0, λ who m. absurd (cc))
Move-IsTrue me (refuse_busy id token e f) h = (h.0, λ who m. absurd (cc))
Move-IsTrue me (announce id token e) h = (h.0, λ who m. absurd (cc))
Move-IsTrue me {t} (answered token who e m) h =
    (h.0, λ x f. subst (λ y. y ≡ t.to) (joined_injective who x f) (h.0 who m))
  where
    who_of : Phase → Bytes
    who_of (joined w) = w
    who_of _ = who

    joined_injective : (a b : Bytes) → joined a ≡ joined b → a ≡ b
    joined_injective a b f = ap who_of f
Move-IsTrue me (unanswered token e) h = (h.0, λ who m. absurd (cc))
Move-IsTrue me (release e) h = (h.0, λ who m. absurd (cc))
Move-IsTrue me (close who e) h = (h.0, λ x m. absurd (cc))

-- A task in the place of one that has begun and calls the same machine.
IsCallOf-set_task :
    (i : ℕ) (t' : Task) (f : ℕ → Task) (p : Pending)
    → (is_fresh (f i).phase ≡ false → (t'.to ≡ (f i).to) × (is_fresh t'.phase ≡ false))
    → IsCallOf f p
    → IsCallOf (set_task i t' f) p
IsCallOf-set_task i t' f p same h = elim (Bool-cases (i == p.task)) [
  | inr e ↦ rw e h
  | inl e ↦
      let at : p.task ≡ i = ground (arith, e) in
      let g = same (subst (λ j. is_fresh (f j).phase ≡ false) at h.1) in
      rw e (g.0 ∙ ap (λ j. (f j).to) (sym at) ∙ h.0, g.1)
]

IsCallOf-new :
    (i : ℕ) (t' : Task) (f : ℕ → Task)
    → is_fresh t'.phase ≡ false
    → IsCallOf (set_task i t' f) (record { to = t'.to; task = i })
IsCallOf-new i t' f h = let e : (i == i) ≡ true = ground arith in rw e (refl, h)

IsTrue-set_task :
    (i : ℕ) (t' : Task) (f : ℕ → Task)
    → IsTrue t'
    → ((j : ℕ) → IsTrue (f j))
    → (j : ℕ) → IsTrue (set_task i t' f j)
IsTrue-set_task i t' f h all j = elim (Bool-cases (i == j)) [
  | inl e ↦ rw e h
  | inr e ↦ rw e (all j)
]

-- The connection that a machine takes waited for that machine.
is_called-some :
    (key : Bytes) (o : Option Pending) (p : Pending)
    → is_called key o ≡ some p
    → (o ≡ some p) × (p.to ≡ key)
unfolding is_called
is_called-some key none p h = absurd (cc)
is_called-some key (some q) p h = elim (Bool-cases (text_eq q.to key)) [
  | inl e ↦
      let same : q ≡ p = eq_of_some _ _ (rw e at h) in
      (ap some same, ap (λ x. x.to) (sym same) ∙ text_eq_sound q.to key e)
  | inr e ↦ absurd (cc (rw e at h))
]

take_call-taken :
    (key : Bytes) (token : Text) (s : Relay) (p : Pending)
    → (take_call key token s).0 ≡ some p
    → (lookup token s.pending ≡ some p) × (p.to ≡ key)
unfolding take_call
take_call-taken key token s p h = elim (Option-cases (is_called key (lookup token s.pending))) [
  | inl e ↦ absurd (cc (rw (take_call, e) at h))
  | inr (q, e) ↦ is_called-some key (lookup token s.pending) p (e ∙ (rw (take_call, e) at h))
]

IsCallOf-deliver_mail :
    (key : Bytes) (o : Option Pending) (f : ℕ → Task) (p : Pending)
    → IsCallOf f p
    → IsCallOf (deliver_mail key o f) p
unfolding deliver_mail
IsCallOf-deliver_mail key none f p h = h
IsCallOf-deliver_mail key (some q) f p h = IsCallOf-set_task q.task _ f p (λ g. (refl, g)) h

-- A machine whose key goes into a task's channel is the one that the task calls.
IsTrue-deliver_mail :
    (key : Bytes) (o : Option Pending) (f : ℕ → Task)
    → ((p : Pending) → o ≡ some p → key ≡ (f p.task).to)
    → ((j : ℕ) → IsTrue (f j))
    → (j : ℕ) → IsTrue (deliver_mail key o f j)
unfolding deliver_mail
IsTrue-deliver_mail key none f here all = all
IsTrue-deliver_mail key (some p) f here all =
    IsTrue-set_task p.task _ f ((λ who m. sym (eq_of_some _ _ m) ∙ here p refl), (all p.task).1) all

Step-called :
    (s : System) (key : Bytes) (token : Text)
    → HasEnds s
    → (p : Pending) → (take_call key token s.relay).0 ≡ some p
    → key ≡ (s.task p.task).to
Step-called s key token h p e =
    let t = take_call-taken key token s.relay p e in sym t.1 ∙ sym (h.called token p t.0).0

Step-HasEnds : (n : ℕ) {s t : System} → Step n s t → HasEnds s → HasEnds t
unfolding start_listening stop_listening
Step-HasEnds n {s} (move i {r} {t} l m) h = record {
  called = λ token p e. elim (Move-pending i m token p e) [
    | inl g ↦ IsCallOf-set_task i t s.task p (Move-to i m) (h.called token p g)
    | inr (g, b) ↦ subst (IsCallOf (set_task i t s.task)) (sym g) (IsCallOf-new i t s.task b)
  ];
  ends = IsTrue-set_task i t s.task (Move-IsTrue i m (h.ends i)) h.ends;
}
Step-HasEnds n {s} (take key token) h = record {
  called = λ j p e.
      IsCallOf-deliver_mail key (take_call key token s.relay).0 s.task p
        (h.called j p (Waits-take_call key token s.relay p j e));
  ends =
      IsTrue-deliver_mail key (take_call key token s.relay).0 s.task (Step-called s key token h)
        h.ends;
}
Step-HasEnds n {s} (take_lost key token) h = record {
  called = λ j p e. h.called j p (Waits-take_call key token s.relay p j e);
  ends = h.ends;
}
Step-HasEnds n {s} (listen key) h = record { called = h.called; ends = h.ends }
Step-HasEnds n {s} (unlisten key id) h =
    elim (Bool-cases (is_listener id (lookup key s.relay.listening))) [
      | inl e ↦ rw e (record { called = h.called; ends = h.ends })
      | inr e ↦ rw e h
    ]

Reach-HasEnds : (n : ℕ) {s : System} → Reach n s → HasEnds s
Reach-HasEnds n started = record {
  called = λ token p e. unfold lookup in absurd (cc);
  ends = λ i. (λ who m. absurd (cc), λ who m. absurd (cc));
}
Reach-HasEnds n (later r st) = Step-HasEnds n st (Reach-HasEnds n r)

-- However the tasks of the relay interleave, and whichever machines take calls with whatever tokens:
-- the other end of a tunnel is the machine that the member called. No other machine gets the
-- connection, also not one that knows the token.
pub Reach-joined :
    (n : ℕ) {s : System}
    → Reach n s
    → (i : ℕ) (who : Bytes) → (s.task i).phase ≡ joined who
    → who ≡ (s.task i).to
Reach-joined n r i who e = ((Reach-HasEnds n r).ends i).1 who e
