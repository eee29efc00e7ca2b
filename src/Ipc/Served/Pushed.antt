-- ===== src/Ipc/Served/Pushed.antt =====
-- node.rs: an event counts as read only if the pusher took one with its id.
use agora_protocol.Base.{
  ℕ, zero, suc, is_empty, ap, ◌∙◌, All-append, ◌≡◌, refl, sym, subst, Bool, true, false, ◌&&◌, not,
  inl, inr, ◌⊎◌, List, [], ◌∷◌, ◌++◌, map, Text, codes, text_eq, text_eq_refl, mem_text, retain,
  All, All-imp, Bool-cases, arith, if◌then◌else◌,
}
use mathlib.Core.List.{append_assoc, append-nil}
use agora_protocol.Base.TextLaws.{mem_text-All}
use agora_protocol.Base.Members.{IsIn}
use agora_protocol.Node.Types.{Event, State}
use agora_protocol.Node.Queues.{queue_of, ack}
use agora_protocol.Node.Queues.Order.{queue_of-ack}
use agora_protocol.Ipc.Served.{
  Connection, fresh, collect, send_next, is_send, take_note, confirm, Happening, collects, sends,
  request, confirms, meanwhile, happen, happen_all,
}

abbrev pub ids : List Event → List Text
ids = map (λ e. e.id)

-- Each id that counts as pushed is one of an event that was sent.
abbrev AreSent : List Text → List Event → Type 0
AreSent p sent = All (λ i. mem_text i (ids sent) ≡ true) p

mem_text-left :
    (i : Text) (xs ys : List Event)
    → mem_text i (ids xs) ≡ true
    → mem_text i (ids (xs ++ ys)) ≡ true
unfolding mem_text
mem_text-left i [] ys h = absurd (ground arith)
mem_text-left i (x ∷ xs) ys h = ground (arith, mem_text-left i xs ys)

mem_text-last : (e : Event) (xs : List Event) → mem_text e.id (ids (xs ++ e ∷ [])) ≡ true
unfolding mem_text
mem_text-last e [] = rw (text_eq_refl e.id) refl
mem_text-last e (x ∷ xs) = ground (arith, mem_text-last e xs)

fresh-AreSent :
    (p : List Text) (q sent : List Event)
    → AreSent p sent
    → AreSent (fresh p q).1 (sent ++ (fresh p q).0)
unfolding fresh
fresh-AreSent p [] sent h = subst (AreSent p) (sym (append-nil sent)) h
fresh-AreSent p (e ∷ q) sent h = elim (Bool-cases (mem_text e.id p)) [
  | inl m ↦ rw (m, fresh) (fresh-AreSent p q sent h)
  | inr m ↦
      rw (m, fresh)
        (subst (AreSent (fresh (e.id ∷ p) q).1) (append_assoc sent (e ∷ []) (fresh (e.id ∷ p) q).0)
          (fresh-AreSent (e.id ∷ p) q (sent ++ e ∷ [])
            (mem_text-last e sent, All-imp _ _ p (λ i m. mem_text-left i sent (e ∷ []) m) h)))
]

mem-fresh_old :
    (i : Text) (p : List Text) (q : List Event)
    → mem_text i p ≡ true
    → mem_text i (fresh p q).1 ≡ true
unfolding fresh mem_text
mem-fresh_old i p [] h = h
mem-fresh_old i p (e ∷ q) h = elim (Bool-cases (mem_text e.id p)) [
  | inl m ↦ rw (m, fresh) (mem-fresh_old i p q h)
  | inr m ↦ rw (m, fresh) (mem-fresh_old i (e.id ∷ p) q (ground (arith, h)))
]

fresh-known :
    (p : List Text) (e : Event) (q : List Event)
    → mem_text e.id p ≡ true
    → fresh p (e ∷ q) ≡ fresh p q
unfolding fresh
fresh-known p e q m = rw (m, fresh) refl

fresh-new :
    (p : List Text) (e : Event) (q : List Event)
    → mem_text e.id p ≡ false
    → fresh p (e ∷ q) ≡ (e ∷ (fresh (e.id ∷ p) q).0, (fresh (e.id ∷ p) q).1)
unfolding fresh
fresh-new p e q m = rw (m, fresh) refl

-- After a turn, all that waits counts as pushed.
fresh-counted : (p : List Text) (q : List Event) → All (λ e. mem_text e.id (fresh p q).1 ≡ true) q
unfolding mem_text
fresh-counted p [] = tt
fresh-counted p (e ∷ q) = elim (Bool-cases (mem_text e.id p)) [
  | inl m ↦
      subst (λ (r : List Event × List Text). All (λ x. mem_text x.id r.1 ≡ true) (e ∷ q))
        (sym (fresh-known p e q m)) (mem-fresh_old e.id p q m, fresh-counted p q)
  | inr m ↦
      subst (λ (r : List Event × List Text). All (λ x. mem_text x.id r.1 ≡ true) (e ∷ q))
        (sym (fresh-new p e q m))
        (mem-fresh_old e.id (e.id ∷ p) q (rw (text_eq_refl e.id) refl), fresh-counted (e.id ∷ p) q)
]

-- What the agent has been sent or is about to be sent.
abbrev pub shown : Connection → List Event
shown c = c.sent ++ c.due

-- Each id that counts as pushed, and each that is to be acknowledged, is one of an event that was sent
-- or is about to be.
abbrev IsTold : Connection → Type 0
IsTold c = AreSent c.pushed (shown c) × All (λ p. AreSent p (shown c)) c.acks

either-IsTold : (b : Bool) (c d : Connection) → IsTold c → IsTold d → IsTold (if b then c else d)
either-IsTold true c d p q = p
either-IsTold false c d p q = q

nothing_due : (q : List Event) → is_empty q ≡ true → q ≡ []
nothing_due [] h = refl
nothing_due (e ∷ q) h = absurd (cc (h))

AreSent-left : (p : List Text) (xs ys : List Event) → AreSent p xs → AreSent p (xs ++ ys)
AreSent-left p xs ys h = All-imp _ _ p (λ i m. mem_text-left i xs ys m) h

collect-IsTold : (name : Text) (c : Connection) → IsTold c → IsTold (collect name c)
unfolding collect
collect-IsTold name c h = elim (Bool-cases (is_empty c.due)) [
  | inr e ↦ rw e h
  | inl e ↦ rw e (
      let es = (fresh c.pushed (queue_of name c.node.queues)).0 in
      let all : shown c ≡ c.sent =
        ap (λ l. c.sent ++ l) (nothing_due c.due e) ∙ append-nil c.sent in
      (
        fresh-AreSent c.pushed (queue_of name c.node.queues) c.sent
            (subst (AreSent c.pushed) all h.0),
        All-imp _ _ c.acks (λ p m. AreSent-left p c.sent es (subst (AreSent p) all m)) h.1,
      ))
]

send_next-IsTold :
    (es : List Event) (c : Connection) → c.due ≡ es → IsTold c → IsTold (send_next es c)
unfolding send_next
send_next-IsTold [] c d h = h
send_next-IsTold (e ∷ es) c d h =
    subst (λ l. AreSent c.pushed l × All (λ p. AreSent p l) c.acks)
      (ap (λ l. c.sent ++ l) d ∙ sym (append_assoc c.sent (e ∷ []) es)) h

take_note-IsTold :
    (push : Bool) (op : Text) (c : Connection) → IsTold c → IsTold (take_note push op c)
unfolding take_note
take_note-IsTold push op c h =
    let taken =
      either-IsTold (push && is_send op) (record c { pushed = []; acks = c.acks ++ c.pushed ∷ [] })
        c (tt, All-append _ c.acks _ h.1 (h.0, tt)) h in
    either-IsTold (text_eq op (codes "inbox")) _ _ (tt, taken.1) taken

-- An acknowledgement changes the node, and leaves the others to be carried out.
confirm_lem :
    (name : Text) (n : ℕ) (ps : List (List Text)) (c : Connection) (P : List Text → Type 0)
    → All P ps
    → (shown (confirm name n ps c) ≡ shown c)
      × ((confirm name n ps c).pushed ≡ c.pushed)
      × All P (confirm name n ps c).acks
unfolding confirm
confirm_lem name zero [] c P h = (refl, refl, tt)
confirm_lem name (suc n) [] c P h = (refl, refl, tt)
confirm_lem name zero (p ∷ ps) c P h = (refl, refl, h.1)
confirm_lem name (suc n) (p ∷ ps) c P h =
    let (a, b, d) = confirm_lem name n ps c P h.1 in (a, b, (h.0, d))

confirm-IsTold :
    (name : Text) (n : ℕ) (c : Connection) → IsTold c → IsTold (confirm name n c.acks c)
confirm-IsTold name n c h =
    let (a, b, d) = confirm_lem name n c.acks c (λ p. AreSent p (shown c)) h.1 in
    (
      subst (AreSent (confirm name n c.acks c).pushed) (sym a)
          (subst (λ p. AreSent p (shown c)) (sym b) h.0),
      subst (λ l. All (λ p. AreSent p l) (confirm name n c.acks c).acks) (sym a) d,
    )

happen-IsTold :
    (name : Text) (push : Bool) (h : Happening) (c : Connection)
    → IsTold c
    → IsTold (happen name push h c)
unfolding happen
happen-IsTold name push collects c s = either-IsTold push _ _ (collect-IsTold name c s) s
happen-IsTold name push sends c s = send_next-IsTold c.due c refl s
happen-IsTold name push (request op) c s = take_note-IsTold push op c s
happen-IsTold name push (confirms n) c s = confirm-IsTold name n c s
happen-IsTold name push (meanwhile t) c s = s

happen_all-IsTold :
    (name : Text) (push : Bool) (hs : List Happening) (c : Connection)
    → IsTold c
    → IsTold (happen_all name push hs c)
unfolding happen_all
happen_all-IsTold name push [] c s = s
happen_all-IsTold name push (h ∷ hs) c s =
    happen_all-IsTold name push hs (happen name push h c) (happen-IsTold name push h c s)

-- Each element of a list passes a filter or fails its test.
retained : (f : Event → Bool) (q : List Event) → All (λ e. IsIn e (retain f q) ⊎ (f e ≡ false)) q
retained f [] = tt
retained f (x ∷ q) = elim (Bool-cases (f x)) [
  | inl t ↦
      subst (λ r. All (λ e. IsIn e r ⊎ (f e ≡ false)) (x ∷ q)) (sym (kept t))
        (inl (inl refl), All-imp _ _ q (λ e h. later x e h) (retained f q))
  | inr t ↦
      subst (λ r. All (λ e. IsIn e r ⊎ (f e ≡ false)) (x ∷ q)) (sym (gone t)) (inr t, retained f q)
]
  where
    kept : f x ≡ true → retain f (x ∷ q) ≡ x ∷ retain f q
    kept t = rw t refl

    gone : f x ≡ false → retain f (x ∷ q) ≡ retain f q
    gone t = rw t refl

    later :
        (x e : Event)
        → IsIn e (retain f q) ⊎ (f e ≡ false)
        → IsIn e (x ∷ retain f q) ⊎ (f e ≡ false)
    later x e (inl i) = inl (inr i)
    later x e (inr i) = inr i

-- What becomes of a waiting event when a request is noted.
abbrev KeptOrSent : List Event → List Event → Event → Type 0
KeptOrSent after sent e = IsIn e after ⊎ (mem_text e.id (ids sent) ≡ true)

ack-KeptOrSent :
    (name : Text) (p : List Text) (sent : List Event) (s : State)
    → AreSent p sent
    → All (KeptOrSent (queue_of name (ack name p s).queues) sent) (queue_of name s.queues)
ack-KeptOrSent name p sent s h =
    subst (λ r. All (KeptOrSent r sent) (queue_of name s.queues)) (sym (queue_of-ack name p s).0)
      (All-imp _ _ (queue_of name s.queues) (λ e r. by_id e r)
        (retained (λ e. not (mem_text e.id p)) (queue_of name s.queues)))
  where
    by_id :
        (e : Event)
        → IsIn e (retain (λ x. not (mem_text x.id p)) (queue_of name s.queues))
          ⊎ (not (mem_text e.id p) ≡ false)
        → KeptOrSent (retain (λ x. not (mem_text x.id p)) (queue_of name s.queues)) sent e
    by_id e (inl i) = inl i
    by_id e (inr n) = inr (mem_text-All _ e.id p h (ground (arith, n)))

each_present : (q : List Event) → All (λ e. IsIn e q) q
each_present [] = tt
each_present (x ∷ q) = (inl refl, All-imp _ _ q (λ e h. inr h) (each_present q))

confirm-KeptOrSent :
    (name : Text) (n : ℕ) (ps : List (List Text)) (c : Connection)
    → All (λ p. AreSent p (shown c)) ps
    → All
        (KeptOrSent (queue_of name (confirm name n ps c).node.queues) (shown c))
        (queue_of name c.node.queues)
unfolding confirm
confirm-KeptOrSent name zero [] c h =
    All-imp _ _ (queue_of name c.node.queues) (λ e i. inl i) (each_present _)
confirm-KeptOrSent name (suc n) [] c h =
    All-imp _ _ (queue_of name c.node.queues) (λ e i. inl i) (each_present _)
confirm-KeptOrSent name zero (p ∷ ps) c h = ack-KeptOrSent name p (shown c) c.node h.0
confirm-KeptOrSent name (suc n) (p ∷ ps) c h = confirm-KeptOrSent name n ps c h.1

abbrev pub opened : State → Connection
opened s = record { node = s; pushed = []; due = []; sent = []; acks = [] }

-- The pusher sends all that it took.
abbrev pub until_sent : List Event → List Happening
until_sent [] = []
until_sent (e ∷ es) = sends ∷ until_sent es

all_sent :
    (name : Text) (es : List Event) (c : Connection)
    → happen_all name true (until_sent es) (record c { due = es })
      ≡ record c { due = []; sent = c.sent ++ es }
unfolding happen_all happen send_next
all_sent name [] c = ap (λ l. record c { due = []; sent = l }) (sym (append-nil c.sent))
all_sent name (e ∷ es) c =
    all_sent name es (record c { sent = c.sent ++ e ∷ [] })
    ∙ ap (λ l. record c { due = []; sent = l }) (append_assoc c.sent (e ∷ []) es)

-- The pusher sends what it took before, takes what is fresh, and sends that.
abbrev pub push_turn : Text → Connection → Connection
push_turn name c =
    let d = happen name true collects (happen_all name true (until_sent c.due) c) in
    happen_all name true (until_sent d.due) d

turn-sent :
    (name : Text) (c : Connection)
    → IsTold c
    → All (λ e. mem_text e.id (ids (push_turn name c).sent) ≡ true) (queue_of name c.node.queues)
unfolding happen collect
turn-sent name c h =
    let q = queue_of name c.node.queues in
    let f = fresh c.pushed q in
    let before : Connection = record c { due = []; sent = shown c } in
    let after : Connection = record before { pushed = f.1 } in
    let first : happen_all name true (until_sent c.due) c ≡ before = all_sent name c.due c in
    let ends : push_turn name c ≡ record after { due = []; sent = shown c ++ f.0 } =
      ap
        (λ (x : Connection).
          happen_all name true (until_sent (happen name true collects x).due)
            (happen name true collects x))
        first
      ∙ all_sent name f.0 after in
    subst (λ (x : Connection). All (λ e. mem_text e.id (ids x.sent) ≡ true) q) (sym ends)
      (All-imp _ _ q (λ e m. mem_text-All _ e.id f.1 (fresh-AreSent c.pushed q (shown c) h.0) m)
        (fresh-counted c.pushed q))

-- On a connection in the mode `push`, whatever was requested, however the steps of the pusher and of the
-- requests were interleaved, and whatever happened to the node before: a turn of the pusher that ends
-- has sent, of every event that waited for the agent, that event or one with its id; and what an
-- acknowledgement takes out of the agent's queue has the id of an event that was sent to the agent or
-- that the pusher took and is about to send.
pub happen_all-pushed :
    (name : Text) (hs : List Happening) (s : State) (n : ℕ)
    → let c = happen_all name true hs (opened s) in
      All (λ e. mem_text e.id (ids (push_turn name c).sent) ≡ true) (queue_of name c.node.queues)
      × All
          (λ e.
            IsIn e (queue_of name (happen name true (confirms n) c).node.queues)
            ⊎ (mem_text e.id (ids (c.sent ++ c.due)) ≡ true))
          (queue_of name c.node.queues)
unfolding happen
happen_all-pushed name hs s n =
    let c = happen_all name true hs (opened s) in
    let h = happen_all-IsTold name true hs (opened s) (tt, tt) in
    (turn-sent name c h, confirm-KeptOrSent name n c.acks c h.1)
