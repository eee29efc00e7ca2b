-- ===== src/Node/Queues/Mailbox.antt =====
-- node.rs: the queues of local agents as mailboxes, of which a client of `deliver`, `register`, `inbox` and
-- `ack` sees no more than the list of events under each name.
use agora_protocol.Base.{
  ℕ, zero, suc, ◌+◌, ◌≡◌, refl, sym, ap, ◌∙◌, subst, true, false, inl, inr, List, [], ◌∷◌, ◌++◌,
  Option, none, some, Text, text_eq, text_eq_sound, byte_len, length, ◌-◌, is_alphanumeric,
  Bool-cases, Option-cases, eq_of_some, arith, ltb, leb, if◌then◌else◌,
}
use mathlib.Core.List.{append_assoc}
use agora_protocol.Base.Dict.{Dict, lookup, insert, contains_key}
use agora_protocol.Config.Names.{valid_name, is_name_char}
use agora_protocol.Node.Types.{Event, Session, State}
use agora_protocol.Node.Queues.{
  Queues, any_agent, queued_bytes_max, front_of, largest, make_room, queue_of, queue_of-some,
  drop_oldest, readdress, push_event, session_name, free_name, queue_max,
}
use agora_protocol.Node.Queues.Sessions.{queue_of-insert, numbered}

abbrev pub Mailbox : Type 0
Mailbox = Text → List Event

abbrev pub view : State → Mailbox
view s k = queue_of k s.queues

-- What is left of a list when some of its oldest elements are gone.
abbrev pub IsSuffix : List Event → List Event → Type 0
IsSuffix q p = (gone : List Event) × (p ≡ gone ++ q)

pub IsSuffix-refl : (q : List Event) → IsSuffix q q
IsSuffix-refl q = ([], refl)

pub IsSuffix-trans : (p q r : List Event) → IsSuffix p q → IsSuffix q r → IsSuffix p r
IsSuffix-trans p q r (a, e) (b, f) = (b ++ a, f ∙ ap (λ l. b ++ l) e ∙ sym (append_assoc b a p))

IsSuffix-append : (p q r : List Event) → IsSuffix p q → IsSuffix (p ++ r) (q ++ r)
IsSuffix-append p q r (a, e) = (a, ap (λ l. l ++ r) e ∙ append_assoc a p r)

front_of-lookup :
    (o : Option (Text × ℕ)) (m : Queues) (k : Text) (e : Event) (q : List Event)
    → front_of o m ≡ some (k, e, q)
    → lookup k m ≡ some (e ∷ q)
unfolding front_of
front_of-lookup none m k e q h = absurd (cc)
front_of-lookup (some (j, b)) m k e q h = by_queue (lookup j m) refl
  where
    by_queue : (o : Option (List Event)) → lookup j m ≡ o → lookup k m ≡ some (e ∷ q)
    by_queue none a = absurd (cc (rw (a, front_of) at h))
    by_queue (some []) a = absurd (cc (rw (a, front_of) at h))
    by_queue (some (x ∷ r)) a =
        subst (λ (t : Text × Event × List Event). lookup t.0 m ≡ some (t.1 ∷ t.2))
          (eq_of_some (j, x, r) (k, e, q) (rw (a, front_of) at h)) a

insert-IsSuffix :
    (k : Text) (e : Event) (q : List Event) (m : Queues) (j : Text)
    → lookup k m ≡ some (e ∷ q)
    → IsSuffix (queue_of j (insert k q m)) (queue_of j m)
insert-IsSuffix k e q m j h = elim (Bool-cases (text_eq k j)) [
  | inl a ↦ (
    e ∷ [],
    ap (λ i. queue_of i m) (sym (text_eq_sound k j a))
        ∙ queue_of-some m k (e ∷ q) h
        ∙ ap (λ l. e ∷ l) (sym (queue_of-insert k j q m ∙ rw a refl)),
  )
  | inr a ↦ ([], sym (queue_of-insert k j q m ∙ rw a refl))
]

pub make_room-IsSuffix :
    (fuel need queued : ℕ) (m : Queues) (j : Text)
    → IsSuffix (queue_of j (make_room fuel need queued m)) (queue_of j m)
unfolding make_room
make_room-IsSuffix zero need queued m j = IsSuffix-refl _
make_room-IsSuffix (suc fuel) need queued m j =
    elim (Bool-cases (ltb queued_bytes_max (queued + need))) [
      | inr a ↦ rw (a, make_room) (IsSuffix-refl _)
      | inl a ↦ elim (Option-cases (front_of (largest m) m)) [
        | inl b ↦ rw (a, b, make_room) (IsSuffix-refl _)
        | inr (t, b) ↦
            rw (a, b, make_room)
              (IsSuffix-trans _ _ _
                (make_room-IsSuffix fuel need (queued - byte_len t.1.body) (insert t.0 t.2 m) j)
                (insert-IsSuffix t.0 t.1 t.2 m j (front_of-lookup (largest m) m t.0 t.1 t.2 b)))
      ]
    ]

pub drop_oldest-IsSuffix : (q : List Event) → IsSuffix (drop_oldest q) q
unfolding drop_oldest
drop_oldest-IsSuffix [] = IsSuffix-refl []
drop_oldest-IsSuffix (e ∷ q) = elim (Bool-cases (leb queue_max (length (e ∷ q)))) [
  | inl a ↦ rw a (e ∷ [], refl)
  | inr a ↦ rw a (IsSuffix-refl _)
]

numbered-any : (want : Text) (i : ℕ) → text_eq any_agent (numbered want i) ≡ false
unfolding text_eq
numbered-any [] i = refl
numbered-any (c ∷ []) i = ground arith
numbered-any (c ∷ d ∷ w) i = ground arith

free_name-any :
    (fuel : ℕ) (want name : Text) (i : ℕ) (m : Dict Session)
    → text_eq any_agent name ≡ false
    → text_eq any_agent (free_name fuel want name i m) ≡ false
unfolding free_name
free_name-any zero want name i m h = h
free_name-any (suc fuel) want name i m h = elim (Bool-cases (contains_key name m)) [
  | inl e ↦ rw e (free_name-any fuel want _ (suc i) m (numbered-any want i))
  | inr e ↦ rw e h
]

any_agent-valid_name : valid_name any_agent ≡ false
unfolding valid_name is_name_char is_alphanumeric byte_len
any_agent-valid_name = refl

valid_name-any : (want : Text) → valid_name want ≡ true → text_eq any_agent want ≡ false
valid_name-any want h = elim (Bool-cases (text_eq any_agent want)) [
  | inl e ↦
      let wrong : false ≡ true =
        sym any_agent-valid_name ∙ ap valid_name (text_eq_sound any_agent want e) ∙ h in
      absurd (cc (wrong))
  | inr e ↦ e
]

pub session_name-any :
    (want : Text) (m : Dict Session)
    → valid_name want ≡ true
    → text_eq any_agent (session_name want m) ≡ false
unfolding session_name
session_name-any want m h = free_name-any (suc (length m)) want want 2 m (valid_name-any want h)

pub push_event-lists :
    (ev : Event) (t : Text) (s : State) (k : Text)
    → queue_of k (push_event ev t s).queues ≡ (
        if text_eq t k
        then drop_oldest (queue_of t s.queues) ++ readdress t ev ∷ []
        else queue_of k s.queues)
unfolding push_event
push_event-lists ev t s k = queue_of-insert t k _ s.queues
