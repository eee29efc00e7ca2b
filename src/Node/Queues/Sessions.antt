-- ===== src/Node/Queues/Sessions.antt =====
-- node.rs: the names of sessions and the events that wait for any agent.
use agora_protocol.Base.{
  ℕ, zero, suc, ◌+◌, ◌≤◌, ◌<◌, ◌≡◌, ◌≢◌, refl, sym, ap, ◌∙◌, true, false, inl, inr, List, [], ◌∷◌,
  ◌++◌, map, Option, none, some, Text, codes, text_eq, text_eq_iff, text_eq_refl, text_eq_sound,
  text_eq_comm, decimal, drop, length, length-append, length-map, Bool-cases, arith, if◌then◌else◌,
}
use mathlib.Core.List.{append-nil}
use agora_protocol.Base.Decimal.{decimal_injective}
use agora_protocol.Base.Dict.{
  Dict, lookup, insert, remove, contains_key, contains_key-remove, length-remove_lt, lookup-insert,
  lookup-insert_self, lookup-remove,
}
use agora_protocol.Config.Types.{Config}
use agora_protocol.Node.Presence.{broadcast_presence}
use agora_protocol.Node.Types.{Session, Event, State}
use agora_protocol.Node.Queues.{
  free_name, session_name, claim, queue_of, queue_of-some, queue_of-none, readdress, any_agent,
  queue_max, Queues, register,
}

abbrev pub numbered : Text → ℕ → Text
numbered want i = want ++ codes "-" ++ decimal i

append_injective : (a b c : List ℕ) → a ++ b ≡ a ++ c → b ≡ c
append_injective [] b c e = e
append_injective (x ∷ a) b c e = append_injective a b c (ap (λ l. drop 1 l) e)

numbered-ne_want : (want : Text) (j : ℕ) → numbered want j ≢ want
numbered-ne_want want j e = absurd (
    omega (
      arith,
      ap length e,
      length-append (want ++ codes "-") (decimal j),
      length-append want (codes "-"),
    ))

text_eq-ne : (a b : Text) → a ≢ b → text_eq a b ≡ false
text_eq-ne a b h = elim (Bool-cases (text_eq a b)) [
  | inl e ↦ absurd (h (text_eq_sound a b e))
  | inr e ↦ e
]

numbered-ne : (want : Text) (i j : ℕ) → i < j → text_eq (numbered want i) (numbered want j) ≡ false
numbered-ne want i j h =
    text_eq-ne _ _
      λ e. omega (arith, decimal_injective i j (append_injective (want ++ codes "-") _ _ e))

-- As long as candidates are taken, the map without them is smaller.
free_name-free :
    (fuel : ℕ) (want name : Text) (i : ℕ) (m rest : Dict Session)
    → length rest < fuel
    → contains_key name rest ≡ contains_key name m
    → ((j : ℕ) → i ≤ j → contains_key (numbered want j) rest ≡ contains_key (numbered want j) m)
    → ((j : ℕ) → i ≤ j → text_eq name (numbered want j) ≡ false)
    → contains_key (free_name fuel want name i m) m ≡ false
unfolding free_name
free_name-free zero want name i m rest l here later other = absurd (omega arith)
free_name-free (suc fuel) want name i m rest l here later other =
    elim (Bool-cases (contains_key name m)) [
      | inr e ↦ rw e e
      | inl e ↦ rw e (
          free_name-free fuel want (numbered want i) (suc i) m (remove name rest)
            (omega (arith, length-remove_lt name rest (here ∙ e)))
            (contains_key-remove name _ rest ∙ rw (other i (omega arith)) (later i (omega arith)))
            (λ j h.
              contains_key-remove name _ rest ∙ rw (other j (omega arith)) (later j (omega arith)))
            (λ j h. numbered-ne want i j (omega arith)))
    ]

-- A session always gets a name, and no other session has it: among the wanted name and the numbered
-- ones the search finds a free one within as many steps as there are sessions, and one more.
pub session_name-free :
    (want : Text) (m : Dict Session) → contains_key (session_name want m) m ≡ false
unfolding session_name
session_name-free want m =
    free_name-free (suc (length m)) want want 2 m m (omega arith) refl (λ j h. refl)
      λ j h. text_eq-ne want (numbered want j) λ e. numbered-ne_want want j (sym e)

pub queue_of-insert :
    (k j : Text) (q : List Event) (m : Queues)
    → queue_of j (insert k q m) ≡ (if text_eq k j then q else queue_of j m)
unfolding queue_of
queue_of-insert k j q m = ground (arith, lookup-insert k j q m)

pub queue_of-remove :
    (k j : Text) (m : Queues) → queue_of j (remove k m) ≡ (if text_eq k j then [] else queue_of j m)
unfolding queue_of
queue_of-remove k j m = ground (arith, lookup-remove k j m)

claimed : Text → Text → Queues → List Event → List Event
claimed name j m waiting =
    if text_eq name j
    then queue_of name m ++ map (readdress name) waiting
    else if text_eq any_agent j
    then []
    else queue_of j m

-- The queues after a session claimed what waited for any agent.
claim-queue_of :
    (name j : Text) (m : Queues) (o : Option (List Event))
    → text_eq any_agent name ≡ false
    → lookup any_agent m ≡ o
    → queue_of j (claim name o m) ≡ claimed name j m (queue_of any_agent m)
unfolding claim claimed
claim-queue_of name j m none h e = ground (
  arith,
  text_eq_iff name j,
  text_eq_iff any_agent j,
  queue_of-none m any_agent e,
  append-nil (queue_of name m),
)
claim-queue_of name j m (some []) h e = ground (
  arith,
  text_eq_iff name j,
  text_eq_iff any_agent j,
  queue_of-some m any_agent [] e,
  append-nil (queue_of name m),
  queue_of-remove any_agent j m,
)
claim-queue_of name j m (some (x ∷ q)) h e =
    rw
      (
        queue_of-some m any_agent (x ∷ q) e,
        queue_of-insert,
        queue_of-remove any_agent name m,
        h,
        queue_of-remove any_agent j m,
      )
      refl

-- Opening a session under a name other than `*`: no session had the name, the session is there under
-- the given number, its queue is what waited for its name and then, in their order, what waited for
-- any agent, nothing waits for any agent now, and every other queue is as it was.
pub register-queues :
    (cfg : Config) (user : Option Text) (want : Text) (about : Option Text) (sid : ℕ) (s : State)
    (name : Text) (s' : State)
    → register cfg user want about sid s ≡ (name, s')
    → text_eq any_agent name ≡ false
    → (contains_key name s.sessions ≡ false)
      × (lookup name s'.sessions ≡ some (record { sid = sid; permit = true; about = about }))
      × (queue_of name s'.queues
          ≡ queue_of name s.queues ++ map (readdress name) (queue_of any_agent s.queues))
      × (queue_of any_agent s'.queues ≡ [])
      × ((j : Text)
          → text_eq name j ≡ false
          → text_eq any_agent j ≡ false
          → queue_of j s'.queues ≡ queue_of j s.queues)
unfolding register broadcast_presence claimed
register-queues cfg user want about sid s name s' e star =
    let names = ap (λ (p : Text × State). p.0) e in
    let states = ap (λ (p : Text × State). p.1) e in
    let all = λ (j : Text).
      (ap (λ (t : State). queue_of j t.queues) (sym states)
        ∙ ap (λ n. queue_of j (claim n (lookup any_agent s.queues) s.queues)) names
        ∙ claim-queue_of name j s.queues (lookup any_agent s.queues) star refl) in
    (
      rw (← names) (session_name-free want s.sessions),
      (rw (← states) (rw names (lookup-insert_self name _ s.sessions))),
      all name ∙ rw text_eq_refl refl,
      all any_agent ∙ rw (text_eq_comm name any_agent ∙ star, text_eq_refl any_agent) refl,
      λ j h k. all j ∙ rw (h, k) refl,
    )

-- A session that claims what waited for any agent gets a queue longer than `QUEUE_MAX` whenever the
-- queue of its name and that for any agent together have more than `QUEUE_MAX` events, even if each of
-- the two keeps the limit.
pub register-over_limit :
    (cfg : Config) (user : Option Text) (want : Text) (about : Option Text) (sid : ℕ) (s : State)
    (name : Text) (s' : State)
    → register cfg user want about sid s ≡ (name, s')
    → text_eq any_agent name ≡ false
    → queue_max < length (queue_of name s.queues) + length (queue_of any_agent s.queues)
    → queue_max < length (queue_of name s'.queues)
register-over_limit cfg user want about sid s name s' e star over =
    let moved = map (readdress name) (queue_of any_agent s.queues) in
    omega (
      arith,
      over,
      ap (λ (q : List Event). length q)
          (register-queues cfg user want about sid s name s' e star).2,
      length-append (queue_of name s.queues) moved,
      length-map (readdress name) (queue_of any_agent s.queues),
    )
