-- ===== src/Node/Links/Pending.antt =====
-- node.rs: what is sent on a new link, and what an answer settles.
use mathlib.Core.List.{Perm}
use mathlib.Core.List.Perm
use agora_protocol.Base.{
  ℕ, ◌≤◌, ◌≡◌, refl, sym, ◌∙◌, subst, Bool, true, ◌&&◌, inl, inr, List, [], ◌∷◌, ◌++◌, map, Option,
  none, some, Text, Bytes, text_eq, text_eq_refl, All, Bool-cases, guard_passed, leb, arith,
  if◌then◌else◌,
}
use agora_protocol.Base.Dict.{
  Dict, lookup, insert, remove, lookup-insert, lookup-insert_self, lookup-remove,
}
use agora_protocol.Config.Types.{Config}
use agora_protocol.Config.Keys.{Base32}
use agora_protocol.Config.Peers.{trusts}
use agora_protocol.Node.Presence.{presence_of}
use agora_protocol.Node.Types.{Msg, msg, Link, State}
use agora_protocol.Node.Links.{
  insert_by_ts, sort_by_ts, pending, unacked_to, waiting, all_unacked, new_link, open_link, belongs,
  on_ack, link_id, waits_for,
}

-- Messages in the order of their times.
abbrev pub AfterAll : ℕ → List Msg → Type 0
AfterAll t [] = Unit
AfterAll t (m ∷ ms) = (t ≤ m.ts) × AfterAll t ms

abbrev pub IsByTime : List Msg → Type 0
IsByTime [] = Unit
IsByTime (m ∷ ms) = AfterAll m.ts ms × IsByTime ms

AfterAll-trans : (t u : ℕ) (ms : List Msg) → t ≤ u → AfterAll u ms → AfterAll t ms
AfterAll-trans t u [] h a = tt
AfterAll-trans t u (m ∷ ms) h a = (omega (arith, a.0), AfterAll-trans t u ms h a.1)

AfterAll-insert_by_ts :
    (t : ℕ) (m : Msg) (ms : List Msg) → t ≤ m.ts → AfterAll t ms → AfterAll t (insert_by_ts m ms)
unfolding insert_by_ts
AfterAll-insert_by_ts t m [] h a = (h, tt)
AfterAll-insert_by_ts t m (x ∷ ms) h a = elim (Bool-cases (leb m.ts x.ts)) [
  | inl e ↦ rw e (h, a)
  | inr e ↦ rw e (a.0, AfterAll-insert_by_ts t m ms h a.1)
]

insert_by_ts-IsByTime : (m : Msg) (ms : List Msg) → IsByTime ms → IsByTime (insert_by_ts m ms)
unfolding insert_by_ts
insert_by_ts-IsByTime m [] h = (tt, tt)
insert_by_ts-IsByTime m (x ∷ ms) h = elim (Bool-cases (leb m.ts x.ts)) [
  | inl e ↦ rw e ((ground arith, AfterAll-trans m.ts x.ts ms (ground arith) h.0), h)
  | inr e ↦
      rw e (AfterAll-insert_by_ts x.ts m ms (ground arith) h.0, insert_by_ts-IsByTime m ms h.1)
]

sort_by_ts-IsByTime : (ms : List Msg) → IsByTime (sort_by_ts ms)
unfolding sort_by_ts
sort_by_ts-IsByTime [] = tt
sort_by_ts-IsByTime (m ∷ ms) = insert_by_ts-IsByTime m _ (sort_by_ts-IsByTime ms)

insert_by_ts-perm : (m : Msg) (ms : List Msg) → Perm (insert_by_ts m ms) (m ∷ ms)
unfolding insert_by_ts
insert_by_ts-perm m [] = Perm.refl _
insert_by_ts-perm m (x ∷ ms) = elim (Bool-cases (leb m.ts x.ts)) [
  | inl e ↦ rw e (Perm.refl _)
  | inr e ↦ rw e (Perm.trans (Perm.cons x (insert_by_ts-perm m ms)) (Perm.swap m x ms))
]

sort_by_ts-perm : (ms : List Msg) → Perm (sort_by_ts ms) ms
unfolding sort_by_ts
sort_by_ts-perm [] = Perm.refl _
sort_by_ts-perm (m ∷ ms) = Perm.trans (insert_by_ts-perm m _) (Perm.cons m (sort_by_ts-perm ms))

-- A message that is unconfirmed to a peer stays so while more are noted for the same peer.
belongs-all_unacked :
    (peer id : Text) (xs : List Msg) (m : Dict (Text × Msg))
    → belongs peer (lookup id m) ≡ true
    → belongs peer (lookup id (all_unacked peer xs m)) ≡ true
unfolding all_unacked
belongs-all_unacked peer id [] m h = h
belongs-all_unacked peer id (x ∷ xs) m h =
    belongs-all_unacked peer id xs (insert x.id (peer, x) m)
      (rw lookup-insert (ground (arith, text_eq_refl peer)))

All-all_unacked :
    (peer : Text) (xs : List Msg) (m : Dict (Text × Msg))
    → All (λ x. belongs peer (lookup x.id (all_unacked peer xs m)) ≡ true) xs
unfolding all_unacked
All-all_unacked peer [] m = tt
All-all_unacked peer (x ∷ xs) m = (
  belongs-all_unacked peer x.id xs (insert x.id (peer, x) m)
      (rw lookup-insert_self (text_eq_refl peer)),
  All-all_unacked peer xs (insert x.id (peer, x) m),
)

-- What has been done when a link is taken.
pub record Taken (base32 : Base32) (cfg : Config) (user : Option Text) (peer : Text) (key : Bytes)
    (s s' : State) : Type 0 where
  pub link : Link
  pub early : List Msg
  pub trusted : trusts base32 peer key cfg ≡ true
  pub opened : lookup peer s'.links ≡ some link
  pub keyed : link.key ≡ key
  pub same : Perm early (unacked_to peer s.unacked)
  pub sorted : IsByTime early
  pub sent : link.tx ≡ presence_of cfg user s ∷ map msg (early ++ waiting (lookup peer s.outbox))
  pub noted :
      All
        (λ m. belongs peer (lookup m.id s'.unacked) ≡ true)
        (early ++ waiting (lookup peer s.outbox))
  pub cleared : lookup peer s'.outbox ≡ none

pub taken_state :
    (base32 : Base32) (cfg : Config) (user : Option Text) (my_key : Bytes) (peer : Text)
    (key : Bytes) (i_initiated : Bool) (id now : ℕ) (s s' : State)
    → open_link base32 cfg user my_key peer key i_initiated id now s ≡ some s'
    → (trusts base32 peer key cfg ≡ true)
      × (s' ≡ record s {
        links = insert peer (new_link cfg user peer key i_initiated id now s) s.links;
        outbox = remove peer s.outbox;
        unacked = all_unacked peer (pending peer s) s.unacked;
        closing = s.closing ++ link_id (lookup peer s.links);
      })
unfolding open_link
taken_state base32 cfg user my_key peer key i_initiated id now s s' h =
    let g = guard_passed _ _ s' h in (ground (arith, g.0), sym g.1)

-- A link is taken only for a machine that is trusted under this name with this key. It starts with
-- the presence, then every message that the peer has not confirmed, oldest first, then what waited in
-- the outbox; all of these count as unconfirmed to this peer, and the outbox is empty.
pub open_link-Taken :
    (base32 : Base32) (cfg : Config) (user : Option Text) (my_key : Bytes) (peer : Text)
    (key : Bytes) (i_initiated : Bool) (id now : ℕ) (s s' : State)
    → open_link base32 cfg user my_key peer key i_initiated id now s ≡ some s'
    → Taken base32 cfg user peer key s s'
open_link-Taken base32 cfg user my_key peer key i_initiated id now s s' h =
    let t = taken_state base32 cfg user my_key peer key i_initiated id now s s' h in
    subst (Taken base32 cfg user peer key s) (sym t.1) (record {
      link = new_link cfg user peer key i_initiated id now s;
      early = sort_by_ts (unacked_to peer s.unacked);
      trusted = t.0;
      opened = lookup-insert_self peer _ s.links;
      keyed = unfold new_link in refl;
      same = sort_by_ts-perm _;
      sorted = sort_by_ts-IsByTime _;
      sent = unfold new_link pending in refl;
      noted = unfold pending in All-all_unacked peer _ s.unacked;
      cleared = lookup-remove peer peer s.outbox ∙ rw (text_eq_refl peer) refl;
    })

-- An answer settles exactly the message of its id, and only if it comes from the peer to which the
-- message was sent; another peer's answer changes neither the unconfirmed messages nor the waiters.
pub on_ack_lem :
    (sanitize : Text → Text) (peer id : Text) (done : Bool) (status : Text) (s : State)
    → ((j : Text)
        → lookup j (on_ack sanitize peer id done status s).unacked ≡ (
            if text_eq id j && belongs peer (lookup id s.unacked)
            then none
            else lookup j s.unacked))
      × ((j : Text)
          → lookup j (on_ack sanitize peer id done status s).waiters ≡ (
              if text_eq id j && waits_for peer (lookup id s.waiters)
              then none
              else lookup j s.waiters))
unfolding on_ack
on_ack_lem sanitize peer id done status s = (
  λ j. ground (arith, lookup-remove id j s.unacked),
  λ j. ground (arith, lookup-remove id j s.waiters),
)
