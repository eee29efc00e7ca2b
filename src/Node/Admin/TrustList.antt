-- ===== src/Node/Admin/TrustList.antt =====
-- node.rs: every command of `admin` leaves a list of machines that can be loaded again and in which no
-- two machines have the same name or the same key.
use agora_protocol.Base.{
  ◌≡◌, refl, sym, ◌∙◌, subst, Bool, true, false, not, ◌&&◌, inl, inr, List, [], ◌∷◌, ◌++◌, Option,
  none, some, Option-cases, Bool-cases, Text, Bytes, text_eq, text_eq_comm, length, retain,
  retain-holds, find, All, All-append, All-retain, All-imp, All-both, eq_of_some, arith, ◌==◌,
  find-none, All-every,
}
use agora_protocol.Base.Result.{Result, ok, err, eq_of_ok}
use agora_protocol.Config.Types.{Config, Peer}
use agora_protocol.Config.Names.{valid_name}
use agora_protocol.Config.Keys.{
  Base32, KeyError, key_length, encode_key, decode_key, decode_key-encode_key, decode_key-length,
}
use agora_protocol.Config.Peers.{has_peer, peer_named, peer_has_key, IsLoadable}
use agora_protocol.Node.Admin.{
  update_peer, change_peer, trusting, edit, Request, reload, trust, untrust, other, trust_key,
  set_files, lacks_port, owner, rename, admin, saved_and_applied, Node, AdminError,
}

module _ (base32 : Base32) where
  -- Another name and another key.
  abbrev pub Differs : Peer → Peer → Type 0
  Differs p q =
      (text_eq q.name p.name ≡ false)
      × ((k : Bytes) → decode_key base32 q.key ≡ ok k → peer_has_key base32 k p ≡ false)

  abbrev pub IsTrustList : List Peer → Type 0
  IsTrustList [] = Unit
  IsTrustList (p ∷ ps) = IsLoadable base32 p × All (Differs p) ps × IsTrustList ps

  pub retain-IsTrustList :
      (t : Peer → Bool) (ps : List Peer) → IsTrustList ps → IsTrustList (retain t ps)
  retain-IsTrustList t [] h = tt
  retain-IsTrustList t (p ∷ ps) h = elim (Bool-cases (t p)) [
    | inl e ↦ rw e (h.0, All-retain (Differs p) t ps h.1, retain-IsTrustList t ps h.2)
    | inr e ↦ rw e (retain-IsTrustList t ps h.2)
  ]

  append-IsTrustList :
      (ps : List Peer) (new : Peer)
      → IsTrustList ps
      → IsLoadable base32 new
      → All (λ p. Differs p new) ps
      → IsTrustList (ps ++ new ∷ [])
  append-IsTrustList [] new h l d = (l, tt, tt)
  append-IsTrustList (p ∷ ps) new h l d =
      (h.0, All-append (Differs p) ps (new ∷ []) h.1 (d.0, tt), append-IsTrustList ps new h.2 l d.1)

  -- A machine with a new name and a new key at the end.
  pub add-IsTrustList :
      (name : Text) (key : Bytes) (addr : Option Text) (shared : Bool) (ps : List Peer)
      → valid_name name ≡ true
      → length key ≡ key_length
      → All (λ p. (text_eq p.name name ≡ false) × (peer_has_key base32 key p ≡ false)) ps
      → IsTrustList ps
      → IsTrustList (
          ps
          ++ (record { name = name; key = encode_key base32 key; addr = addr; files = shared })
            ∷ [])
  add-IsTrustList name key addr shared ps v l d h =
      append-IsTrustList ps _ h (v, (key, decode_key-encode_key base32 key l))
        (All-imp _ _ ps
          (λ p e. (
            text_eq_comm name p.name ∙ e.0,
            λ k f. subst (λ x. peer_has_key base32 x p ≡ false) (same_key k f) e.1,
          ))
          d)
    where
      same_key : (k : Bytes) → decode_key base32 (encode_key base32 key) ≡ ok k → key ≡ k
      same_key k f = eq_of_ok key k (sym (decode_key-encode_key base32 key l) ∙ f)

  module _ (name : Text) (f : Peer → Peer) (Q : Peer → Type 0) where
    All-update_peer :
        (P : Peer → Type 0) (ps qs : List Peer)
        → ((p : Peer) → P p → P (f p))
        → All P ps
        → update_peer name f ps ≡ some qs
        → All P qs
    unfolding update_peer
    All-update_peer P [] qs g h e = absurd (cc)
    All-update_peer P (p ∷ ps) qs g h e = elim (Bool-cases (text_eq p.name name)) [
      | inl b ↦ subst (All P) (eq_of_some _ _ (rw b at e)) (g p h.0, h.1)
      | inr b ↦ elim (Option-cases (update_peer name f ps)) [
        | inl n ↦ absurd (cc (rw n at (rw b at e)))
        | inr (rs, n) ↦
            subst (All P) (eq_of_some _ _ (rw n at (rw b at e)))
              (h.0, All-update_peer P ps rs g h.1 n)
      ]
    ]

    -- A change of one machine that keeps what is demanded of it and of each pair.
    pub update_peer-IsTrustList :
        ((p : Peer) → IsLoadable base32 p → IsLoadable base32 (f p))
        → ((p q : Peer) → Q q → Differs p q → Differs (f p) q)
        → ((p q : Peer) → Q p → Differs p q → Differs p (f q))
        → (ps qs : List Peer) → All Q ps
        → IsTrustList ps
        → update_peer name f ps ≡ some qs
        → IsTrustList qs
    unfolding update_peer
    update_peer-IsTrustList load left right [] qs q h e = absurd (cc)
    update_peer-IsTrustList load left right (p ∷ ps) qs q h e =
        elim (Bool-cases (text_eq p.name name)) [
          | inl b ↦
              subst IsTrustList (eq_of_some _ _ (rw b at e))
                (load p h.0, All-both ps q.1 h.1 (left p), h.2)
          | inr b ↦ elim (Option-cases (update_peer name f ps)) [
            | inl n ↦ absurd (cc (rw n at (rw b at e)))
            | inr (rs, n) ↦ subst IsTrustList (eq_of_some _ _ (rw n at (rw b at e))) (
              h.0,
              All-update_peer (Differs p) ps rs (λ x. right p x q.0) h.1 n,
              update_peer-IsTrustList load left right ps rs q.1 h.2 n,
            )
          ]
        ]

unnamed :
    (name : Text) (ps : List Peer)
    → find (λ p. text_eq p.name name) ps ≡ none
    → All (λ p. text_eq p.name name ≡ false) ps
unnamed name ps h = find-none (λ p. text_eq p.name name) ps h

-- No machine has a name that the configuration does not know.
pub has_peer-absent :
    (name : Text) (cfg : Config)
    → has_peer name cfg ≡ false
    → All (λ p. text_eq p.name name ≡ false) cfg.peer
unfolding has_peer peer_named
has_peer-absent name cfg h = elim (Option-cases (peer_named name cfg)) [
  | inl n ↦ unnamed name cfg.peer n
  | inr (p, n) ↦ absurd (cc (rw (has_peer, n) at h))
]

module _ (base32 : Base32) where
  change_peer-IsTrustList :
      (name : Text) (f : Peer → Peer) (Q : Peer → Type 0) (cfg cfg' : Config)
      → ((p : Peer) → IsLoadable base32 p → IsLoadable base32 (f p))
      → ((p q : Peer) → Q q → Differs base32 p q → Differs base32 (f p) q)
      → ((p q : Peer) → Q p → Differs base32 p q → Differs base32 p (f q))
      → All Q cfg.peer
      → IsTrustList base32 cfg.peer
      → change_peer name f cfg ≡ ok cfg'
      → IsTrustList base32 cfg'.peer
  unfolding change_peer
  change_peer-IsTrustList name f Q cfg cfg' load left right q h e =
      elim (Option-cases (update_peer name f cfg.peer)) [
        | inl n ↦ absurd (cc (rw (change_peer, n) at e))
        | inr (ps, n) ↦
            subst (λ c. IsTrustList base32 c.peer) (eq_of_ok _ cfg' (rw (change_peer, n) at e))
              (update_peer-IsTrustList base32 name f Q load left right cfg.peer ps q h n)
      ]

  module _ (my_key : Bytes) (sanitize : Text → Text) where
    trusting-IsTrustList :
        (name t : Text) (key : Bytes) (addr : Option Text) (cfg : Config)
        → valid_name name ≡ true
        → decode_key base32 t ≡ ok key
        → IsTrustList base32 cfg.peer
        → IsTrustList base32 (trusting base32 name key addr cfg).peer
    unfolding trusting
    trusting-IsTrustList name t key addr cfg v d h =
        add-IsTrustList base32 name key addr true _ v (decode_key-length base32 t key d)
          (All-imp _ _ _ (λ p e. (ground (arith, e), ground (arith, e)))
            (retain-holds (λ p. not (text_eq p.name name) && not (peer_has_key base32 key p))
              cfg.peer))
          (retain-IsTrustList base32 _ cfg.peer h)

    trust_key-IsTrustList :
        (name t : Text) (addr : Option Text) (cfg cfg' : Config) (d : Result KeyError Bytes)
        → decode_key base32 t ≡ d
        → IsTrustList base32 cfg.peer
        → trust_key base32 my_key sanitize name addr cfg d ≡ ok cfg'
        → IsTrustList base32 cfg'.peer
    unfolding trust_key
    trust_key-IsTrustList name t addr cfg cfg' (err x) d h e = absurd (cc)
    trust_key-IsTrustList name t addr cfg cfg' (ok key) d h e =
        elim (Bool-cases (valid_name name)) [
          | inr b ↦ absurd (cc (rw b at e))
          | inl b ↦ elim (Bool-cases (text_eq key my_key)) [
            | inl c ↦ absurd (cc (rw c at (rw b at e)))
            | inr c ↦ elim (Bool-cases (lacks_port addr)) [
              | inl f ↦ absurd (cc (rw f at (rw c at (rw b at e))))
              | inr f ↦
                  subst (λ c. IsTrustList base32 c.peer)
                    (eq_of_ok _ cfg' (rw f at (rw c at (rw b at e))))
                    (trusting-IsTrustList name t key addr cfg b d h)
            ]
          ]
        ]

    -- A configuration that a command makes is as good as the old one, and the one it may load.
    edit-IsTrustList :
        (r : Request) (cfg cfg' : Config)
        → ((c : Config) → r ≡ reload (some c) → IsTrustList base32 c.peer)
        → IsTrustList base32 cfg.peer
        → edit base32 my_key sanitize r cfg ≡ ok cfg'
        → IsTrustList base32 cfg'.peer
    unfolding edit peer_has_key
    edit-IsTrustList (trust name t addr) cfg cfg' l h e =
        trust_key-IsTrustList name t addr cfg cfg' (decode_key base32 t) refl h e
    edit-IsTrustList (untrust name) cfg cfg' l h e =
        elim (Bool-cases
          (length (retain (λ x. not (text_eq x.name name)) cfg.peer) == length cfg.peer)) [
            | inl b ↦ absurd (cc (rw b at e))
            | inr b ↦
                subst (λ c. IsTrustList base32 c.peer) (eq_of_ok _ cfg' (rw b at e))
                  (retain-IsTrustList base32 _ cfg.peer h)
          ]
    edit-IsTrustList (set_files name on) cfg cfg' l h e =
        change_peer-IsTrustList name (λ p. record p { files = on }) (λ p. Unit) cfg cfg' (λ p g. g)
          (λ p q u g. g) (λ p q u g. g) (All-every _ cfg.peer (λ p. tt)) h e
    edit-IsTrustList (owner t) cfg cfg' l h e =
        subst (λ c. IsTrustList base32 c.peer) (eq_of_ok _ cfg' e) h
    edit-IsTrustList (rename old new) cfg cfg' l h e = elim (Bool-cases (valid_name new)) [
      | inr b ↦ absurd (cc (rw b at e))
      | inl b ↦ elim (Bool-cases (has_peer new cfg)) [
        | inl c ↦ absurd (cc (rw c at (rw b at e)))
        | inr c ↦
            change_peer-IsTrustList old (λ p. record p { name = new })
              (λ p. text_eq p.name new ≡ false) cfg cfg' (λ p g. (b, g.1)) (λ p q u g. (u, g.1))
              (λ p q u g. (text_eq_comm new p.name ∙ u, g.1)) (has_peer-absent new cfg c) h
              (rw c at (rw b at e))
      ]
    ]
    edit-IsTrustList (reload none) cfg cfg' l h e = absurd (cc)
    edit-IsTrustList (reload (some c)) cfg cfg' l h e =
        subst (λ c. IsTrustList base32 c.peer) (eq_of_ok c cfg' e) (l c refl)
    edit-IsTrustList other cfg cfg' l h e = absurd (cc)

    -- Every command of `admin`, whether it succeeds or not.
    pub admin-IsTrustList :
        (saved : Bool) (user : Option Text) (r : Request) (n : Node)
        → ((c : Config) → r ≡ reload (some c) → IsTrustList base32 c.peer)
        → IsTrustList base32 n.config.peer
        → IsTrustList base32 (admin base32 my_key sanitize saved user r n).1.config.peer
    unfolding admin saved_and_applied
    admin-IsTrustList saved user r n l h = split (edit base32 my_key sanitize r n.config) refl
      where
        split :
            (e : Result AdminError Config)
            → edit base32 my_key sanitize r n.config ≡ e
            → IsTrustList base32 (admin base32 my_key sanitize saved user r n).1.config.peer
        split (err x) e = rw (admin, e) h
        split (ok cfg) e = elim (Bool-cases saved) [
          | inl b ↦ rw (admin, e, b) (edit-IsTrustList r n.config cfg l h e)
          | inr b ↦ rw (admin, e, b) h
        ]
