-- ===== src/Node/Pairing/OneTime.antt =====
-- node.rs: which invitation a secret opens, and what a pairing does to the configuration.
use agora_protocol.Base.{
  ℕ, ◌≡◌, refl, sym, ap, ◌∙◌, subst, Bool, true, false, ◌&&◌, inl, inr, List, [], ◌∷◌, ◌++◌, Option,
  none, some, Option-cases, Bool-cases, Text, Bytes, text_eq, text_eq_refl, length, retain, find,
  All, ltb, arith,
}
use agora_protocol.Base.Result.{Result, ok, err}
use agora_protocol.Config.Types.{Config, Peer}
use agora_protocol.Config.Keys.{Base32, key_length, encode_key, decode_key-encode_key}
use agora_protocol.Config.Peers.{has_peer, peer_named, peer_has_key, key_is, trusts}
use agora_protocol.Node.Types.{Invite}
use agora_protocol.Node.Address.{ct_eq}
use agora_protocol.Node.Address.Secrets.{IsByte}
use agora_protocol.Node.Address.OneTime.{
  take_first, HasDistinctCodes, retain-HasDistinctCodes, take_first-others, take_first-find,
  take_first-absent,
}
use agora_protocol.Node.Trust.{note_refused, apply}
use agora_protocol.Node.Presence.{broadcast_presence}
use agora_protocol.Node.Admin.{Node, AdminError, saved_and_applied}
use agora_protocol.Node.Admin.TrustList.{has_peer-absent}
use agora_protocol.Node.Pairing.{
  secret, Next, pair, is_taken, with_machine, after_apply, pair_by, pair_with, pairing,
}

-- The text of an invitation's secret.
abbrev pub code_of : (Bytes → Text) → Invite → Text
code_of hex i = hex i.secret

pub node-after_apply :
    (name : Text) (r : Result AdminError (Unit {0}) × Node) → (after_apply name r).1 ≡ r.1
node-after_apply name (err e, n) = refl
node-after_apply name (ok u, n) = refl

pair_name : Next → Text
pair_name (pair name) = name
pair_name _ = []

find-append :
    (p : Peer → Bool) (ps : List Peer) (new : Peer)
    → All (λ q. p q ≡ false) ps
    → p new ≡ true
    → find p (ps ++ new ∷ []) ≡ some new
find-append p [] new h e = rw e refl
find-append p (q ∷ ps) new h e = rw h.0 (find-append p ps new h.1 e)

module _ (base32 : Base32) where
  pub invites-saved_and_applied :
      (saved : Bool) (user : Option Text) (cfg : Config) (n : Node)
      → (saved_and_applied base32 saved user cfg n).1.state.invites ≡ n.state.invites
  unfolding saved_and_applied apply broadcast_presence
  invites-saved_and_applied true user cfg n = refl
  invites-saved_and_applied false user cfg n = refl

  pub invites-pair_by :
      (saved : Bool) (user : Option Text) (key : Bytes) (inv : Invite) (n : Node)
      → (pair_by base32 saved user key inv n).1.state.invites ≡ n.state.invites
  unfolding pair_by
  invites-pair_by saved user key inv n = elim (Bool-cases (is_taken base32 inv.name key n.config)) [
    | inl b ↦ rw b refl
    | inr b ↦ rw b (
        ap (λ (m : Node). m.state.invites)
          (node-after_apply inv.name (
            saved_and_applied base32 saved user
              (with_machine base32 inv.name key none inv.files n.config) n))
        ∙ invites-saved_and_applied saved user _ n)
  ]

  with_machine-trusts :
      (name : Text) (key : Bytes) (addr : Option Text) (shared : Bool) (cfg : Config)
      → length key ≡ key_length
      → has_peer name cfg ≡ false
      → trusts base32 name key (with_machine base32 name key addr shared cfg) ≡ true
  unfolding trusts peer_named with_machine peer_has_key key_is
  with_machine-trusts name key addr shared cfg l h =
      let e =
        find-append (λ p. text_eq p.name name) cfg.peer
          (record { name = name; key = encode_key base32 key; addr = addr; files = shared })
          (has_peer-absent name cfg h) (text_eq_refl name) in
      rw (trusts, e, decode_key-encode_key base32 key l) (text_eq_refl key)

  module _ (hex : Bytes → Text) where
    -- No invitation is left that the secret would open.
    pub pairing-closed :
        (saved : Bool) (user : Option Text) (key : Bytes) (from : Text) (now : ℕ) (t : Text)
        (n : Node)
        → All IsByte t
        → HasDistinctCodes (code_of hex) n.state.invites
        → All
            (λ (i : Invite). ct_eq (hex i.secret) t ≡ false)
            (pairing base32 hex saved user key from now (secret t) n).1.state.invites
    unfolding pairing pair_with note_refused
    pairing-closed saved user key from now t n b d =
        elim (Option-cases (
          take_first (λ (i : Invite). ct_eq (hex i.secret) t)
            (retain (λ i. ltb now i.expires) n.state.invites))) [
              | inl e ↦
                  rw (pairing, e) (take_first-absent (λ (i : Invite). ct_eq (hex i.secret) t) _ e)
              | inr (r, e) ↦
                  rw (pairing, e)
                    (subst (All (λ (i : Invite). ct_eq (hex i.secret) t ≡ false))
                      (sym (invites-pair_by saved user key r.0 _))
                      (take_first-others (code_of hex) t b _ r.0 r.1
                        (retain-HasDistinctCodes (code_of hex) _ n.state.invites d) e))
            ]

    after_pair :
        (saved : Bool) (user : Option Text) (key : Bytes) (inv : Invite) (n n' : Node) (name : Text)
        → pair_by base32 saved user key inv n ≡ (pair name, n')
        → (is_taken base32 inv.name key n.config ≡ false)
          × (inv.name ≡ name)
          × (n'.config ≡ with_machine base32 inv.name key none inv.files n.config)
    unfolding pair_by saved_and_applied pair_name
    after_pair false user key inv n n' name h =
        elim (Bool-cases (is_taken base32 inv.name key n.config)) [
          | inl b ↦ absurd (cc (ap (λ (r : Next × Node). r.0) (rw b at h)))
          | inr b ↦ absurd (cc (ap (λ (r : Next × Node). r.0) (rw b at h)))
        ]
    after_pair true user key inv n n' name h =
        elim (Bool-cases (is_taken base32 inv.name key n.config)) [
          | inl b ↦ absurd (cc (ap (λ (r : Next × Node). r.0) (rw b at h)))
          | inr b ↦ (
            b,
            ap pair_name (ap (λ (r : Next × Node). r.0) (rw b at h)),
            sym (ap (λ (r : Next × Node). r.1.config) (rw b at h)),
          )
        ]

    -- A machine that pairs opened an invitation that has not expired, by its secret. It is trusted then
    -- with the key of the connection under the name of the invitation, neither of which was known, it
    -- has the right to exchange files that the invitation gives, and nothing else changes in the
    -- configuration.
    pub pairing-paired :
        (saved : Bool) (user : Option Text) (key : Bytes) (from : Text) (now : ℕ) (t : Text)
        (n n' : Node) (name : Text)
        → length key ≡ key_length
        → pairing base32 hex saved user key from now (secret t) n ≡ (pair name, n')
        → (i : Invite) × (find
              (λ (x : Invite). ltb now x.expires && ct_eq (hex x.secret) t)
              n.state.invites
            ≡ some i)
          × (i.name ≡ name)
          × (is_taken base32 name key n.config ≡ false)
          × (n'.config ≡ with_machine base32 name key none i.files n.config)
          × (trusts base32 name key n'.config ≡ true)
    unfolding pairing pair_with
    pairing-paired saved user key from now t n n' name l h =
        elim (Option-cases (
          take_first (λ (i : Invite). ct_eq (hex i.secret) t)
            (retain (λ i. ltb now i.expires) n.state.invites))) [
              | inl e ↦ absurd (cc (ap (λ (r : Next × Node). r.0) (rw (pairing, e) at h)))
              | inr (r, e) ↦
                  let (free, named, config) =
                    after_pair saved user key r.0 _ n' name (rw (pairing, e) at h) in
                  let free2 : is_taken base32 name key n.config ≡ false =
                    subst (λ x. is_taken base32 x key n.config ≡ false) named free in
                  let config2 : n'.config ≡ with_machine base32 name key none r.0.files n.config =
                    config ∙ ap (λ x. with_machine base32 x key none r.0.files n.config) named in
                  (
                    r.0,
                    take_first-find _ _ n.state.invites r.0 r.1 e,
                    named,
                    free2,
                    config2,
                    subst (λ c. trusts base32 name key c ≡ true) (sym config2)
                        (with_machine-trusts name key none r.0.files n.config l
                          (ground (arith, free2))),
                  )
            ]
