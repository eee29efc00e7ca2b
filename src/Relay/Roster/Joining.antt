-- ===== src/Relay/Roster/Joining.antt =====
-- relay.rs: who becomes a member by a code, and that a code works once.
use agora_protocol.Node.Address.OneTime.{
  take_first, HasDistinctCodes, retain-HasDistinctCodes, take_first-others, take_first-find,
  take_first-none, All-take_first,
}
use agora_protocol.Base.{
  ℕ, [], ◌∷◌, false, not, mem, Bool-cases, All-append, ◌≡◌, refl, sym, ap, ◌∙◌, subst, inl, inr,
  ◌&&◌, List, Option, none, some, Option-cases, Text, Bytes, length, find, retain, All, All-retain,
  ltb, eq_of_some,
}
use agora_protocol.Relay.Roster.{
  Invite, RelayFile, member_name, enrolled, enroll, invite, remove, serve_at, join,
}
use agora_protocol.Config.Names.{valid_name}
use agora_protocol.Config.Keys.{Base32, key_length}
use agora_protocol.Node.Address.{ct_eq}
use agora_protocol.Node.Address.Secrets.{IsByte}
use agora_protocol.Relay.Roster.Members.{IsRoster, enrolled-IsRoster, member_name-enrolled}

-- The hashes are bytes, and no two invitations have the same.
abbrev pub HasDistinctHashes : List Invite → Type 0
HasDistinctHashes = HasDistinctCodes (λ (i : Invite). i.hash)

module _ (base32 : Base32) (hash : Bytes → Text) where
  -- How `join` comes to a name.
  joined_by :
      (key raw : Bytes) (now : ℕ) (f f' : RelayFile) (name : Text)
      → join base32 hash key raw now f ≡ (some name, f')
      → (i : Invite) × (others : List Invite) × (take_first
            (λ i. ct_eq i.hash (hash raw))
            (retain (λ i. ltb now i.expires) f.invite)
          ≡ some (i, others))
        × (i.name ≡ name)
        × (f' ≡ record f { invite = others; member = enrolled base32 i.name key f.member })
  unfolding join
  joined_by key raw now f f' name h =
      elim (Option-cases
        (take_first (λ i. ct_eq i.hash (hash raw)) (retain (λ i. ltb now i.expires) f.invite))) [
          | inl n ↦ absurd (cc (ap (λ (r : Option Text × RelayFile). r.0) (rw (join, n) at h)))
          | inr (r, n) ↦
              let e : (
                some r.0.name,
                record f { invite = r.1; member = enrolled base32 r.0.name key f.member },
              )
                  ≡ (some name, f') =
                rw (join, n) at h in
              (
                r.0,
                r.1,
                n,
                eq_of_some _ _ (ap (λ (r : Option Text × RelayFile). r.0) e),
                sym (ap (λ (r : Option Text × RelayFile). r.1) e),
              )
        ]

  -- A machine joins only by an invitation that has not expired and whose hash is the one of the
  -- secret, under the name of the first such invitation. It is a member by this name then, and
  -- still no two members have the same name or the same key.
  pub join-invited :
      (key raw : Bytes) (now : ℕ) (f f' : RelayFile) (name : Text)
      → length key ≡ key_length
      → IsRoster base32 f.member
      → join base32 hash key raw now f ≡ (some name, f')
      → ((i : Invite) × (find (λ x. ltb now x.expires && ct_eq x.hash (hash raw)) f.invite ≡ some i)
          × (i.name ≡ name))
        × (member_name base32 f' key ≡ some name)
        × IsRoster base32 f'.member
  join-invited key raw now f f' name l r h =
      let (i, others, t, n, e) = joined_by key raw now f f' name h in
      (
        (i, take_first-find _ _ f.invite i others t, n),
        subst (λ g. member_name base32 g key ≡ some name) (sym e)
            (member_name-enrolled base32 i.name key f others l r ∙ ap some n),
        subst (λ g. IsRoster base32 g.member) (sym e)
            (enrolled-IsRoster base32 i.name key f.member l r),
      )

  -- What can be done with the file.
  pub data Change : Type 0 where
    joins : Bytes → Bytes → ℕ → Change
    invites : Bytes → Text → Text → Bytes → ℕ → Change
    removes : Text → Change
    serves : Option Text → Change

  abbrev pub change : Change → RelayFile → RelayFile
  change (joins key raw now) f = (join base32 hash key raw now f).1
  change (invites my_key name addr secret now) f =
      (invite base32 hash my_key name addr secret now f).1
  change (removes name) f = (remove name f).1
  change (serves l) f = (serve_at l f).1

  abbrev pub change_all : List Change → RelayFile → RelayFile
  change_all [] f = f
  change_all (c ∷ cs) f = change_all cs (change c f)

  -- An invitation is made with a secret that has another hash.
  abbrev pub IsOther : Bytes → Change → Type 0
  IsOther raw (invites my_key name addr secret now) = ct_eq (hash secret) (hash raw) ≡ false
  IsOther raw _ = Unit

  -- No invitation is opened by the secret.
  abbrev IsSpent : Bytes → RelayFile → Type 0
  IsSpent raw f = All (λ (i : Invite). ct_eq i.hash (hash raw) ≡ false) f.invite

  enroll-IsSpent :
      (key raw : Bytes) (f : RelayFile) (is : List Invite) (o : Option (Invite × List Invite))
      → All (λ (i : Invite). ct_eq i.hash (hash raw) ≡ false) is
      → ((i : Invite) (others : List Invite)
          → o ≡ some (i, others)
          → All (λ (x : Invite). ct_eq x.hash (hash raw) ≡ false) others)
      → IsSpent raw (enroll base32 key f is o).1
  unfolding enroll
  enroll-IsSpent key raw f is none h g = h
  enroll-IsSpent key raw f is (some (i, others)) h g = g i others refl

  change-IsSpent :
      (raw : Bytes) (c : Change) (f : RelayFile)
      → IsOther raw c
      → IsSpent raw f
      → IsSpent raw (change c f)
  unfolding join invite remove serve_at
  change-IsSpent raw (joins key other now) f o h =
      let P = λ (i : Invite). ct_eq i.hash (hash raw) ≡ false in
      let open_ones = retain (λ i. ltb now i.expires) f.invite in
      let kept = All-retain P (λ i. ltb now i.expires) f.invite h in
      let opens = λ (i : Invite). ct_eq i.hash (hash other) in
      enroll-IsSpent key raw f open_ones (take_first opens open_ones) kept
        (λ i others e. (All-take_first P opens open_ones i others kept e).1)
  change-IsSpent raw (invites my_key name addr secret now) f o h =
      elim (Bool-cases (not (valid_name name))) [
        | inl a ↦ rw (a, change, invite) h
        | inr a ↦ elim (Bool-cases (not (mem b':' addr))) [
          | inl b ↦ rw (a, b, change, invite) h
          | inr b ↦ rw (a, b, change, invite) (All-append _ _ _ (All-retain _ _ f.invite h) (o, tt))
        ]
      ]
  change-IsSpent raw (removes name) f o h = h
  change-IsSpent raw (serves none) f o h = h
  change-IsSpent raw (serves (some l)) f o h = h

  change_all-IsSpent :
      (raw : Bytes) (cs : List Change) (f : RelayFile)
      → All (IsOther raw) cs
      → IsSpent raw f
      → IsSpent raw (change_all cs f)
  change_all-IsSpent raw [] f o h = h
  change_all-IsSpent raw (c ∷ cs) f o h =
      change_all-IsSpent raw cs (change c f) o.1 (change-IsSpent raw c f o.0 h)

  -- A code works once: after a machine has joined by a secret, no machine joins by it at any time,
  -- whatever joins, invitations, removals and changes of the address come in between, if the
  -- invitations had different hashes and every later one is made with a secret of another hash.
  pub join-spent :
      (key raw : Bytes) (now : ℕ) (f f' : RelayFile) (name : Text) (cs : List Change)
      (again : Bytes) (later : ℕ)
      → All IsByte (hash raw)
      → HasDistinctHashes f.invite
      → join base32 hash key raw now f ≡ (some name, f')
      → All (IsOther raw) cs
      → (join base32 hash again raw later (change_all cs f')).0 ≡ none
  unfolding join
  join-spent key raw now f f' name cs again later b d h o =
      let (i, others, t, n, e) = joined_by key raw now f f' name h in
      let used =
        take_first-others (λ (i : Invite). i.hash) (hash raw) b _ i others
          (retain-HasDistinctCodes (λ (i : Invite). i.hash) _ f.invite d) t in
      let spent = change_all-IsSpent raw cs f' o (subst (IsSpent raw) (sym e) used) in
      rw
        (take_first-none (λ i. ct_eq i.hash (hash raw))
          (retain (λ i. ltb later i.expires) (change_all cs f').invite) (All-retain _ _ _ spent))
        refl
