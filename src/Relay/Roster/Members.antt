-- ===== src/Relay/Roster/Members.antt =====
-- relay.rs: no two members of a relay have the same name or the same key, and who joins is a member.
use agora_protocol.Base.{
  ◌≡◌, refl, ap, Bool, true, false, inl, inr, ◌&&◌, not, List, [], ◌∷◌, ◌++◌, some, Bool-cases,
  Text, Bytes, text_eq, text_eq_refl, text_eq_comm, text_eq_sound, length, find, retain,
  retain-holds, All, All-append, All-retain, All-imp, All-both, arith,
}
use agora_protocol.Config.Keys.{Base32, encode_key, decode_key, key_length, decode_key-encode_key}
use agora_protocol.Config.Peers.{key_is}
use agora_protocol.Relay.Roster.{Member, Invite, RelayFile, name_of, member_name, enrolled}

-- The key of a member is written as the relay writes it.
abbrev pub IsKeyText : Base32 → Text → Type 0
IsKeyText base32 t = (k : Bytes) × (length k ≡ key_length) × (t ≡ encode_key base32 k)

abbrev pub Differs : Member → Member → Type 0
Differs m x = (text_eq x.name m.name ≡ false) × (text_eq x.key m.key ≡ false)

-- No two members have the same name or the same key.
abbrev pub IsRoster : Base32 → List Member → Type 0
IsRoster base32 [] = Unit
IsRoster base32 (m ∷ ms) = IsKeyText base32 m.key × All (Differs m) ms × IsRoster base32 ms

module _ (base32 : Base32) where
  retain-IsRoster :
      (p : Member → Bool) (ms : List Member) → IsRoster base32 ms → IsRoster base32 (retain p ms)
  retain-IsRoster p [] h = tt
  retain-IsRoster p (m ∷ ms) h = elim (Bool-cases (p m)) [
    | inl e ↦ rw e (h.0, All-retain (Differs m) p ms h.1, retain-IsRoster p ms h.2)
    | inr e ↦ rw e (retain-IsRoster p ms h.2)
  ]

  append-IsRoster :
      (ms : List Member) (new : Member)
      → IsRoster base32 ms
      → IsKeyText base32 new.key
      → All (λ m. Differs m new) ms
      → IsRoster base32 (ms ++ new ∷ [])
  append-IsRoster [] new h k d = (k, tt, tt)
  append-IsRoster (m ∷ ms) new h k d =
      (h.0, All-append (Differs m) ms (new ∷ []) h.1 (d.0, tt), append-IsRoster ms new h.2 k d.1)

  abbrev member_of : Text → Bytes → Member
  member_of name key = record { name = name; key = encode_key base32 key }

  pub enrolled-IsRoster :
      (name : Text) (key : Bytes) (ms : List Member)
      → length key ≡ key_length
      → IsRoster base32 ms
      → IsRoster base32 (enrolled base32 name key ms)
  unfolding enrolled
  enrolled-IsRoster name key ms l h =
      append-IsRoster _ (member_of name key) (retain-IsRoster _ ms h) (key, l, refl)
        (All-imp _ _ _
          (λ m e. (
            ground (arith, e, text_eq_comm name m.name),
            ground (arith, e, text_eq_comm (encode_key base32 key) m.key),
          ))
          (retain-holds
            (λ m. not (text_eq m.name name) && not (text_eq m.key (encode_key base32 key))) ms))

  has_key : Bytes → Member → Bool
  has_key key m = key_is key (decode_key base32 m.key)

  -- A key that is written as the relay writes it is another key, if its text is another text.
  other_key :
      (key : Bytes) (m : Member)
      → IsKeyText base32 m.key
      → text_eq m.key (encode_key base32 key) ≡ false
      → has_key key m ≡ false
  unfolding key_is has_key
  other_key key m (k, l, e) d = rw e (
      rw (decode_key-encode_key base32 k l) (elim (Bool-cases (text_eq k key)) [
        | inr f ↦ f
        | inl f ↦ absurd (cc (d, text_eq_refl (encode_key base32 key), e, text_eq_sound k key f))
      ]))

  find-append-none :
      (p : Member → Bool) (ms : List Member) (new : Member)
      → All (λ m. p m ≡ false) ms
      → p new ≡ true
      → find p (ms ++ new ∷ []) ≡ some new
  find-append-none p [] new h e = rw e refl
  find-append-none p (m ∷ ms) new h e = rw h.0 (find-append-none p ms new h.1 e)

  All-key_texts : (ms : List Member) → IsRoster base32 ms → All (λ m. IsKeyText base32 m.key) ms
  All-key_texts [] h = tt
  All-key_texts (m ∷ ms) h = (h.0, All-key_texts ms h.2)

  pub member_name-enrolled :
      (name : Text) (key : Bytes) (f : RelayFile) (others : List Invite)
      → length key ≡ key_length
      → IsRoster base32 f.member
      → member_name base32
          (record f { invite = others; member = enrolled base32 name key f.member })
          key
        ≡ some name
  unfolding member_name enrolled has_key key_is text_eq
  member_name-enrolled name key f others l h = ap name_of (
      find-append-none (has_key key) _ (member_of name key)
        (All-both _ (All-retain _ _ _ (All-key_texts f.member h))
          (retain-holds
            (λ m. not (text_eq m.name name) && not (text_eq m.key (encode_key base32 key)))
            f.member)
          (λ m t e. other_key key m t (ground (arith, e))))
        (rw (decode_key-encode_key base32 key l) (text_eq_refl key)))
