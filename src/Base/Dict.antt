-- ===== src/Base/Dict.antt =====
-- Rust's `HashMap` with text or byte keys, as an association list. The order of entries stands for
-- the unspecified order of iteration.
use Prim.Native.Nat.{ℕ, suc, ◌≤◌, ◌<◌}
use mathlib.Core.Path.{◌≡◌, refl, subst, ap, ◌∙◌}
use mathlib.Core.Bool.{Bool, true, false, ◌||◌}
use mathlib.Core.List.{List, [], ◌∷◌}
use mathlib.Core.Logic.{inl, inr}
use mathlib.Core.Option.{Option, none, some}
use native.Mathlib.Omega.{arith}
use agora_protocol.Base.Tests.{if◌then◌else◌, Bool-cases}
use agora_protocol.Base.Lists.{length, All}
use agora_protocol.Base.Strings.{text_eq, text_eq_sound, text_eq_iff, text_eq_refl}

abbrev pub Dict {ℓ} : Type ℓ → Type ℓ
Dict V = List (List ℕ × V)

module _ {ℓ} {V : Type ℓ} where
  unfoldable pub lookup : List ℕ → Dict V → Option V
  lookup k [] = none
  lookup k ((j, v) ∷ m) = if text_eq j k then some v else lookup k m

  abbrev pub is_some : Option V → Bool
  is_some none = false
  is_some (some v) = true

  unfoldable pub contains_key : List ℕ → Dict V → Bool
  contains_key k m = is_some (lookup k m)

  unfoldable pub insert : List ℕ → V → Dict V → Dict V
  insert k v [] = (k, v) ∷ []
  insert k v ((j, w) ∷ m) =
      let rest = insert k v m in if text_eq j k then (k, v) ∷ m else (j, w) ∷ rest

  unfoldable pub remove : List ℕ → Dict V → Dict V
  remove k [] = []
  remove k ((j, w) ∷ m) = let rest = remove k m in if text_eq j k then rest else (j, w) ∷ rest

  -- `retain(|k, v| p(k, v))`
  unfoldable pub retain_entries : (List ℕ → V → Bool) → Dict V → Dict V
  retain_entries p [] = []
  retain_entries p ((j, w) ∷ m) =
      let rest = retain_entries p m in if p j w then (j, w) ∷ rest else rest

  unfoldable pub keys : Dict V → List (List ℕ)
  keys [] = []
  keys ((j, w) ∷ m) = j ∷ keys m

  unfoldable pub values : Dict V → List V
  values [] = []
  values ((j, w) ∷ m) = w ∷ values m

module _ {ℓ} {V : Type ℓ} where
  pub lookup-insert :
      (k j : List ℕ) (v : V) (m : Dict V)
      → lookup j (insert k v m) ≡ (if text_eq k j then some v else lookup j m)
  unfolding lookup insert
  lookup-insert k j v [] = refl
  lookup-insert k j v ((i, w) ∷ m) =
      ground (arith, text_eq_iff k j, text_eq_iff i k, text_eq_iff i j, lookup-insert k j v m)

  pub lookup-insert_self : (k : List ℕ) (v : V) (m : Dict V) → lookup k (insert k v m) ≡ some v
  lookup-insert_self k v m = rw (lookup-insert, text_eq_refl)

  pub lookup-insert_ne :
      (k j : List ℕ) (v : V) (m : Dict V)
      → text_eq k j ≡ false
      → lookup j (insert k v m) ≡ lookup j m
  lookup-insert_ne k j v m h = rw (lookup-insert, h)

  pub lookup-remove :
      (k j : List ℕ) (m : Dict V)
      → lookup j (remove k m) ≡ (if text_eq k j then none else lookup j m)
  unfolding lookup remove
  lookup-remove k j [] = ground arith
  lookup-remove k j ((i, w) ∷ m) =
      ground (arith, text_eq_iff k j, text_eq_iff i k, text_eq_iff i j, lookup-remove k j m)

  -- A test of the key alone.
  pub lookup-retain_entries :
      (p : List ℕ → Bool) (j : List ℕ) (m : Dict V)
      → lookup j (retain_entries (λ k _. p k) m) ≡ (if p j then lookup j m else none)
  unfolding lookup retain_entries
  lookup-retain_entries p j [] = ground arith
  lookup-retain_entries p j ((i, w) ∷ m) = elim (Bool-cases (text_eq i j)) [
    | inl e ↦
        let h : i ≡ j = (text_eq_iff i j).0 e in
        rw (h, text_eq_refl) (ground (arith, lookup-retain_entries p j m, text_eq_refl j))
    | inr e ↦ rw e (ground (arith, lookup-retain_entries p j m))
  ]

  -- A map grows by at most one entry, and only by a new key.
  pub length-insert :
      (k : List ℕ) (v : V) (m : Dict V)
      → length (insert k v m) ≡ (if contains_key k m then length m else suc (length m))
  unfolding insert contains_key lookup
  length-insert k v [] = refl
  length-insert k v ((j, w) ∷ m) = ground (arith, length-insert k v m)

  pub length-remove : (k : List ℕ) (m : Dict V) → length (remove k m) ≤ length m
  unfolding remove
  length-remove k [] = omega arith
  length-remove k ((j, w) ∷ m) = ground (arith, length-remove k m)

  pub length-remove_lt :
      (k : List ℕ) (m : Dict V) → contains_key k m ≡ true → length (remove k m) < length m
  unfolding remove contains_key lookup
  length-remove_lt k [] h = ground arith
  length-remove_lt k ((j, w) ∷ m) h = ground (arith, length-remove_lt k m, length-remove k m)

  -- A property of every value.
  unfoldable pub AllValues {κ} : (V → Type κ) → Dict V → Type κ
  AllValues P m = All (λ e. P e.1) m

  pub AllValues-insert {κ} :
      (P : V → Type κ) (k : List ℕ) (v : V) (m : Dict V)
      → P v
      → AllValues P m
      → AllValues P (insert k v m)
  unfolding AllValues insert
  AllValues-insert P k v [] hv hm = (hv, tt)
  AllValues-insert P k v ((j, w) ∷ m) hv hm = elim (Bool-cases (text_eq j k)) [
    | inl e ↦ rw e (hv, hm.1)
    | inr e ↦ rw e (hm.0, AllValues-insert P k v m hv hm.1)
  ]

  pub AllValues-remove {κ} :
      (P : V → Type κ) (k : List ℕ) (m : Dict V) → AllValues P m → AllValues P (remove k m)
  unfolding AllValues remove
  AllValues-remove P k [] hm = tt
  AllValues-remove P k ((j, w) ∷ m) hm = elim (Bool-cases (text_eq j k)) [
    | inl e ↦ rw e (AllValues-remove P k m hm.1)
    | inr e ↦ rw e (hm.0, AllValues-remove P k m hm.1)
  ]

  pub AllValues-lookup {κ} :
      (P : V → Type κ) (k : List ℕ) (m : Dict V) (v : V) → AllValues P m → lookup k m ≡ some v → P v
  unfolding AllValues lookup
  AllValues-lookup P k [] v hm h = absurd (ground arith)
  AllValues-lookup P k ((j, w) ∷ m) v hm h = elim (Bool-cases (text_eq j k)) [
    | inl e ↦ subst P (ground arith) hm.0
    | inr e ↦ AllValues-lookup P k m v hm.1 (rw e at h)
  ]

  -- The keys of a map are different from one another.
  unfoldable pub HasUniqueKeys : Dict V → Type 0
  HasUniqueKeys [] = Unit
  HasUniqueKeys ((k, v) ∷ m) = (contains_key k m ≡ false) × HasUniqueKeys m

  pub contains_key-insert :
      (k j : List ℕ) (v : V) (m : Dict V)
      → contains_key j (insert k v m) ≡ (text_eq k j || contains_key j m)
  unfolding contains_key
  contains_key-insert k j v m = ground (arith, lookup-insert k j v m)

  pub contains_key-remove :
      (k j : List ℕ) (m : Dict V)
      → contains_key j (remove k m) ≡ (if text_eq k j then false else contains_key j m)
  unfolding contains_key
  contains_key-remove k j m = ground (arith, lookup-remove k j m)

  pub HasUniqueKeys-insert :
      (k : List ℕ) (v : V) (m : Dict V) → HasUniqueKeys m → HasUniqueKeys (insert k v m)
  unfolding HasUniqueKeys insert
  HasUniqueKeys-insert k v [] h = (unfold contains_key lookup in refl, tt)
  HasUniqueKeys-insert k v ((j, w) ∷ m) h = elim (Bool-cases (text_eq j k)) [
    | inl e ↦ rw e (subst (λ x. contains_key x m ≡ false) (text_eq_sound j k e) h.0, h.1)
    | inr e ↦ rw e (
      ground (arith, contains_key-insert k j v m, text_eq_iff k j, text_eq_iff j k, h.0),
      HasUniqueKeys-insert k v m h.1,
    )
  ]

  pub HasUniqueKeys-remove :
      (k : List ℕ) (m : Dict V) → HasUniqueKeys m → HasUniqueKeys (remove k m)
  unfolding HasUniqueKeys remove
  HasUniqueKeys-remove k [] h = tt
  HasUniqueKeys-remove k ((j, w) ∷ m) h = elim (Bool-cases (text_eq j k)) [
    | inl e ↦ rw e (HasUniqueKeys-remove k m h.1)
    | inr e ↦ rw e (ground (arith, contains_key-remove k j m, h.0), HasUniqueKeys-remove k m h.1)
  ]

  pub HasUniqueKeys-retain_entries :
      (p : List ℕ → Bool) (m : Dict V)
      → HasUniqueKeys m
      → HasUniqueKeys (retain_entries (λ k _. p k) m)
  unfolding HasUniqueKeys retain_entries contains_key
  HasUniqueKeys-retain_entries p [] h = tt
  HasUniqueKeys-retain_entries p ((j, w) ∷ m) h = elim (Bool-cases (p j)) [
    | inl e ↦
        rw e (
          ap is_some (lookup-retain_entries p j m) ∙ rw e h.0,
          HasUniqueKeys-retain_entries p m h.1,
        )
    | inr e ↦ rw e (HasUniqueKeys-retain_entries p m h.1)
  ]
