-- ===== src/Node/Admit/Seen.antt =====
-- node.rs: the memory of message ids: nothing is let through twice while it is remembered.
use agora_protocol.Base.{
  ℕ, ◌+◌, ◌≤◌, ◌<◌, ◌≡◌, ◌≢◌, refl, sym, ap, ◌∙◌, subst, Bool, true, false, ◌||◌, not, List, [],
  ◌∷◌, ◌++◌, Text, text_eq, text_eq_iff, text_eq_refl, mem_text, length, length-append, retain, ltb,
  arith, Bool-cases, inl, inr, if◌then◌else◌,
}
use mathlib.Core.List.{append_assoc}
use agora_protocol.Base.Dict.{Dict, lookup, insert}
use agora_protocol.Base.Result.{Result, ok, err}
use agora_protocol.Node.Types.{State}
use agora_protocol.Node.Admit.{
  seen_max, remember, forget, note_seen, admit, AdmitError, seen_key, take_token, Bucket, rate_of,
  bucket_or_full, rate_limited,
}

mem_text-append :
    (k : Text) (a b : List Text) → mem_text k (a ++ b) ≡ (mem_text k a || mem_text k b)
unfolding mem_text
mem_text-append k [] b = refl
mem_text-append k (x ∷ a) b = ground (arith, mem_text-append k a b)

mem_text-forget :
    (old k : Text) (set : List Text)
    → mem_text k (retain (λ j. not (text_eq old j)) set)
      ≡ (if text_eq old k then false else mem_text k set)
unfolding mem_text
mem_text-forget old k [] = ground arith
mem_text-forget old k (x ∷ set) =
    ground (arith, text_eq_iff old k, text_eq_iff old x, text_eq_iff x k, mem_text-forget old k set)

-- Each id is remembered once.
abbrev Once : List Text → Type 0
Once [] = Unit
Once (k ∷ ks) = (mem_text k ks ≡ false) × Once ks

Once-append : (ks : List Text) (k : Text) → Once ks → mem_text k ks ≡ false → Once (ks ++ k ∷ [])
unfolding mem_text
Once-append [] k o h = (refl, tt)
Once-append (j ∷ ks) k o h = (
  mem_text-append j ks (k ∷ []) ∙ ground (arith, o.0, text_eq_iff k j, text_eq_iff j k),
  Once-append ks k o.1 (ground arith),
)

-- The queue of ids and the set hold the same ids, and not too many.
pub record IsMemory (seen set : List Text) : Type 0 where
  pub once : Once seen
  pub same : (k : Text) → mem_text k set ≡ mem_text k seen
  pub short : length seen ≤ seen_max

forget-IsMemory :
    (seen set : List Text)
    → Once seen
    → ((k : Text) → mem_text k set ≡ mem_text k seen)
    → length seen ≤ seen_max + 1
    → 0 < length seen
    → IsMemory (forget seen set).0 (forget seen set).1
unfolding forget
forget-IsMemory [] set o same l h = absurd (omega arith)
forget-IsMemory (old ∷ rest) set o same l h = record {
  once = o.1;
  same = λ k.
      mem_text-forget old k set
      ∙ (unfold mem_text in ground (arith, same k, o.0, text_eq_iff old k));
  short = omega arith;
}

pub remember-IsMemory :
    (key : Text) (seen set : List Text)
    → IsMemory seen set
    → mem_text key set ≡ false
    → IsMemory (remember key seen set).0 (remember key seen set).1
unfolding remember
remember-IsMemory key seen set m h =
    let o = Once-append seen key m.once (sym (m.same key) ∙ h) in
    let l = length-append seen (key ∷ []) in
    elim (Bool-cases (ltb seen_max (length (seen ++ key ∷ [])))) [
      | inl e ↦
          rw e (
            forget-IsMemory _ _ o (same_with m.same) (omega (arith, l, m.short)) (omega (arith, l)))
      | inr e ↦ rw e (record { once = o; same = same_with m.same; short = ground arith })
    ]
  where
    same_with :
        ((k : Text) → mem_text k set ≡ mem_text k seen)
        → (k : Text) → mem_text k (key ∷ set) ≡ mem_text k (seen ++ key ∷ [])
    same_with same k = unfold mem_text in ground (arith, mem_text-append k seen (key ∷ []), same k)

-- The id is remembered, and at most `n` ids are newer.
abbrev Recent : ℕ → Text → List Text → Type 0
Recent n key seen = (a : List Text) × (b : List Text) × (seen ≡ a ++ key ∷ b) × (length b ≤ n)

mem_text-middle : (k : Text) (a b : List Text) → mem_text k (a ++ k ∷ b) ≡ true
mem_text-middle k a b =
    mem_text-append k a (k ∷ b) ∙ (unfold mem_text in ground (arith, text_eq_refl k))

cut :
    (a : List Text) (k : Text) (b : List Text) (set : List Text) (n : ℕ)
    → length b ≤ n
    → 1 + length b < length (a ++ k ∷ b)
    → Recent n k (forget (a ++ k ∷ b) set).0
unfolding forget
cut [] k b set n h l = absurd (omega arith)
cut (x ∷ a) k b set n h l = (a, b, refl, h)

remember-new : (key : Text) (seen set : List Text) → Recent 0 key (remember key seen set).0
unfolding remember
remember-new key seen set = elim (Bool-cases (ltb seen_max (length (seen ++ key ∷ [])))) [
  | inl e ↦ rw e (cut seen key [] (key ∷ set) 0 (omega arith) (ground arith))
  | inr e ↦ rw e (seen, [], refl, omega arith)
]

remember-Recent :
    (n : ℕ) (k key : Text) (seen set : List Text)
    → n + 1 < seen_max
    → Recent n k seen
    → Recent (n + 1) k (remember key seen set).0
unfolding remember
remember-Recent n k key seen set room (a, b, e, l) =
    elim (Bool-cases (ltb seen_max (length (seen ++ key ∷ [])))) [
      | inl long ↦ rw long (
          subst (λ s. Recent (n + 1) k (forget s (key ∷ set)).0) (sym grown)
            (cut a k (b ++ key ∷ []) (key ∷ set) (n + 1)
              (omega (arith, length-append b (key ∷ []), l))
              (ground
                (arith, ap (λ (s : List Text). length s) grown, length-append b (key ∷ []), l))))
      | inr short ↦ rw short (a, b ++ key ∷ [], grown, omega (arith, length-append b (key ∷ []), l))
    ]
  where
    grown : seen ++ key ∷ [] ≡ a ++ k ∷ (b ++ key ∷ [])
    grown = ap (λ s. s ++ key ∷ []) e ∙ append_assoc a (k ∷ b) (key ∷ [])

-- What is true of the state between calls of `admit`.
abbrev pub Remembers : State → Type 0
Remembers s = IsMemory s.seen s.seen_set

note_seen-Remembers : (key : Text) (s : State) → Remembers s → Remembers (note_seen key s).1
unfolding note_seen
note_seen-Remembers key s m = elim (Bool-cases (mem_text key s.seen_set)) [
  | inl e ↦ rw e m
  | inr e ↦ rw e (remember-IsMemory key s.seen s.seen_set m e)
]

note_seen-Recent :
    (n : ℕ) (k key : Text) (s : State)
    → n + 1 < seen_max
    → Recent n k s.seen
    → Recent (n + 1) k (note_seen key s).1.seen
unfolding note_seen
note_seen-Recent n k key s room r = elim (Bool-cases (mem_text key s.seen_set)) [
  | inl e ↦ rw e (r.0, r.1, r.2, omega (arith, r.3))
  | inr e ↦ rw e (remember-Recent n k key s.seen s.seen_set room r)
]

note_seen-new :
    (key : Text) (s : State) → (note_seen key s).0 ≡ ok true → Recent 0 key (note_seen key s).1.seen
unfolding note_seen
note_seen-new key s h = elim (Bool-cases (mem_text key s.seen_set)) [
  | inl e ↦ absurd (ground arith)
  | inr e ↦ rw e (remember-new key s.seen s.seen_set)
]

note_seen-again :
    (n : ℕ) (key : Text) (s : State)
    → Remembers s
    → Recent n key s.seen
    → (note_seen key s).0 ≡ ok false
unfolding note_seen
note_seen-again n key s m (a, b, e, l) =
    rw (m.same key ∙ ap (mem_text key) e ∙ mem_text-middle key a b) refl

-- `admit` is the rate limit and then the memory.
pub admit_cases {ℓ} :
    (P : Result AdmitError Bool × State → Type ℓ) (rate : ℕ) (peer id : Text) (now : ℕ) (s : State)
    → ((b : Dict Bucket) → P (err rate_limited, record s { buckets = b }))
    → ((b : Dict Bucket) → P (note_seen (seen_key peer id) (record s { buckets = b })))
    → P (admit rate peer id now s)
unfolding admit
admit_cases P rate peer id now s limited noted =
    let r = rate_of rate in
    let t = take_token r now (bucket_or_full r now (lookup peer s.buckets)) in
    elim (Bool-cases t.0) [
      | inl e ↦ rw e (noted (insert peer t.1 s.buckets))
      | inr e ↦ rw e (limited (insert peer t.1 s.buckets))
    ]

pub admit-Remembers :
    (rate : ℕ) (peer id : Text) (now : ℕ) (s : State)
    → Remembers s
    → Remembers (admit rate peer id now s).1
admit-Remembers rate peer id now s m =
    admit_cases (λ r. Remembers r.1) rate peer id now s (λ b. m)
      (λ b. note_seen-Remembers (seen_key peer id) (record s { buckets = b }) m)

admit-Recent :
    (n rate : ℕ) (k peer id : Text) (now : ℕ) (s : State)
    → n + 1 < seen_max
    → Recent n k s.seen
    → Recent (n + 1) k (admit rate peer id now s).1.seen
admit-Recent n rate k peer id now s room r =
    admit_cases (λ t. Recent (n + 1) k t.1.seen) rate peer id now s
      (λ b. (r.0, r.1, r.2, omega (arith, r.3)))
      (λ b. note_seen-Recent n k (seen_key peer id) (record s { buckets = b }) room r)

admit-new :
    (rate : ℕ) (peer id : Text) (now : ℕ) (s : State)
    → (admit rate peer id now s).0 ≡ ok true
    → Recent 0 (seen_key peer id) (admit rate peer id now s).1.seen
admit-new rate peer id now s =
    admit_cases (λ t. t.0 ≡ ok true → Recent 0 (seen_key peer id) t.1.seen) rate peer id now s
      (λ b h. absurd (cc)) (λ b h. note_seen-new (seen_key peer id) (record s { buckets = b }) h)

admit-again :
    (n rate : ℕ) (peer id : Text) (now : ℕ) (s : State)
    → Remembers s
    → Recent n (seen_key peer id) s.seen
    → (admit rate peer id now s).0 ≢ ok true
admit-again n rate peer id now s m r =
    admit_cases (λ t. t.0 ≢ ok true) rate peer id now s (λ b h. cc)
      (λ b h. absurd (cc (note_seen-again n (seen_key peer id) (record s { buckets = b }) m r)))

-- Further calls, each of a peer, an id and a time.
unfoldable pub admit_all : ℕ → List (Text × Text × ℕ) → State → State
admit_all rate [] s = s
admit_all rate ((peer, id, now) ∷ calls) s = admit_all rate calls (admit rate peer id now s).1

admit_all-keeps :
    (n rate : ℕ) (k : Text) (calls : List (Text × Text × ℕ)) (s : State)
    → n + length calls < seen_max
    → Remembers s
    → Recent n k s.seen
    → Remembers (admit_all rate calls s) × Recent (n + length calls) k (admit_all rate calls s).seen
unfolding admit_all
admit_all-keeps n rate k [] s room m r = (m, (r.0, r.1, r.2, omega (arith, r.3)))
admit_all-keeps n rate k ((peer, id, now) ∷ calls) s room m r =
    let rest =
      admit_all-keeps (n + 1) rate k calls (admit rate peer id now s).1 (omega arith)
        (admit-Remembers rate peer id now s m)
        (admit-Recent n rate k peer id now s (omega arith) r) in
    (rest.0, (rest.1.0, rest.1.1, rest.1.2, omega (arith, rest.1.3)))

-- A message or file that was let through is not let through again under the same id from the same
-- peer, through fewer than 8192 further calls of any peers, whenever they come.
pub admit-once :
    (rate : ℕ) (peer id : Text) (now later : ℕ) (calls : List (Text × Text × ℕ)) (s : State)
    → Remembers s
    → (admit rate peer id now s).0 ≡ ok true
    → length calls < seen_max
    → (admit rate peer id later (admit_all rate calls (admit rate peer id now s).1)).0 ≢ ok true
admit-once rate peer id now later calls s m h few =
    let k =
      admit_all-keeps 0 rate (seen_key peer id) calls (admit rate peer id now s).1 (omega arith)
        (admit-Remembers rate peer id now s m) (admit-new rate peer id now s h) in
    admit-again (length calls) rate peer id later _ k.0 (k.1.0, k.1.1, k.1.2, omega (arith, k.1.3))
