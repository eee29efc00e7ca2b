-- ===== src/Guard/Clean/Laws.antt =====
-- guard.rs: what `clean` leaves in a text.
use agora_protocol.Base.{
  ℕ, ◌≡◌, refl, sym, subst, Bool, true, false, inl, inr, ◌&&◌, not, List, [], ◌∷◌, ◌++◌, Option,
  none, some, Option-cases, Bool-cases, Text, codes, text_eq, All, All-append, all, all→All,
  between, byte_len, is_control, retain-holds,
}
use agora_protocol.Config.Types.{GuardCfg}
use agora_protocol.Guard.Regexes.{
  ansi, Captures, Piece, between_matches, hit, Engine, IsPart, HasParts,
}
use agora_protocol.Guard.Checks.{
  Replacement, unchanged, panics, masked, masked_if, mask, whole, value, secret_value, only_names,
  url_cred, email, phone, card, iban, rearranged, without_space,
}
use agora_protocol.Guard.Clean.{
  keep, after_rule, Rule, rules, sanitize, append_to, replaced, apply_rule, apply_rules, redact,
  clean, without_matches,
}

abbrev IsKept : ℕ → Type 0
IsKept c = keep c ≡ true

-- A text without control characters, but for the end of a line and the tabulator, and without
-- invisible characters.
abbrev pub IsVisible : Text → Type 0
IsVisible s = All IsKept s

All-part : (P : ℕ → Type 0) (a t b : Text) → All P (a ++ (t ++ b)) → All P t
All-part P [] [] b h = tt
All-part P [] (c ∷ t) b h = (h.0, All-part P [] t b h.1)
All-part P (c ∷ a) t b h = All-part P a t b h.1

IsPart-IsVisible : (t s : Text) → IsVisible s → IsPart t s → IsVisible t
IsPart-IsVisible t s h (a, b, e) = All-part IsKept a t b (subst IsVisible e h)

sanitize-IsVisible : (e : Engine) (s : Text) → IsVisible (sanitize e s)
unfolding sanitize
sanitize-IsVisible e s = retain-holds keep (without_matches (e.pieces ansi s))

-- The parts of a match.
record HasVisible (c : Captures) : Type 0 where
  pub matched : IsVisible c.matched
  pub first : IsVisible c.first
  pub second : IsVisible c.second

-- What a rule writes is visible.
abbrev Writes : Replacement → Type 0
Writes unchanged = Unit
Writes panics = Unit
Writes (masked m) = IsVisible m

mask-IsVisible : (k : Text) → IsVisible k → IsVisible (mask k)
unfolding mask keep is_control
mask-IsVisible k h =
    All-append IsKept (codes "[REDACTED:") _ mark_start (All-append IsKept k _ h (refl, tt))
  where
    mark_start : IsVisible (codes "[REDACTED:")
    mark_start = all→All keep (codes "[REDACTED:") refl

Writes-masked_if : (b : Bool) (k : Text) → IsVisible k → Writes (masked_if b k)
Writes-masked_if true k h = mask-IsVisible k h
Writes-masked_if false k h = tt

-- A rule with a visible kind that writes only parts of the match and its mark.
abbrev WritesVisible : Rule → Type 0
WritesVisible r =
    IsVisible r.kind
    × ((k : Text) → IsVisible k → (c : Captures) → HasVisible c → Writes (r.rep c k))

whole-Writes : (c : Captures) (k : Text) → IsVisible k → Writes (whole c k)
unfolding whole
whole-Writes c k h = mask-IsVisible k h

value-Writes : (c : Captures) (k : Text) → IsVisible k → HasVisible c → Writes (value c k)
unfolding value
value-Writes c k h v =
    All-append IsKept c.first _ v.first (All-append IsKept c.second _ v.second (mask-IsVisible k h))

secret_value-Writes :
    (e : Engine) (c : Captures) (k : Text)
    → IsVisible k
    → HasVisible c
    → Writes (secret_value e c k)
unfolding secret_value
secret_value-Writes e c k h v = elim (Bool-cases (only_names e c.third)) [
  | inl b ↦ rw b tt
  | inr b ↦ rw b (value-Writes c k h v)
]

url_cred-Writes : (c : Captures) (k : Text) → IsVisible k → HasVisible c → Writes (url_cred c k)
unfolding url_cred keep is_control
url_cred-Writes c k h v =
    All-append IsKept c.first _ v.first
      (All-append IsKept (mask k) _ (mask-IsVisible k h) (refl, tt))

email-Writes : (c : Captures) (k : Text) → IsVisible k → Writes (email c k)
unfolding email
email-Writes c k h = Writes-masked_if _ k h

phone-Writes : (c : Captures) (k : Text) → IsVisible k → Writes (phone c k)
unfolding phone
phone-Writes c k h = Writes-masked_if _ k h

card-Writes : (c : Captures) (k : Text) → IsVisible k → Writes (card c k)
unfolding card
card-Writes c k h = Writes-masked_if _ k h

rearranged-Writes : (k : Text) (o : Option (Text × Text)) → IsVisible k → Writes (rearranged k o)
unfolding rearranged
rearranged-Writes k none h = tt
rearranged-Writes k (some p) h = Writes-masked_if _ k h

iban-Writes : (c : Captures) (k : Text) → IsVisible k → Writes (iban c k)
unfolding iban
iban-Writes c k h = elim (Bool-cases (between 15 34 (byte_len (without_space c.matched)))) [
  | inl b ↦ rw b (rearranged-Writes k _ h)
  | inr b ↦ rw b tt
]

kind-IsVisible : (k : Text) → all keep k ≡ true → IsVisible k
kind-IsVisible k h = all→All keep k h

rules-WritesVisible : (e : Engine) → All WritesVisible (rules e)
unfolding rules keep is_control
rules-WritesVisible e = (
  (kind-IsVisible (codes "private_key") refl, λ k h c v. whole-Writes c k h),
  (
    (kind-IsVisible (codes "token") refl, λ k h c v. whole-Writes c k h),
    (
      (kind-IsVisible (codes "token") refl, λ k h c v. whole-Writes c k h),
      (
        (kind-IsVisible (codes "secret") refl, λ k h c v. secret_value-Writes e c k h v),
        (
          (kind-IsVisible (codes "secret") refl, λ k h c v. secret_value-Writes e c k h v),
          (
            (kind-IsVisible (codes "credentials") refl, λ k h c v. url_cred-Writes c k h v),
            (
              (kind-IsVisible (codes "email") refl, λ k h c v. email-Writes c k h),
              (
                (kind-IsVisible (codes "iban") refl, λ k h c v. iban-Writes c k h),
                (
                  (kind-IsVisible (codes "card") refl, λ k h c v. card-Writes c k h),
                  (
                    (kind-IsVisible (codes "phone") refl, λ k h c v. phone-Writes c k h),
                    ((kind-IsVisible (codes "ip") refl, λ k h c v. whole-Writes c k h), tt),
                  ),
                ),
              ),
            ),
          ),
        ),
      ),
    ),
  ),
)

-- What a computation leaves, if it does not panic, satisfies `P`.
abbrev Leaves : {A : Type 0} → (A → Type 0) → Option A → Type 0
Leaves P none = Unit
Leaves P (some a) = P a

append_to-IsVisible :
    (b : Bool) (t : Text) (o : Option (Bool × Text))
    → IsVisible t
    → Leaves (λ n. IsVisible n.1) o
    → Leaves (λ n. IsVisible n.1) (append_to b t o)
unfolding append_to
append_to-IsVisible b t none h v = tt
append_to-IsVisible b t (some n) h v = All-append IsKept t n.1 h v

-- What `replaced` does with a match.
after_hit : Captures → List Piece → Rule → Replacement → Option (Bool × Text)
after_hit c ps r panics = none
after_hit c ps r unchanged = append_to false c.matched (replaced r ps)
after_hit c ps r (masked m) = append_to true m (replaced r ps)

replaced-hit :
    (r : Rule) (c : Captures) (ps : List Piece) (a : Replacement)
    → r.rep c r.kind ≡ a
    → replaced r (hit c ∷ ps) ≡ after_hit c ps r a
unfolding replaced after_hit
replaced-hit r c ps panics e = rw (replaced, e) refl
replaced-hit r c ps unchanged e = rw (replaced, e) refl
replaced-hit r c ps (masked m) e = rw (replaced, e) refl

after_hit-IsVisible :
    (r : Rule) (c : Captures) (ps : List Piece) (a : Replacement)
    → IsVisible c.matched
    → Writes a
    → Leaves (λ n. IsVisible n.1) (replaced r ps)
    → Leaves (λ n. IsVisible n.1) (after_hit c ps r a)
unfolding after_hit
after_hit-IsVisible r c ps panics v w l = tt
after_hit-IsVisible r c ps unchanged v w l = append_to-IsVisible false c.matched _ v l
after_hit-IsVisible r c ps (masked m) v w l = append_to-IsVisible true m _ w l

replaced-IsVisible :
    (r : Rule) (s : Text) (ps : List Piece)
    → WritesVisible r
    → IsVisible s
    → All (HasParts s) ps
    → Leaves (λ n. IsVisible n.1) (replaced r ps)
unfolding replaced
replaced-IsVisible r s [] w v h = tt
replaced-IsVisible r s (between_matches t ∷ ps) w v h =
    append_to-IsVisible false t _ (IsPart-IsVisible t s v h.0) (replaced-IsVisible r s ps w v h.1)
replaced-IsVisible r s (hit c ∷ ps) w v h =
    let parts : HasVisible c = record {
      matched = IsPart-IsVisible c.matched s v h.0.0;
      first = IsPart-IsVisible c.first s v h.0.1;
      second = IsPart-IsVisible c.second s v h.0.2;
    } in
    subst (Leaves (λ n. IsVisible n.1)) (sym (replaced-hit r c ps _ refl)) (
      after_hit-IsVisible r c ps _ parts.matched (w.1 r.kind w.0 c parts)
        (replaced-IsVisible r s ps w v h.1))

after_rule-IsVisible :
    (k out : Text) (hits : List Text) (n : Bool × Text)
    → IsVisible out
    → IsVisible n.1
    → IsVisible (after_rule k out hits n).0
after_rule-IsVisible k out hits (true, new) v w = w
after_rule-IsVisible k out hits (false, new) v w = v

-- What `apply_rule` does with the answer of `replaced`.
turn : Rule → Text → List Text → Option (Bool × Text) → Option (Text × List Text)
turn r out hits none = none
turn r out hits (some n) = some (after_rule r.kind out hits n)

turn-IsVisible :
    (r : Rule) (out : Text) (hits : List Text) (o : Option (Bool × Text))
    → IsVisible out
    → Leaves (λ n. IsVisible n.1) o
    → Leaves (λ n. IsVisible n.0) (turn r out hits o)
unfolding turn
turn-IsVisible r out hits none v w = tt
turn-IsVisible r out hits (some n) v w = after_rule-IsVisible r.kind out hits n v w

apply_rule-turn :
    (e : Engine) (cfg : GuardCfg) (r : Rule) (out : Text) (hits : List Text)
    (o : Option (Bool × Text))
    → replaced r (e.pieces r.re out) ≡ o
    → text_eq r.kind (codes "ip") && not cfg.redact_ip ≡ false
    → apply_rule e cfg r out hits ≡ turn r out hits o
unfolding apply_rule turn
apply_rule-turn e cfg r out hits none h b = rw (apply_rule, b) (rw (apply_rule, h) refl)
apply_rule-turn e cfg r out hits (some n) h b = rw (apply_rule, b) (rw (apply_rule, h) refl)

apply_rule-IsVisible :
    (e : Engine) (cfg : GuardCfg) (r : Rule) (out : Text) (hits : List Text)
    → WritesVisible r
    → IsVisible out
    → Leaves (λ n. IsVisible n.0) (apply_rule e cfg r out hits)
unfolding apply_rule
apply_rule-IsVisible e cfg r out hits w v =
    elim (Bool-cases (text_eq r.kind (codes "ip") && not cfg.redact_ip)) [
      | inl b ↦ rw (apply_rule, b) v
      | inr b ↦
          subst (Leaves (λ n. IsVisible n.0)) (sym (apply_rule-turn e cfg r out hits _ refl b)) (
            turn-IsVisible r out hits _ v
              (replaced-IsVisible r out _ w v (e.pieces-HasParts r.re out)))
    ]

apply_rules-IsVisible :
    (e : Engine) (cfg : GuardCfg) (rs : List Rule) (out : Text) (hits : List Text)
    → All WritesVisible rs
    → IsVisible out
    → Leaves (λ n. IsVisible n.0) (apply_rules e cfg rs out hits)
unfolding apply_rules
apply_rules-IsVisible e cfg [] out hits w v = v
apply_rules-IsVisible e cfg (r ∷ rs) out hits w v =
    elim (Option-cases (apply_rule e cfg r out hits)) [
      | inl h ↦ rw (apply_rules, h) tt
      | inr (p, h) ↦
          rw (apply_rules, h)
            (apply_rules-IsVisible e cfg rs p.0 p.1 w.1
              (subst (Leaves (λ n. IsVisible n.0)) h (apply_rule-IsVisible e cfg r out hits w.0 v)))
    ]

redact-IsVisible :
    (e : Engine) (cfg : GuardCfg) (s : Text)
    → IsVisible s
    → Leaves (λ n. IsVisible n.0) (redact e cfg s)
unfolding redact apply_rules apply_rule
redact-IsVisible e cfg s v = elim (Bool-cases cfg.redact) [
  | inl b ↦ rw (redact, b) (apply_rules-IsVisible e cfg (rules e) s [] (rules-WritesVisible e) v)
  | inr b ↦ rw (redact, b) v
]

-- What `clean` returns holds no control character but the end of a line and the tabulator, and no
-- invisible character, whatever text comes in and whatever is masked in it.
pub clean-IsVisible :
    (e : Engine) (cfg : GuardCfg) (s out : Text) (hits : List Text)
    → clean e cfg s ≡ some (out, hits)
    → IsVisible out
unfolding clean
clean-IsVisible e cfg s out hits h =
    subst (Leaves (λ n. IsVisible n.0)) h
      (redact-IsVisible e cfg (sanitize e s) (sanitize-IsVisible e s))
