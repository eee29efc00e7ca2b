-- ===== src/Guard/Clean/Unchanged.antt =====
-- guard.rs: a text in which nothing was masked.
use agora_protocol.Base.{
  ◌≡◌, ◌≢◌, sym, ap, ◌∙◌, Bool, true, false, inl, inr, ◌&&◌, not, List, [], ◌∷◌, some, Option-cases,
  Bool-cases, Text, codes, text_eq, mem_text,
}
use agora_protocol.Config.Types.{GuardCfg}
use agora_protocol.Guard.Regexes.{Engine}
use agora_protocol.Guard.Clean.{
  add_kind, after_rule, Rule, rules, sanitize, replaced, apply_rule, apply_rules, redact, clean,
}

add_kind-nonempty : (k : Text) (hits : List Text) → add_kind k hits ≢ []
unfolding mem_text
add_kind-nonempty k [] h = absurd (cc)
add_kind-nonempty k (j ∷ hits) h = elim (Bool-cases (mem_text k (j ∷ hits))) [
  | inl b ↦ absurd (cc (rw b at h))
  | inr b ↦ absurd (cc (rw b at h))
]

-- Nothing was found, and the text is the one that came in.
abbrev IsUnchanged : Text → List Text → Text → Type 0
IsUnchanged out hits after = (hits ≡ []) × (after ≡ out)

after_rule-IsUnchanged :
    (k out after : Text) (hits : List Text) (n : Bool × Text)
    → after_rule k out hits n ≡ (after, [])
    → IsUnchanged out hits after
after_rule-IsUnchanged k out after hits (true, new) h =
    absurd (add_kind-nonempty k hits (ap (λ (p : Text × List Text). p.1) h))
after_rule-IsUnchanged k out after hits (false, new) h =
    (ap (λ (p : Text × List Text). p.1) h, sym (ap (λ (p : Text × List Text). p.0) h))

some_injective : {A : Type 0} (a b : A) → some a ≡ some b → a ≡ b
some_injective a b h = cc

apply_rule-IsUnchanged :
    (e : Engine) (cfg : GuardCfg) (r : Rule) (out after : Text) (hits : List Text)
    → apply_rule e cfg r out hits ≡ some (after, [])
    → IsUnchanged out hits after
unfolding apply_rule
apply_rule-IsUnchanged e cfg r out after hits h =
    elim (Bool-cases (text_eq r.kind (codes "ip") && not cfg.redact_ip)) [
      | inl b ↦
          let same : (out, hits) ≡ (after, []) = some_injective _ _ (rw (apply_rule, b) at h) in
          (ap (λ (p : Text × List Text). p.1) same, sym (ap (λ (p : Text × List Text). p.0) same))
      | inr b ↦ elim (Option-cases (replaced r (e.pieces r.re out))) [
        | inl n ↦ absurd (cc (rw (apply_rule, n) at (rw (apply_rule, b) at h)))
        | inr (p, n) ↦
            after_rule-IsUnchanged r.kind out after hits p
              (some_injective _ _ (rw (apply_rule, n) at (rw (apply_rule, b) at h)))
      ]
    ]

apply_rules-IsUnchanged :
    (e : Engine) (cfg : GuardCfg) (rs : List Rule) (out after : Text) (hits : List Text)
    → apply_rules e cfg rs out hits ≡ some (after, [])
    → IsUnchanged out hits after
unfolding apply_rules
apply_rules-IsUnchanged e cfg [] out after hits h =
    let same : (out, hits) ≡ (after, []) = some_injective _ _ h in
    (ap (λ (p : Text × List Text). p.1) same, sym (ap (λ (p : Text × List Text). p.0) same))
apply_rules-IsUnchanged e cfg (r ∷ rs) out after hits h =
    elim (Option-cases (apply_rule e cfg r out hits)) [
      | inl n ↦ absurd (cc (rw (apply_rules, n) at h))
      | inr (p, n) ↦
          let later = apply_rules-IsUnchanged e cfg rs p.0 after p.1 (rw (apply_rules, n) at h) in
          let first =
            apply_rule-IsUnchanged e cfg r out p.0 hits (n ∙ ap (λ l. some (p.0, l)) later.0) in
          (first.0, later.1 ∙ first.1)
    ]

-- If `clean` reports nothing, it returns what `sanitize` left, and changed nothing in it.
pub clean-unreported :
    (e : Engine) (cfg : GuardCfg) (s out : Text)
    → clean e cfg s ≡ some (out, [])
    → out ≡ sanitize e s
unfolding clean redact apply_rules apply_rule
clean-unreported e cfg s out h = elim (Bool-cases cfg.redact) [
  | inl b ↦ (apply_rules-IsUnchanged e cfg (rules e) (sanitize e s) out [] (rw (redact, b) at h)).1
  | inr b ↦ sym (ap (λ (p : Text × List Text). p.0) (some_injective _ _ (rw (redact, b) at h)))
]
