-- ===== src/Mcp/Channel/Laws.antt =====
-- mcp.rs: a pushed text holds no tag that could close or open the wrapper of the session.
use agora_protocol.Base.{
  ◌≡◌, refl, ap, true, false, ◌&&◌, inl, inr, [], ◌∷◌, ◌++◌, Text, codes, starts_with, to_lowercase,
  lower, trim_start, is_whitespace, is_lower, All, all→All, Bool-cases, arith, subst, ◌==◌,
}
use agora_protocol.Node.Types.{Event}
use agora_protocol.Mcp.Channel.{skip_slash, opens_tag, channel_safe, channel_event}

-- No `<` of the text opens a tag.
abbrev IsClosed : Text → Type 0
IsClosed [] = Unit
IsClosed (c ∷ s) = ((c == b'<' && opens_tag s) ≡ false) × IsClosed s

spaces-channel_safe :
    (s : Text)
    → trim_start is_whitespace (channel_safe s) ≡ channel_safe (trim_start is_whitespace s)
unfolding trim_start channel_safe is_whitespace
spaces-channel_safe [] = refl
spaces-channel_safe (c ∷ s) = ground (arith, spaces-channel_safe s)

slash-channel_safe : (s : Text) → skip_slash (channel_safe s) ≡ channel_safe (skip_slash s)
unfolding skip_slash channel_safe
slash-channel_safe [] = refl
slash-channel_safe (c ∷ s) = ground arith

word-channel_safe :
    (p s : Text)
    → All (λ x. is_lower x ≡ true) p
    → starts_with p (to_lowercase (channel_safe s)) ≡ starts_with p (to_lowercase s)
unfolding starts_with to_lowercase channel_safe lower
word-channel_safe [] s h = refl
word-channel_safe (x ∷ p) [] h = refl
word-channel_safe (x ∷ p) (c ∷ s) h = ground (arith, word-channel_safe p s h.1)

opens_tag-channel_safe : (s : Text) → opens_tag (channel_safe s) ≡ opens_tag s
unfolding opens_tag
opens_tag-channel_safe s =
    rw (spaces-channel_safe s, slash-channel_safe, spaces-channel_safe)
      (word-channel_safe (codes "channel") _ (all→All is_lower (codes "channel") refl))

channel_safe-IsClosed : (s : Text) → IsClosed (channel_safe s)
unfolding channel_safe
channel_safe-IsClosed [] = tt
channel_safe-IsClosed (c ∷ s) = elim (Bool-cases (c == b'<' && opens_tag s)) [
  | inl e ↦ rw e (refl, (refl, (refl, (refl, channel_safe-IsClosed s))))
  | inr e ↦ rw e (rw (opens_tag-channel_safe s) e, channel_safe-IsClosed s)
]

channel_safe_id : (s : Text) → IsClosed s → channel_safe s ≡ s
unfolding channel_safe
channel_safe_id [] h = refl
channel_safe_id (c ∷ s) h = rw h.0 (ap (λ t. c ∷ t) (channel_safe_id s h.1))

IsClosed-split : (a b : Text) → IsClosed (a ++ b'<' ∷ b) → opens_tag b ≡ false
IsClosed-split [] b h = h.0
IsClosed-split (c ∷ a) b h = IsClosed-split a b h.1

split-IsClosed : (s : Text) → ((a b : Text) → s ≡ a ++ b'<' ∷ b → opens_tag b ≡ false) → IsClosed s
split-IsClosed [] h = tt
split-IsClosed (c ∷ s) h = (
  elim (Bool-cases (c == b'<')) [ inl e ↦ rw e (h [] s (ground arith)) | inr e ↦ rw e refl ],
  split-IsClosed s λ a b e. h (c ∷ a) b (ap (λ t. c ∷ t) e),
)

-- The text of a pushed message holds no `<` behind which, after spaces and a slash, the word `channel`
-- stands in any case, whatever the peer wrote; and a text that held none is pushed as it was written.
pub channel_event-closed :
    (ev : Event)
    → ((a b : Text) → (channel_event ev).content ≡ a ++ b'<' ∷ b → opens_tag b ≡ false)
      × (((a b : Text) → ev.body ≡ a ++ b'<' ∷ b → opens_tag b ≡ false)
          → (channel_event ev).content ≡ ev.body)
unfolding channel_event
channel_event-closed ev = (
  λ a b e. IsClosed-split a b (subst IsClosed e (channel_safe-IsClosed ev.body)),
  λ h. channel_safe_id ev.body (split-IsClosed ev.body h),
)
