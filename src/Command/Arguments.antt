-- ===== src/Command/Arguments.antt =====
-- main.rs: `parse` reads what is written as arguments, with flags and words in any order.
use agora_protocol.Base.{
  ◌≡◌, refl, ap, ◌∙◌, Bool, true, false, ◌||◌, inl, inr, List, [], ◌∷◌, ◌++◌, none, Text, codes,
  text_eq, text_eq_comm, sym, mem_text, starts_with, All, Bool-cases, if◌then◌else◌, arith, sym,
}
use mathlib.Core.List.{append_assoc, append-nil}
use agora_protocol.Base.TextLaws.{mem_text-All}
use agora_protocol.Base.Dict.{Dict, insert}
use agora_protocol.Base.Result.{ok}
use agora_protocol.Command.{
  switches, settings, versions, without_dashes, key_of, switch, setting, version, word, kind,
  parse_loop, parse,
}

-- One thing that a user says on the command line.
pub data Item : Type 0 where
  a_word a_switch a_version : Text → Item
  a_setting : Text → Text → Item

abbrev pub written : List Item → List Text
written [] = []
written (a_word w ∷ is) = w ∷ written is
written (a_switch f ∷ is) = f ∷ written is
written (a_version f ∷ is) = f ∷ written is
written (a_setting f v ∷ is) = f ∷ v ∷ written is

abbrev pub words : List Item → List Text
words [] = []
words (a_word w ∷ is) = w ∷ words is
words (a_switch f ∷ is) = words is
words (a_version f ∷ is) = words is
words (a_setting f v ∷ is) = words is

abbrev pub flags_of : List Item → Dict Text → Dict Text
flags_of [] m = m
flags_of (a_word w ∷ is) m = flags_of is m
flags_of (a_switch f ∷ is) m = flags_of is (insert (without_dashes f) [] m)
flags_of (a_version f ∷ is) m = flags_of is (insert (codes "version") [] m)
flags_of (a_setting f v ∷ is) m = flags_of is (insert (key_of f) v m)

-- A word has no two dashes in front and is not `-V`; a flag is one of those that the program knows. The
-- value of a setting is free.
abbrev pub IsItem : Item → Type 0
IsItem (a_word w) = (starts_with (codes "--") w ≡ false) × (text_eq w (codes "-V") ≡ false)
IsItem (a_switch f) = mem_text f switches ≡ true
IsItem (a_version f) = mem_text f versions ≡ true
IsItem (a_setting f v) = mem_text f settings ≡ true

kind-switch : (f : Text) → mem_text f switches ≡ true → kind f ≡ switch
unfolding kind mem_text text_eq
kind-switch f h = mem_text-All (λ x. kind x ≡ switch) f switches (refl, (refl, tt)) h

kind-setting : (f : Text) → mem_text f settings ≡ true → kind f ≡ setting
unfolding kind mem_text text_eq
kind-setting f h =
    mem_text-All (λ x. kind x ≡ setting) f settings
      (refl, (refl, (refl, (refl, (refl, (refl, tt)))))) h

kind-version : (f : Text) → mem_text f versions ≡ true → kind f ≡ version
unfolding kind mem_text text_eq
kind-version f h = mem_text-All (λ x. kind x ≡ version) f versions (refl, (refl, tt)) h

not_mem :
    (w : Text) (xs : List Text)
    → starts_with (codes "--") w ≡ false
    → All (λ x. starts_with (codes "--") x ≡ true) xs
    → mem_text w xs ≡ false
not_mem w xs h a = elim (Bool-cases (mem_text w xs)) [
  | inl e ↦
      let dashed = mem_text-All (λ x. starts_with (codes "--") x ≡ true) w xs a e in
      absurd (ground (arith, h, dashed))
  | inr e ↦ e
]

either_word : (b : Bool) → (if b then word else word) ≡ word
either_word true = refl
either_word false = refl

not_version :
    (w : Text)
    → starts_with (codes "--") w ≡ false
    → text_eq w (codes "-V") ≡ false
    → mem_text w versions ≡ false
unfolding mem_text starts_with
not_version w h v =
    let long : (text_eq (codes "--version") w || false) ≡ false =
      not_mem w (codes "--version" ∷ []) h (refl, tt) in
    let short : text_eq (codes "-V") w ≡ false = text_eq_comm (codes "-V") w ∙ v in
    ground (arith, long, short)

kind-word :
    (w : Text) → starts_with (codes "--") w ≡ false → text_eq w (codes "-V") ≡ false → kind w ≡ word
unfolding kind starts_with
kind-word w h v =
    rw
      (
        not_mem w switches h (refl, (refl, tt)),
        not_mem w settings h (refl, (refl, (refl, (refl, (refl, (refl, tt)))))),
        not_version w h v,
        h,
      )
      (either_word (text_eq w (codes "-")))

parse_loop-written :
    (is : List Item) (pos : List Text) (flags : Dict Text)
    → All IsItem is
    → parse_loop none (written is) pos flags ≡ ok (pos ++ words is, flags_of is flags)
unfolding parse_loop
parse_loop-written [] pos flags h = ap (λ p. ok (p, flags)) (sym (append-nil pos))
parse_loop-written (a_word w ∷ is) pos flags h =
    rw (kind-word w h.0.0 h.0.1, parse_loop)
      (parse_loop-written is (pos ++ w ∷ []) flags h.1
        ∙ ap (λ p. ok (p, flags_of is flags)) (append_assoc pos (w ∷ []) (words is)))
parse_loop-written (a_switch f ∷ is) pos flags h =
    rw (kind-switch f h.0, parse_loop) (parse_loop-written is pos _ h.1)
parse_loop-written (a_version f ∷ is) pos flags h =
    rw (kind-version f h.0, parse_loop) (parse_loop-written is pos _ h.1)
parse_loop-written (a_setting f v ∷ is) pos flags h =
    rw (kind-setting f h.0, parse_loop) (parse_loop-written is pos _ h.1)

-- Words, flags and settings that are written as arguments in any order are read as what they are: the
-- words in their order, each setting with the value that was given to it, whatever that value is,
-- and the later of two values of one setting.
pub parse-written :
    (is : List Item) → All IsItem is → parse (written is) ≡ ok (words is, flags_of is [])
unfolding parse
parse-written is h = parse_loop-written is [] [] h
