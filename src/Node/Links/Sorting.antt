-- ===== src/Node/Links/Sorting.antt =====
-- node.rs: the order in which unconfirmed messages are sent again has all of them.
use agora_protocol.Base.{inl, inr, List, [], ◌∷◌, Bool-cases, All, leb}
use agora_protocol.Base.Members.{IsIn}
use agora_protocol.Node.Types.{Msg}
use agora_protocol.Node.Links.{insert_by_ts, sort_by_ts}

IsIn-insert_by_ts : (m x : Msg) (ms : List Msg) → IsIn m (x ∷ ms) → IsIn m (insert_by_ts x ms)
unfolding insert_by_ts
IsIn-insert_by_ts m x [] h = h
IsIn-insert_by_ts m x (y ∷ ms) h = elim (Bool-cases (leb x.ts y.ts)) [
  | inl e ↦ rw e h
  | inr e ↦ rw e (elim h [
    | inl f ↦ inr (IsIn-insert_by_ts m x ms (inl f))
    | inr (inl f) ↦ inl f
    | inr (inr f) ↦ inr (IsIn-insert_by_ts m x ms (inr f))
  ])
]

pub IsIn-sort_by_ts : (m : Msg) (ms : List Msg) → IsIn m ms → IsIn m (sort_by_ts ms)
unfolding sort_by_ts
IsIn-sort_by_ts m [] h = h
IsIn-sort_by_ts m (x ∷ ms) (inl e) = IsIn-insert_by_ts m x (sort_by_ts ms) (inl e)
IsIn-sort_by_ts m (x ∷ ms) (inr h) =
    IsIn-insert_by_ts m x (sort_by_ts ms) (inr (IsIn-sort_by_ts m ms h))

All-insert_by_ts :
    (P : Msg → Type 0) (x : Msg) (ms : List Msg) → P x → All P ms → All P (insert_by_ts x ms)
unfolding insert_by_ts
All-insert_by_ts P x [] p h = (p, tt)
All-insert_by_ts P x (y ∷ ms) p h = elim (Bool-cases (leb x.ts y.ts)) [
  | inl e ↦ rw e (p, h)
  | inr e ↦ rw e (h.0, All-insert_by_ts P x ms p h.1)
]

pub All-sort_by_ts : (P : Msg → Type 0) (ms : List Msg) → All P ms → All P (sort_by_ts ms)
unfolding sort_by_ts
All-sort_by_ts P [] h = tt
All-sort_by_ts P (x ∷ ms) h = All-insert_by_ts P x (sort_by_ts ms) h.0 (All-sort_by_ts P ms h.1)
