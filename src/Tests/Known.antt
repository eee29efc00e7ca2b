-- ===== src/Tests/Known.antt =====
-- A presence with a name that is not valid.
use agora_protocol.Base.{[], ◌∷◌, none, codes}
use agora_protocol.Node.Types.{State}
use agora_protocol.Node.Known.{on_presence}
use agora_protocol.Tests.Values.{busy}

abbrev told : State
told =
    on_presence (λ t. t) (codes "laptop") (codes "bob" ∷ codes "../x" ∷ []) none
      ((codes "bob", codes "paper") ∷ []) 9 busy
