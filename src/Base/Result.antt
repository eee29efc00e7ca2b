-- ===== src/Base/Result.antt =====
-- `Result` with an error type of the component, and its chain of fallible steps.
use mathlib.Core.Path.{◌≡◌, refl, ap}
use mathlib.Core.Bool.{Bool, true, false}
use mathlib.Core.Option.{Option, none, some}

pub data Result {ℓ} (E : Type 0) (A : Type ℓ) : Type ℓ where
  ok : A → Result E A
  err : E → Result E A

infixl 5 ◌>>=◌ ◌>>◌
abbrev pub ◌>>=◌ {ℓ κ} :
    {E : Type 0} {A : Type ℓ} {B : Type κ} → Result E A → (A → Result E B) → Result E B
err reason >>= next = err reason
ok value >>= next = next value

-- `if test { bail!(e) }`
abbrev pub bail_if : {E : Type 0} → Bool → E → Result E (Unit {0})
bail_if true e = err e
bail_if false e = ok tt

abbrev pub ◌>>◌ {κ} : {E : Type 0} {B : Type κ} → Result E (Unit {0}) → Result E B → Result E B
err reason >> later = err reason
ok done >> later = later

-- `ok_or_else(|| e)`
abbrev pub ok_or {ℓ} : {E : Type 0} {A : Type ℓ} → Option A → E → Result E A
ok_or none e = err e
ok_or (some a) e = ok a

abbrev pub is_ok {ℓ} : {E : Type 0} {A : Type ℓ} → Result E A → Bool
is_ok (ok a) = true
is_ok (err e) = false

-- A chain that ends well has a first step that ended well.
pub >>=-eq-ok {ℓ κ} :
    {E : Type 0} {A : Type ℓ} {B : Type κ} (first : Result E A) (next : A → Result E B) {end : B}
    → (first >>= next) ≡ ok end
    → (value : A) × (first ≡ ok value) × (next value ≡ ok end)
>>=-eq-ok (ok value) next h = (value, refl, h)
>>=-eq-ok (err reason) next h = absurd (cc)

pub eq_of_ok {ℓ} : {E : Type 0} {A : Type ℓ} (a b : A) → ◌≡◌ {A = Result E A} (ok a) (ok b) → a ≡ b
eq_of_ok {E = E} {A = A} a b h = ap got h
  where
    got : Result E A → A
    got (ok x) = x
    got (err e) = a

pub >>-eq-ok {κ} :
    {E : Type 0} {B : Type κ} (first : Result E (Unit {0})) (later : Result E B) {end : B}
    → (first >> later) ≡ ok end
    → (first ≡ ok tt) × (later ≡ ok end)
>>-eq-ok (ok done) later h = (refl, h)
>>-eq-ok (err reason) later h = absurd (cc)

pub bail_if-ok {κ} :
    {E : Type 0} {B : Type κ} (test : Bool) (e : E) (later : Result E B) {end : B}
    → (bail_if test e >> later) ≡ ok end
    → (test ≡ false) × (later ≡ ok end)
bail_if-ok true e later h = absurd (cc)
bail_if-ok false e later h = (refl, h)
