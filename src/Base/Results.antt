-- ===== src/Base/Results.antt =====
-- The outcome of code that may raise: an error of the component's own type, or a value.
use mathlib.Core.Path.{◌≡◌, refl}
use mathlib.Core.Logic.{◌↔◌, ◌⊎◌, inl, inr}
use mathlib.Core.Bool.{Bool, true, false}

pub data Result (E V : Type 0) : Type 0 where
  err : E → Result E V
  ok : V → Result E V

-- Sequencing: the first error ends the block.
infixl 5 ◌>>=◌ ◌>>◌
abbrev pub ◌>>=◌ : {E V W : Type 0} → Result E V → (V → Result E W) → Result E W
◌>>=◌ first next = elim first [ err e ↦ err e | ok v ↦ next v ]

abbrev pub ◌>>◌ : {E W : Type 0} → Result E (Unit {0}) → Result E W → Result E W
◌>>◌ first next = elim first [ err e ↦ err e | ok done ↦ next ]

-- `if c: raise e`
abbrev pub raise_if : {E : Type 0} → Bool → E → Result E (Unit {0})
raise_if c e = elim c [ false ↦ ok tt | true ↦ err e ]

err≢ok : {E V : Type 0} {e : E} {v : V} → ◌≡◌ {A = Result E V} (err e) (ok v) → ⊥
err≢ok h = cc

-- A sequence succeeds exactly if both of its parts do.
pub >>-eq-ok :
    {E W : Type 0} (first : Result E (Unit {0})) (next : Result E W) {w : W}
    → ((first >> next) ≡ ok w) ↔ ((first ≡ ok tt) × (next ≡ ok w))
>>-eq-ok (err e) next = ((λ h. absurd (err≢ok h)), λ h. absurd (err≢ok h.0))
>>-eq-ok (ok done) next = ((λ h. (refl, h)), λ h. h.1)

-- So does one behind a guard.
pub raise_if->> :
    {E W : Type 0} (c : Bool) (e : E) (next : Result E W) {w : W}
    → ((raise_if c e >> next) ≡ ok w) ↔ ((c ≡ false) × (next ≡ ok w))
raise_if->> true e next = ((λ h. absurd (err≢ok h)), λ h. cc)
raise_if->> false e next = ((λ h. (refl, h)), λ h. h.1)

pub Result-cases :
    {E V : Type 0} (r : Result E V) → ((e : E) × (r ≡ err e)) ⊎ ((v : V) × (r ≡ ok v))
Result-cases (err e) = inl (e, refl)
Result-cases (ok v) = inr (v, refl)
