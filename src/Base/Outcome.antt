-- ===== src/Base/Outcome.antt =====
-- How a call ends: with a value, by a failed assertion or an access out of bounds, or, where the
-- model of a loop has run out of rounds or the call waits for another thread, not at all.
use mathlib.Core.Bool.{Bool, true, false}
use mathlib.Core.Path.{◌≡◌, refl, subst}

pub data Outcome {ℓ} (A : Type ℓ) : Type ℓ where
  done : A → Outcome A
  fault : Outcome A
  stuck : Outcome A

infixl 5 ◌>>=◌ ◌>>◌
abbrev pub ◌>>=◌ {ℓ κ} : {A : Type ℓ} {B : Type κ} → Outcome A → (A → Outcome B) → Outcome B
done a >>= f = f a
fault >>= f = fault
stuck >>= f = stuck

abbrev pub ◌>>◌ {ℓ} : {B : Type ℓ} → Outcome (Unit {0}) → Outcome B → Outcome B
m >> k = m >>= λ _. k

abbrev pub assert : Bool → Outcome (Unit {0})
assert true = done tt
assert false = fault

-- The value of a call that returns. A failed assertion ends the program, so the other value stands for
-- nothing that the code does: what is proved with it is about calls that return.
abbrev pub value_or : {A : Type 0} → A → Outcome A → A
value_or other (done a) = a
value_or other fault = other
value_or other stuck = other

-- What holds of the value, where there is one.
abbrev pub Holds : {A : Type 0} → (A → Type 0) → Outcome A → Type 0
Holds P (done a) = P a
Holds P fault = Unit
Holds P stuck = Unit

pub bind-Holds :
    {A B : Type 0} (P : A → Type 0) (Q : B → Type 0) (m : Outcome A) (f : A → Outcome B)
    → Holds P m
    → ((a : A) → P a → Holds Q (f a))
    → Holds Q (m >>= f)
bind-Holds P Q (done a) f h g = g a h
bind-Holds P Q fault f h g = tt
bind-Holds P Q stuck f h g = tt

pub assert-Holds :
    {B : Type 0} (Q : B → Type 0) (b : Bool) (m : Outcome B) → Holds Q m → Holds Q (assert b >> m)
assert-Holds Q true m h = h
assert-Holds Q false m h = tt

-- There is a value, and `P` holds of it.
abbrev pub Returns : {A : Type 0} → (A → Type 0) → Outcome A → Type 0
Returns P (done a) = P a
Returns P fault = ⊥
Returns P stuck = ⊥

pub bind-Returns :
    {A B : Type 0} (P : A → Type 0) (Q : B → Type 0) (m : Outcome A) (f : A → Outcome B)
    → Returns P m
    → ((a : A) → P a → Returns Q (f a))
    → Returns Q (m >>= f)
bind-Returns P Q (done a) f h g = g a h
bind-Returns P Q fault f h g = absurd h
bind-Returns P Q stuck f h g = absurd h

pub Returns-done :
    {A : Type 0} (P : A → Type 0) (m : Outcome A) → Returns P m → (a : A) × (m ≡ done a) × P a
Returns-done P (done a) h = (a, refl, h)
Returns-done P fault h = absurd h
Returns-done P stuck h = absurd h

pub Returns-value :
    {A : Type 0} (P : A → Type 0) (m : Outcome A) (a : A) → Returns P m → m ≡ done a → P a
Returns-value P m a h e = subst (Returns P) e h

pub Holds-value :
    {A : Type 0} (P : A → Type 0) (m : Outcome A) (a : A) → Holds P m → m ≡ done a → P a
Holds-value P m a h e = subst (Holds P) e h

-- Nothing is said of the value.
pub any-Holds : {A : Type 0} (m : Outcome A) → Holds (λ a. Unit) m
any-Holds (done a) = tt
any-Holds fault = tt
any-Holds stuck = tt

-- What an assertion guards may use it.
pub assert-Known :
    {B : Type 0} (Q : B → Type 0) (b : Bool) (m : Outcome B)
    → (b ≡ true → Holds Q m)
    → Holds Q (assert b >> m)
assert-Known Q true m h = h refl
assert-Known Q false m h = tt
