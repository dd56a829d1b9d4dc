-- ===== src/Prelude/Calls.antt =====
-- What a C call comes to: a value, an exit by die() or by bug(), an exit by exit(), or a read or
-- a write outside an array, which C leaves undefined.
use mathlib.Core.Path.{ap, ◌∙◌, ◌≡◌, refl}
use mathlib.Core.Bool.{Bool, true, false}
use pass_keeper.Prelude.Tests.{if◌then◌else◌}

pub data Outcome {ℓ} (A : Type ℓ) : Type ℓ where
  ok : A → Outcome A
  died : Outcome A
  bugged : Outcome A
  exited : Outcome A
  fault : Outcome A

infixl 5 ◌>>=◌ ◌>>◌
abbrev pub ◌>>=◌ {ℓ κ} : {A : Type ℓ} {B : Type κ} → Outcome A → (A → Outcome B) → Outcome B
ok a >>= f = f a
died >>= f = died
bugged >>= f = bugged
exited >>= f = exited
fault >>= f = fault

abbrev pub ◌>>◌ {ℓ} : {B : Type ℓ} → Outcome (Unit {0}) → Outcome B → Outcome B
m >> k = m >>= λ _. k

-- The call returns, with a value that satisfies `P`.
abbrev pub Returns {ℓ κ} : {A : Type ℓ} → (A → Type κ) → Outcome A → Type (ℓ ⊔ κ)
Returns {A} P r = (a : A) × (r ≡ ok a) × P a

pub Returns-bind {ℓ κ ℓ' κ'} :
    {A : Type ℓ} {B : Type κ} {P : A → Type ℓ'} {Q : B → Type κ'} (m : Outcome A)
    (f : A → Outcome B)
    → Returns P m
    → ((a : A) → P a → Returns Q (f a))
    → Returns Q (m >>= f)
Returns-bind {P} {Q} m f r k = go m (r.1) (k r.0 r.2)
  where
    go : (m' : Outcome _) → m' ≡ ok r.0 → Returns Q (f r.0) → Returns Q (m' >>= f)
    go m' e s = (s.0, ap (λ x. x >>= f) e ∙ s.1, s.2)

pub Returns-map {ℓ κ κ'} :
    {A : Type ℓ} {P : A → Type κ} {Q : A → Type κ'} {m : Outcome A}
    → Returns P m
    → ((a : A) → P a → Q a)
    → Returns Q m
Returns-map r k = (r.0, r.1, k r.0 r.2)

-- If the call returns, then with a value that satisfies `P`.
abbrev pub Ensures {ℓ κ} : {A : Type ℓ} → (A → Type κ) → Outcome A → Type κ
Ensures P (ok a) = P a
Ensures P died = Unit
Ensures P bugged = Unit
Ensures P exited = Unit
Ensures P fault = Unit

pub Ensures-bind {ℓ κ ℓ' κ'} :
    {A : Type ℓ} {B : Type κ} (P : A → Type ℓ') (Q : B → Type κ') (m : Outcome A)
    (f : A → Outcome B)
    → Ensures P m
    → ((a : A) → P a → Ensures Q (f a))
    → Ensures Q (m >>= f)
Ensures-bind P Q (ok a) f h k = k a h
Ensures-bind P Q died f h k = tt
Ensures-bind P Q bugged f h k = tt
Ensures-bind P Q exited f h k = tt
Ensures-bind P Q fault f h k = tt

pub Ensures-any {ℓ} : {A : Type ℓ} (m : Outcome A) → Ensures (λ a. Unit {0}) m
Ensures-any (ok a) = tt
Ensures-any died = tt
Ensures-any bugged = tt
Ensures-any exited = tt
Ensures-any fault = tt

pub Ensures-if {ℓ κ} :
    {A : Type ℓ} (P : A → Type κ) (b : Bool) (m n : Outcome A)
    → (b ≡ true → Ensures P m)
    → (b ≡ false → Ensures P n)
    → Ensures P (if b then m else n)
Ensures-if P true m n h k = h refl
Ensures-if P false m n h k = k refl

pub Ensures-map {ℓ κ κ'} :
    {A : Type ℓ} (P : A → Type κ) (Q : A → Type κ') (m : Outcome A)
    → Ensures P m
    → ((a : A) → P a → Ensures Q (ok a))
    → Ensures Q m
Ensures-map P Q (ok a) h k = k a h
Ensures-map P Q died h k = tt
Ensures-map P Q bugged h k = tt
Ensures-map P Q exited h k = tt
Ensures-map P Q fault h k = tt

-- What follows a call may differ where the call does not lead.
pub bind_cong {ℓ κ ℓ'} :
    {A : Type ℓ} {B : Type κ} (P : A → Type ℓ') (m : Outcome A) (f g : A → Outcome B)
    → Ensures P m
    → ((a : A) → P a → f a ≡ g a)
    → m >>= f ≡ m >>= g
bind_cong P (ok a) f g h k = k a h
bind_cong P died f g h k = refl
bind_cong P bugged f g h k = refl
bind_cong P exited f g h k = refl
bind_cong P fault f g h k = refl
