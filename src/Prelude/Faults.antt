-- ===== src/Prelude/Faults.antt =====
-- What a run of C++ code comes to: a value, or a fault.
use mathlib.Core.Path.{◌≡◌, refl}
use mathlib.Core.Logic.{◌≢◌}

-- `out_of_range` is the exception of `at` and `substr`, and `thrown` that of a library. `undefined` is a read behind the end of
-- a string, which the language leaves open. `no_fuel` says that the model's bound on the number
-- of rounds of a loop was too small; it is no behaviour of the program.
pub data Fault : Type 0 where
  out_of_range undefined thrown no_fuel : Fault

pub data Result {ℓ} (A : Type ℓ) : Type ℓ where
  ok : A → Result A
  fail : Fault → Result A

-- A fault ends the run.
infixl 5 ◌>>=◌
abbrev pub ◌>>=◌ {ℓ κ} : {A : Type ℓ} {B : Type κ} → Result A → (A → Result B) → Result B
ok value >>= next = next value
fail fault >>= next = fail fault

-- A run goes on with what comes before.
pub bind-ok {ℓ κ} :
    {A : Type ℓ} {B : Type κ} {run : Result A} {value : A} (next : A → Result B)
    → run ≡ ok value
    → (run >>= next) ≡ next value
bind-ok next e = rw e refl

-- What comes before in a run that returns has returned.
pub bind-eq-ok {ℓ κ} :
    {A : Type ℓ} {B : Type κ} (run : Result A) (next : A → Result B) {result : B}
    → (run >>= next) ≡ ok result
    → (value : A) × (run ≡ ok value) × (next value ≡ ok result)
bind-eq-ok (ok value) next e = (value, refl, e)
bind-eq-ok (fail fault) next e = cc

-- The run returns, and its value satisfies `P`.
abbrev pub Returns {ℓ} : {A : Type ℓ} → (A → Type 0) → Result A → Type 0
Returns P (ok a) = P a
Returns P (fail e) = ⊥

pub Returns-bind {ℓ κ} :
    {A : Type ℓ} {B : Type κ} (P : A → Type 0) (Q : B → Type 0) (m : Result A) (f : A → Result B)
    → Returns P m
    → ((a : A) → m ≡ ok a → P a → Returns Q (f a))
    → Returns Q (m >>= f)
Returns-bind P Q (ok a) f h k = k a refl h
Returns-bind P Q (fail e) f h k = absurd h

pub Returns-ok {ℓ} :
    {A : Type ℓ} (P : A → Type 0) (m : Result A) → Returns P m → (a : A) × (m ≡ ok a) × P a
Returns-ok P (ok a) h = (a, refl, h)
Returns-ok P (fail e) h = absurd h

-- The run ends within the bound on its rounds, and if it returns, then its value satisfies `P`.
abbrev pub Ends {ℓ} : {A : Type ℓ} → (A → Type 0) → Result A → Type 0
Ends P (ok a) = P a
Ends P (fail out_of_range) = Unit
Ends P (fail undefined) = Unit
Ends P (fail thrown) = Unit
Ends P (fail no_fuel) = ⊥

abbrev pub Anything {ℓ} : {A : Type ℓ} → A → Type 0
Anything _ = Unit

pub Ends-bind {ℓ κ} :
    {A : Type ℓ} {B : Type κ} (P : A → Type 0) (Q : B → Type 0) (m : Result A) (f : A → Result B)
    → Ends P m
    → ((a : A) → m ≡ ok a → P a → Ends Q (f a))
    → Ends Q (m >>= f)
Ends-bind P Q (ok a) f h k = k a refl h
Ends-bind P Q (fail out_of_range) f h k = tt
Ends-bind P Q (fail undefined) f h k = tt
Ends-bind P Q (fail thrown) f h k = tt
Ends-bind P Q (fail no_fuel) f h k = absurd h

pub Ends-map {ℓ} :
    {A : Type ℓ} (P Q : A → Type 0) (m : Result A) → Ends P m → ((a : A) → P a → Q a) → Ends Q m
Ends-map P Q (ok a) h k = k a h
Ends-map P Q (fail out_of_range) h k = tt
Ends-map P Q (fail undefined) h k = tt
Ends-map P Q (fail thrown) h k = tt
Ends-map P Q (fail no_fuel) h k = absurd h

pub Ends-ok {ℓ} : {A : Type ℓ} (P : A → Type 0) (m : Result A) {a : A} → Ends P m → m ≡ ok a → P a
Ends-ok P m h e = rw e at h

pub Ends-ne-no_fuel {ℓ} : {A : Type ℓ} (P : A → Type 0) (m : Result A) → Ends P m → m ≢ fail no_fuel
Ends-ne-no_fuel P m h e = rw e at h
