-- ===== src/Prelude/Decides.antt =====
-- Runs of which a predicate says whether they return or read what is not there.
use mathlib.Core.Path.{◌≡◌, refl}
use mathlib.Core.Logic.{◌⊎◌, inl, inr}
use lingdong.Prelude.Faults.{Result, ok, fail, undefined, ◌>>=◌}

-- The run returns if `P` holds, and otherwise does what the language leaves open.
abbrev pub Decides {ℓ} : {A : Type ℓ} → Type 0 → Result A → Type ℓ
Decides {A} P run = (P × ((value : A) × (run ≡ ok value))) ⊎ ((¬ P) × (run ≡ fail undefined))

-- One run behind another, where what the first gives matters only by `Q`.
pub Decides-bind {ℓ κ} :
    {A : Type ℓ} {B : Type κ} {P P' : Type 0} (run : Result A) (next : A → Result B)
    → Decides P run
    → ((value : A) → run ≡ ok value → Decides P' (next value))
    → Decides (P × P') (run >>= next)
Decides-bind run next (inr (missing, e)) k = rw e (inr ((λ both. missing both.0), refl))
Decides-bind run next (inl (holds, (value, e))) k = elim (k value e) [
  | inl (rest, (r, e')) ↦ rw e (inl ((holds, rest), (r, e')))
  | inr (fails, e') ↦ rw e (inr ((λ both. fails both.1), e'))
]

-- A step that always returns.
pub Decides-then {ℓ κ} :
    {A : Type ℓ} {B : Type κ} {P : Type 0} (run : Result A) (next : A → B)
    → Decides P run
    → Decides P (run >>= λ value. ok (next value))
Decides-then run next (inl (holds, (value, e))) = rw e (inl (holds, (next value, refl)))
Decides-then run next (inr (fails, e)) = rw e (inr (fails, refl))

pub Decides-iff {ℓ} :
    {A : Type ℓ} {P P' : Type 0} (run : Result A)
    → (P → P')
    → (P' → P)
    → Decides P run
    → Decides P' run
Decides-iff run there back (inl (holds, r)) = inl (there holds, r)
Decides-iff run there back (inr (fails, e)) = inr ((λ h. fails (back h)), e)
