-- ===== src/Prelude/Lists.antt =====
-- Lists measured and indexed by native numbers, under the library's names.
use Prim.Native.Nat.{ℕ, zero, suc, ◌+◌, ◌-◌, ◌≤◌, ◌<◌, min}
use mathlib.Core.Path.{◌≡◌, refl, sym, ap, ◌∙◌}
use mathlib.Core.List.{List, [], ◌∷◌, ◌++◌, map}
use mathlib.Core.Logic.{◌≢◌, ◌⊎◌, inl, inr}
use mathlib.Core.Option.{Option, none, some}
use native.Mathlib.Omega.{arith}

module _ {ℓ} {A : Type ℓ} where
  abbrev pub length : List A → ℕ
  length [] = 0
  length (x ∷ xs) = suc (length xs)

  abbrev pub get_elem? : List A → ℕ → Option A
  get_elem? [] i = none
  get_elem? (x ∷ xs) zero = some x
  get_elem? (x ∷ xs) (suc i) = get_elem? xs i

  -- A write out of bounds changes nothing.
  abbrev pub set : List A → ℕ → A → List A
  set [] i v = []
  set (x ∷ xs) zero v = v ∷ xs
  set (x ∷ xs) (suc i) v = x ∷ set xs i v

  abbrev pub take : ℕ → List A → List A
  take zero xs = []
  take (suc n) [] = []
  take (suc n) (x ∷ xs) = x ∷ take n xs

  abbrev pub drop : ℕ → List A → List A
  drop zero xs = xs
  drop (suc n) [] = []
  drop (suc n) (x ∷ xs) = drop n xs

  pub length-append : (xs ys : List A) → length (xs ++ ys) ≡ length xs + length ys
  length-append [] ys = omega arith
  length-append (x ∷ xs) ys = omega (arith, length-append xs ys)

abbrev pub All {ℓ κ} : {A : Type ℓ} → (A → Type κ) → List A → Type κ
All P [] = Unit
All P (x ∷ xs) = P x × All P xs

pub All-append {ℓ κ} :
    {A : Type ℓ} (P : A → Type κ) (xs ys : List A) → All P xs → All P ys → All P (xs ++ ys)
All-append P [] ys h k = k
All-append P (x ∷ xs) ys (p, h) k = (p, All-append P xs ys h k)

module _ {ℓ} {A : Type ℓ} where
  pub length-set : (xs : List A) (i : ℕ) (v : A) → length (set xs i v) ≡ length xs
  length-set [] i v = refl
  length-set (x ∷ xs) zero v = refl
  length-set (x ∷ xs) (suc i) v = ap suc (length-set xs i v)

  pub get_elem?-set_ne :
      (xs : List A) {i j : ℕ} (v : A) → i ≢ j → get_elem? (set xs i v) j ≡ get_elem? xs j
  get_elem?-set_ne [] v h = refl
  get_elem?-set_ne (x ∷ xs) {i = zero} {j = zero} v h = absurd (h refl)
  get_elem?-set_ne (x ∷ xs) {i = zero} {j = suc j} v h = refl
  get_elem?-set_ne (x ∷ xs) {i = suc i} {j = zero} v h = refl
  get_elem?-set_ne (x ∷ xs) {i = suc i} {j = suc j} v h = get_elem?-set_ne xs v (λ e. h (ap suc e))

  pub get_elem?-lt : (xs : List A) (i : ℕ) → i < length xs → (a : A) × (get_elem? xs i ≡ some a)
  get_elem?-lt [] i h = elim h [ ]
  get_elem?-lt (x ∷ xs) zero h = (x, refl)
  get_elem?-lt (x ∷ xs) (suc i) h = get_elem?-lt xs i (omega arith)

  pub get_elem?-ge : (xs : List A) (i : ℕ) → length xs ≤ i → get_elem? xs i ≡ none
  get_elem?-ge [] i h = refl
  get_elem?-ge (x ∷ xs) zero h = absurd (omega arith)
  get_elem?-ge (x ∷ xs) (suc i) h = get_elem?-ge xs i (omega arith)

  pub length-map {κ} : {B : Type κ} (xs : List A) (f : A → B) → length (map f xs) ≡ length xs
  length-map [] f = refl
  length-map (x ∷ xs) f = ap suc (length-map xs f)

  pub length-take : (n : ℕ) (xs : List A) → length (take n xs) ≡ min n (length xs)
  length-take zero xs = omega arith
  length-take (suc n) [] = omega arith
  length-take (suc n) (x ∷ xs) = omega (arith, length-take n xs)

  pub length-drop : (n : ℕ) (xs : List A) → length (drop n xs) ≡ length xs - n
  length-drop zero xs = omega arith
  length-drop (suc n) [] = omega arith
  length-drop (suc n) (x ∷ xs) = omega (arith, length-drop n xs)

  pub take-append-drop : (n : ℕ) (xs : List A) → take n xs ++ drop n xs ≡ xs
  take-append-drop zero xs = refl
  take-append-drop (suc n) [] = refl
  take-append-drop (suc n) (x ∷ xs) = ap (◌∷◌ x) (take-append-drop n xs)

  pub drop-drop : (m n : ℕ) (xs : List A) → drop n (drop m xs) ≡ drop (m + n) xs
  drop-drop zero n xs = let same : n ≡ zero + n = omega arith in ap (λ k. drop k xs) same
  drop-drop (suc m) zero [] =
      let same : suc (m + zero) ≡ suc m + zero = omega arith in ap (λ k. drop k []) same
  drop-drop (suc m) (suc n) [] =
      let same : suc (m + suc n) ≡ suc m + suc n = omega arith in ap (λ k. drop k []) same
  drop-drop (suc m) n (x ∷ xs) =
      let same : suc (m + n) ≡ suc m + n = omega arith in
      drop-drop m n xs ∙ ap (λ k. drop k (x ∷ xs)) same

  pub Option-cases : (o : Option A) → (o ≡ none) ⊎ ((a : A) × (o ≡ some a))
  Option-cases none = inl refl
  Option-cases (some a) = inr (a, refl)

  pub drop-append : (s t : List A) → drop (length s) (s ++ t) ≡ t
  drop-append [] t = refl
  drop-append (c ∷ s) t = drop-append s t

  pub drop-append_suc : (s : List A) (x : A) (t : List A) → drop (length s + 1) (s ++ x ∷ t) ≡ t
  drop-append_suc [] x t = refl
  drop-append_suc (c ∷ s) x t =
      let e : suc (length s) + 1 ≡ suc (length s + 1) = omega arith in
      ap (λ n. drop n (c ∷ s ++ x ∷ t)) e ∙ drop-append_suc s x t

  pub take-append : (s t : List A) → take (length s) (s ++ t) ≡ s
  take-append [] t = refl
  take-append (c ∷ s) t = ap (◌∷◌ c) (take-append s t)

  pub take-ge : (n : ℕ) (s : List A) → length s ≤ n → take n s ≡ s
  take-ge zero [] h = refl
  take-ge zero (c ∷ s) h = absurd (omega arith)
  take-ge (suc n) [] h = refl
  take-ge (suc n) (c ∷ s) h = ap (◌∷◌ c) (take-ge n s (omega arith))

  pub drop-ge : (n : ℕ) (s : List A) → length s ≤ n → drop n s ≡ []
  drop-ge zero [] h = refl
  drop-ge zero (c ∷ s) h = absurd (omega arith)
  drop-ge (suc n) [] h = refl
  drop-ge (suc n) (c ∷ s) h = drop-ge n s (omega arith)

  get_elem?-none : (n : ℕ) (s : List A) → ((j : ℕ) → n ≤ j → get_elem? s j ≡ none) → length s ≤ n
  get_elem?-none n [] h = omega arith
  get_elem?-none zero (x ∷ s) h = cc (h 0 (omega arith))
  get_elem?-none (suc n) (x ∷ s) h =
      omega (arith, get_elem?-none n s (λ j k. h (suc j) (omega arith)))

  -- Two lists that agree from `n` on.
  pub drop-ext :
      (n : ℕ) (xs ys : List A)
      → ((j : ℕ) → n ≤ j → get_elem? xs j ≡ get_elem? ys j)
      → drop n xs ≡ drop n ys
  drop-ext zero [] [] h = refl
  drop-ext zero [] (y ∷ ys) h = cc (h 0 (omega arith))
  drop-ext zero (x ∷ xs) [] h = cc (h 0 (omega arith))
  drop-ext zero (x ∷ xs) (y ∷ ys) h =
      let same : x ≡ y = cc (h 0 (omega arith)) in
      cc (same, drop-ext zero xs ys (λ j k. h (suc j) (omega arith)))
  drop-ext (suc n) [] [] h = refl
  drop-ext (suc n) [] (y ∷ ys) h =
      sym (drop-ge n ys (get_elem?-none n ys (λ j k. sym (h (suc j) (omega arith)))))
  drop-ext (suc n) (x ∷ xs) [] h =
      drop-ge n xs (get_elem?-none n xs (λ j k. h (suc j) (omega arith)))
  drop-ext (suc n) (x ∷ xs) (y ∷ ys) h = drop-ext n xs ys (λ j k. h (suc j) (omega arith))
