-- ===== src/Prelude/Strings.antt =====
-- `std::string` and `absl::string_view` as lists of bytes, with the members that the program
-- calls.
use Prim.Native.Nat.{ℕ, zero, suc, ◌+◌, ◌≤◌, ◌<◌}
use Prim.Native.Char.{code}
use Prim.Native.String.{String}
use mathlib.Core.Path.{◌≡◌, refl}
use mathlib.Core.Logic.{◌↔◌, ◌≢◌}
use mathlib.Core.Bool.{Bool, true, false, ◌&&◌, ◌||◌}
use mathlib.Core.List.{List, [], ◌∷◌, ◌++◌}
use mathlib.Core.Option.{Option, none, some}
use native.Mathlib.Omega.{arith}
use lingdong.Prelude.Tests.{leb, ◌==◌, if◌then◌else◌}
use lingdong.Prelude.Lists.{length, take, drop}
use lingdong.Prelude.Faults.{Result, ok, fail, out_of_range, undefined, Ends, Ends-map, Anything}

abbrev pub Bytes : Type 0
Bytes = List ℕ

-- The bytes of an ASCII literal.
abbrev pub codes : String → Bytes
codes String.[] = []
codes (String.◌∷◌ c s) = code c ∷ codes s

unfoldable pub bytes_eq : Bytes → Bytes → Bool
bytes_eq [] [] = true
bytes_eq (x ∷ xs) (y ∷ ys) = x == y && bytes_eq xs ys
bytes_eq _ _ = false

pub bytes_eq_iff : (xs ys : Bytes) → (bytes_eq xs ys ≡ true) ↔ (xs ≡ ys)
unfolding bytes_eq
bytes_eq_iff [] [] = (λ _. refl, λ _. refl)
bytes_eq_iff [] (y ∷ ys) = (λ h. cc, λ h. cc)
bytes_eq_iff (x ∷ xs) [] = (λ h. cc, λ h. cc)
bytes_eq_iff (x ∷ xs) (y ∷ ys) = ground (arith, bytes_eq_iff xs ys)

abbrev pub is_empty {ℓ} : {A : Type ℓ} → List A → Bool
is_empty [] = true
is_empty (x ∷ xs) = false

-- Pieces that are written one after another.
unfoldable pub concat : List Bytes → Bytes
concat [] = []
concat (s ∷ ss) = s ++ concat ss

-- `s[i]` on a `std::string`, which ends in NUL, so that the byte at `size()` can be read. Farther
-- out a read is undefined.
unfoldable pub at : Bytes → ℕ → Result ℕ
at [] zero = ok 0
at [] (suc i) = fail undefined
at (c ∷ s) zero = ok c
at (c ∷ s) (suc i) = at s i

-- `s[i]` on a view, behind whose last byte a read is undefined.
unfoldable pub at_view : Bytes → ℕ → Result ℕ
at_view [] i = fail undefined
at_view (c ∷ s) zero = ok c
at_view (c ∷ s) (suc i) = at_view s i

-- `s[0]`: the first byte, or the NUL behind an empty string.
abbrev pub first_byte : Bytes → ℕ
first_byte [] = 0
first_byte (c ∷ s) = c

-- `s.substr(pos, n)`, which throws where `pos` is behind the end and cuts `n` to what is there.
unfoldable pub substr : Bytes → ℕ → ℕ → Result Bytes
substr s pos n = if leb pos (length s) then ok (take n (drop pos s)) else fail out_of_range

-- `s.substr(pos)`.
unfoldable pub substr_from : Bytes → ℕ → Result Bytes
substr_from s pos = if leb pos (length s) then ok (drop pos s) else fail out_of_range

-- `vec.at(i)`.
unfoldable pub at_index {ℓ} : {A : Type ℓ} → List A → ℕ → Result A
at_index [] i = fail out_of_range
at_index (x ∷ xs) zero = ok x
at_index (x ∷ xs) (suc i) = at_index xs i

-- The loops `while (idx < s.size()) { if (test(s[idx])) break; idx++; }`, on what stands from
-- `idx` on: where they stop.
unfoldable pub scan : (ℕ → Bool) → Bytes → ℕ → ℕ
scan test [] idx = idx
scan test (c ∷ s) idx = if test c then idx else scan test s (idx + 1)

-- `s.find(c)`; `none` is `npos`.
unfoldable pub find : ℕ → Bytes → Option ℕ
find c [] = none
find c (x ∷ s) = if x == c then some 0 else elim (find c s) [ none ↦ none | some i ↦ some (i + 1) ]

-- `s.find(prefix) == 0`.
unfoldable pub starts_with : Bytes → Bytes → Bool
starts_with [] s = true
starts_with (c ∷ prefix) [] = false
starts_with (c ∷ prefix) (x ∷ s) = c == x && starts_with prefix s

-- `s.find(part) != npos`.
unfoldable pub occurs : Bytes → Bytes → Bool
occurs part [] = is_empty part
occurs part (x ∷ s) = starts_with part (x ∷ s) || occurs part s

-- `set.contains(s)`, for a set of strings.
unfoldable pub is_among : Bytes → List Bytes → Bool
is_among s [] = false
is_among s (t ∷ ts) = bytes_eq s t || is_among s ts

-- `c` does not stand in `s`.
abbrev pub Lacks : ℕ → Bytes → Type 0
Lacks c [] = Unit
Lacks c (x ∷ s) = (x ≢ c) × Lacks c s

pub scan_bounds :
    (test : ℕ → Bool) (s : Bytes) (idx : ℕ)
    → (idx ≤ scan test s idx) × (scan test s idx ≤ idx + length s)
unfolding scan
scan_bounds test [] idx = omega arith
scan_bounds test (c ∷ s) idx = ground (arith, scan_bounds test s (idx + 1))

pub at-lt : (s : Bytes) (i : ℕ) → i ≤ length s → (c : ℕ) × (at s i ≡ ok c)
unfolding at
at-lt [] zero h = (0, refl)
at-lt [] (suc i) h = absurd (omega arith)
at-lt (c ∷ s) zero h = (c, refl)
at-lt (c ∷ s) (suc i) h = at-lt s i (omega arith)

pub at_view-lt : (s : Bytes) (i : ℕ) → i < length s → (c : ℕ) × (at_view s i ≡ ok c)
unfolding at_view
at_view-lt [] i h = absurd (omega arith)
at_view-lt (c ∷ s) zero h = (c, refl)
at_view-lt (c ∷ s) (suc i) h = at_view-lt s i (omega arith)

pub at-ge : (s : Bytes) (i : ℕ) → length s < i → at s i ≡ fail undefined
unfolding at
at-ge [] zero h = absurd (omega arith)
at-ge [] (suc i) h = refl
at-ge (c ∷ s) zero h = absurd (omega arith)
at-ge (c ∷ s) (suc i) h = at-ge s i (omega arith)

pub substr-le : (s : Bytes) (pos n : ℕ) → pos ≤ length s → substr s pos n ≡ ok (take n (drop pos s))
unfolding substr
substr-le s pos n h = ground arith

pub substr-gt : (s : Bytes) (pos n : ℕ) → length s < pos → substr s pos n ≡ fail out_of_range
unfolding substr
substr-gt s pos n h = ground arith

pub at_index-lt {ℓ} :
    {A : Type ℓ} (xs : List A) (i : ℕ) → i < length xs → (a : A) × (at_index xs i ≡ ok a)
unfolding at_index
at_index-lt [] i h = elim h [ ]
at_index-lt (x ∷ xs) zero h = (x, refl)
at_index-lt (x ∷ xs) (suc i) h = at_index-lt xs i (omega arith)

pub at_index-ge {ℓ} :
    {A : Type ℓ} (xs : List A) (i : ℕ) → length xs ≤ i → at_index xs i ≡ fail out_of_range
unfolding at_index
at_index-ge [] i h = refl
at_index-ge (x ∷ xs) zero h = absurd (omega arith)
at_index-ge (x ∷ xs) (suc i) h = at_index-ge xs i (omega arith)

pub at_index-ok-lt {ℓ} :
    {A : Type ℓ} (xs : List A) (i : ℕ) {a : A} → at_index xs i ≡ ok a → i < length xs
unfolding at_index
at_index-ok-lt [] i h = cc
at_index-ok-lt (x ∷ xs) zero h = omega arith
at_index-ok-lt (x ∷ xs) (suc i) h = omega (arith, at_index-ok-lt xs i h)

pub at_view-Lacks : (c : ℕ) (s : Bytes) (i : ℕ) {x : ℕ} → Lacks c s → at_view s i ≡ ok x → x ≢ c
unfolding at_view
at_view-Lacks c [] i h e = cc
at_view-Lacks c (y ∷ s) zero h e = ground arith
at_view-Lacks c (y ∷ s) (suc i) h e = at_view-Lacks c s i h.1 e

pub scan-Lacks :
    (c : ℕ) (s : Bytes) (idx : ℕ) → Lacks c s → scan (λ x. x == c) s idx ≡ idx + length s
unfolding scan
scan-Lacks c [] idx h = omega arith
scan-Lacks c (x ∷ s) idx h = ground (arith, scan-Lacks c s (idx + 1))

pub scan-Lacks_append :
    (c : ℕ) (s t : Bytes) (idx : ℕ)
    → Lacks c s
    → scan (λ x. x == c) (s ++ c ∷ t) idx ≡ idx + length s
unfolding scan
scan-Lacks_append c [] t idx h = ground arith
scan-Lacks_append c (x ∷ s) t idx h = ground (arith, scan-Lacks_append c s t (idx + 1))

pub at-Ends : (s : Bytes) (i : ℕ) → Ends Anything (at s i)
unfolding at
at-Ends [] zero = tt
at-Ends [] (suc i) = tt
at-Ends (c ∷ s) zero = tt
at-Ends (c ∷ s) (suc i) = at-Ends s i

pub at_view-Ends : (s : Bytes) (i : ℕ) → Ends Anything (at_view s i)
unfolding at_view
at_view-Ends [] i = tt
at_view-Ends (c ∷ s) zero = tt
at_view-Ends (c ∷ s) (suc i) = at_view-Ends s i

pub substr-Ends : (s : Bytes) (pos n : ℕ) → Ends Anything (substr s pos n)
unfolding substr
substr-Ends s pos n = ground arith

pub substr_from-Ends : (s : Bytes) (pos : ℕ) → Ends Anything (substr_from s pos)
unfolding substr_from
substr_from-Ends s pos = ground arith

pub at_index-Ends {ℓ} :
    {A : Type ℓ} (xs : List A) (i : ℕ) → Ends (λ a. i < length xs) (at_index xs i)
unfolding at_index
at_index-Ends [] i = tt
at_index-Ends (x ∷ xs) zero = omega arith
at_index-Ends (x ∷ xs) (suc i) =
    Ends-map (λ a. i < length xs) (λ a. suc i < length (x ∷ xs)) (at_index xs i)
      (at_index-Ends xs i) (λ a h. omega arith)
