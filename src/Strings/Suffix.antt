-- ===== src/Strings/Suffix.antt =====
-- What `find_suffix_type` of src/utils/strings.hpp finds.
use lingdong.Prelude.{
  ℕ, zero, suc, ◌+◌, ◌-◌, ◌≤◌, ◌<◌, ◌≡◌, refl, ◌≢◌, ◌∙◌, ap, [], ◌∷◌, ◌++◌, Bytes, length,
  length-append, drop, drop-append_suc, Lacks, arith,
}
use lingdong.Strings.{byte, suffix_from, find_suffix_type}

byte-append : (s t : Bytes) (i : ℕ) → byte (s ++ t) (length s + i) ≡ byte t i
byte-append [] t i = ap (byte t) (omega arith)
byte-append (c ∷ s) t i =
    let e : suc (length s) + i ≡ suc (length s + i) = omega arith in rw e (byte-append s t i)

byte-Lacks : (c : ℕ) (s : Bytes) (i : ℕ) → Lacks c s → i < length s → byte s i ≢ c
byte-Lacks c [] i h k = absurd (omega arith)
byte-Lacks c (x ∷ s) zero h k = h.0
byte-Lacks c (x ∷ s) (suc i) h k = byte-Lacks c s i h.1 (omega arith)

suffix_from-hit :
    (path : Bytes) (dot k : ℕ)
    → 0 < dot
    → byte path dot ≡ b'.'
    → ((i : ℕ) → dot < i → i ≤ dot + k → byte path i ≢ b'.')
    → suffix_from path (dot + k) ≡ drop (dot + 1) path
unfolding suffix_from
suffix_from-hit path zero k h e f = absurd (omega arith)
suffix_from-hit path (suc dot) zero h e f =
    let z : suc dot + zero ≡ suc dot = omega arith in rw z (ground arith)
suffix_from-hit path (suc dot) (suc k) h e f =
    let z : suc dot + suc k ≡ suc (suc dot + k) = omega arith in
    rw z (
      ground (
        arith,
        f (suc (suc dot + k)) (omega arith) (omega arith),
        suffix_from-hit path (suc dot) k h e (λ i p q. f i p (omega arith)),
      ))

suffix_from-miss :
    (path : Bytes) (k : ℕ)
    → ((i : ℕ) → 0 < i → i ≤ k → byte path i ≢ b'.')
    → suffix_from path k ≡ []
unfolding suffix_from
suffix_from-miss path zero f = refl
suffix_from-miss path (suc k) f = ground (
  arith,
  f (suc k) (omega arith) (omega arith),
  suffix_from-miss path k (λ i p q. f i p (omega arith)),
)

module _ (stem suffix : Bytes) (h : Lacks b'.' suffix) where
  behind_dot :
      (i : ℕ)
      → length stem < i
      → i ≤ length stem + length suffix
      → byte (stem ++ b'.' ∷ suffix) i ≢ b'.'
  behind_dot i p q =
      let e : i ≡ length stem + suc (i - length stem - 1) = omega arith in
      rw e (
        rw (byte-append stem (b'.' ∷ suffix) (suc (i - length stem - 1)))
          (byte-Lacks b'.' suffix (i - length stem - 1) h (omega arith)))

  at_dot : byte (stem ++ b'.' ∷ suffix) (length stem) ≡ b'.'
  at_dot =
      let e : length stem ≡ length stem + 0 = omega arith in
      ap (byte (stem ++ b'.' ∷ suffix)) e ∙ byte-append stem (b'.' ∷ suffix) 0

-- The suffix is what stands behind the last dot, where that is not the first byte.
pub find_suffix_type-append :
    (c : ℕ) (stem suffix : Bytes)
    → Lacks b'.' suffix
    → find_suffix_type (c ∷ stem ++ b'.' ∷ suffix) ≡ suffix
unfolding find_suffix_type
find_suffix_type-append c stem suffix h =
    let e : length (stem ++ b'.' ∷ suffix) ≡ length (c ∷ stem) + length suffix =
      omega (arith, length-append stem (b'.' ∷ suffix)) in
    ap (suffix_from (c ∷ stem ++ b'.' ∷ suffix)) (omega arith)
    ∙ suffix_from-hit (c ∷ stem ++ b'.' ∷ suffix) (length (c ∷ stem)) (length suffix) (omega arith)
        (at_dot (c ∷ stem) suffix h) (behind_dot (c ∷ stem) suffix h)
    ∙ drop-append_suc (c ∷ stem) b'.' suffix

-- A path with no dot behind its first byte has none.
pub find_suffix_type-Lacks :
    (c : ℕ) (path : Bytes) → Lacks b'.' path → find_suffix_type (c ∷ path) ≡ []
unfolding find_suffix_type
find_suffix_type-Lacks c path h = suffix_from-miss (c ∷ path) (suc (length path) - 1) below
  where
    below : (i : ℕ) → 0 < i → i ≤ suc (length path) - 1 → byte (c ∷ path) i ≢ b'.'
    below zero p q = absurd (omega arith)
    below (suc i) p q = byte-Lacks b'.' path i h (omega arith)
