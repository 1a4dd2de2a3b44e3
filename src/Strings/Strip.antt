-- ===== src/Strings/Strip.antt =====
-- What `view_strip_empty` of src/utils/strings.hpp cuts off and what it keeps.
use lingdong.Prelude.{
  ℕ, zero, suc, ◌+◌, ◌-◌, ◌≤◌, ◌<◌, ◌≡◌, refl, ◌⊎◌, inl, inr, true, false, not, [], ◌∷◌, Bytes, All,
  length, take, drop, scan, scan_bounds, ◌==◌, arith, Bool-cases,
}
use lingdong.Strings.{is_space, byte, last_kept, view_strip_empty}

abbrev pub AllBlank : Bytes → Type 0
AllBlank = All (λ c. is_space c ≡ true)

-- The kept part of `s` is what stands from `from` on, `count` bytes long, and all around it is
-- blank.
pub record IsTrimmed (s kept : Bytes) : Type 0 where
  pub from : ℕ
  pub count : ℕ
  pub within : from + count ≤ length s
  pub is_part : kept ≡ take count (drop from s)
  pub before : AllBlank (take from s)
  pub behind : AllBlank (drop (from + count) s)
  pub ends :
      (count ≡ 0)
      ⊎ ((is_space (byte s from) ≡ false) × (is_space (byte s (from + count - 1)) ≡ false))

AllBlank-take :
    (n : ℕ) (s : Bytes)
    → ((i : ℕ) → i < n → i < length s → is_space (byte s i) ≡ true)
    → AllBlank (take n s)
AllBlank-take zero s h = tt
AllBlank-take (suc n) [] h = tt
AllBlank-take (suc n) (c ∷ s) h = (
  h 0 (omega arith) (omega arith),
  AllBlank-take n s (λ i p q. h (suc i) (omega arith) (omega arith)),
)

AllBlank-drop :
    (n : ℕ) (s : Bytes)
    → ((i : ℕ) → n ≤ i → i < length s → is_space (byte s i) ≡ true)
    → AllBlank (drop n s)
AllBlank-drop zero [] h = tt
AllBlank-drop zero (c ∷ s) h = (
  h 0 (omega arith) (omega arith),
  AllBlank-drop zero s (λ i p q. h (suc i) (omega arith) (omega arith)),
)
AllBlank-drop (suc n) [] h = tt
AllBlank-drop (suc n) (c ∷ s) h = AllBlank-drop n s (λ i p q. h (suc i) (omega arith) (omega arith))

scan-before :
    (s : Bytes) (idx i : ℕ)
    → idx + i < scan (λ c. not (is_space c)) s idx
    → is_space (byte s i) ≡ true
unfolding scan
scan-before [] idx i h = absurd (omega arith)
scan-before (c ∷ s) idx zero h = ground arith
scan-before (c ∷ s) idx (suc i) h = ground (arith, scan-before s (idx + 1) i)

scan-at :
    (s : Bytes) (idx i : ℕ)
    → scan (λ c. not (is_space c)) s idx ≡ idx + i
    → i < length s
    → is_space (byte s i) ≡ false
unfolding scan
scan-at [] idx i e h = absurd (omega arith)
scan-at (c ∷ s) idx zero e h = ground (arith, scan_bounds (λ c. not (is_space c)) s (idx + 1))
scan-at (c ∷ s) idx (suc i) e h = ground (arith, scan-at s (idx + 1) i)

last_kept_bounds :
    (s : Bytes) (start idx : ℕ)
    → start ≤ idx
    → (start ≤ last_kept s start idx) × (last_kept s start idx ≤ idx)
unfolding last_kept
last_kept_bounds s start zero h = omega arith
last_kept_bounds s start (suc idx) h = ground (arith, last_kept_bounds s start idx)

last_kept-behind :
    (s : Bytes) (start idx i : ℕ) → last_kept s start idx < i → i ≤ idx → is_space (byte s i) ≡ true
unfolding last_kept
last_kept-behind s start zero i h k = absurd (omega arith)
last_kept-behind s start (suc idx) i h k = elim (Bool-cases (i == suc idx)) [
  | inl e ↦ ground arith
  | inr e ↦ ground (arith, last_kept-behind s start idx i)
]

last_kept-at :
    (s : Bytes) (start idx : ℕ)
    → start ≤ idx
    → is_space (byte s start) ≡ false
    → is_space (byte s (last_kept s start idx)) ≡ false
unfolding last_kept
last_kept-at s start zero h k = ground arith
last_kept-at s start (suc idx) h k = ground (arith, last_kept-at s start idx)

module _ (s : Bytes) where
  start : ℕ
  start = scan (λ c. not (is_space c)) s 0

  end : ℕ
  end = last_kept s start (length s - 1)

  start-le : start ≤ length s
  unfolding start
  start-le = omega (arith, scan_bounds (λ c. not (is_space c)) s 0)

  blank-IsTrimmed : start ≡ length s → IsTrimmed s []
  unfolding start
  blank-IsTrimmed e = record {
    from = 0;
    count = 0;
    within = omega arith;
    is_part = refl;
    before = tt;
    behind = AllBlank-drop 0 s (λ i h k. scan-before s 0 i (omega arith));
    ends = inl refl;
  }

  start_kept : start < length s → is_space (byte s start) ≡ false
  unfolding start
  start_kept h = scan-at s 0 start (omega arith) h

  part-IsTrimmed : start < length s → IsTrimmed s (take (end - start + 1) (drop start s))
  unfolding end
  part-IsTrimmed h =
      let b = last_kept_bounds s start (length s - 1) (omega arith) in
      let e : start + (end - start + 1) - 1 ≡ end = omega arith in
      record {
        from = start;
        count = end - start + 1;
        within = omega arith;
        is_part = refl;
        before = AllBlank-take start s (λ i k _. unfold start in scan-before s 0 i (omega arith));
        behind =
            AllBlank-drop (start + (end - start + 1)) s
              (λ i k l. last_kept-behind s start (length s - 1) i (omega arith) (omega arith));
        ends =
            inr (
              start_kept h,
              rw e (last_kept-at s start (length s - 1) (omega arith) (start_kept h)),
            );
      }

-- `view_strip_empty` keeps one part of the text: every byte before and behind it is a blank, and
-- the part neither begins nor ends in one, unless it is empty.
pub view_strip_empty-IsTrimmed : (s : Bytes) → IsTrimmed s (view_strip_empty s)
unfolding view_strip_empty start end
view_strip_empty-IsTrimmed s = elim (Bool-cases (start s == length s)) [
  | inl e ↦ rw e (blank-IsTrimmed s (ground arith))
  | inr e ↦ rw e (part-IsTrimmed s (ground (arith, start-le s)))
]
