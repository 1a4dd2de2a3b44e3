-- ===== src/Simd/Sums.antt =====
-- src/utils/simd.hpp: the sum by batches is the sum.
use lingdong.Prelude.{
  ℕ, zero, suc, ◌+◌, ◌%◌, ◌^◌, ◌≤◌, ◌<◌, ◌≡◌, refl, ◌∙◌, ap, sym, List, [], ◌∷◌, ◌++◌, take, drop,
  take-append-drop, drop-drop, length, length-take, length-drop, leb, Bool-cases, inl, inr, arith,
}
use lingdong.Simd.{add_rest, batch_add, batch_zero, reduce_add, add_batches, x_sum}

-- The sum, one word after another.
abbrev pub plain_sum : List ℕ → ℕ
plain_sum [] = 0
plain_sum (x ∷ xs) = x + plain_sum xs

plain_sum-append : (xs ys : List ℕ) → plain_sum (xs ++ ys) ≡ plain_sum xs + plain_sum ys
plain_sum-append [] ys = omega arith
plain_sum-append (x ∷ xs) ys = omega (arith, plain_sum-append xs ys)

plain_sum-drop :
    (n : ℕ) (xs : List ℕ) → plain_sum (take n xs) + plain_sum (drop n xs) ≡ plain_sum xs
plain_sum-drop n xs =
    sym (plain_sum-append (take n xs) (drop n xs)) ∙ ap plain_sum (take-append-drop n xs)

add_rest-plain_sum :
    (xs : List ℕ) (sum : ℕ) → sum < 2 ^ 64 → add_rest xs sum ≡ (sum + plain_sum xs) % 2 ^ 64
unfolding add_rest
add_rest-plain_sum [] sum h = omega arith
add_rest-plain_sum (x ∷ xs) sum h =
    omega (arith, add_rest-plain_sum xs ((sum + x) % 2 ^ 64) (omega arith))

reduce_add-plain_sum : (c : List ℕ) → reduce_add c ≡ plain_sum c % 2 ^ 64
unfolding reduce_add
reduce_add-plain_sum [] = refl
reduce_add-plain_sum (x ∷ c) = omega (arith, reduce_add-plain_sum c)

batch_add-plain_sum :
    (a b : List ℕ)
    → length a ≡ length b
    → (length (batch_add a b) ≡ length a)
      × (plain_sum (batch_add a b) % 2 ^ 64 ≡ (plain_sum a + plain_sum b) % 2 ^ 64)
unfolding batch_add
batch_add-plain_sum [] [] h = (refl, refl)
batch_add-plain_sum [] (y ∷ b) h = absurd (omega arith)
batch_add-plain_sum (x ∷ a) [] h = absurd (omega arith)
batch_add-plain_sum (x ∷ a) (y ∷ b) h =
    let (len, same) = batch_add-plain_sum a b (omega arith) in (omega arith, omega arith)

batch_zero-plain_sum :
    (inc : ℕ) → (length (batch_zero inc) ≡ inc) × (plain_sum (batch_zero inc) ≡ 0)
unfolding batch_zero
batch_zero-plain_sum zero = (refl, refl)
batch_zero-plain_sum (suc inc) =
    let (len, none) = batch_zero-plain_sum inc in (omega arith, omega arith)

add_batches-plain_sum :
    (fuel inc : ℕ) (rest c : List ℕ)
    → length c ≡ inc
    → (plain_sum (add_batches fuel inc rest c).0 + plain_sum (add_batches fuel inc rest c).1)
        % 2 ^ 64
      ≡ (plain_sum c + plain_sum rest) % 2 ^ 64
unfolding add_batches
add_batches-plain_sum zero inc rest c h = refl
add_batches-plain_sum (suc fuel) inc rest c h = elim (Bool-cases (leb (inc + inc) (length rest))) [
  | inr few ↦ rw few refl
  | inl more ↦
      let room : inc + inc ≤ length rest = ground (arith, more) in
      let a = take inc rest in
      let b = take inc (drop inc rest) in
      let len_a : length a ≡ inc = omega (arith, length-take inc rest) in
      let len_b : length b ≡ inc =
        omega (arith, length-take inc (drop inc rest), length-drop inc rest) in
      let (len_ab, sum_ab) = batch_add-plain_sum a b (len_a ∙ sym len_b) in
      let (len, sum) = batch_add-plain_sum c (batch_add a b) (h ∙ sym (len_ab ∙ len_a)) in
      let later =
        add_batches-plain_sum fuel inc (drop (inc + inc) rest) (batch_add c (batch_add a b))
          (len ∙ h) in
      let first = plain_sum-drop inc rest in
      let second = plain_sum-drop inc (drop inc rest) in
      let third : plain_sum (drop inc (drop inc rest)) ≡ plain_sum (drop (inc + inc) rest) =
        ap plain_sum (drop-drop inc inc rest) in
      rw more (omega (arith, later, sum, sum_ab, first, second, third))
]

-- The loop stops where there are not two batches any more.
add_batches-stops :
    (fuel inc : ℕ) (rest c : List ℕ)
    → 0 < inc
    → length rest ≤ fuel
    → length (add_batches fuel inc rest c).1 < inc + inc
unfolding add_batches
add_batches-stops zero inc rest c some_words enough = omega arith
add_batches-stops (suc fuel) inc rest c some_words enough =
    elim (Bool-cases (leb (inc + inc) (length rest))) [
      | inr few ↦ rw few (ground (arith, few))
      | inl more ↦
          let shorter : length (drop (inc + inc) rest) ≤ fuel =
            omega (arith, length-drop (inc + inc) rest) in
          rw more (add_batches-stops fuel inc (drop (inc + inc) rest) _ some_words shorter)
    ]

-- Whatever the size of a batch is, but 0: the rounds are enough for `x_sum` to leave fewer words
-- than two batches to its last loop, and it gives the sum of the words, as a 64-bit word.
pub x_sum-plain_sum :
    (inc : ℕ) (vec : List ℕ)
    → 0 < inc
    → (length (add_batches (length vec) inc vec (batch_zero inc)).1 < inc + inc)
      × (x_sum inc vec ≡ plain_sum vec % 2 ^ 64)
unfolding x_sum
x_sum-plain_sum inc vec some_words =
    let (len, none) = batch_zero-plain_sum inc in
    let run = add_batches (length vec) inc vec (batch_zero inc) in
    let small : reduce_add run.0 < 2 ^ 64 = omega (arith, reduce_add-plain_sum run.0) in
    (
      add_batches-stops (length vec) inc vec (batch_zero inc) some_words (omega arith),
      omega (
        arith,
        add_rest-plain_sum run.1 (reduce_add run.0) small,
        reduce_add-plain_sum run.0,
        add_batches-plain_sum (length vec) inc vec (batch_zero inc) len,
        none,
      ),
    )
