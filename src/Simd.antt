-- ===== src/Simd.antt =====
-- src/utils/simd.hpp: `x_sum`, the sum of 64-bit integers by batches. An integer is its word; where
-- a signed sum overflows, which the language leaves open, the word wraps around.
pub mod Sums
mod Witnesses
use lingdong.Prelude.{
  ℕ, zero, suc, ◌+◌, ◌*◌, ◌%◌, ◌^◌, List, [], ◌∷◌, take, drop, length, leb, if◌then◌else◌,
}

-- `sum += vec[offset++]` until the end.
unfoldable pub add_rest : List ℕ → ℕ → ℕ
add_rest [] sum = sum
add_rest (x ∷ xs) sum = add_rest xs ((sum + x) % 2 ^ 64)

-- What xsimd does with batches of `inc` words: the sum word by word, the batch of zeros, and the
-- sum of all words of a batch.
unfoldable pub batch_add : List ℕ → List ℕ → List ℕ
batch_add (x ∷ a) (y ∷ b) = ((x + y) % 2 ^ 64) ∷ batch_add a b
batch_add _ _ = []

unfoldable pub batch_zero : ℕ → List ℕ
batch_zero zero = []
batch_zero (suc inc) = 0 ∷ batch_zero inc

unfoldable pub reduce_add : List ℕ → ℕ
reduce_add [] = 0
reduce_add (x ∷ c) = (x + reduce_add c) % 2 ^ 64

-- The loop over two batches at a time, on what stands from `offset` on: the batch `c`, and what is
-- left. It takes a round for each word at most.
unfoldable pub add_batches : ℕ → ℕ → List ℕ → List ℕ → List ℕ × List ℕ
add_batches zero inc rest c = (c, rest)
add_batches (suc fuel) inc rest c =
    let later =
      add_batches fuel inc (drop (inc + inc) rest)
        (batch_add c (batch_add (take inc rest) (take inc (drop inc rest)))) in
    if leb (inc + inc) (length rest) then later else (c, rest)

-- `x_sum`, where a batch has `inc` words.
unfoldable pub x_sum : ℕ → List ℕ → ℕ
x_sum inc vec =
    let (c, rest) = add_batches (length vec) inc vec (batch_zero inc) in
    add_rest rest (reduce_add c)
