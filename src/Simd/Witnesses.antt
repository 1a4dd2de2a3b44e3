-- ===== src/Simd/Witnesses.antt =====
-- The theorem on src/utils/simd.hpp at a small vector.
use lingdong.Prelude.{ℕ, ◌%◌, ◌^◌, ◌<◌, ◌≡◌, refl, List, [], ◌∷◌, length, arith}
use lingdong.Simd.{add_rest, batch_add, batch_zero, reduce_add, add_batches, x_sum}
use lingdong.Simd.Sums.{plain_sum, x_sum-plain_sum}

abbrev words : List ℕ
words = 1 ∷ 2 ∷ 3 ∷ 4 ∷ 5 ∷ []

x_sum_test : x_sum 2 words ≡ 15
unfolding x_sum add_batches batch_add batch_zero reduce_add add_rest
x_sum_test = refl

x_sum-plain_sum_example :
    (length (add_batches 5 2 words (batch_zero 2)).1 < 4)
    × (x_sum 2 words ≡ plain_sum words % 2 ^ 64)
x_sum-plain_sum_example = x_sum-plain_sum 2 words (omega arith)
