-- ===== src/HackerNews/Batches.antt =====
-- src/task/hacker_news.cpp: the batches of `hn_story_to_emb` have all stories between them.
use lingdong.Prelude.{
  ℕ, ◌+◌, ◌%◌, ◌^◌, ◌≤◌, ◌<◌, ◌≡◌, refl, ◌∙◌, ap, sym, List, [], ◌∷◌, ◌++◌, append_assoc, length,
  length-append, ltb, All, Bool-cases, inl, inr, arith,
}
use lingdong.HackerNews.{model_batch_size, batches}

module _ {ℓ} {A : Type ℓ} where
  abbrev pub joined : List (List A) → List A
  joined [] = []
  joined (batch ∷ rest) = batch ++ joined rest

  abbrev pub IsBatch : List A → Type 0
  IsBatch batch = (0 < length batch) × (length batch ≤ model_batch_size)

  -- What is batched: the batches are neither empty nor too long, have the lines in their order,
  -- and are counted.
  abbrev pub Batched : List A → ℕ → List (List A) × ℕ → Type ℓ
  Batched lines item_cnt (made, cnt) =
      (joined made ≡ lines)
      × All IsBatch made
      × (item_cnt + length lines < 2 ^ 32 → cnt ≡ item_cnt + length lines)

  batches-from :
      (lines one_batch : List A) (item_cnt : ℕ)
      → length one_batch < model_batch_size
      → Batched (one_batch ++ lines) item_cnt (batches lines one_batch item_cnt)
  unfolding batches
  batches-from [] [] item_cnt h = (refl, tt, λ small. omega arith)
  batches-from [] (x ∷ batch) item_cnt h =
      (refl, ((omega arith, omega arith), tt), λ small. omega (arith, length-append batch []))
  batches-from (j ∷ lines) one_batch item_cnt h =
      let batch = one_batch ++ j ∷ [] in
      let longer : length batch ≡ length one_batch + 1 = length-append one_batch (j ∷ []) in
      let whole : batch ++ lines ≡ one_batch ++ j ∷ lines = append_assoc one_batch (j ∷ []) lines in
      elim (Bool-cases (ltb (length batch) model_batch_size)) [
        | inl short ↦
            let (same, sizes, count) = batches-from lines batch item_cnt (ground (arith, short)) in
            rw short (
              same ∙ whole,
              sizes,
              λ small. let len = ap length whole in omega (arith, count (omega (arith, len)), len),
            )
        | inr full ↦
            let (same, sizes, count) =
              batches-from lines [] ((item_cnt + length batch) % 2 ^ 32) (omega arith) in
            rw full (
              ap (λ s. batch ++ s) same ∙ whole,
              ((omega arith, omega arith), sizes),
              λ small.
                  let all : length batch + length lines ≡ length (one_batch ++ j ∷ lines) =
                    sym (length-append batch lines) ∙ ap length whole in
                  let fits : (item_cnt + length batch) % 2 ^ 32 ≡ item_cnt + length batch =
                    omega arith in
                  omega (arith, count (omega (arith, fits))),
            )
      ]

  -- The batches that the producer makes hold the lines of the file, in their order, none left out;
  -- none is empty or has more than 16 lines; and if there are fewer than 2^32 lines, then
  -- `item_cnt` is their number.
  pub batches-Batched : (lines : List A) → Batched lines 0 (batches lines [] 0)
  batches-Batched lines = batches-from lines [] 0 (omega arith)
