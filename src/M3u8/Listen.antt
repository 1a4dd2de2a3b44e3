-- ===== src/M3u8/Listen.antt =====
-- src/task/m3u8_to_mp4.cpp: `main` handles each line that is added to its input file once.
use lingdong.Prelude.{
  true, false, ℕ, suc, ◌+◌, ◌%◌, ◌^◌, ◌≤◌, ◌<◌, ◌≡◌, refl, sym, ap, ◌∙◌, List, [], ◌∷◌, ◌++◌,
  append-nil, append_assoc, Bytes, length, length-append, Result, ok, fail, ◌>>=◌, ltb, arith,
}
use lingdong.M3u8.{Outside, LineResult, handle_line, new_lines, rounds, listen}

-- Each time that the file is read, the lines from before are still there.
abbrev pub Grows : List Bytes → List (List Bytes) → Type 0
Grows before [] = length before < 2 ^ 32
Grows before (content ∷ contents) =
    ((added : List Bytes) × (before ++ added ≡ content)) × Grows content contents

-- What the file holds at last.
abbrev pub last_content : List Bytes → List (List Bytes) → List Bytes
last_content before [] = before
last_content before (content ∷ contents) = last_content content contents

Grows-length :
    (before : List Bytes) (contents : List (List Bytes))
    → Grows before contents
    → length before < 2 ^ 32
Grows-length before [] h = h
Grows-length before (content ∷ contents) ((added, same), h) =
    let longer : length before + length added ≡ length content =
      sym (length-append before added) ∙ ap length same in
    omega (arith, Grows-length content contents h)

abbrev pub counted : Result (List LineResult) → ℕ → Result (List LineResult × ℕ)
counted run n = do done ← run; ok (done, n)

cons_counted :
    (first : Result LineResult) (run : Result (List LineResult)) (n : ℕ)
    → (first >>= λ done. counted run n >>= λ r. ok (done ∷ r.0, r.1))
      ≡ counted (first >>= λ done. run >>= λ later. ok (done ∷ later)) n
cons_counted (fail f) run n = refl
cons_counted (ok r) (fail f) n = refl
cons_counted (ok r) (ok later) n = refl

append_counted :
    (first second : Result (List LineResult)) (f : ℕ → Result (List LineResult × ℕ)) (n m : ℕ)
    → f n ≡ counted second m
    → (counted first n >>= λ r. f r.1 >>= λ q. ok (r.0 ++ q.0, q.1))
      ≡ counted (first >>= λ done. second >>= λ later. ok (done ++ later)) m
append_counted (fail e) second f n m h = refl
append_counted (ok r) (fail e) f n m h = rw h refl
append_counted (ok r) (ok later) f n m h = rw h refl

nil_append : (run : Result (List LineResult)) → run ≡ (run >>= λ later. ok ([] ++ later))
nil_append (fail e) = refl
nil_append (ok later) = refl

cons_append :
    (first : Result LineResult) (run others : Result (List LineResult))
    → (first >>= λ done. (run >>= λ x. others >>= λ y. ok (x ++ y)) >>= λ later. ok (done ∷ later))
      ≡ ((first >>= λ done. run >>= λ later. ok (done ∷ later)) >>= λ x.
          others >>= λ y. ok (x ++ y))
cons_append (fail e) run others = refl
cons_append (ok r) (fail e) others = refl
cons_append (ok r) (ok x) (fail e) = refl
cons_append (ok r) (ok x) (ok y) = refl

module _ (out : Outside) where
  -- Each line is handled, one after the other, up to one at which the program fails.
  unfoldable pub handle_all : List Bytes → Result (List LineResult)
  handle_all [] = ok []
  handle_all (line ∷ lines) = do
    done ← handle_line out line
    later ← handle_all lines
    ok (done ∷ later)

  -- The lines that were handled before are skipped.
  new_lines-skip :
      (before added : List Bytes) (idx cnt : ℕ)
      → idx + length before ≤ cnt
      → new_lines out (before ++ added) idx cnt ≡ new_lines out added (idx + length before) cnt
  unfolding new_lines
  new_lines-skip [] added idx cnt h =
      let e : idx ≡ idx + 0 = omega arith in ap (λ n. new_lines out added n cnt) e
  new_lines-skip (line ∷ before) added idx cnt h =
      let old : ltb cnt (idx + 1) ≡ false = ground arith in
      let e : idx + 1 + length before ≡ idx + suc (length before) = omega arith in
      rw (old, new_lines)
        (new_lines-skip before added (idx + 1) cnt (omega arith)
          ∙ ap (λ n. new_lines out added n cnt) e)

  new_lines-all :
      (added : List Bytes) (cnt : ℕ)
      → cnt + length added < 2 ^ 32
      → new_lines out added cnt cnt ≡ counted (handle_all added) (cnt + length added)
  unfolding new_lines handle_all
  new_lines-all [] cnt h = let e : cnt ≡ cnt + 0 = omega arith in ap (λ n. ok ([], n)) e
  new_lines-all (line ∷ added) cnt h =
      let fresh : ltb cnt (cnt + 1) ≡ true = ground arith in
      let wraps : (cnt + 1) % 2 ^ 32 ≡ cnt + 1 = omega arith in
      let e : cnt + 1 + length added ≡ cnt + suc (length added) = omega arith in
      rw (fresh, new_lines)
        (rw wraps (
          rw (new_lines-all added (cnt + 1) (omega arith)) (
            cons_counted (handle_line out line) (handle_all added) (cnt + 1 + length added)
            ∙ ap (counted (handle_all (line ∷ added))) e)))

  handle_all-append :
      (lines others : List Bytes)
      → handle_all (lines ++ others)
        ≡ (handle_all lines >>= λ x. handle_all others >>= λ y. ok (x ++ y))
  unfolding handle_all
  handle_all-append [] others = nil_append (handle_all others)
  handle_all-append (line ∷ lines) others =
      rw (handle_all-append lines others)
        (cons_append (handle_line out line) (handle_all lines) (handle_all others))

  new_lines-added :
      (before added content : List Bytes)
      → before ++ added ≡ content
      → length content < 2 ^ 32
      → new_lines out content 0 (length before) ≡ counted (handle_all added) (length content)
  new_lines-added before added content same small =
      let longer : length before + length added ≡ length content =
        sym (length-append before added) ∙ ap length same in
      ap (λ c. new_lines out c 0 (length before)) (sym same)
      ∙ new_lines-skip before added 0 (length before) (omega arith)
      ∙ ap (λ n. new_lines out added n (length before)) (omega arith)
      ∙ new_lines-all added (length before) (omega arith)
      ∙ ap (counted (handle_all added)) longer

  rounds-added :
      (before : List Bytes) (contents : List (List Bytes))
      → Grows before contents
      → (added : List Bytes) × (before ++ added ≡ last_content before contents)
        × (rounds out contents (length before)
            ≡ counted (handle_all added) (length (last_content before contents)))
  unfolding rounds handle_all
  rounds-added before [] h = ([], append-nil before, refl)
  rounds-added before (content ∷ contents) ((added, same), h) =
      let (later, all, ran) = rounds-added content contents h in
      (
        added ++ later,
        sym (append_assoc before added later) ∙ ap (λ s. s ++ later) same ∙ all,
        rw (new_lines-added before added content same (Grows-length content contents h)) (
            append_counted (handle_all added) (handle_all later) (rounds out contents)
              (length content) (length (last_content content contents)) ran
            ∙ ap (λ r. counted r (length (last_content content contents)))
                (sym (handle_all-append added later))),
      )

  -- Where the input file only grows and stays under 2^32 lines, `main` handles the lines that the
  -- file has at last, each once and in their order, and counts them; it fails as the first of them
  -- that fails, and if they are all handled it goes on.
  pub listen-whole :
      (content : List Bytes) (contents : List (List Bytes))
      → Grows content contents
      → listen out content contents
        ≡ counted
            (handle_all (last_content content contents))
            (length (last_content content contents))
  unfolding listen
  listen-whole content contents h =
      let (later, all, ran) = rounds-added content contents h in
      rw (new_lines-added [] content content refl (Grows-length content contents h)) (
        append_counted (handle_all content) (handle_all later) (rounds out contents)
          (length content) (length (last_content content contents)) ran
        ∙ ap (λ r. counted r (length (last_content content contents)))
            (sym (handle_all-append content later) ∙ ap handle_all all))
