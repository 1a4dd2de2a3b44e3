-- ===== src/Maker/Cache/Words.antt =====
-- The numbers in the cache file of src/maker.hpp.
use lingdong.Prelude.{
  ℕ, zero, suc, ◌*◌, ◌/◌, ◌<◌, ◌≡◌, refl, subst, ap, [], ◌∷◌, ◌++◌, Bytes, ok, length, take, drop,
  length-append, take-append, drop-append, leb, true, arith,
}
use lingdong.Maker.Cache.{write_word, read_word, next_word, padded}

-- How many numbers `w` bytes can tell apart.
abbrev pub words : ℕ → ℕ
words zero = 1
words (suc w) = 256 * words w

write_word-length : (w n : ℕ) → length (write_word w n) ≡ w
unfolding write_word
write_word-length zero n = refl
write_word-length (suc w) n = ap suc (write_word-length w (n / 256))

read-write_word : (w n : ℕ) → n < words w → read_word (write_word w n) ≡ n
unfolding read_word write_word
read-write_word zero n h = omega arith
read-write_word (suc w) n h = omega (arith, read-write_word w (n / 256) (omega arith))

-- A number that was written is read back, and what stands behind it is left.
pub next-write_word :
    (w n : ℕ) (s : Bytes) → n < words w → next_word w (write_word w n ++ s) ≡ ok (n, s)
unfolding next_word
next-write_word w n s h =
    let word = write_word w n in
    let size = write_word-length w n in
    let front : take w (word ++ s) ≡ word =
      subst (λ k. take k (word ++ s) ≡ word) size (take-append word s) in
    let back : drop w (word ++ s) ≡ s =
      subst (λ k. drop k (word ++ s) ≡ s) size (drop-append word s) in
    let enough : leb w (length (word ++ s)) ≡ true = ground (arith, size, length-append word s) in
    rw enough (rw front (rw back (rw (read-write_word w n h) refl)))

pub padded-append : (s t : Bytes) → padded (length s) (s ++ t) ≡ s
unfolding padded
padded-append [] t = refl
padded-append (c ∷ s) t = ap (◌∷◌ c) (padded-append s t)
