-- ===== src/Strings.antt =====
-- src/utils/strings.hpp: the blanks, `view_strip_empty` and `find_suffix_type`.
-- `read_file_all` only reads a file and is left out.
pub mod Strip
pub mod Suffix
mod Witnesses
use lingdong.Prelude.{
  ℕ, zero, suc, ◌+◌, ◌-◌, Bool, true, false, not, ◌&&◌, ◌||◌, List, [], ◌∷◌, Bytes, length, take,
  drop, scan, size_sub, ltb, ◌==◌, if◌then◌else◌,
}

unfoldable pub is_space : ℕ → Bool
is_space c = c == b' ' || c == b'\t'

-- A read that the loop's test has shown to be inside.
abbrev pub byte : Bytes → ℕ → ℕ
byte [] i = 0
byte (c ∷ s) zero = c
byte (c ∷ s) (suc i) = byte s i

-- The second loop of `view_strip_empty`, on `valid_end_idx`.
unfoldable pub last_kept : Bytes → ℕ → ℕ → ℕ
last_kept s start zero = zero
last_kept s start (suc idx) =
    let lower = last_kept s start idx in
    if ltb start (suc idx) && is_space (byte s (suc idx)) then lower else suc idx

unfoldable pub view_strip_empty : Bytes → Bytes
unfolding is_space last_kept scan
view_strip_empty s =
    let valid_start_idx = scan (λ c. not (is_space c)) s 0 in
    let valid_end_idx = last_kept s valid_start_idx (length s - 1) in
    if valid_start_idx == length s
    then []
    else take (valid_end_idx - valid_start_idx + 1) (drop valid_start_idx s)

-- The loop of `find_suffix_type`, from the last byte down to the second.
unfoldable pub suffix_from : Bytes → ℕ → Bytes
suffix_from path zero = []
suffix_from path (suc idx) =
    let lower = suffix_from path idx in
    if byte path (suc idx) == b'.' then drop (suc idx + 1) path else lower

unfoldable pub find_suffix_type : Bytes → Bytes
unfolding suffix_from
find_suffix_type path = suffix_from path (length path - 1)
