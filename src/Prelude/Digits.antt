-- ===== src/Prelude/Digits.antt =====
-- Numbers in decimal digits, as `fmt` writes them.
use Prim.Native.Nat.{ℕ, zero, suc, ◌+◌, ◌/◌, ◌%◌}
use mathlib.Core.List.{[], ◌∷◌, ◌++◌}
use lingdong.Prelude.Tests.{ltb, if◌then◌else◌}
use lingdong.Prelude.Strings.{Bytes}

-- `fmt`'s decimal digits of a number, with a bound on how many there are.
unfoldable pub digits : ℕ → ℕ → Bytes
digits zero n = []
digits (suc fuel) n =
    let front = digits fuel (n / 10) in
    if ltb n 10 then (b'0' + n) ∷ [] else front ++ (b'0' + n % 10) ∷ []

-- Twenty digits are enough for a `size_t`.
unfoldable pub print_size : ℕ → Bytes
print_size n = digits 20 n
