-- ===== src/Plugins/Hex.antt =====
-- src/plugin/plantuml.hpp: the text that `hex_encode` makes can be read back.
use lingdong.Prelude.{
  ℕ, ◌+◌, ◌-◌, ◌*◌, ◌/◌, ◌%◌, ◌<◌, ◌≡◌, refl, [], ◌∷◌, Bytes, All, ltb, drop, if◌then◌else◌, arith,
}
use lingdong.Plugins.{hex_digit, hex_bytes, hex_encode}

unfoldable pub digit_value : ℕ → ℕ
digit_value c = if ltb c b'a' then c - b'0' else (c - b'a') + 10

-- Two digits for each byte.
unfoldable pub hex_values : Bytes → Bytes
hex_values [] = []
hex_values (h ∷ []) = []
hex_values (h ∷ l ∷ s) = (digit_value h * 16 + digit_value l) ∷ hex_values s

digit_value-hex_digit : (d : ℕ) → d < 16 → digit_value (hex_digit d) ≡ d
unfolding digit_value hex_digit
digit_value-hex_digit d h = ground arith

hex_values-hex_bytes : (s : Bytes) → All (λ c. c < 256) s → hex_values (hex_bytes s) ≡ s
unfolding hex_values hex_bytes
hex_values-hex_bytes [] h = refl
hex_values-hex_bytes (c ∷ s) (small, h) =
    let high = digit_value-hex_digit (c / 16) (omega arith) in
    let low = digit_value-hex_digit (c % 16) (omega arith) in
    let whole : c / 16 * 16 + c % 16 ≡ c = omega arith in
    rw high (rw low (rw whole (rw (hex_values-hex_bytes s h) refl)))

-- Behind the mark ~h stand two digits for each byte, from which the bytes can be read back.
pub hex_values-hex_encode :
    (s : Bytes) → All (λ c. c < 256) s → hex_values (drop 2 (hex_encode s)) ≡ s
unfolding hex_encode
hex_values-hex_encode s h = hex_values-hex_bytes s h
