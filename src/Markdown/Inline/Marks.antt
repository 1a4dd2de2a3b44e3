-- ===== src/Markdown/Inline/Marks.antt =====
-- src/parser/markdown.cpp, the loop of `try_parse_text` that turns the marks `**`, `*` and `~~`
-- into tags. `stack` is `mark_states`, its top at the head; `skip` is the second `sv_idx++` of a
-- two-byte mark, done at the head of the next round.
use lingdong.Prelude.{
  ℕ, Bool, true, false, not, ◌&&◌, List, [], ◌∷◌, ◌++◌, Bytes, codes, ◌==◌, if◌then◌else◌,
}

pub record MarkState : Type 0 where
  pub out : Bytes
  pub stack : List ℕ
  pub skip : Bool

-- 1 is bold, 2 is italic, 3 is struck out.
unfoldable pub open_tag : ℕ → Bytes
open_tag k = if k == 1 then codes "<strong>" else if k == 2 then codes "<em>" else codes "<strike>"

unfoldable pub close_tag : ℕ → Bytes
close_tag k =
    if k == 1 then codes "</strong>" else if k == 2 then codes "</em>" else codes "</strike>"

-- `mark_states.empty() || mark_states.top() != k`.
abbrev pub opens : ℕ → List ℕ → Bool
opens k [] = true
opens k (top ∷ stack) = not (top == k)

abbrev pub pop : List ℕ → List ℕ
pop [] = []
pop (top ∷ stack) = stack

abbrev pub toggle : ℕ → Bool → MarkState → MarkState
toggle k wide m =
    if opens k m.stack
    then record { out = m.out ++ open_tag k; stack = k ∷ m.stack; skip = wide }
    else record { out = m.out ++ close_tag k; stack = pop m.stack; skip = wide }

abbrev pub starts_with_byte : ℕ → Bytes → Bool
starts_with_byte c [] = false
starts_with_byte c (x ∷ rest) = x == c

abbrev pub put : ℕ → MarkState → MarkState
put c m = record m { out = m.out ++ c ∷ [] }

-- One byte, with what stands behind it.
unfoldable pub mark_step : ℕ → Bytes → MarkState → MarkState
mark_step c rest m =
    if m.skip
    then record m { skip = false }
    else if not (c == b'*') && not (c == b'~')
    then put c m
    else if c == b'~'
    then (if starts_with_byte b'~' rest then toggle 3 true m else put c m)
    else if starts_with_byte b'*' rest
    then toggle 1 true m
    else toggle 2 false m

unfoldable pub marks : Bytes → MarkState → MarkState
unfolding mark_step open_tag close_tag
marks [] m = m
marks (c ∷ rest) m = marks rest (mark_step c rest m)

abbrev pub no_marks : MarkState
no_marks = record { out = []; stack = []; skip = false }
