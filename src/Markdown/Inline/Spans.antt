-- ===== src/Markdown/Inline/Spans.antt =====
-- src/parser/markdown.cpp, `try_parse_code`, `try_parse_inline_latex` and `try_parse_link`: what
-- they take from the line, closed or not.
use lingdong.Prelude.{
  ℕ, ◌+◌, ◌-◌, ◌<◌, ◌≡◌, refl, sym, ap, ◌∙◌, ◌≢◌, false, [], ◌∷◌, ◌++◌, Bytes, length,
  length-append, length-drop, at_view, Lacks, substr, substr-le, scan, scan-Lacks,
  scan-Lacks_append, drop, take, drop-append_suc, take-append, take-ge, size_sub, size_sub-eq, ok,
  fail, undefined, ◌==◌, arith, append_assoc,
}
use lingdong.Markdown.Document.{inline_code, inline_latex, Paragraph, push_block, moved, Library}
use lingdong.Markdown.Inline.{
  scan_to, ends_without, try_parse_uri, try_parse_link, try_parse_code, try_parse_inline_latex,
  parse_at,
}

-- The test for an unclosed span fails at the end of the line, and at a closing byte.
ends_without-end : (c : ℕ) (line : Bytes) → ends_without c line (length line) ≡ ok false
unfolding ends_without size_sub
ends_without-end c line = ground arith

ends_without-hit :
    (c : ℕ) (line : Bytes) (idx : ℕ) → at_view line idx ≡ ok c → ends_without c line idx ≡ ok false
unfolding ends_without
ends_without-hit c line idx h = ground arith

at_view-append : (s : Bytes) (c : ℕ) (t : Bytes) → at_view (s ++ c ∷ t) (length s) ≡ ok c
unfolding at_view
at_view-append [] c t = refl
at_view-append (x ∷ s) c t = at_view-append s c t

module _ (c : ℕ) (line : Bytes) (start : ℕ) (inside : start < length line)
    (open_end : Lacks c (drop (start + 1) line)) where
  scan_to-end : scan_to c line (start + 1) ≡ length line
  scan_to-end = omega (
    arith,
    scan-Lacks c (drop (start + 1) line) (start + 1) open_end,
    length-drop (start + 1) line,
  )

  rest_of_line :
      substr line (start + 1) (size_sub (size_sub (length line) start) 1)
      ≡ ok (drop (start + 1) line)
  rest_of_line =
      let n : size_sub (size_sub (length line) start) 1 ≡ length line - (start + 1) = omega (
        arith,
        size_sub-eq (length line) start (omega arith),
        size_sub-eq (size_sub (length line) start) 1
            (omega (arith, size_sub-eq (length line) start (omega arith))),
      ) in
      substr-le line (start + 1) _ (omega arith)
      ∙ ap ok (take-ge _ (drop (start + 1) line) (omega (arith, n, length-drop (start + 1) line)))

-- If no backtick stands behind `start`, then the code runs to the end of the line: it is not taken
-- for plain text.
pub try_parse_code-unclosed :
    (lib : Library) (line : Bytes) (start : ℕ) (p : Paragraph)
    → start < length line
    → Lacks b'`' (drop (start + 1) line)
    → try_parse_code lib line start p
      ≡ ok (
        moved (length line + 1),
        push_block p (inline_code (lib.html_escape (drop (start + 1) line))),
      )
unfolding try_parse_code
try_parse_code-unclosed lib line start p inside lacks = rw (
  scan_to-end b'`' line start inside lacks,
  ends_without-end b'`' line,
  rest_of_line b'`' line start inside lacks,
)

-- A closed span: what stands before it, the span's text, and what is behind.
module _ (c : ℕ) (before inner after : Bytes) (lacks : Lacks c inner) where
  spanned : Bytes
  spanned = before ++ c ∷ (inner ++ c ∷ after)

  end : ℕ
  end = length before + 1 + length inner

  drop-spanned : drop (length before + 1) spanned ≡ inner ++ c ∷ after
  unfolding spanned
  drop-spanned = drop-append_suc before c (inner ++ c ∷ after)

  scan_to-spanned : scan_to c spanned (length before + 1) ≡ end
  unfolding end
  scan_to-spanned =
      ap (λ s. scan (λ x. x == c) s (length before + 1)) drop-spanned
      ∙ scan-Lacks_append c inner after (length before + 1) lacks

  at_view-spanned : at_view spanned end ≡ ok c
  unfolding spanned end
  at_view-spanned =
      let e : before ++ c ∷ (inner ++ c ∷ after) ≡ (before ++ c ∷ inner) ++ c ∷ after =
        sym (append_assoc before (c ∷ inner) (c ∷ after)) in
      let n : length before + 1 + length inner ≡ length (before ++ c ∷ inner) =
        omega (arith, length-append before (c ∷ inner)) in
      ap (λ s. at_view s (length before + 1 + length inner)) e
      ∙ ap (at_view ((before ++ c ∷ inner) ++ c ∷ after)) n
      ∙ at_view-append (before ++ c ∷ inner) c after

  substr-spanned :
      substr spanned (length before + 1) (size_sub (size_sub end (length before)) 1) ≡ ok inner
  unfolding end
  substr-spanned =
      let n : size_sub (size_sub end (length before)) 1 ≡ length inner = omega (
        arith,
        size_sub-eq end (length before) (omega arith),
        size_sub-eq (size_sub end (length before)) 1
            (omega (arith, size_sub-eq end (length before) (omega arith))),
      ) in
      substr-le spanned (length before + 1) _
        (unfold spanned in omega (arith, length-append before (c ∷ (inner ++ c ∷ after))))
      ∙ ap (λ s. ok (take (size_sub (size_sub end (length before)) 1) s)) drop-spanned
      ∙ ap (λ k. ok (take k (inner ++ c ∷ after))) n
      ∙ ap ok (take-append inner (c ∷ after))

-- A span of code without a backtick inside, closed by one, gives its escaped text, and the parser
-- goes on behind the closing mark.
pub try_parse_code-closed :
    (lib : Library) (before inner after : Bytes) (p : Paragraph)
    → Lacks b'`' inner
    → try_parse_code lib (before ++ b'`' ∷ (inner ++ b'`' ∷ after)) (length before) p
      ≡ ok (
        moved (length before + 1 + length inner + 1),
        push_block p (inline_code (lib.html_escape inner)),
      )
unfolding try_parse_code spanned end
try_parse_code-closed lib before inner after p lacks = rw (
  scan_to-spanned b'`' before inner after lacks,
  ends_without-hit b'`' _ _ (at_view-spanned b'`' before inner after lacks),
  substr-spanned b'`' before inner after lacks,
)

-- A closed formula without a dollar inside gives its text as it is, and the parser goes on behind
-- the closing mark.
pub try_parse_inline_latex-closed :
    (lib : Library) (before inner after : Bytes) (p : Paragraph)
    → Lacks b'$' inner
    → try_parse_inline_latex lib (before ++ b'$' ∷ (inner ++ b'$' ∷ after)) (length before) p
      ≡ ok (moved (length before + 1 + length inner + 1), push_block p (inline_latex inner))
unfolding try_parse_inline_latex spanned end
try_parse_inline_latex-closed lib before inner after p lacks = rw (
  scan_to-spanned b'$' before inner after lacks,
  ends_without-hit b'$' _ _ (at_view-spanned b'$' before inner after lacks),
  substr-spanned b'$' before inner after lacks,
)

-- In a line of one or two bytes an opening bracket makes the parser read behind the line's end:
-- alone, behind another byte `c`, or before a byte `c`, where `c` is neither `]` nor `^`.
pub parse_at-bracket :
    (lib : Library) (c : ℕ) (p : Paragraph)
    → c ≢ b']'
    → c ≢ b'^'
    → (parse_at lib (b'[' ∷ []) 0 p ≡ fail undefined)
      × (parse_at lib (c ∷ b'[' ∷ []) 1 p ≡ fail undefined)
      × (parse_at lib (b'[' ∷ c ∷ []) 0 p ≡ fail undefined)
unfolding parse_at try_parse_link try_parse_uri at_view scan
parse_at-bracket lib c p h k = (refl, refl, ground arith)
