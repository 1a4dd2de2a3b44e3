-- ===== src/Markdown/Blocks/Quotes.antt =====
-- src/parser/markdown.cpp, `parse_blockquote`: the lines of the quote, and the line that is lost.
use lingdong.Prelude.{
  ℕ, ◌+◌, ◌≡◌, refl, ap, ◌∙◌, ◌≢◌, List, [], ◌∷◌, ◌++◌, map, Bytes, length, drop, take-ge, set, at,
  substr, substr-le, size_sub, size_sub-eq, ok, ◌>>=◌, arith,
}
use lingdong.Markdown.Document.{Markdown, Library, make, push_element, block_quote}
use lingdong.Markdown.Blocks.{quote_lines, parse_quotes, parse_blockquote}
use lingdong.Markdown.Blocks.Progress.{HasLine}

rest_of_line : (c : ℕ) (s : Bytes) → substr (c ∷ s) 1 (size_sub (length (c ∷ s)) 1) ≡ ok s
rest_of_line c s =
    substr-le (c ∷ s) 1 _ (omega arith)
    ∙ ap ok (take-ge _ s (omega (arith, size_sub-eq (length (c ∷ s)) 1 (omega arith))))

abbrev pub quoted : List Bytes → List Bytes
quoted = map (λ s. b'>' ∷ s)

quote_lines-quoted :
    (ss : List Bytes) (other : Bytes) (rest : List Bytes) (c idx : ℕ) (last : Bytes)
    → at other 0 ≡ ok c
    → c ≢ b'>'
    → quote_lines (quoted ss ++ other ∷ rest) idx last ≡ ok (ss, idx + length ss, other)
unfolding quote_lines
quote_lines-quoted [] other rest c idx last e h = rw e (ground arith)
quote_lines-quoted (s ∷ ss) other rest c idx last e h =
    let head : at (b'>' ∷ s) 0 ≡ ok b'>' = unfold at in refl in
    rw (head, rest_of_line b'>' s, quote_lines-quoted ss other rest c (idx + 1) (b'>' ∷ s) e h)
      (ground arith)

module _ (lib : Library) (md : Markdown) (s : Bytes) (ss : List Bytes) (other : Bytes)
    (rest : List Bytes) (c : ℕ) (first : HasLine md (b'>' ∷ s))
    (behind : drop (md.last_line_idx + 1) md.lines ≡ quoted ss ++ other ∷ rest)
    (other_head : at other 0 ≡ ok c) (not_quoted : c ≢ b'>') where
  -- Where the line and those behind it begin with the mark of a quote, and then comes another line
  -- that has a first byte and does not begin with it, the quote holds the lines without their
  -- marks, and that other line is written over the first line of the quote.
  pub parse_blockquote-quoted : parse_blockquote lib md ≡ (do
    (ps, md') ←
        parse_quotes lib (s ∷ ss) (record md { lines = set md.lines md.last_line_idx other })
    ok (make 0 (md.last_line_idx + 1 + length ss), push_element md' (block_quote ps)))
  unfolding parse_blockquote
  parse_blockquote-quoted = rw (
    first,
    rest_of_line b'>' s,
    behind,
    quote_lines-quoted ss other rest c (md.last_line_idx + 1) (b'>' ∷ s) other_head not_quoted,
  )
