-- ===== src/Markdown/Inline.antt =====
-- src/parser/markdown.cpp, `parse_paragraph` on a line and the `try_parse_…` functions.
pub mod Marks
pub mod Progress
pub mod Ends
pub mod Spans
pub mod Nesting
use lingdong.Prelude.{
  ℕ, zero, suc, ◌+◌, Bool, true, false, not, ◌&&◌, ◌||◌, List, [], ◌∷◌, ◌++◌, Bytes, codes, at_view,
  substr, scan, length, drop, size_sub, is_empty, Result, ok, fail, no_fuel, ◌>>=◌, ltb, leb, ◌==◌,
  if◌then◌else◌,
}
use lingdong.Strings.{view_strip_empty}
use lingdong.Markdown.Document.{
  inline_code, inline_latex, inline_link, inline_footnote_ref, text, Paragraph, push_block,
  Markdown, LineParseResult, moved, illegal, Library,
}
use Marks.{MarkState, marks, no_marks}

-- The loop `while (idx < line.size()) { if (line[idx] == c) break; idx++; }`.
abbrev pub scan_to : ℕ → Bytes → ℕ → ℕ
scan_to c line idx = scan (λ x. x == c) (drop idx line) idx

-- `idx == line.size() - 1 && line[idx] != c`.
unfoldable pub ends_without : ℕ → Bytes → ℕ → Result Bool
ends_without c line idx =
    if idx == size_sub (length line) 1
    then (do b ← at_view line idx; ok (not (b == c)))
    else ok false

abbrev pub is_text_end : ℕ → Bool
is_text_end c = c == b'`' || c == b'$' || c == b'['

unfoldable pub try_parse_text : Bytes → ℕ → Paragraph → Result (LineParseResult × Paragraph)
try_parse_text line start p =
    let idx = scan is_text_end (drop (start + 1) line) (start + 1) in
    do
      view ← substr line start (size_sub idx start)
      let m = marks view no_marks
      ok (
        record { status = if is_empty m.stack then 0 else 2; next_pos = idx },
        push_block p (text m.out),
      )

unfoldable pub try_parse_footnote_ref : Bytes → ℕ → Paragraph → Result (LineParseResult × Paragraph)
try_parse_footnote_ref line start p = do
  first ← at_view line start
  let idx = if first == b']' then start else scan_to b']' line (start + 1)
  if idx == start then ok (illegal, p) else (do
    ref_id ← substr line start (size_sub idx start)
    ok (moved (idx + 1), push_block p (inline_footnote_ref ref_id)))

-- The link itself, behind the attempt at a footnote.
unfoldable pub try_parse_uri : Bytes → ℕ → Paragraph → Result (LineParseResult × Paragraph)
unfolding size_sub
try_parse_uri line start p =
    let idx = scan_to b']' line (start + 1) in
    let as_text = try_parse_text line start p in
    if leb (size_sub (length line) 3) idx then as_text else (do
      next ← at_view line (idx + 1)
      if not (next == b'(') then as_text else (do
        link_text ← substr line (start + 1) (size_sub (size_sub idx start) 1)
        let link_url_start = idx + 1
        let end = scan_to b')' line link_url_start
        unclosed ← ends_without b')' line end
        if unclosed then as_text else (do
          link_uri ← substr line (link_url_start + 1) (size_sub (size_sub end link_url_start) 1)
          ok (moved (end + 1), push_block p (inline_link link_text link_uri)))))

unfoldable pub try_parse_link : Bytes → ℕ → Paragraph → Result (LineParseResult × Paragraph)
try_parse_link line start p =
    if ltb (start + 1) (length line)
    then (do
      mark ← at_view line (start + 1)
      if mark == b'^'
          then (do
            (pr, p') ← try_parse_footnote_ref line (start + 2) p
            if pr.status == 0 then ok (pr, p') else try_parse_uri line start p')
          else try_parse_uri line start p)
    else try_parse_uri line start p

module _ (lib : Library) where
  unfoldable pub try_parse_code : Bytes → ℕ → Paragraph → Result (LineParseResult × Paragraph)
  try_parse_code line start p =
      let idx = scan_to b'`' line (start + 1) in
      do
        unclosed ← ends_without b'`' line idx
        if unclosed then try_parse_text line start p else (do
          code ← substr line (start + 1) (size_sub (size_sub idx start) 1)
          ok (moved (idx + 1), push_block p (inline_code (lib.html_escape code))))

  unfoldable pub try_parse_inline_latex :
      Bytes → ℕ → Paragraph → Result (LineParseResult × Paragraph)
  try_parse_inline_latex line start p =
      let idx = scan_to b'$' line (start + 1) in
      do
        unclosed ← ends_without b'$' line idx
        if unclosed then try_parse_text line start p else (do
          math ← substr line (start + 1) (size_sub (size_sub idx start) 1)
          ok (moved (idx + 1), push_block p (inline_latex math)))

  -- The switch on the byte at `idx`.
  unfoldable pub parse_at : Bytes → ℕ → Paragraph → Result (LineParseResult × Paragraph)
  parse_at line idx p = do
    c ← at_view line idx
    if c == b'`'
        then try_parse_code line idx p
        else if c == b'$'
        then try_parse_inline_latex line idx p
        else if c == b'['
        then try_parse_link line idx p
        else try_parse_text line idx p

  -- The loop over the line, with a bound on its rounds.
  unfoldable pub parse_fragments : ℕ → Bytes → ℕ → Paragraph → Result (Bool × Paragraph)
  parse_fragments zero line idx p = fail no_fuel
  parse_fragments (suc fuel) line idx p = elim (ltb idx (length line)) [
    | false ↦ ok (true, p)
    | true ↦ do
      (pr, p') ← parse_at line idx p
      elim (pr.status == 2) [
        | true ↦ ok (false, p')
        | false ↦ parse_fragments fuel line (if pr.status == 0 then pr.next_pos else idx) p'
      ]
  ]

  -- The switch on the byte behind a leading backslash: the alignment, and where the text starts.
  unfoldable pub alignment : Bytes → Paragraph → Result (ℕ × Paragraph)
  alignment line p = do
    first ← at_view line 0
    if first == b'\\' && ltb 2 (length line)
        then (do
          c ← at_view line 1
          ok (
              if c == b'L'
              then (2, record p { text_align = codes "left" })
              else if c == b'C'
              then (2, record p { text_align = codes "center" })
              else if c == b'R'
              then (2, record p { text_align = codes "right" })
              else (0, p)))
        else ok (0, p)

  -- `parse_paragraph(line, paragraph_ptr)`. Each round of the loop moves on, so one round for each
  -- byte and one more are enough.
  unfoldable pub parse_line : Bytes → Paragraph → Markdown → Result (Bool × Paragraph × Markdown)
  parse_line line p md =
      let view = view_strip_empty line in
      if is_empty view then ok (true, p, md) else (do
        (idx, p') ← alignment view p
        (done, p'') ← parse_fragments (suc (length view)) view idx p'
        ok (done, p'', if done then record md { paragraphs = md.paragraphs ++ p'' ∷ [] } else md))
