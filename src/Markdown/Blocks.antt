-- ===== src/Markdown/Blocks.antt =====
-- src/parser/markdown.cpp: paragraphs, headings, block quotes, rules, footnotes, images and html
-- elements.
pub mod Goes
pub mod Progress
pub mod Single
pub mod Quotes
use lingdong.Prelude.{
  ℕ, zero, suc, ◌+◌, ◌-◌, Bool, true, false, not, ◌&&◌, ◌||◌, List, [], ◌∷◌, ◌++◌, Bytes, codes, at,
  at_view, at_index, set, substr, substr_from, scan, length, drop, size_sub, bytes_eq, is_empty,
  Option, none, some, Result, ok, ◌>>=◌, ltb, leb, ◌==◌, if◌then◌else◌,
}
use lingdong.Prelude.Map.{insert}
use lingdong.Strings.{is_space, last_kept, view_strip_empty}
use lingdong.Markdown.Document.{
  Paragraph, new_paragraph, Markdown, heading, paragraph, block_quote, horizontal_rule, image,
  html_element, push_element, ParseResult, make, Library,
}
use lingdong.Markdown.Inline.{scan_to, parse_line}
use lingdong.Markdown.Lists.{is_ordered_item, parse_itemlist, parse_ordered_itemlist}

-- What a block parser returns.
abbrev pub Parsed : Type 0
Parsed = Result (ParseResult × Markdown)

abbrev pub all_bytes : (ℕ → Bool) → Bytes → Bool
all_bytes test [] = true
all_bytes test (c ∷ s) = test c && all_bytes test s

-- The lines `> …` from `line_idx` on without their marks, where they end, and what
-- `last_line = lines.at(line_idx)` has written over the first line of the quote.
unfoldable pub quote_lines : List Bytes → ℕ → Bytes → Result (List Bytes × ℕ × Bytes)
quote_lines [] line_idx last = ok ([], line_idx, last)
quote_lines (l ∷ ls) line_idx last = do
  c ← at l 0
  if not (c == b'>') then ok ([], line_idx, l) else (do
    s ← substr l 1 (size_sub (length l) 1)
    (rest, end, last') ← quote_lines ls (line_idx + 1) l
    ok (s ∷ rest, end, last'))

-- `while (!test(view[idx++]) && idx < view.length()) {}`, on what stands from `idx` on.
unfoldable pub skip_past : (ℕ → Bool) → Bytes → ℕ → ℕ
skip_past test [] idx = idx
skip_past test (c ∷ s) idx = if test c then idx + 1 else skip_past test s (idx + 1)

-- The checks of `parse_html_element`, on the stripped line: the name of the tag, or `none` where
-- the line is no single element.
unfoldable pub html_tag : Bytes → Result (Option Bytes)
html_tag view =
    let len = length view in
    let named = skip_past is_space (drop 1 view) 1 in
    let inside = skip_past (λ c. c == b'>') (drop named view) named in
    let behind = skip_past (λ c. c == b'<') (drop inside view) inside in
    if leb len 4 then ok none else (do
      last ← at_view view (len - 1)
      if not (last == b'>') then ok none else if named == len then ok none else (do
        tag_name ← substr view 1 (size_sub named 2)
        if inside == len then ok none else if behind == len then ok none else (do
          slash ← at_view view behind
          if not (slash == b'/') then ok none else (do
            end_tag_name ← substr view (behind + 1) (size_sub (size_sub len behind) 2)
            ok (if bytes_eq tag_name end_tag_name then some tag_name else none)))))

-- The checks of `parse_footnote` on the line: the id and the text, or `none`.
unfoldable pub footnote_parts : Bytes → Result (Option (Bytes × Bytes))
footnote_parts line =
    let idx = scan_to b']' line 2 in
    if ltb (length line) 4 then ok none else (do
      mark ← at line 1
      if not (mark == b'^') || ltb idx 3 || idx == length line || idx + 1 == length line
          then ok none
          else (do
            colon ← at line (idx + 1)
            if not (colon == b':') then ok none else (do
              id ← substr line 2 (idx - 2)
              text ← substr_from line (idx + 2)
              ok (some (id, text)))))

module _ (lib : Library) where
  -- `parse_paragraph()`.
  unfoldable pub parse_paragraph : Markdown → Parsed
  parse_paragraph md = do
    line ← at_index md.lines md.last_line_idx
    (done, p, md') ← parse_line lib line (new_paragraph false) md
    ok (
      make 0 (md.last_line_idx + 1),
      if done && not (is_empty p.blocks) then push_element md' (paragraph p) else md',
    )

  unfoldable pub parse_default : Markdown → Parsed
  parse_default md = do
    line ← at_index md.lines md.last_line_idx
    if is_ordered_item line then parse_ordered_itemlist lib md else parse_paragraph md

  unfoldable pub parse_heading : Markdown → Parsed
  parse_heading md = do
    line ← at_index md.lines md.last_line_idx
    let level = scan (λ c. not (c == b'#')) (drop 1 line) 1
    let title_start = scan (λ c. not (is_space c)) (drop level line) level
    let title_end = last_kept line title_start (length line - 1)
    title ← substr line title_start (size_sub (title_end + 1) title_start)
    (done, p, md') ← parse_line lib title (new_paragraph true) md
    ok (make 0 (md.last_line_idx + 1), push_element md' (heading level p))

  -- The last loop of `parse_blockquote`: a line that does not parse keeps its place.
  unfoldable pub parse_quotes : List Bytes → Markdown → Result (List Paragraph × Markdown)
  parse_quotes [] md = ok ([], md)
  parse_quotes (l ∷ ls) md = do
    (done, p, md') ← parse_line lib l (new_paragraph false) md
    (ps, md'') ← parse_quotes ls md'
    ok (p ∷ ps, md'')

  unfoldable pub parse_blockquote : Markdown → Parsed
  parse_blockquote md = do
    line ← at_index md.lines md.last_line_idx
    first ← substr line 1 (size_sub (length line) 1)
    (rest, end, last) ←
        quote_lines (drop (md.last_line_idx + 1) md.lines) (md.last_line_idx + 1) line
    (ps, md') ←
        parse_quotes (first ∷ rest) (record md { lines = set md.lines md.last_line_idx last })
    ok (make 0 end, push_element md' (block_quote ps))

  unfoldable pub parse_horizontal_rule : Markdown → Parsed
  parse_horizontal_rule md = ok (make 0 (md.last_line_idx + 1), push_element md horizontal_rule)

  unfoldable pub parse_dash_prefix_line : Markdown → Parsed
  parse_dash_prefix_line md = do
    line ← at_index md.lines md.last_line_idx
    if leb 3 (length line) && all_bytes (λ c. c == b'-') line
        then parse_horizontal_rule md
        else parse_itemlist lib md

  unfoldable pub parse_footnote : Markdown → Parsed
  parse_footnote md = do
    line ← at_index md.lines md.last_line_idx
    parts ← footnote_parts line
    elim parts [
      | none ↦ parse_default md
      | some (id, s) ↦ do
        (done, p, md') ← parse_line lib s (new_paragraph true) md
        ok (make 0 (md.last_line_idx + 1), record md' { footnotes = insert id p md'.footnotes })
    ]

  unfoldable pub parse_html_element : Markdown → Parsed
  parse_html_element md = do
    line ← at_index md.lines md.last_line_idx
    tag ← html_tag (view_strip_empty line)
    elim tag [
      | none ↦ parse_default md
      | some name ↦ ok (
        make 0 (md.last_line_idx + 1),
        push_element md (html_element name (view_strip_empty line)),
      )
    ]

  -- The alternative text and the width, where the text has two parts.
  unfoldable pub alt_parts : Bytes → Bytes × Bytes
  alt_parts alt = elim (lib.str_split alt b'|') [ a ∷ w ∷ [] ↦ (a, w) | _ ↦ (alt, []) ]

  unfoldable pub parse_image : Markdown → Parsed
  parse_image md = do
    line ← at_index md.lines md.last_line_idx
    first ← at line 0
    second ← at line 1
    let idx = scan_to b']' line 2
    if not (first == b'!') || not (second == b'[')
        then parse_default md
        else if leb (size_sub (length line) 3) idx
        then ok (make 2 md.last_line_idx, md)
        else (do
          paren ← at line (idx + 1)
          last ← at line (size_sub (length line) 1)
          if not (paren == b'(') || not (last == b')')
              then ok (make 2 md.last_line_idx, md)
              else (do
                alt ← if idx == length line then ok [] else substr line 2 (size_sub idx 2)
                uri ← substr line (idx + 2) (size_sub (size_sub (length line) 1) (idx + 2))
                let (alt_text, img_width) = alt_parts alt
                ok (
                  make 0 (md.last_line_idx + 1),
                  push_element md
                      (image alt_text uri (if is_empty img_width then codes "100%" else img_width)),
                )))
