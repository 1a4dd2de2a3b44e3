-- ===== src/Markdown/Tables.antt =====
-- src/parser/markdown.cpp: tables.
pub mod Progress
pub mod Cells
use lingdong.Prelude.{
  ℕ, zero, suc, ◌+◌, Bool, true, false, not, ◌&&◌, ◌||◌, List, [], ◌∷◌, ◌++◌, map, Bytes, at_view,
  at_index, length, drop, size_sub, is_empty, Result, ok, fail, undefined, out_of_range, ◌>>=◌, ltb,
  leb, ◌==◌, if◌then◌else◌,
}
use lingdong.Strings.{view_strip_empty, byte}
use lingdong.Markdown.Document.{
  Paragraph, new_paragraph, AlignmentType, left, right, center, Table, Markdown, table,
  push_element, ParseResult, make, Library,
}
use lingdong.Markdown.Inline.{parse_line}
use lingdong.Markdown.Blocks.{Parsed, parse_default}

-- `view[0] == '|' && view[view.length() - 1] == '|'`.
unfoldable pub has_bars : Bytes → Result Bool
has_bars view = do
  first ← at_view view 0
  if not (first == b'|')
      then ok false
      else (do last ← at_view view (size_sub (length view) 1); ok (last == b'|'))

-- The loops that cut a line into its cells, from behind the first bar on; `started` says that
-- the inner loop runs, which would read on behind the line if no bar closed the cell.
unfoldable pub cells : Bool → Bytes → Bytes → Result (List Bytes)
cells false cell [] = ok []
cells true cell [] = fail undefined
cells started cell (c ∷ s) = elim (c == b'|') [
  | true ↦ do rest ← cells false [] s; ok (cell ∷ rest)
  | false ↦ cells true (cell ++ c ∷ []) s
]

abbrev pub row_cells : Bytes → Result (List Bytes)
row_cells view = cells false [] (drop 1 view)

abbrev pub last_byte : Bytes → ℕ
last_byte s = byte s (size_sub (length s) 1)

-- The alignment that a stripped cell of the second line says.
unfoldable pub cell_alignment : Bytes → AlignmentType
cell_alignment s =
    if ltb (length s) 3 || (not (byte s 0 == b':') && not (last_byte s == b':'))
    then left
    else if byte s 0 == b':'
    then (if last_byte s == b':' then center else left)
    else right

module _ (lib : Library) where
  -- The cells of a row as paragraphs; a cell that does not parse is dropped.
  unfoldable pub parse_cells : List Bytes → Markdown → Result (List Paragraph × Markdown)
  parse_cells [] md = ok ([], md)
  parse_cells (cell ∷ rest) md = do
    (done, p, md') ← parse_line lib cell (new_paragraph false) md
    (ps, md'') ← parse_cells rest md'
    ok (if done then p ∷ ps else ps, md'')

  -- The loop over the rows. A row with another number of cells than `cols` stays in the table and
  -- ends it, and its line is the next one to be parsed.
  unfoldable pub parse_rows :
      ℕ → List Bytes → ℕ → Markdown → Result (List (List Paragraph) × ℕ × Markdown)
  parse_rows cols [] idx md = ok ([], idx, md)
  parse_rows cols (l ∷ ls) idx md =
      let view = view_strip_empty l in
      do
        bars ← has_bars view
        if not bars then ok ([], idx, md) else (do
          texts ← row_cells view
          (row, md') ← parse_cells texts md
          if not (length row == cols) then ok (row ∷ [], idx, md') else (do
            (rows, end, md'') ← parse_rows cols ls (idx + 1) md'
            ok (row ∷ rows, end, md'')))

  -- The rows, where there is a line to begin with: the loop reads it before it tests the index.
  unfoldable pub parse_body :
      ℕ → List Bytes → ℕ → Markdown → Result (List (List Paragraph) × ℕ × Markdown)
  parse_body cols [] idx md = fail out_of_range
  parse_body cols (l ∷ ls) idx md = parse_rows cols (l ∷ ls) idx md

  unfoldable pub parse_table : Markdown → Parsed
  parse_table md = do
    line ← at_index md.lines md.last_line_idx
    title_bars ← has_bars (view_strip_empty line)
    if not title_bars then parse_default lib md else (do
      titles ← row_cells (view_strip_empty line)
      marks ← at_index md.lines (md.last_line_idx + 1)
      mark_bars ← has_bars (view_strip_empty marks)
      if not mark_bars then parse_default lib md else (do
        aligns ← row_cells (view_strip_empty marks)
        let idx = md.last_line_idx + 2
        if not (length titles == length aligns) then ok (make 2 md.last_line_idx, md) else (do
          (rows, end, md') ←
              parse_body (length titles) (drop idx md.lines) idx (record md { last_line_idx = idx })
          ok (
            make 0 end,
            push_element (record md' { last_line_idx = end })
                (table (record {
                  col_title_vec = map view_strip_empty titles;
                  col_alignment_vec = map (λ s. cell_alignment (view_strip_empty s)) aligns;
                  col_row_vec = rows;
                })),
          ))))
