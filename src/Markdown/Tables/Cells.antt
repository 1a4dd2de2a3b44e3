-- ===== src/Markdown/Tables/Cells.antt =====
-- src/parser/markdown.cpp, `parse_table`: the cells of a line, and the table without rows.
use lingdong.Prelude.{
  ◌+◌, ◌≡◌, refl, ap, ◌∙◌, Bool, true, false, List, [], ◌∷◌, ◌++◌, All, append_assoc, append-nil,
  Bytes, Lacks, length, drop, drop-ge, at_index, ok, fail, out_of_range, ◌>>=◌, ◌==◌, arith,
}
use lingdong.Strings.{view_strip_empty}
use lingdong.Markdown.Document.{Markdown, Library}
use lingdong.Markdown.Blocks.Progress.{HasLine}
use lingdong.Markdown.Tables.{has_bars, cells, row_cells, parse_body, parse_table}

-- The cells with a bar behind each.
abbrev pub barred : List Bytes → Bytes
barred [] = []
barred (s ∷ ss) = s ++ b'|' ∷ barred ss

cells-cell :
    (started : Bool) (cell s rest : Bytes)
    → Lacks b'|' s
    → cells started cell (s ++ b'|' ∷ rest)
      ≡ (do more ← cells false [] rest; ok ((cell ++ s) ∷ more))
unfolding cells
cells-cell false cell [] rest h = simp append-nil
cells-cell true cell [] rest h = simp append-nil
cells-cell started cell (c ∷ s) rest h =
    let e : (c == b'|') ≡ false = ground arith in
    rw (e, cells)
      (cells-cell true (cell ++ c ∷ []) s rest h.1
        ∙ ap (λ t. cells false [] rest >>= λ more. ok (t ∷ more)) (append_assoc cell (c ∷ []) s))

-- A line of cells without bars in them, with a bar before and behind each, is cut back into them.
pub row_cells-barred :
    (ss : List Bytes) → All (Lacks b'|') ss → row_cells (b'|' ∷ barred ss) ≡ ok ss
row_cells-barred [] h = unfold cells in refl
row_cells-barred (s ∷ ss) h =
    cells-cell false [] s (barred ss) h.0
    ∙ ap (λ m. m >>= λ more. ok (s ∷ more)) (row_cells-barred ss h.1)

-- A table whose second line is the last of the document makes `lines.at` throw.
pub parse_table-at_end :
    (lib : Library) (md : Markdown) (line marks : Bytes) (titles aligns : List Bytes)
    → HasLine md line
    → at_index md.lines (md.last_line_idx + 1) ≡ ok marks
    → length md.lines ≡ md.last_line_idx + 2
    → has_bars (view_strip_empty line) ≡ ok true
    → has_bars (view_strip_empty marks) ≡ ok true
    → row_cells (view_strip_empty line) ≡ ok titles
    → row_cells (view_strip_empty marks) ≡ ok aligns
    → length titles ≡ length aligns
    → parse_table lib md ≡ fail out_of_range
unfolding parse_table parse_body
parse_table-at_end lib md line marks titles aligns at_line at_marks last b b' t a same =
    let none_left : drop (md.last_line_idx + 2) md.lines ≡ [] =
      drop-ge (md.last_line_idx + 2) md.lines (omega arith) in
    let e : (length titles == length aligns) ≡ true = ground arith in
    rw (at_line, b, t, at_marks, b', a, e, none_left)
