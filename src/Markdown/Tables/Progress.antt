-- ===== src/Markdown/Tables/Progress.antt =====
-- src/parser/markdown.cpp: a table ends, and goes on by two lines at least.
use lingdong.Prelude.{
  ℕ, ◌+◌, ◌≤◌, ◌<◌, ◌≡◌, refl, sym, subst, ◌∙◌, inl, inr, Bool, true, false, List, [], ◌∷◌, ◌++◌,
  map, Bytes, length, length-drop, length-map, drop, at_view-Ends, at_index, at_index-Ends,
  size_sub, ok, ◌>>=◌, Ends, Ends-bind, Ends-map, Anything, ◌==◌, arith, Bool-cases,
}
use lingdong.Strings.{view_strip_empty}
use lingdong.Markdown.Document.{
  Paragraph, new_paragraph, Markdown, make, table, push_element, Library,
}
use lingdong.Markdown.Document.Frame.{Reads-refl, Reads-paragraphs, IsFull, IsShaped}
use lingdong.Markdown.Inline.{parse_line}
use lingdong.Markdown.Inline.Ends.{Keeps, parse_line-Keeps}
use lingdong.Markdown.Blocks.Goes.{BlockGoes, BlockGoes-push, BlockGoes-none}
use lingdong.Markdown.Blocks.Progress.{at_line-Goes, parse_default-Goes}
use lingdong.Markdown.Tables.{
  has_bars, cells, row_cells, parse_cells, parse_rows, parse_body, parse_table, cell_alignment,
}

has_bars-Ends : (view : Bytes) → Ends Anything (has_bars view)
unfolding has_bars
has_bars-Ends view =
    ground (arith, at_view-Ends view 0, at_view-Ends view (size_sub (length view) 1))

cells-Ends : (started : Bool) (cell s : Bytes) → Ends Anything (cells started cell s)
unfolding cells
cells-Ends false cell [] = tt
cells-Ends true cell [] = tt
cells-Ends started cell (c ∷ s) = elim (Bool-cases (c == b'|')) [
  | inl e ↦
      rw (e, cells)
        (Ends-bind Anything Anything (cells false [] s) _ (cells-Ends false [] s) (λ _ _ _. tt))
  | inr e ↦ rw (e, cells) (cells-Ends true (cell ++ c ∷ []) s)
]

IsFull-cons :
    (cols : ℕ) (r : List Paragraph) (rows : List (List Paragraph))
    → length r ≡ cols
    → IsFull cols rows
    → IsFull cols (r ∷ rows)
IsFull-cons cols r [] e h = tt
IsFull-cons cols r (s ∷ rows) e h = (e, h)

Keeps-trans : (a b c : Markdown) → Keeps a b → Keeps b c → Keeps a c
Keeps-trans a b c h k = ground arith

module _ (lib : Library) where
  parse_cells-Keeps :
      (texts : List Bytes) (md : Markdown) → Ends (λ r. Keeps md r.1) (parse_cells lib texts md)
  unfolding parse_cells
  parse_cells-Keeps [] md = refl
  parse_cells-Keeps (t ∷ ts) md =
      Ends-bind (λ r. Keeps md r.2) _ (parse_line lib t (new_paragraph false) md) _
        (parse_line-Keeps lib t (new_paragraph false) md)
        (λ r _ k.
          Ends-bind (λ q. Keeps r.2 q.1) _ (parse_cells lib ts r.2) _ (parse_cells-Keeps ts r.2)
            (λ q _ k'. Keeps-trans md r.2 q.1 k k'))

  -- The rows end before line `hi`.
  abbrev Rows : ℕ → ℕ → ℕ → Markdown → List (List Paragraph) × ℕ × Markdown → Type 0
  Rows cols lo hi md r = (lo ≤ r.1) × (r.1 ≤ hi) × Keeps md r.2 × IsFull cols r.0

  parse_rows-Ends :
      (cols : ℕ) (ls : List Bytes) (idx : ℕ) (md : Markdown)
      → Ends (Rows cols idx (idx + length ls) md) (parse_rows lib cols ls idx md)
  unfolding parse_rows
  parse_rows-Ends cols [] idx md = (omega arith, omega arith, refl, tt)
  parse_rows-Ends cols (l ∷ ls) idx md =
      let view = view_strip_empty l in
      let goal = Rows cols idx (idx + length (l ∷ ls)) md in
      Ends-bind Anything goal (has_bars view) _ (has_bars-Ends view) (elim [
        | false ↦ λ _ _. (omega arith, omega arith, refl, tt)
        | true ↦ λ _ _.
            Ends-bind Anything goal (row_cells view) _ (cells-Ends false [] (drop 1 view))
              (λ texts _ _.
                Ends-bind (λ r. Keeps md r.1) goal (parse_cells lib texts md) _
                  (parse_cells-Keeps texts md)
                  (λ r _ k. elim (Bool-cases (length r.0 == cols)) [
                    | inr e ↦ rw e (omega arith, omega arith, k, tt)
                    | inl e ↦ rw e (
                        Ends-bind (Rows cols (idx + 1) (idx + 1 + length ls) r.1) goal
                          (parse_rows lib cols ls (idx + 1) r.1) _
                          (parse_rows-Ends cols ls (idx + 1) r.1)
                          (λ q _ b. (
                            omega arith,
                            omega arith,
                            Keeps-trans md r.1 q.2 k b.2,
                            IsFull-cons cols r.0 q.0 (ground arith) b.3,
                          )))
                  ]))
      ])

  shaped :
      (titles aligns : List Bytes) (rows : List (List Paragraph))
      → length titles ≡ length aligns
      → IsFull (length titles) rows
      → IsShaped (
          table (record {
            col_title_vec = map view_strip_empty titles;
            col_alignment_vec = map (λ s. cell_alignment (view_strip_empty s)) aligns;
            col_row_vec = rows;
          }))
  shaped titles aligns rows same full =
      let n = length-map titles view_strip_empty in
      (
        n ∙ same ∙ sym (length-map aligns (λ s. cell_alignment (view_strip_empty s))),
        subst (λ cols. IsFull cols rows) (sym n) full,
      )

  parse_body-Ends :
      (cols : ℕ) (ls : List Bytes) (idx : ℕ) (md : Markdown)
      → Ends
          (λ r. Rows cols idx (idx + length ls) md r × (0 < length ls))
          (parse_body lib cols ls idx md)
  unfolding parse_body
  parse_body-Ends cols [] idx md = tt
  parse_body-Ends cols (l ∷ ls) idx md =
      Ends-map (Rows cols idx (idx + length (l ∷ ls)) md) _ (parse_rows lib cols (l ∷ ls) idx md)
        (parse_rows-Ends cols (l ∷ ls) idx md) (λ r b. (b, omega arith))

  pub parse_table-Goes : (md : Markdown) → Ends (BlockGoes md) (parse_table lib md)
  unfolding parse_table
  parse_table-Goes md = at_line-Goes lib md _ (λ line _ m.
      Ends-bind Anything (BlockGoes md) (has_bars (view_strip_empty line)) _
        (has_bars-Ends (view_strip_empty line))
        (elim [
          | false ↦ λ _ _. parse_default-Goes lib md
          | true ↦ λ _ _.
              Ends-bind Anything (BlockGoes md) (row_cells (view_strip_empty line)) _
                (cells-Ends false [] (drop 1 (view_strip_empty line)))
                (λ titles _ _.
                  Ends-bind (λ _. md.last_line_idx + 1 < length md.lines) (BlockGoes md)
                    (at_index md.lines (md.last_line_idx + 1)) _
                    (at_index-Ends md.lines (md.last_line_idx + 1))
                    (λ marks _ _.
                      Ends-bind Anything (BlockGoes md) (has_bars (view_strip_empty marks)) _
                        (has_bars-Ends (view_strip_empty marks))
                        (elim [
                          | false ↦ λ _ _. parse_default-Goes lib md
                          | true ↦ λ _ _.
                              Ends-bind Anything (BlockGoes md) (row_cells (view_strip_empty marks))
                                _ (cells-Ends false [] (drop 1 (view_strip_empty marks)))
                                (λ aligns _ _. elim (Bool-cases (length titles == length aligns)) [
                                  | inr e ↦ rw e (
                                      BlockGoes-none 2 (Reads-refl md md.last_line_idx)
                                        (omega arith) (inl (omega arith)))
                                  | inl e ↦ rw e (body titles aligns (ground arith))
                                ])
                        ])))
        ]))
    where
      body :
          (titles aligns : List Bytes)
          → length titles ≡ length aligns
          → Ends (BlockGoes md) (
              parse_body lib
                (length titles)
                (drop (md.last_line_idx + 2) md.lines)
                (md.last_line_idx + 2)
                (record md { last_line_idx = md.last_line_idx + 2 })
              >>= λ r. ok (
                make 0 r.1,
                push_element
                    (record r.2 { last_line_idx = r.1 })
                    (table (record {
                      col_title_vec = map view_strip_empty titles;
                      col_alignment_vec = map (λ s. cell_alignment (view_strip_empty s)) aligns;
                      col_row_vec = r.0;
                    })),
              ))
      body titles aligns same =
          let cols = length titles in
          let idx = md.last_line_idx + 2 in
          let rest = drop idx md.lines in
          let start = record md { last_line_idx = idx } in
          Ends-bind _ (BlockGoes md) (parse_body lib cols rest idx start) _
            (parse_body-Ends cols rest idx start)
            (λ r _ b.
              let k = Reads-paragraphs {md = start} {md' = r.2} r.1 b.0.2 in
              BlockGoes-push {md' = record r.2 { last_line_idx = r.1 }} 0 (table _)
                (shaped titles aligns r.0 same b.0.3)
                (record {
                  size = k.size;
                  unread = k.unread;
                  elements = k.elements;
                  body_start = k.body_start;
                })
                (omega (arith, b.0.1, b.1, length-drop idx md.lines)) (inr (omega (arith, b.0.0))))
