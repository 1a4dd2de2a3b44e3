-- ===== src/Markdown/Html/Tables.antt =====
-- src/parser/markdown.cpp: which tables `Table::to_html` can print.
use lingdong.Prelude.{
  ◌≤◌, ◌≡◌, refl, inl, inr, List, [], ◌∷◌, Bytes, All, length, ok, bind-eq-ok, subst, arith,
}
use lingdong.Prelude.Decides.{Decides, Decides-bind, Decides-then, Decides-iff}
use lingdong.Markdown.Document.{Paragraph, AlignmentType, Table}
use lingdong.Markdown.Html.{head_html, cells_html, rows_html, table_html}

head-Decides :
    (titles : List Bytes) (aligns : List AlignmentType)
    → Decides (length titles ≤ length aligns) (head_html titles aligns)
unfolding head_html
head-Decides [] aligns = inl (omega arith, (([], []), refl))
head-Decides (title ∷ titles) [] = inr ((λ h. omega (arith, h)), refl)
head-Decides (title ∷ titles) (a ∷ aligns) =
    Decides-iff _ (λ h. omega (arith, h)) (λ h. omega (arith, h))
      (Decides-then (head_html titles aligns) _ (head-Decides titles aligns))

head-length :
    (titles : List Bytes) (aligns : List AlignmentType) {r : Bytes × List Bytes}
    → head_html titles aligns ≡ ok r
    → length r.1 ≡ length titles
unfolding head_html
head-length [] aligns e = ground (arith, e)
head-length (title ∷ titles) [] e = cc
head-length (title ∷ titles) (a ∷ aligns) e =
    let (value, first, e') = bind-eq-ok (head_html titles aligns) _ e in
    ground (arith, head-length titles aligns first, e')

cells-Decides :
    (names : List Bytes) (row : List Paragraph)
    → Decides (length names ≤ length row) (cells_html names row)
unfolding cells_html
cells-Decides [] row = inl (omega arith, (([], row), refl))
cells-Decides (name ∷ names) [] = inr ((λ h. omega (arith, h)), refl)
cells-Decides (name ∷ names) (p ∷ row) =
    Decides-iff _ (λ h. omega (arith, h)) (λ h. omega (arith, h))
      (Decides-then (cells_html names row) _ (cells-Decides names row))

rows-Decides :
    (names : List Bytes) (rows : List (List Paragraph))
    → Decides (All (λ row. length names ≤ length row) rows) (rows_html names rows)
unfolding rows_html
rows-Decides names [] = inl (tt, (([], []), refl))
rows-Decides names (row ∷ rows) =
    Decides-bind (cells_html names row) _ (cells-Decides names row)
      (λ value e. Decides-then (rows_html names rows) _ (rows-Decides names rows))

-- An alignment for each title, and a cell for each title in each row.
abbrev pub IsWhole : Table → Type 0
IsWhole t =
    (length t.col_title_vec ≤ length t.col_alignment_vec)
    × All (λ row. length t.col_title_vec ≤ length row) t.col_row_vec

pub table-Decides : (t : Table) → Decides (IsWhole t) (table_html t)
unfolding table_html
table-Decides t =
    Decides-bind (head_html t.col_title_vec t.col_alignment_vec) _
      (head-Decides t.col_title_vec t.col_alignment_vec)
      (λ value e.
        let same = head-length t.col_title_vec t.col_alignment_vec e in
        Decides-then (rows_html value.1 t.col_row_vec) _ (
          subst
            (λ cols.
              Decides (All (λ row. cols ≤ length row) t.col_row_vec)
                (rows_html value.1 t.col_row_vec))
            same (rows-Decides value.1 t.col_row_vec)))
