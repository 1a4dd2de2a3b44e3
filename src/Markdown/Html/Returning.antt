-- ===== src/Markdown/Html/Returning.antt =====
-- src/parser/markdown.cpp: which documents `to_html` can print, and that of a parsed document.
use lingdong.Prelude.{ℕ, ◌≤◌, ◌≡◌, refl, List, [], ◌∷◌, Bytes, Bool, All, length, inl, ok, arith}
use lingdong.Markdown.Document.{
  Paragraph, Element, html_element, heading, paragraph, block_quote, lists, code_block, latex_block,
  horizontal_rule, image, table, Markdown, Library,
}
use lingdong.Markdown.Document.Frame.{IsFull, IsShaped}
use lingdong.Markdown.Html.{element_html, elements_html, to_html}
use lingdong.Prelude.Decides.{Decides, Decides-bind, Decides-then, Decides-iff}
use lingdong.Markdown.Html.Tables.{IsWhole, table-Decides}
use lingdong.Markdown.Parser.{parse_str}
use lingdong.Markdown.Parser.Whole.{parse_str-IsShaped}

abbrev pub IsPrintable : Element → Type 0
IsPrintable (table t) = IsWhole t
IsPrintable (html_element _ _) = Unit
IsPrintable (heading _ _) = Unit
IsPrintable (paragraph _) = Unit
IsPrintable (block_quote _) = Unit
IsPrintable (lists _) = Unit
IsPrintable (code_block _ _ _) = Unit
IsPrintable (latex_block _) = Unit
IsPrintable horizontal_rule = Unit
IsPrintable (image _ _ _) = Unit

-- The last row has a cell for each title.
abbrev pub EndsWell : ℕ → List (List Paragraph) → Type 0
EndsWell cols [] = Unit
EndsWell cols (row ∷ []) = cols ≤ length row
EndsWell cols (row ∷ next ∷ rows) = EndsWell cols (next ∷ rows)

abbrev pub HasLastRow : Element → Type 0
HasLastRow (table t) = EndsWell (length t.col_title_vec) t.col_row_vec
HasLastRow (html_element _ _) = Unit
HasLastRow (heading _ _) = Unit
HasLastRow (paragraph _) = Unit
HasLastRow (block_quote _) = Unit
HasLastRow (lists _) = Unit
HasLastRow (code_block _ _ _) = Unit
HasLastRow (latex_block _) = Unit
HasLastRow horizontal_rule = Unit
HasLastRow (image _ _ _) = Unit

EndsWell-All :
    (cols : ℕ) (rows : List (List Paragraph))
    → IsFull cols rows
    → EndsWell cols rows
    → All (λ row. cols ≤ length row) rows
EndsWell-All cols [] f e = tt
EndsWell-All cols (row ∷ []) f e = (e, tt)
EndsWell-All cols (row ∷ next ∷ rows) f e =
    (omega (arith, f.0), EndsWell-All cols (next ∷ rows) f.1 e)

All-EndsWell :
    (cols : ℕ) (rows : List (List Paragraph))
    → All (λ row. cols ≤ length row) rows
    → EndsWell cols rows
All-EndsWell cols [] h = tt
All-EndsWell cols (row ∷ []) h = h.0
All-EndsWell cols (row ∷ next ∷ rows) h = All-EndsWell cols (next ∷ rows) h.1

HasLastRow-IsPrintable : (e : Element) → IsShaped e → HasLastRow e → IsPrintable e
HasLastRow-IsPrintable (table t) s h =
    (omega (arith, s.0), EndsWell-All (length t.col_title_vec) t.col_row_vec s.1 h)
HasLastRow-IsPrintable (html_element _ _) s h = tt
HasLastRow-IsPrintable (heading _ _) s h = tt
HasLastRow-IsPrintable (paragraph _) s h = tt
HasLastRow-IsPrintable (block_quote _) s h = tt
HasLastRow-IsPrintable (lists _) s h = tt
HasLastRow-IsPrintable (code_block _ _ _) s h = tt
HasLastRow-IsPrintable (latex_block _) s h = tt
HasLastRow-IsPrintable horizontal_rule s h = tt
HasLastRow-IsPrintable (image _ _ _) s h = tt

IsPrintable-HasLastRow : (e : Element) → IsPrintable e → HasLastRow e
IsPrintable-HasLastRow (table t) h = All-EndsWell (length t.col_title_vec) t.col_row_vec h.1
IsPrintable-HasLastRow (html_element _ _) h = tt
IsPrintable-HasLastRow (heading _ _) h = tt
IsPrintable-HasLastRow (paragraph _) h = tt
IsPrintable-HasLastRow (block_quote _) h = tt
IsPrintable-HasLastRow (lists _) h = tt
IsPrintable-HasLastRow (code_block _ _ _) h = tt
IsPrintable-HasLastRow (latex_block _) h = tt
IsPrintable-HasLastRow horizontal_rule h = tt
IsPrintable-HasLastRow (image _ _ _) h = tt

All-map :
    (P Q R : Element → Type 0) (es : List Element)
    → ((e : Element) → P e → Q e → R e)
    → All P es
    → All Q es
    → All R es
All-map P Q R [] f p q = tt
All-map P Q R (e ∷ es) f p q = (f e p.0 q.0, All-map P Q R es f p.1 q.1)

module _ (lib : Library) where
  element-Decides : (e : Element) → Decides (IsPrintable e) (element_html lib e)
  unfolding element_html
  element-Decides (table t) = Decides-then _ _ (table-Decides t)
  element-Decides (html_element _ _) = inl (tt, (_, refl))
  element-Decides (heading _ _) = inl (tt, (_, refl))
  element-Decides (paragraph _) = inl (tt, (_, refl))
  element-Decides (block_quote _) = inl (tt, (_, refl))
  element-Decides (lists _) = inl (tt, (_, refl))
  element-Decides (code_block _ _ _) = inl (tt, (_, refl))
  element-Decides (latex_block _) = inl (tt, (_, refl))
  element-Decides horizontal_rule = inl (tt, (_, refl))
  element-Decides (image _ _ _) = inl (tt, (_, refl))

  elements-Decides : (es : List Element) → Decides (All IsPrintable es) (elements_html lib es)
  unfolding elements_html
  elements-Decides [] = inl (tt, (_, refl))
  elements-Decides (e ∷ es) =
      Decides-bind (element_html lib e) _ (element-Decides e)
        (λ value _. Decides-then (elements_html lib es) _ (elements-Decides es))

  -- What `parse_str` gives can be printed exactly if the last row of each of its tables has a cell
  -- for each title. Otherwise printing reads behind the end of that row.
  pub to_html-parse_str :
      (md_content : Bytes) (done : Bool) {md : Markdown}
      → parse_str lib md_content ≡ ok (done, md)
      → Decides (All HasLastRow md.elements) (to_html lib md)
  unfolding to_html
  to_html-parse_str md_content done {md} e =
      let shaped = parse_str-IsShaped lib md_content done e in
      Decides-iff _
        (λ h.
          All-map IsPrintable IsPrintable HasLastRow md.elements
            (λ el p q. IsPrintable-HasLastRow el p) h h)
        (λ h. All-map IsShaped HasLastRow IsPrintable md.elements HasLastRow-IsPrintable shaped h)
        (Decides-then (elements_html lib md.elements) _ (elements-Decides md.elements))
