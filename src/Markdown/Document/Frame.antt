-- ===== src/Markdown/Document/Frame.antt =====
-- src/parser/markdown.cpp writes over lines that it has read. What a step leaves alone.
use lingdong.Prelude.{
  ℕ, suc, ◌≤◌, ◌≡◌, refl, ap, ◌∙◌, List, [], ◌∷◌, Bytes, length, length-set, get_elem?,
  get_elem?-set_ne, set, arith,
}
use lingdong.Markdown.Document.{
  Markdown, Element, Paragraph, html_element, heading, paragraph, block_quote, lists, code_block,
  latex_block, horizontal_rule, image, table,
}

-- All rows but the last have `cols` cells.
abbrev pub IsFull : ℕ → List (List Paragraph) → Type 0
IsFull cols [] = Unit
IsFull cols (r ∷ []) = Unit
IsFull cols (r ∷ s ∷ rows) = (length r ≡ cols) × IsFull cols (s ∷ rows)

-- A table has an alignment for each title, and its rows are full but for the last.
abbrev pub IsShaped : Element → Type 0
IsShaped (table t) =
    (length t.col_title_vec ≡ length t.col_alignment_vec)
    × IsFull (length t.col_title_vec) t.col_row_vec
IsShaped (html_element _ _) = Unit
IsShaped (heading _ _) = Unit
IsShaped (paragraph _) = Unit
IsShaped (block_quote _) = Unit
IsShaped (lists _) = Unit
IsShaped (code_block _ _ _) = Unit
IsShaped (latex_block _) = Unit
IsShaped horizontal_rule = Unit
IsShaped (image _ _ _) = Unit

-- `md'` comes from `md` by reading lines before `next`: the lines from there on, the number of
-- lines and the elements are as before.
pub record Reads (md md' : Markdown) (next : ℕ) : Type 0 where
  pub size : length md'.lines ≡ length md.lines
  pub unread : (j : ℕ) → next ≤ j → get_elem? md'.lines j ≡ get_elem? md.lines j
  pub elements : md'.elements ≡ md.elements
  pub body_start : md'.body_start_line_idx ≡ md.body_start_line_idx

pub Reads-refl : (md : Markdown) (next : ℕ) → Reads md md next
Reads-refl md next = record {
  size = refl;
  unread = λ j h. refl;
  elements = refl;
  body_start = refl;
}

pub Reads-trans : {a b c : Markdown} {m n : ℕ} → Reads a b m → Reads b c n → m ≤ n → Reads a c n
Reads-trans r s h = record {
  size = s.size ∙ r.size;
  unread = λ j k. s.unread j k ∙ r.unread j (omega arith);
  elements = s.elements ∙ r.elements;
  body_start = s.body_start ∙ r.body_start;
}

-- A step that changes `paragraphs_` alone.
pub Reads-paragraphs :
    {md md' : Markdown} (next : ℕ)
    → md' ≡ record md { paragraphs = md'.paragraphs }
    → Reads md md' next
Reads-paragraphs next e = record {
  size = ap (λ (m : Markdown). length m.lines) e;
  unread = λ j h. ap (λ (m : Markdown). get_elem? m.lines j) e;
  elements = ap (λ (m : Markdown). m.elements) e;
  body_start = ap (λ (m : Markdown). m.body_start_line_idx) e;
}

-- A write over line `i`.
pub Reads-set :
    (md : Markdown) (i : ℕ) (line : Bytes)
    → Reads md (record md { lines = set md.lines i line }) (suc i)
Reads-set md i line = record {
  size = length-set md.lines i line;
  unread = λ j h. get_elem?-set_ne md.lines line (omega arith);
  elements = refl;
  body_start = refl;
}
