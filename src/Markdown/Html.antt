-- ===== src/Markdown/Html.antt =====
-- src/parser/markdown.cpp: the `to_html` of the elements and of the document.
pub mod Tables
pub mod Returning
use lingdong.Prelude.{
  ℕ, Bool, true, false, ◌||◌, List, [], ◌∷◌, ◌++◌, Bytes, codes, concat, bytes_eq, map, Result, ok,
  fail, undefined, ◌>>=◌, is_empty, ltb, ◌==◌, if◌then◌else◌,
}
use lingdong.Prelude.Digits.{print_size}
use lingdong.Markdown.Document.{
  Fragment, inline_code, inline_latex, inline_link, inline_footnote_ref, text, Paragraph, ItemList,
  item_list, Items, no_items, add_item, Child, no_child, child, AlignmentType, left, right, center,
  Table, Element, html_element, heading, paragraph, block_quote, lists, code_block, latex_block,
  horizontal_rule, image, table, Markdown, Library,
}

-- `InlineFootnoteRef::to_html` and the other inline elements.
unfoldable pub fragment_html : Fragment → Bytes
fragment_html (inline_code code) = concat (codes "<code>" ∷ code ∷ codes "</code>" ∷ [])
fragment_html (inline_latex math) = concat (codes "$" ∷ math ∷ codes "$" ∷ [])
fragment_html (inline_link name uri) =
    concat (codes "<a href='" ∷ uri ∷ codes "'>" ∷ name ∷ codes "</a>" ∷ [])
fragment_html (inline_footnote_ref id) = concat (
    codes "<sup id=\"fnref:"
    ∷ id
    ∷ codes "\"><a href=\"#fn:"
    ∷ id
    ∷ codes "\" class=\"footnote\" rel=\"footnote\" role=\"doc-noteref\">["
    ∷ id
    ∷ codes "]</a></sup>"
    ∷ [])
fragment_html (text s) = s

-- `Paragraph::to_text`: joined by nothing.
unfoldable pub to_text : Paragraph → Bytes
to_text p = concat (map fragment_html p.blocks)

unfoldable pub paragraph_html : Paragraph → Bytes
paragraph_html p =
    if p.unwrap_html
    then to_text p
    else concat (
        codes "<p class=\"text-align-" ∷ p.text_align ∷ codes "\">" ∷ to_text p ∷ codes "</p>" ∷ [])

-- `std::string` compares its bytes, which are unsigned there.
unfoldable pub bytes_lt : Bytes → Bytes → Bool
bytes_lt [] [] = false
bytes_lt [] (y ∷ ys) = true
bytes_lt (x ∷ xs) [] = false
bytes_lt (x ∷ xs) (y ∷ ys) =
    let rest = bytes_lt xs ys in if ltb x y then true else if x == y then rest else false

-- The order in which `std::map` hands out its keys, for distinct keys.
module _ {ℓ} {V : Type ℓ} where
  unfoldable pub put_by_key : Bytes × V → List (Bytes × V) → List (Bytes × V)
  put_by_key e [] = e ∷ []
  put_by_key e (f ∷ m) =
      let rest = put_by_key e m in if bytes_lt f.0 e.0 then f ∷ rest else e ∷ f ∷ m

  unfoldable pub by_key : List (Bytes × V) → List (Bytes × V)
  by_key [] = []
  by_key (e ∷ m) = put_by_key e (by_key m)

-- The arrow is U+21A9, in UTF-8.
unfoldable pub footnote_html : Bytes × Paragraph → Bytes
footnote_html (id, p) = concat (
    codes "<li id=\"fn:"
    ∷ id
    ∷ codes "\"><p>"
    ∷ paragraph_html p
    ∷ codes "<a href=\"#fnref:"
    ∷ id
    ∷ codes "\" class=\"reversefootnote\" role=\"doc-backlink\">"
    ∷ (226 ∷ 134 ∷ 169 ∷ [])
    ∷ codes "</a></p></li>"
    ∷ [])

unfoldable pub alignment_name : AlignmentType → Bytes
alignment_name left = codes "left"
alignment_name right = codes "right"
alignment_name center = codes "center"

-- The loop over the titles. The vectors are read by `[]`, without a test of the index.
unfoldable pub head_html : List Bytes → List AlignmentType → Result (Bytes × List Bytes)
head_html [] aligns = ok ([], [])
head_html (title ∷ titles) [] = fail undefined
head_html (title ∷ titles) (a ∷ aligns) = do
  (thead, names) ← head_html titles aligns
  let name = alignment_name a
  ok (
    concat (
        codes "<th style=\"text-align: "
        ∷ name
        ∷ codes "\">"
        ∷ title
        ∷ codes "</th>\n"
        ∷ thead
        ∷ []),
    name ∷ names,
  )

-- The loop over the cells of a row, which sets their alignments.
unfoldable pub cells_html : List Bytes → List Paragraph → Result (Bytes × List Paragraph)
cells_html [] row = ok ([], row)
cells_html (name ∷ names) [] = fail undefined
cells_html (name ∷ names) (p ∷ row) = do
  (tr, row') ← cells_html names row
  let p' = record p { text_align = name }
  ok (
    concat (
        codes "<td style=\"text-align: "
        ∷ name
        ∷ codes "\">"
        ∷ paragraph_html p'
        ∷ codes "</td>\n"
        ∷ tr
        ∷ []),
    p' ∷ row',
  )

unfoldable pub rows_html :
    List Bytes → List (List Paragraph) → Result (Bytes × List (List Paragraph))
rows_html names [] = ok ([], [])
rows_html names (row ∷ rows) = do
  (tr, row') ← cells_html names row
  (tbody, rows') ← rows_html names rows
  ok (concat (codes "<tr>\n" ∷ tr ∷ codes "</tr>\n" ∷ tbody ∷ []), row' ∷ rows')

unfoldable pub table_html : Table → Result (Bytes × Table)
table_html t = do
  (thead, names) ← head_html t.col_title_vec t.col_alignment_vec
  (tbody, rows) ← rows_html names t.col_row_vec
  ok (
    concat (
        codes "<table class=\"table table-bordered\">\n<thead>\n<tr>"
        ∷ thead
        ∷ codes "</tr>\n</thead>\n<tbody>"
        ∷ tbody
        ∷ codes "</tbody>\n</table>"
        ∷ []),
    record t { col_row_vec = rows },
  )

unfoldable pub image_html : Bytes → Bytes → Bytes → Bytes
image_html alt uri width =
    let front =
      concat (codes "<img src='" ∷ uri ∷ codes "' title='" ∷ alt ∷ codes "' alt='" ∷ alt ∷ []) in
    if is_empty width
    then concat (front ∷ codes "'/>" ∷ [])
    else concat (front ∷ codes "' width='" ∷ width ∷ codes "'/>" ∷ [])

-- The languages whose code is escaped.
unfoldable pub is_escaped : Bytes → Bool
is_escaped ln =
    bytes_eq ln (codes "text") || bytes_eq ln (codes "html") || bytes_eq ln (codes "xml")

module _ (lib : Library) where
  unfoldable pub blank_list : List Bytes → Bytes
  blank_list ss = lib.str_join ss (b'\n' ∷ [])

  -- `ItemList::to_html` and `Item::to_html`. The lines of a list are in the order of its items.
  unfoldable mutual
    pub list_html : ItemList → Bytes
    list_html (item_list true items) =
        concat (codes "<ol>" ∷ blank_list (items_html items []) ∷ codes "</ol>" ∷ [])
    list_html (item_list false items) =
        concat (codes "<ul>" ∷ blank_list (items_html items []) ∷ codes "</ul>" ∷ [])

    pub items_html : Items → List Bytes → List Bytes
    items_html no_items behind = behind
    items_html (add_item items p c) behind =
        items_html items (concat (codes "<li>" ∷ item_html p c ∷ codes "</li>" ∷ []) ∷ behind)

    pub item_html : Paragraph → Child → Bytes
    item_html p no_child = paragraph_html p
    item_html p (child (item_list ordered no_items)) = paragraph_html p
    item_html p (child (item_list ordered (add_item items q c))) =
        blank_list (to_text p ∷ list_html (item_list ordered (add_item items q c)) ∷ [])

  -- `CodeBlock::to_html`, which keeps the escaped lines.
  unfoldable pub code_html : Bytes → List Bytes → Bytes × List Bytes
  code_html lang_name lines =
      let ln = lib.to_lower lang_name in
      let kept = if is_escaped ln then map lib.html_escape lines else lines in
      (
        concat (
            codes "<pre class=\"language-"
            ∷ ln
            ∷ codes "\"><code>"
            ∷ blank_list kept
            ∷ codes "</code></pre>"
            ∷ []),
        kept,
      )

  -- `to_html` of an element, and the element behind the call.
  unfoldable pub element_html : Element → Result (Bytes × Element)
  element_html (html_element tag html) = ok (html, html_element tag html)
  element_html (heading level p) = ok (
    concat (
        codes "<h"
        ∷ print_size level
        ∷ codes ">"
        ∷ paragraph_html p
        ∷ codes "</h"
        ∷ print_size level
        ∷ codes ">"
        ∷ []),
    heading level p,
  )
  element_html (paragraph p) = ok (paragraph_html p, paragraph p)
  element_html (block_quote ps) = ok (
    concat (codes "<blockquote>" ∷ blank_list (map paragraph_html ps) ∷ codes "</blockquote>" ∷ []),
    block_quote ps,
  )
  element_html (lists l) = ok (list_html l, lists l)
  element_html (code_block lang attrs lines) =
      let (html, kept) = code_html lang lines in ok (html, code_block lang attrs kept)
  element_html (latex_block content) = ok (
    concat (codes "<p style=\"text-align: center\">$$" ∷ content ∷ codes "$$</p>" ∷ []),
    latex_block content,
  )
  element_html horizontal_rule = ok (codes "<hr>", horizontal_rule)
  element_html (image alt uri width) = ok (image_html alt uri width, image alt uri width)
  element_html (table t) = do (html, t') ← table_html t; ok (html, table t')

  unfoldable pub elements_html : List Element → Result (List Bytes × List Element)
  elements_html [] = ok ([], [])
  elements_html (e ∷ es) = do
    (html, e') ← element_html e
    (htmls, es') ← elements_html es
    ok (html ∷ htmls, e' ∷ es')

  -- `Footnotes::to_html`: nothing where there are no footnotes.
  unfoldable pub footnotes_html : List (Bytes × Paragraph) → List Bytes
  footnotes_html [] = []
  footnotes_html (n ∷ notes) =
      concat (
        codes "<hr>\n<div class=\"footnotes\" role=\"doc-endnotes\"><ol>"
        ∷ blank_list (map footnote_html (by_key (n ∷ notes)))
        ∷ codes "</ol></div>"
        ∷ [])
      ∷ []

  unfoldable pub to_html : Markdown → Result (Bytes × Markdown)
  to_html md = do
    (lines, es) ← elements_html md.elements
    ok (blank_list (lines ++ footnotes_html md.footnotes), record md { elements = es })

-- `clear`. A block quote lets go of its paragraphs first, and the elements are dropped with it.
unfoldable pub clear : Markdown → Markdown
clear md = record md { elements = [] }
