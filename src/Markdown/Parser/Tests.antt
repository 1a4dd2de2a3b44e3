-- ===== src/Markdown/Parser/Tests.antt =====
-- Runs of the parser of src/parser/markdown.cpp on small documents.
use lingdong.Prelude.{
  ℕ, ◌≡◌, refl, Bool, true, false, List, [], ◌∷◌, ◌++◌, Bytes, codes, at, at_view, undefined,
  substr, substr_from, at_index, scan, size_sub, find, bytes_eq, Result, ok, fail, out_of_range,
  ◌>>=◌, ◌==◌, if◌then◌else◌, is_empty, String,
}
use lingdong.Prelude.Map
use lingdong.Strings.{view_strip_empty, last_kept}
use lingdong.Markdown.Document.{
  Markdown, Element, Paragraph, Library, heading, paragraph, lists, item_list, no_items, add_item,
  no_child, child, text, inline_code, new_paragraph, push_block,
}
use lingdong.Markdown.Inline.Marks.{marks}
use lingdong.Markdown.Inline.{
  ends_without, try_parse_text, try_parse_footnote_ref, try_parse_uri, try_parse_link,
  try_parse_code, try_parse_inline_latex, parse_at, parse_fragments, alignment, parse_line,
}
use lingdong.Markdown.Lists.{
  is_ordered_item, dash_text, ordered_text, ordered_kind, sublist, next_line, item_round,
  parse_itemlist_from, parse_ordered_itemlist_from, parse_itemlist, parse_ordered_itemlist,
}
use lingdong.Markdown.Blocks.{
  quote_lines, skip_past, html_tag, footnote_parts, parse_paragraph, parse_default, parse_heading,
  parse_quotes, parse_blockquote, parse_horizontal_rule, parse_dash_prefix_line, parse_footnote,
  parse_html_element, alt_parts, parse_image,
}
use lingdong.Markdown.Fences.{
  scan_code, ends_in_dollars, scan_latex, parse_attrs, code_meta, parse_codeblock, parse_latex,
}
use lingdong.Markdown.Tables.{
  has_bars, cells, cell_alignment, parse_cells, parse_rows, parse_body, parse_table,
}
use lingdong.Markdown.Metadata.{skip_blank, view_data, metadata_line, read_metadata, parse_metadata}
use lingdong.Markdown.Parser.{get_lines, parse_block, parse_blocks, parse, parse_str, body_lines}

-- Cut at a byte, with empty parts or without them, for the inputs below.
unfoldable pub split_at : Bytes → Bytes → ℕ → List Bytes
split_at part [] c = part ∷ []
split_at part (x ∷ s) c = elim (x == c) [
  | true ↦ part ∷ split_at [] s c
  | false ↦ split_at (part ++ x ∷ []) s c
]

unfoldable pub non_blank : List Bytes → List Bytes
non_blank [] = []
non_blank (s ∷ ss) =
    let rest = non_blank ss in if is_empty (view_strip_empty s) then rest else s ∷ rest

unfoldable pub join : List Bytes → Bytes → Bytes
join [] sep = []
join (s ∷ []) sep = s
join (s ∷ t ∷ ss) sep = s ++ sep ++ join (t ∷ ss) sep

-- Concrete functions for the libraries' ones.
abbrev pub sample_library : Library
sample_library = record {
  str_split = λ s c. split_at [] s c;
  str_split_skip = λ s c. non_blank (split_at [] s c);
  str_join = join;
  html_escape = λ s. s;
  date_convert = λ s. s;
  to_lower = λ s. s;
}

-- All that a run calls.
unfoldable pub runs : Unit {0}
unfolding parse_str parse parse_blocks parse_block get_lines parse_metadata read_metadata
    metadata_line view_data skip_blank parse_table parse_body parse_rows parse_cells cell_alignment
    cells has_bars parse_latex parse_codeblock code_meta parse_attrs scan_latex ends_in_dollars
    scan_code parse_image alt_parts parse_html_element parse_footnote parse_dash_prefix_line
    parse_horizontal_rule parse_blockquote parse_quotes parse_heading parse_default parse_paragraph
    footnote_parts html_tag skip_past quote_lines parse_ordered_itemlist parse_itemlist
    parse_ordered_itemlist_from parse_itemlist_from item_round next_line sublist ordered_kind
    ordered_text dash_text is_ordered_item parse_line alignment parse_fragments parse_at
    try_parse_inline_latex try_parse_code try_parse_link try_parse_uri try_parse_footnote_ref
    try_parse_text ends_without marks view_strip_empty last_kept at at_view substr substr_from
    at_index scan size_sub find bytes_eq Map.insert split_at non_blank join
runs = tt

parsed : String → Result (Bool × Markdown)
parsed s = parse_str sample_library (codes s)

elements : String → Result (List Element)
unfolding parsed
elements s = do (done, md) ← parsed s; ok md.elements

plain : Bool → String → Paragraph
plain unwrap s = push_block (new_paragraph unwrap) (text (codes s))

heading_test :
    elements "---\nid: a\n---\n## A **b**\nx `y`"
    ≡ ok (
        heading 2 (plain true "A <strong>b</strong>")
        ∷ paragraph (push_block (plain false "x ") (inline_code (codes "y")))
        ∷ [])
unfolding runs elements plain
heading_test = refl

list_test :
    elements "---\n---\n- a\n  - b\n- c\n"
    ≡ ok (
        lists (
          item_list false (
            add_item
              (add_item no_items
                (plain true "a")
                (child (item_list false (add_item no_items (plain true "b") no_child))))
              (plain true "c")
              no_child))
        ∷ [])
unfolding runs elements plain
list_test = refl

-- A nested list at the end of the document makes `lines.at` throw.
nested_list_at_end : parsed "---\n---\n- a\n  - b" ≡ fail out_of_range
unfolding runs parsed
nested_list_at_end = refl

-- So does a list in an ordered list before a blank line.
nested_list_before_blank : parsed "---\n---\n1. a\n   - b\n\nc" ≡ fail out_of_range
unfolding runs parsed
nested_list_before_blank = refl

-- And a table with no rows at the end of the document, and an unclosed head.
table_at_end : parsed "---\n---\n| a |\n|---|" ≡ fail out_of_range
unfolding runs parsed
table_at_end = refl

unclosed_head : parsed "---\nid: a\n" ≡ fail out_of_range
unfolding runs parsed
unclosed_head = refl

quote_test :
    (parsed "---\n---\n> a\n> b\nc" >>= λ r. ok (body_lines r.1))
    ≡ ok (codes "c" ∷ codes "> b" ∷ codes "c" ∷ [])
unfolding runs parsed body_lines
quote_test = refl

-- `[^` at the end of a line: the byte behind the line is read.
open_footnote : parsed "---\n---\na[^" ≡ fail undefined
unfolding runs parsed
open_footnote = refl

-- The line behind a table is read at its first byte, which it does not have here.
table_before_blank : parsed "---\n---\n|a|\n|--|\n|b|\n\nc" ≡ fail undefined
unfolding runs parsed
table_before_blank = refl
