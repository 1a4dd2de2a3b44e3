-- ===== src/Markdown/Witnesses.antt =====
-- The theorems on src/parser/markdown.cpp at concrete inputs.
use lingdong.Prelude.{
  ◌≡◌, ◌≢◌, ℕ, ◌+◌, ◌⊎◌, substr, size_sub, scan, drop, refl, inl, true, false, List, [], ◌∷◌, ◌++◌,
  All, Bytes, codes, ok, fail, no_fuel, Ends, Returns, Anything, arith,
}
use lingdong.Markdown.Document.{
  Markdown, Paragraph, new_paragraph, push_block, text, table, left, moved,
}
use lingdong.Markdown.Document.Frame.{IsShaped}
use lingdong.Markdown.Inline.{parse_line, is_text_end, try_parse_text}
use lingdong.Markdown.Inline.Progress.{parse_line-Returns}
use lingdong.Markdown.Inline.Nesting.{Marked, try_parse_text-Marked}
use lingdong.Markdown.Parser.{parse_str, parse_block, get_lines, new_markdown}
use lingdong.Markdown.Parser.Whole.{
  TiledWhole, MovesOn, parse_block-MovesOn, parse_str-ne-no_fuel, parse_str-Whole,
  parse_str-IsShaped,
}
use lingdong.Markdown.Html.{to_html}
use lingdong.Prelude.Decides.{Decides}
use lingdong.Markdown.Html.Returning.{HasLastRow, to_html-parse_str}
use lingdong.Markdown.Parser.Tests.{runs, sample_library}

abbrev nested_list : Bytes
nested_list = codes "---\n---\n- a\n  - b"

parse_str-ne-no_fuel_example : parse_str sample_library nested_list ≢ fail no_fuel
parse_str-ne-no_fuel_example = parse_str-ne-no_fuel sample_library nested_list

-- A document with a table, and what the parser makes of it.
abbrev table_text : Bytes
table_text = codes "---\n---\n|t|\n|--|\n|x|"

abbrev cell : Paragraph
cell = push_block (new_paragraph false) (text (codes "x"))

abbrev table_document : Markdown
table_document = record new_markdown {
  lines = get_lines [] table_text;
  body_start_line_idx = 2;
  last_line_idx = 5;
  elements =
      table (record {
        col_title_vec = codes "t" ∷ [];
        col_alignment_vec = left ∷ [];
        col_row_vec = (cell ∷ []) ∷ [];
      })
      ∷ [];
  paragraphs = cell ∷ [];
}

table_parses : parse_str sample_library table_text ≡ ok (true, table_document)
unfolding runs
table_parses = refl

parse_str-Whole_example :
    TiledWhole sample_library
      (record new_markdown { lines = get_lines [] table_text })
      table_document
parse_str-Whole_example = parse_str-Whole sample_library table_text table_parses

parse_str-IsShaped_example : All IsShaped table_document.elements
parse_str-IsShaped_example = parse_str-IsShaped sample_library table_text true table_parses

-- A document of the lines, before its first line.
abbrev doc : List Bytes → Markdown
doc lines = record new_markdown { lines = lines }

parse_block-MovesOn_example :
    Ends
      (MovesOn (doc (codes "# a" ∷ codes "b" ∷ [])))
      (parse_block sample_library b'#' (doc (codes "# a" ∷ codes "b" ∷ [])))
unfolding runs
parse_block-MovesOn_example =
    parse_block-MovesOn sample_library (doc (codes "# a" ∷ codes "b" ∷ [])) (codes "# a") b'#' refl
      refl

parse_line-Returns_example :
    Returns Anything
      (parse_line sample_library (codes "a [b](c) `d") (new_paragraph false) new_markdown)
unfolding runs
parse_line-Returns_example =
    parse_line-Returns sample_library (codes "a [b](c) `d") (new_paragraph false) new_markdown
      (inl (omega arith, λ e. ground (arith, e)))

abbrev emphasis : Paragraph
emphasis = push_block (new_paragraph false) (text (codes "a<em>b</em>"))

emphasis_parses : try_parse_text (codes "a*b*") 0 (new_paragraph false) ≡ ok (moved 4, emphasis)
unfolding runs
emphasis_parses = refl

try_parse_text-Marked_example :
    (view out : Bytes) × (stack : List ℕ) × (substr (codes "a*b*") 0 (size_sub 4 0) ≡ ok view)
    × ((moved 4).next_pos ≡ scan is_text_end (drop (0 + 1) (codes "a*b*")) (0 + 1))
    × (emphasis.blocks ≡ [] ++ text out ∷ [])
    × Marked [] view out stack
    × (((moved 4).status ≡ 0) × (stack ≡ []) ⊎ ((moved 4).status ≡ 2) × (stack ≢ []))
try_parse_text-Marked_example =
    try_parse_text-Marked (codes "a*b*") 0 (new_paragraph false) emphasis (moved 4) emphasis_parses

abbrev quotes : Markdown
quotes = doc (codes ">a" ∷ codes ">b" ∷ codes "c" ∷ [])

to_html-parse_str_example :
    Decides (All HasLastRow table_document.elements) (to_html sample_library table_document)
to_html-parse_str_example = to_html-parse_str sample_library table_text true table_parses
