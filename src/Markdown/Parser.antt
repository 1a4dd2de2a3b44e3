-- ===== src/Markdown/Parser.antt =====
-- src/parser/markdown.cpp: `parse`, the loop over the blocks of the document.
pub mod Total
pub mod Whole
pub mod Tests
use lingdong.Prelude.{
  ℕ, zero, suc, ◌+◌, Bool, true, false, List, [], ◌∷◌, ◌++◌, Bytes, at, at_index, length, Option,
  none, some, Result, ok, fail, no_fuel, ◌>>=◌, ltb, ◌==◌, if◌then◌else◌, drop,
}
use lingdong.Markdown.Document.{Markdown, ParseResult, make, Library}
use lingdong.Markdown.Blocks.{
  Parsed, parse_heading, parse_blockquote, parse_dash_prefix_line, parse_image, parse_footnote,
  parse_html_element, parse_default,
}
use lingdong.Markdown.Fences.{parse_codeblock, parse_latex}
use lingdong.Markdown.Tables.{parse_table}
use lingdong.Markdown.Metadata.{parse_metadata}

-- The text behind the last newline.
abbrev pub last_piece : Bytes → List Bytes
last_piece [] = []
last_piece (c ∷ s) = (c ∷ s) ∷ []

-- `std::getline` until it fails: a newline at the end of the text begins no line.
unfoldable pub get_lines : Bytes → Bytes → List Bytes
get_lines line [] = last_piece line
get_lines line (c ∷ s) = elim (c == b'\n') [
  | true ↦ line ∷ get_lines [] s
  | false ↦ get_lines (line ++ c ∷ []) s
]

abbrev pub new_markdown : Markdown
new_markdown = record {
  lines = [];
  body_start_line_idx = 0;
  last_line_idx = 0;
  metadata = record { id = []; title = []; publish_date = []; tags = [] };
  elements = [];
  footnotes = [];
  paragraphs = [];
}

module _ (lib : Library) where
  -- The switch on the first byte of the line.
  unfoldable pub parse_block : ℕ → Markdown → Parsed
  parse_block c md =
      if c == b'#'
      then parse_heading lib md
      else if c == b'>'
      then parse_blockquote lib md
      else if c == b'`'
      then parse_codeblock lib md
      else if c == b'-'
      then parse_dash_prefix_line lib md
      else if c == b'|'
      then parse_table lib md
      else if c == b'!'
      then parse_image lib md
      else if c == b'$'
      then parse_latex lib md
      else if c == b'['
      then parse_footnote lib md
      else if c == b'<'
      then parse_html_element lib md
      else parse_default lib md

  -- The loop over the lines, with a bound on its rounds; `status` is that of the last result.
  unfoldable pub parse_blocks : ℕ → ℕ → Markdown → Result (ℕ × Markdown)
  parse_blocks zero status md = fail no_fuel
  parse_blocks (suc fuel) status md = elim (ltb md.last_line_idx (length md.lines)) [
    | false ↦ ok (status, md)
    | true ↦ do
      line ← at_index md.lines md.last_line_idx
      c ← at line 0
      (pr, md') ← parse_block c md
      elim (pr.status == 0) [
        | false ↦ ok (pr.status, md')
        | true ↦ parse_blocks fuel pr.status (record md' { last_line_idx = pr.next_line_idx })
      ]
  ]

  -- `parse`, on the lines that it has read. Each block is at least one line.
  unfoldable pub parse : Markdown → Result (Bool × Markdown)
  parse md = do
    (pr, md') ← parse_metadata lib md
    if pr.status == 2 then ok (false, md') else (do
      (status, md'') ←
          parse_blocks (suc (length md'.lines)) pr.status (record md' {
            body_start_line_idx = pr.next_line_idx;
            last_line_idx = pr.next_line_idx;
          })
      ok (status == 0, md''))

  unfoldable pub parse_str : Bytes → Result (Bool × Markdown)
  parse_str md_content = parse (record new_markdown { lines = get_lines [] md_content })

  -- `parse_file`, on what the file system has: nothing where the file cannot be opened.
  unfoldable pub parse_file : Option Bytes → Result (Bool × Markdown)
  parse_file none = ok (false, new_markdown)
  parse_file (some content) = parse_str content

-- `body_part`, before its lines are joined.
unfoldable pub body_lines : Markdown → List Bytes
body_lines md = drop md.body_start_line_idx md.lines
