-- ===== src/Markdown/Fences.antt =====
-- src/parser/markdown.cpp: blocks of code between fences, and formulas between `$$`.
pub mod Progress
pub mod Code
use lingdong.Prelude.{
  ℕ, zero, suc, ◌+◌, Bool, true, false, not, ◌&&◌, ◌||◌, List, [], ◌∷◌, ◌++◌, Bytes, codes, at_view,
  at_index, set, substr, length, take, drop, size_sub, bytes_eq, is_empty, Option, none, some,
  Result, ok, ◌>>=◌, ltb, leb, ◌==◌, if◌then◌else◌,
}
use lingdong.Strings.{view_strip_empty}
use lingdong.Markdown.Document.{
  Markdown, code_block, latex_block, push_element, ParseResult, make, Library,
}
use lingdong.Markdown.Blocks.{Parsed, parse_paragraph, parse_default}

-- The loop over the lines of code: whether the fence is closed, the lines, where the loop ends,
-- and what `last_line = lines.at(line_idx)` has written over the opening fence.
pub record CodeScan : Type 0 where
  pub closed : Bool
  pub code_lines : List Bytes
  pub line_idx : ℕ
  pub last : Bytes

abbrev pub fence : Bytes
fence = codes "```"

unfoldable pub scan_code : List Bytes → ℕ → Bytes → CodeScan
scan_code [] idx last = record { closed = false; code_lines = []; line_idx = idx; last = last }
scan_code (l ∷ ls) idx last =
    let r = scan_code ls (idx + 1) l in
    if bytes_eq l fence
    then record { closed = true; code_lines = []; line_idx = idx; last = l }
    else record r { code_lines = l ∷ r.code_lines }

-- The last two bytes of a view are `$$`.
unfoldable pub ends_in_dollars : Bytes → Result Bool
ends_in_dollars view =
    if leb 2 (length view)
    then (do
      a ← at_view view (size_sub (length view) 1)
      b ← at_view view (size_sub (length view) 2)
      ok (a == b'$' && b == b'$'))
    else ok false

-- The loop over the lines of a formula, up to the one that ends in `$$`: the lines behind the
-- first, and the index of the last.
unfoldable pub scan_latex : List Bytes → ℕ → Result (Option (List Bytes × ℕ))
scan_latex [] idx = ok none
scan_latex (l ∷ ls) idx =
    let view = view_strip_empty l in
    do
      last ← ends_in_dollars view
      if last
          then (do s ← substr view 0 (size_sub (length view) 2); ok (some (s ∷ [], idx)))
          else (do
            rest ← scan_latex ls (idx + 1)
            ok (elim rest [ none ↦ none | some (views, end) ↦ some (view ∷ views, end) ]))

module _ (lib : Library) where
  -- The attributes `key:value` of the opening fence; a part without a colon is dropped.
  unfoldable pub parse_attrs : List Bytes → List (Bytes × Bytes)
  parse_attrs [] = []
  parse_attrs (part ∷ parts) = elim (lib.str_split_skip part b':') [
    | k ∷ v ∷ more ↦ (k, v) ∷ parse_attrs parts
    | _ ↦ parse_attrs parts
  ]

  unfoldable pub code_meta : List Bytes → Bytes × List (Bytes × Bytes)
  code_meta [] = (codes "text", [])
  code_meta (lang ∷ parts) = (lang, parse_attrs parts)

  unfoldable pub parse_codeblock : Markdown → Parsed
  parse_codeblock md = do
    line ← at_index md.lines md.last_line_idx
    let fenced = leb 3 (length line) && bytes_eq (take 3 line) fence
    if not fenced then parse_paragraph lib md else (do
      meta ← substr line 3 (size_sub (length line) 3)
      let (lang, attrs) = code_meta (lib.str_split_skip meta b' ')
      let r = scan_code (drop (md.last_line_idx + 1) md.lines) (md.last_line_idx + 1) line
      let md' = record md { lines = set md.lines md.last_line_idx r.last }
      ok (
          if r.closed
          then (make 0 (r.line_idx + 1), push_element md' (code_block lang attrs r.code_lines))
          else (make 2 r.line_idx, md')))

  unfoldable pub parse_latex : Markdown → Parsed
  parse_latex md = do
    line ← at_index md.lines md.last_line_idx
    let view = view_strip_empty line
    let len = length view
    if ltb len 2 then parse_default lib md else (do
      a ← at_view view 0
      b ← at_view view 1
      single ← ends_in_dollars view
      if not (a == b'$' && b == b'$')
          then parse_default lib md
          else if ltb 4 len && single
          then (do
            content ← substr view 2 (size_sub len 4)
            ok (make 0 (md.last_line_idx + 1), push_element md (latex_block content)))
          else (do
            first ← substr view 2 (size_sub len 2)
            rest ← scan_latex (drop (md.last_line_idx + 1) md.lines) (md.last_line_idx + 1)
            elim rest [
              | none ↦ parse_default lib md
              | some (views, end) ↦ ok (
                make 0 (end + 1),
                push_element md (latex_block (lib.str_join (first ∷ views) (codes "\n"))),
              )
            ]))
