-- ===== src/Markdown/Metadata.antt =====
-- src/parser/markdown.cpp: the head of the document between two lines `---`.
use lingdong.Prelude.{
  ℕ, ◌+◌, not, List, [], ◌∷◌, ◌++◌, map, Bytes, codes, take, drop, scan, find, bytes_eq, is_empty,
  none, some, Result, ok, fail, out_of_range, ◌>>=◌, if◌then◌else◌,
}
use lingdong.Strings.{is_space, view_strip_empty}
use lingdong.Markdown.Document.{Markdown, Metadata, make, Library}
use lingdong.Markdown.Blocks.{Parsed}

abbrev pub dashes : Bytes
dashes = codes "---"

-- The loop over blank lines: the first other line, stripped, and its index. Past the last line
-- `lines.at` throws.
unfoldable pub skip_blank : List Bytes → ℕ → Result (Bytes × ℕ)
skip_blank [] idx = fail out_of_range
skip_blank (l ∷ ls) idx =
    if is_empty (view_strip_empty l) then skip_blank ls (idx + 1) else ok (view_strip_empty l, idx)

-- What `v.data()` points to: `v` is a view of the line, and its text goes on to the line's end.
unfoldable pub view_data : Bytes → Bytes → Bytes
view_data v behind_colon =
    if is_empty v then [] else drop (scan (λ c. not (is_space c)) behind_colon 0) behind_colon

module _ (lib : Library) where
  abbrev set_field : Bytes → Bytes → Bytes → Metadata → Metadata
  set_field k v text m =
      if bytes_eq k (codes "id")
      then record m { id = v }
      else if bytes_eq k (codes "title")
      then record m { title = v }
      else if bytes_eq k (codes "date")
      then record m { publish_date = lib.date_convert text }
      else if bytes_eq k (codes "tags")
      then record m { tags = m.tags ++ map view_strip_empty (lib.str_split_skip v b',') }
      else m

  -- A line between the two marks. Its first colon is that of its stripped view.
  unfoldable pub metadata_line : Bytes → Metadata → Metadata
  metadata_line line m = elim (find b':' line) [
    | none ↦ m
    | some colon_pos ↦
        let k = view_strip_empty (take colon_pos line) in
        let v = view_strip_empty (drop (colon_pos + 1) line) in
        set_field k v (view_data v (drop (colon_pos + 1) line)) m
  ]

  -- The loop up to the second mark, and the index of that line.
  unfoldable pub read_metadata : List Bytes → ℕ → Metadata → Result (ℕ × Metadata)
  read_metadata [] idx m = fail out_of_range
  read_metadata (l ∷ ls) idx m =
      if bytes_eq (view_strip_empty l) dashes
      then ok (idx, m)
      else read_metadata ls (idx + 1) (metadata_line l m)

  -- The result 2 of an unclosed head is never reached: `lines.at` throws before.
  unfoldable pub parse_metadata : Markdown → Parsed
  parse_metadata md = do
    (view, idx) ← skip_blank (drop md.last_line_idx md.lines) md.last_line_idx
    if not (bytes_eq view dashes) then ok (make 1 idx, record md { last_line_idx = idx }) else (do
      (end, m) ← read_metadata (drop (idx + 1) md.lines) (idx + 1) md.metadata
      ok (make 0 (end + 1), record md { last_line_idx = end; metadata = m }))
