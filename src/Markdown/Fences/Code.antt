-- ===== src/Markdown/Fences/Code.antt =====
-- src/parser/markdown.cpp, `parse_codeblock` between two fences.
use lingdong.Prelude.{
  ℕ, ◌+◌, ◌≡◌, refl, ap, ◌∙◌, ◌≢◌, true, false, List, [], ◌∷◌, ◌++◌, All, Bytes, length, drop,
  take-ge, set, substr, substr-le, size_sub, size_sub-eq, bytes_eq, bytes_eq_iff, ok, leb, arith,
}
use lingdong.Markdown.Document.{Markdown, code_block, make, push_element, Library}
use lingdong.Markdown.Blocks.Progress.{HasLine}
use lingdong.Markdown.Fences.{fence, scan_code, code_meta, parse_codeblock}

scan_code-closed :
    (code rest : List Bytes) (idx : ℕ) (last : Bytes)
    → All (λ l. l ≢ fence) code
    → scan_code (code ++ fence ∷ rest) idx last
      ≡ record { closed = true; code_lines = code; line_idx = idx + length code; last = fence }
unfolding scan_code bytes_eq
scan_code-closed [] rest idx last h = ground arith
scan_code-closed (l ∷ code) rest idx last h =
    ground (arith, bytes_eq_iff l fence, scan_code-closed code rest (idx + 1) l h.1)

scan_code-open :
    (code : List Bytes) (idx : ℕ) (last : Bytes)
    → All (λ l. l ≢ fence) code
    → ((scan_code code idx last).closed ≡ false)
      × ((scan_code code idx last).line_idx ≡ idx + length code)
unfolding scan_code
scan_code-open [] idx last h = (refl, omega arith)
scan_code-open (l ∷ code) idx last h =
    ground (arith, bytes_eq_iff l fence, scan_code-open code (idx + 1) l h.1)

meta_text :
    (meta : Bytes) → substr (fence ++ meta) 3 (size_sub (length (fence ++ meta)) 3) ≡ ok meta
meta_text meta =
    substr-le (fence ++ meta) 3 _ (omega arith)
    ∙ ap ok (take-ge _ meta (omega (arith, size_sub-eq (length (fence ++ meta)) 3 (omega arith))))

module _ (lib : Library) (md : Markdown) (meta : Bytes) (code : List Bytes)
    (open_fence : HasLine md (fence ++ meta)) (plain : All (λ l. l ≢ fence) code) where
  is_fenced : (leb 3 (length (fence ++ meta))) ≡ true
  is_fenced = ground arith

  -- Where the line begins with the fence and a line that is the fence comes behind it, the lines
  -- between them, none of which is the fence, become the code, byte for byte, and the parser goes
  -- on behind the closing fence, which it has written over the opening line.
  pub parse_codeblock-closed :
      (rest : List Bytes)
      → drop (md.last_line_idx + 1) md.lines ≡ code ++ fence ∷ rest
      → parse_codeblock lib md
        ≡ ok (
          make 0 (md.last_line_idx + 1 + length code + 1),
          push_element
              (record md { lines = set md.lines md.last_line_idx fence })
              (code_block
                (code_meta lib (lib.str_split_skip meta b' ')).0
                (code_meta lib (lib.str_split_skip meta b' ')).1
                code),
        )
  unfolding parse_codeblock bytes_eq
  parse_codeblock-closed rest e = rw (
    open_fence,
    is_fenced,
    meta_text meta,
    e,
    scan_code-closed code rest (md.last_line_idx + 1) (fence ++ meta) plain,
  )
