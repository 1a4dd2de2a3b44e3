-- ===== src/Markdown/Fences/Progress.antt =====
-- src/parser/markdown.cpp: blocks of code and formulas end, and go on.
use lingdong.Prelude.{
  ℕ, ◌+◌, ◌≤◌, ◌<◌, ◌≡◌, subst, inl, inr, true, false, not, ◌&&◌, List, [], ◌∷◌, Bytes, codes,
  length, length-drop, take, drop, set, at_view, at_view-Ends, substr, substr-Ends, size_sub,
  bytes_eq, Option, none, some, ok, ◌>>=◌, Ends, Ends-bind, Anything, ltb, leb, ◌==◌, if◌then◌else◌,
  arith, Bool-cases,
}
use lingdong.Strings.{view_strip_empty}
use lingdong.Markdown.Document.{Markdown, make, code_block, latex_block, push_element, Library}
use lingdong.Markdown.Document.Frame.{Reads-refl, Reads-set, Reads-trans}
use lingdong.Markdown.Blocks.{parse_default}
use lingdong.Markdown.Blocks.Goes.{BlockGoes, BlockGoes-push, BlockGoes-none}
use lingdong.Markdown.Blocks.Progress.{at_line-Goes, parse_default-Goes, parse_paragraph-Goes}
use lingdong.Markdown.Fences.{
  fence, scan_code, ends_in_dollars, scan_latex, parse_codeblock, parse_latex,
}

-- The loop stops at the closing fence, or behind the last line.
scan_code_bounds :
    (ls : List Bytes) (idx : ℕ) (last : Bytes)
    → (idx ≤ (scan_code ls idx last).line_idx)
      × ((scan_code ls idx last).line_idx + (if (scan_code ls idx last).closed then 1 else 0)
          ≤ idx + length ls)
unfolding scan_code
scan_code_bounds [] idx last = omega arith
scan_code_bounds (l ∷ ls) idx last = ground (arith, scan_code_bounds ls (idx + 1) l)

ends_in_dollars-Ends : (view : Bytes) → Ends Anything (ends_in_dollars view)
unfolding ends_in_dollars
ends_in_dollars-Ends view = ground (
  arith,
  at_view-Ends view (size_sub (length view) 1),
  at_view-Ends view (size_sub (length view) 2),
)

abbrev Found : ℕ → ℕ → Option (List Bytes × ℕ) → Type 0
Found lo hi none = Unit
Found lo hi (some (views, end)) = (lo ≤ end) × (end < hi)

scan_latex-Ends :
    (ls : List Bytes) (idx : ℕ) → Ends (Found idx (idx + length ls)) (scan_latex ls idx)
unfolding scan_latex
scan_latex-Ends [] idx = tt
scan_latex-Ends (l ∷ ls) idx =
    let view = view_strip_empty l in
    let goal = Found idx (idx + length (l ∷ ls)) in
    Ends-bind Anything goal (ends_in_dollars view) _ (ends_in_dollars-Ends view) (elim [
      | true ↦ λ _ _.
          Ends-bind Anything goal (substr view 0 (size_sub (length view) 2)) _
            (substr-Ends view 0 (size_sub (length view) 2)) (λ s _ _. omega arith)
      | false ↦ λ _ _.
          Ends-bind (Found (idx + 1) (idx + 1 + length ls)) goal (scan_latex ls (idx + 1)) _
            (scan_latex-Ends ls (idx + 1))
            (elim [ none ↦ λ _ _. tt | some (views, end) ↦ λ _ b. omega arith ])
    ])

module _ (lib : Library) (md : Markdown) where
  pub parse_codeblock-Goes : Ends (BlockGoes md) (parse_codeblock lib md)
  unfolding parse_codeblock
  parse_codeblock-Goes = at_line-Goes lib md _ (λ line _ m.
      elim (Bool-cases (leb 3 (length line) && bytes_eq (take 3 line) fence)) [
        | inr e ↦ rw e (parse_paragraph-Goes lib md)
        | inl e ↦ rw e (
            Ends-bind Anything (BlockGoes md) (substr line 3 (size_sub (length line) 3)) _
              (substr-Ends line 3 (size_sub (length line) 3)) (λ meta _ _. scanned line m _ _))
      ])
    where
      scanned :
          (line : Bytes)
          → md.last_line_idx < length md.lines
          → (lang : Bytes) (attrs : List (Bytes × Bytes))
          → let r = scan_code (drop (md.last_line_idx + 1) md.lines) (md.last_line_idx + 1) line in
            let md' = record md { lines = set md.lines md.last_line_idx r.last } in
            BlockGoes md (
              if r.closed
              then (make 0 (r.line_idx + 1), push_element md' (code_block lang attrs r.code_lines))
              else (make 2 r.line_idx, md'))
      scanned line m lang attrs =
          let idx = md.last_line_idx + 1 in
          let r = scan_code (drop idx md.lines) idx line in
          let b = scan_code_bounds (drop idx md.lines) idx line in
          let d = length-drop idx md.lines in
          elim (Bool-cases r.closed) [
            | inl e ↦
                let c : r.line_idx + 1 ≤ length md.lines = ground arith in
                rw e (
                  BlockGoes-push 0 (code_block lang attrs r.code_lines) tt
                    (Reads-trans (Reads-set md md.last_line_idx r.last)
                      (Reads-refl _ (r.line_idx + 1)) (omega arith))
                    c (inr (omega arith)))
            | inr e ↦
                let c : r.line_idx ≤ length md.lines = ground arith in
                rw e (
                  BlockGoes-none 2
                    (Reads-trans (Reads-set md md.last_line_idx r.last) (Reads-refl _ r.line_idx)
                      (omega arith))
                    c (inl (omega arith)))
          ]

  pub parse_latex-Goes : Ends (BlockGoes md) (parse_latex lib md)
  unfolding parse_latex
  parse_latex-Goes = at_line-Goes lib md _ (λ line _ m.
      elim (Bool-cases (ltb (length (view_strip_empty line)) 2)) [
        | inl e ↦ rw e (parse_default-Goes lib md)
        | inr e ↦ rw e (opened (view_strip_empty line) m)
      ])
    where
      many :
          (first : Bytes)
          → md.last_line_idx < length md.lines
          → (rest : Option (List Bytes × ℕ)) → Found (md.last_line_idx + 1) (length md.lines) rest
          → Ends (BlockGoes md) (elim rest [
            | none ↦ parse_default lib md
            | some (views, end) ↦ ok (
              make 0 (end + 1),
              push_element md (latex_block (lib.str_join (first ∷ views) (codes "\n"))),
            )
          ])
      many first m none b = parse_default-Goes lib md
      many first m (some (views, end)) b =
          BlockGoes-push 0 (latex_block (lib.str_join (first ∷ views) (codes "\n"))) tt
            (Reads-refl md (end + 1)) (omega arith) (inr (omega arith))

      opened :
          (view : Bytes)
          → md.last_line_idx < length md.lines
          → Ends (BlockGoes md) (
              at_view view 0 >>= λ a. at_view view 1 >>= λ b. ends_in_dollars view >>= λ single.
              if not (a == b'$' && b == b'$')
              then parse_default lib md
              else if ltb 4 (length view) && single
              then (substr view 2 (size_sub (length view) 4) >>= λ content.
                  ok (make 0 (md.last_line_idx + 1), push_element md (latex_block content)))
              else (substr view 2 (size_sub (length view) 2) >>= λ first.
                  scan_latex (drop (md.last_line_idx + 1) md.lines) (md.last_line_idx + 1)
                  >>= λ rest. elim rest [
                    | none ↦ parse_default lib md
                    | some (views, end) ↦ ok (
                      make 0 (end + 1),
                      push_element md (latex_block (lib.str_join (first ∷ views) (codes "\n"))),
                    )
                  ]))
      opened view m =
          let idx = md.last_line_idx + 1 in
          let whole : idx + length (drop idx md.lines) ≡ length md.lines =
            omega (arith, length-drop idx md.lines) in
          Ends-bind Anything (BlockGoes md) (at_view view 0) _ (at_view-Ends view 0) (λ a _ _.
            Ends-bind Anything (BlockGoes md) (at_view view 1) _ (at_view-Ends view 1) (λ b _ _.
              Ends-bind Anything (BlockGoes md) (ends_in_dollars view) _ (ends_in_dollars-Ends view)
                (λ single _ _. elim (Bool-cases (not (a == b'$' && b == b'$'))) [
                  | inl e ↦ rw e (parse_default-Goes lib md)
                  | inr e ↦ elim (Bool-cases (ltb 4 (length view) && single)) [
                    | inl f ↦
                        rw (e, f)
                          (Ends-bind Anything (BlockGoes md) _ _ (substr-Ends view 2 _)
                            (λ content _ _.
                              BlockGoes-push 0 (latex_block content) tt
                                (Reads-refl md (md.last_line_idx + 1)) (omega arith)
                                (inr (omega arith))))
                    | inr f ↦
                        rw (e, f)
                          (Ends-bind Anything (BlockGoes md) _ _ (substr-Ends view 2 _)
                            (λ first _ _.
                              Ends-bind (Found idx (idx + length (drop idx md.lines)))
                                (BlockGoes md) (scan_latex (drop idx md.lines) idx) _
                                (scan_latex-Ends (drop idx md.lines) idx)
                                (λ rest _ b.
                                  many first m rest (subst (λ hi. Found idx hi rest) whole b))))
                  ]
                ])))
