-- ===== src/Markdown/Blocks/Progress.antt =====
-- src/parser/markdown.cpp: the block parsers of paragraphs, headings, quotes, rules, footnotes,
-- html elements and images end, and go on.
use lingdong.Prelude.{
  ℕ, ◌+◌, ◌≤◌, ◌<◌, ◌≡◌, refl, inl, inr, Bool, true, false, not, ◌&&◌, List, [], ◌∷◌, Bytes, length,
  length-drop, drop, set, at, at-Ends, at_index, at_index-Ends, at_index-ok-lt, substr, substr-Ends,
  size_sub, is_empty, Result, ok, ◌>>=◌, Ends, Ends-bind, Anything, leb, ◌==◌, arith, Bool-cases,
}
use lingdong.Markdown.Document.{
  Paragraph, new_paragraph, Markdown, ParseResult, make, push_element, heading, paragraph,
  block_quote, horizontal_rule, Library,
}
use lingdong.Markdown.Document.Frame.{Reads, Reads-refl, Reads-trans, Reads-paragraphs, Reads-set}
use lingdong.Markdown.Inline.{parse_line}
use lingdong.Markdown.Inline.Ends.{Keeps, parse_line-Keeps}
use lingdong.Markdown.Lists.{is_ordered_item}
use lingdong.Markdown.Blocks.{
  all_bytes, quote_lines, parse_paragraph, parse_default, parse_heading, parse_quotes,
  parse_blockquote, parse_horizontal_rule, parse_dash_prefix_line,
}
use lingdong.Markdown.Blocks.Goes.{
  BlockGoes, BlockGoes-push, BlockGoes-none, parse_itemlist-Goes, parse_ordered_itemlist-Goes,
}

-- The line in hand.
abbrev pub HasLine : Markdown → Bytes → Type 0
HasLine md line = at_index md.lines md.last_line_idx ≡ ok line

module _ (lib : Library) (md : Markdown) where
  -- A block that begins by reading its line.
  pub at_line-Goes :
      (f : Bytes → Result (ParseResult × Markdown))
      → ((line : Bytes)
          → HasLine md line
          → md.last_line_idx < length md.lines
          → Ends (BlockGoes md) (f line))
      → Ends (BlockGoes md) (at_index md.lines md.last_line_idx >>= f)
  at_line-Goes f h =
      Ends-bind (λ _. md.last_line_idx < length md.lines) (BlockGoes md)
        (at_index md.lines md.last_line_idx) f (at_index-Ends md.lines md.last_line_idx) h

  -- A block that is one line with a paragraph.
  pub line-Goes :
      (text : Bytes) (p : Paragraph)
      (f : Bool × Paragraph × Markdown → Result (ParseResult × Markdown))
      → ((r : Bool × Paragraph × Markdown)
          → Reads md r.2 (md.last_line_idx + 1)
          → Ends (BlockGoes md) (f r))
      → Ends (BlockGoes md) (parse_line lib text p md >>= f)
  line-Goes text p f h =
      Ends-bind (λ r. Keeps md r.2) (BlockGoes md) (parse_line lib text p md) f
        (parse_line-Keeps lib text p md) (λ r _ k. h r (Reads-paragraphs (md.last_line_idx + 1) k))

  pub parse_paragraph-Goes : Ends (BlockGoes md) (parse_paragraph lib md)
  unfolding parse_paragraph
  parse_paragraph-Goes = at_line-Goes _ (λ line _ m. line-Goes line (new_paragraph false) _ (λ r k.
      elim (Bool-cases (r.0 && not (is_empty r.1.blocks))) [
        | inl e ↦ rw e (BlockGoes-push 0 (paragraph r.1) tt k (omega arith) (inr (omega arith)))
        | inr e ↦ rw e (BlockGoes-none 0 k (omega arith) (inr (omega arith)))
      ]))

  pub parse_default-Goes : Ends (BlockGoes md) (parse_default lib md)
  unfolding parse_default
  parse_default-Goes = at_line-Goes _ (λ line _ m. elim (Bool-cases (is_ordered_item line)) [
    | inl e ↦ rw e (parse_ordered_itemlist-Goes lib md (omega arith))
    | inr e ↦ rw e parse_paragraph-Goes
  ])

  pub parse_heading-Goes : Ends (BlockGoes md) (parse_heading lib md)
  unfolding parse_heading
  parse_heading-Goes = at_line-Goes _ (λ line _ m.
      Ends-bind Anything (BlockGoes md) _ _ (substr-Ends line _ _) (λ title _ _.
        line-Goes title (new_paragraph true) _
          (λ r k. BlockGoes-push 0 (heading _ r.1) tt k (omega arith) (inr (omega arith)))))

  pub parse_horizontal_rule-Goes :
      md.last_line_idx < length md.lines → Ends (BlockGoes md) (parse_horizontal_rule lib md)
  unfolding parse_horizontal_rule
  parse_horizontal_rule-Goes m =
      BlockGoes-push 0 horizontal_rule tt (Reads-refl md (md.last_line_idx + 1)) (omega arith)
        (inr (omega arith))

quote_lines-Ends :
    (ls : List Bytes) (idx : ℕ) (last : Bytes)
    → Ends (λ r. (idx ≤ r.1) × (r.1 ≤ idx + length ls)) (quote_lines ls idx last)
unfolding quote_lines
quote_lines-Ends [] idx last = omega arith
quote_lines-Ends (l ∷ ls) idx last = Ends-bind Anything _ (at l 0) _ (at-Ends l 0) (λ c _ _.
    elim (Bool-cases (c == b'>')) [
      | inr e ↦ rw e (omega arith)
      | inl e ↦ rw e (
          Ends-bind Anything _ (substr l 1 (size_sub (length l) 1)) _
            (substr-Ends l 1 (size_sub (length l) 1))
            (λ s _ _.
              Ends-bind (λ r. (idx + 1 ≤ r.1) × (r.1 ≤ idx + 1 + length ls)) _
                (quote_lines ls (idx + 1) l) _ (quote_lines-Ends ls (idx + 1) l)
                (λ r _ b. omega arith)))
    ])

module _ (lib : Library) where
  parse_quotes-Keeps :
      (ls : List Bytes) (md : Markdown) → Ends (λ r. Keeps md r.1) (parse_quotes lib ls md)
  unfolding parse_quotes
  parse_quotes-Keeps [] md = refl
  parse_quotes-Keeps (l ∷ ls) md =
      Ends-bind (λ r. Keeps md r.2) _ (parse_line lib l (new_paragraph false) md) _
        (parse_line-Keeps lib l (new_paragraph false) md)
        (λ r _ k.
          Ends-bind (λ q. Keeps r.2 q.1) _ (parse_quotes lib ls r.2) _ (parse_quotes-Keeps ls r.2)
            (λ q _ k'. ground arith))

  module _ (md : Markdown) where
    pub parse_blockquote-Goes : Ends (BlockGoes md) (parse_blockquote lib md)
    unfolding parse_blockquote
    parse_blockquote-Goes = at_line-Goes lib md _ (λ line _ m.
        Ends-bind Anything (BlockGoes md) (substr line 1 (size_sub (length line) 1)) _
          (substr-Ends line 1 (size_sub (length line) 1))
          (λ first _ _.
            let idx = md.last_line_idx + 1 in
            Ends-bind _ (BlockGoes md) (quote_lines (drop idx md.lines) idx line) _
              (quote_lines-Ends (drop idx md.lines) idx line)
              (λ r _ b. quoted first r.0 r.1 r.2 b.0 (omega (arith, length-drop idx md.lines)))))
      where
        quoted :
            (first : Bytes) (rest : List Bytes) (end : ℕ) (last : Bytes)
            → md.last_line_idx + 1 ≤ end
            → end ≤ length md.lines
            → Ends (BlockGoes md) (
                parse_quotes lib
                  (first ∷ rest)
                  (record md { lines = set md.lines md.last_line_idx last })
                >>= λ r. ok (make 0 end, push_element r.1 (block_quote r.0)))
        quoted first rest end last h k =
            let written = record md { lines = set md.lines md.last_line_idx last } in
            Ends-bind (λ r. Keeps written r.1) (BlockGoes md)
              (parse_quotes lib (first ∷ rest) written) _
              (parse_quotes-Keeps (first ∷ rest) written)
              (λ r _ q.
                BlockGoes-push {next = end} 0 (block_quote r.0) tt
                  (Reads-trans (Reads-set md md.last_line_idx last) (Reads-paragraphs end q)
                    (omega arith))
                  k (inr (omega arith)))

    pub parse_dash_prefix_line-Goes :
        (line : Bytes)
        → HasLine md line
        → 0 < length line
        → Ends (BlockGoes md) (parse_dash_prefix_line lib md)
    unfolding parse_dash_prefix_line
    parse_dash_prefix_line-Goes line e long =
        let m = at_index-ok-lt md.lines md.last_line_idx e in
        rw (e, parse_dash_prefix_line)
          (elim (Bool-cases (leb 3 (length line) && all_bytes (λ c. c == b'-') line)) [
            | inl d ↦ rw d (parse_horizontal_rule-Goes lib md m)
            | inr d ↦ rw d (parse_itemlist-Goes lib md line e long)
          ])
