-- ===== src/Markdown/Parser/Total.antt =====
-- src/parser/markdown.cpp: `parse` ends on every document, and has then read all of its lines or
-- stopped at a block.
use lingdong.Prelude.{
  ℕ, zero, suc, ◌+◌, ◌-◌, ◌≤◌, ◌<◌, ◌≡◌, refl, sym, ap, ◌∙◌, ◌≢◌, ◌⊎◌, inl, inr, false, List, [],
  ◌∷◌, ◌++◌, append-nil, append_assoc, Bytes, length, length-drop, drop, drop-ext, at, at-Ends, All,
  All-append, at_index, at_index-Ends, is_empty, ok, Ends, Ends-bind, Ends-map, Anything, ltb, ◌==◌,
  arith, Bool-cases, bytes_eq,
}
use lingdong.Strings.{view_strip_empty}
use lingdong.Markdown.Document.{Markdown, Element, ParseResult, Metadata, Library}
use lingdong.Markdown.Document.Frame.{IsShaped}
use lingdong.Markdown.Blocks.Goes.{BlockGoes}
use lingdong.Markdown.Blocks.Progress.{
  HasLine, parse_heading-Goes, parse_blockquote-Goes, parse_dash_prefix_line-Goes,
  parse_default-Goes,
}
use lingdong.Markdown.Blocks.Single.{parse_footnote-Goes, parse_html_element-Goes, parse_image-Goes}
use lingdong.Markdown.Fences.Progress.{parse_codeblock-Goes, parse_latex-Goes}
use lingdong.Markdown.Tables.Progress.{parse_table-Goes}
use lingdong.Markdown.Metadata.{dashes, skip_blank, read_metadata, metadata_line, parse_metadata}
use lingdong.Markdown.Parser.{parse_block, parse_blocks}

-- A line that begins with `c` is not empty, unless `c` is the NUL behind it.
at-zero : (line : Bytes) {c : ℕ} → at line 0 ≡ ok c → c ≢ 0 → 0 < length line
unfolding at
at-zero [] e h = absurd (h (ground arith))
at-zero (x ∷ line) e h = omega arith

-- `Tiled lib md md'`: from the line at which `md` stands the lines are cut into blocks. Each block
-- stands at a line that is there, is parsed from what the blocks before it have left, goes on to
-- the line at which the next one stands, and leaves the lines from there on as they were, and
-- their number; `md'` is what the last one has left.
pub data Tiled (lib : Library) : Markdown → Markdown → Type 0 where
  no_block : {md : Markdown} → Tiled lib md md
  block :
      {md md' : Markdown} (line : Bytes) (c : ℕ) (r : ParseResult × Markdown)
      → at_index md.lines md.last_line_idx ≡ ok line
      → at line 0 ≡ ok c
      → parse_block lib c md ≡ ok r
      → r.0.status ≡ 0
      → md.last_line_idx < r.0.next_line_idx
      → r.0.next_line_idx ≤ length md.lines
      → length r.1.lines ≡ length md.lines
      → drop r.0.next_line_idx r.1.lines ≡ drop r.0.next_line_idx md.lines
      → Tiled lib (record r.1 { last_line_idx = r.0.next_line_idx }) md'
      → Tiled lib md md'

-- What the loop leaves: the elements that were there, and all lines read unless a block has
-- stopped it.
pub record Finished (lib : Library) (md : Markdown) (r : ℕ × Markdown) : Type 0 where
  pub size : length r.1.lines ≡ length md.lines
  pub body_start : r.1.body_start_line_idx ≡ md.body_start_line_idx
  pub added : List Element
  pub elements : r.1.elements ≡ md.elements ++ added
  pub shaped : All IsShaped added
  pub reached :
      (r.0 ≢ 0)
      ⊎ ((md.last_line_idx ≤ length md.lines → r.1.last_line_idx ≡ length md.lines)
          × Tiled lib md r.1)

module _ (lib : Library) where
  pub parse_block-Goes :
      (md : Markdown) (line : Bytes) (c : ℕ)
      → HasLine md line
      → at line 0 ≡ ok c
      → Ends (BlockGoes md) (parse_block lib c md)
  unfolding parse_block
  parse_block-Goes md line c e f =
      let dash = λ (d : c ≡ b'-').
        parse_dash_prefix_line-Goes lib md line e (at-zero line f (omega arith)) in
      ground (
        arith,
        parse_heading-Goes lib md,
        parse_blockquote-Goes lib md,
        parse_codeblock-Goes lib md,
        dash,
        parse_table-Goes lib md,
        parse_image-Goes lib md,
        parse_latex-Goes lib md,
        parse_footnote-Goes lib md,
        parse_html_element-Goes lib md,
        parse_default-Goes lib md,
      )

  Finished-stop :
      (md : Markdown) (r : ParseResult × Markdown)
      → BlockGoes md r
      → (r.0.status == 0) ≡ false
      → Finished lib md (r.0.status, r.1)
  Finished-stop md r g e = record {
    size = g.size;
    body_start = g.body_start;
    added = g.added;
    elements = g.elements;
    shaped = g.shaped;
    reached = inl (ground arith);
  }

  Finished-next :
      (md : Markdown) (line : Bytes) (c : ℕ) (r : ParseResult × Markdown) (q : ℕ × Markdown)
      → at_index md.lines md.last_line_idx ≡ ok line
      → at line 0 ≡ ok c
      → parse_block lib c md ≡ ok r
      → r.0.status ≡ 0
      → BlockGoes md r
      → Finished lib (record r.1 { last_line_idx = r.0.next_line_idx }) q
      → Finished lib md q
  Finished-next md line c r q at_line at_c ran z g f = record {
    size = f.size ∙ g.size;
    body_start = f.body_start ∙ g.body_start;
    added = g.added ++ f.added;
    elements =
        f.elements ∙ ap (λ es. es ++ f.added) g.elements ∙ append_assoc md.elements g.added f.added;
    shaped = All-append IsShaped g.added f.added g.shaped f.shaped;
    reached = elim f.reached [
      | inl stopped ↦ inl stopped
      | inr (behind, tiles) ↦ inr (
        λ inside. behind (omega (arith, g.within, g.size)) ∙ g.size,
        block line c r at_line at_c ran z (ground (arith, g.progress, z)) g.within g.size
            (drop-ext r.0.next_line_idx r.1.lines md.lines g.unread) tiles,
      )
    ];
  }

  pub parse_blocks-Ends :
      (fuel status : ℕ) (md : Markdown)
      → length md.lines - md.last_line_idx < fuel
      → Ends (Finished lib md) (parse_blocks lib fuel status md)
  unfolding parse_blocks
  parse_blocks-Ends zero status md f = absurd (omega arith)
  parse_blocks-Ends (suc fuel) status md f =
      elim (Bool-cases (ltb md.last_line_idx (length md.lines))) [
        | inr e ↦
            rw (e, parse_blocks)
              (record {
                size = refl;
                body_start = refl;
                added = [];
                elements = sym (append-nil _);
                shaped = tt;
                reached = inr (λ inside. ground (arith, e, inside), no_block);
              })
        | inl e ↦
            rw (e, parse_blocks)
              (Ends-bind (λ _. md.last_line_idx < length md.lines) (Finished lib md)
                (at_index md.lines md.last_line_idx) _ (at_index-Ends md.lines md.last_line_idx)
                (λ line at_line m.
                  Ends-bind Anything (Finished lib md) (at line 0) _ (at-Ends line 0) (λ c at_c _.
                    Ends-bind (BlockGoes md) (Finished lib md) (parse_block lib c md) _
                      (parse_block-Goes md line c at_line at_c)
                      (λ r ran g. elim (Bool-cases (r.0.status == 0)) [
                        | inr d ↦ rw d (Finished-stop md r g d)
                        | inl d ↦
                            let next = record r.1 { last_line_idx = r.0.next_line_idx } in
                            rw d (
                              Ends-map (Finished lib next) (Finished lib md)
                                (parse_blocks lib fuel r.0.status next)
                                (parse_blocks-Ends fuel r.0.status next
                                  (ground (arith, g.progress, g.size)))
                                (λ q.
                                  Finished-next md line c r q at_line at_c ran (ground (arith, d))
                                    g))
                      ]))))
      ]

skip_blank-Ends :
    (ls : List Bytes) (idx : ℕ)
    → Ends (λ r. (idx ≤ r.1) × (r.1 < idx + length ls)) (skip_blank ls idx)
unfolding skip_blank
skip_blank-Ends [] idx = tt
skip_blank-Ends (l ∷ ls) idx = elim (Bool-cases (is_empty (view_strip_empty l))) [
  | inr e ↦ rw e (omega arith)
  | inl e ↦ rw e (
      Ends-map (λ r. (idx + 1 ≤ r.1) × (r.1 < idx + 1 + length ls)) _ (skip_blank ls (idx + 1))
        (skip_blank-Ends ls (idx + 1)) (λ r b. omega arith))
]

-- The head of the document changes its data and its index alone.
pub record Headed (md : Markdown) (r : ParseResult × Markdown) : Type 0 where
  pub same_lines : r.1.lines ≡ md.lines
  pub same_elements : r.1.elements ≡ md.elements
  pub within : r.0.next_line_idx ≤ length md.lines
  pub status : (r.0.status ≡ 0) ⊎ (r.0.status ≡ 1)

module _ (lib : Library) where
  read_metadata-Ends :
      (ls : List Bytes) (idx : ℕ) (m : Metadata)
      → Ends (λ r. (idx ≤ r.0) × (r.0 < idx + length ls)) (read_metadata lib ls idx m)
  unfolding read_metadata
  read_metadata-Ends [] idx m = tt
  read_metadata-Ends (l ∷ ls) idx m = elim (Bool-cases (bytes_eq (view_strip_empty l) dashes)) [
    | inl e ↦ rw e (omega arith)
    | inr e ↦ rw e (
        Ends-map (λ r. (idx + 1 ≤ r.0) × (r.0 < idx + 1 + length ls)) _
          (read_metadata lib ls (idx + 1) (metadata_line lib l m))
          (read_metadata-Ends ls (idx + 1) (metadata_line lib l m)) (λ r b. omega arith))
  ]

  pub parse_metadata-Headed : (md : Markdown) → Ends (Headed md) (parse_metadata lib md)
  unfolding parse_metadata
  parse_metadata-Headed md =
      let rest = drop md.last_line_idx md.lines in
      let d = length-drop md.last_line_idx md.lines in
      Ends-bind (λ r. (md.last_line_idx ≤ r.1) × (r.1 < md.last_line_idx + length rest)) (Headed md)
        (skip_blank rest md.last_line_idx) _ (skip_blank-Ends rest md.last_line_idx)
        (λ r _ b. elim (Bool-cases (bytes_eq r.0 dashes)) [
          | inr e ↦ rw e (record {
            same_lines = refl;
            same_elements = refl;
            within = omega arith;
            status = inr refl;
          })
          | inl e ↦ rw e (
              Ends-bind (λ q. (r.1 + 1 ≤ q.0) × (q.0 < r.1 + 1 + length (drop (r.1 + 1) md.lines)))
                (Headed md) (read_metadata lib (drop (r.1 + 1) md.lines) (r.1 + 1) md.metadata) _
                (read_metadata-Ends (drop (r.1 + 1) md.lines) (r.1 + 1) md.metadata)
                (λ q _ c. record {
                  same_lines = refl;
                  same_elements = refl;
                  within = omega (arith, length-drop (r.1 + 1) md.lines);
                  status = inl refl;
                }))
        ])
