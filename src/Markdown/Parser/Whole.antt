-- ===== src/Markdown/Parser/Whole.antt =====
-- src/parser/markdown.cpp: `parse` and `parse_str` on a whole document.
use lingdong.Prelude.{
  ℕ, suc, ◌≤◌, ◌<◌, ◌≡◌, refl, sym, subst, ap, ◌∙◌, ◌≢◌, ◌⊎◌, inl, inr, Bool, true, List, [], ◌++◌,
  Bytes, length, drop, drop-ext, at, at_index, All, ok, fail, no_fuel, Ends, Ends-bind, Ends-map,
  Ends-ok, Ends-ne-no_fuel, ◌==◌, arith, Bool-cases,
}
use lingdong.Markdown.Document.{Markdown, ParseResult, Element, Library}
use lingdong.Markdown.Blocks.Goes.{BlockGoes}
use lingdong.Markdown.Document.Frame.{IsShaped}
use lingdong.Markdown.Parser.{parse_block, parse_blocks, parse, parse_str, new_markdown, get_lines}
use lingdong.Markdown.Metadata.{parse_metadata}
use lingdong.Markdown.Parser.Total.{
  Finished, Headed, parse_block-Goes, Tiled, parse_blocks-Ends, parse_metadata-Headed,
}

-- A block parser goes on by a line at least, unless it stops the parser; it leaves the lines that
-- it has not read and the number of lines as they were, and adds elements behind those there.
abbrev pub MovesOn : Markdown → ParseResult × Markdown → Type 0
MovesOn md r =
    ((r.0.status ≢ 0) ⊎ (md.last_line_idx < r.0.next_line_idx))
    × (r.0.next_line_idx ≤ length md.lines)
    × (length r.1.lines ≡ length md.lines)
    × (drop r.0.next_line_idx r.1.lines ≡ drop r.0.next_line_idx md.lines)
    × ((added : List Element) × (r.1.elements ≡ md.elements ++ added))

-- The lines behind the head are cut into blocks, one behind the other, up to the last line.
abbrev pub TiledWhole : Library → Markdown → Markdown → Type 0
TiledWhole lib md md' =
    (head : ParseResult × Markdown) × (parse_metadata lib md ≡ ok head)
    × Tiled lib
        (record head.1 {
          body_start_line_idx = head.0.next_line_idx;
          last_line_idx = head.0.next_line_idx;
        })
        md'
    × (length md'.lines ≡ length md.lines)
    × (md'.last_line_idx ≡ length md.lines)

-- A run that says `true` has cut the lines behind the head, all of them, into blocks, one behind
-- the other; and a run on no elements makes shaped tables.
abbrev Whole : Library → Markdown → Bool × Markdown → Type 0
Whole lib md r =
    (r.0 ≡ true → TiledWhole lib md r.1) × (md.elements ≡ [] → All IsShaped r.1.elements)

abbrev loaded : Bytes → Markdown
loaded md_content = record new_markdown { lines = get_lines [] md_content }

module _ (lib : Library) where
  -- At every line of the document, `parse_block` with the first byte of the line ends; where it
  -- returns, it moves on, leaves the lines behind it as they were, and only adds elements.
  pub parse_block-MovesOn :
      (md : Markdown) (line : Bytes) (c : ℕ)
      → at_index md.lines md.last_line_idx ≡ ok line
      → at line 0 ≡ ok c
      → Ends (MovesOn md) (parse_block lib c md)
  parse_block-MovesOn md line c at_line at_c =
      Ends-map (BlockGoes md) (MovesOn md) (parse_block lib c md)
        (parse_block-Goes lib md line c at_line at_c)
        (λ r g. (
          g.progress,
          g.within,
          g.size,
          drop-ext r.0.next_line_idx r.1.lines md.lines g.unread,
          (g.added, g.elements),
        ))

  parse-Whole : (md : Markdown) → Ends (Whole lib md) (parse lib md)
  unfolding parse
  parse-Whole md =
      Ends-bind (Headed md) (Whole lib md) (parse_metadata lib md) _ (parse_metadata-Headed lib md)
        (λ r headed h. elim (Bool-cases (r.0.status == 2)) [
          | inl e ↦
              rw e ((λ done. cc), λ none. subst (All IsShaped) (sym (h.same_elements ∙ none)) tt)
          | inr e ↦
              let body = record r.1 {
                body_start_line_idx = r.0.next_line_idx;
                last_line_idx = r.0.next_line_idx;
              } in
              rw e (
                Ends-bind (Finished lib body) (Whole lib md)
                  (parse_blocks lib (suc (length r.1.lines)) r.0.status body) _
                  (parse_blocks-Ends lib (suc (length r.1.lines)) r.0.status body (omega arith))
                  (λ q _ f. (
                    (λ done. whole r headed q h f (ground (arith, done))),
                    λ none.
                        subst (All IsShaped)
                          (sym (f.elements ∙ ap (λ es. es ++ f.added) (h.same_elements ∙ none)))
                          f.shaped,
                  )))
        ])
    where
      whole :
          (r : ParseResult × Markdown) (headed : parse_metadata lib md ≡ ok r) (q : ℕ × Markdown)
          → Headed md r
          → Finished lib
              (record r.1 {
                body_start_line_idx = r.0.next_line_idx;
                last_line_idx = r.0.next_line_idx;
              })
              q
          → q.0 ≡ 0
          → TiledWhole lib md q.1
      whole r headed q h f done =
          let n = ap length h.same_lines in
          elim f.reached [
            | inl bad ↦ absurd (bad done)
            | inr (reached, tiles) ↦
                (r, headed, tiles, f.size ∙ n, reached (omega (arith, h.within, n)) ∙ n)
          ]

  -- On every document the loops of the parser end: the bounds on their rounds are enough.
  pub parse_str-ne-no_fuel : (md_content : Bytes) → parse_str lib md_content ≢ fail no_fuel
  unfolding parse_str
  parse_str-ne-no_fuel md_content =
      Ends-ne-no_fuel (Whole lib (loaded md_content)) _ (parse-Whole (loaded md_content))

  -- Where `parse_str` returns true, the lines behind the head of the document are cut into blocks,
  -- one behind the other, up to its last line: each stands where the one before it has ended, at a
  -- line that is as it was in the document, and no line is left out.
  pub parse_str-Whole :
      (md_content : Bytes) {md : Markdown}
      → parse_str lib md_content ≡ ok (true, md)
      → TiledWhole lib (record new_markdown { lines = get_lines [] md_content }) md
  unfolding parse_str
  parse_str-Whole md_content {md} e =
      (Ends-ok (Whole lib (loaded md_content)) _ (parse-Whole (loaded md_content)) e).0 refl

  -- If `parse_str` returns, then every table of the document has an alignment for each title, and
  -- as many cells as titles in each row but the last.
  pub parse_str-IsShaped :
      (md_content : Bytes) (done : Bool) {md : Markdown}
      → parse_str lib md_content ≡ ok (done, md)
      → All IsShaped md.elements
  unfolding parse_str
  parse_str-IsShaped md_content done {md} e =
      (Ends-ok (Whole lib (loaded md_content)) _ (parse-Whole (loaded md_content)) e).1 refl
