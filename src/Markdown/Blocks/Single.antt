-- ===== src/Markdown/Blocks/Single.antt =====
-- src/parser/markdown.cpp: the blocks of one line that may turn out to be another block.
use lingdong.Prelude.{
  ℕ, ◌+◌, ◌-◌, ◌<◌, inl, inr, true, not, ◌||◌, [], Bytes, codes, length, drop, at, at-Ends,
  at_view-Ends, substr, substr-Ends, substr_from-Ends, size_sub, is_empty, none, some, ok, ◌>>=◌,
  Ends, Ends-bind, Anything, leb, ◌==◌, if◌then◌else◌, arith, Bool-cases,
}
use lingdong.Strings.{is_space, view_strip_empty}
use lingdong.Markdown.Document.{
  new_paragraph, Markdown, make, html_element, image, push_element, Library,
}
use lingdong.Markdown.Document.Frame.{Reads-refl}
use lingdong.Markdown.Inline.{scan_to}
use lingdong.Markdown.Blocks.{
  skip_past, html_tag, footnote_parts, parse_footnote, parse_html_element, alt_parts, parse_image,
}
use lingdong.Markdown.Blocks.Goes.{BlockGoes, BlockGoes-push, BlockGoes-none}
use lingdong.Markdown.Blocks.Progress.{at_line-Goes, line-Goes, parse_default-Goes}

html_tag-Ends : (view : Bytes) → Ends Anything (html_tag view)
unfolding html_tag
html_tag-Ends view =
    let named = skip_past is_space (drop 1 view) 1 in
    let inside = skip_past (λ c. c == b'>') (drop named view) named in
    let behind = skip_past (λ c. c == b'<') (drop inside view) inside in
    ground (
      arith,
      at_view-Ends view (length view - 1),
      substr-Ends view 1 (size_sub named 2),
      at_view-Ends view behind,
      substr-Ends view (behind + 1) (size_sub (size_sub (length view) behind) 2),
    )

footnote_parts-Ends : (line : Bytes) → Ends Anything (footnote_parts line)
unfolding footnote_parts
footnote_parts-Ends line =
    let idx = scan_to b']' line 2 in
    ground (
      arith,
      at-Ends line 1,
      at-Ends line (idx + 1),
      substr-Ends line 2 (idx - 2),
      substr_from-Ends line (idx + 2),
    )

alt_Ends :
    (line : Bytes) (idx : ℕ)
    → Ends Anything (if idx == length line then ok [] else substr line 2 (size_sub idx 2))
alt_Ends line idx = elim (Bool-cases (idx == length line)) [
  | inl e ↦ rw e tt
  | inr e ↦ rw e (substr-Ends line 2 (size_sub idx 2))
]

module _ (lib : Library) (md : Markdown) where
  pub parse_footnote-Goes : Ends (BlockGoes md) (parse_footnote lib md)
  unfolding parse_footnote
  parse_footnote-Goes = at_line-Goes lib md _ (λ line _ m.
      Ends-bind Anything (BlockGoes md) (footnote_parts line) _ (footnote_parts-Ends line) (elim [
        | none ↦ λ _ _. parse_default-Goes lib md
        | some (id, s) ↦ λ _ _. line-Goes lib md s (new_paragraph true) _ (λ r k.
            BlockGoes-none 0
              (record {
                size = k.size;
                unread = k.unread;
                elements = k.elements;
                body_start = k.body_start;
              })
              (omega arith) (inr (omega arith)))
      ]))

  pub parse_html_element-Goes : Ends (BlockGoes md) (parse_html_element lib md)
  unfolding parse_html_element
  parse_html_element-Goes = at_line-Goes lib md _ (λ line _ m.
      Ends-bind Anything (BlockGoes md) (html_tag (view_strip_empty line)) _
        (html_tag-Ends (view_strip_empty line))
        (elim [
          | none ↦ λ _ _. parse_default-Goes lib md
          | some name ↦ λ _ _.
              BlockGoes-push 0 (html_element name (view_strip_empty line)) tt
                (Reads-refl md (md.last_line_idx + 1)) (omega arith) (inr (omega arith))
        ]))

  image_stops : md.last_line_idx < length md.lines → BlockGoes md (make 2 md.last_line_idx, md)
  image_stops m =
      BlockGoes-none 2 (Reads-refl md md.last_line_idx) (omega arith) (inl (omega arith))

  pub parse_image-Goes : Ends (BlockGoes md) (parse_image lib md)
  unfolding parse_image
  parse_image-Goes = at_line-Goes lib md _ (λ line _ m.
      let idx = scan_to b']' line 2 in
      Ends-bind Anything (BlockGoes md) (at line 0) _ (at-Ends line 0) (λ first _ _.
        Ends-bind Anything (BlockGoes md) (at line 1) _ (at-Ends line 1) (λ second _ _.
          elim (Bool-cases (not (first == b'!') || not (second == b'['))) [
            | inl e ↦ rw e (parse_default-Goes lib md)
            | inr e ↦ elim (Bool-cases (leb (size_sub (length line) 3) idx)) [
              | inl d ↦ rw (e, d) (image_stops m)
              | inr d ↦ rw (e, d) (closed line idx m)
            ]
          ])))
    where
      closed :
          (line : Bytes) (idx : ℕ)
          → md.last_line_idx < length md.lines
          → Ends (BlockGoes md) (
              at line (idx + 1) >>= λ paren. at line (size_sub (length line) 1) >>= λ last.
              if not (paren == b'(') || not (last == b')')
              then ok (make 2 md.last_line_idx, md)
              else ((if idx == length line then ok [] else substr line 2 (size_sub idx 2))
                  >>= λ alt.
                      substr line (idx + 2) (size_sub (size_sub (length line) 1) (idx + 2))
                      >>= λ uri.
                          let (alt_text, img_width) = alt_parts lib alt in
                          ok (
                            make 0 (md.last_line_idx + 1),
                            push_element md (
                                image alt_text uri
                                  (if is_empty img_width then codes "100%" else img_width)),
                          )))
      closed line idx m =
          Ends-bind Anything (BlockGoes md) (at line (idx + 1)) _ (at-Ends line (idx + 1))
            (λ paren _ _.
              Ends-bind Anything (BlockGoes md) (at line (size_sub (length line) 1)) _
                (at-Ends line (size_sub (length line) 1))
                (λ last _ _. elim (Bool-cases (not (paren == b'(') || not (last == b')'))) [
                  | inl e ↦ rw e (image_stops m)
                  | inr e ↦ rw e (
                      Ends-bind Anything (BlockGoes md) _ _ (alt_Ends line idx) (λ alt _ _.
                        Ends-bind Anything (BlockGoes md) _ _ (substr-Ends line (idx + 2) _)
                          (λ uri _ _.
                            BlockGoes-push 0 (image _ uri _) tt
                              (Reads-refl md (md.last_line_idx + 1)) (omega arith)
                              (inr (omega arith)))))
                ]))
