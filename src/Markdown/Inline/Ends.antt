-- ===== src/Markdown/Inline/Ends.antt =====
-- src/parser/markdown.cpp: on every line, however short, each `try_parse_…` call moves on, and
-- `parse_paragraph` on a line changes nothing of the document but `paragraphs_`.
use lingdong.Prelude.{
  ℕ, zero, suc, ◌+◌, ◌-◌, ◌<◌, ◌≡◌, refl, inl, inr, true, false, ◌&&◌, Bytes, length, at_view,
  at_view-Ends, substr, substr-Ends, scan, scan_bounds, drop, size_sub, is_empty, Result, ok, ◌>>=◌,
  Ends, Ends-bind, Anything, ltb, leb, ◌==◌, if◌then◌else◌, arith, Bool-cases,
}
use lingdong.Strings.{view_strip_empty}
use lingdong.Markdown.Document.{Paragraph, LineParseResult, Library, Markdown}
use lingdong.Markdown.Inline.{
  scan_to, ends_without, is_text_end, try_parse_text, try_parse_footnote_ref, try_parse_uri,
  try_parse_link, try_parse_code, try_parse_inline_latex, parse_at, parse_fragments, alignment,
  parse_line,
}
use lingdong.Markdown.Inline.Progress.{Advances}

ends_without-Ends : (c : ℕ) (line : Bytes) (idx : ℕ) → Ends Anything (ends_without c line idx)
unfolding ends_without
ends_without-Ends c line idx = elim (Bool-cases (idx == size_sub (length line) 1)) [
  | inl e ↦
      rw e (Ends-bind Anything Anything (at_view line idx) _ (at_view-Ends line idx) (λ _ _ _. tt))
  | inr e ↦ rw e tt
]

module _ (line : Bytes) (start : ℕ) (p : Paragraph) where
  text-Ends : Ends (Advances start) (try_parse_text line start p)
  unfolding try_parse_text
  text-Ends =
      let end = scan is_text_end (drop (start + 1) line) (start + 1) in
      Ends-bind Anything (Advances start) (substr line start (size_sub end start)) _
        (substr-Ends line start (size_sub end start))
        (λ view _ _. ground (arith, scan_bounds is_text_end (drop (start + 1) line) (start + 1)))

  -- The part of a span behind the search for its end.
  span-Ends :
      (end : ℕ) (f : Bytes → Result (LineParseResult × Paragraph))
      → ((s : Bytes) → Ends (Advances start) (f s))
      → Ends (Advances start) (substr line (start + 1) (size_sub (size_sub end start) 1) >>= f)
  span-Ends end f h =
      Ends-bind Anything (Advances start)
        (substr line (start + 1) (size_sub (size_sub end start) 1)) f
        (substr-Ends line (start + 1) (size_sub (size_sub end start) 1)) (λ s _ _. h s)

  code-Ends : (lib : Library) → Ends (Advances start) (try_parse_code lib line start p)
  unfolding try_parse_code
  code-Ends lib =
      let end = scan_to b'`' line (start + 1) in
      let b = scan_bounds (λ x. x == b'`') (drop (start + 1) line) (start + 1) in
      Ends-bind Anything (Advances start) (ends_without b'`' line end) _
        (ends_without-Ends b'`' line end)
        (elim [
          | true ↦ λ _ _. text-Ends
          | false ↦ λ _ _. span-Ends end _ (λ s. inr (refl, omega arith))
        ])

  latex-Ends : (lib : Library) → Ends (Advances start) (try_parse_inline_latex lib line start p)
  unfolding try_parse_inline_latex
  latex-Ends lib =
      let end = scan_to b'$' line (start + 1) in
      let b = scan_bounds (λ x. x == b'$') (drop (start + 1) line) (start + 1) in
      Ends-bind Anything (Advances start) (ends_without b'$' line end) _
        (ends_without-Ends b'$' line end)
        (elim [
          | true ↦ λ _ _. text-Ends
          | false ↦ λ _ _. span-Ends end _ (λ s. inr (refl, omega arith))
        ])

  uri-Ends : Ends (Advances start) (try_parse_uri line start p)
  unfolding try_parse_uri
  uri-Ends =
      let end = scan_to b']' line (start + 1) in
      let close = scan_to b')' line (end + 1) in
      let b = scan_bounds (λ x. x == b']') (drop (start + 1) line) (start + 1) in
      let b' = scan_bounds (λ x. x == b')') (drop (end + 1) line) (end + 1) in
      elim (Bool-cases (leb (size_sub (length line) 3) end)) [
        | inl e ↦ rw e text-Ends
        | inr e ↦ rw e (
            Ends-bind Anything (Advances start) (at_view line (end + 1)) _
              (at_view-Ends line (end + 1))
              (λ next _ _. elim (Bool-cases (next == b'(')) [
                | inr d ↦ rw d text-Ends
                | inl d ↦ rw d (
                    span-Ends end _ (λ t.
                      Ends-bind Anything (Advances start) (ends_without b')' line close) _
                        (ends_without-Ends b')' line close)
                        (elim [
                          | true ↦ λ _ _. text-Ends
                          | false ↦ λ _ _.
                              Ends-bind Anything (Advances start)
                                (substr line (end + 1 + 1) (size_sub (size_sub close (end + 1)) 1))
                                _
                                (substr-Ends line (end + 1 + 1)
                                  (size_sub (size_sub close (end + 1)) 1))
                                (λ s _ _. inr (refl, omega arith))
                        ])))
              ]))
      ]

  footnote_ref-Ends : Ends (Advances start) (try_parse_footnote_ref line start p)
  unfolding try_parse_footnote_ref
  footnote_ref-Ends =
      Ends-bind Anything (Advances start) (at_view line start) _ (at_view-Ends line start) (λ c _ _.
        let idx = if c == b']' then start else scan_to b']' line (start + 1) in
        ground (
          arith,
          scan_bounds (λ x. x == b']') (drop (start + 1) line) (start + 1),
          substr-Ends line start (size_sub idx start),
        ))

link-Ends :
    (line : Bytes) (start : ℕ) (p : Paragraph) → Ends (Advances start) (try_parse_link line start p)
unfolding try_parse_link
link-Ends line start p = elim (Bool-cases (ltb (start + 1) (length line))) [
  | inr e ↦ rw e (uri-Ends line start p)
  | inl e ↦ rw e (
      Ends-bind Anything (Advances start) (at_view line (start + 1)) _
        (at_view-Ends line (start + 1))
        (λ mark _ _. elim (Bool-cases (mark == b'^')) [
          | inr d ↦ rw d (uri-Ends line start p)
          | inl d ↦ rw d (
              Ends-bind (Advances (start + 2)) (Advances start)
                (try_parse_footnote_ref line (start + 2) p) _ (footnote_ref-Ends line (start + 2) p)
                (λ r _ a. ground (arith, uri-Ends line start r.1)))
        ]))
]

parse_at-Ends :
    (lib : Library) (line : Bytes) (idx : ℕ) (p : Paragraph)
    → Ends (Advances idx) (parse_at lib line idx p)
unfolding parse_at
parse_at-Ends lib line idx p =
    Ends-bind Anything (Advances idx) (at_view line idx) _ (at_view-Ends line idx) (λ c _ _.
      ground (
        arith,
        code-Ends line idx p lib,
        latex-Ends line idx p lib,
        link-Ends line idx p,
        text-Ends line idx p,
      ))

continue-Ends :
    (lib : Library) (fuel : ℕ) (line : Bytes) (idx : ℕ) (r : LineParseResult × Paragraph)
    → Advances idx r
    → ((next : ℕ) → idx < next → Ends Anything (parse_fragments lib fuel line next r.1))
    → Ends Anything (elim (r.0.status == 2) [
      | true ↦ ok (false, r.1)
      | false ↦ parse_fragments lib fuel line (if r.0.status == 0 then r.0.next_pos else idx) r.1
    ])
continue-Ends lib fuel line idx r (inl e) rest = rw e tt
continue-Ends lib fuel line idx r (inr (e, m)) rest =
    let two : (r.0.status == 2) ≡ false = rw e in rw two (rw e (rest r.0.next_pos m))

parse_fragments-Ends :
    (lib : Library) (fuel : ℕ) (line : Bytes) (idx : ℕ) (p : Paragraph)
    → length line - idx < fuel
    → Ends Anything (parse_fragments lib fuel line idx p)
unfolding parse_fragments
parse_fragments-Ends lib zero line idx p h = absurd (omega arith)
parse_fragments-Ends lib (suc fuel) line idx p h = elim (Bool-cases (ltb idx (length line))) [
  | inr e ↦ rw (e, parse_fragments) tt
  | inl e ↦
      let k : idx < length line = ground arith in
      rw (e, parse_fragments)
        (Ends-bind (Advances idx) Anything (parse_at lib line idx p) _
          (parse_at-Ends lib line idx p)
          (λ r _ a.
            continue-Ends lib fuel line idx r a
              (λ next m. parse_fragments-Ends lib fuel line next r.1 (omega arith))))
]

alignment-Ends :
    (lib : Library) (line : Bytes) (p : Paragraph) → Ends Anything (alignment lib line p)
unfolding alignment
alignment-Ends lib line p =
    Ends-bind Anything Anything (at_view line 0) _ (at_view-Ends line 0) (λ c _ _.
      elim (Bool-cases (c == b'\\' && ltb 2 (length line))) [
        | inr e ↦ rw e tt
        | inl e ↦
            rw e
              (Ends-bind Anything Anything (at_view line 1) _ (at_view-Ends line 1) (λ _ _ _. tt))
      ])

-- The document is as before, but for `paragraphs_`.
abbrev pub Keeps : Markdown → Markdown → Type 0
Keeps md md' = md' ≡ record md { paragraphs = md'.paragraphs }

-- On any line `parse_paragraph` ends, and where it returns it has changed nothing of the document
-- but its paragraphs.
pub parse_line-Keeps :
    (lib : Library) (line : Bytes) (p : Paragraph) (md : Markdown)
    → Ends (λ r. Keeps md r.2) (parse_line lib line p md)
unfolding parse_line
parse_line-Keeps lib line p md = elim (Bool-cases (is_empty (view_strip_empty line))) [
  | inl e ↦ rw (e, parse_line) refl
  | inr e ↦
      rw (e, parse_line)
        (Ends-bind Anything (λ r. Keeps md r.2) (alignment lib (view_strip_empty line) p) _
          (alignment-Ends lib (view_strip_empty line) p)
          (λ r _ _.
            Ends-bind Anything (λ q. Keeps md q.2)
              (parse_fragments lib (suc (length (view_strip_empty line))) (view_strip_empty line)
                r.0 r.1)
              _
              (parse_fragments-Ends lib (suc (length (view_strip_empty line)))
                (view_strip_empty line) r.0 r.1 (omega arith))
              (λ q _ _. ground arith)))
]
