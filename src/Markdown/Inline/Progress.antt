-- ===== src/Markdown/Inline/Progress.antt =====
-- src/parser/markdown.cpp: each `try_parse_…` call moves on, so that `parse_paragraph` on a line
-- ends, and reads nothing outside a line of three bytes or more that does not end in `[^`.
use lingdong.Prelude.{
  ℕ, zero, suc, ◌+◌, ◌-◌, ◌≤◌, ◌<◌, ◌≡◌, ◌≢◌, refl, ap, ◌∙◌, codes, [], ◌∷◌, at_view, ◌⊎◌, inl, inr,
  Bool, true, false, not, ◌&&◌, Bytes, length, at_view-lt, at_view-Lacks, Lacks, substr-le, scan,
  scan_bounds, length-drop, drop, drop-ge, size_sub, size_sub-eq, is_empty, ok, Returns,
  Returns-bind, Anything, ltb, leb, ◌==◌, if◌then◌else◌, arith, Bool-cases,
}
use lingdong.Strings.{view_strip_empty}
use lingdong.Markdown.Document.{Paragraph, LineParseResult, Library, Markdown}
use lingdong.Markdown.Inline.{
  scan_to, ends_without, is_text_end, try_parse_text, try_parse_footnote_ref, try_parse_uri,
  try_parse_link, try_parse_code, try_parse_inline_latex, parse_at, parse_fragments, alignment,
  parse_line,
}

-- The call fails, or it goes on behind `start`.
abbrev pub Advances : ℕ → LineParseResult × Paragraph → Type 0
Advances start r = (r.0.status ≡ 2) ⊎ ((r.0.status ≡ 0) × (start < r.0.next_pos))

scan-from :
    (test : ℕ → Bool) (line : Bytes) (idx : ℕ)
    → idx ≤ length line
    → (idx ≤ scan test (drop idx line) idx) × (scan test (drop idx line) idx ≤ length line)
scan-from test line idx h =
    omega (arith, scan_bounds test (drop idx line) idx, length-drop idx line)

ends_without-ok :
    (c : ℕ) (line : Bytes) (idx : ℕ)
    → 0 < length line
    → (b : Bool) × (ends_without c line idx ≡ ok b)
unfolding ends_without
ends_without-ok c line idx h = elim (Bool-cases (idx == size_sub (length line) 1)) [
  | inr e ↦ (false, rw e refl)
  | inl e ↦
      let (x, read) = at_view-lt line idx (ground (arith, size_sub-eq (length line) 1 h)) in
      (not (x == c), rw (e, read) refl)
]

module _ (line : Bytes) (start : ℕ) (p : Paragraph) (inside : start < length line) where
  text-Advances : Returns (Advances start) (try_parse_text line start p)
  unfolding try_parse_text
  text-Advances =
      rw (substr-le line start _ (omega arith))
        (ground (arith, scan-from is_text_end line (start + 1) (omega arith)))

  uri-Advances : 3 ≤ length line → Returns (Advances start) (try_parse_uri line start p)
  unfolding try_parse_uri
  uri-Advances long =
      let end = scan_to b']' line (start + 1) in
      let close = scan_to b')' line (end + 1) in
      let b = scan-from (λ x. x == b']') line (start + 1) (omega arith) in
      elim (Bool-cases (leb (size_sub (length line) 3) end)) [
        | inl e ↦ rw e text-Advances
        | inr e ↦
            let room : end + 3 < length line = ground (arith, size_sub-eq (length line) 3 long) in
            let (c, read) = at_view-lt line (end + 1) (omega arith) in
            let b' = scan-from (λ x. x == b')') line (end + 1) (omega arith) in
            let (u, unclosed) = ends_without-ok b')' line close (omega arith) in
            rw (e, read)
              (ground (
                arith,
                text-Advances,
                substr-le line (start + 1) (size_sub (size_sub end start) 1) (omega arith),
                unclosed,
                substr-le line (end + 1 + 1) (size_sub (size_sub close (end + 1)) 1) (omega arith),
              ))
      ]

  code-Advances : (lib : Library) → Returns (Advances start) (try_parse_code lib line start p)
  unfolding try_parse_code
  code-Advances lib =
      let end = scan_to b'`' line (start + 1) in
      let b = scan-from (λ x. x == b'`') line (start + 1) (omega arith) in
      let (u, unclosed) = ends_without-ok b'`' line end (omega arith) in
      rw unclosed (
        ground (
          arith,
          text-Advances,
          substr-le line (start + 1) (size_sub (size_sub end start) 1) (omega arith),
        ))

  latex-Advances :
      (lib : Library) → Returns (Advances start) (try_parse_inline_latex lib line start p)
  unfolding try_parse_inline_latex
  latex-Advances lib =
      let end = scan_to b'$' line (start + 1) in
      let b = scan-from (λ x. x == b'$') line (start + 1) (omega arith) in
      let (u, unclosed) = ends_without-ok b'$' line end (omega arith) in
      rw unclosed (
        ground (
          arith,
          text-Advances,
          substr-le line (start + 1) (size_sub (size_sub end start) 1) (omega arith),
        ))

footnote_ref-Advances :
    (line : Bytes) (start : ℕ) (p : Paragraph)
    → start < length line
    → Returns (Advances start) (try_parse_footnote_ref line start p)
unfolding try_parse_footnote_ref
footnote_ref-Advances line start p h =
    let (c, read) = at_view-lt line start h in
    let idx = if c == b']' then start else scan_to b']' line (start + 1) in
    rw read (
      ground (
        arith,
        scan_bounds (λ x. x == b']') (drop (start + 1) line) (start + 1),
        substr-le line start (size_sub idx start) (omega arith),
      ))

-- The text does not end in the opening of a footnote, behind which nothing stands.
abbrev pub EndsClosed : Bytes → Type 0
EndsClosed line = drop (length line - 2) line ≢ codes "[^"

drop-at_view :
    (line : Bytes) (i : ℕ) {c : ℕ} → at_view line i ≡ ok c → drop i line ≡ c ∷ drop (suc i) line
unfolding at_view
drop-at_view [] i e = cc
drop-at_view (x ∷ line) zero e = ground (arith, e)
drop-at_view (x ∷ line) (suc i) e = drop-at_view line i e

is_empty-false : (s : Bytes) → is_empty s ≡ false → 0 < length s
is_empty-false [] e = cc
is_empty-false (c ∷ s) e = omega arith

-- Behind `[^` there is another byte.
footnote_room :
    (line : Bytes) (start : ℕ) {c d : ℕ}
    → EndsClosed line
    → start + 1 < length line
    → at_view line start ≡ ok c
    → c ≡ b'['
    → at_view line (start + 1) ≡ ok d
    → d ≡ b'^'
    → start + 2 < length line
footnote_room line start closed inside first bracket second caret =
    elim (Bool-cases (ltb (start + 2) (length line))) [
      | inl e ↦ ground (arith, e)
      | inr e ↦
          let here : length line - 2 ≡ start = ground (arith, e) in
          let next : suc start ≡ start + 1 = omega arith in
          let none_behind : drop (suc (start + 1)) line ≡ [] =
            drop-ge (suc (start + 1)) line (ground (arith, e)) in
          absurd (
            closed (
              ap (λ n. drop n line) here
              ∙ drop-at_view line start first
              ∙ rw next (
                  rw (drop-at_view line (start + 1) second)
                    (rw none_behind (rw bracket (rw caret refl))))))
    ]

link-Advances :
    (line : Bytes) (start : ℕ) (p : Paragraph) {c : ℕ}
    → start < length line
    → 3 ≤ length line
    → EndsClosed line
    → at_view line start ≡ ok c
    → c ≡ b'['
    → Returns (Advances start) (try_parse_link line start p)
unfolding try_parse_link
link-Advances line start p inside long closed first bracket =
    elim (Bool-cases (ltb (start + 1) (length line))) [
      | inr e ↦ rw e (uri-Advances line start p inside long)
      | inl e ↦
          let (c, read) = at_view-lt line (start + 1) (ground arith) in
          elim (Bool-cases (c == b'^')) [
            | inr d ↦ rw (e, read, d) (uri-Advances line start p inside long)
            | inl d ↦
                rw (e, read, d)
                  (Returns-bind (Advances (start + 2)) (Advances start)
                    (try_parse_footnote_ref line (start + 2) p) _
                    (footnote_ref-Advances line (start + 2) p (
                      footnote_room line start closed (ground arith) first bracket read
                        (ground arith)))
                    (λ r _ a. ground (arith, uri-Advances line start r.1 inside long)))
          ]
    ]

-- A line that holds no opening bracket, or one of three bytes or more that does not end in the
-- opening of a footnote.
abbrev pub IsReadable : Bytes → Type 0
IsReadable line = ((3 ≤ length line) × EndsClosed line) ⊎ Lacks b'[' line

-- One round of the loop.
pub parse_at-Advances :
    (lib : Library) (line : Bytes) (idx : ℕ) (p : Paragraph)
    → idx < length line
    → IsReadable line
    → Returns (Advances idx) (parse_at lib line idx p)
unfolding parse_at
parse_at-Advances lib line idx p inside (inl (long, closed)) =
    let (c, read) = at_view-lt line idx (omega arith) in
    rw read (
      ground (
        arith,
        code-Advances line idx p inside lib,
        latex-Advances line idx p inside lib,
        λ (b : c ≡ b'['). link-Advances line idx p inside long closed read b,
        text-Advances line idx p inside,
      ))
parse_at-Advances lib line idx p inside (inr lacks) =
    let (c, read) = at_view-lt line idx (omega arith) in
    rw read (
      ground (
        arith,
        at_view-Lacks b'[' line idx lacks read,
        code-Advances line idx p inside lib,
        latex-Advances line idx p inside lib,
        text-Advances line idx p inside,
      ))

-- What the loop does with the result of a round.
continue-Returns :
    (lib : Library) (fuel : ℕ) (line : Bytes) (idx : ℕ) (r : LineParseResult × Paragraph)
    → Advances idx r
    → ((next : ℕ) → idx < next → Returns Anything (parse_fragments lib fuel line next r.1))
    → Returns Anything (elim (r.0.status == 2) [
      | true ↦ ok (false, r.1)
      | false ↦ parse_fragments lib fuel line (if r.0.status == 0 then r.0.next_pos else idx) r.1
    ])
continue-Returns lib fuel line idx r (inl e) rest = rw e tt
continue-Returns lib fuel line idx r (inr (e, m)) rest =
    let two : (r.0.status == 2) ≡ false = rw e in rw two (rw e (rest r.0.next_pos m))

pub parse_fragments-Returns :
    (lib : Library) (fuel : ℕ) (line : Bytes) (idx : ℕ) (p : Paragraph)
    → IsReadable line
    → length line - idx < fuel
    → Returns Anything (parse_fragments lib fuel line idx p)
unfolding parse_fragments
parse_fragments-Returns lib zero line idx p long h = absurd (omega arith)
parse_fragments-Returns lib (suc fuel) line idx p long h =
    elim (Bool-cases (ltb idx (length line))) [
      | inr e ↦ rw (e, parse_fragments) tt
      | inl e ↦
          let k : idx < length line = ground arith in
          rw (e, parse_fragments)
            (Returns-bind (Advances idx) Anything (parse_at lib line idx p) _
              (parse_at-Advances lib line idx p k long)
              (λ r _ a.
                continue-Returns lib fuel line idx r a
                  (λ next m. parse_fragments-Returns lib fuel line next r.1 long (omega arith))))
    ]

alignment-Returns :
    (lib : Library) (line : Bytes) (p : Paragraph)
    → 0 < length line
    → Returns Anything (alignment lib line p)
unfolding alignment
alignment-Returns lib line p h =
    let (c, read) = at_view-lt line 0 (omega arith) in
    rw (read, alignment)
      (elim (Bool-cases (c == b'\\' && ltb 2 (length line))) [
        | inr e ↦ rw e tt
        | inl e ↦ let (d, read') = at_view-lt line 1 (ground arith) in rw (e, read') tt
      ])

-- On a line that, without the blanks at its ends, has no opening bracket, or has three bytes or
-- more and does not end in `[^`, the call of `parse_paragraph` returns: every loop ends, and
-- nothing is read outside the line.
pub parse_line-Returns :
    (lib : Library) (line : Bytes) (p : Paragraph) (md : Markdown)
    → IsReadable (view_strip_empty line)
    → Returns Anything (parse_line lib line p md)
unfolding parse_line
parse_line-Returns lib line p md h = elim (Bool-cases (is_empty (view_strip_empty line))) [
  | inl e ↦ rw (e, parse_line) tt
  | inr e ↦
      rw (e, parse_line)
        (Returns-bind Anything Anything (alignment lib (view_strip_empty line) p) _
          (alignment-Returns lib (view_strip_empty line) p
            (is_empty-false (view_strip_empty line) e))
          (λ r _ _.
            Returns-bind Anything Anything
              (parse_fragments lib (suc (length (view_strip_empty line))) (view_strip_empty line)
                r.0 r.1)
              _
              (parse_fragments-Returns lib (suc (length (view_strip_empty line)))
                (view_strip_empty line) r.0 r.1 h (omega arith))
              (λ _ _ _. tt)))
]
