-- ===== src/Markdown/Inline/Nesting.antt =====
-- src/parser/markdown.cpp, the marks in `try_parse_text`: the tags that stand for them, and how
-- these nest.
use lingdong.Prelude.{
  is_empty, ℕ, ◌+◌, ◌≡◌, ◌≢◌, ◌⊎◌, ◌∙◌, refl, sym, ap, codes, ◌&&◌, ◌||◌, if◌then◌else◌, inl, inr,
  subst, bind-eq-ok, Bool, true, false, List, [], ◌∷◌, ◌++◌, Bytes, drop, substr, scan, size_sub,
  ok, ◌==◌, arith, Bool-cases, append_assoc, append-nil, Lacks,
}
use lingdong.Markdown.Document.{text, Paragraph, LineParseResult}
use lingdong.Markdown.Inline.{is_text_end, try_parse_text}
use lingdong.Markdown.Inline.Marks.{
  MarkState, open_tag, close_tag, toggle, mark_step, marks, no_marks, opens, starts_with_byte,
}

-- The marks in the text of a document: bold is 1, italic is 2, struck out is 3.
unfoldable pub mark : ℕ → Bytes
mark k = if k == 1 then codes "**" else if k == 2 then codes "*" else codes "~~"

-- The mark `k` may be taken before the text `s`: one star only if no other follows.
abbrev pub IsMark : ℕ → Bytes → Type 0
IsMark k s = (k ≡ 1) ⊎ ((k ≡ 2) × (starts_with_byte b'*' s ≡ false)) ⊎ (k ≡ 3)

-- `Marked stack s out stack'`: the text `s` is written as `out`, where the marks of `stack` are
-- open before it and those of `stack'` behind it, the last one first. The longest mark is taken;
-- it closes the mark that was opened last, if that is the same, and opens one otherwise. Any other
-- byte stays.
pub data Marked : List ℕ → Bytes → Bytes → List ℕ → Type 0 where
  done : {stack : List ℕ} → Marked stack [] [] stack
  byte :
      {stack stack' : List ℕ} {s out : Bytes} (c : ℕ)
      → c ≢ b'*'
      → (c ≡ b'~' → starts_with_byte b'~' s ≡ false)
      → Marked stack s out stack'
      → Marked stack (c ∷ s) (c ∷ out) stack'
  opened :
      {stack stack' : List ℕ} {s out : Bytes} (k : ℕ)
      → IsMark k s
      → opens k stack ≡ true
      → Marked (k ∷ stack) s out stack'
      → Marked stack (mark k ++ s) (open_tag k ++ out) stack'
  closed :
      {stack stack' : List ℕ} {s out : Bytes} (k : ℕ)
      → IsMark k s
      → Marked stack s out stack'
      → Marked (k ∷ stack) (mark k ++ s) (close_tag k ++ out) stack'

abbrev at_start : Bytes → List ℕ → MarkState
at_start out stack = record { out = out; stack = stack; skip = false }

-- From `out` and `stack` on, the loop has come to `final` behind the text `s`.
abbrev Written : Bytes → List ℕ → Bytes → MarkState → Type 0
Written out stack s final = (o : Bytes) × (final.out ≡ out ++ o) × Marked stack s o final.stack

toggle-Written :
    (k : ℕ) (wide : Bool) (out : Bytes) (stack : List ℕ) (s : Bytes) (final : MarkState)
    → IsMark k s
    → (let m = toggle k wide (at_start out stack) in Written m.out m.stack s final)
    → Written out stack (mark k ++ s) final
toggle-Written k wide out [] s final is (o, e, w) =
    (open_tag k ++ o, e ∙ append_assoc out (open_tag k) o, opened k is refl w)
toggle-Written k wide out (top ∷ stack) s final is w = elim (Bool-cases (top == k)) [
  | inl e ↦
      let same : k ≡ top = ground (arith, e) in
      let (o, f, rest) = rw e at w in
      (
        close_tag k ++ o,
        f ∙ append_assoc out (close_tag k) o,
        subst (λ t. Marked (t ∷ stack) (mark k ++ s) (close_tag k ++ o) final.stack) same
            (closed k is rest),
      )
  | inr e ↦
      let (o, f, rest) = rw e at w in
      (open_tag k ++ o, f ∙ append_assoc out (open_tag k) o, opened k is (rw e refl) rest)
]

-- A mark of two bytes begins with `c` before `rest`.
abbrev is_wide : ℕ → Bytes → Bool
is_wide c rest = (c == b'*' || c == b'~') && starts_with_byte c rest

mark_step-put :
    (c : ℕ) (rest out : Bytes) (stack : List ℕ)
    → is_wide c rest ≡ false
    → c ≢ b'*'
    → mark_step c rest (at_start out stack) ≡ at_start (out ++ c ∷ []) stack
unfolding mark_step
mark_step-put c rest out stack e h = ground arith

mark_step-em :
    (c : ℕ) (rest out : Bytes) (stack : List ℕ)
    → is_wide c rest ≡ false
    → c ≡ b'*'
    → mark_step c rest (at_start out stack) ≡ toggle 2 false (at_start out stack)
unfolding mark_step
mark_step-em c rest out stack e h = ground arith

marks-cons : (c : ℕ) (s : Bytes) (m : MarkState) → marks (c ∷ s) m ≡ marks s (mark_step c s m)
unfolding marks mark_step
marks-cons c s m = refl

mark_step-skip :
    (c : ℕ) (rest : Bytes) (m : MarkState)
    → m.skip ≡ true
    → mark_step c rest m ≡ at_start m.out m.stack
unfolding mark_step
mark_step-skip c rest m e = rw e refl

toggle-skip :
    (k : ℕ) (wide : Bool) (out : Bytes) (stack : List ℕ)
    → (toggle k wide (at_start out stack)).skip ≡ wide
toggle-skip k wide out stack = elim (Bool-cases (opens k stack)) [
  | inl e ↦ rw e refl
  | inr e ↦ rw e refl
]

narrow-Written :
    (c : ℕ) (rest out : Bytes) (stack : List ℕ)
    → is_wide c rest ≡ false
    → ((out : Bytes) (stack : List ℕ) → Written out stack rest (marks rest (at_start out stack)))
    → Written out stack (c ∷ rest) (marks (c ∷ rest) (at_start out stack))
unfolding mark
narrow-Written c rest out stack e writes = elim (Bool-cases (c == b'*')) [
  | inr d ↦
      let other : c ≢ b'*' = ground (arith, d) in
      let (o, f, w) = writes (out ++ c ∷ []) stack in
      rw (marks-cons c rest (at_start out stack)) (
        rw (mark_step-put c rest out stack e other)
          (c ∷ o, f ∙ append_assoc out (c ∷ []) o, byte c other (λ tilde. ground arith) w))
  | inl d ↦
      let star : c ≡ b'*' = ground (arith, d) in
      let m = toggle 2 false (at_start out stack) in
      let whole : m ≡ at_start m.out m.stack =
        ap (λ b. record { out = m.out; stack = m.stack; skip = b })
          (toggle-skip 2 false out stack) in
      let final = marks rest (at_start m.out m.stack) in
      let made : marks (c ∷ rest) (at_start out stack) ≡ final =
        marks-cons c rest (at_start out stack)
        ∙ ap (marks rest) (mark_step-em c rest out stack e star ∙ whole) in
      let one : Written out stack (codes "*" ++ rest) final =
        toggle-Written 2 false out stack rest final (inr (inl (refl, ground arith)))
          (writes m.out m.stack) in
      rw made (rw star one)
]

-- Two bytes that are a mark.
wide-Written :
    (k c : ℕ) (rest out : Bytes) (stack : List ℕ)
    → IsMark k rest
    → mark k ≡ c ∷ c ∷ []
    → mark_step c (c ∷ rest) (at_start out stack) ≡ toggle k true (at_start out stack)
    → ((out : Bytes) (stack : List ℕ) → Written out stack rest (marks rest (at_start out stack)))
    → Written out stack (c ∷ c ∷ rest) (marks (c ∷ c ∷ rest) (at_start out stack))
wide-Written k c rest out stack is two step writes =
    let m = toggle k true (at_start out stack) in
    let final = marks rest (at_start m.out m.stack) in
    let made : marks (c ∷ c ∷ rest) (at_start out stack) ≡ final =
      marks-cons c (c ∷ rest) (at_start out stack)
      ∙ ap (marks (c ∷ rest)) step
      ∙ marks-cons c rest m
      ∙ ap (marks rest) (mark_step-skip c rest m (toggle-skip k true out stack)) in
    rw made (
      subst (λ s. Written out stack (s ++ rest) final) two
        (toggle-Written k true out stack rest final is (writes m.out m.stack)))

mark_step-strong :
    (c : ℕ) (rest out : Bytes) (stack : List ℕ)
    → c ≡ b'*'
    → mark_step c (c ∷ rest) (at_start out stack) ≡ toggle 1 true (at_start out stack)
unfolding mark_step
mark_step-strong c rest out stack star = ground arith

mark_step-strike :
    (c : ℕ) (rest out : Bytes) (stack : List ℕ)
    → c ≡ b'~'
    → mark_step c (c ∷ rest) (at_start out stack) ≡ toggle 3 true (at_start out stack)
unfolding mark_step
mark_step-strike c rest out stack tilde = ground arith

mark-strong : (c : ℕ) → c ≡ b'*' → mark 1 ≡ c ∷ c ∷ []
unfolding mark
mark-strong c star = rw star refl

mark-strike : (c : ℕ) → c ≡ b'~' → mark 3 ≡ c ∷ c ∷ []
unfolding mark
mark-strike c tilde = rw tilde refl

marks-Written :
    (s out : Bytes) (stack : List ℕ) → Written out stack s (marks s (at_start out stack))
unfolding marks
marks-Written [] out stack = ([], sym (append-nil out), done)
marks-Written (c ∷ []) out stack =
    narrow-Written c [] out stack (ground arith) (λ out stack. marks-Written [] out stack)
marks-Written (c ∷ d ∷ s) out stack = elim (Bool-cases (is_wide c (d ∷ s))) [
  | inr e ↦ narrow-Written c (d ∷ s) out stack e (λ out stack. marks-Written (d ∷ s) out stack)
  | inl e ↦
      let same : d ≡ c = ground (arith, e) in
      let writes = λ (out : Bytes) (stack : List ℕ). marks-Written s out stack in
      subst (λ d. Written out stack (c ∷ d ∷ s) (marks (c ∷ d ∷ s) (at_start out stack))) (sym same)
        (elim (Bool-cases (c == b'*')) [
          | inl star ↦
              let is : c ≡ b'*' = ground (arith, star) in
              wide-Written 1 c s out stack (inl refl) (mark-strong c is)
                (mark_step-strong c s out stack is) writes
          | inr other ↦
              let is : c ≡ b'~' = ground (arith, e, other) in
              wide-Written 3 c s out stack (inr (inr refl)) (mark-strike c is)
                (mark_step-strike c s out stack is) writes
        ])
]

-- `try_parse_text` takes the text up to the next byte that begins another span, and puts one text
-- behind the blocks: that text with its marks replaced by tags, each of which closes the one that
-- was opened last or opens one. The status is 0 if all of them are closed at the end, and 2
-- otherwise.
pub try_parse_text-Marked :
    (line : Bytes) (idx : ℕ) (p p' : Paragraph) (r : LineParseResult)
    → try_parse_text line idx p ≡ ok (r, p')
    → (view out : Bytes) × (stack : List ℕ) × (substr line idx (size_sub r.next_pos idx) ≡ ok view)
      × (r.next_pos ≡ scan is_text_end (drop (idx + 1) line) (idx + 1))
      × (p'.blocks ≡ p.blocks ++ text out ∷ [])
      × Marked [] view out stack
      × ((r.status ≡ 0) × (stack ≡ []) ⊎ (r.status ≡ 2) × (stack ≢ []))
unfolding try_parse_text
try_parse_text-Marked line idx p p' r e =
    let end = scan is_text_end (drop (idx + 1) line) (idx + 1) in
    let (view, cut, made) = bind-eq-ok (substr line idx (size_sub end idx)) _ e in
    let (out, all, w) = marks-Written view [] [] in
    let m = marks view no_marks in
    let next : r.next_pos ≡ end = ground (arith, made) in
    let status : r.status ≡ (if is_empty m.stack then 0 else 2) = ground (arith, made) in
    (
      view,
      out,
      m.stack,
      ap (λ n. substr line idx (size_sub n idx)) next ∙ cut,
      next,
      ground (arith, made, all),
      w,
      closed_by m.stack status,
    )
  where
    closed_by :
        (stack : List ℕ)
        → r.status ≡ (if is_empty stack then 0 else 2)
        → (r.status ≡ 0) × (stack ≡ []) ⊎ (r.status ≡ 2) × (stack ≢ [])
    closed_by [] s = inl (s, refl)
    closed_by (k ∷ stack) s = inr (s, λ none. ground (arith, none))

-- Text without stars and tildes is put behind what is there, whatever marks are open, and is kept
-- as it is.
pub marks-Lacks :
    (s out : Bytes) (stack : List ℕ)
    → Lacks b'*' s
    → Lacks b'~' s
    → marks s (record { out = out; stack = stack; skip = false })
      ≡ record { out = out ++ s; stack = stack; skip = false }
unfolding marks mark_step
marks-Lacks [] out stack h k = rw append-nil
marks-Lacks (c ∷ s) out stack h k =
    ground (arith, marks-Lacks s (out ++ c ∷ []) stack h.1 k.1, append_assoc out (c ∷ []) s)
