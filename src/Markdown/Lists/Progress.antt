-- ===== src/Markdown/Lists/Progress.antt =====
-- src/parser/markdown.cpp, the item lists: they end, go on by at least a line, and write over
-- lines that they have read only.
use lingdong.Prelude.{
  ℕ, suc, ◌+◌, ◌≤◌, ◌<◌, ◌≡◌, refl, ◌∙◌, ◌⊎◌, inl, inr, Bool, true, false, not, Bytes, length, set,
  at_index, at_index-Ends, Option, some, ok, ◌>>=◌, Ends, Ends-bind, Ends-map, leb, if◌then◌else◌,
  arith, Bool-cases,
}
use lingdong.Markdown.Document.{
  Paragraph, new_paragraph, Markdown, Items, item_list, no_items, add_item, no_child, Library,
}
use lingdong.Markdown.Document.Frame.{Reads, Reads-refl, Reads-trans, Reads-paragraphs, Reads-set}
use lingdong.Markdown.Inline.{parse_line}
use lingdong.Markdown.Inline.Ends.{Keeps, parse_line-Keeps}
use lingdong.Markdown.Lists.{
  ListEnd, list_end, Loop, indent, set_child, sublist, next_line, item_round,
}

-- From line `idx` of a document of `n` lines the loop has come to the line that it returns.
pub record Goes (n idx : ℕ) (md : Markdown) (r : ListEnd) : Type 0 where
  pub reads : Reads md r.doc r.line_idx
  pub later : idx ≤ r.line_idx
  pub within : r.line_idx ≤ n

abbrev pub Good : ℕ → ℕ → Loop → Type 0
Good n lo loop =
    (idx : ℕ) (items : Items) (md : Markdown)
    → lo < idx
    → idx ≤ n
    → length md.lines ≡ n
    → Ends (Goes n idx md) (loop idx items md)

pub Goes-here :
    (n idx : ℕ) (md : Markdown) (status : Bool) (items : Items)
    → idx ≤ n
    → Goes n idx md (list_end status idx items md)
Goes-here n idx md status items h = record {
  reads = Reads-refl md idx;
  later = omega arith;
  within = h;
}

-- What is behind a step that only reads.
Goes-after :
    {n idx mid : ℕ} {md md' : Markdown} (r : ListEnd)
    → Reads md md' mid
    → idx ≤ mid
    → Goes n mid md' r
    → Goes n idx md r
Goes-after r s h g = record {
  reads = Reads-trans s g.reads g.later;
  later = omega (arith, g.later);
  within = g.within;
}

module _ (lib : Library) (same : Bytes → Bool) (kind : Bytes → Option Bool) (sub : Bool → ℕ → Loop)
    (again : Loop) (blank n lo : ℕ)
    (sub_good : (ordered : Bool) (pos : ℕ) → Good n lo (sub ordered pos))
    (again_good : Good n lo again) where
  sublist-Goes :
      (ordered : Bool) (new_pos idx : ℕ) (items : Items) (md : Markdown)
      → lo < idx
      → idx ≤ n
      → length md.lines ≡ n
      → Ends (Goes n idx md) (sublist lib same kind sub again blank ordered new_pos idx items md)
  unfolding sublist
  sublist-Goes ordered new_pos idx items md h k e =
      let start = record md { last_line_idx = idx } in
      Ends-bind (Goes n idx start) (Goes n idx md) (sub ordered new_pos idx no_items start) _
        (sub_good ordered new_pos idx no_items start h k e)
        (λ r _ g.
          Ends-map (Goes n r.line_idx r.doc) (Goes n idx md)
            (again r.line_idx (set_child items (item_list ordered r.items)) r.doc)
            (again_good r.line_idx (set_child items (item_list ordered r.items)) r.doc
              (omega (arith, g.later)) g.within (g.reads.size ∙ e))
            (λ q g'. Goes-after q (moved md idx r g) g.later g'))
    where
      moved :
          (md : Markdown) (idx : ℕ) (r : ListEnd)
          → Goes n idx (record md { last_line_idx = idx }) r
          → Reads md r.doc r.line_idx
      moved md idx r g = record {
        size = g.reads.size;
        unread = g.reads.unread;
        elements = g.reads.elements;
        body_start = g.reads.body_start;
      }

  next_line-Goes :
      (line : Bytes) (idx : ℕ) (items : Items) (md : Markdown)
      → lo < idx
      → idx ≤ n
      → length md.lines ≡ n
      → Ends (Goes n idx md) (next_line lib same kind sub again blank line idx items md)
  unfolding next_line
  next_line-Goes line idx items md h k e = ground (
    arith,
    Goes-here n idx md true items k,
    again_good idx items md h k e,
    sublist-Goes true (indent line) idx items md h k e,
    sublist-Goes false (indent line) idx items md h k e,
  )

-- The loop goes on by a line at least, or its status is false.
abbrev pub GoesOn : ℕ → ℕ → Markdown → ListEnd → Type 0
GoesOn n idx md r = Goes n idx md r × ((r.ret_status ≡ false) ⊎ (idx < r.line_idx))

module _ (lib : Library) (same : Bytes → Bool) (kind : Bytes → Option Bool) (sub : Bool → ℕ → Loop)
    (again : Loop) (blank n lo : ℕ)
    (sub_good : (ordered : Bool) (pos : ℕ) → Good n lo (sub ordered pos))
    (again_good : Good n lo again) where
  -- Behind an item that has parsed.
  next-GoesOn :
      (line : Bytes) (items : Items) (md md' : Markdown)
      → lo + 1 ≤ n
      → length md.lines ≡ n
      → Keeps md md'
      → Ends (GoesOn n lo md) (
          next_line lib same kind sub again blank line
            (lo + 1)
            items
            (record md' { lines = set md'.lines lo line }))
  next-GoesOn line items md md' h e k =
      let written = record md' { lines = set md'.lines lo line } in
      let first = Reads-paragraphs {md = md} {md' = md'} (lo + 1) k in
      let second = Reads-set md' lo line in
      let both : Reads md written (suc lo) =
        Reads-trans (Reads-paragraphs (suc lo) k) second (omega arith) in
      Ends-map (Goes n (lo + 1) written) (GoesOn n lo md)
        (next_line lib same kind sub again blank line (lo + 1) items written)
        (next_line-Goes lib same kind sub again blank n lo sub_good again_good line (lo + 1) items
          written (omega arith) h (both.size ∙ e))
        (λ r g. (
          Goes-after {mid = lo + 1} r
              (record {
                size = both.size;
                unread = λ j m. both.unread j (omega arith);
                elements = both.elements;
                body_start = both.body_start;
              })
              (omega arith) g,
          inr (omega (arith, g.later)),
        ))

  pub item_round-GoesOn :
      (text : Bytes) (items : Items) (md : Markdown)
      → lo < n
      → length md.lines ≡ n
      → Ends (GoesOn n lo md) (item_round lib same kind sub again blank (some text) lo items md)
  unfolding item_round
  item_round-GoesOn text items md h e =
      Ends-bind (λ r. Keeps md r.2) (GoesOn n lo md) (parse_line lib text (new_paragraph true) md) _
        (parse_line-Keeps lib text (new_paragraph true) md) (λ r _ k. parsed r.0 r.1 r.2 k)
    where
      parsed :
          (done : Bool) (p : Paragraph) (md' : Markdown)
          → Keeps md md'
          → Ends (GoesOn n lo md) (
              if not done
              then ok (list_end false lo (add_item items p no_child) md')
              else if leb (length md'.lines) (lo + 1)
              then ok (list_end true (lo + 1) (add_item items p no_child) md')
              else (at_index md'.lines (lo + 1) >>= λ line.
                  next_line lib same kind sub again blank line
                    (lo + 1)
                    (add_item items p no_child)
                    (record md' { lines = set md'.lines lo line })))
      parsed false p md' k = (
        record { reads = Reads-paragraphs lo k; later = omega arith; within = omega arith },
        inl refl,
      )
      parsed true p md' k = elim (Bool-cases (leb (length md'.lines) (lo + 1))) [
        | inl end ↦ rw end (
          record { reads = Reads-paragraphs (lo + 1) k; later = omega arith; within = omega arith },
          inr (omega arith),
        )
        | inr more ↦ rw more (
            Ends-bind (λ _. lo + 1 < length md'.lines) (GoesOn n lo md)
              (at_index md'.lines (lo + 1)) _ (at_index-Ends md'.lines (lo + 1))
              (λ line _ m. next-GoesOn line (add_item items p no_child) md md' (omega arith) e k))
      ]
