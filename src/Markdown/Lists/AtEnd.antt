-- ===== src/Markdown/Lists/AtEnd.antt =====
-- src/parser/markdown.cpp, the item lists: behind a sublist the loops read a line before they
-- test that there is one.
use lingdong.Prelude.{
  ℕ, suc, ◌+◌, ◌≤◌, ◌≡◌, Bool, [], length, at_index, at_index-ge, substr-gt, ok, fail, out_of_range,
  arith,
}
use lingdong.Markdown.Document.{Markdown, Items, no_items, Library}
use lingdong.Markdown.Lists.{
  ListEnd, Loop, is_ordered_item, starts_dash, dash_kind, ordered_kind, sublist, ordered_text,
  parse_itemlist_from, parse_ordered_itemlist_from,
}

module _ (lib : Library) (fuel blank : ℕ) where
  from-end :
      (idx : ℕ) (items : Items) (md : Markdown)
      → length md.lines ≤ idx
      → parse_itemlist_from lib (suc fuel) blank idx items md ≡ fail out_of_range
  unfolding parse_itemlist_from
  from-end idx items md h = rw (at_index-ge md.lines idx h)

  ordered_from-end :
      (idx : ℕ) (items : Items) (md : Markdown)
      → length md.lines ≤ idx
      → parse_ordered_itemlist_from lib (suc fuel) blank idx items md ≡ fail out_of_range
  unfolding parse_ordered_itemlist_from
  ordered_from-end idx items md h = rw (at_index-ge md.lines idx h)

  ordered_from-blank :
      (idx : ℕ) (items : Items) (md : Markdown)
      → at_index md.lines idx ≡ ok []
      → parse_ordered_itemlist_from lib (suc fuel) blank idx items md ≡ fail out_of_range
  unfolding parse_ordered_itemlist_from ordered_text
  ordered_from-blank idx items md e = rw (e, substr-gt [] (blank + 2) _ (omega arith))

  module _ (sub : Bool → ℕ → Loop) (ordered : Bool) (new_pos line_idx : ℕ) (items : Items)
      (md : Markdown) (r : ListEnd)
      (parsed : sub ordered new_pos line_idx no_items (record md { last_line_idx = line_idx })
        ≡ ok r) where
    -- If a sublist is parsed and runs to the end of the document, then the list that holds it throws, whether
    -- it is ordered or not.
    pub sublist-throws :
        length r.doc.lines ≤ r.line_idx
        → (sublist lib starts_dash dash_kind sub
              (parse_itemlist_from lib (suc fuel) blank)
              blank
              ordered
              new_pos
              line_idx
              items
              md
            ≡ fail out_of_range)
          × (sublist lib is_ordered_item ordered_kind sub
                (parse_ordered_itemlist_from lib (suc fuel) blank)
                blank
                ordered
                new_pos
                line_idx
                items
                md
              ≡ fail out_of_range)
    unfolding sublist
    sublist-throws h = (
      rw parsed (from-end r.line_idx _ r.doc h),
      rw parsed (ordered_from-end r.line_idx _ r.doc h),
    )

    -- If a sublist of an ordered list is parsed and an empty line is behind it, the list throws.
    pub sublist-throws_blank :
        at_index r.doc.lines r.line_idx ≡ ok []
        → sublist lib is_ordered_item ordered_kind sub
            (parse_ordered_itemlist_from lib (suc fuel) blank)
            blank
            ordered
            new_pos
            line_idx
            items
            md
          ≡ fail out_of_range
    unfolding sublist
    sublist-throws_blank h = rw parsed (ordered_from-blank r.line_idx _ r.doc h)
