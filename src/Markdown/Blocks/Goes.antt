-- ===== src/Markdown/Blocks/Goes.antt =====
-- src/parser/markdown.cpp: what each block parser leaves behind.
use lingdong.Prelude.{
  ℕ, ◌≤◌, ◌<◌, ◌≡◌, refl, sym, ap, ◌∙◌, ◌≢◌, ◌⊎◌, Bool, true, false, List, [], ◌∷◌, ◌++◌,
  append-nil, Bytes, length, get_elem?, All, at_index, ok, Ends, Ends-bind, arith,
}
use lingdong.Markdown.Document.{
  Markdown, Element, ParseResult, make, push_element, item_list, lists, no_items, Library,
}
use lingdong.Markdown.Document.Frame.{Reads, IsShaped}
use lingdong.Markdown.Lists.{
  ListEnd, list_fuel, finish, parse_itemlist_from, parse_ordered_itemlist_from, parse_itemlist,
  parse_ordered_itemlist,
}
use lingdong.Markdown.Lists.Progress.{GoesOn}
use lingdong.Markdown.Lists.Loops.{parse_itemlist_from-GoesOn, parse_ordered_itemlist_from-GoesOn}

-- A block parser goes on by a line at least, or stops the parser; what it has not read and the
-- elements before it are as they were.
pub record BlockGoes (md : Markdown) (r : ParseResult × Markdown) : Type 0 where
  pub size : length r.1.lines ≡ length md.lines
  pub unread : (j : ℕ) → r.0.next_line_idx ≤ j → get_elem? r.1.lines j ≡ get_elem? md.lines j
  pub body_start : r.1.body_start_line_idx ≡ md.body_start_line_idx
  pub added : List Element
  pub elements : r.1.elements ≡ md.elements ++ added
  pub shaped : All IsShaped added
  pub within : r.0.next_line_idx ≤ length md.lines
  pub progress : (r.0.status ≢ 0) ⊎ (md.last_line_idx < r.0.next_line_idx)

-- From what was read, with one more element.
pub BlockGoes-push :
    {md md' : Markdown} {next : ℕ} (status : ℕ) (e : Element)
    → IsShaped e
    → Reads md md' next
    → next ≤ length md.lines
    → ((status ≢ 0) ⊎ (md.last_line_idx < next))
    → BlockGoes md (make status next, push_element md' e)
BlockGoes-push status e s r h p = record {
  size = r.size;
  unread = r.unread;
  body_start = r.body_start;
  added = e ∷ [];
  elements = ap (λ es. es ++ e ∷ []) r.elements;
  shaped = (s, tt);
  within = h;
  progress = p;
}

-- The same, with no element.
pub BlockGoes-none :
    {md md' : Markdown} {next : ℕ} (status : ℕ)
    → Reads md md' next
    → next ≤ length md.lines
    → ((status ≢ 0) ⊎ (md.last_line_idx < next))
    → BlockGoes md (make status next, md')
BlockGoes-none status r h p = record {
  size = r.size;
  unread = r.unread;
  body_start = r.body_start;
  added = [];
  elements = r.elements ∙ sym (append-nil _);
  shaped = tt;
  within = h;
  progress = p;
}

finish-BlockGoes :
    (ordered : Bool) (md : Markdown) (r : ListEnd)
    → GoesOn (length md.lines) md.last_line_idx md r
    → BlockGoes md (finish ordered r)
finish-BlockGoes ordered md r (g, p) =
    BlockGoes-push _ (lists (item_list ordered r.items)) tt g.reads g.within (ground arith)

module _ (lib : Library) where
  pub parse_ordered_itemlist-Goes :
      (md : Markdown)
      → md.last_line_idx ≤ length md.lines
      → Ends (BlockGoes md) (parse_ordered_itemlist lib md)
  unfolding parse_ordered_itemlist
  parse_ordered_itemlist-Goes md h =
      Ends-bind (GoesOn (length md.lines) md.last_line_idx md) (BlockGoes md)
        (parse_ordered_itemlist_from lib (list_fuel md) 0 md.last_line_idx no_items md) _
        (parse_ordered_itemlist_from-GoesOn lib (list_fuel md) 0 (length md.lines) md.last_line_idx
          no_items md (omega arith) h refl)
        (λ r _ g. finish-BlockGoes true md r g)

  pub parse_itemlist-Goes :
      (md : Markdown) (line : Bytes)
      → at_index md.lines md.last_line_idx ≡ ok line
      → 0 < length line
      → Ends (BlockGoes md) (parse_itemlist lib md)
  unfolding parse_itemlist
  parse_itemlist-Goes md line e h =
      Ends-bind (GoesOn (length md.lines) md.last_line_idx md) (BlockGoes md)
        (parse_itemlist_from lib (list_fuel md) 0 md.last_line_idx no_items md) _
        (parse_itemlist_from-GoesOn lib (list_fuel md) 0 (length md.lines) md.last_line_idx no_items
          md line (omega arith) refl e h)
        (λ r _ g. finish-BlockGoes false md r g)
