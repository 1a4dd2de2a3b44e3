-- ===== src/Markdown/Lists/Loops.antt =====
-- src/parser/markdown.cpp: `parse_itemlist` and `parse_ordered_itemlist` end.
use lingdong.Prelude.{
  ℕ, zero, suc, ◌+◌, ◌-◌, ◌≤◌, ◌<◌, ◌≡◌, refl, true, false, Bytes, length, at_index, at_index-Ends,
  at_index-ok-lt, none, some, ok, Ends, Ends-bind, Ends-map, Anything, substr-Ends, size_sub,
  substr, leb, arith,
}
use lingdong.Markdown.Document.{Markdown, Items, Library}
use lingdong.Markdown.Lists.{
  is_ordered_item, starts_dash, dash_kind, ordered_kind, dash_text, ordered_text, item_round,
  parse_itemlist_from, parse_ordered_itemlist_from,
}
use lingdong.Markdown.Lists.Progress.{Goes, Goes-here, GoesOn, item_round-GoesOn}

dash_text-Ends : (pos : ℕ) (line : Bytes) → Ends Anything (dash_text pos line)
unfolding dash_text
dash_text-Ends pos line =
    ground (arith, substr-Ends line (pos + 1) (size_sub (size_sub (length line) 1) pos))

dash_text-some :
    (pos : ℕ) (line : Bytes)
    → pos < length line
    → Ends (λ t. (s : Bytes) × (t ≡ some s)) (dash_text pos line)
unfolding dash_text
dash_text-some pos line h =
    let short : leb (length line) pos ≡ false = ground arith in
    rw short (
      Ends-bind Anything (λ t. (s : Bytes) × (t ≡ some s))
        (substr line (pos + 1) (size_sub (size_sub (length line) 1) pos)) _
        (substr-Ends line (pos + 1) (size_sub (size_sub (length line) 1) pos)) (λ s _ _. (s, refl)))

ordered_text-Ends :
    (pos : ℕ) (line : Bytes) → Ends (λ t. (s : Bytes) × (t ≡ some s)) (ordered_text pos line)
unfolding ordered_text
ordered_text-Ends pos line =
    Ends-bind Anything (λ t. (s : Bytes) × (t ≡ some s))
      (substr line (pos + 2) (size_sub (size_sub (length line) 2) pos)) _
      (substr-Ends line (pos + 2) (size_sub (size_sub (length line) 2) pos)) (λ s _ _. (s, refl))

module _ (lib : Library) where
  parse_itemlist_from-Goes :
      (fuel blank n idx : ℕ) (items : Items) (md : Markdown)
      → n - idx < fuel
      → idx ≤ n
      → length md.lines ≡ n
      → Ends (Goes n idx md) (parse_itemlist_from lib fuel blank idx items md)
  unfolding parse_itemlist_from
  parse_itemlist_from-Goes zero blank n idx items md f h e = absurd (omega arith)
  parse_itemlist_from-Goes (suc fuel) blank n idx items md f h e =
      Ends-bind (λ _. idx < length md.lines) (Goes n idx md) (at_index md.lines idx) _
        (at_index-Ends md.lines idx)
        (λ line _ m.
          Ends-bind Anything (Goes n idx md) (dash_text blank line) _ (dash_text-Ends blank line)
            (elim [
              | none ↦ λ _ _. unfold item_round in Goes-here n idx md true items h
              | some text ↦ λ _ _.
                  Ends-map (GoesOn n idx md) (Goes n idx md) _
                    (item_round-GoesOn lib starts_dash dash_kind _ _ blank n idx
                      (λ ordered pos i its d l k q.
                        parse_itemlist_from-Goes fuel pos n i its d (omega arith) k q)
                      (λ i its d l k q.
                        parse_itemlist_from-Goes fuel blank n i its d (omega arith) k q)
                      text items md (omega arith) e)
                    (λ r g. g.0)
            ]))

  pub parse_ordered_itemlist_from-GoesOn :
      (fuel blank n idx : ℕ) (items : Items) (md : Markdown)
      → n - idx < fuel
      → idx ≤ n
      → length md.lines ≡ n
      → Ends (GoesOn n idx md) (parse_ordered_itemlist_from lib fuel blank idx items md)
  unfolding parse_ordered_itemlist_from
  parse_ordered_itemlist_from-GoesOn zero blank n idx items md f h e = absurd (omega arith)
  parse_ordered_itemlist_from-GoesOn (suc fuel) blank n idx items md f h e =
      Ends-bind (λ _. idx < length md.lines) (GoesOn n idx md) (at_index md.lines idx) _
        (at_index-Ends md.lines idx)
        (λ line _ m.
          Ends-bind (λ t. (s : Bytes) × (t ≡ some s)) (GoesOn n idx md) (ordered_text blank line) _
            (ordered_text-Ends blank line)
            (elim [
              | none ↦ λ _ t. cc t.1
              | some text ↦ λ _ _.
                  item_round-GoesOn lib is_ordered_item ordered_kind _ _ blank n idx
                    (elim [
                      | true ↦ λ pos i its d l k q.
                          Ends-map (GoesOn n i d) (Goes n i d) _
                            (parse_ordered_itemlist_from-GoesOn fuel pos n i its d (omega arith) k
                              q)
                            (λ r g. g.0)
                      | false ↦ λ pos i its d l k q.
                          parse_itemlist_from-Goes fuel pos n i its d (omega arith) k q
                    ])
                    (λ i its d l k q.
                      Ends-map (GoesOn n i d) (Goes n i d) _
                        (parse_ordered_itemlist_from-GoesOn fuel blank n i its d (omega arith) k q)
                        (λ r g. g.0))
                    text items md (omega arith) e
            ]))

  -- At a line that is longer than the indent of the list the loop takes it for an item.
  pub parse_itemlist_from-GoesOn :
      (fuel blank n idx : ℕ) (items : Items) (md : Markdown) (line : Bytes)
      → n - idx < fuel
      → length md.lines ≡ n
      → at_index md.lines idx ≡ ok line
      → blank < length line
      → Ends (GoesOn n idx md) (parse_itemlist_from lib fuel blank idx items md)
  unfolding parse_itemlist_from
  parse_itemlist_from-GoesOn zero blank n idx items md line f e at_line long = absurd (omega arith)
  parse_itemlist_from-GoesOn (suc fuel) blank n idx items md line f e at_line long =
      rw (at_line, parse_itemlist_from)
        (Ends-bind (λ t. (s : Bytes) × (t ≡ some s)) (GoesOn n idx md) (dash_text blank line) _
          (dash_text-some blank line long)
          (elim [
            | none ↦ λ _ t. cc t.1
            | some text ↦ λ _ _.
                item_round-GoesOn lib starts_dash dash_kind _ _ blank n idx
                  (λ ordered pos i its d l k q.
                    parse_itemlist_from-Goes fuel pos n i its d (omega arith) k q)
                  (λ i its d l k q. parse_itemlist_from-Goes fuel blank n i its d (omega arith) k q)
                  text items md (omega (arith, at_index-ok-lt md.lines idx at_line)) e
          ]))
