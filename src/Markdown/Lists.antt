-- ===== src/Markdown/Lists.antt =====
-- src/parser/markdown.cpp, the item lists. In both functions `last_line` is a reference into
-- `lines`, so that `last_line = lines.at(line_idx)` writes the line in hand over the one before.
pub mod Progress
pub mod AtEnd
pub mod Loops
use lingdong.Prelude.{
  ℕ, zero, suc, ◌+◌, Bool, true, false, not, ◌&&◌, ◌||◌, List, [], ◌∷◌, Bytes, at, at_index, set,
  substr, scan, length, drop, size_sub, is_empty, Option, none, some, Result, ok, fail, no_fuel,
  ◌>>=◌, ltb, leb, ◌==◌, if◌then◌else◌,
}
use lingdong.Strings.{is_space}
use lingdong.Markdown.Document.{
  Paragraph, new_paragraph, ItemList, item_list, Items, no_items, add_item, no_child, child,
  Markdown, lists, push_element, ParseResult, make, Library,
}
use lingdong.Markdown.Inline.{parse_line}

-- What a list function leaves: its `ret_status`, its `line_idx`, the items, and the document.
pub record ListEnd : Type 0 where
  pub ret_status : Bool
  pub line_idx : ℕ
  pub items : Items
  pub doc : Markdown

abbrev pub list_end : Bool → ℕ → Items → Markdown → ListEnd
list_end status idx items md = record {
  ret_status = status;
  line_idx = idx;
  items = items;
  doc = md;
}

-- `Item::is_ordered_item`.
unfoldable pub is_ordered_item : Bytes → Bool
is_ordered_item (c ∷ d ∷ e ∷ s) = leb b'1' c && leb c b'9' && d == b'.'
is_ordered_item _ = false

-- `items.back().child = …`.
abbrev pub set_child : Items → ItemList → Items
set_child no_items l = no_items
set_child (add_item items p c) l = add_item items p (child l)

-- The text of an item in the line, or `none` where the loop breaks at once.
unfoldable pub dash_text : ℕ → Bytes → Result (Option Bytes)
dash_text pos line =
    if leb (length line) pos
    then ok none
    else (do s ← substr line (pos + 1) (size_sub (size_sub (length line) 1) pos); ok (some s))

unfoldable pub ordered_text : ℕ → Bytes → Result (Option Bytes)
ordered_text pos line = do
  s ← substr line (pos + 2) (size_sub (size_sub (length line) 2) pos)
  ok (some s)

abbrev pub starts_dash : Bytes → Bool
starts_dash [] = false
starts_dash (c ∷ s) = c == b'-'

-- What a deeper line begins: an ordered list or not, or no list.
abbrev pub dash_kind : Bytes → Option Bool
dash_kind s = if starts_dash s then some false else none

unfoldable pub ordered_kind : Bytes → Option Bool
ordered_kind s = if is_ordered_item s then some true else if starts_dash s then some false else none

-- The position of the first byte that is no blank; the NUL behind the line is none.
abbrev pub indent : Bytes → ℕ
indent line = scan (λ c. not (is_space c)) line 0

abbrev pub Loop : Type 0
Loop = ℕ → Items → Markdown → Result ListEnd

-- The body of the two loops behind the text of the item: `same` tests a line as deep as the
-- list, `kind` one that is deeper, `sub` parses a sublist and `again` is the next round.
module _ (lib : Library) (same : Bytes → Bool) (kind : Bytes → Option Bool) (sub : Bool → ℕ → Loop)
    (again : Loop) (blank_prefix_length : ℕ) where
  -- The sublist and what follows it; the status of the sublist is dropped.
  unfoldable pub sublist : Bool → ℕ → ℕ → Items → Markdown → Result ListEnd
  sublist ordered new_pos line_idx items md = do
    r ← sub ordered new_pos line_idx no_items (record md { last_line_idx = line_idx })
    again r.line_idx (set_child items (item_list ordered r.items)) r.doc

  -- The line behind an item.
  unfoldable pub next_line : Bytes → ℕ → Items → Markdown → Result ListEnd
  next_line line line_idx items md =
      let stop : Result ListEnd = ok (list_end true line_idx items md) in
      let new_pos = indent line in
      if is_empty line
      then stop
      else if new_pos == blank_prefix_length
      then (if same (drop new_pos line) then again line_idx items md else stop)
      else if ltb blank_prefix_length new_pos
      then (elim (kind (drop new_pos line)) [
        | none ↦ stop
        | some ordered ↦ sublist ordered new_pos line_idx items md
      ])
      else stop

  -- One round, for the item whose text is `text`.
  unfoldable pub item_round : Option Bytes → ℕ → Items → Markdown → Result ListEnd
  item_round none line_idx items md = ok (list_end true line_idx items md)
  item_round (some text) line_idx items md = do
    (done, p, md') ← parse_line lib text (new_paragraph true) md
    let items' = add_item items p no_child
    if not done
        then ok (list_end false line_idx items' md')
        else if leb (length md'.lines) (line_idx + 1)
        then ok (list_end true (line_idx + 1) items' md')
        else (do
          line ← at_index md'.lines (line_idx + 1)
          next_line line (line_idx + 1) items' (record md' { lines = set md'.lines line_idx line }))

-- Each round is at a line behind the one before, so this many rounds are enough.
abbrev pub list_fuel : Markdown → ℕ
list_fuel md = suc (length md.lines)

abbrev pub finish : Bool → ListEnd → ParseResult × Markdown
finish ordered r = (
  make (if r.ret_status then 0 else 2) r.line_idx,
  push_element r.doc (lists (item_list ordered r.items)),
)

module _ (lib : Library) where
  -- `parse_itemlist(level, blank_prefix_length, item_list)`, with a bound on the rounds.
  unfoldable pub parse_itemlist_from : ℕ → ℕ → Loop
  parse_itemlist_from zero blank_prefix_length line_idx items md = fail no_fuel
  parse_itemlist_from (suc fuel) blank_prefix_length line_idx items md = do
    line ← at_index md.lines line_idx
    text ← dash_text blank_prefix_length line
    item_round lib starts_dash dash_kind (λ ordered pos. parse_itemlist_from fuel pos)
        (parse_itemlist_from fuel blank_prefix_length) blank_prefix_length text line_idx items md

  -- `parse_ordered_itemlist(level, blank_prefix_length, item_list)`.
  unfoldable pub parse_ordered_itemlist_from : ℕ → ℕ → Loop
  parse_ordered_itemlist_from zero blank_prefix_length line_idx items md = fail no_fuel
  parse_ordered_itemlist_from (suc fuel) blank_prefix_length line_idx items md = do
    line ← at_index md.lines line_idx
    text ← ordered_text blank_prefix_length line
    item_round lib is_ordered_item ordered_kind
        (λ ordered pos.
          if ordered then parse_ordered_itemlist_from fuel pos else parse_itemlist_from fuel pos)
        (parse_ordered_itemlist_from fuel blank_prefix_length) blank_prefix_length text line_idx
        items md

  unfoldable pub parse_itemlist : Markdown → Result (ParseResult × Markdown)
  parse_itemlist md = do
    r ← parse_itemlist_from (list_fuel md) 0 md.last_line_idx no_items md
    ok (finish false r)

  unfoldable pub parse_ordered_itemlist : Markdown → Result (ParseResult × Markdown)
  parse_ordered_itemlist md = do
    r ← parse_ordered_itemlist_from (list_fuel md) 0 md.last_line_idx no_items md
    ok (finish true r)
