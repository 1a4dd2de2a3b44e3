-- ===== src/Markdown/Document.antt =====
-- The data of src/parser/markdown.h. An object behind a shared pointer is its value: the parser
-- changes no paragraph after it has stored it.
pub mod Frame
use lingdong.Prelude.{
  ℕ, ◌≡◌, Option, none, some, Bool, true, false, List, [], ◌∷◌, ◌++◌, Bytes, codes, npos,
}

-- `InlineCode`, `InlineLatex`, `InlineLink`, `InlineFootnoteRef` and `Text`.
pub data Fragment : Type 0 where
  inline_code : Bytes → Fragment
  inline_latex : Bytes → Fragment
  inline_link : Bytes → Bytes → Fragment
  inline_footnote_ref : Bytes → Fragment
  text : Bytes → Fragment

pub record Paragraph : Type 0 where
  pub text_align : Bytes
  pub unwrap_html : Bool
  pub blocks : List Fragment

abbrev pub new_paragraph : Bool → Paragraph
new_paragraph unwrap = record { text_align = codes "justify"; unwrap_html = unwrap; blocks = [] }

abbrev pub push_block : Paragraph → Fragment → Paragraph
push_block p b = record p { blocks = p.blocks ++ b ∷ [] }

-- `ItemList` with its `std::vector<Item>`, which grows at its back: the last item is outermost.
-- An item has a paragraph and a child list or a null pointer. The depth that the parser hands
-- down is never read again, so `level` is left out.
mutual
  pub data ItemList : Type 0 where
    item_list : Bool → Items → ItemList

  pub data Items : Type 0 where
    no_items : Items
    add_item : Items → Paragraph → Child → Items

  pub data Child : Type 0 where
    no_child : Child
    child : ItemList → Child

pub data AlignmentType : Type 0 where
  left right center : AlignmentType

pub record Table : Type 0 where
  pub col_title_vec : List Bytes
  pub col_alignment_vec : List AlignmentType
  pub col_row_vec : List (List Paragraph)

-- The classes derived from `Element` that the parser makes. The elements of a block quote are
-- paragraphs.
pub data Element : Type 0 where
  html_element : Bytes → Bytes → Element
  heading : ℕ → Paragraph → Element
  paragraph : Paragraph → Element
  block_quote : List Paragraph → Element
  lists : ItemList → Element
  code_block : Bytes → List (Bytes × Bytes) → List Bytes → Element
  latex_block : Bytes → Element
  horizontal_rule : Element
  image : Bytes → Bytes → Bytes → Element
  table : Table → Element

-- `dynamic_cast` of an element to `CodeBlock` and to `Image`: their fields, or a null pointer.
abbrev pub as_code_block : Element → Option (Bytes × List (Bytes × Bytes) × List Bytes)
as_code_block (code_block lang attrs block_lines) = some (lang, attrs, block_lines)
as_code_block _ = none

abbrev pub as_image : Element → Option (Bytes × Bytes × Bytes)
as_image (image alt uri width) = some (alt, uri, width)
as_image _ = none

pub as_code_block-eq :
    (e : Element) {lang : Bytes} {attrs : List (Bytes × Bytes)} {block_lines : List Bytes}
    → as_code_block e ≡ some (lang, attrs, block_lines)
    → e ≡ code_block lang attrs block_lines
as_code_block-eq (code_block a b c) h = cc h
as_code_block-eq _ h = cc h

pub as_image-eq :
    (e : Element) {alt uri width : Bytes}
    → as_image e ≡ some (alt, uri, width)
    → e ≡ image alt uri width
as_image-eq (image a b c) h = cc h
as_image-eq _ h = cc h

-- `PostMetadata`.
pub record Metadata : Type 0 where
  pub id : Bytes
  pub title : Bytes
  pub publish_date : Bytes
  pub tags : List Bytes

-- The fields of `Markdown`. A footnote is its id and its paragraph.
pub record Markdown : Type 0 where
  pub lines : List Bytes
  pub body_start_line_idx : ℕ
  pub last_line_idx : ℕ
  pub metadata : Metadata
  pub elements : List Element
  pub footnotes : List (Bytes × Paragraph)
  pub paragraphs : List Paragraph

-- `ParseResult`: 0 is ok, 1 is not, 2 is illegal.
pub record ParseResult : Type 0 where
  pub status : ℕ
  pub next_line_idx : ℕ

abbrev pub make : ℕ → ℕ → ParseResult
make status next = record { status = status; next_line_idx = next }

-- `LineParseResult`, with the default `next_pos` of -1.
pub record LineParseResult : Type 0 where
  pub status : ℕ
  pub next_pos : ℕ

abbrev pub moved : ℕ → LineParseResult
moved next = record { status = 0; next_pos = next }

abbrev pub illegal : LineParseResult
illegal = record { status = 2; next_pos = npos }

abbrev pub push_element : Markdown → Element → Markdown
push_element md e = record md { elements = md.elements ++ e ∷ [] }

-- The functions of the libraries that the parser calls: `absl::StrSplit` at a byte, plain and with
-- `SkipWhitespace`, `absl::StrJoin`, `inja::htmlescape`,
-- `absl::AsciiStrToLower`, and `format2date` of a civil day, which
-- src/utils/time.hpp takes from absl.
pub record Library : Type 0 where
  pub str_split : Bytes → ℕ → List Bytes
  pub str_split_skip : Bytes → ℕ → List Bytes
  pub str_join : List Bytes → Bytes → Bytes
  pub html_escape : Bytes → Bytes
  pub date_convert : Bytes → Bytes
  pub to_lower : Bytes → Bytes
