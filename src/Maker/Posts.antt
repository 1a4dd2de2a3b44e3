-- ===== src/Maker/Posts.antt =====
-- src/maker.hpp: `Post`, `CachedPost` and the cached answers of their members.
use lingdong.Prelude.{
  false, ℕ, Bool, List, [], ◌∷◌, Bytes, Option, none, some, Result, ok, ◌>>=◌, ◌==◌, if◌then◌else◌,
}
use lingdong.Markdown.Document.{
  Markdown, Element, heading, Library, html_element, paragraph, block_quote, lists, code_block,
  latex_block, horizontal_rule, image, table,
}
use lingdong.Markdown.Parser.{parse_file, new_markdown}
use lingdong.Markdown.Html.{to_html, paragraph_html}

-- The fields of `Post`. The parser of a cached post is a null pointer. A time is in nanoseconds.
pub record Post : Type 0 where
  pub is_page : Bool
  pub file_path : Bytes
  pub parser : Option Markdown
  pub last_write_time : ℕ
  pub post_updated : Bytes
  pub file_name : Bytes
  pub cached_id : Bytes
  pub cached_title : Bytes
  pub cached_updated_at : Bytes
  pub cached_html : Bytes

-- What the file system says of a file: `file_path`, its stem, the time of the last write, and the
-- bytes, if it can be opened.
pub record Source : Type 0 where
  pub path : Bytes
  pub stem : Bytes
  pub written : ℕ
  pub content : Option Bytes

-- The title of the first heading of level 1.
unfoldable pub first_heading : List Element → Bytes
first_heading [] = []
first_heading (heading level p ∷ es) =
    let rest = first_heading es in if level == 1 then paragraph_html p else rest
first_heading (html_element _ _ ∷ es) = first_heading es
first_heading (paragraph _ ∷ es) = first_heading es
first_heading (block_quote _ ∷ es) = first_heading es
first_heading (lists _ ∷ es) = first_heading es
first_heading (code_block _ _ _ ∷ es) = first_heading es
first_heading (latex_block _ ∷ es) = first_heading es
first_heading (horizontal_rule ∷ es) = first_heading es
first_heading (image _ _ _ ∷ es) = first_heading es
first_heading (table _ ∷ es) = first_heading es

-- The answer that is kept, or the one that is made now; it is kept if it is not empty.
abbrev pub or_else : Bytes → Bytes → Bytes
or_else [] now = now
or_else (c ∷ s) now = c ∷ s

unfoldable pub parsed_title : Option Markdown → Bytes
parsed_title none = []
parsed_title (some md) = or_else md.metadata.title (first_heading md.elements)

unfoldable pub title : Post → Bytes × Post
title post =
    let s = or_else post.cached_title (parsed_title post.parser) in
    (s, record post { cached_title = s })

unfoldable pub parsed_date : Option Markdown → Bytes
parsed_date none = []
parsed_date (some md) = md.metadata.publish_date

unfoldable pub updated_at : Post → Bytes × Post
updated_at post =
    let s = or_else post.cached_updated_at (or_else (parsed_date post.parser) post.post_updated) in
    (s, record post { cached_updated_at = s })

unfoldable pub parsed_id : Option Markdown → Bytes
parsed_id none = []
parsed_id (some md) = md.metadata.id

unfoldable pub id : Post → Bytes × Post
id post =
    let s = or_else post.cached_id (or_else (parsed_id post.parser) post.file_name) in
    (s, record post { cached_id = s })

-- `CachedPost` as the object that its JSON text stands for.
pub record CachedJson : Type 0 where
  pub json_path : Bytes
  pub json_write_time : ℕ
  pub json_id : Bytes
  pub json_title : Bytes
  pub json_updated_at : Bytes
  pub json_html : Bytes
  pub json_is_page : Bool

-- What the maker takes from the libraries and the platform: `utils::convert` of a time, the stem
-- of a path, and the text of a JSON object.
pub record Platform : Type 0 where
  pub convert : ℕ → Bytes
  pub stem : Bytes → Bytes
  pub dump : CachedJson → Bytes
  pub parse_json : Bytes → Option CachedJson

module _ (lib : Library) where
  unfoldable pub parsed_html : Option Markdown → Result (Bytes × Option Markdown)
  parsed_html none = ok ([], none)
  parsed_html (some md) = do (s, md') ← to_html lib md; ok (s, some md')

  unfoldable pub html_of : Bytes → Post → Result (Bytes × Post)
  html_of [] post = do
    (s, parser) ← parsed_html post.parser
    ok (s, record post { cached_html = s; parser = parser })
  html_of (c ∷ s) post = ok (c ∷ s, post)

  -- `html`: it prints the document once.
  unfoldable pub html : Post → Result (Bytes × Post)
  html post = html_of post.cached_html post

  -- `Post::parse`, on what the file holds. A cached post has no parser.
  unfoldable pub parse_post : Option Bytes → Post → Result (Bool × Post)
  parse_post content post = elim post.parser [
    | none ↦ ok (false, post)
    | some md ↦ do
      (done, parsed) ← parse_file lib content
      ok (done, record post { parser = some parsed })
  ]

  -- `CachedPost::to_json`.
  unfoldable pub to_json : Post → Result (CachedJson × Post)
  to_json p0 = do
    let p1 = (id p0).1
    let p2 = (title p1).1
    let p3 = (updated_at p2).1
    (s, p4) ← html p3
    ok (
      record {
        json_path = p0.file_path;
        json_write_time = p0.last_write_time;
        json_id = (id p0).0;
        json_title = (title p1).0;
        json_updated_at = (updated_at p2).0;
        json_html = s;
        json_is_page = p0.is_page;
      },
      p4,
    )

module _ (platform : Platform) where
  -- The constructor of `Post`.
  unfoldable pub new_post : Bool → Source → Post
  new_post is_page file = record {
    is_page = is_page;
    file_path = file.path;
    parser = some new_markdown;
    last_write_time = file.written;
    post_updated = platform.convert file.written;
    file_name = file.stem;
    cached_id = [];
    cached_title = [];
    cached_updated_at = [];
    cached_html = [];
  }

  -- The constructor of `CachedPost`.
  unfoldable pub from_json : CachedJson → Post
  from_json j = record {
    is_page = j.json_is_page;
    file_path = j.json_path;
    parser = none;
    last_write_time = j.json_write_time;
    post_updated = platform.convert j.json_write_time;
    file_name = platform.stem j.json_path;
    cached_id = j.json_id;
    cached_title = j.json_title;
    cached_updated_at = j.json_updated_at;
    cached_html = j.json_html;
  }
