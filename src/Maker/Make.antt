-- ===== src/Maker/Make.antt =====
-- src/maker.hpp: `Maker::load` and `Maker::make`, over the parts of the maker.
pub mod Whole
use lingdong.Prelude.{
  Bool, true, false, not, ◌&&◌, ◌||◌, List, [], ◌∷◌, Bytes, codes, bytes_eq, Option, none, some,
  Result, ok, ◌>>=◌, is_empty, if◌then◌else◌,
}
use lingdong.Markdown.Document.{Markdown, Library}
use lingdong.Markdown.Html.{bytes_lt}
use lingdong.Maker.Posts.{Source, Platform, new_post}
use lingdong.Maker.Cache.{MakerCache, new_cache, load}
use lingdong.Maker.Build.{Input, sort, parse_all}
use lingdong.Maker.Site.{Output, Site, generate}

-- What the file system says of an entry of a directory.
pub record DirectoryEntry : Type 0 where
  pub is_regular_file : Bool
  pub extension : Bytes
  pub source : Source

-- The order in which the posts are handled.
unfoldable pub by_file_name : Input → Input → Bool
by_file_name (lhs, s) (rhs, t) = bytes_lt lhs.file_name rhs.file_name

unfoldable pub is_markdown_file : Library → DirectoryEntry → Bool
is_markdown_file lib entry =
    entry.is_regular_file
    && (bytes_eq (lib.to_lower entry.extension) (codes ".md")
        || bytes_eq (lib.to_lower entry.extension) (codes ".markdown"))

-- The posts or the pages of a directory.
unfoldable pub load_directory : Library → Platform → Bool → List DirectoryEntry → List Input
load_directory lib platform is_page [] = []
load_directory lib platform is_page (entry ∷ entries) =
    let others = load_directory lib platform is_page entries in
    if is_markdown_file lib entry
    then (new_post platform is_page entry.source, entry.source.content) ∷ others
    else others

-- `load`, on what stands in the two directories: whether there is anything, the posts, the pages.
unfoldable pub load_files :
    Library → Platform → List DirectoryEntry → List DirectoryEntry → Bool × List Input × List Input
load_files lib platform posts_path pages_path =
    let posts = sort by_file_name (load_directory lib platform false posts_path) in
    let pages = load_directory lib platform true pages_path in
    (not (is_empty posts && is_empty pages), posts, pages)

-- `init`: a cache file that cannot be loaded is only reported.
unfoldable pub init_cache : Platform → Bool → Option (Option Bytes) → Result MakerCache
init_cache platform true cache_file = ok new_cache
init_cache platform false cache_file = do
  (done, cache) ← load platform cache_file new_cache
  ok cache

module _ (lib : Library) (plugins : Markdown → Markdown) (platform : Platform)
    (output : Output) where
  -- The part of `make` behind `load`. What `parse` answers is not looked at.
  unfoldable pub make_loaded :
      Bool
      → Bool
      → Bool
      → Bytes
      → Bool × List Input × List Input
      → MakerCache
      → Result (Bool × Option Site × Option Bytes)
  make_loaded can_store ignore has_rss site_url (false, posts, pages) cache = ok (false, none, none)
  make_loaded can_store ignore has_rss site_url (true, posts, pages) cache = do
    (done, parsed_posts, parsed_pages, file, after) ←
        parse_all lib plugins platform can_store ignore posts pages cache
    site ← generate lib output has_rss site_url parsed_posts parsed_pages
    ok (true, some site, file)

  -- `make`: its answer, the site, if one is generated, and the new cache file, if one is written.
  unfoldable pub make :
      Bool
      → Bool
      → Bool
      → Bytes
      → Option (Option Bytes)
      → List DirectoryEntry
      → List DirectoryEntry
      → Result (Bool × Option Site × Option Bytes)
  make can_store ignore has_rss site_url cache_file posts_path pages_path = do
    cache ← init_cache platform ignore cache_file
    make_loaded can_store ignore has_rss site_url (load_files lib platform posts_path pages_path)
        cache
