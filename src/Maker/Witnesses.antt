-- ===== src/Maker/Witnesses.antt =====
-- The theorems on src/maker.hpp at concrete inputs.
use lingdong.Prelude.{
  ◌≡◌, refl, true, false, List, [], ◌∷◌, Bytes, bytes_eq, codes, concat, none, some, ok, fail, All,
  arith,
}
use lingdong.Prelude.Map.{lookup, insert}
use lingdong.Markdown.Parser.{parse_file, new_markdown}
use lingdong.Markdown.Parser.Tests.{sample_library, runs}
use lingdong.Markdown.Html.{
  to_html, elements_html, element_html, footnotes_html, blank_list, paragraph_html, to_text,
  fragment_html, by_key,
}
use lingdong.Maker.Posts.{
  Post, Platform, CachedJson, to_json, id, title, updated_at, html, html_of, parsed_title,
  parsed_date, parsed_id, parsed_html, parse_post,
}
use lingdong.Maker.Cache.{MakerCache, new_cache, cache_it, store, to_jsons, load, file_bytes}
use lingdong.Maker.Cache.Store.{IsStorable, insert_all, store-load}
use lingdong.Maker.Build.{Input, parse_fresh, make_post, make_posts}
use lingdong.Maker.Build.Incremental.{IsFresh, SameAll, make_posts-same}
use lingdong.Maker.Site.{
  Output, Site, generate, render_posts, render_post, post_items, post_item, feed_items,
  html_file_name,
}
use lingdong.Maker.Make.{
  DirectoryEntry, by_file_name, is_markdown_file, load_directory, load_files, init_cache,
  make_loaded, make,
}
use lingdong.Maker.Make.Whole.{Parses, markdown_files, IsWhole, make-IsWhole}
use lingdong.Maker.Build.{sort, put_in_order, newest_first, make_pages, parse_all}
use lingdong.Maker.Posts.{new_post}

abbrev note_path : Bytes
note_path = codes "note.md"

abbrev note_html : Bytes
note_html = codes "<p class=\"text-align-justify\">x</p>"

-- A post as a cache file has it.
abbrev note : Post
note = record {
  is_page = false;
  file_path = note_path;
  parser = none;
  last_write_time = 5;
  post_updated = [];
  file_name = codes "note";
  cached_id = codes "n";
  cached_title = codes "Note";
  cached_updated_at = codes "2024";
  cached_html = note_html;
}

abbrev note_json : CachedJson
note_json = record {
  json_path = note_path;
  json_write_time = 5;
  json_id = codes "n";
  json_title = codes "Note";
  json_updated_at = codes "2024";
  json_html = note_html;
  json_is_page = false;
}

abbrev sample_platform : Platform
sample_platform = record {
  convert = λ time. [];
  stem = λ path. codes "note";
  dump = λ j. codes "{}";
  parse_json = λ s. some note_json;
}

abbrev changed_cache : MakerCache
changed_cache = cache_it note new_cache

note_stored :
    store sample_library sample_platform true changed_cache
    ≡ ok (true, some (file_bytes sample_platform (note_json ∷ [])), changed_cache)
unfolding store to_jsons to_json id title updated_at html html_of cache_it insert
note_stored = refl

note_jsons : to_jsons sample_library changed_cache.state ≡ ok (note_json ∷ [], changed_cache.state)
unfolding to_jsons to_json id title updated_at html html_of cache_it insert
note_jsons = refl

note-IsStorable : All (IsStorable sample_platform) (note_json ∷ [])
note-IsStorable = ((omega arith, omega arith, refl), tt)

store-load_example :
    load sample_platform (some (some (file_bytes sample_platform (note_json ∷ [])))) new_cache
    ≡ ok (true, record new_cache { pre_state = insert_all sample_platform (note_json ∷ []) [] })
store-load_example =
    store-load sample_platform sample_library changed_cache changed_cache (note_json ∷ [])
      changed_cache.state note_jsons note-IsStorable (omega arith) (omega arith) note_stored

abbrev note_text : Bytes
note_text = codes "---\nid: n\ntitle: Note\ndate: 2024\n---\nx"

abbrev note_input : Input
note_input = (
  record note {
    parser = some new_markdown;
    cached_id = [];
    cached_title = [];
    cached_updated_at = [];
    cached_html = [];
  },
  some note_text,
)

abbrev old_cache : MakerCache
old_cache = record new_cache { pre_state = (note_path, note) ∷ [] }

unfoldable fresh_note : Post
unfolding parse_fresh
fresh_note = elim (parse_fresh sample_library (λ md. md) note_input new_cache) [
  | fail f ↦ note
  | ok (none, c) ↦ note
  | ok (some post, c) ↦ post
]

note_made :
    make_posts sample_library (λ md. md) true (note_input ∷ []) new_cache
    ≡ ok (true, fresh_note ∷ [], cache_it fresh_note new_cache)
unfolding runs make_posts make_post parse_fresh parse_post parse_file cache_it insert fresh_note
note_made = refl

note-IsFresh : All (IsFresh sample_library (λ md. md) old_cache.pre_state) (note_input ∷ [])
unfolding runs parse_post parse_file lookup parsed_title parsed_date parsed_id id title updated_at
    html html_of parsed_html to_html elements_html element_html footnotes_html blank_list
    paragraph_html to_text fragment_html by_key concat
note-IsFresh = ((refl, tt), tt)

make_posts-same_example :
    SameAll sample_library (λ md. md) (note_input ∷ []) old_cache (fresh_note ∷ [])
make_posts-same_example =
    make_posts-same sample_library (λ md. md) (note_input ∷ []) new_cache old_cache note-IsFresh
      note_made

abbrev sample_output : Output
sample_output = record { render = λ title date content. content; can_open = λ file_path. true }

-- The site of one post, without a feed.
unfoldable note_site : Site
note_site = record {
  files = (codes "posts/n.html", note_html) ∷ [];
  posts_list =
      record {
        item_title = codes "Note";
        item_updated_at = codes "2024";
        item_url = codes "/posts/n.html";
      }
      ∷ [];
  feed = [];
  index =
      record {
        item_title = codes "Note";
        item_updated_at = codes "2024";
        item_url = codes "/posts/n.html";
      }
      ∷ [];
}

-- A directory with a post and another file.
abbrev note_entry : DirectoryEntry
note_entry = record {
  is_regular_file = true;
  extension = codes ".md";
  source = record { path = note_path; stem = codes "note"; written = 5; content = some note_text };
}

abbrev note_directory : List DirectoryEntry
note_directory = note_entry ∷ record note_entry { extension = codes ".txt" } ∷ []

note_directory-Parses :
    All
      (Parses sample_library (λ md. md) sample_platform)
      (markdown_files sample_library (λ md. md) sample_platform note_directory)
unfolding runs parse_file is_markdown_file bytes_eq
note_directory-Parses = ((_, refl), tt)

note_run :
    make sample_library
      (λ md. md)
      sample_platform
      sample_output
      true
      true
      false
      []
      none
      note_directory
      []
    ≡ ok (true, some note_site, some (file_bytes sample_platform (note_json ∷ [])))
unfolding runs make make_loaded init_cache load_files load_directory is_markdown_file by_file_name
    new_post sort put_in_order newest_first parse_all make_posts make_pages make_post parse_fresh
    parse_post parse_file cache_it store to_jsons to_json generate render_posts render_post
    post_items post_item feed_items html_file_name title updated_at id html html_of parsed_title
    parsed_date parsed_id parsed_html to_html elements_html element_html footnotes_html blank_list
    paragraph_html to_text fragment_html by_key insert concat note_site bytes_eq
note_run = refl

make-IsWhole_example : IsWhole sample_library (λ md. md) sample_platform note_directory note_site
make-IsWhole_example =
    make-IsWhole sample_library (λ md. md) sample_platform sample_output true false [] none
      note_directory [] (λ file_path. refl) note_directory-Parses note_run
