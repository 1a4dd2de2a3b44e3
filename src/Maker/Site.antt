-- ===== src/Maker/Site.antt =====
-- src/maker.hpp: `Maker::generate`, which writes a file for each post and each page, and the lists
-- of posts that the templates of the index and of the feed are given.
pub mod Ids
pub mod Links
use lingdong.Prelude.{
  ℕ, ◌-◌, Bool, true, false, List, [], ◌∷◌, ◌++◌, Bytes, codes, concat, take, length, Result, ok,
  fail, undefined, ◌>>=◌, is_empty, ◌==◌, if◌then◌else◌,
}
use lingdong.Prelude.Map.{insert}
use lingdong.Markdown.Document.{Library}
use lingdong.Maker.Posts.{Post, title, updated_at, id, html}

-- What the maker takes from inja and the file system: the page that the template makes of a title,
-- a date and a content, and whether a file can be opened.
pub record Output : Type 0 where
  pub render : Bytes → Bytes → Bytes → Bytes
  pub can_open : Bytes → Bool

-- The files below `dist_path_`, by path.
abbrev pub Files : Type 0
Files = List (Bytes × Bytes)

unfoldable pub html_file_name : Post → Bytes × Post
html_file_name post = (concat ((id post).0 ∷ codes ".html" ∷ []), (id post).1)

abbrev pub dir_name : Bool → Bytes
dir_name true = codes "pages/"
dir_name false = codes "posts/"

-- What the templates show of a post.
pub record PostItem : Type 0 where
  pub item_title : Bytes
  pub item_updated_at : Bytes
  pub item_url : Bytes

-- The body of the loops in `make_posts` and `make_index`.
unfoldable pub post_item : Post → PostItem × Post
post_item post =
    let (s, p1) = title post in
    let (date, p2) = updated_at p1 in
    let (name, p3) = html_file_name p2 in
    (
      record {
        item_title = s;
        item_updated_at = date;
        item_url = codes "/" ++ codes "posts/" ++ name;
      },
      p3,
    )

unfoldable pub post_items : List Post → List PostItem × List Post
post_items [] = ([], [])
post_items (post ∷ posts) =
    let (item, post') = post_item post in
    let (items, posts') = post_items posts in (item ∷ items, post' ∷ posts')

-- The last byte of the address of the site, which is not looked for where there is none.
unfoldable pub last_byte : Bytes → Result ℕ
last_byte [] = fail undefined
last_byte (c ∷ []) = ok c
last_byte (c ∷ d ∷ s) = last_byte (d ∷ s)

-- The address of the site without a slash at its end.
unfoldable pub trimmed_url : Bytes → Result Bytes
trimmed_url site_url = do
  c ← last_byte site_url
  ok (if c == b'/' then take (length site_url - 1) site_url else site_url)

pub record Site : Type 0 where
  pub files : Files
  pub posts_list : List PostItem
  pub feed : List (Bytes × Bytes × Bytes × Bytes)
  pub index : List PostItem

module _ (lib : Library) (output : Output) where
  abbrev pub write_page : Bytes → Bytes → Files → Files
  write_page file_path page files =
      if output.can_open file_path then insert file_path page files else files

  -- `render_post`.
  unfoldable pub render_post : Post → Files → Result (Post × Files)
  render_post post files = do
    let p1 = (title post).1
    let p2 = (updated_at p1).1
    (content, p3) ← html lib p2
    let name = (html_file_name p3).0
    ok (
      (html_file_name p3).1,
      write_page (dir_name post.is_page ++ name)
          (output.render (title post).0 (updated_at p1).0 content) files,
    )

  unfoldable pub render_posts : List Post → Files → Result (List Post × Files)
  render_posts [] files = ok ([], files)
  render_posts (post ∷ posts) files = do
    (post', files') ← render_post post files
    (posts', files'') ← render_posts posts files'
    ok (post' ∷ posts', files'')

  -- The item of a post in `make_rss`: its title, its content, its date and its link.
  unfoldable pub rss_item : Bytes → Post → Result ((Bytes × Bytes × Bytes × Bytes) × Post)
  rss_item site_url post = do
    let p1 = (title post).1
    (content, p2) ← html lib p1
    let p3 = (updated_at p2).1
    ok (
      (
        (title post).0,
        concat (codes "<![CDATA[" ∷ content ∷ codes "]]>" ∷ []),
        (updated_at p2).0,
        concat (site_url ∷ codes "/posts/" ∷ (html_file_name p3).0 ∷ []),
      ),
      (html_file_name p3).1,
    )

  unfoldable pub rss_items :
      Bytes → List Post → Result (List (Bytes × Bytes × Bytes × Bytes) × List Post)
  rss_items site_url [] = ok ([], [])
  rss_items site_url (post ∷ posts) = do
    (item, post') ← rss_item site_url post
    (items, posts') ← rss_items site_url posts
    ok (item ∷ items, post' ∷ posts')

  -- The part of `make_rss` before the file is written.
  unfoldable pub make_rss :
      Bytes → List Post → Result (List (Bytes × Bytes × Bytes × Bytes) × List Post)
  make_rss site_url posts = do address ← trimmed_url site_url; rss_items address posts

  unfoldable pub feed_items :
      Bool → Bytes → List Post → Result (List (Bytes × Bytes × Bytes × Bytes) × List Post)
  feed_items false site_url posts = ok ([], posts)
  feed_items true site_url posts = make_rss site_url posts

  -- `generate`, where `has_rss` says whether the theme has a template of a feed: the files of the
  -- posts and the pages, the items of the list of posts, of the feed and of the index.
  unfoldable pub generate : Bool → Bytes → List Post → List Post → Result Site
  generate has_rss site_url parsed_posts parsed_pages = do
    (posts, files) ← render_posts parsed_posts []
    (pages, files') ← render_posts parsed_pages files
    (feed, posts') ← feed_items has_rss site_url (post_items posts).1
    ok (record {
      files = files';
      posts_list = (post_items posts).0;
      feed = feed;
      index = (post_items posts').0;
    })
