-- ===== src/Maker/Build.antt =====
-- src/maker.hpp: `Maker::parse`, which takes each post from the cache or parses it.
pub mod Incremental
use lingdong.Prelude.{
  ℕ, Bool, true, false, not, List, [], ◌∷◌, ◌++◌, Bytes, Option, none, some, Result, ok, ◌>>=◌,
  bytes_eq, if◌then◌else◌,
}
use lingdong.Markdown.Document.{Markdown, Library}
use lingdong.Markdown.Html.{bytes_lt}
use lingdong.Maker.Posts.{Post, parse_post, title, updated_at, Platform}
use lingdong.Maker.Cache.{MakerCache, match_then_get, cache_it, store}

-- A post with what its file holds.
abbrev pub Input : Type 0
Input = Post × Option Bytes

abbrev pub with_parser : Post → (Markdown → Markdown) → Post
with_parser post plugins = record post {
  parser = elim post.parser [ none ↦ none | some md ↦ some (plugins md) ];
}

-- `std::sort` by an order of the code. Where two elements are not told apart, the order that it
-- leaves them in is open; here the later one comes first.
module _ {ℓ} {A : Type ℓ} where
  unfoldable pub put_in_order : (A → A → Bool) → A → List A → List A
  put_in_order before x [] = x ∷ []
  put_in_order before x (y ∷ ys) =
      let rest = put_in_order before x ys in if before y x then y ∷ rest else x ∷ y ∷ ys

  unfoldable pub sort : (A → A → Bool) → List A → List A
  sort before [] = []
  sort before (x ∷ xs) = put_in_order before x (sort before xs)

-- The order of the posts: the newest first, then by title.
unfoldable pub newest_first : Post → Post → Bool
newest_first p1 p2 =
    let (date1, p1') = updated_at p1 in
    let (date2, p2') = updated_at p2 in
    if bytes_eq date1 date2 then bytes_lt (title p2').0 (title p1').0 else bytes_lt date2 date1

module _ (lib : Library) (plugins : Markdown → Markdown) where
  -- A post that is not taken from the cache; nothing if it cannot be parsed.
  unfoldable pub parse_fresh : Input → MakerCache → Result (Option Post × MakerCache)
  parse_fresh (post, content) cache = do
    (done, parsed) ← parse_post lib content post
    if not done
        then ok (none, cache)
        else ok (some (with_parser parsed plugins), cache_it (with_parser parsed plugins) cache)

  -- The body of both loops.
  unfoldable pub make_post : Bool → Input → MakerCache → Result (Option Post × MakerCache)
  make_post true (post, content) cache = parse_fresh (post, content) cache
  make_post false (post, content) cache =
      let ((hit, found), after) = match_then_get post.file_path post.last_write_time cache in
      if hit then ok (found, after) else parse_fresh (post, content) after

  -- The loop over the posts: it ends at the first that cannot be parsed.
  unfoldable pub make_posts :
      Bool → List Input → MakerCache → Result (Bool × List Post × MakerCache)
  make_posts ignore [] cache = ok (true, [], cache)
  make_posts ignore (input ∷ inputs) cache = do
    (made, cache') ← make_post ignore input cache
    elim made [
      | none ↦ ok (false, [], cache')
      | some post ↦ do
        (done, posts, cache'') ← make_posts ignore inputs cache'
        ok (done, post ∷ posts, cache'')
    ]

  -- The loop over the pages, which leaves out those that cannot be parsed.
  unfoldable pub make_pages : Bool → List Input → MakerCache → Result (List Post × MakerCache)
  make_pages ignore [] cache = ok ([], cache)
  make_pages ignore (input ∷ inputs) cache = do
    (made, cache') ← make_post ignore input cache
    (pages, cache'') ← make_pages ignore inputs cache'
    ok (elim made [ none ↦ pages | some page ↦ page ∷ pages ], cache'')

  -- `Maker::parse`, once the plugins are there: whether it went well, the posts in their order, the
  -- pages, the new cache file, and the cache.
  unfoldable pub parse_all :
      Platform
      → Bool
      → Bool
      → List Input
      → List Input
      → MakerCache
      → Result (Bool × List Post × List Post × Option Bytes × MakerCache)
  parse_all platform can_open ignore posts pages cache = do
    (done, parsed, cache1) ← make_posts ignore posts cache
    if not done then ok (false, parsed, [], none, cache1) else (do
      (made, cache2) ← make_pages ignore pages cache1
      (stored, file, cache3) ← store lib platform can_open cache2
      ok (true, sort newest_first parsed, made, file, cache3))
