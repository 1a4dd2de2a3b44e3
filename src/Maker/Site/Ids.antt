-- ===== src/Maker/Site/Ids.antt =====
-- src/maker.hpp: what keeps the id of a post.
use lingdong.Prelude.{
  ◌≡◌, refl, sym, ap, ◌∙◌, [], ◌∷◌, Bytes, Option, none, some, ok, bind-eq-ok, arith,
}
use lingdong.Markdown.Document.{Library, Markdown}
use lingdong.Markdown.Html.{to_html, elements_html}
use lingdong.Maker.Posts.{
  Post, or_else, title, updated_at, id, parsed_id, parsed_html, html, html_of,
}
use lingdong.Maker.Site.{html_file_name}

abbrev pub id_of : Post → Bytes
id_of post = (id post).0

or_else-twice : (kept now : Bytes) → or_else (or_else kept now) now ≡ or_else kept now
or_else-twice [] [] = refl
or_else-twice [] (c ∷ s) = refl
or_else-twice (c ∷ s) now = refl

-- A post is asked for its id as often as one likes.
pub id_of-id : (post : Post) → id_of (id post).1 ≡ id_of post
unfolding id
id_of-id post = or_else-twice post.cached_id (or_else (parsed_id post.parser) post.file_name)

pub id_of-title : (post : Post) → id_of (title post).1 ≡ id_of post
unfolding id title
id_of-title post = refl

pub id_of-updated_at : (post : Post) → id_of (updated_at post).1 ≡ id_of post
unfolding id updated_at
id_of-updated_at post = refl

pub id_of-html_file_name : (post : Post) → id_of (html_file_name post).1 ≡ id_of post
unfolding html_file_name
id_of-html_file_name post = id_of-id post

module _ (lib : Library) where
  parsed_id-parsed_html :
      (parser : Option Markdown) {s : Bytes} {parser' : Option Markdown}
      → parsed_html lib parser ≡ ok (s, parser')
      → parsed_id parser' ≡ parsed_id parser
  unfolding parsed_html to_html parsed_id
  parsed_id-parsed_html none e = ground (arith, e)
  parsed_id-parsed_html (some md) e =
      let (r, printed, e') = bind-eq-ok (to_html lib md) _ e in
      let (es, printed', e'') = bind-eq-ok (elements_html lib md.elements) _ printed in
      ground (arith, e', e'')

  id_of-html_of :
      (kept : Bytes) (post : Post) {s : Bytes} {post' : Post}
      → html_of lib kept post ≡ ok (s, post')
      → id_of post' ≡ id_of post
  unfolding html_of id
  id_of-html_of [] post {s} {post'} e =
      let (r, printed, e') = bind-eq-ok (parsed_html lib post.parser) _ e in
      let same = parsed_id-parsed_html post.parser printed in
      let there : record post { cached_html = r.0; parser = r.1 } ≡ post' = ground (arith, e') in
      ap id_of (sym there) ∙ ap (λ i. or_else post.cached_id (or_else i post.file_name)) same
  id_of-html_of (c ∷ kept) post e = ground (arith, e)

  pub id_of-html :
      (post : Post) {s : Bytes} {post' : Post}
      → html lib post ≡ ok (s, post')
      → id_of post' ≡ id_of post
  unfolding html
  id_of-html post e = id_of-html_of post.cached_html post e
