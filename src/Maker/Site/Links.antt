-- ===== src/Maker/Site/Links.antt =====
-- src/maker.hpp: the links of the index lead to files that are written.
use lingdong.Prelude.{
  ◌≡◌, refl, sym, subst, ap, ◌∙◌, Bool, true, false, List, [], ◌∷◌, ◌++◌, Bytes, codes, concat, ok,
  bind-eq-ok, All, length, suc, arith,
}
use lingdong.Prelude.Map.{insert, contains, contains-insert, contains-inserted}
use lingdong.Markdown.Document.{Library}
use lingdong.Maker.Posts.{Post, title, updated_at, id, html}
use lingdong.Maker.Site.{
  Output, Files, html_file_name, dir_name, PostItem, post_item, post_items, trimmed_url, write_page,
  render_post, render_posts, rss_item, rss_items, make_rss, feed_items, Site, generate,
}
use lingdong.Maker.Site.Ids.{
  id_of, id_of-id, id_of-title, id_of-updated_at, id_of-html_file_name, id_of-html,
}

abbrev page_of : Bytes → Bytes
page_of i = codes "posts/" ++ concat (i ∷ codes ".html" ∷ [])

post_item-url :
    (post : Post)
    → ((post_item post).0.item_url ≡ codes "/" ++ page_of (id_of post))
      × (id_of (post_item post).1 ≡ id_of post)
unfolding post_item html_file_name title updated_at id
post_item-url post = (refl, id_of-html_file_name (updated_at (title post).1).1)

-- The item leads to a file that is written.
abbrev pub HasPage : Files → PostItem → Type 0
HasPage files item =
    (file_path : Bytes) × (item.item_url ≡ codes "/" ++ file_path)
    × (contains file_path files ≡ true)

abbrev Written : Files → Bytes → Type 0
Written files i = contains (page_of i) files ≡ true

abbrev ids : List Post → List Bytes
ids [] = []
ids (post ∷ posts) = id_of post ∷ ids posts

post_items-HasPage :
    (files : Files) (posts : List Post)
    → All (Written files) (ids posts)
    → All (HasPage files) (post_items posts).0 × (ids (post_items posts).1 ≡ ids posts)
unfolding post_items
post_items-HasPage files [] h = (tt, refl)
post_items-HasPage files (post ∷ posts) (there, h) =
    let (address, same) = post_item-url post in
    let (rest, sames) = post_items-HasPage files posts h in
    (((page_of (id_of post), address, there), rest), λ i. same i ∷ sames i)

length-ids : (posts posts' : List Post) → ids posts' ≡ ids posts → length posts' ≡ length posts
length-ids [] [] e = refl
length-ids [] (p ∷ posts') e = cc e
length-ids (p ∷ posts) [] e = cc e
length-ids (p ∷ posts) (q ∷ posts') e = ap suc (length-ids posts posts' (cc e))

length-post_items : (posts : List Post) → length (post_items posts).0 ≡ length posts
unfolding post_items
length-post_items [] = refl
length-post_items (post ∷ posts) = ap suc (length-post_items posts)

module _ (lib : Library) (output : Output)
    (opens : (file_path : Bytes) → output.can_open file_path ≡ true) where
  abbrev Grows : Files → Files → Type 0
  Grows files files' = (name : Bytes) → contains name files ≡ true → contains name files' ≡ true

  grown :
      (files files' : Files) (names : List Bytes)
      → Grows files files'
      → All (Written files) names
      → All (Written files') names
  grown files files' [] more h = tt
  grown files files' (i ∷ names) more (there, h) =
      (more (page_of i) there, grown files files' names more h)

  render_post-Written :
      (post : Post) (files : Files) {post' : Post} {files' : Files}
      → render_post lib output post files ≡ ok (post', files')
      → (id_of post' ≡ id_of post)
        × Grows files files'
        × (post.is_page ≡ false → Written files' (id_of post))
  unfolding render_post html_file_name
  render_post-Written post files {post'} {files'} e =
      let p2 = (updated_at (title post).1).1 in
      let (r, printed, e') = bind-eq-ok (html lib p2) _ e in
      let same : id_of r.1 ≡ id_of post =
        id_of-html lib p2 printed ∙ id_of-updated_at (title post).1 ∙ id_of-title post in
      let file_path = dir_name post.is_page ++ concat (id_of r.1 ∷ codes ".html" ∷ []) in
      let page = output.render (title post).0 (updated_at (title post).1).0 r.0 in
      let post_made : (id r.1).1 ≡ post' = ground (arith, e') in
      let files_made : write_page lib output file_path page files ≡ files' = ground (arith, e') in
      let files_new : insert file_path page files ≡ files' = rw (opens file_path) at files_made in
      (
        ap id_of (sym post_made) ∙ id_of-id r.1 ∙ same,
        λ name there.
            subst (λ f. contains name f ≡ true) files_new
              (contains-insert file_path name page files there),
        λ no_page.
            subst (λ f. contains (page_of (id_of post)) f ≡ true) files_new
              (subst (λ n. contains n (insert file_path page files) ≡ true)
                (ap (λ b. dir_name b ++ concat (id_of r.1 ∷ codes ".html" ∷ [])) no_page
                  ∙ ap page_of same)
                (contains-inserted file_path page files)),
      )

  render_posts-Written :
      (posts : List Post) (files : Files) {posts' : List Post} {files' : Files}
      → render_posts lib output posts files ≡ ok (posts', files')
      → (ids posts' ≡ ids posts)
        × Grows files files'
        × (All (λ post. post.is_page ≡ false) posts → All (Written files') (ids posts))
  unfolding render_posts
  render_posts-Written [] files e =
      (ground (arith, e), λ name there. ground (arith, e, there), λ none. tt)
  render_posts-Written (post ∷ posts) files {posts'} {files'} e =
      let (r, first, e') = bind-eq-ok (render_post lib output post files) _ e in
      let (q, later, e'') = bind-eq-ok (render_posts lib output posts r.1) _ e' in
      let (same, grows, there) = render_post-Written post files first in
      let (sames, grows', theres) = render_posts-Written posts r.1 later in
      let posts_made : r.0 ∷ q.0 ≡ posts' = ground (arith, e'') in
      let files_made : q.1 ≡ files' = ground (arith, e'') in
      (
        ap ids (sym posts_made) ∙ (λ i. same i ∷ sames i),
        λ name h. subst (λ f. contains name f ≡ true) files_made (grows' name (grows name h)),
        λ posts_only.
            subst (λ f. All (Written f) (ids (post ∷ posts))) files_made
              (grows' (page_of (id_of post)) (there posts_only.0), theres posts_only.1),
      )

  rss_item-ids :
      (site_url : Bytes) (post : Post) {item : Bytes × Bytes × Bytes × Bytes} {post' : Post}
      → rss_item lib output site_url post ≡ ok (item, post')
      → id_of post' ≡ id_of post
  unfolding rss_item
  rss_item-ids site_url post {item} {post'} e =
      let p1 = (title post).1 in
      let (r, printed, e') = bind-eq-ok (html lib p1) _ e in
      let made : (html_file_name (updated_at r.1).1).1 ≡ post' = ground (arith, e') in
      ap id_of (sym made)
      ∙ id_of-html_file_name (updated_at r.1).1
      ∙ id_of-updated_at r.1
      ∙ id_of-html lib p1 printed
      ∙ id_of-title post

  rss_items-ids :
      (site_url : Bytes) (posts : List Post) {items : List (Bytes × Bytes × Bytes × Bytes)}
      {posts' : List Post}
      → rss_items lib output site_url posts ≡ ok (items, posts')
      → ids posts' ≡ ids posts
  unfolding rss_items
  rss_items-ids site_url [] e = ground (arith, e)
  rss_items-ids site_url (post ∷ posts) {items} {posts'} e =
      let (r, first, e') = bind-eq-ok (rss_item lib output site_url post) _ e in
      let (q, later, e'') = bind-eq-ok (rss_items lib output site_url posts) _ e' in
      let same = rss_item-ids site_url post first in
      let sames = rss_items-ids site_url posts later in
      let made : r.1 ∷ q.1 ≡ posts' = ground (arith, e'') in
      ap ids (sym made) ∙ (λ i. same i ∷ sames i)

  feed_items-ids :
      (has_rss : Bool) (site_url : Bytes) (posts : List Post)
      {items : List (Bytes × Bytes × Bytes × Bytes)} {posts' : List Post}
      → feed_items lib output has_rss site_url posts ≡ ok (items, posts')
      → ids posts' ≡ ids posts
  unfolding feed_items make_rss
  feed_items-ids false site_url posts e = ground (arith, e)
  feed_items-ids true site_url posts e =
      let (address, trimmed, e') = bind-eq-ok (trimmed_url site_url) _ e in
      rss_items-ids address posts e'

  -- Where each file can be opened, none of the posts is a page, and generating the site goes well:
  -- each link of the list of posts and each of the index leads to a file that is written, and the
  -- index has as many links as there are posts.
  pub generate-HasPage :
      (has_rss : Bool) (site_url : Bytes) (parsed_posts parsed_pages : List Post) {site : Site}
      → All (λ post. post.is_page ≡ false) parsed_posts
      → generate lib output has_rss site_url parsed_posts parsed_pages ≡ ok site
      → All (HasPage site.files) site.posts_list
        × All (HasPage site.files) site.index
        × (length site.index ≡ length parsed_posts)
  unfolding generate
  generate-HasPage has_rss site_url parsed_posts parsed_pages {site} posts_only e =
      let (r, posts_run, e1) = bind-eq-ok (render_posts lib output parsed_posts []) _ e in
      let (q, pages_run, e2) = bind-eq-ok (render_posts lib output parsed_pages r.1) _ e1 in
      let (f, feed_run, e3) =
        bind-eq-ok (feed_items lib output has_rss site_url (post_items r.0).1) _ e2 in
      let made : record {
        files = q.1;
        posts_list = (post_items r.0).0;
        feed = f.0;
        index = (post_items f.1).0;
      }
          ≡ site =
        ground (arith, e3) in
      let (same, grows, written) = render_posts-Written parsed_posts [] posts_run in
      let (same', grows', written') = render_posts-Written parsed_pages r.1 pages_run in
      let there : All (Written q.1) (ids r.0) =
        subst (All (Written q.1)) (sym same)
          (grown r.1 q.1 (ids parsed_posts) grows' (written posts_only)) in
      let (listed, kept) = post_items-HasPage q.1 r.0 there in
      let fed = feed_items-ids has_rss site_url (post_items r.0).1 feed_run in
      let (indexed, kept') =
        post_items-HasPage q.1 f.1 (subst (All (Written q.1)) (sym (fed ∙ kept)) there) in
      let same_ids = fed ∙ kept ∙ same in
      let counted = length-post_items f.1 ∙ length-ids parsed_posts f.1 same_ids in
      subst
        (λ s.
          All (HasPage s.files) s.posts_list
          × All (HasPage s.files) s.index
          × (length s.index ≡ length parsed_posts))
        made (listed, indexed, counted)
