-- ===== src/Maker/Make/Whole.antt =====
-- src/maker.hpp: each Markdown file of the posts has its link and its page.
use lingdong.Prelude.{
  suc, ◌≡◌, refl, sym, ap, subst, ◌∙◌, Bool, true, false, List, [], ◌∷◌, Bytes, Option, some, ok,
  bind-ok, bind-eq-ok, All, length, if◌then◌else◌, Bool-cases, inl, inr, arith,
}
use lingdong.Markdown.Document.{Markdown, Library}
use lingdong.Markdown.Parser.{parse_file}
use lingdong.Maker.Posts.{Post, Platform, new_post, parse_post}
use lingdong.Maker.Cache.{MakerCache, new_cache, cache_it, store}
use lingdong.Maker.Build.{
  Input, with_parser, put_in_order, sort, newest_first, parse_fresh, make_post, make_posts,
  make_pages, parse_all,
}
use lingdong.Maker.Site.{Output, Site, generate}
use lingdong.Maker.Site.Links.{HasPage, generate-HasPage}
use lingdong.Maker.Make.{
  DirectoryEntry, by_file_name, is_markdown_file, load_directory, load_files, init_cache,
  make_loaded, make,
}

-- Sorting keeps what all elements have, and how many there are.
module _ {ℓ} {A : Type ℓ} (before : A → A → Bool) (P : A → Type 0) where
  put_in_order-All :
      (x : A) (xs : List A)
      → P x
      → All P xs
      → All P (put_in_order before x xs) × (length (put_in_order before x xs) ≡ suc (length xs))
  unfolding put_in_order
  put_in_order-All x [] p all = ((p, tt), refl)
  put_in_order-All x (y ∷ ys) p (q, all) =
      let (rest, counted) = put_in_order-All x ys p all in
      elim (Bool-cases (before y x)) [
        | inl later ↦ rw later ((q, rest), ap suc counted)
        | inr first ↦ rw first ((p, (q, all)), refl)
      ]

  sort-All :
      (xs : List A) → All P xs → All P (sort before xs) × (length (sort before xs) ≡ length xs)
  unfolding sort
  sort-All [] all = (tt, refl)
  sort-All (x ∷ xs) (p, all) =
      let (rest, counted) = sort-All xs all in
      let (whole, one_more) = put_in_order-All x (sort before xs) p rest in
      (whole, one_more ∙ ap suc counted)

module _ (lib : Library) (plugins : Markdown → Markdown) (platform : Platform) where
  -- The file can be opened and parsed.
  abbrev pub Parses : Option Bytes → Type 0
  Parses content = (md : Markdown) × (parse_file lib content ≡ ok (true, md))

  abbrev IsGood : Input → Type 0
  IsGood (post, content) =
      (post.is_page ≡ false) × ((md : Markdown) × (post.parser ≡ some md)) × Parses content

  -- The Markdown files of a directory.
  abbrev pub markdown_files : List DirectoryEntry → List (Option Bytes)
  markdown_files [] = []
  markdown_files (entry ∷ entries) =
      if is_markdown_file lib entry
      then entry.source.content ∷ markdown_files entries
      else markdown_files entries

  load_directory-IsGood :
      (entries : List DirectoryEntry)
      → All Parses (markdown_files entries)
      → All IsGood (load_directory lib platform false entries)
        × (length (load_directory lib platform false entries) ≡ length (markdown_files entries))
  unfolding load_directory new_post
  load_directory-IsGood [] good = (tt, refl)
  load_directory-IsGood (entry ∷ entries) good = elim (Bool-cases (is_markdown_file lib entry)) [
    | inr other ↦ rw other (load_directory-IsGood entries (rw other at good))
    | inl taken ↦
        let (parses, rest) = rw taken at good in
        let (others, counted) = load_directory-IsGood entries rest in
        rw taken (((refl, (_, refl), parses), others), ap suc counted)
  ]

  parse_fresh-good :
      (input : Input) (cache : MakerCache)
      → IsGood input
      → (p : Post) × (c : MakerCache) × (parse_fresh lib plugins input cache ≡ ok (some p, c))
        × (p.is_page ≡ false)
  unfolding parse_fresh parse_post
  parse_fresh-good (post, content) cache (no_page, (md, there), (parsed, read)) =
      let result = with_parser (record post { parser = some parsed }) plugins in
      let first : parse_post lib content post ≡ ok (true, record post { parser = some parsed }) =
        rw (there, parse_post) (rw read refl) in
      (result, cache_it result cache, bind-ok _ first, no_page)

  make_posts-good :
      (inputs : List Input) (cache : MakerCache)
      → All IsGood inputs
      → (posts : List Post) × (c : MakerCache) × (make_posts lib plugins true inputs cache
          ≡ ok (true, posts, c))
        × All (λ post. post.is_page ≡ false) posts
        × (length posts ≡ length inputs)
  unfolding make_posts make_post
  make_posts-good [] cache good = ([], cache, refl, tt, refl)
  make_posts-good (input ∷ inputs) cache (good, rest) =
      let (p, c, made, no_page) = parse_fresh-good input cache good in
      let (posts, c', others, no_pages, counted) = make_posts-good inputs c rest in
      (p ∷ posts, c', bind-ok _ made ∙ bind-ok _ others, (no_page, no_pages), ap suc counted)

  parse_all-good :
      (can_store : Bool) (posts pages : List Input) (cache : MakerCache) {done : Bool}
      {parsed made : List Post} {file : Option Bytes} {after : MakerCache}
      → All IsGood posts
      → parse_all lib plugins platform can_store true posts pages cache
        ≡ ok (done, parsed, made, file, after)
      → All (λ post. post.is_page ≡ false) parsed × (length parsed ≡ length posts)
  unfolding parse_all
  parse_all-good can_store posts pages cache {parsed = parsed} good e =
      let (ps, c1, run, no_pages, counted) = make_posts-good posts cache good in
      let (q, pages_run, e1) =
        bind-eq-ok (make_pages lib plugins true pages c1) _ (sym (bind-ok _ run) ∙ e) in
      let (t, stored, e2) = bind-eq-ok (store lib platform can_store q.1) _ e1 in
      let same : sort newest_first ps ≡ parsed = ground (arith, e2) in
      let (ordered, kept) = sort-All newest_first (λ post. post.is_page ≡ false) ps no_pages in
      (
        subst (All (λ post. post.is_page ≡ false)) same ordered,
        ap length (sym same) ∙ kept ∙ counted,
      )

  -- Each file of the directory of posts with the extension of Markdown has its link in the index,
  -- and each link leads to a file that is written.
  abbrev pub IsWhole : List DirectoryEntry → Site → Type 0
  IsWhole posts_path site =
      (length site.index ≡ length (markdown_files posts_path))
      × All (HasPage site.files) site.index
      × All (HasPage site.files) site.posts_list

  make_loaded-IsWhole :
      (output : Output) (can_store has_rss : Bool) (site_url : Bytes)
      (posts_path : List DirectoryEntry) (some_there : Bool) (posts pages : List Input)
      (cache : MakerCache) {site : Site} {file : Option Bytes}
      → ((file_path : Bytes) → output.can_open file_path ≡ true)
      → All IsGood posts
      → length posts ≡ length (markdown_files posts_path)
      → make_loaded lib plugins platform output can_store true has_rss site_url
          (some_there, posts, pages)
          cache
        ≡ ok (true, some site, file)
      → IsWhole posts_path site
  unfolding make_loaded
  make_loaded-IsWhole output can_store has_rss site_url posts_path false posts pages cache opens
        good counted e =
      cc e
  make_loaded-IsWhole output can_store has_rss site_url posts_path true posts pages cache {site}
        opens good counted e =
      let (r, parsed, e1) =
        bind-eq-ok (parse_all lib plugins platform can_store true posts pages cache) _ e in
      let (made, generated, e2) = bind-eq-ok (generate lib output has_rss site_url r.1 r.2) _ e1 in
      let (no_pages, kept) = parse_all-good can_store posts pages cache good parsed in
      let (listed, indexed, links) =
        generate-HasPage lib output opens has_rss site_url r.1 r.2 no_pages generated in
      let same : made ≡ site = ground (arith, e2) in
      subst (IsWhole posts_path) same (links ∙ kept ∙ counted, indexed, listed)

  -- In a build without the cache: if each Markdown file of the posts can be opened and parsed, each
  -- file of the site can be opened, and `make` answers true, then the index has as many links as
  -- there are Markdown files among the posts, and each of its links, and each of the list of posts,
  -- leads to a file that is written.
  pub make-IsWhole :
      (output : Output) (can_store has_rss : Bool) (site_url : Bytes)
      (cache_file : Option (Option Bytes)) (posts_path pages_path : List DirectoryEntry)
      {site : Site} {file : Option Bytes}
      → ((file_path : Bytes) → output.can_open file_path ≡ true)
      → All Parses (markdown_files posts_path)
      → make lib plugins platform output can_store true has_rss site_url cache_file posts_path
          pages_path
        ≡ ok (true, some site, file)
      → IsWhole posts_path site
  unfolding make init_cache load_files
  make-IsWhole output can_store has_rss site_url cache_file posts_path pages_path opens good e =
      let (loaded, counted) = load_directory-IsGood posts_path good in
      let (ordered, kept) = sort-All by_file_name IsGood _ loaded in
      make_loaded-IsWhole output can_store has_rss site_url posts_path _ _ _ new_cache opens ordered
        (kept ∙ counted) e
