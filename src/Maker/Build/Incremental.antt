-- ===== src/Maker/Build/Incremental.antt =====
-- src/maker.hpp: a build with the cache gives the posts that a build without it gives.
use lingdong.Prelude.{
  ℕ, ◌≡◌, refl, subst, ◌∙◌, ap, sym, Bool, true, false, List, [], ◌∷◌, Bytes, Option, none, some,
  Result, ok, ◌>>=◌, bind-eq-ok, bind-ok, All, map, ◌==◌, if◌then◌else◌, Bool-cases, Option-cases,
  inl, inr, arith,
}
use lingdong.Prelude.Map.{lookup, insert}
use lingdong.Markdown.Document.{Markdown, Library}
use lingdong.Maker.Posts.{Post, id, title, updated_at, html, parse_post}
use lingdong.Maker.Cache.{MakerCache, match_then_get, cache_it}
use lingdong.Maker.Build.{Input, with_parser, parse_fresh, make_post, make_posts}

module _ (lib : Library) (plugins : Markdown → Markdown) where
  -- What the pages of the site show of a post.
  abbrev pub answers : Post → Bytes × Bytes × Bytes × Bool × Result Bytes
  answers post = (
    (id post).0,
    (title post).0,
    (updated_at post).0,
    post.is_page,
    html lib post >>= λ r. ok r.0,
  )

  abbrev pub unchanged : ℕ → Option Post → List Post
  unchanged written none = []
  unchanged written (some found) = if found.last_write_time == written then found ∷ [] else []

  abbrev pub fresh_answers :
      Post × Option Bytes → Result (Bool × (Bytes × Bytes × Bytes × Bool × Result Bytes))
  fresh_answers (post, content) = do
    (done, parsed) ← parse_post lib content post
    ok (done, answers (with_parser parsed plugins))

  -- What the cache has of an unchanged file is what parsing the file now would give.
  abbrev pub IsFresh : List (Bytes × Post) → Input → Type 0
  IsFresh pre (post, content) =
      All (λ found. fresh_answers (post, content) ≡ ok (true, answers found))
        (unchanged post.last_write_time (lookup post.file_path pre))

  -- A post that was parsed is parsed whatever the cache holds.
  parse_fresh-same :
      (input : Input) (c1 c2 : MakerCache) {p : Post} {c1' : MakerCache}
      → parse_fresh lib plugins input c1 ≡ ok (some p, c1')
      → (parse_fresh lib plugins input c2 ≡ ok (some p, cache_it p c2))
        × (fresh_answers input ≡ ok (true, answers p))
  unfolding parse_fresh
  parse_fresh-same (post, content) c1 c2 {p = p} e =
      let (r, first, e') = bind-eq-ok (parse_post lib content post) _ e in
      elim (Bool-cases r.0) [
        | inr failed ↦ absurd (ground (arith, rw failed at e'))
        | inl done ↦
            let same : with_parser r.1 plugins ≡ p = ground (arith, rw done at e') in
            (bind-ok _ first ∙ rw done (rw same refl), bind-ok _ first ∙ rw done (rw same refl))
      ]

  -- A post that is parsed in a build without the cache is there in one with it.
  abbrev pub Same : Input → MakerCache → Post → Type 0
  Same input c2 p =
      (p' : Post) × ((c2' : MakerCache) × (make_post lib plugins false input c2 ≡ ok (some p', c2'))
        × (answers p' ≡ answers p)
        × (c2'.pre_state ≡ c2.pre_state))

  missed :
      (post : Post) (content : Option Bytes) (c1 c2 : MakerCache) {p : Post} {c1' : MakerCache}
      → match_then_get post.file_path post.last_write_time c2
        ≡ ((false, lookup post.file_path c2.pre_state), c2)
      → parse_fresh lib plugins (post, content) c1 ≡ ok (some p, c1')
      → Same (post, content) c2 p
  unfolding make_post cache_it
  missed post content c1 c2 {p = p} miss e =
      (p, (cache_it p c2, rw miss (parse_fresh-same (post, content) c1 c2 e).0, refl, refl))

  hit :
      (post found : Post) (c2 : MakerCache)
      → lookup post.file_path c2.pre_state ≡ some found
      → (found.last_write_time == post.last_write_time) ≡ true
      → match_then_get post.file_path post.last_write_time c2
        ≡ ((true, some found), record c2 { state = insert post.file_path found c2.state })
  unfolding match_then_get
  hit post found c2 there same = rw (there, match_then_get) (rw same refl)

  make_post-Same :
      (input : Input) (c1 c2 : MakerCache) {p : Post} {c1' : MakerCache}
      → IsFresh c2.pre_state input
      → make_post lib plugins true input c1 ≡ ok (some p, c1')
      → Same input c2 p
  unfolding make_post match_then_get
  make_post-Same (post, content) c1 c2 {p = p} fresh e =
      elim (Option-cases (lookup post.file_path c2.pre_state)) [
        | inl none_there ↦ missed post content c1 c2 (rw (none_there, match_then_get)) e
        | inr (found, there) ↦ elim (Bool-cases (found.last_write_time == post.last_write_time)) [
          | inr changed ↦ missed post content c1 c2 (rw (there, match_then_get) (rw changed)) e
          | inl same ↦
              let kept = rw same at (rw there at fresh) in
              let parsed = (parse_fresh-same (post, content) c1 c2 e).1 in
              (
                found,
                (
                  record c2 { state = insert post.file_path found c2.state },
                  rw (hit post found c2 there same),
                  cc (kept.0, parsed),
                  refl,
                ),
              )
        ]
      ]

  abbrev pub SameAll : List Input → MakerCache → List Post → Type 0
  SameAll inputs c2 posts =
      (posts' : List Post) × ((c2' : MakerCache) × (make_posts lib plugins false inputs c2
          ≡ ok (true, posts', c2'))
        × (map answers posts' ≡ map answers posts))

  SameAll-cons :
      (input : Input) (inputs : List Input) (c2 : MakerCache) (p : Post) (posts : List Post)
      → Same input c2 p
      → ((c : MakerCache) → c.pre_state ≡ c2.pre_state → SameAll inputs c posts)
      → SameAll (input ∷ inputs) c2 (p ∷ posts)
  unfolding make_posts
  SameAll-cons input inputs c2 p posts (p', (c, run, same, pre)) others =
      let (posts', (c', run', same')) = others c pre in
      (p' ∷ posts', (c', bind-ok _ run ∙ bind-ok _ run', λ i. same i ∷ same' i))

  -- The posts of a build that went well: the first, and the others.
  made_posts :
      (input : Input) (inputs : List Input) (c1 : MakerCache) {posts : List Post} {c1' : MakerCache}
      → make_posts lib plugins true (input ∷ inputs) c1 ≡ ok (true, posts, c1')
      → (p : Post) × ((rest : List Post) × ((c : MakerCache) × ((c' : MakerCache) × (make_post lib
                  plugins true input c1
                ≡ ok (some p, c))
              × (make_posts lib plugins true inputs c ≡ ok (true, rest, c'))
              × (p ∷ rest ≡ posts))))
  unfolding make_posts
  made_posts input inputs c1 e =
      let (r, first, e') = bind-eq-ok (make_post lib plugins true input c1) _ e in
      elim (Option-cases r.0) [
        | inl nothing ↦ absurd (ground (arith, rw nothing at e'))
        | inr (p, made) ↦
            let (q, others, end) =
              bind-eq-ok (make_posts lib plugins true inputs r.1) _ (rw made at e') in
            (
              p,
              (
                q.1,
                (
                  r.1,
                  (
                    q.2,
                    first ∙ ap (λ o. ok (o, r.1)) made,
                    others ∙ ground (arith, end),
                    ground (arith, end),
                  ),
                ),
              ),
            )
      ]

  -- Where the cache has of each unchanged file what parsing the file would give, a build with the
  -- cache makes the posts that a build without it makes, if that one goes well: as many, in the
  -- same order, and with the same ids, titles, dates and contents.
  pub make_posts-same :
      (inputs : List Input) (c1 c2 : MakerCache) {posts : List Post} {c1' : MakerCache}
      → All (IsFresh c2.pre_state) inputs
      → make_posts lib plugins true inputs c1 ≡ ok (true, posts, c1')
      → SameAll inputs c2 posts
  unfolding make_posts
  make_posts-same [] c1 c2 fresh e = ([], (c2, refl, ground (arith, e)))
  make_posts-same (input ∷ inputs) c1 c2 (fresh, rest) e =
      let (p, (others, (c, (c', first, later, whole)))) = made_posts input inputs c1 e in
      subst (SameAll (input ∷ inputs) c2) whole (
        SameAll-cons input inputs c2 p others (make_post-Same input c1 c2 fresh first) (λ c3 pre.
          make_posts-same inputs c c3 (subst (λ pre. All (IsFresh pre) inputs) (sym pre) rest)
            later))
