-- ===== src/Maker/Cache/Store.antt =====
-- The cache file of src/maker.hpp: what `store` writes, `load` reads.
use lingdong.Prelude.{
  ◌^◌, ◌%◌, ◌<◌, ◌≡◌, refl, ◌∙◌, true, false, ◌||◌, ◌&&◌, List, [], ◌∷◌, ◌++◌, append_assoc, Bytes,
  concat, map, some, ok, bind-ok, length, drop-append, All, leb, ◌==◌, Bool-cases, inl, inr, arith,
}
use lingdong.Prelude.Map.{insert}
use lingdong.Markdown.Document.{Library}
use lingdong.Maker.Posts.{Post, CachedJson, Platform, from_json}
use lingdong.Maker.Cache.{
  MakerCache, new_cache, magic_header, write_word, load_entries, load_file, load, entry_bytes,
  file_bytes, to_jsons, store,
}
use lingdong.Maker.Cache.Words.{words, next-write_word, padded-append}

module _ (platform : Platform) where
  -- Texts that a `long` can measure, and that are parsed back.
  abbrev pub IsStorable : CachedJson → Type 0
  IsStorable j =
      (0 < length (platform.dump j))
      × (length (platform.dump j) < 2 ^ 63)
      × (platform.parse_json (platform.dump j) ≡ some j)

  unfoldable pub insert_all : List CachedJson → List (Bytes × Post) → List (Bytes × Post)
  insert_all [] pre = pre
  insert_all (j ∷ js) pre = insert_all js (insert j.json_path (from_json platform j) pre)

  load_entries-concat :
      (js : List CachedJson) (pre : List (Bytes × Post))
      → All IsStorable js
      → load_entries platform (length js) (concat (map (entry_bytes platform) js)) pre
        ≡ ok (true, insert_all js pre)
  unfolding load_entries insert_all concat entry_bytes
  load_entries-concat [] pre h = refl
  load_entries-concat (j ∷ js) pre ((some_text, short, back), h) =
      let s = platform.dump j in
      let rest = concat (map (entry_bytes platform) js) in
      let whole : (write_word 8 (length s) ++ s) ++ rest ≡ write_word 8 (length s) ++ (s ++ rest) =
        append_assoc (write_word 8 (length s)) s rest in
      let fits : length s < words 8 = omega arith in
      let good : (length s == 0 || leb (2 ^ 63) (length s)) ≡ false = ground arith in
      rw whole (
        bind-ok _ (next-write_word 8 (length s) (s ++ rest) fits)
        ∙ rw good (
            rw (padded-append s rest) (
              rw back (
                rw (drop-append s rest)
                  (load_entries-concat js (insert j.json_path (from_json platform j) pre) h)))))

  load_file-file_bytes :
      (js : List CachedJson) (cache : MakerCache)
      → All IsStorable js
      → 0 < length js
      → length js < 2 ^ 32
      → load_file platform (file_bytes platform js) cache
        ≡ ok (true, record cache { pre_state = insert_all js cache.pre_state })
  unfolding load_file file_bytes
  load_file-file_bytes js cache h some_posts few =
      let n : length js % 2 ^ 32 ≡ length js = omega arith in
      let more : (length js == 0) ≡ false = ground arith in
      let fits : length js < words 4 = omega arith in
      let rest = concat (map (entry_bytes platform) js) in
      bind-ok _
        (next-write_word 4 magic_header (write_word 4 (length js % 2 ^ 32) ++ rest) (omega arith))
      ∙ rw n (
          bind-ok _ (next-write_word 4 (length js) rest fits)
          ∙ rw more (rw (load_entries-concat js cache.pre_state h) refl))

  stored :
      (lib : Library) (cache cache' : MakerCache) (js : List CachedJson)
      (state : List (Bytes × Post)) {file : Bytes}
      → to_jsons lib cache.state ≡ ok (js, state)
      → store lib platform true cache ≡ ok (true, some file, cache')
      → file ≡ file_bytes platform js
  unfolding store
  stored lib cache cache' js state made e =
      elim (Bool-cases
        (cache.changed_post_cnt == 0 && length cache.state == length cache.pre_state)) [
          | inl same ↦ absurd (ground (arith, rw same at e))
          | inr changed ↦ ground (arith, rw (changed, made) at e)
        ]

  -- Whatever posts are in the cache, where their JSON objects have texts that can be stored and
  -- there are some of them, but fewer than 2^32: if `store` writes a file, then a later run that
  -- loads it has exactly these objects, put in turn under their paths.
  pub store-load :
      (lib : Library) (cache cache' : MakerCache) (js : List CachedJson)
      (state : List (Bytes × Post)) {file : Bytes}
      → to_jsons lib cache.state ≡ ok (js, state)
      → All IsStorable js
      → 0 < length js
      → length js < 2 ^ 32
      → store lib platform true cache ≡ ok (true, some file, cache')
      → load platform (some (some file)) new_cache
        ≡ ok (true, record new_cache { pre_state = insert_all js [] })
  unfolding store load
  store-load lib cache cache' js state {file = file} made h some_posts few e =
      let written : file ≡ file_bytes platform js = stored lib cache cache' js state made e in
      rw written (load_file-file_bytes js new_cache h some_posts few)
