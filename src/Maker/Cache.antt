-- ===== src/Maker/Cache.antt =====
-- src/maker.hpp: `MakerCache`, and the bytes of its file.
pub mod Words
pub mod Store
use lingdong.Prelude.{
  ℕ, zero, suc, ◌+◌, ◌*◌, ◌^◌, ◌/◌, ◌%◌, Bool, true, false, not, ◌&&◌, ◌||◌, List, [], ◌∷◌, ◌++◌,
  Bytes, concat, map, Option, none, some, Result, ok, fail, undefined, thrown, ◌>>=◌, length, take,
  drop, is_empty, ltb, leb, ◌==◌, if◌then◌else◌,
}
use lingdong.Prelude.Map.{lookup, insert}
use lingdong.Markdown.Document.{Library}
use lingdong.Maker.Posts.{Post, CachedJson, Platform, to_json, from_json}

pub record MakerCache : Type 0 where
  pub pre_state : List (Bytes × Post)
  pub state : List (Bytes × Post)
  pub changed_post_cnt : ℕ

abbrev pub new_cache : MakerCache
new_cache = record { pre_state = []; state = []; changed_post_cnt = 0 }

abbrev pub magic_header : ℕ
magic_header = 20130808

-- A number of `w` bytes as the platform writes it, the lowest byte first.
unfoldable pub write_word : ℕ → ℕ → Bytes
write_word zero n = []
write_word (suc w) n = (n % 256) ∷ write_word w (n / 256)

unfoldable pub read_word : Bytes → ℕ
read_word [] = 0
read_word (b ∷ bs) = b + 256 * read_word bs

-- `ifs.read` of a number of `w` bytes: the number, and what stands behind it. Where the file is
-- too short, the variable is left without a value, and the code reads it.
unfoldable pub next_word : ℕ → Bytes → Result (ℕ × Bytes)
next_word w s = if leb w (length s) then ok (read_word (take w s), drop w s) else fail undefined

-- `ifs.read` into a string of `n` zero bytes.
unfoldable pub padded : ℕ → Bytes → Bytes
padded zero s = []
padded (suc n) [] = 0 ∷ padded n []
padded (suc n) (c ∷ s) = c ∷ padded n s

abbrev pub cached : Option CachedJson → Result CachedJson
cached none = fail thrown
cached (some j) = ok j

module _ (platform : Platform) where
  -- The loop of `load`, with the number of entries that are left. A length is a `long`.
  unfoldable pub load_entries :
      ℕ → Bytes → List (Bytes × Post) → Result (Bool × List (Bytes × Post))
  load_entries zero s pre = ok (true, pre)
  load_entries (suc left) s pre = do
    (n, rest) ← next_word 8 s
    elim (n == 0 || leb (2 ^ 63) n) [
      | true ↦ ok (false, pre)
      | false ↦ do
        j ← cached (platform.parse_json (padded n rest))
        load_entries left (drop n rest) (insert j.json_path (from_json platform j) pre)
    ]

  unfoldable pub load_file : Bytes → MakerCache → Result (Bool × MakerCache)
  load_file file cache = do
    (magic, s) ← next_word 4 file
    elim (magic == magic_header) [
      | false ↦ ok (false, cache)
      | true ↦ do
        (size, entries) ← next_word 4 s
        elim (size == 0) [
          | true ↦ ok (false, cache)
          | false ↦ do
            (done, pre) ← load_entries size entries cache.pre_state
            ok (done, record cache { pre_state = pre })
        ]
    ]

  -- `load`, on the cache file: none, one that cannot be opened, or its bytes.
  unfoldable pub load : Option (Option Bytes) → MakerCache → Result (Bool × MakerCache)
  load none cache = ok (true, cache)
  load (some none) cache = ok (false, cache)
  load (some (some file)) cache = load_file file cache

  unfoldable pub entry_bytes : CachedJson → Bytes
  entry_bytes j = let j_str = platform.dump j in write_word 8 (length j_str) ++ j_str

  -- What `store` writes.
  unfoldable pub file_bytes : List CachedJson → Bytes
  file_bytes js =
      write_word 4 magic_header
      ++ (write_word 4 (length js % 2 ^ 32) ++ concat (map entry_bytes js))

module _ (lib : Library) where
  -- The answers that `to_json` makes are kept in the posts.
  unfoldable pub to_jsons : List (Bytes × Post) → Result (List CachedJson × List (Bytes × Post))
  to_jsons [] = ok ([], [])
  to_jsons ((k, post) ∷ state) = do
    (j, post') ← to_json lib post
    (js, state') ← to_jsons state
    ok (j ∷ js, (k, post') ∷ state')

  -- `store`: whether it went well, and the new file if one is written. `can_open` says whether
  -- the file can be opened.
  unfoldable pub store : Platform → Bool → MakerCache → Result (Bool × Option Bytes × MakerCache)
  store platform can_open cache =
      if cache.changed_post_cnt == 0 && length cache.state == length cache.pre_state
      then ok (true, none, cache)
      else if not can_open
      then ok (false, none, cache)
      else (do
        (js, state) ← to_jsons cache.state
        ok (true, some (file_bytes platform js), record cache { state = state }))

unfoldable pub cache_it : Post → MakerCache → MakerCache
cache_it post cache = record cache {
  state = insert post.file_path post cache.state;
  changed_post_cnt = cache.changed_post_cnt + 1;
}

unfoldable pub match_then_get : Bytes → ℕ → MakerCache → (Bool × Option Post) × MakerCache
match_then_get file_path written cache = elim (lookup file_path cache.pre_state) [
  | none ↦ ((false, none), cache)
  | some post ↦
      if not (post.last_write_time == written)
      then ((false, some post), cache)
      else ((true, some post), record cache { state = insert file_path post cache.state })
]
