-- ===== src/HackerNews/Index.antt =====
-- src/storage/hn_hnsw.hpp: how `HackNewsHnsw` is loaded from the files of the versions.
pub mod First
pub mod Stuck
use lingdong.Prelude.{
  ℕ, zero, suc, ◌+◌, ◌%◌, ◌^◌, Bool, true, false, List, [], ◌∷◌, Bytes, Option, none, some, Result,
  ok, fail, no_fuel, ◌>>=◌, length, ltb, ◌==◌, if◌then◌else◌,
}
use lingdong.HackerNews.{HackerNewItem, new_item, ItemJson, from_json}

pub record HnEmbMeta : Type 0 where
  pub model_name : Bytes
  pub dim : ℕ
  pub cnt : ℕ

abbrev pub new_meta : HnEmbMeta
new_meta = record { model_name = []; dim = 0; cnt = 0 }

-- The members of a JSON object that are looked for; reading one throws if it has another type.
pub record MetaJson : Type 0 where
  pub json_model_name : Option (Result Bytes)
  pub json_dim : Option (Result ℕ)
  pub json_cnt : Option (Result ℕ)

abbrev pub read_or {ℓ} : {A : Type ℓ} → Option (Result A) → A → Result A
read_or none old = ok old
read_or (some member) old = member

-- `HnEmbMeta::from_json`: another model or dimension than before is only reported.
unfoldable pub add_meta : MetaJson → HnEmbMeta → Result HnEmbMeta
add_meta j meta = do
  model_name ← read_or j.json_model_name meta.model_name
  dim ← read_or j.json_dim meta.dim
  cnt ← read_or j.json_cnt 0
  ok (record { model_name = model_name; dim = dim; cnt = (meta.cnt + cnt) % 2 ^ 32 })

-- The files of a version, where they can be opened: what the first line of the file of the
-- embeddings' metadata is parsed to, and the lines of the stories, in the order in which the tasks
-- put them into the map.
pub record Version : Type 0 where
  pub meta_file : Option (Result MetaJson)
  pub story_file : Option (List (Result ItemJson))

unfoldable pub load_meta : List Version → HnEmbMeta → Result HnEmbMeta
load_meta [] meta = ok meta
load_meta (v ∷ versions) meta = elim v.meta_file [
  | none ↦ load_meta versions meta
  | some line ↦ do j ← line; meta' ← add_meta j meta; load_meta versions meta'
]

-- `HnForwardIndex`.
abbrev pub ForwardIndex : Type 0
ForwardIndex = List (ℕ × HackerNewItem)

unfoldable pub lookup_id : ℕ → ForwardIndex → Option HackerNewItem
lookup_id id [] = none
lookup_id id ((other, item) ∷ fwd) = if other == id then some item else lookup_id id fwd

-- `insert` of a pair, which changes nothing where the key is there.
unfoldable pub insert_id : ℕ → HackerNewItem → ForwardIndex → ForwardIndex
insert_id id item [] = (id, item) ∷ []
insert_id id item ((other, old) ∷ fwd) =
    if other == id then (other, old) ∷ fwd else (other, old) ∷ insert_id id item fwd

unfoldable pub insert_ids : ForwardIndex → ForwardIndex → ForwardIndex
insert_ids [] fwd = fwd
insert_ids ((id, item) ∷ entries) fwd = insert_ids entries (insert_id id item fwd)

unfoldable pub parse_items : List (Result ItemJson) → Result ForwardIndex
parse_items [] = ok []
parse_items (line ∷ story_lines) = do
  j ← line
  item ← from_json j new_item
  entries ← parse_items story_lines
  ok ((item.id, item) ∷ entries)

-- The loop that waits for the tasks, once all of them are done. The count of the lines is a 32-bit
-- word.
unfoldable pub wait_loaded : ℕ → ℕ → ℕ → Result (Unit {0})
wait_loaded zero size line_cnt = if ltb size line_cnt then fail no_fuel else ok tt
wait_loaded (suc fuel) size line_cnt =
    let rest = wait_loaded fuel size line_cnt in if ltb size line_cnt then rest else ok tt

-- The part of `load_fwd` for one version, which skips a file that cannot be opened.
unfoldable pub load_stories :
    ℕ → Option (List (Result ItemJson)) → ForwardIndex → Result ForwardIndex
load_stories fuel none fwd = ok fwd
load_stories fuel (some story_lines) fwd = do
  entries ← parse_items story_lines
  let local_fwd = insert_ids entries []
  done ← wait_loaded fuel (length local_fwd) (length story_lines % 2 ^ 32)
  ok (insert_ids local_fwd fwd)

unfoldable pub load_fwd : ℕ → List Version → ForwardIndex → Result ForwardIndex
load_fwd fuel [] fwd = ok fwd
load_fwd fuel (v ∷ versions) fwd = do
  fwd' ← load_stories fuel v.story_file fwd
  load_fwd fuel versions fwd'

-- The members of `HackNewsHnsw` but for the index of hnswlib, of which `hnsw_there` says whether
-- its file exists.
pub record HnIndex : Type 0 where
  pub loaded : Bool
  pub meta : HnEmbMeta
  pub fwd : ForwardIndex

abbrev pub new_index : HnIndex
new_index = record { loaded = false; meta = new_meta; fwd = [] }

-- `load`: its answer, and the state.
unfoldable pub load_index : ℕ → List Version → Bool → HnIndex → Result (Bool × HnIndex)
load_index fuel versions hnsw_there index = if index.loaded then ok (false, index) else do
  meta ← load_meta versions index.meta
  fwd ← load_fwd fuel versions index.fwd
  ok (hnsw_there, record { loaded = hnsw_there; meta = meta; fwd = fwd })
