-- ===== src/HackerNews.antt =====
-- src/task/hacker_news.cpp and src/storage/hn_hnsw.hpp: the items of Hacker News, which of them
-- are stored as stories, and the batches in which the stories are given to the model.
pub mod Stories
pub mod Batches
pub mod Embed
pub mod Index
mod Witnesses
use lingdong.Prelude.{
  is_among, ℕ, ◌+◌, ◌%◌, ◌^◌, Bool, true, false, not, ◌&&◌, ◌||◌, List, [], ◌∷◌, ◌++◌, Bytes, codes,
  bytes_eq, Option, none, some, Result, ok, fail, thrown, length, is_empty, ltb, if◌then◌else◌,
}

pub record HackerNewItem : Type 0 where
  pub id : ℕ
  pub deleted : Bool
  pub type : Bytes
  pub by : Bytes
  pub time : ℕ
  pub dead : Bool
  pub url : Bytes
  pub score : ℕ
  pub title : Bytes

-- `std::make_shared<HackerNewItem>()` sets every member to zero. A score is a 32-bit word here.
abbrev pub new_item : HackerNewItem
new_item = record {
  id = 0;
  deleted = false;
  type = [];
  by = [];
  time = 0;
  dead = false;
  url = [];
  score = 0;
  title = [];
}

-- The members of a JSON object that the code looks for, of the types that it asks for.
pub record ItemJson : Type 0 where
  pub json_id : Option ℕ
  pub json_deleted : Option Bool
  pub json_type : Option Bytes
  pub json_by : Option Bytes
  pub json_time : Option ℕ
  pub json_dead : Option Bool
  pub json_url : Option Bytes
  pub json_score : Option ℕ
  pub json_title : Option Bytes

abbrev pub or_else {ℓ} : {A : Type ℓ} → Option A → A → A
or_else none old = old
or_else (some new) old = new

-- `from_json`: only the id has to be there.
unfoldable pub from_json : ItemJson → HackerNewItem → Result HackerNewItem
from_json j item = elim j.json_id [
  | none ↦ fail thrown
  | some id ↦ ok (record {
    id = id;
    deleted = or_else j.json_deleted item.deleted;
    type = or_else j.json_type item.type;
    by = or_else j.json_by item.by;
    time = or_else j.json_time item.time;
    dead = or_else j.json_dead item.dead;
    url = or_else j.json_url item.url;
    score = or_else j.json_score item.score;
    title = or_else j.json_title item.title;
  })
]

unfoldable pub to_json : HackerNewItem → ItemJson
to_json item = record {
  json_id = some item.id;
  json_deleted = some item.deleted;
  json_type = some item.type;
  json_by = some item.by;
  json_time = some item.time;
  json_dead = some item.dead;
  json_url = some item.url;
  json_score = some item.score;
  json_title = some item.title;
}

-- The test that lets `crawl_hn` pass over an item, the other way round. A null pointer is an item
-- that could not be fetched.
unfoldable pub is_story : HackerNewItem → Bool
is_story item = not (
    item.dead
    || item.deleted
    || not (bytes_eq item.type (codes "story"))
    || is_empty item.title
    || is_empty item.url)

-- The loop of `crawl_hn` over the items in the order in which they are fetched: the lines that it
-- writes.
unfoldable pub crawl : List (Option HackerNewItem) → List Bytes → List ItemJson
crawl [] marks = []
crawl (none ∷ items) marks = crawl items marks
crawl (some item ∷ items) marks =
    let passed = crawl items marks in
    let kept = to_json item ∷ crawl items (item.url ∷ marks) in
    if not (is_story item) then passed else if is_among item.url marks then passed else kept

abbrev pub model_batch_size : ℕ
model_batch_size = 16

-- The loop of the producer in `hn_story_to_emb`, with `one_batch`: the batches, and `item_cnt`.
unfoldable pub batches {ℓ} : {A : Type ℓ} → List A → List A → ℕ → List (List A) × ℕ
batches [] one_batch item_cnt =
    if is_empty one_batch
    then ([], item_cnt)
    else (one_batch ∷ [], (item_cnt + length one_batch) % 2 ^ 32)
batches (j ∷ lines) one_batch item_cnt =
    let batch = one_batch ++ j ∷ [] in
    let going_on = batches lines batch item_cnt in
    let (later, cnt) = batches lines [] ((item_cnt + length batch) % 2 ^ 32) in
    if ltb (length batch) model_batch_size then going_on else (batch ∷ later, cnt)
