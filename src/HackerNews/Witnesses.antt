-- ===== src/HackerNews/Witnesses.antt =====
-- Runs of the loops of src/task/hacker_news.cpp on a few items.
use lingdong.Prelude.{
  true, false, is_among, ℕ, ◌≡◌, refl, codes, ◌+◌, Bytes, map, length, arith, List, [], ◌∷◌, Option,
  none, some, bytes_eq, Result, ok, fail, no_fuel, ◌>>=◌,
}
use lingdong.HackerNews.Stories.{Selected, crawl-Selected}
use lingdong.HackerNews.Embed.{
  Story, ended, waiting, Embedding, Act, produces, consumes, asks, puts, start, hand_over,
  read_line, produce, ask, put, write_front, consume, step, steps,
}
use lingdong.HackerNews.Embed.Weights.{sums, embedded}
use lingdong.HackerNews.Embed.Sound.{steps-written}
use lingdong.HackerNews.Index.{
  Version, HnEmbMeta, new_meta, HnIndex, new_index, ForwardIndex, add_meta, load_meta, load_index,
  lookup_id, insert_id, insert_ids, parse_items, wait_loaded, load_stories, load_fwd,
}
use lingdong.HackerNews.Index.First.{stories, load_index-IsMerged}
use lingdong.HackerNews.Index.Stuck.{load_stories-IsStuck}
use lingdong.Executor.Tasks.{sum}
use lingdong.HackerNews.{
  HackerNewItem, new_item, ItemJson, from_json, crawl, is_story, to_json, batches,
}

abbrev story : HackerNewItem
story = record new_item { id = 1; type = codes "story"; url = codes "u"; title = codes "t" }

abbrev again : HackerNewItem
again = record story { id = 2 }

abbrev comment : HackerNewItem
comment = record story { id = 3; type = codes "comment"; url = codes "v" }

crawl_test : crawl (none ∷ some story ∷ some again ∷ some comment ∷ []) [] ≡ to_json story ∷ []
unfolding crawl is_story is_among to_json bytes_eq
crawl_test = refl

batches_test : batches {A = ℕ} (1 ∷ 2 ∷ 3 ∷ []) [] 0 ≡ ((1 ∷ 2 ∷ 3 ∷ []) ∷ [], 3)
unfolding batches
batches_test = refl

abbrev fetched : List (Option HackerNewItem)
fetched = none ∷ some story ∷ some again ∷ some comment ∷ []

crawl-Selected_example : Selected fetched [] (crawl fetched [])
crawl-Selected_example = crawl-Selected fetched []

-- A model whose vectors are numbers.
abbrev sample_emb : Bytes → ℕ
sample_emb t = length t

abbrev one_story : List Story
one_story = (7, codes "ab") ∷ []

abbrev all_acts : List Act
all_acts =
    produces
    ∷ produces
    ∷ produces
    ∷ produces
    ∷ asks 0
    ∷ puts 0
    ∷ consumes
    ∷ consumes
    ∷ consumes
    ∷ []

all_run : (steps (map sample_emb) all_acts (start one_story)).consumer ≡ ended
unfolding steps step produce read_line hand_over ask put consume write_front
all_run = refl

lines_test : (steps (map sample_emb) all_acts (start one_story)).lines ≡ (7, 2) ∷ []
unfolding steps step produce read_line hand_over ask put consume write_front
lines_test = refl

abbrev weight : ℕ × ℕ → ℕ
weight (id, emb) = id + emb

steps-written_example :
    (sum weight (steps (map sample_emb) all_acts (start one_story)).lines
      ≡ sum (λ s. weight (embedded sample_emb s)) one_story)
    × (sum weight (steps (map sample_emb) all_acts (start one_story)).ready_emb_q ≡ 0)
    × (sums weight (steps (map sample_emb) all_acts (start one_story)).answers ≡ 0)
steps-written_example =
    steps-written sample_emb (map sample_emb) all_acts one_story weight (λ inputs. refl)
      (omega arith) all_run

-- The consumer tests before the producer has found that the file is empty.
abbrev too_early : Embedding ℕ
too_early = record (start []) { consumer = waiting }

early_run : steps (map sample_emb) (consumes ∷ []) (start []) ≡ too_early
unfolding steps step consume
early_run = refl

abbrev story_line : ℕ → Bytes → ItemJson
story_line id title = record {
  json_id = some id;
  json_deleted = none;
  json_type = none;
  json_by = none;
  json_time = none;
  json_dead = none;
  json_url = none;
  json_score = none;
  json_title = some title;
}

-- The later version has a story of the first one, too, and the one between has no files.
abbrev versions : List Version
versions =
    record {
      meta_file = some (
          ok (record {
            json_model_name = some (ok (codes "m"));
            json_dim = some (ok 4);
            json_cnt = some (ok 2);
          }));
      story_file = some (ok (story_line 1 (codes "a")) ∷ ok (story_line 2 (codes "b")) ∷ []);
    }
    ∷ record { meta_file = none; story_file = none }
    ∷ record {
      meta_file =
          some (ok (record { json_model_name = none; json_dim = none; json_cnt = some (ok 1) }));
      story_file = some (ok (story_line 2 (codes "c")) ∷ []);
    }
    ∷ []

abbrev versions_meta : HnEmbMeta
versions_meta = record { model_name = codes "m"; dim = 4; cnt = 3 }

versions_run : load_meta versions new_meta ≡ ok versions_meta
unfolding load_meta add_meta
versions_run = refl

load_index-IsMerged_example :
    (index : HnIndex) × ((load_index 0 versions true new_index ≡ ok (true, index))
      × (((k : ℕ) → lookup_id k index.fwd ≡ lookup_id k (stories versions))
          × (true ≡ true → load_index 0 versions true index ≡ ok (false, index))))
unfolding parse_items from_json lookup_id
load_index-IsMerged_example =
    load_index-IsMerged 0 versions true versions_meta versions_run
      ((refl, (refl, (refl, tt))), (tt, ((refl, (refl, tt)), tt)))

first_test :
    (do answer ← load_index 0 versions true new_index; ok (lookup_id 2 answer.1.fwd))
    ≡ ok (some (record new_item { id = 2; title = codes "b" }))
unfolding load_index load_meta add_meta load_fwd load_stories parse_items from_json insert_ids
    insert_id wait_loaded lookup_id
first_test = refl

abbrev twice : List (Result ItemJson)
twice = ok (story_line 1 (codes "a")) ∷ ok (story_line 1 (codes "b")) ∷ []

abbrev twice_items : ForwardIndex
twice_items =
    (1, record new_item { id = 1; title = codes "a" })
    ∷ (1, record new_item { id = 1; title = codes "b" })
    ∷ []

twice_run : parse_items twice ≡ ok twice_items
unfolding parse_items from_json
twice_run = refl

load_stories-IsStuck_example : load_stories 9 (some twice) [] ≡ fail no_fuel
unfolding lookup_id
load_stories-IsStuck_example =
    load_stories-IsStuck 9 twice twice_items [] twice_run (λ distinct. ground (arith, distinct.0))
      (omega arith)
