-- ===== src/HackerNews/Embed.antt =====
-- src/task/hacker_news.cpp: the threads of `hn_story_to_emb`. A producer reads the stories and
-- hands batches to an executor, whose tasks ask the model and put what it gives into a queue, and
-- a consumer writes what is in the queue. Each access to what is shared is one step.
pub mod Weights
pub mod Sound
pub mod Stuck
use lingdong.Prelude.{
  ℕ, zero, suc, ◌+◌, ◌%◌, ◌^◌, Bool, true, false, not, ◌||◌, List, [], ◌∷◌, ◌++◌, Bytes, map,
  Option, none, some, get_elem?, set, length, is_empty, ltb, if◌then◌else◌,
}
use lingdong.HackerNews.{model_batch_size}

-- The id and the title of a story.
abbrev pub Story : Type 0
Story = ℕ × Bytes

-- The places of the consumer: the test of its loop, the wait for the queue, behind the loop.
pub data Consumer : Type 0 where
  testing waiting ended : Consumer

-- `unread` is what is left of the file, `uncounted` what was handed over and is not yet in
-- `item_cnt`. `posted` are the tasks that have not asked the model, `answers` what is left for each
-- task that has.
pub record Embedding (E : Type 0) : Type 0 where
  pub unread : List Story
  pub one_batch : List Story
  pub uncounted : ℕ
  pub item_cnt : ℕ
  pub producer_finished : Bool
  pub posted : List (List Story)
  pub answers : List (List (ℕ × E))
  pub ready_emb_q : List (ℕ × E)
  pub consumer : Consumer
  pub consume_cnt : ℕ
  pub lines : List (ℕ × E)

abbrev pub remove_at {ℓ} : {A : Type ℓ} → ℕ → List A → List A
remove_at i [] = []
remove_at zero (x ∷ xs) = xs
remove_at (suc i) (x ∷ xs) = x ∷ remove_at i xs

-- `embs[idx]` goes with the id of `pairs[idx]`. A model that gives more than it was asked for is
-- left out.
abbrev pub with_ids : {E : Type 0} → List Story → List E → List (ℕ × E)
with_ids [] embs = []
with_ids (story ∷ pairs) [] = []
with_ids (story ∷ pairs) (emb ∷ embs) = (story.0, emb) ∷ with_ids pairs embs

abbrev pub titles : List Story → List Bytes
titles [] = []
titles (story ∷ stories) = story.1 ∷ titles stories

-- A step of the producer, of the task at an index that asks the model or puts one answer into the
-- queue, or of the consumer.
pub data Act : Type 0 where
  produces consumes : Act
  asks : ℕ → Act
  puts : ℕ → Act

module _ {E : Type 0} where
  abbrev pub start : List Story → Embedding E
  start stories = record {
    unread = stories;
    one_batch = [];
    uncounted = 0;
    item_cnt = 0;
    producer_finished = false;
    posted = [];
    answers = [];
    ready_emb_q = [];
    consumer = testing;
    consume_cnt = 0;
    lines = [];
  }

  -- `process_one_batch`, and what it leaves to do to `item_cnt`.
  unfoldable pub hand_over : List Story → List Story → Embedding E → Embedding E
  hand_over batch rest r = record r {
    unread = rest;
    one_batch = [];
    uncounted = length batch;
    posted = r.posted ++ batch ∷ [];
  }

  unfoldable pub read_line : List Story → Embedding E → Embedding E
  read_line [] r =
      if is_empty r.one_batch
      then record r { producer_finished = true }
      else hand_over r.one_batch [] r
  read_line (story ∷ rest) r =
      let batch = r.one_batch ++ story ∷ [] in
      if ltb (length batch) model_batch_size
      then record r { unread = rest; one_batch = batch }
      else hand_over batch rest r

  unfoldable pub produce : ℕ → Embedding E → Embedding E
  produce zero r = read_line r.unread r
  produce (suc n) r = record r { uncounted = 0; item_cnt = (r.item_cnt + suc n) % 2 ^ 32 }

  unfoldable pub ask : (List Bytes → List E) → ℕ → Option (List Story) → Embedding E → Embedding E
  ask model i none r = r
  ask model i (some pairs) r = record r {
    posted = remove_at i r.posted;
    answers = r.answers ++ with_ids pairs (model (titles pairs)) ∷ [];
  }

  unfoldable pub put : ℕ → Option (List (ℕ × E)) → Embedding E → Embedding E
  put i none r = r
  put i (some []) r = r
  put i (some (answer ∷ more)) r = record r {
    answers = set r.answers i more;
    ready_emb_q = r.ready_emb_q ++ answer ∷ [];
  }

  unfoldable pub write_front : List (ℕ × E) → Embedding E → Embedding E
  write_front [] r = r
  write_front (line ∷ rest) r = record r {
    ready_emb_q = rest;
    consumer = testing;
    consume_cnt = (r.consume_cnt + 1) % 2 ^ 32;
    lines = r.lines ++ line ∷ [];
  }

  unfoldable pub consume : Consumer → Embedding E → Embedding E
  consume testing r = record r {
    consumer = if not r.producer_finished || ltb r.consume_cnt r.item_cnt then waiting else ended;
  }
  consume waiting r = write_front r.ready_emb_q r
  consume ended r = r

  unfoldable pub step : (List Bytes → List E) → Act → Embedding E → Embedding E
  step model produces r = if r.producer_finished then r else produce r.uncounted r
  step model (asks i) r = ask model i (get_elem? r.posted i) r
  step model (puts i) r = put i (get_elem? r.answers i) r
  step model consumes r = consume r.consumer r

  unfoldable pub steps : (List Bytes → List E) → List Act → Embedding E → Embedding E
  steps model [] r = r
  steps model (act ∷ acts) r = steps model acts (step model act r)
