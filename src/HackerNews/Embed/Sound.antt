-- ===== src/HackerNews/Embed/Sound.antt =====
-- src/task/hacker_news.cpp: when the consumer of `hn_story_to_emb` is done, each story has its line.
use lingdong.Prelude.{
  ℕ, zero, suc, ◌+◌, ◌^◌, ◌≤◌, ◌<◌, ◌≡◌, refl, ◌∙◌, ap, sym, Bool, true, false, List, [], ◌∷◌,
  Bytes, map, Option, none, some, get_elem?, length, length-append, is_empty, if◌then◌else◌, arith,
}
use lingdong.HackerNews.Embed.{
  Story, Consumer, testing, waiting, ended, Embedding, Act, produces, consumes, asks, puts, start,
  hand_over, read_line, produce, ask, put, write_front, consume, step, steps,
}
use lingdong.Executor.Tasks.{sum}
use lingdong.HackerNews.Embed.Weights.{
  sums, embedded, total, length-sum, sum-length_zero, sums-length_zero, step-total,
}

nil_of_is_empty {ℓ} : {A : Type ℓ} (xs : List A) → is_empty xs ≡ true → xs ≡ []
nil_of_is_empty [] e = refl
nil_of_is_empty (x ∷ xs) e = cc e

module _ {E : Type 0} (emb : Bytes → E) where
  -- The producer has finished if it says so, the counters are right, and a consumer that has ended
  -- had reason to.
  pub record IsSound (n : ℕ) (r : Embedding E) : Type 0 where
    pub finished :
        r.producer_finished ≡ true → (r.unread ≡ []) × (r.one_batch ≡ []) × (r.uncounted ≡ 0)
    pub counted : r.item_cnt + r.uncounted + length r.one_batch + length r.unread ≡ n
    pub consumed : r.consume_cnt ≡ length r.lines
    pub reason : r.consumer ≡ ended → (r.producer_finished ≡ true) × (r.item_cnt ≤ r.consume_cnt)

  read_line-IsSound :
      (n : ℕ) (unread : List Story) (r : Embedding E)
      → n < 2 ^ 32
      → r.unread ≡ unread
      → r.uncounted ≡ 0
      → r.producer_finished ≡ false
      → IsSound n r
      → IsSound n (read_line unread r)
  unfolding read_line hand_over
  read_line-IsSound n [] r small e zero_left going k =
      ground (arith, e, zero_left, ap length e, nil_of_is_empty r.one_batch, k.reason)
  read_line-IsSound n (story ∷ rest) r small e zero_left going k =
      ground (arith, ap length e, length-append r.one_batch (story ∷ []))

  produce-IsSound :
      (n : ℕ) (r : Embedding E)
      → n < 2 ^ 32
      → r.producer_finished ≡ false
      → (c : ℕ) → r.uncounted ≡ c
      → IsSound n r
      → IsSound n (produce c r)
  unfolding produce
  produce-IsSound n r small going zero e k = read_line-IsSound n r.unread r small refl e going k
  produce-IsSound n r small going (suc c) e k = ground (arith, e, k.reason)

  write_front-IsSound :
      (n : ℕ) (ready : List (ℕ × E)) (r : Embedding E)
      → n < 2 ^ 32
      → length r.lines + length ready ≤ n
      → r.consumer ≡ waiting
      → IsSound n r
      → IsSound n (write_front ready r)
  unfolding write_front
  write_front-IsSound n [] r small few e k = k
  write_front-IsSound n (line ∷ rest) r small few e k =
      ground (arith, k.finished, length-append r.lines (line ∷ []))

  consume-IsSound :
      (n : ℕ) (c : Consumer) (r : Embedding E)
      → n < 2 ^ 32
      → length r.lines + length r.ready_emb_q ≤ n
      → r.consumer ≡ c
      → IsSound n r
      → IsSound n (consume c r)
  unfolding consume
  consume-IsSound n testing r small few e k = ground (arith, e, k.finished)
  consume-IsSound n waiting r small few e k = write_front-IsSound n r.ready_emb_q r small few e k
  consume-IsSound n ended r small few e k = k

  ask-IsSound :
      (n : ℕ) (model : List Bytes → List E) (i : ℕ) (pairs : Option (List Story)) (r : Embedding E)
      → IsSound n r
      → IsSound n (ask model i pairs r)
  unfolding ask
  ask-IsSound n model i none r k = k
  ask-IsSound n model i (some pairs) r k = record {
    finished = k.finished;
    counted = k.counted;
    consumed = k.consumed;
    reason = k.reason;
  }

  put-IsSound :
      (n i : ℕ) (found : Option (List (ℕ × E))) (r : Embedding E)
      → IsSound n r
      → IsSound n (put i found r)
  unfolding put
  put-IsSound n i none r k = k
  put-IsSound n i (some []) r k = k
  put-IsSound n i (some (answer ∷ more)) r k = record {
    finished = k.finished;
    counted = k.counted;
    consumed = k.consumed;
    reason = k.reason;
  }

  either-IsSound :
      (n : ℕ) (b : Bool) (r r' : Embedding E)
      → r.producer_finished ≡ b
      → IsSound n r
      → (r.producer_finished ≡ false → IsSound n r')
      → IsSound n (if b then r else r')
  either-IsSound n true r r' e k k' = k
  either-IsSound n false r r' e k k' = k' e

  step-IsSound :
      (n : ℕ) (model : List Bytes → List E) (act : Act) (r : Embedding E)
      → n < 2 ^ 32
      → total emb (λ line. 1) r ≡ n
      → IsSound n r
      → IsSound n (step model act r)
  unfolding step
  step-IsSound n model produces r small all k =
      either-IsSound n r.producer_finished r (produce r.uncounted r) refl k
        (λ going. produce-IsSound n r small going r.uncounted refl k)
  step-IsSound n model (asks i) r small all k = ask-IsSound n model i (get_elem? r.posted i) r k
  step-IsSound n model (puts i) r small all k = put-IsSound n i (get_elem? r.answers i) r k
  step-IsSound n model consumes r small all k =
      consume-IsSound n r.consumer r small
        (omega (arith, all, length-sum r.lines, length-sum r.ready_emb_q)) refl k

  steps-IsSound :
      (n : ℕ) (model : List Bytes → List E) (acts : List Act) (r : Embedding E)
      → ((inputs : List Bytes) → model inputs ≡ map emb inputs)
      → n < 2 ^ 32
      → total emb (λ line. 1) r ≡ n
      → IsSound n r
      → IsSound n (steps model acts r)
        × ((f : ℕ × E → ℕ) → total emb f (steps model acts r) ≡ total emb f r)
  unfolding steps
  steps-IsSound n model [] r same small all k = (k, λ f. refl)
  steps-IsSound n model (act ∷ acts) r same small all k =
      let moved = step-total emb (λ line. 1) model act r same in
      let (sound, kept) =
        steps-IsSound n model acts (step model act r) same small (moved ∙ all)
          (step-IsSound n model act r small all k) in
      (sound, λ f. kept f ∙ step-total emb f model act r same)

  ended-written :
      (n weight : ℕ) (f : ℕ × E → ℕ) (r : Embedding E)
      → IsSound n r
      → total emb (λ line. 1) r ≡ n
      → total emb f r ≡ weight
      → r.consumer ≡ ended
      → (sum f r.lines ≡ weight) × (sum f r.ready_emb_q ≡ 0) × (sums f r.answers ≡ 0)
  ended-written n weight f r sound all heavy over =
      let (finished, enough) = sound.reason over in
      let (read, handed, counted) = sound.finished finished in
      let none_read : length r.unread ≡ 0 = ap length read in
      let none_handed : length r.one_batch ≡ 0 = ap length handed in
      let written : n ≤ length r.lines =
        omega (arith, sound.counted, sound.consumed, enough, none_read, none_handed, counted) in
      let ones = length-sum r.lines in
      let none_ready : sum (λ line. 1) r.ready_emb_q ≡ 0 = omega (arith, all, ones, written) in
      let none_answered : sums (λ line. 1) r.answers ≡ 0 = omega (arith, all, ones, written) in
      let none_posted : sums (λ s. 1) r.posted ≡ 0 = omega (arith, all, ones, written) in
      let ready = sum-length_zero f r.ready_emb_q (sym (length-sum r.ready_emb_q) ∙ none_ready) in
      let answered = sums-length_zero f r.answers none_answered in
      let posted = sums-length_zero (λ s. f (embedded emb s)) r.posted none_posted in
      let batch = sum-length_zero (λ s. f (embedded emb s)) r.one_batch none_handed in
      let unread = sum-length_zero (λ s. f (embedded emb s)) r.unread none_read in
      (omega (arith, heavy, ready, answered, posted, batch, unread), ready, answered)

  start-IsSound : (stories : List Story) → IsSound (length stories) (start {E = E} stories)
  start-IsSound stories = record {
    finished = λ e. cc;
    counted = omega arith;
    consumed = refl;
    reason = λ e. cc;
  }

  -- Whatever steps the threads make, in any order: if the model gives one vector for each text, the
  -- same whatever other texts are in a batch, and the file has fewer than 2 ^ 32 stories, then a
  -- consumer that has ended has written each story as often as the file has it, with the vector of
  -- its title, and nothing else; and nothing is left with the producer, a task or the queue.
  pub steps-written :
      (model : List Bytes → List E) (acts : List Act) (stories : List Story) (f : ℕ × E → ℕ)
      → ((inputs : List Bytes) → model inputs ≡ map emb inputs)
      → length stories < 2 ^ 32
      → (steps model acts (start stories)).consumer ≡ ended
      → (sum f (steps model acts (start stories)).lines ≡ sum (λ s. f (embedded emb s)) stories)
        × (sum f (steps model acts (start stories)).ready_emb_q ≡ 0)
        × (sums f (steps model acts (start stories)).answers ≡ 0)
  steps-written model acts stories f same small over =
      let (sound, kept) =
        steps-IsSound (length stories) model acts (start stories) same small
          (omega (arith, length-sum stories)) (start-IsSound stories) in
      ended-written (length stories) (sum (λ s. f (embedded emb s)) stories) f
        (steps model acts (start stories)) sound
        (kept (λ line. 1) ∙ omega (arith, length-sum stories)) (kept f ∙ omega arith) over
