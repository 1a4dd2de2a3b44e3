-- ===== src/HackerNews/Embed/Weights.antt =====
-- src/task/hacker_news.cpp: no step of the threads of `hn_story_to_emb` loses or repeats a story.
use lingdong.Prelude.{
  ℕ, zero, suc, ◌+◌, ◌≡◌, refl, ap, Bool, true, false, List, [], ◌∷◌, ◌++◌, Bytes, map, Option,
  none, some, get_elem?, set, length, if◌then◌else◌, arith,
}
use lingdong.HackerNews.Embed.{
  Story, Consumer, testing, waiting, ended, Embedding, Act, produces, consumes, asks, puts,
  remove_at, with_ids, titles, hand_over, read_line, produce, ask, put, write_front, consume, step,
}
use lingdong.Executor.Tasks.{sum, sum-snoc}

-- Sums of weights over what the threads hold.
module _ {ℓ} {A : Type ℓ} (f : A → ℕ) where
  abbrev pub sums : List (List A) → ℕ
  sums [] = 0
  sums (xs ∷ xss) = sum f xs + sums xss

  sums-snoc : (xss : List (List A)) (xs : List A) → sums (xss ++ xs ∷ []) ≡ sums xss + sum f xs
  sums-snoc [] xs = omega arith
  sums-snoc (ys ∷ xss) xs = omega (arith, sums-snoc xss xs)

  sums-remove_at :
      (xss : List (List A)) (i : ℕ) {xs : List A}
      → get_elem? xss i ≡ some xs
      → sums (remove_at i xss) + sum f xs ≡ sums xss
  sums-remove_at [] i e = cc e
  sums-remove_at (ys ∷ xss) zero {xs} e =
      let same : ys ≡ xs = cc e in omega (arith, ap (sum f) same)
  sums-remove_at (ys ∷ xss) (suc i) e = omega (arith, sums-remove_at xss i e)

  sums-set :
      (xss : List (List A)) (i : ℕ) {xs : List A} (ys : List A)
      → get_elem? xss i ≡ some xs
      → sums (set xss i ys) + sum f xs ≡ sums xss + sum f ys
  sums-set [] i ys e = cc e
  sums-set (zs ∷ xss) zero {xs} ys e = let same : zs ≡ xs = cc e in omega (arith, ap (sum f) same)
  sums-set (zs ∷ xss) (suc i) ys e = omega (arith, sums-set xss i ys e)

pub length-sum : {A : Type 0} (xs : List A) → sum (λ x. 1) xs ≡ length xs
length-sum [] = refl
length-sum (x ∷ xs) = omega (arith, length-sum xs)

pub sum-length_zero : {A : Type 0} (f : A → ℕ) (xs : List A) → length xs ≡ 0 → sum f xs ≡ 0
sum-length_zero f [] e = refl
sum-length_zero f (x ∷ xs) e = absurd (omega (arith, e))

pub sums-length_zero :
    {A : Type 0} (f : A → ℕ) (xss : List (List A)) → sums (λ x. 1) xss ≡ 0 → sums f xss ≡ 0
sums-length_zero f [] e = refl
sums-length_zero f (xs ∷ xss) e =
    let few = length-sum xs in
    omega (
      arith,
      sum-length_zero f xs (omega (arith, e, few)),
      sums-length_zero f xss (omega (arith, e)),
    )

module _ {E : Type 0} (emb : Bytes → E) where
  abbrev pub embedded : Story → ℕ × E
  embedded story = (story.0, emb story.1)

  with_ids-titles :
      (f : ℕ × E → ℕ) (stories : List Story)
      → sum f (with_ids stories (map emb (titles stories))) ≡ sum (λ s. f (embedded s)) stories
  with_ids-titles f [] = refl
  with_ids-titles f (story ∷ stories) = ap (◌+◌ (f (embedded story))) (with_ids-titles f stories)

  -- The weight of all stories, wherever they are.
  abbrev pub total : (ℕ × E → ℕ) → Embedding E → ℕ
  total f r =
      sum f r.lines
      + sum f r.ready_emb_q
      + sums f r.answers
      + sums (λ s. f (embedded s)) r.posted
      + sum (λ s. f (embedded s)) r.one_batch
      + sum (λ s. f (embedded s)) r.unread

  module _ (f : ℕ × E → ℕ) where
    abbrev weigh : Story → ℕ
    weigh s = f (embedded s)

    read_line-total :
        (unread : List Story) (r : Embedding E)
        → r.unread ≡ unread
        → total f (read_line unread r) ≡ total f r
    unfolding read_line hand_over
    read_line-total [] r e = ground (arith, ap (sum weigh) e, sums-snoc weigh r.posted r.one_batch)
    read_line-total (story ∷ rest) r e = ground (
      arith,
      ap (sum weigh) e,
      sum-snoc weigh r.one_batch story,
      sums-snoc weigh r.posted (r.one_batch ++ story ∷ []),
    )

    produce-total : (n : ℕ) (r : Embedding E) → total f (produce n r) ≡ total f r
    unfolding produce
    produce-total zero r = read_line-total r.unread r refl
    produce-total (suc n) r = refl

    ask-total :
        (model : List Bytes → List E) (i : ℕ) (pairs : Option (List Story)) (r : Embedding E)
        → ((inputs : List Bytes) → model inputs ≡ map emb inputs)
        → get_elem? r.posted i ≡ pairs
        → total f (ask model i pairs r) ≡ total f r
    unfolding ask
    ask-total model i none r same e = refl
    ask-total model i (some pairs) r same e = omega (
      arith,
      sums-remove_at weigh r.posted i e,
      sums-snoc f r.answers (with_ids pairs (model (titles pairs))),
      ap (λ embs. sum f (with_ids pairs embs)) (same (titles pairs)),
      with_ids-titles f pairs,
    )

    put-total :
        (i : ℕ) (found : Option (List (ℕ × E))) (r : Embedding E)
        → get_elem? r.answers i ≡ found
        → total f (put i found r) ≡ total f r
    unfolding put
    put-total i none r e = refl
    put-total i (some []) r e = refl
    put-total i (some (answer ∷ more)) r e =
        omega (arith, sums-set f r.answers i more e, sum-snoc f r.ready_emb_q answer)

    write_front-total :
        (ready : List (ℕ × E)) (r : Embedding E)
        → r.ready_emb_q ≡ ready
        → total f (write_front ready r) ≡ total f r
    unfolding write_front
    write_front-total [] r e = refl
    write_front-total (line ∷ rest) r e = omega (arith, ap (sum f) e, sum-snoc f r.lines line)

    consume-total : (c : Consumer) (r : Embedding E) → total f (consume c r) ≡ total f r
    unfolding consume
    consume-total testing r = refl
    consume-total waiting r = write_front-total r.ready_emb_q r refl
    consume-total ended r = refl

    either-total :
        (b : Bool) (r r' : Embedding E)
        → total f r' ≡ total f r
        → total f (if b then r else r') ≡ total f r
    either-total true r r' e = refl
    either-total false r r' e = e

    -- No step loses or repeats a story.
    pub step-total :
        (model : List Bytes → List E) (act : Act) (r : Embedding E)
        → ((inputs : List Bytes) → model inputs ≡ map emb inputs)
        → total f (step model act r) ≡ total f r
    unfolding step
    step-total model produces r same =
        either-total r.producer_finished r (produce r.uncounted r) (produce-total r.uncounted r)
    step-total model (asks i) r same = ask-total model i (get_elem? r.posted i) r same refl
    step-total model (puts i) r same = put-total i (get_elem? r.answers i) r refl
    step-total model consumes r same = consume-total r.consumer r
