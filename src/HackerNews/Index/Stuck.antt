-- ===== src/HackerNews/Index/Stuck.antt =====
-- src/storage/hn_hnsw.hpp: the wait of `load_fwd` for a file in which an id occurs twice.
use lingdong.Prelude.{
  ℕ, zero, suc, ◌+◌, ◌%◌, ◌^◌, ◌≤◌, ◌<◌, ◌≡◌, ◌≢◌, refl, sym, ◌∙◌, true, List, [], ◌∷◌, Option,
  none, some, Result, ok, fail, no_fuel, bind-ok, length, ◌==◌, Bool-cases, Option-cases, inl, inr,
  arith,
}
use lingdong.HackerNews.{HackerNewItem, ItemJson}
use lingdong.HackerNews.Index.{
  ForwardIndex, lookup_id, insert_id, insert_ids, parse_items, wait_loaded, load_stories,
}
use lingdong.HackerNews.Index.First.{first_of, IsDistinct, lookup_id-insert_id, length-parse_items}

length-insert_id-le :
    (id : ℕ) (item : HackerNewItem) (fwd : ForwardIndex)
    → length (insert_id id item fwd) ≤ suc (length fwd)
unfolding insert_id
length-insert_id-le id item [] = omega arith
length-insert_id-le id item ((other, old) ∷ fwd) = ground (arith, length-insert_id-le id item fwd)

length-insert_id-there :
    (id : ℕ) (item : HackerNewItem) (fwd : ForwardIndex)
    → lookup_id id fwd ≢ none
    → length (insert_id id item fwd) ≡ length fwd
unfolding insert_id lookup_id
length-insert_id-there id item [] there = ground (arith, there refl)
length-insert_id-there id item ((other, old) ∷ fwd) there =
    ground (arith, length-insert_id-there id item fwd, there)

length-insert_ids-le :
    (entries fwd : ForwardIndex) → length (insert_ids entries fwd) ≤ length fwd + length entries
unfolding insert_ids
length-insert_ids-le [] fwd = omega arith
length-insert_ids-le ((id, item) ∷ entries) fwd =
    omega
      (arith, length-insert_ids-le entries (insert_id id item fwd), length-insert_id-le id item fwd)

first_of_there : (a b : Option HackerNewItem) → a ≢ none → first_of a b ≢ none
first_of_there none b there = λ e. there refl
first_of_there (some item) b there = there

first_of_found : (a : Option HackerNewItem) (item : HackerNewItem) → first_of a (some item) ≢ none
first_of_found none item e = ground (arith, e)
first_of_found (some old) item e = ground (arith, e)

there-insert_id :
    (k id : ℕ) (item : HackerNewItem) (fwd : ForwardIndex)
    → lookup_id k fwd ≢ none
    → lookup_id k (insert_id id item fwd) ≢ none
there-insert_id k id item fwd there e =
    first_of_there (lookup_id k fwd) _ there (sym (lookup_id-insert_id k id item fwd) ∙ e)

found-insert_id :
    (k id : ℕ) (item : HackerNewItem) (fwd : ForwardIndex)
    → (id == k) ≡ true
    → lookup_id k (insert_id id item fwd) ≢ none
found-insert_id k id item fwd same e =
    first_of_found (lookup_id k fwd) item
      (ground (arith, same, lookup_id-insert_id k id item fwd, e))

length-insert_ids-there :
    (k : ℕ) (entries fwd : ForwardIndex)
    → lookup_id k fwd ≢ none
    → lookup_id k entries ≢ none
    → length (insert_ids entries fwd) < length fwd + length entries
unfolding insert_ids lookup_id
length-insert_ids-there k [] fwd there again = ground (arith, again refl)
length-insert_ids-there k ((id, item) ∷ entries) fwd there again = elim (Bool-cases (id == k)) [
  | inl same ↦ omega (
    arith,
    length-insert_ids-le entries (insert_id id item fwd),
    length-insert_id-there id item fwd (ground (arith, there, same)),
  )
  | inr other ↦ omega (
    arith,
    length-insert_ids-there k entries (insert_id id item fwd) (there-insert_id k id item fwd there)
        (ground (arith, again, other)),
    length-insert_id-le id item fwd,
  )
]

length-insert_ids-lt :
    (entries fwd : ForwardIndex)
    → ¬ IsDistinct entries
    → length (insert_ids entries fwd) < length fwd + length entries
unfolding insert_ids
length-insert_ids-lt [] fwd twice = ground (arith, twice tt)
length-insert_ids-lt ((id, item) ∷ entries) fwd twice = elim (Option-cases (lookup_id id entries)) [
  | inl alone ↦ omega (
    arith,
    length-insert_ids-lt entries (insert_id id item fwd) (λ distinct. twice (alone, distinct)),
    length-insert_id-le id item fwd,
  )
  | inr (old, again) ↦ omega (
    arith,
    length-insert_ids-there id entries (insert_id id item fwd)
        (found-insert_id id id item fwd (ground arith)) (λ e. ground (arith, again, e)),
    length-insert_id-le id item fwd,
  )
]

wait_loaded-short :
    (fuel size line_cnt : ℕ) → size < line_cnt → wait_loaded fuel size line_cnt ≡ fail no_fuel
unfolding wait_loaded
wait_loaded-short zero size line_cnt h = ground arith
wait_loaded-short (suc fuel) size line_cnt h =
    ground (arith, wait_loaded-short fuel size line_cnt h)

pub load_stories-IsStuck :
    (fuel : ℕ) (story_lines : List (Result ItemJson)) (entries fwd : ForwardIndex)
    → parse_items story_lines ≡ ok entries
    → ¬ IsDistinct entries
    → length story_lines < 2 ^ 32
    → load_stories fuel (some story_lines) fwd ≡ fail no_fuel
unfolding load_stories
load_stories-IsStuck fuel story_lines entries fwd parsed twice bounded =
    let short =
      wait_loaded-short fuel (length (insert_ids entries [])) (length story_lines % 2 ^ 32) (
        omega (
          arith,
          length-insert_ids-lt entries [] twice,
          length-parse_items story_lines parsed,
          bounded,
        )) in
    bind-ok _ parsed ∙ rw short refl
