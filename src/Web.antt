-- ===== src/Web.antt =====
-- src/web.hpp: the handler of the searches in Hacker News, and the search of
-- src/storage/hn_hnsw.hpp.
pub mod Search
pub mod Base64
pub mod Feeds
mod Witnesses
use lingdong.Prelude.{
  is_among, ℕ, ◌%◌, ◌^◌, Bool, true, false, not, List, [], ◌∷◌, Bytes, codes, Option, none, some,
  Result, ok, ◌>>=◌, is_empty, ◌==◌, if◌then◌else◌,
}
use lingdong.Prelude.Map.{lookup, contains}
use lingdong.Http.Request.{HttpRequest}
use lingdong.Http.Response.{
  HttpResponse, status_ok, bad_request, internal_err, code_msg, with_code, with_header, with_body,
}
use lingdong.HackerNews.{HackerNewItem}

-- What the handler takes from the libraries and the services: a JSON text, which may be none, with
-- its members query and top_k where they are there, each of which may be of another type;
-- `std::stoi`, which may throw, as a 32-bit word; whether the model is there, what it makes of a
-- text and the dimension of such a vector; the result of `searchKnn` in the order in which it is
-- taken from the queue, if it does not throw; and the text of the answer.
pub record Engine (E S : Type 0) : Type 0 where
  pub parse_json : Bytes → Result (Option (Result Bytes) × Option (Result ℕ))
  pub stoi : Bytes → Result ℕ
  pub is_model_serving : Bool
  pub generate_embedding : Bytes → List E
  pub dim : E → ℕ
  pub search_knn : E → ℕ → Option (List (S × ℕ))
  pub dump_result : List (HackerNewItem × S) → Bytes

-- The state of `HackNewsHnsw`.
pub record HackNewsHnsw : Type 0 where
  pub loaded : Bool
  pub meta_dim : ℕ
  pub fwd : ℕ → Option HackerNewItem

abbrev pub json_type : Bytes
json_type = codes "application/json"

-- What is asked for, of a member query, if it is there, and a number that is read behind it:
-- nothing where the answer is a bad request.
unfoldable pub ask_of : Option (Result Bytes) → Result ℕ → Result (Option (Bytes × ℕ))
ask_of none top_k = ok none
ask_of (some get_query) top_k = do
  query ← get_query
  n ← top_k
  ok (if is_empty query then none else some (query, n % 2 ^ 32))

abbrev pub number_or : Option (Result ℕ) → ℕ → Result ℕ
number_or none n = ok n
number_or (some m) n = m

abbrev pub param : Option Bytes → Option (Result Bytes)
param none = none
param (some s) = some (ok s)

module _ {E S : Type 0} (engine : Engine E S) where
  unfoldable pub top_k_of : Option Bytes → Result ℕ
  top_k_of none = ok 100
  top_k_of (some s) = engine.stoi s

  -- The part of the handler up to the model.
  unfoldable pub asked : HttpRequest → Result (Option (Bytes × ℕ))
  asked req =
      if is_empty req.body
      then ask_of (param (lookup (codes "query") req.q.params))
          (top_k_of (lookup (codes "top_k") req.q.params))
      else (do (query, top_k) ← engine.parse_json req.body; ask_of query (number_or top_k 100))

  -- The loop of `search`: a result without an item is passed over.
  unfoldable pub with_items : (ℕ → Option HackerNewItem) → List (S × ℕ) → List (HackerNewItem × S)
  with_items fwd [] = []
  with_items fwd ((score, id) ∷ results) =
      let rest = with_items fwd results in
      elim (fwd id) [ none ↦ rest | some item ↦ (item, score) ∷ rest ]

  unfoldable pub search : HackNewsHnsw → E → ℕ → List (HackerNewItem × S)
  search hn query_emb top_k =
      if not hn.loaded then [] else elim (engine.search_knn query_emb top_k) [
        | none ↦ []
        | some results ↦ with_items hn.fwd results
      ]

  -- The loop over the results, with `item_marks`.
  unfoldable pub unique_items : List (HackerNewItem × S) → List Bytes → List (HackerNewItem × S)
  unique_items [] marks = []
  unique_items ((item, score) ∷ results) marks =
      let passed = unique_items results marks in
      let kept = (item, score) ∷ unique_items results (item.url ∷ marks) in
      if is_among item.url marks then passed else kept

  unfoldable pub answer_found : List (HackerNewItem × S) → HttpResponse → HttpResponse
  answer_found results resp =
      (with_body (engine.dump_result results)
        (with_header (codes "Content-Type") json_type (with_code status_ok resp))).1

  -- The part behind the model, on what it gives for the query.
  unfoldable pub answer_embedded : HackNewsHnsw → List E → ℕ → HttpResponse → HttpResponse
  answer_embedded hn [] top_k resp = with_code internal_err resp
  answer_embedded hn (emb ∷ []) top_k resp =
      if not (engine.dim emb == hn.meta_dim)
      then with_code internal_err resp
      else answer_found (unique_items (search hn emb top_k) []) resp
  answer_embedded hn (emb ∷ more ∷ embs) top_k resp = with_code internal_err resp

  unfoldable pub answer : HackNewsHnsw → Option (Bytes × ℕ) → HttpResponse → HttpResponse
  answer hn none resp = with_code bad_request resp
  answer hn (some (query, top_k)) resp =
      if not engine.is_model_serving
      then with_code internal_err resp
      else answer_embedded hn (engine.generate_embedding query) top_k resp

  unfoldable pub search_hacker_news_handler :
      HackNewsHnsw → HttpRequest → HttpResponse → Result HttpResponse
  search_hacker_news_handler hn req resp = do ask ← asked req; ok (answer hn ask resp)
