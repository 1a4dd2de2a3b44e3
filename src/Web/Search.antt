-- ===== src/Web/Search.antt =====
-- src/web.hpp: what `search_hacker_news_handler` answers.
use lingdong.Prelude.{
  is_among, ℕ, ◌≡◌, refl, subst, ◌⊎◌, inl, inr, Bool, true, false, not, List, [], ◌∷◌, Bytes,
  Option, none, some, ok, bind-eq-ok, ◌==◌, if◌then◌else◌, Bool-cases, arith,
}
use lingdong.Http.Request.{HttpRequest}
use lingdong.Http.Response.{
  HttpResponse, status_ok, bad_request, internal_err, with_code, with_header, with_body,
}
use lingdong.HackerNews.{HackerNewItem}
use lingdong.Web.{
  Engine, HackNewsHnsw, unique_items, answer_found, answer_embedded, answer, asked,
  search_hacker_news_handler,
}

module _ {E S : Type 0} (engine : Engine E S) where
  -- No two results have one URL, and none has a marked one.
  abbrev pub Distinct : List Bytes → List (HackerNewItem × S) → Type 0
  Distinct marks [] = Unit
  Distinct marks ((item, score) ∷ results) =
      (is_among item.url marks ≡ false) × Distinct (item.url ∷ marks) results

  unique_items-Distinct :
      (results : List (HackerNewItem × S)) (marks : List Bytes)
      → Distinct marks (unique_items engine results marks)
  unfolding unique_items
  unique_items-Distinct [] marks = tt
  unique_items-Distinct ((item, score) ∷ results) marks =
      elim (Bool-cases (is_among item.url marks)) [
        | inl old ↦ rw old (unique_items-Distinct results marks)
        | inr fresh ↦ rw fresh (fresh, unique_items-Distinct results (item.url ∷ marks))
      ]

  -- An error, with the body as it was, or results with different URLs.
  abbrev pub Answered : HttpResponse → HttpResponse → Type 0
  Answered resp resp' =
      ((resp'.code ≡ bad_request) × (resp'.body ≡ resp.body))
      ⊎ (((resp'.code ≡ internal_err) × (resp'.body ≡ resp.body))
          ⊎ ((results : List (HackerNewItem × S)) × (resp'.code ≡ status_ok)
              × (resp'.body ≡ engine.dump_result results)
              × Distinct [] results))

  answer_embedded-Answered :
      (hn : HackNewsHnsw) (embs : List E) (top_k : ℕ) (resp : HttpResponse)
      → resp.is_sealed ≡ false
      → Answered resp (answer_embedded engine hn embs top_k resp)
  unfolding answer_embedded answer_found with_code with_header with_body
  answer_embedded-Answered hn [] top_k resp fresh = inr (inl (refl, refl))
  answer_embedded-Answered hn (emb ∷ []) top_k resp fresh =
      elim (Bool-cases (engine.dim emb == hn.meta_dim)) [
        | inr other ↦ rw other (inr (inl (refl, refl)))
        | inl same ↦ rw same (rw fresh (inr (inr (_, refl, refl, unique_items-Distinct _ []))))
      ]
  answer_embedded-Answered hn (emb ∷ more ∷ embs) top_k resp fresh = inr (inl (refl, refl))

  either-Answered :
      (up : Bool) (resp down_resp up_resp : HttpResponse)
      → Answered resp down_resp
      → Answered resp up_resp
      → Answered resp (if not up then down_resp else up_resp)
  either-Answered true resp down_resp up_resp h k = k
  either-Answered false resp down_resp up_resp h k = h

  answer-Answered :
      (hn : HackNewsHnsw) (ask : Option (Bytes × ℕ)) (resp : HttpResponse)
      → resp.is_sealed ≡ false
      → Answered resp (answer engine hn ask resp)
  unfolding answer with_code
  answer-Answered hn none resp fresh = inl (refl, refl)
  answer-Answered hn (some (query, top_k)) resp fresh =
      either-Answered engine.is_model_serving resp (with_code internal_err resp) _
        (inr (inl (refl, refl)))
        (answer_embedded-Answered hn (engine.generate_embedding query) top_k resp fresh)

  -- Where the handler returns, on a response whose body is not yet set: it answers 400 or 500 and
  -- leaves the body, or it answers 200 with the text of results of which no two have one URL.
  pub search_hacker_news_handler-Answered :
      (hn : HackNewsHnsw) (req : HttpRequest) (resp : HttpResponse) {resp' : HttpResponse}
      → resp.is_sealed ≡ false
      → search_hacker_news_handler engine hn req resp ≡ ok resp'
      → Answered resp resp'
  unfolding search_hacker_news_handler
  search_hacker_news_handler-Answered hn req resp {resp'} fresh e =
      let (ask, asked_it, e') = bind-eq-ok (asked engine req) _ e in
      let made : answer engine hn ask resp ≡ resp' = ground (arith, e') in
      subst (Answered resp) made (answer-Answered hn ask resp fresh)
