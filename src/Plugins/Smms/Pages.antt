-- ===== src/Plugins/Smms/Pages.antt =====
-- src/plugin/smms.hpp: how many pages of the upload history are fetched.
use lingdong.Prelude.{
  ℕ, zero, suc, ◌+◌, ◌%◌, ◌^◌, ◌≤◌, ◌<◌, ◌≡◌, refl, ap, ◌∙◌, true, false, List, [], ◌++◌, map, some,
  ok, fail, no_fuel, append-nil, append_assoc, Bytes, ltb, ◌&&◌, if◌then◌else◌, arith,
}
use lingdong.Plugins.Smms.{SmmsUploadHistory}
use lingdong.Plugins.Smms.Api.{
  to, Reply, PageJson, TokenJson, SmmsOpenApi, fetch_api_token, fetch_upload_history, value,
  read_page, page_entries, fetch_one_page, fetch_pages,
}
use lingdong.Plugins.Smms.Cached.{from_all-map}

-- The page `page` of `total` ones, with these entries.
abbrev pub page_reply : ℕ → ℕ → List SmmsUploadHistory → Reply PageJson
page_reply total page hs = record {
  status_code = 200;
  text = ok (record {
    page_success = value true;
    page_data = value (map to hs);
    current_page = some (ok page);
    total_pages = some (ok total);
  });
}

-- The entries of `left` pages, from `page` on.
abbrev pub entries_from : (ℕ → List SmmsUploadHistory) → ℕ → ℕ → List SmmsUploadHistory
entries_from content page zero = []
entries_from content page (suc left) = content page ++ entries_from content (suc page) left

fetch_pages-done :
    (get_page : ℕ → ℕ → Reply PageJson) (fuel asked : ℕ) (vec : List SmmsUploadHistory)
    → fetch_pages get_page fuel asked 0 vec ≡ ok vec
unfolding fetch_pages
fetch_pages-done get_page zero asked vec = refl
fetch_pages-done get_page (suc fuel) asked vec = refl

fetch_one_page-reply :
    (total page : ℕ) (hs vec : List SmmsUploadHistory)
    → fetch_one_page (page_reply total page hs) vec
      ≡ ok (if ltb page total then (page + 1) % 2 ^ 32 else 0, vec ++ hs)
unfolding fetch_one_page page_entries read_page
fetch_one_page-reply total page hs vec = rw (from_all-map hs) refl

fetch_pages-paged :
    (get_page : ℕ → ℕ → Reply PageJson) (content : ℕ → List SmmsUploadHistory)
    (total fuel asked page left : ℕ) (vec : List SmmsUploadHistory)
    → total < 2 ^ 31
    → ((n p : ℕ) → 1 ≤ p → p ≤ total → get_page n p ≡ page_reply total p (content p))
    → 1 ≤ page
    → page + left ≡ total
    → left < fuel
    → fetch_pages get_page fuel asked page vec ≡ ok (vec ++ entries_from content page (suc left))
unfolding fetch_pages
fetch_pages-paged get_page content total zero asked page left vec small paged p e enough =
    absurd (omega arith)
fetch_pages-paged get_page content total (suc fuel) asked page zero vec small paged p e enough =
    let last : ltb page total ≡ false = ground arith in
    let more : ltb 0 page && ltb page (2 ^ 31) ≡ true = ground arith in
    rw (more, paged asked page p (omega arith), fetch_one_page-reply total page (content page) vec)
      (rw (last, append-nil (content page))
        (fetch_pages-done get_page fuel (asked + 1) (vec ++ content page)))
fetch_pages-paged get_page content total (suc fuel) asked page (suc left) vec small paged p e
      enough =
    let next : ltb page total ≡ true = ground arith in
    let more : ltb 0 page && ltb page (2 ^ 31) ≡ true = ground arith in
    let word : (page + 1) % 2 ^ 32 ≡ suc page = omega arith in
    let rest =
      fetch_pages-paged get_page content total fuel (asked + 1) (suc page) left
        (vec ++ content page) small paged (omega arith) (omega arith) (omega arith) in
    rw (more, paged asked page p (omega arith), fetch_one_page-reply total page (content page) vec)
      (rw (next, word) (rest ∙ ap ok (append_assoc vec (content page) _)))

-- If there is a token, or the service gives one, and the service answers each request for one of
-- its pages with that page and the number of pages, of which there is one at least and fewer than
-- 2 ^ 31, then `fetch_upload_history` ends after as many requests as there are pages, and its
-- result are the entries of all pages, in their order.
pub fetch_upload_history-paged :
    (token_reply : Reply TokenJson) (get_page : Bytes → ℕ → ℕ → Reply PageJson)
    (content : ℕ → List SmmsUploadHistory) (total fuel : ℕ) (token : Bytes) (api api' : SmmsOpenApi)
    → fetch_api_token token_reply api ≡ ok (token, api')
    → 1 ≤ total
    → total < 2 ^ 31
    → total ≤ fuel
    → ((n p : ℕ) → 1 ≤ p → p ≤ total → get_page token n p ≡ page_reply total p (content p))
    → fetch_upload_history token_reply get_page fuel api ≡ ok (entries_from content 1 total, api')
unfolding fetch_upload_history
fetch_upload_history-paged token_reply get_page content zero fuel token api api' known some_page
      small enough paged =
    absurd (omega arith)
fetch_upload_history-paged token_reply get_page content (suc left) fuel token api api' known
      some_page small enough paged =
    let fetched =
      fetch_pages-paged (get_page token) content (suc left) fuel 0 1 left [] small paged
        (omega arith) (omega arith) (omega arith) in
    rw (known, fetched) refl

-- If the service answers every request with its first page, and says that there are more, then the
-- loop does not end: no number of rounds is enough.
pub fetch_pages-no_fuel :
    (get_page : ℕ → ℕ → Reply PageJson) (hs vec : List SmmsUploadHistory)
    (total fuel asked page : ℕ)
    → 1 < total
    → 1 ≤ page
    → page < 2 ^ 31
    → ((n p : ℕ) → get_page n p ≡ page_reply total 1 hs)
    → fetch_pages get_page fuel asked page vec ≡ fail no_fuel
unfolding fetch_pages
fetch_pages-no_fuel get_page hs vec total zero asked page more p small stuck =
    let on : ltb 0 page && ltb page (2 ^ 31) ≡ true = ground arith in rw on refl
fetch_pages-no_fuel get_page hs vec total (suc fuel) asked page more p small stuck =
    let on : ltb 0 page && ltb page (2 ^ 31) ≡ true = ground arith in
    let next : ltb 1 total ≡ true = ground arith in
    rw (on, stuck asked page, fetch_one_page-reply total 1 hs vec)
      (rw next (
        fetch_pages-no_fuel get_page hs (vec ++ hs) total fuel (asked + 1) 2 more (omega arith)
          (omega arith) stuck))
