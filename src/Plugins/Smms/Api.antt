-- ===== src/Plugins/Smms/Api.antt =====
-- src/plugin/smms.hpp: the calls of the service, and the files of the upload history.
use lingdong.Prelude.{
  ℕ, zero, suc, ◌+◌, ◌%◌, ◌^◌, Bool, false, not, ◌&&◌, List, [], ◌∷◌, ◌++◌, Bytes, Option, none,
  some, Result, ok, fail, undefined, no_fuel, ◌>>=◌, is_empty, ltb, ◌==◌, if◌then◌else◌,
}
use lingdong.Plugins.Smms.{SmmsUploadHistory, History, add_all}

-- A member that the code reads at once: of a constant object that has no such member, `operator[]`
-- is undefined, and `get` throws where the member is of another type.
abbrev pub read {ℓ} : {A : Type ℓ} → Option (Result A) → Result A
read none = fail undefined
read (some member) = member

-- An object of the history.
pub record HistoryJson : Type 0 where
  pub json_file_name : Option (Result Bytes)
  pub json_store_name : Option (Result Bytes)
  pub json_hash : Option (Result Bytes)
  pub json_size : Option (Result ℕ)
  pub json_created_at : Option (Result Bytes)
  pub json_url : Option (Result Bytes)
  pub json_delete : Option (Result Bytes)

abbrev pub read_or : Option (Result Bytes) → Bytes → Result Bytes
read_or none old = ok old
read_or (some member) old = member

unfoldable pub from : HistoryJson → SmmsUploadHistory → Result SmmsUploadHistory
from j h = do
  file_name ← read j.json_file_name
  store_name ← read j.json_store_name
  hash ← read j.json_hash
  size ← read j.json_size
  created_at ← read_or j.json_created_at h.created_at
  url ← read j.json_url
  url4del ← read j.json_delete
  ok (record {
    file_name = file_name;
    store_name = store_name;
    hash = hash;
    size = size;
    created_at = created_at;
    url = url;
    url4del = url4del;
  })

unfoldable pub to : SmmsUploadHistory → HistoryJson
to h = record {
  json_file_name = some (ok h.file_name);
  json_store_name = some (ok h.store_name);
  json_hash = some (ok h.hash);
  json_size = some (ok h.size);
  json_created_at = some (ok h.created_at);
  json_url = some (ok h.url);
  json_delete = some (ok h.url4del);
}

abbrev pub new_history : SmmsUploadHistory
new_history = record {
  file_name = [];
  store_name = [];
  hash = [];
  size = 0;
  created_at = [];
  url = [];
  url4del = [];
}

-- The loops that put what they read at the end of a vector.
unfoldable pub from_all : List HistoryJson → Result (List SmmsUploadHistory)
from_all [] = ok []
from_all (j ∷ js) = do h ← from j new_history; vec ← from_all js; ok (h ∷ vec)

unfoldable pub to_all : History → List HistoryJson
to_all [] = []
to_all ((name, h) ∷ history) = to h ∷ to_all history

-- What the JSON library makes of a text that holds a history, and the text of one, if all its
-- strings can be written.
pub record Json : Type 0 where
  pub parse_histories : Bytes → Result (List HistoryJson)
  pub dump_histories : List HistoryJson → Result Bytes

module _ (json : Json) where
  unfoldable pub read_histories : Bytes → Result (List SmmsUploadHistory)
  read_histories text = do js ← json.parse_histories text; from_all js

  unfoldable pub read_shared : Option Bytes → Result (List SmmsUploadHistory)
  read_shared none = ok []
  read_shared (some text) = read_histories text

  -- What is behind the shared history: the cached one, or in place of both what the service gives.
  unfoldable pub read_cached :
      Option Bytes
      → Result (List SmmsUploadHistory)
      → List SmmsUploadHistory
      → Result (List SmmsUploadHistory)
  read_cached none fetched shared = fetched
  read_cached (some text) fetched shared = do cached ← read_histories text; ok (shared ++ cached)

  -- `load_upload_history`, on the texts of the shared file and of the cached one, where they are,
  -- and on what the service gives if it is asked.
  unfoldable pub load_upload_history :
      Option Bytes → Option Bytes → Result (List SmmsUploadHistory) → History → Result History
  load_upload_history shared cached fetched history = do
    shared_vec ← read_shared shared
    vec ← read_cached cached fetched shared_vec
    ok (add_all vec history)

  -- `cache_upload_history`: the text of the file, if it can be opened.
  unfoldable pub cache_upload_history : Bool → History → Result (Option Bytes)
  cache_upload_history can_open history = do
    text ← json.dump_histories (to_all history)
    ok (if can_open then some text else none)

-- A member that the code tests first.
pub data Member (A : Type 0) : Type 0 where
  missing other : Member A
  value : A → Member A

abbrev pub is_success : Member Bool → Bool
is_success missing = false
is_success other = false
is_success (value b) = b

-- The answer to a request: its status, and what the code reads of its text.
pub record Reply (J : Type 0) : Type 0 where
  pub status_code : ℕ
  pub text : Result J

pub record TokenJson : Type 0 where
  pub token_success : Member Bool
  pub token_data : Member (Option (Result Bytes))

pub record PageJson : Type 0 where
  pub page_success : Member Bool
  pub page_data : Member (List HistoryJson)
  pub current_page : Option (Result ℕ)
  pub total_pages : Option (Result ℕ)

pub record UploadJson : Type 0 where
  pub upload_success : Member Bool
  pub upload_data : Member HistoryJson

pub record SmmsOpenApi : Type 0 where
  pub username : Bytes
  pub password : Bytes
  pub api_token : Bytes

unfoldable pub set_api_token : Bytes → SmmsOpenApi → SmmsOpenApi
set_api_token token api = record api { api_token = token }

-- The token in an answer of the service; empty where there is none.
unfoldable pub token_of : Member (Option (Result Bytes)) → Result Bytes
token_of missing = ok []
token_of other = ok []
token_of (value none) = ok []
token_of (value (some token)) = token

unfoldable pub token_in : Reply TokenJson → Result Bytes
token_in r =
    if not (r.status_code == 200)
    then ok []
    else do rj ← r.text; if not (is_success rj.token_success) then ok [] else token_of rj.token_data

-- `fetch_api_token`, with the answer that it gets if it asks.
unfoldable pub fetch_api_token : Reply TokenJson → SmmsOpenApi → Result (Bytes × SmmsOpenApi)
fetch_api_token r api =
    if not (is_empty api.api_token)
    then ok (api.api_token, api)
    else do token ← token_in r; ok (token, if is_empty token then api else set_api_token token api)

-- `next_page`, which 0 ends, and the history with the entries of the page.
unfoldable pub read_page :
    PageJson → List HistoryJson → List SmmsUploadHistory → Result (ℕ × List SmmsUploadHistory)
read_page rj js history_vec = do
  hs ← from_all js
  current ← read rj.current_page
  total ← read rj.total_pages
  ok (if ltb current total then (current + 1) % 2 ^ 32 else 0, history_vec ++ hs)

unfoldable pub page_entries :
    PageJson
    → Member (List HistoryJson)
    → List SmmsUploadHistory
    → Result (ℕ × List SmmsUploadHistory)
page_entries rj missing history_vec = ok (0, history_vec)
page_entries rj other history_vec = ok (0, history_vec)
page_entries rj (value js) history_vec = read_page rj js history_vec

-- `fetch_one_page`: where it gives false the loop breaks, which is here a next page of 0.
unfoldable pub fetch_one_page :
    Reply PageJson → List SmmsUploadHistory → Result (ℕ × List SmmsUploadHistory)
fetch_one_page r history_vec = if not (r.status_code == 200) then ok (0, history_vec) else do
  rj ← r.text
  if not (is_success rj.page_success)
      then ok (0, history_vec)
      else page_entries rj rj.page_data history_vec

-- The loop of `fetch_upload_history`. A page is an `int`, so that a word from 2 ^ 31 on is
-- negative. The answer may depend on the number of requests so far.
unfoldable pub fetch_pages :
    (ℕ → ℕ → Reply PageJson) → ℕ → ℕ → ℕ → List SmmsUploadHistory → Result (List SmmsUploadHistory)
fetch_pages get_page zero asked next_page history_vec =
    if ltb 0 next_page && ltb next_page (2 ^ 31) then fail no_fuel else ok history_vec
fetch_pages get_page (suc fuel) asked next_page history_vec =
    let rest = (do
      (page, vec) ← fetch_one_page (get_page asked next_page) history_vec
      fetch_pages get_page fuel (asked + 1) page vec) in
    if ltb 0 next_page && ltb next_page (2 ^ 31) then rest else ok history_vec

-- `fetch_upload_history`: the answers to the requests for pages depend on the token.
unfoldable pub fetch_upload_history :
    Reply TokenJson
    → (Bytes → ℕ → ℕ → Reply PageJson)
    → ℕ
    → SmmsOpenApi
    → Result (List SmmsUploadHistory × SmmsOpenApi)
fetch_upload_history token_reply get_page fuel api = do
  (token, api') ← fetch_api_token token_reply api
  vec ← fetch_pages (get_page token) fuel 0 1 []
  ok (vec, api')

unfoldable pub uploaded_entry : Member HistoryJson → Result (Option SmmsUploadHistory)
uploaded_entry missing = ok none
uploaded_entry other = ok none
uploaded_entry (value j) = do h ← from j new_history; ok (some h)

-- `upload`, by what the service answers to the token.
unfoldable pub upload :
    Reply TokenJson
    → (Bytes → Reply UploadJson)
    → SmmsOpenApi
    → Result (Option SmmsUploadHistory × SmmsOpenApi)
upload token_reply post_file api = do
  (token, api') ← fetch_api_token token_reply api
  let r = post_file token
  if not (r.status_code == 200) then ok (none, api') else do
    rj ← r.text
    if not (is_success rj.upload_success)
        then ok (none, api')
        else do entry ← uploaded_entry rj.upload_data; ok (entry, api')

-- `del`, by the member success of what the service answers.
unfoldable pub del :
    Reply TokenJson → (Bytes → Reply (Member Bool)) → SmmsOpenApi → Result (Bool × SmmsOpenApi)
del token_reply get_deleted api = do
  (token, api') ← fetch_api_token token_reply api
  let r = get_deleted token
  if not (r.status_code == 200)
      then ok (false, api')
      else do success ← r.text; ok (is_success success, api')
