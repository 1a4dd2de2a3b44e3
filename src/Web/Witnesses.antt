-- ===== src/Web/Witnesses.antt =====
-- The theorem on src/web.hpp at a small request.
use lingdong.Prelude.{
  Bool, Result, fail, All, arith, ◌∙◌, Lacks, is_among, ℕ, zero, suc, ◌≡◌, refl, sym, subst, true,
  false, List, [], ◌∷◌, ◌++◌, Bytes, codes, bytes_eq, Option, none, some, ok,
}
use lingdong.Prelude.Map.{lookup, insert, contains}
use lingdong.Http.Request.{HttpRequest, new_request}
use lingdong.Http.Response.{
  HttpResponse, new_response, status_ok, with_code, with_header, with_body,
}
use lingdong.HackerNews.{HackerNewItem, new_item}
use lingdong.Web.{
  Engine, HackNewsHnsw, json_type, ask_of, top_k_of, asked, with_items, search, unique_items,
  answer_found, answer_embedded, answer, search_hacker_news_handler,
}
use lingdong.Rss.{
  Xml, Rss, new_rss, parse, parse_root, parse_rss, parse_channel, rss_items, rss_item,
}
use lingdong.Web.Base64.{Coding, source_of, answer_target, base64_handler, base64_handler-target_of}
use lingdong.Web.Feeds.{
  Wish, Tools, Database, json_wish, wish_of, answer_code, insert_entries, end_transaction,
  answer_added, add_entries, item_sql, title_or, add_feed, register_feed, register_text,
  register_new, register_wish, rss_register_handler,
}
use lingdong.Web.Feeds.Transaction.{IsPlain, Within, begun, inserted, not_committed}
use lingdong.Web.Feeds.Registered.{IsRegistered, rss_register_handler-IsRegistered}
use lingdong.Web.Search.{Answered, search_hacker_news_handler-Answered}

-- A model whose vectors are numbers of dimension 1; three results, two of them with one URL.
abbrev sample_engine : Engine ℕ ℕ
sample_engine = record {
  parse_json = λ s. ok (none, none);
  stoi = λ s. ok 2;
  is_model_serving = true;
  generate_embedding = λ s. 0 ∷ [];
  dim = λ e. 1;
  search_knn = λ e n. some ((9, 1) ∷ (8, 2) ∷ (7, 3) ∷ []);
  dump_result = λ results. codes "r";
}

abbrev story_of : ℕ → Option HackerNewItem
story_of id = some (record new_item { id = id; url = codes "u" })

abbrev index : HackNewsHnsw
index = record { loaded = true; meta_dim = 1; fwd = story_of }

abbrev query_request : HttpRequest
query_request = record new_request {
  q = record { path = codes "/tool/hn/search/"; params = (codes "query", codes "cpp") ∷ [] };
}

unique_test :
    unique_items sample_engine (search sample_engine index 0 2) []
    ≡ (record new_item { id = 1; url = codes "u" }, 9) ∷ []
unfolding unique_items search with_items is_among bytes_eq
unique_test = refl

abbrev found_response : HttpResponse
found_response = record {
  code = status_ok;
  resp_headers = (codes "Content-Type", json_type) ∷ [];
  is_sealed = true;
  body = codes "r";
}

query_run :
    search_hacker_news_handler sample_engine index query_request new_response ≡ ok found_response
unfolding search_hacker_news_handler asked ask_of top_k_of answer answer_embedded answer_found
    with_code with_header with_body lookup insert bytes_eq
query_run = refl

search_hacker_news_handler-Answered_example : Answered sample_engine new_response found_response
search_hacker_news_handler-Answered_example =
    search_hacker_news_handler-Answered sample_engine index query_request new_response refl
      query_run

-- An encoding that puts a byte in front.
abbrev sample_unescape : Bytes → Option Bytes
sample_unescape [] = none
sample_unescape (c ∷ s) = some s

abbrev sample_coding : Coding
sample_coding = record {
  escape = λ web s. b'x' ∷ s;
  unescape = λ web s. sample_unescape s;
  dump_target = λ src target. ok (src ++ target);
}

abbrev encode_request : HttpRequest
encode_request = record new_request {
  q = record { path = codes "/tool/base64/"; params = (codes "src", codes "a") ∷ [] };
}

abbrev decode_request : HttpRequest
decode_request = record new_request {
  q = record { path = codes "/tool/base64/"; params = (codes "to_decode", []) ∷ [] };
  body = codes "xa";
}

encode_source : source_of encode_request ≡ some (codes "a")
unfolding source_of lookup bytes_eq
encode_source = refl

encode_params : contains (codes "to_decode") encode_request.q.params ≡ false
unfolding contains bytes_eq
encode_params = refl

decode_params : contains (codes "to_decode") decode_request.q.params ≡ true
unfolding contains bytes_eq
decode_params = refl

web_params :
    contains (codes "for_web") decode_request.q.params
    ≡ contains (codes "for_web") encode_request.q.params
unfolding contains bytes_eq
web_params = refl

base64_handler-target_of_example :
    (base64_handler sample_coding encode_request new_response
      ≡ answer_target sample_coding (codes "a") (codes "xa") new_response)
    × (base64_handler sample_coding decode_request new_response
        ≡ answer_target sample_coding (codes "xa") (codes "a") new_response)
base64_handler-target_of_example =
    base64_handler-target_of sample_coding encode_request decode_request new_response (codes "a")
      (λ web s. refl) encode_source encode_params decode_params web_params refl refl

-- A feed with one entry, each element of which has the text t.
abbrev sample_xml : Xml ℕ
sample_xml = record {
  name = λ e. codes "rss";
  children = λ tag e. 1 ∷ [];
  get_text = λ e. some (codes "t");
  attribute = λ name e. none;
}

abbrev sample_tools : Tools ℕ
sample_tools = record {
  parse_json = λ s. ok (some (ok (codes "u")), none, none);
  str_split = λ s c. s ∷ [];
  get = λ url. some (codes "<rss/>");
  xml = sample_xml;
  parse_xml = λ s. some (some 0);
  print_id = λ id. codes "7";
  dump_code = λ n msg. msg;
}

-- A database that counts what was added, with the counts from before the open transactions.
abbrev count_one : Bytes → List ℕ → Bool × List ℕ
count_one sql [] = (false, [])
count_one sql (n ∷ before) = (true, suc n ∷ before)

abbrev count_ids : List ℕ → List ℕ
count_ids [] = []
count_ids (zero ∷ before) = []
count_ids (suc n ∷ before) = 7 ∷ []

abbrev begin_counts : List ℕ → Option (List ℕ)
begin_counts [] = none
begin_counts (n ∷ before) = some (n ∷ n ∷ before)

abbrev commit_counts : List ℕ → Bool × List ℕ
commit_counts [] = (false, [])
commit_counts (n ∷ []) = (false, n ∷ [])
commit_counts (n ∷ m ∷ before) = (true, n ∷ before)

abbrev drop_count : List ℕ → Option (List ℕ)
drop_count [] = none
drop_count (n ∷ before) = some before

abbrev sample_db : Database (List ℕ)
sample_db = record {
  exec = count_one;
  query_ids = λ sql s. ok (count_ids s);
  begin = begin_counts;
  commit = commit_counts;
  rollback = drop_count;
}

-- The counts of `t` are those of `s0`, below that of the transaction.
abbrev Opened : List ℕ → List ℕ → Type 0
Opened s0 [] = ⊥
Opened s0 (n ∷ before) = before ≡ s0

begin_counts-Opened : (s0 : List ℕ) {t : List ℕ} → begin_counts s0 ≡ some t → Opened s0 t
begin_counts-Opened [] e = cc
begin_counts-Opened (n ∷ before) e =
    let same : n ∷ n ∷ before ≡ _ = cc e in subst (Opened (n ∷ before)) same refl

count_one-Opened : (s0 t : List ℕ) (sql : Bytes) → Opened s0 t → Opened s0 (count_one sql t).1
count_one-Opened s0 [] sql h = h
count_one-Opened s0 (n ∷ before) sql h = h

commit_counts-Opened :
    (s0 t : List ℕ) → (commit_counts t).0 ≡ false → Opened s0 t → Opened s0 (commit_counts t).1
commit_counts-Opened s0 [] e h = h
commit_counts-Opened s0 (n ∷ []) e h = h
commit_counts-Opened s0 (n ∷ m ∷ before) e h = cc e

Within-Opened : (s0 : List ℕ) {t : List ℕ} → Within sample_tools sample_db s0 t → Opened s0 t
Within-Opened s0 (begun e) = begin_counts-Opened s0 e
Within-Opened s0 (inserted {t} id entry plain within) =
    count_one-Opened s0 t (item_sql sample_tools sample_db id entry) (Within-Opened s0 within)
Within-Opened s0 (not_committed {t} failed within) =
    commit_counts-Opened s0 t failed (Within-Opened s0 within)

drop_count-Opened : (s0 t s' : List ℕ) → Opened s0 t → drop_count t ≡ some s' → s' ≡ s0
drop_count-Opened s0 [] s' h e = absurd h
drop_count-Opened s0 (n ∷ before) s' h e = let same : before ≡ s' = cc e in sym same ∙ h

sample_db-undone :
    (s0 t s' : List ℕ)
    → Within sample_tools sample_db s0 t
    → sample_db.rollback t ≡ some s'
    → s' ≡ s0
sample_db-undone s0 t s' within e = drop_count-Opened s0 t s' (Within-Opened s0 within) e

unfoldable SampleEntries : Result Rss → Type 0
SampleEntries (ok rss) = All IsPlain rss.entries
SampleEntries (fail f) = Unit

t-Lacks : Lacks b'"' (codes "t")
t-Lacks = (λ e. absurd (omega (arith, e)), tt)

sample_feed_plain : SampleEntries (parse sample_xml (some (some 0)) new_rss)
unfolding SampleEntries parse parse_root parse_rss parse_channel rss_items rss_item bytes_eq
sample_feed_plain = ((t-Lacks, t-Lacks, t-Lacks, t-Lacks), tt)

sample_tools-IsPlain :
    (url text : Bytes) (rss : Rss)
    → sample_tools.get url ≡ some text
    → parse sample_tools.xml (sample_tools.parse_xml text) new_rss ≡ ok rss
    → All IsPlain rss.entries
unfolding SampleEntries
sample_tools-IsPlain url text rss got e = subst SampleEntries e sample_feed_plain

abbrev register_request : HttpRequest
register_request = record new_request {
  headers = (codes "Content-Type", json_type) ∷ [];
  body = codes "{}";
}

abbrev added_response : HttpResponse
added_response = record {
  code = status_ok;
  resp_headers = (codes "Content-Type", json_type) ∷ [];
  is_sealed = true;
  body = codes "success";
}

register_run :
    rss_register_handler sample_tools sample_db register_request new_response (0 ∷ [])
    ≡ ok (added_response, 2 ∷ [])
unfolding rss_register_handler wish_of json_wish register_wish register_new register_text parse
    parse_root parse_rss parse_channel rss_items rss_item register_feed add_feed add_entries
    insert_entries end_transaction answer_added answer_code title_or with_code with_body with_header
    lookup insert bytes_eq
register_run = refl

rss_register_handler-IsRegistered_example :
    (wish : Wish) × (wish_of sample_tools sample_db
        (lookup (codes "Content-Type") register_request.headers)
        register_request.body
      ≡ ok wish)
    × IsRegistered sample_tools sample_db wish (0 ∷ []) (added_response, 2 ∷ [])
rss_register_handler-IsRegistered_example =
    rss_register_handler-IsRegistered sample_tools sample_db register_request new_response (0 ∷ [])
      sample_db-undone sample_tools-IsPlain refl register_run
